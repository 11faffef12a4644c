-- ===== src/Collectors/Counters/Tests.antt =====
-- Runs of the collectors, and the theorems about their counters at concrete inputs.
use mom_perf_fair_scheduler.Common.{ℕ, ◌+◌, ◌%◌, ◌^◌, false, ◌≡◌, refl, none, some, [], ◌∷◌, arith}
use mom_perf_fair_scheduler.Number.Integers.{pos, integers, integers-IsExact}
use mom_perf_fair_scheduler.Collectors.{HostMemory, Memory, interval_jiffies, get_collectors}
use mom_perf_fair_scheduler.Collectors.Counters.{
  field_of_rounds, total_of, last_swap_in, interval_jiffies_wraps, swap_in_adds_up,
}

get_collectors_runs :
    get_collectors some false "HostMemory, HostCpu,,HostKSM"
    ≡ some ("HostMemory" ∷ "HostCpu" ∷ "HostKSM" ∷ [])
unfolding get_collectors
get_collectors_runs = refl

-- The counter wraps around between the rounds.
interval_jiffies_wraps_example :
    interval_jiffies (4_294_967_290 % 2 ^ 32) ((4_294_967_290 + 10) % 2 ^ 32) ≡ 10
interval_jiffies_wraps_example = interval_jiffies_wraps 4_294_967_290 10 (omega arith)

abbrev reading : ℕ → Memory integers
reading swapped = record {
  mem_total = pos 100;
  anon_pages = pos 10;
  mem_free = pos 20;
  buffers = pos 1;
  cached = pos 2;
  swap_total = pos 50;
  swap_free = pos 40;
  pswpin = pos swapped;
  pswpout = pos 0;
}

abbrev at_seven : HostMemory integers
at_seven = record {
  swap_in_prev = some (pos 7);
  swap_in_cur = some (pos 7);
  swap_out_prev = none;
  swap_out_cur = none;
}

swap_in_adds_up_example :
    integers.plus
      (total_of integers integers-IsExact (
        field_of_rounds integers integers-IsExact "swap_in" (reading 9 ∷ reading 12 ∷ []) at_seven))
      (pos 7)
    ≡ last_swap_in integers integers-IsExact (pos 7) (reading 9 ∷ reading 12 ∷ [])
swap_in_adds_up_example =
    swap_in_adds_up integers integers-IsExact (reading 9 ∷ reading 12 ∷ []) at_seven (pos 7) refl
