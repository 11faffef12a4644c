-- ===== src/WfmPolicy/Tests.antt =====
-- A round of long-term fairness on two guests, over the integers, and the theorem about it at
-- concrete inputs.
use mom_perf_fair_scheduler.Common.{
  ℕ, String, ◌≡◌, refl, true, none, some, arith, List, [], ◌∷◌, lookup,
}
use mom_perf_fair_scheduler.Number.Integers.{
  pos, integers, integers-IsOrdered, integers-IsExact, leb_ℤ, floor_div, ◌-ℤ◌, ◌*ℤ◌, ◌+ℤ◌,
}
use mom_perf_fair_scheduler.RpPolicy.VmInfo.{Guest}
use mom_perf_fair_scheduler.WfmPolicy.Evaluate.{
  WfmPolicy, Round, new_round, add_guests, allocate, evaluate,
}
use mom_perf_fair_scheduler.WfmPolicy.Evaluate.Budget.{sum_of, allocate-budget}

abbrev guest : String → ℕ → Guest integers
guest name free = record {
  name = name;
  weight = pos 1;
  balloon_max = pos 4_000_000;
  balloon_cur = pos 2_000_000;
  mem_unused = pos free;
  swap_usage = pos 0;
  iowait = pos 0;
  softirq = pos 0;
  system = pos 0;
  total = pos 0;
  user = pos 0;
  major_fault = pos 0;
}

abbrev guests : List (Guest integers)
guests = guest "busy" 150_000 ∷ guest "idle" 1_000_000 ∷ []

abbrev policy : WfmPolicy integers
policy = record { total_mem_ratio = pos 1; total_used = []; vm_infos = [] }

abbrev round : Round integers
round = elim (add_guests integers guests (policy, new_round integers (pos 2_500_000))) [
  | none ↦ new_round integers (pos 0)
  | some (q, r) ↦ r
]

-- The idle guest has used less, and gets its demand of 1,150,000 first.
allocate_runs :
    allocate integers round ≡ (pos 0, ("busy", pos 1_350_000) ∷ ("idle", pos 1_150_000) ∷ [])
unfolding allocate add_guests leb_ℤ floor_div ◌-ℤ◌ ◌*ℤ◌ ◌+ℤ◌
allocate_runs = refl

-- A guest without a weight ends the round.
no_weight_runs :
    evaluate integers (pos 2_500_000) (record (guest "new" 0) { weight = pos 0 } ∷ []) policy ≡ none
unfolding evaluate add_guests leb_ℤ
no_weight_runs = refl

allocate-budget_example :
    (q : WfmPolicy integers) × (r : Round integers) × (add_guests integers guests
        (policy, new_round integers (pos 2_500_000))
      ≡ some (q, r))
    × (integers.plus (sum_of integers (allocate integers r).1) (allocate integers r).0
        ≡ pos 2_500_000)
    × (leb_ℤ (pos 0) (allocate integers r).0 ≡ true)
unfolding add_guests lookup leb_ℤ ◌-ℤ◌
allocate-budget_example =
    allocate-budget integers integers-IsExact integers-IsOrdered (pos 2_500_000) guests policy
      (refl, (refl, tt)) (refl, (refl, tt)) (λ name i e. absurd (ground arith)) refl
