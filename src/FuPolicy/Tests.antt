-- ===== src/FuPolicy/Tests.antt =====
-- The two loops of `combination` on two guests, over the integers, and the theorem about it at
-- concrete inputs.
use mom_perf_fair_scheduler.Common.{◌≡◌, refl, true, false, none, some, [], ◌∷◌, Dict}
use mom_perf_fair_scheduler.Number.Integers.{
  ℤ, pos, negsuc, integers, integers-IsOrdered, integers-IsExact, leb_ℤ, floor_div, ◌-ℤ◌, ◌*ℤ◌,
  ◌+ℤ◌,
}
use mom_perf_fair_scheduler.FuPolicy.Algorithm.{combination, exceeds, sum_of}
use mom_perf_fair_scheduler.FuPolicy.Algorithm.Budget.{combination-within}
use mom_perf_fair_scheduler.FuPolicy.Evaluate.{Guest, FuPolicy, evaluate}

abbrev fair : Dict ℤ
fair = ("a", pos 500) ∷ ("b", pos 300) ∷ []

abbrev needed : Dict ℤ
needed = ("a", pos 400) ∷ ("b", pos 600) ∷ []

abbrev config : Dict ℤ
config = ("a", pos 450) ∷ ("b", pos 900) ∷ []

-- The guest `b` is 300 above its fair share, and gives the 200 that are missing.
shortage_runs :
    combination integers fair needed (pos 800) config ≡ some (("a", pos 400) ∷ ("b", pos 400) ∷ [])
unfolding combination leb_ℤ ◌-ℤ◌ ◌+ℤ◌
shortage_runs = refl

-- The guest `a` gets no more than its configuration, and `b` gives its 300, which nobody gets.
surplus_runs :
    combination integers fair needed (pos 1200) config ≡ some (("a", pos 450) ∷ ("b", pos 300) ∷ [])
unfolding combination leb_ℤ ◌-ℤ◌ ◌+ℤ◌
surplus_runs = refl

combination-within_example :
    leb_ℤ (sum_of integers (("a", pos 400) ∷ ("b", pos 400) ∷ [])) (pos 800) ≡ true
unfolding exceeds sum_of leb_ℤ ◌-ℤ◌ ◌+ℤ◌
combination-within_example =
    combination-within integers integers-IsExact integers-IsOrdered fair needed config
      (("a", negsuc 99) ∷ ("b", pos 300) ∷ []) (("a", pos 400) ∷ ("b", pos 400) ∷ []) (pos 800) refl
      (λ h. refl) shortage_runs

-- A guest that is gone still has its memory counted, and stops the next round.
abbrev policy : FuPolicy integers
policy = record {
  allocated_mems = ("gone", pos 10) ∷ [];
  total_mem_alltime = pos 100;
  first = false;
}

abbrev guest : Guest integers
guest = record {
  name = "a";
  weight = pos 1;
  mem_unused = pos 1;
  balloon_max = pos 9;
  balloon_cur = pos 5;
  swap_out = pos 0;
  statistics = record { balloon_cur = pos 5; mem_unused = pos 1; swap_out = pos 0 } ∷ [];
}

gone_guest_stops : (evaluate integers (pos 10) (guest ∷ []) policy).0 ≡ none
unfolding evaluate leb_ℤ floor_div ◌-ℤ◌ ◌*ℤ◌ ◌+ℤ◌
gone_guest_stops = refl
