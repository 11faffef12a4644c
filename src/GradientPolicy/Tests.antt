-- ===== src/GradientPolicy/Tests.antt =====
-- The gradient policy on two guests, over the integers, and the theorems about it at concrete
-- inputs.
use mom_perf_fair_scheduler.Common.{
  String, ◌≡◌, refl, false, none, some, [], ◌∷◌, Dict, values, arith,
}
use mom_perf_fair_scheduler.Number.Integers.{
  ℤ, pos, negsuc, integers, integers-IsOrdered, integers-IsExact, integers-IsRing, leb_ℤ, floor_div,
  ◌-ℤ◌, ◌*ℤ◌, ◌+ℤ◌,
}
use mom_perf_fair_scheduler.RpPolicy.Fitting.{new_fitting}
use mom_perf_fair_scheduler.RpPolicy.Allocate.{Progress}
use mom_perf_fair_scheduler.GradientPolicy.VmInfo.{VmInfo, no_direction, up, down}
use mom_perf_fair_scheduler.GradientPolicy.Allocate.{
  update_gradient, perf_fair, choose_giver, choose_taker,
}
use mom_perf_fair_scheduler.GradientPolicy.Allocate.Gradient.{
  weighted_sum, DividesExactly, update_gradient-weighted_sum,
}
use mom_perf_fair_scheduler.GradientPolicy.Allocate.Choice.{IsGiver, IsTaker, chosen_ends}

abbrev guest : String → ℤ → ℤ → VmInfo integers
guest name rate gradient = record {
  vm = name;
  configured = pos 4_000_000;
  min = pos 1_100_000;
  weight = pos 1;
  allocated = pos 2_000_000;
  speed = pos 0;
  rate = rate;
  fairness = pos 1;
  gradient = gradient;
  max_step = pos 60_000;
  limit1 = pos 900_000;
  limit2 = pos 10_000;
  consumed = pos 0;
  start_time = pos 0;
  start_user = pos 0;
  user = pos 0;
  pagefault = pos 0;
  free = pos 0;
  balloon = pos 2_000_000;
  swap = pos 0;
  iowait = pos 0;
  softirq = pos 0;
  system = pos 0;
  total = pos 0;
  used = pos 0;
  worksize = pos 0;
  grad_direct = no_direction;
  fitting = new_fitting integers (pos 1) (pos 1);
  balloon_target = none;
}

abbrev infos : Dict (VmInfo integers)
infos = ("slow", guest "slow" (pos 1) (pos 0)) ∷ ("fast", guest "fast" (pos 3) (pos 0)) ∷ []

-- The sums are 10 and 4: the gradients are (9 - 3 * 1) / 1 and (1 - 1 * 3) / 1.
abbrev graded : Dict (VmInfo integers)
graded =
    ("slow", record (guest "slow" (pos 1) (pos 6)) { fairness = pos 0 })
    ∷ ("fast", record (guest "fast" (pos 3) (negsuc 1)) { fairness = pos 0 })
    ∷ []

abbrev before : Progress integers
before = record { last_fair = pos 0; num_fair = 0; completed = false }

abbrev after : Progress integers
after = record before { num_fair = 1 }

update_gradient_runs : update_gradient integers infos before ≡ some (graded, after)
unfolding update_gradient leb_ℤ floor_div ◌-ℤ◌ ◌*ℤ◌ ◌+ℤ◌
update_gradient_runs = refl

-- The guest that is slow gets what the limits allow of the other.
abbrev stepped : Dict (VmInfo integers)
stepped =
    ("slow", record (guest "slow" (pos 1) (pos 6)) { fairness = pos 0; grad_direct = up })
    ∷ ("fast", record (guest "fast" (pos 3) (negsuc 1)) { fairness = pos 0; grad_direct = down })
    ∷ []

perf_fair_runs : perf_fair integers infos before ≡ (
  stepped,
  after,
  record { givers = ("fast", negsuc 9_999) ∷ []; takers = ("slow", pos 10_000) ∷ [] },
)
unfolding perf_fair leb_ℤ floor_div ◌-ℤ◌ ◌*ℤ◌ ◌+ℤ◌
perf_fair_runs = refl

-- To divide by 1 is exact.
by_one-DividesExactly :
    (name : String) (rate : ℤ) → DividesExactly integers (guest name rate (pos 0))
unfolding floor_div ◌*ℤ◌
by_one-DividesExactly name rate (pos a) = ground arith
by_one-DividesExactly name rate (negsuc a) = ground arith

update_gradient-weighted_sum_example : weighted_sum integers (values graded) ≡ pos 0
update_gradient-weighted_sum_example =
    update_gradient-weighted_sum integers integers-IsExact integers-IsRing infos graded before after
      (by_one-DividesExactly "slow" (pos 1), (by_one-DividesExactly "fast" (pos 3), tt))
      update_gradient_runs

chosen_ends_example :
    IsGiver integers
      (guest "fast" (pos 3) (negsuc 1))
      (guest "slow" (pos 1) (pos 6) ∷ guest "fast" (pos 3) (negsuc 1) ∷ [])
    × IsTaker integers
        (guest "slow" (pos 1) (pos 6))
        (guest "slow" (pos 1) (pos 6) ∷ guest "fast" (pos 3) (negsuc 1) ∷ [])
unfolding choose_giver choose_taker leb_ℤ
chosen_ends_example =
    chosen_ends integers integers-IsOrdered
      (guest "slow" (pos 1) (pos 6) ∷ guest "fast" (pos 3) (negsuc 1) ∷ [])
      (guest "fast" (pos 3) (negsuc 1)) (guest "slow" (pos 1) (pos 6)) refl refl
