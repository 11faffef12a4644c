-- ===== src/RpPolicy/Tests.antt =====
-- The memory policy on two guests, over the integers, and the theorems about it at concrete inputs.
use mom_perf_fair_scheduler.Common.{
  ℕ, String, ◌≡◌, refl, true, false, none, some, List, [], ◌∷◌, ◌++◌, length, Dict, arith, lookup,
  insert,
}
use mom_perf_fair_scheduler.Common.Sort.{sort}
use mom_perf_fair_scheduler.Number.Integers.{
  ℤ, pos, negsuc, integers, integers-IsOrdered, integers-IsExact, leb_ℤ, floor_div, ◌-ℤ◌, ◌*ℤ◌,
  ◌+ℤ◌,
}
use mom_perf_fair_scheduler.RpPolicy.Fitting
use mom_perf_fair_scheduler.RpPolicy.Fitting.{Fitting, new_fitting, before_newest, get_speed}
use mom_perf_fair_scheduler.RpPolicy.Fitting.Windows.{
  IsAligned, before_newest_place, update-IsAligned,
}
use mom_perf_fair_scheduler.RpPolicy.VmInfo.{
  Guest, VmInfo, dist2low, dist2high, min_share, init_attribute, update, update_speed,
}
use mom_perf_fair_scheduler.RpPolicy.Allocate.{
  Progress, Transfer, choose_giver, final_blk, dynamic_allocate, first_time,
}
use mom_perf_fair_scheduler.RpPolicy.Allocate.Choice.{Giver, choose_giver-highest, final_blk_bounds}
use mom_perf_fair_scheduler.RpPolicy.Allocate.Conservation.{
  sum_allocated, carried_out, dynamic_allocate-sum,
}
use mom_perf_fair_scheduler.RpPolicy.Evaluate.{RpPolicy, evaluate, update_guests}
use mom_perf_fair_scheduler.RpPolicy.Evaluate.Safety.{AllInRange, evaluate-AllInRange}

abbrev guest : String → ℕ → ℕ → ℕ → VmInfo integers
guest name allocated rate free = record {
  vm = name;
  configured = pos 4_000_000;
  min = pos 1_100_000;
  weight = pos 1;
  allocated = pos allocated;
  speed = pos rate;
  rate = pos rate;
  fairness = pos 0;
  start_time = pos 0;
  start_user = pos 0;
  user = pos 0;
  pagefault = pos 0;
  free = pos free;
  balloon = pos allocated;
  swap = pos 0;
  iowait = pos 0;
  softirq = pos 0;
  system = pos 0;
  total = pos 0;
  used = pos 0;
  worksize = pos 0;
  fitting = new_fitting integers (pos 1) (pos 1);
  balloon_target = none;
}

-- The guest `fast` has memory to give, and `slow` needs some.
abbrev fast : VmInfo integers
fast = guest "fast" 1_130_000 7 100_000

abbrev slow : VmInfo integers
slow = guest "slow" 1_100_000 3 50_000

abbrev infos : Dict (VmInfo integers)
infos = ("slow", slow) ∷ ("fast", fast) ∷ []

abbrev progress : Progress integers
progress = record { last_fair = pos 0; num_fair = 0; completed = false }

-- 58 * 100 / (2 * 58) rounds down to 0, so that the fairness of the integers is 0.
abbrev transfer : Transfer integers
transfer = record { givers = ("fast", negsuc 29_999) ∷ []; takers = ("slow", pos 30_000) ∷ [] }

dynamic_allocate_runs :
    dynamic_allocate integers infos progress
    ≡ some (infos, record progress { num_fair = 1 }, transfer)
unfolding dynamic_allocate leb_ℤ floor_div ◌-ℤ◌ ◌*ℤ◌ ◌+ℤ◌
dynamic_allocate_runs = refl

dynamic_allocate-sum_example :
    sum_allocated integers (carried_out integers transfer infos) ≡ sum_allocated integers infos
unfolding lookup
dynamic_allocate-sum_example =
    dynamic_allocate-sum integers integers-IsExact infos infos progress
      (record progress { num_fair = 1 }) transfer (refl, (refl, tt)) (refl, (refl, tt))
      dynamic_allocate_runs

choose_giver-highest_example : Giver integers integers-IsOrdered fast (fast ∷ slow ∷ [])
unfolding choose_giver sort leb_ℤ ◌-ℤ◌
choose_giver-highest_example =
    choose_giver-highest integers integers-IsOrdered (fast ∷ slow ∷ []) fast refl

final_blk_bounds_example :
    (integers.leb (final_blk integers fast slow) (dist2low integers fast) ≡ true)
    × (integers.leb (final_blk integers fast slow) (dist2high integers slow) ≡ true)
    × (integers.leb (final_blk integers fast slow) (pos min_share) ≡ true)
    × (integers.leb (pos 0) (final_blk integers fast slow) ≡ true)
unfolding dist2low leb_ℤ ◌-ℤ◌
final_blk_bounds_example = final_blk_bounds integers integers-IsOrdered fast slow refl

abbrev samples : List ℤ
samples = pos 3 ∷ pos 1 ∷ pos 4 ∷ []

before_newest_place_example :
    (front : List ℤ) × (newest : ℤ) × (samples
      ≡ front ++ (before_newest integers 1 samples ++ newest ∷ []))
    × (length (before_newest integers 1 samples) ≡ 1)
before_newest_place_example = before_newest_place integers 1 samples (omega arith)

update-IsAligned_example :
    IsAligned integers
      (Fitting.update integers (pos 1) (pos 2) (pos 3) (new_fitting integers (pos 1) (pos 1)))
update-IsAligned_example =
    update-IsAligned integers (pos 1) (pos 2) (pos 3) (new_fitting integers (pos 1) (pos 1))
      (record {
        pfs_length = refl;
        time_length = refl;
        ave_users_length = refl;
        ave_pfs_length = refl;
      })

-- A policy that has not seen a guest, and one guest that it meets.
abbrev pub fresh : RpPolicy integers
fresh = record {
  start = true;
  count = 0;
  vm_infos = [];
  progress = progress;
  total_mem_ratio = pos 1;
  alpha = pos 1;
  beta = pos 1;
}

abbrev pub met : Guest integers
met = record {
  name = "fast";
  weight = pos 1;
  balloon_max = pos 4_000_000;
  balloon_cur = pos 2_000_000;
  mem_unused = pos 100_000;
  swap_usage = pos 0;
  iowait = pos 0;
  softirq = pos 0;
  system = pos 0;
  total = pos 10;
  user = pos 5;
  major_fault = pos 1;
}

abbrev pub no_fit : List ℤ → List ℤ → List ℤ → ℤ
no_fit xs ys ws = pos 0

abbrev pub after_round : RpPolicy integers
after_round = elim (evaluate integers no_fit (pos 2_500_000) (met ∷ []) fresh) [
  | none ↦ fresh
  | some p ↦ p
]

evaluate-AllInRange_example : AllInRange integers after_round.vm_infos
unfolding evaluate leb_ℤ floor_div ◌-ℤ◌ ◌*ℤ◌ ◌+ℤ◌ first_time update_guests insert lookup
    init_attribute update update_speed get_speed
evaluate-AllInRange_example =
    evaluate-AllInRange integers no_fit (pos 2_500_000) (met ∷ []) fresh after_round tt refl
