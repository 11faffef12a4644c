-- ===== src/GradientPolicy/Fitting.antt =====
-- mom/Policy/GradientPolicy.py: `Fitting`. It is the class of mom/Policy/RPPolicy.py with smaller
-- windows and other weights; what both have in common is taken from there.
use mom_perf_fair_scheduler.Common.{
  ℕ, Option, none, some, List, [], ◌∷◌, ◌++◌, map, ltb, leb, if◌then◌else◌, length,
}
use mom_perf_fair_scheduler.Number.{Number, ltb_num, eq_num, sum}
use mom_perf_fair_scheduler.RpPolicy.Fitting.{
  Fitting, before_newest, append_mean, newest, mean, append_standard, catch_up,
}

-- `AVE_LEN`, `WINDOW`
abbrev pub ave_len : ℕ
ave_len = 4

abbrev pub window : ℕ
window = 4

module _ (n : Number) where
  open n use {Num, of_ℕ, plus, minus, over}

  -- `mean_value`, for the samples of its key
  unfoldable pub mean_value : List Num → Option Num
  unfolding before_newest sum
  mean_value samples =
      if leb ave_len (length samples)
      then some (over (sum n (before_newest n ave_len samples)) (of_ℕ ave_len))
      else none

  -- `update(value1, value2, value3)`
  unfoldable pub update : Num → Num → Num → Fitting n → Fitting n
  unfolding mean_value
  update grow_user grow_pf total f =
      let users = f.users ++ grow_user ∷ [] in
      let pfs = f.pfs ++ grow_pf ∷ [] in
      record f {
        users = users;
        ave_users = append_mean n (mean_value users) f.ave_users;
        pfs = pfs;
        ave_pfs = append_mean n (mean_value pfs) f.ave_pfs;
        time = f.time ++ over total (of_ℕ 100) ∷ [];
      }

  -- The weight of one distance in `getWeight`.
  unfoldable pub weight_of : Num → Num
  weight_of d = if ltb_num n (of_ℕ 0) d then over (of_ℕ 1) d else of_ℕ 1

  module _ (intercept : List Num → List Num → List Num → Num) where
    -- `estimated()`, where there are enough samples
    unfoldable pub estimated : Fitting n → Num
    unfolding weight_of sum
    estimated f =
        let weights = map weight_of f.ave_pfs in
        intercept f.ave_pfs f.ave_users (
          if eq_num n (sum n weights) (of_ℕ 0) then map (λ w. plus w (of_ℕ 1)) weights else weights)

    unfoldable pub get_speed : Fitting n → Option Num × Fitting n
    unfolding estimated catch_up append_standard
    get_speed f =
        let standard = estimated f in
        let g = append_standard n intercept standard newest (catch_up n intercept standard f) in
        if ltb (length f.ave_users) window
        then (none, f)
        else (some (mean n intercept g.ins_speed), g)
