-- ===== src/RpPolicy/Fitting.antt =====
-- mom/Policy/RPPolicy.py: `Fitting`. The arrays are lists, oldest first. What scikit-learn fits,
-- the intercept of a weighted linear regression, is a parameter.
pub mod Windows
use mom_perf_fair_scheduler.Common.{
  ℕ, zero, suc, ◌+◌, ◌-◌, Bool, true, false, Option, none, some, List, [], ◌∷◌, ◌++◌, map, ltb, leb,
  if◌then◌else◌, length, drop, last?, and_then,
}
use mom_perf_fair_scheduler.Number.{Number, ltb_num, eq_num, sum}

-- `AVE_LEN`, `WINDOW`
abbrev pub ave_len : ℕ
ave_len = 40

abbrev pub window : ℕ
window = 40

-- `self.status`: whether the speeds of the first samples are still to be computed.
pub data Status : Type 0 where
  first_fit later_fit : Status

-- An index of an array: from the start, or -1. An index out of range reads as 0; the loops below
-- use none.
pub data Index : Type 0 where
  from_start : ℕ → Index
  newest : Index

module _ (n : Number) where
  open n use {Num, of_ℕ, plus, minus, times, over, power}

  pub record Fitting : Type 0 where
    pub users : List Num
    pub standard_users : List Num
    pub ave_users : List Num
    pub pfs : List Num
    pub ave_pfs : List Num
    pub ins_speed : List Num
    pub time : List Num
    pub alpha : Num
    pub beta : Num
    pub status : Status

  abbrev pub new_fitting : Num → Num → Fitting
  new_fitting alpha beta = record {
    users = [];
    standard_users = [];
    ave_users = [];
    pfs = [];
    ave_pfs = [];
    ins_speed = [];
    time = [];
    alpha = alpha;
    beta = beta;
    status = first_fit;
  }

  -- `xs[:-1]`
  abbrev pub without_newest : List Num → List Num
  without_newest [] = []
  without_newest (x ∷ []) = []
  without_newest (x ∷ y ∷ ys) = x ∷ without_newest (y ∷ ys)

  -- `xs[-1-count:-1]`: at most `count` samples, and not the newest.
  unfoldable pub before_newest : ℕ → List Num → List Num
  before_newest count xs = let older = without_newest xs in drop (length older - count) older

  -- `mean_value`, for the samples of its key
  unfoldable pub mean_value : List Num → Option Num
  unfolding before_newest sum
  mean_value samples =
      if leb ave_len (length samples)
      then some (over (sum n (before_newest ave_len samples)) (of_ℕ ave_len))
      else none

  abbrev pub append_mean : Option Num → List Num → List Num
  append_mean none means = means
  append_mean (some mean) means = means ++ mean ∷ []

  -- `update(value1, value2, value3)`
  unfoldable pub update : Num → Num → Num → Fitting → Fitting
  unfolding mean_value
  update grow_user grow_pf total f =
      let users = f.users ++ grow_user ∷ [] in
      let pfs = f.pfs ++ grow_pf ∷ [] in
      record f {
        users = users;
        ave_users = append_mean (mean_value users) f.ave_users;
        pfs = pfs;
        ave_pfs = append_mean (mean_value pfs) f.ave_pfs;
        time = f.time ++ over total (of_ℕ 100) ∷ [];
      }

  -- `getWeight(dist, age)`, none where `math.pow` raises; the ages are at least as many as the
  -- distances.
  unfoldable pub get_weight : Fitting → List Num → List Num → Option (List Num)
  get_weight f (d ∷ dist) (a ∷ age) =
      let weights = get_weight f dist age in
      and_then (power f.beta d)
        λ x. and_then (power f.alpha a) λ y. and_then weights λ rest. some (times x y ∷ rest)
  get_weight f _ _ = some []

  abbrev pub or_zero : Option Num → Num
  or_zero none = of_ℕ 0
  or_zero (some x) = x

  module _ (intercept : List Num → List Num → List Num → Num) where
    -- `estimated()`, where there are enough samples; none where `getWeight` raises
    unfoldable pub estimated : Fitting → Option Num
    unfolding get_weight sum
    estimated f =
        let latest = or_zero (last? f.time) in
        and_then (get_weight f f.ave_pfs (map (λ t. minus latest t) f.time)) λ weights. some (
          intercept f.ave_pfs f.ave_users (
            if eq_num n (sum n weights) (of_ℕ 0)
            then map (λ w. plus w (of_ℕ 1)) weights
            else weights))

    abbrev pub nth : ℕ → List Num → Num
    nth i [] = of_ℕ 0
    nth zero (x ∷ xs) = x
    nth (suc i) (x ∷ xs) = nth i xs

    abbrev pub element : Index → List Num → Num
    element (from_start i) xs = nth i xs
    element newest xs = or_zero (last? xs)

    -- The speed of one sample.
    unfoldable pub instant_speed : Num → Num → Num
    instant_speed user standard = if eq_num n standard (of_ℕ 0) then of_ℕ 1 else over user standard

    -- `appendStandard(standard, index)`
    unfoldable pub append_standard : Num → Index → Fitting → Fitting
    unfolding instant_speed
    append_standard estimate index f =
        let user = element index f.users in
        let standard = if ltb_num n estimate user then user else estimate in
        let standards = f.standard_users ++ standard ∷ [] in
        record f {
          standard_users = standards;
          ins_speed = f.ins_speed ++ instant_speed user (element index standards) ∷ [];
        }

    -- `for i in range(...)` from `i` on, with the number of rounds that are left
    unfoldable pub append_standards : Num → ℕ → ℕ → Fitting → Fitting
    unfolding append_standard
    append_standards estimate i zero f = f
    append_standards estimate i (suc rounds) f =
        append_standards estimate (suc i) rounds (append_standard estimate (from_start i) f)

    -- `np.mean(xs)`
    abbrev pub mean : List Num → Num
    mean xs = over (sum n xs) (of_ℕ (length xs))

    -- The part of `getSpeed` that `status` guards.
    unfoldable pub catch_up : Num → Fitting → Fitting
    unfolding append_standards
    catch_up standard f = elim f.status [
      | first_fit ↦ record (append_standards standard 0 (length f.users) f) { status = later_fit }
      | later_fit ↦ f
    ]

    -- `getSpeed()`: the speed, if there are enough samples; none is an exception.
    unfoldable pub get_speed : Fitting → Option (Option Num × Fitting)
    unfolding estimated catch_up append_standard
    get_speed f =
        let fitted = and_then (estimated f) λ standard.
          let g = append_standard standard newest (catch_up standard f) in
          some (some (mean g.ins_speed), g) in
        if ltb (length f.ave_users) window then some (none, f) else fitted
