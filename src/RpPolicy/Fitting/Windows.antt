-- ===== src/RpPolicy/Fitting/Windows.antt =====
-- The samples of `Fitting` in mom/Policy/RPPolicy.py: which of them a mean counts, and how the
-- arrays stay of one length.
use mom_perf_fair_scheduler.Common.{
  ℕ, zero, suc, ◌-◌, ◌≤◌, ◌<◌, ◌≡◌, refl, ap, ◌∙◌, List, [], ◌∷◌, ◌++◌, arith, length, drop,
  length-drop, length-append, leb, if◌then◌else◌, inl, inr, Bool-cases,
}
use mathlib.Core.List.{append_assoc}
use mom_perf_fair_scheduler.Number.{Number, sum}
use mom_perf_fair_scheduler.RpPolicy.Fitting.{
  Fitting, ave_len, without_newest, before_newest, mean_value, append_mean, update,
}

module _ (n : Number) where
  open n use {Num}

  length-without_newest : (xs : List Num) → length (without_newest n xs) ≡ length xs - 1
  length-without_newest [] = omega arith
  length-without_newest (x ∷ []) = omega arith
  length-without_newest (x ∷ y ∷ ys) = omega (arith, length-without_newest (y ∷ ys))

  -- The samples that a mean counts are `count` many, or all but the newest where there are no more
  -- than `count`.
  length-before_newest :
      (count : ℕ) (xs : List Num)
      → length (before_newest n count xs) ≡ (if leb (length xs) count then length xs - 1 else count)
  unfolding before_newest
  length-before_newest count xs =
      let older = without_newest n xs in
      ground (arith, length-drop (length older - count) older, length-without_newest xs)

  split-newest :
      (x : Num) (xs : List Num) → (y : Num) × (x ∷ xs ≡ without_newest n (x ∷ xs) ++ y ∷ [])
  split-newest x [] = (x, refl)
  split-newest x (z ∷ zs) = let (y, e) = split-newest z zs in (y, ap (λ l. x ∷ l) e)

  split-drop : (k : ℕ) (xs : List Num) → (front : List Num) × (xs ≡ front ++ drop k xs)
  split-drop zero xs = ([], refl)
  split-drop (suc k) [] = ([], refl)
  split-drop (suc k) (x ∷ xs) = let (front, e) = split-drop k xs in (x ∷ front, ap (λ l. x ∷ l) e)

  -- With more than `count` samples, the ones that a mean counts are the `count` samples that stand
  -- just before the newest.
  pub before_newest_place :
      (count : ℕ) (xs : List Num)
      → count < length xs
      → (front : List Num) × (newest : Num) × (xs
          ≡ front ++ (before_newest n count xs ++ newest ∷ []))
        × (length (before_newest n count xs) ≡ count)
  unfolding before_newest
  before_newest_place count [] h = absurd (omega arith)
  before_newest_place count (x ∷ xs) h =
      let older = without_newest n (x ∷ xs) in
      let (front, e) = split-drop (length older - count) older in
      let (y, f) = split-newest x xs in
      (
        front,
        y,
        f ∙ ap (λ l. l ++ y ∷ []) e ∙ append_assoc front _ (y ∷ []),
        ground (arith, length-before_newest count (x ∷ xs), h),
      )

  -- All samples are taken at once, and there is one mean for each sample from the fortieth on.
  pub record IsAligned (f : Fitting n) : Type 0 where
    pub pfs_length : length f.pfs ≡ length f.users
    pub time_length : length f.time ≡ length f.users
    pub ave_users_length : length f.ave_users ≡ length f.users - (ave_len - 1)
    pub ave_pfs_length : length f.ave_pfs ≡ length f.users - (ave_len - 1)

  abbrev mean_of : List Num → Num
  mean_of xs = n.over (sum n (before_newest n ave_len xs)) (n.of_ℕ ave_len)

  append_mean-length :
      (samples means : List Num) (x : Num)
      → length means ≡ length samples - (ave_len - 1)
      → length (append_mean n (mean_value n (samples ++ x ∷ [])) means)
        ≡ length (samples ++ x ∷ []) - (ave_len - 1)
  unfolding mean_value
  append_mean-length samples means x h =
      elim (Bool-cases (leb ave_len (length (samples ++ x ∷ [])))) [
        | inl e ↦
            let enough : ave_len ≤ length (samples ++ x ∷ []) = ground (arith, e) in
            rw e (
              omega (
                arith,
                h,
                enough,
                length-append samples (x ∷ []),
                length-append means (mean_of (samples ++ x ∷ []) ∷ []),
              ))
        | inr e ↦
            let few : length (samples ++ x ∷ []) < ave_len = ground (arith, e) in
            rw e (omega (arith, h, few, length-append samples (x ∷ [])))
      ]

  -- If there are as many page faults and times as user samples, and one mean of each kind for each
  -- sample from the fortieth on, then this holds after an update too.
  pub update-IsAligned :
      (grow_user grow_pf total : Num) (f : Fitting n)
      → IsAligned f
      → IsAligned (update n grow_user grow_pf total f)
  unfolding update
  update-IsAligned grow_user grow_pf total f a = record {
    pfs_length = omega (
      arith,
      a.pfs_length,
      length-append f.pfs (grow_pf ∷ []),
      length-append f.users (grow_user ∷ []),
    );
    time_length = omega (
      arith,
      a.time_length,
      length-append f.time (n.over total (n.of_ℕ 100) ∷ []),
      length-append f.users (grow_user ∷ []),
    );
    ave_users_length = append_mean-length f.users f.ave_users grow_user a.ave_users_length;
    ave_pfs_length = omega (
      arith,
      append_mean-length f.pfs f.ave_pfs grow_pf (omega (arith, a.ave_pfs_length, a.pfs_length)),
      a.pfs_length,
      length-append f.pfs (grow_pf ∷ []),
      length-append f.users (grow_user ∷ []),
    );
  }
