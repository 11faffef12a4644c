-- ===== src/RpPolicy/Allocate/Choice.antt =====
-- Who gives and who takes in `dynamic_allocate` of mom/Policy/RPPolicy.py, and how much.
use mathlib.Core.List.{reverse, reverse-reverse}
use mom_perf_fair_scheduler.Common.{
  ◌≡◌, ◌⊎◌, inl, inr, true, some, List, [], ◌∷◌, arith, Bool-cases, All, All-map, subst,
}
use mom_perf_fair_scheduler.Common.Sort.{sort}
use mom_perf_fair_scheduler.Common.Sort.Laws.{
  IsSorted, IsOrder, sort-IsSorted, reverse-IsSorted, All-unsort, All-reverse, flip,
}
use mom_perf_fair_scheduler.Number.{Number, IsOrdered, ltb_num, negate}
use mom_perf_fair_scheduler.RpPolicy.VmInfo.{VmInfo, dist2low, dist2high, min_share}
use mom_perf_fair_scheduler.RpPolicy.Allocate.{
  Transfer, no_transfer, min_num, by_rate, choose_giver, final_blk,
}

module _ (n : Number) (laws : IsOrdered n) where
  open n use {Num, of_ℕ, leb as le_num}

  le_num_refl : (a : Num) → le_num a a ≡ true
  le_num_refl a = elim (Bool-cases (le_num a a)) [ inl e ↦ e | inr e ↦ laws.total a a e ]

  min_num_bounds :
      (a b : Num) → (le_num (min_num n a b) a ≡ true) × (le_num (min_num n a b) b ≡ true)
  min_num_bounds a b = ground (arith, le_num_refl a, le_num_refl b, laws.total a b)

  min_num-lower :
      (c a b : Num) → le_num c a ≡ true → le_num c b ≡ true → le_num c (min_num n a b) ≡ true
  min_num-lower c a b h k = ground arith

  dist2high-lower : (i : VmInfo n) → le_num (of_ℕ 0) (dist2high n i) ≡ true
  unfolding dist2high
  dist2high-lower i = ground (arith, le_num_refl (of_ℕ 0), laws.total)

  -- If the numbers are linearly ordered and the giver is above its minimum, then the memory that is
  -- moved is no more than the giver has above its minimum, than the taker lacks, and than the share
  -- of one round, and is not negative.
  pub final_blk_bounds :
      (giver taker : VmInfo n)
      → ltb_num n (of_ℕ 0) (dist2low n giver) ≡ true
      → (le_num (final_blk n giver taker) (dist2low n giver) ≡ true)
        × (le_num (final_blk n giver taker) (dist2high n taker) ≡ true)
        × (le_num (final_blk n giver taker) (of_ℕ min_share) ≡ true)
        × (le_num (of_ℕ 0) (final_blk n giver taker) ≡ true)
  unfolding final_blk
  final_blk_bounds giver taker above =
      let g = dist2low n giver in
      let t = dist2high n taker in
      let inner = min_num_bounds g t in
      let whole = min_num_bounds (min_num n g t) (of_ℕ min_share) in
      let positive = laws.total g (of_ℕ 0) (ground arith) in
      (
        laws.trans _ _ _ whole.0 inner.0,
        laws.trans _ _ _ whole.0 inner.1,
        whole.1,
        min_num-lower (of_ℕ 0) _ _ (min_num-lower (of_ℕ 0) g t positive (dist2high-lower taker))
            (laws.of_ℕ_mono 0 min_share (omega arith)),
      )

  -- Of some guests, `giver` has the highest rate of those that are above their minimum.
  abbrev pub Giver : VmInfo n → List (VmInfo n) → Type 0
  Giver giver infos =
      (ltb_num n (of_ℕ 0) (dist2low n giver) ≡ true)
      × All (λ i. (le_num (dist2low n i) (of_ℕ 0) ≡ true) ⊎ (le_num i.rate giver.rate ≡ true)) infos

  -- Down a ranking from the highest rate: a guest that is passed over has nothing to give, and one
  -- behind the giver has no higher rate.
  choose_giver_ranked :
      (ranking : List (VmInfo n)) (giver : VmInfo n)
      → IsSorted (flip (by_rate n)) ranking
      → choose_giver n ranking ≡ some giver
      → Giver giver ranking
  unfolding choose_giver
  choose_giver_ranked [] giver sorted h = absurd (ground arith)
  choose_giver_ranked (i ∷ []) giver sorted h = absurd (ground arith)
  choose_giver_ranked (i ∷ j ∷ rest) giver sorted h =
      elim (Bool-cases (le_num (dist2low n i) (of_ℕ 0))) [
        | inl e ↦
            let (above, others) = choose_giver_ranked (j ∷ rest) giver sorted.1 (rw e at h) in
            (above, (inl e, others))
        | inr e ↦
            let same : i ≡ giver = ground (arith, h, e) in
            subst (λ g. Giver g (i ∷ j ∷ rest)) same
              (
                ground (arith, e),
                (
                  inr (le_num_refl i.rate),
                  All-map (λ k. le_num k.rate i.rate ≡ true)
                      (λ k. (le_num (dist2low n k) (of_ℕ 0) ≡ true) ⊎ (le_num k.rate i.rate ≡ true))
                      (j ∷ rest) (λ k le. inr le) sorted.0,
                ),
              )
      ]

  rate-IsOrder : IsOrder (by_rate n)
  rate-IsOrder = record {
    total = λ i j h. laws.total i.rate j.rate h;
    trans = λ i j k p q. laws.trans i.rate j.rate k.rate p q;
  }

  -- If the numbers are linearly ordered, then the guest that gives memory is above its minimum, and
  -- every guest above its minimum has no higher rate.
  pub choose_giver-highest :
      (infos : List (VmInfo n)) (giver : VmInfo n)
      → choose_giver n (reverse (sort (by_rate n) infos)) ≡ some giver
      → Giver giver infos
  choose_giver-highest infos giver h =
      let ranked = sort (by_rate n) infos in
      let P = λ (i : VmInfo n).
        (le_num (dist2low n i) (of_ℕ 0) ≡ true) ⊎ (le_num i.rate giver.rate ≡ true) in
      let (above, best) =
        choose_giver_ranked (reverse ranked) giver
          (reverse-IsSorted (by_rate n) ranked (sort-IsSorted (by_rate n) rate-IsOrder infos)) h in
      (
        above,
        All-unsort (by_rate n) P infos
            (rw reverse-reverse at (All-reverse P (reverse ranked) best)),
      )

  -- Nothing moves, or memory moves between two guests that the choice of the source is right for.
  abbrev pub Ends : Transfer n → List (VmInfo n) → Type 0
  Ends t infos =
      (t ≡ no_transfer n)
      ⊎ ((taker : VmInfo n) × (giver : VmInfo n) × (t ≡ record {
        givers = (giver.vm, negate n (final_blk n giver taker)) ∷ [];
        takers = (taker.vm, final_blk n giver taker) ∷ [];
      })
          × All (λ i. le_num taker.rate i.rate ≡ true) infos
          × Giver giver infos)
