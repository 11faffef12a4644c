-- ===== src/GradientPolicy/Allocate/Choice.antt =====
-- Proofs about the guests that `perf_fair` of mom/Policy/GradientPolicy.py chooses.
use mathlib.Core.Option.{some-injective}
use mom_perf_fair_scheduler.Common.{
  ◌≡◌, refl, subst, Bool, true, false, not, ◌||◌, Option, none, some, List, [], ◌∷◌, arith, All,
  Bool-cases, inl, inr,
}
use mom_perf_fair_scheduler.Number.{Number, IsOrdered, ltb_num}
use mom_perf_fair_scheduler.GradientPolicy.VmInfo.{VmInfo}
use mom_perf_fair_scheduler.GradientPolicy.Allocate.{choose_taker, choose_giver}

module _ (n : Number) where
  open n use {Num, of_ℕ, leb}

  -- The guest can get faster.
  abbrev pub is_slowed : VmInfo n → Bool
  is_slowed i = ltb_num n i.speed (of_ℕ 1)

  -- A taker as the best of some guests: slowed, with a gradient above 0 that no slowed guest exceeds.
  pub record IsTaker (t : VmInfo n) (infos : List (VmInfo n)) : Type 0 where
    pub rising : ltb_num n (of_ℕ 0) t.gradient ≡ true
    pub slowed : is_slowed t ≡ true
    pub highest : All (λ i. not (is_slowed i) || leb i.gradient t.gradient ≡ true) infos

  -- A giver as the best of some guests: with a gradient below 0 and below no other.
  pub record IsGiver (g : VmInfo n) (infos : List (VmInfo n)) : Type 0 where
    pub falling : ltb_num n g.gradient (of_ℕ 0) ≡ true
    pub lowest : All (λ i. leb g.gradient i.gradient ≡ true) infos

  module _ (ordered : IsOrdered n) where
    leb_refl : (a : Num) → leb a a ≡ true
    leb_refl a = elim (Bool-cases (leb a a)) [ inl e ↦ e | inr e ↦ ordered.total a a e ]

    -- What the loop has found so far.
    abbrev TakerSoFar : Num → Option (VmInfo n) → Type 0
    TakerSoFar g none = g ≡ of_ℕ 0
    TakerSoFar g (some t) = (t.gradient ≡ g) × (ltb_num n (of_ℕ 0) g ≡ true) × (is_slowed t ≡ true)

    abbrev GiverSoFar : Num → Option (VmInfo n) → Type 0
    GiverSoFar g none = g ≡ of_ℕ 0
    GiverSoFar g (some t) = (t.gradient ≡ g) × (ltb_num n g (of_ℕ 0) ≡ true)

    -- What is above a gradient that is 0 or more is above 0.
    TakerSoFar-rising :
        (g a : Num) (o : Option (VmInfo n))
        → TakerSoFar g o
        → leb a g ≡ false
        → ltb_num n (of_ℕ 0) a ≡ true
    TakerSoFar-rising g a none h k = ground (arith, subst (λ x. leb a x ≡ false) h k)
    TakerSoFar-rising g a (some t) h k = elim (Bool-cases (leb a (of_ℕ 0))) [
      | inl e ↦ absurd (
          ground (
            arith,
            ordered.trans a (of_ℕ 0) g e (ordered.total g (of_ℕ 0) (ground (arith, h.1))),
            k,
          ))
      | inr e ↦ ground (arith, e)
    ]

    GiverSoFar-falling :
        (g a : Num) (o : Option (VmInfo n))
        → GiverSoFar g o
        → leb g a ≡ false
        → ltb_num n a (of_ℕ 0) ≡ true
    GiverSoFar-falling g a none h k = ground (arith, subst (λ x. leb x a ≡ false) h k)
    GiverSoFar-falling g a (some t) h k = elim (Bool-cases (leb (of_ℕ 0) a)) [
      | inl e ↦ absurd (
          ground (
            arith,
            ordered.trans g (of_ℕ 0) a (ordered.total (of_ℕ 0) g (ground (arith, h.1))) e,
            k,
          ))
      | inr e ↦ ground (arith, e)
    ]

    -- What the rest of the loop makes of what was found so far.
    choose_taker-best :
        (g : Num) (o : Option (VmInfo n)) (infos : List (VmInfo n)) (t : VmInfo n)
        → TakerSoFar g o
        → choose_taker n g o infos ≡ some t
        → (leb g t.gradient ≡ true) × IsTaker t infos
    unfolding choose_taker
    choose_taker-best g none [] t h e = absurd (ground (arith, e))
    choose_taker-best g (some u) [] t h e =
        subst (λ (t : VmInfo n). (leb g t.gradient ≡ true) × IsTaker t []) (some-injective u t e)
          (rw (h.0) (leb_refl g), record { rising = rw (h.0) (h.1); slowed = h.2; highest = tt })
    choose_taker-best g o (i ∷ infos) t h e = elim (Bool-cases (leb i.gradient g)) [
      | inl below ↦
          let (least, best) = choose_taker-best g o infos t h (ground (arith, e, below)) in
          (
            least,
            record {
              rising = best.rising;
              slowed = best.slowed;
              highest =
                  (ground (arith, ordered.trans i.gradient g t.gradient below least), best.highest);
            },
          )
      | inr above ↦ elim (Bool-cases (is_slowed i)) [
        | inl slow ↦
            let (least, best) =
              choose_taker-best i.gradient (some i) infos t
                (refl, TakerSoFar-rising g i.gradient o h above, slow)
                (ground (arith, e, above, slow)) in
            (
              ordered.trans g i.gradient t.gradient (ordered.total i.gradient g above) least,
              record {
                rising = best.rising;
                slowed = best.slowed;
                highest = (ground (arith, least), best.highest);
              },
            )
        | inr fast ↦
            let (least, best) = choose_taker-best g o infos t h (ground (arith, e, above, fast)) in
            (
              least,
              record {
                rising = best.rising;
                slowed = best.slowed;
                highest = (ground (arith, fast), best.highest);
              },
            )
      ]
    ]

    choose_giver-best :
        (g : Num) (o : Option (VmInfo n)) (infos : List (VmInfo n)) (t : VmInfo n)
        → GiverSoFar g o
        → choose_giver n g o infos ≡ some t
        → (leb t.gradient g ≡ true) × IsGiver t infos
    unfolding choose_giver
    choose_giver-best g none [] t h e = absurd (ground (arith, e))
    choose_giver-best g (some u) [] t h e =
        subst (λ (t : VmInfo n). (leb t.gradient g ≡ true) × IsGiver t []) (some-injective u t e)
          (rw (h.0) (leb_refl g), record { falling = rw (h.0) (h.1); lowest = tt })
    choose_giver-best g o (i ∷ infos) t h e = elim (Bool-cases (leb g i.gradient)) [
      | inl above ↦
          let (least, best) = choose_giver-best g o infos t h (ground (arith, e, above)) in
          (
            least,
            record {
              falling = best.falling;
              lowest = (ordered.trans t.gradient g i.gradient least above, best.lowest);
            },
          )
      | inr below ↦
          let (least, best) =
            choose_giver-best i.gradient (some i) infos t
              (refl, GiverSoFar-falling g i.gradient o h below) (ground (arith, e, below)) in
          (
            ordered.trans t.gradient i.gradient g least (ordered.total g i.gradient below),
            record { falling = best.falling; lowest = (least, best.lowest) },
          )
    ]

    -- If the comparison is a linear order, then the giver that `perf_fair` chooses has a gradient
    -- below 0 that no guest's is below, and the taker is slowed and has a gradient above 0 that no
    -- slowed guest's is above.
    pub chosen_ends :
        (infos : List (VmInfo n)) (giver taker : VmInfo n)
        → choose_giver n (of_ℕ 0) none infos ≡ some giver
        → choose_taker n (of_ℕ 0) none infos ≡ some taker
        → IsGiver giver infos × IsTaker taker infos
    chosen_ends infos giver taker hg ht = (
      (choose_giver-best (of_ℕ 0) none infos giver refl hg).1,
      (choose_taker-best (of_ℕ 0) none infos taker refl ht).1,
    )
