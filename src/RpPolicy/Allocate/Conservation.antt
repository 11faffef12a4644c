-- ===== src/RpPolicy/Allocate/Conservation.antt =====
-- Proofs about the sum of the memory that `dynamic_allocate` of mom/Policy/RPPolicy.py moves.
use mathlib.Core.List.{reverse}
use mathlib.Core.Option.{some-injective}
use mom_perf_fair_scheduler.Common.{
  String, ◌≡◌, refl, sym, ap, ◌∙◌, inl, inr, true, false, some, List, [], ◌∷◌, length, ◌==◌, arith,
  Bool-cases, All, All-map, Dict, has_key, lookup, values, str_eq, eq_iff, subst, Option-cases,
}
use mom_perf_fair_scheduler.Common.Keys.{IsDict}
use mom_perf_fair_scheduler.Common.Sort.{sort}
use mom_perf_fair_scheduler.Common.Sort.Laws.{All-sort, All-reverse}
use mom_perf_fair_scheduler.Number.{Number, IsExact, negate}
use mom_perf_fair_scheduler.RpPolicy.VmInfo.{VmInfo, dist2low, add_allocated, set_balloon}
use mom_perf_fair_scheduler.RpPolicy.Allocate.{
  adjust, for_all, Progress, Transfer, by_rate, choose_giver, final_blk, transfer_of,
  rates_positive, fairness_of, dynamic_allocate, trigger_balloon,
}

-- Each guest is stored under its name, once.
abbrev pub IsNamed : {n : Number} → Dict (VmInfo n) → Type 0
IsNamed [] = Unit
IsNamed ((k, i) ∷ infos) = (i.vm ≡ k) × IsNamed infos

module _ (n : Number) where
  open n use {Num, of_ℕ, plus}

  abbrev pub sum_allocated : Dict (VmInfo n) → Num
  sum_allocated [] = of_ℕ 0
  sum_allocated ((k, i) ∷ infos) = plus i.allocated (sum_allocated infos)

  abbrev receive : Num → VmInfo n → VmInfo n
  receive blk i = set_balloon n (add_allocated n blk i)

  receive-allocated : (blk : Num) (i : VmInfo n) → (receive blk i).allocated ≡ plus i.allocated blk
  unfolding set_balloon add_allocated
  receive-allocated blk i = ground arith

  -- A name that is not there changes no sum.
  sum-adjust_absent :
      (name : String) (f : VmInfo n → VmInfo n) (infos : Dict (VmInfo n))
      → has_key name infos ≡ false
      → sum_allocated (adjust n name f infos) ≡ sum_allocated infos
  unfolding adjust lookup
  sum-adjust_absent name f [] h = refl
  sum-adjust_absent name f ((k, i) ∷ infos) h = ground (arith, sum-adjust_absent name f infos)

  has_key-adjust :
      (name other : String) (f : VmInfo n → VmInfo n) (infos : Dict (VmInfo n))
      → has_key other (adjust n name f infos) ≡ has_key other infos
  unfolding adjust lookup
  has_key-adjust name other f [] = refl
  has_key-adjust name other f ((k, i) ∷ infos) = ground (arith, has_key-adjust name other f infos)

  has_key-for_all :
      (other : String) (f : VmInfo n → VmInfo n) (infos : Dict (VmInfo n))
      → has_key other (for_all n f infos) ≡ has_key other infos
  unfolding for_all lookup
  has_key-for_all other f [] = refl
  has_key-for_all other f ((k, i) ∷ infos) = ground (arith, has_key-for_all other f infos)

  adjust-IsDict :
      (name : String) (f : VmInfo n → VmInfo n) (infos : Dict (VmInfo n))
      → IsDict infos
      → IsDict (adjust n name f infos)
  unfolding adjust
  adjust-IsDict name f [] h = tt
  adjust-IsDict name f ((k, i) ∷ infos) h =
      (has_key-adjust name k f infos ∙ h.0, adjust-IsDict name f infos h.1)

  module _ (laws : IsExact n) where
    -- A guest that receives adds to the sum what it receives.
    sum-adjust :
        (name : String) (blk : Num) (infos : Dict (VmInfo n))
        → IsDict infos
        → has_key name infos ≡ true
        → sum_allocated (adjust n name (receive blk) infos) ≡ plus (sum_allocated infos) blk
    unfolding adjust lookup
    sum-adjust name blk [] d h = cc
    sum-adjust name blk ((k, i) ∷ infos) d h = elim (Bool-cases (str_eq k name)) [
      | inl e ↦
          let gone =
            sum-adjust_absent name (receive blk) infos (rw ((eq_iff k name).0 e) at (d.0)) in
          rw (e, gone, receive-allocated) (swap i.allocated blk (sum_allocated infos))
      | inr e ↦
          rw (e, sum-adjust name blk infos d.1 (rw e at h))
            (sym (laws.plus_assoc i.allocated (sum_allocated infos) blk))
    ]
      where
        swap : (a b c : Num) → plus (plus a b) c ≡ plus (plus a c) b
        swap a b c =
            laws.plus_assoc a b c ∙ ap (plus a) (laws.plus_comm b c) ∙ sym (laws.plus_assoc a c b)

    -- What one guest gives and another takes cancels.
    pub carry_out-sum :
        (giver taker : String) (blk : Num) (infos : Dict (VmInfo n))
        → IsDict infos
        → has_key giver infos ≡ true
        → has_key taker infos ≡ true
        → sum_allocated (
            trigger_balloon n
              ((taker, blk) ∷ [])
              (trigger_balloon n ((giver, negate n blk) ∷ []) infos))
          ≡ sum_allocated infos
    unfolding trigger_balloon
    carry_out-sum giver taker blk infos d g t =
        let given = adjust n giver (receive (negate n blk)) infos in
        sum-adjust taker blk given (adjust-IsDict giver (receive (negate n blk)) infos d)
          (has_key-adjust giver taker (receive (negate n blk)) infos ∙ t)
        ∙ ap (λ s. plus s blk) (sum-adjust giver (negate n blk) infos d g)
        ∙ laws.plus_assoc (sum_allocated infos) (negate n blk) blk
        ∙ ap (plus (sum_allocated infos)) (laws.plus-negate blk)
        ∙ laws.plus-zero (sum_allocated infos)

  for_all-IsDict :
      (f : VmInfo n → VmInfo n) (infos : Dict (VmInfo n))
      → IsDict infos
      → IsDict (for_all n f infos)
  unfolding for_all
  for_all-IsDict f [] h = tt
  for_all-IsDict f ((k, i) ∷ infos) h =
      (has_key-for_all k f infos ∙ h.0, for_all-IsDict f infos h.1)

  -- Every guest is found under the name that it carries.
  values_named :
      (infos : Dict (VmInfo n))
      → IsNamed infos
      → All (λ i. has_key i.vm infos ≡ true) (values infos)
  unfolding lookup
  values_named [] h = tt
  values_named ((k, i) ∷ infos) h = (
    ground (arith, h.0, eq_iff k i.vm),
    All-map (λ j. has_key j.vm infos ≡ true) (λ j. has_key j.vm ((k, i) ∷ infos) ≡ true)
        (values infos) (λ j e. ground (arith, e)) (values_named infos h.1),
  )

  choose_giver-All :
      (P : VmInfo n → Type 0) (ranking : List (VmInfo n)) (giver : VmInfo n)
      → choose_giver n ranking ≡ some giver
      → All P ranking
      → P giver
  unfolding choose_giver
  choose_giver-All P [] giver h k = absurd (ground arith)
  choose_giver-All P (i ∷ []) giver h k = absurd (ground arith)
  choose_giver-All P (i ∷ j ∷ rest) giver h k = elim (Bool-cases (n.leb (dist2low n i) (of_ℕ 0))) [
    | inl e ↦ choose_giver-All P (j ∷ rest) giver (rw e at h) k.1
    | inr e ↦ let same : i ≡ giver = ground (arith, h, e) in subst P same k.0
  ]

  abbrev rate_with : Num → VmInfo n → VmInfo n
  rate_with fairness i = record i { fairness = fairness }

  for_all-rated :
      (fairness : Num) (infos : Dict (VmInfo n))
      → (sum_allocated (for_all n (rate_with fairness) infos) ≡ sum_allocated infos)
        × (IsNamed infos → IsNamed (for_all n (rate_with fairness) infos))
  unfolding for_all
  for_all-rated fairness [] = (refl, λ h. tt)
  for_all-rated fairness ((k, i) ∷ infos) =
      let (same, named) = for_all-rated fairness infos in
      (ap (plus i.allocated) same, λ h. (h.0, named h.1))

  -- The order in which a transfer is carried out.
  abbrev pub carried_out : Transfer n → Dict (VmInfo n) → Dict (VmInfo n)
  carried_out t infos = trigger_balloon n t.takers (trigger_balloon n t.givers infos)

  module _ (laws : IsExact n) where
    transfer_of-sum :
        (ranked : List (VmInfo n)) (infos : Dict (VmInfo n))
        → IsDict infos
        → All (λ i. has_key i.vm infos ≡ true) ranked
        → sum_allocated (carried_out (transfer_of n ranked) infos) ≡ sum_allocated infos
    unfolding transfer_of trigger_balloon
    transfer_of-sum [] infos d known = refl
    transfer_of-sum (taker ∷ others) infos d known =
        elim (Option-cases (choose_giver n (reverse (taker ∷ others)))) [
          | inl e ↦ rw (e, transfer_of) refl
          | inr (giver, e) ↦
              rw (e, transfer_of)
                (carry_out-sum laws giver.vm taker.vm (final_blk n giver taker) infos d
                  (choose_giver-All (λ i. has_key i.vm infos ≡ true) (reverse (taker ∷ others))
                    giver e (All-reverse (λ i. has_key i.vm infos ≡ true) (taker ∷ others) known))
                  known.0)
        ]

    -- With exact arithmetic, and guests that are stored once and each under its own name, carrying
    -- out the transfer of `dynamic_allocate` does not change the sum of what the guests are
    -- allocated.
    pub dynamic_allocate-sum :
        (infos rated : Dict (VmInfo n)) (progress progress' : Progress n) (t : Transfer n)
        → IsDict infos
        → IsNamed infos
        → dynamic_allocate n infos progress ≡ some (rated, progress', t)
        → sum_allocated (carried_out t rated) ≡ sum_allocated infos
    unfolding dynamic_allocate trigger_balloon
    dynamic_allocate-sum infos rated progress progress' t d named h =
        elim (Bool-cases (length infos == 0)) [
          | inl e ↦ absurd (ground (arith, h, e))
          | inr e ↦ elim (Bool-cases (rates_positive n (values infos))) [
            | inl p ↦
                subst Conserves (some-injective _ _ (rw (e, p) at h))
                  (rated_sum (fairness_of n (values infos)))
            | inr p ↦ subst Conserves (some-injective _ _ (rw (e, p) at h)) refl
          ]
        ]
      where
        Conserves : Dict (VmInfo n) × Progress n × Transfer n → Type 0
        Conserves r = sum_allocated (carried_out r.2 r.0) ≡ sum_allocated infos

        rated_sum :
            (fairness : Num)
            → let after = for_all n (rate_with fairness) infos in
              sum_allocated (carried_out (transfer_of n (sort (by_rate n) (values after))) after)
              ≡ sum_allocated infos
        rated_sum fairness =
            let after = for_all n (rate_with fairness) infos in
            let (same, keeps_names) = for_all-rated fairness infos in
            transfer_of-sum (sort (by_rate n) (values after)) after
              (for_all-IsDict (rate_with fairness) infos d)
              (All-sort (by_rate n) (λ i. has_key i.vm after ≡ true) (values after)
                (values_named after (keeps_names named)))
            ∙ same
