-- ===== src/RpPolicy/Allocate/Range.antt =====
-- Proofs about the range of the balloon targets that mom/Policy/RPPolicy.py sets.
use mom_perf_fair_scheduler.Common.{
  String, ◌≡◌, refl, sym, ap, ◌∙◌, and_then-some, inl, inr, true, Option, none, some, List, [], ◌∷◌,
  arith, Bool-cases, All, Dict, values, str_eq, ◌&&◌,
}
use mathlib.Core.Option.{some-injective}
use mom_perf_fair_scheduler.Number.{Number, eq_num}
use mom_perf_fair_scheduler.RpPolicy.Fitting.{Fitting, get_speed}
use mom_perf_fair_scheduler.RpPolicy.VmInfo.{
  VmInfo, Guest, sample, copy_statistics, min_memory, set_balloon, add_allocated, update_used,
  update_worksize, update_speed, with_speed, update, init_attribute,
}
use mom_perf_fair_scheduler.RpPolicy.Allocate.{adjust, for_all, trigger_balloon}

module _ (n : Number) where
  open n use {Num, of_ℕ, leb as le_num}

  -- Where a target was set, it lies between the minimum of the source and `most`.
  abbrev pub TargetIn : Num → Option Num → Type 0
  TargetIn most none = Unit
  TargetIn most (some t) = (le_num (of_ℕ min_memory) t ≡ true) × (le_num t most ≡ true)

  pub record InRange (i : VmInfo n) : Type 0 where
    pub minimum : i.min ≡ of_ℕ min_memory
    pub target : TargetIn i.configured i.balloon_target

  pub set_balloon-InRange : (i : VmInfo n) → InRange i → InRange (set_balloon n i)
  unfolding set_balloon
  set_balloon-InRange i r = record {
    minimum = ground (arith, r.minimum);
    target = elim (Bool-cases (le_num i.allocated i.configured && le_num i.min i.allocated)) [
      | inl e ↦
          let low : le_num (of_ℕ min_memory) i.allocated ≡ true = ground (arith, e, r.minimum) in
          let high : le_num i.allocated i.configured ≡ true = ground (arith, e) in rw e (low, high)
      | inr e ↦ rw e r.target
    ];
  }

  module _ (intercept : List Num → List Num → List Num → Num) where
    -- The fields that an update leaves, and the target that it takes away.
    with_speed-fields :
        (r : Option Num × Fitting n) (i j : VmInfo n)
        → with_speed n intercept r i ≡ some j
        → (j.min ≡ i.min) × (j.balloon_target ≡ i.balloon_target)
    with_speed-fields (none, f) i j h =
        let same = some-injective _ _ h in
        (
          sym (ap (λ (x : VmInfo n). x.min) same),
          sym (ap (λ (x : VmInfo n). x.balloon_target) same),
        )
    with_speed-fields (some speed, f) i j h = elim (Bool-cases (eq_num n i.weight (of_ℕ 0))) [
      | inl e ↦ absurd (ground (arith, rw e at h))
      | inr e ↦
          let same = some-injective _ _ (rw e at h) in
          (
            sym (ap (λ (x : VmInfo n). x.min) same),
            sym (ap (λ (x : VmInfo n). x.balloon_target) same),
          )
    ]

    update_speed-fields :
        (i j : VmInfo n)
        → update_speed n intercept i ≡ some j
        → (j.min ≡ i.min) × (j.balloon_target ≡ i.balloon_target)
    unfolding update_speed
    update_speed-fields i j h =
        let (r, e, k) = and_then-some (get_speed n intercept i.fitting) _ j h in
        with_speed-fields r i j k

    sample-fields :
        (g : Guest n) (i j : VmInfo n)
        → ((sample n intercept g i j).min ≡ j.min)
          × ((sample n intercept g i j).balloon_target ≡ j.balloon_target)
    sample-fields g i j = ground arith

    -- An update keeps the minimum, and the guest object that it brings has no target yet.
    update-fields :
        (g : Guest n) (i j : VmInfo n)
        → update n intercept g i ≡ some j
        → (j.min ≡ i.min) × (j.balloon_target ≡ none)
    unfolding update
    update-fields g i j h =
        let sampled = sample n intercept g i (copy_statistics n intercept g i) in
        let copied = sample-fields g i (copy_statistics n intercept g i) in
        let timed = update_speed-fields (update_worksize n (update_used n sampled)) j h in
        (timed.0 ∙ copied.0, timed.1 ∙ copied.1)

    pub update-InRange :
        (g : Guest n) (i j : VmInfo n)
        → i.min ≡ of_ℕ min_memory
        → update n intercept g i ≡ some j
        → InRange j
    update-InRange g i j h e =
        let fields = update-fields g i j e in
        record { minimum = fields.0 ∙ h; target = rw fields.1 tt }

    pub init_attribute-InRange :
        (alpha beta : Num) (g : Guest n) (j : VmInfo n)
        → init_attribute n intercept alpha beta g ≡ some j
        → InRange j
    unfolding init_attribute
    init_attribute-InRange alpha beta g j e = update-InRange g _ j refl e

  adjust-InRange :
      (name : String) (f : VmInfo n → VmInfo n)
      → ((i : VmInfo n) → InRange i → InRange (f i))
      → (infos : Dict (VmInfo n)) → All InRange (values infos)
      → All InRange (values (adjust n name f infos))
  unfolding adjust
  adjust-InRange name f keep [] h = tt
  adjust-InRange name f keep ((k, i) ∷ infos) h =
      let rest = adjust-InRange name f keep infos h.1 in
      elim (Bool-cases (str_eq k name)) [
        | inl e ↦ rw e (keep i h.0, rest)
        | inr e ↦ rw e (h.0, rest)
      ]

  pub for_all-InRange :
      (f : VmInfo n → VmInfo n)
      → ((i : VmInfo n) → InRange i → InRange (f i))
      → (infos : Dict (VmInfo n)) → All InRange (values infos)
      → All InRange (values (for_all n f infos))
  unfolding for_all
  for_all-InRange f keep [] h = tt
  for_all-InRange f keep ((k, i) ∷ infos) h = (keep i h.0, for_all-InRange f keep infos h.1)

  add_allocated-InRange : (blk : Num) (i : VmInfo n) → InRange i → InRange (add_allocated n blk i)
  unfolding add_allocated
  add_allocated-InRange blk i r = record { minimum = r.minimum; target = r.target }

  pub trigger_balloon-InRange :
      (maps : Dict Num) (infos : Dict (VmInfo n))
      → All InRange (values infos)
      → All InRange (values (trigger_balloon n maps infos))
  unfolding trigger_balloon
  trigger_balloon-InRange [] infos h = h
  trigger_balloon-InRange ((name, blk) ∷ maps) infos h = trigger_balloon-InRange maps _ (
      adjust-InRange name (λ i. set_balloon n (add_allocated n blk i))
        (λ i r. set_balloon-InRange _ (add_allocated-InRange blk i r)) infos h)
