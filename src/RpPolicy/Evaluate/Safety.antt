-- ===== src/RpPolicy/Evaluate/Safety.antt =====
-- Proofs about the balloon targets after a round of mom/Policy/RPPolicy.py.
use mom_perf_fair_scheduler.Common.{
  String, ◌≡◌, inl, inr, some, List, [], ◌∷◌, arith, Bool-cases, All, Dict, insert, lookup, values,
  str_eq, ◌==◌, length, Option-cases, subst, select, not, and_then-some,
}
use mathlib.Core.Option.{some-injective}
use mom_perf_fair_scheduler.Number.{Number}
use mom_perf_fair_scheduler.RpPolicy.VmInfo.{VmInfo, Guest}
use mom_perf_fair_scheduler.RpPolicy.Allocate.{
  Progress, Transfer, first_time, dynamic_allocate, rates_positive, is_busy,
}
use mom_perf_fair_scheduler.RpPolicy.Allocate.Range.{
  InRange, update-InRange, init_attribute-InRange, trigger_balloon-InRange, for_all-InRange,
  set_balloon-InRange,
}
use mom_perf_fair_scheduler.RpPolicy.Evaluate.{
  RpPolicy, info_of, update_guests, plan, run_round, evaluate,
}

module _ (n : Number) where
  open n use {Num}

  abbrev pub AllInRange : Dict (VmInfo n) → Type 0
  AllInRange infos = All (InRange n) (values infos)

  insert-AllInRange :
      (name : String) (i : VmInfo n) (infos : Dict (VmInfo n))
      → InRange n i
      → AllInRange infos
      → AllInRange (insert name i infos)
  unfolding insert
  insert-AllInRange name i [] h k = (h, tt)
  insert-AllInRange name i ((k, j) ∷ infos) h r = elim (Bool-cases (str_eq k name)) [
    | inl e ↦ rw e (h, r.1)
    | inr e ↦ rw e (r.0, insert-AllInRange name i infos h r.1)
  ]

  pub lookup-InRange :
      (name : String) (i : VmInfo n) (infos : Dict (VmInfo n))
      → AllInRange infos
      → lookup name infos ≡ some i
      → InRange n i
  unfolding lookup
  lookup-InRange name i [] r h = absurd (ground arith)
  lookup-InRange name i ((k, j) ∷ infos) r h = elim (Bool-cases (str_eq k name)) [
    | inl e ↦ let same : j ≡ i = ground (arith, h, e) in subst (InRange n) same r.0
    | inr e ↦ lookup-InRange name i infos r.1 (rw e at h)
  ]

  first_time-AllInRange :
      (total_mem : Num) (infos after : Dict (VmInfo n))
      → AllInRange infos
      → first_time n total_mem infos ≡ some after
      → AllInRange after
  unfolding first_time
  first_time-AllInRange total_mem infos after r h = elim (Bool-cases (length infos == 0)) [
    | inl e ↦ absurd (ground (arith, h, e))
    | inr e ↦ subst AllInRange (some-injective _ _ (rw e at h)) (
        for_all-InRange n _
          (λ i k. set_balloon-InRange n _ (record { minimum = k.minimum; target = k.target })) infos
          r)
  ]

  dynamic_allocate-AllInRange :
      (infos rated : Dict (VmInfo n)) (progress progress' : Progress n) (t : Transfer n)
      → AllInRange infos
      → dynamic_allocate n infos progress ≡ some (rated, progress', t)
      → AllInRange rated
  unfolding dynamic_allocate
  dynamic_allocate-AllInRange infos rated progress progress' t r h =
      elim (Bool-cases (length infos == 0)) [
        | inl e ↦ absurd (ground (arith, h, e))
        | inr e ↦ elim (Bool-cases (rates_positive n (values infos))) [
          | inl p ↦ subst Kept (some-injective _ _ (rw (e, p) at h)) (
              for_all-InRange n _ (λ i k. record { minimum = k.minimum; target = k.target }) infos
                r)
          | inr p ↦ subst Kept (some-injective _ _ (rw (e, p) at h)) r
        ]
      ]
    where
      Kept : Dict (VmInfo n) × Progress n × Transfer n → Type 0
      Kept q = AllInRange q.0

  module _ (intercept : List Num → List Num → List Num → Num) where
    info_of-InRange :
        (alpha beta : Num) (g : Guest n) (infos : Dict (VmInfo n)) (j : VmInfo n)
        → AllInRange infos
        → info_of n intercept alpha beta g (lookup g.name infos) ≡ some j
        → InRange n j
    info_of-InRange alpha beta g infos j r h = elim (Option-cases (lookup g.name infos)) [
      | inl e ↦ init_attribute-InRange n intercept alpha beta g j (rw e at h)
      | inr (i, e) ↦
          update-InRange n intercept g i j (lookup-InRange g.name i infos r e).minimum (rw e at h)
    ]

    update_guests-AllInRange :
        (alpha beta : Num) (guests : List (Guest n)) (infos after : Dict (VmInfo n))
        → AllInRange infos
        → update_guests n intercept alpha beta guests infos ≡ some after
        → AllInRange after
    unfolding update_guests
    update_guests-AllInRange alpha beta [] infos after r h =
        subst AllInRange (some-injective _ _ h) r
    update_guests-AllInRange alpha beta (g ∷ guests) infos after r h =
        let (j, e, k) =
          and_then-some (info_of n intercept alpha beta g (lookup g.name infos)) _ after h in
        update_guests-AllInRange alpha beta guests (insert g.name j infos) after
          (insert-AllInRange g.name j infos (info_of-InRange alpha beta g infos j r e) r) k

    plan-AllInRange :
        (infos rated : Dict (VmInfo n)) (progress progress' : Progress n) (t : Transfer n)
        → AllInRange infos
        → plan n intercept infos progress ≡ some (rated, progress', t)
        → AllInRange rated
    unfolding plan
    plan-AllInRange infos rated progress progress' t r h =
        elim (Bool-cases (length (select (λ i. not (is_busy n i)) (values infos)) == 0)) [
          | inl e ↦ dynamic_allocate-AllInRange infos rated progress progress' t r (rw e at h)
          | inr e ↦ subst Kept (some-injective _ _ (rw e at h)) r
        ]
      where
        Kept : Dict (VmInfo n) × Progress n × Transfer n → Type 0
        Kept q = AllInRange q.0

    run_round-AllInRange :
        (total_mem : Num) (p p' : RpPolicy n) (infos : Dict (VmInfo n))
        → AllInRange infos
        → run_round n intercept total_mem p infos ≡ some p'
        → AllInRange p'.vm_infos
    unfolding run_round
    run_round-AllInRange total_mem p p' infos updated h = elim (Bool-cases p.start) [
      | inl e ↦ elim (Option-cases (first_time n total_mem infos)) [
        | inl f ↦ absurd (ground (arith, h, e, f))
        | inr (after, f) ↦
            subst Safe (some-injective _ _ (rw (e, f) at h))
              (first_time-AllInRange total_mem infos after updated f)
      ]
      | inr e ↦ elim (Option-cases (plan n intercept infos p.progress)) [
        | inl f ↦ absurd (ground (arith, h, e, f))
        | inr ((rated, progress, t), f) ↦ subst Safe (some-injective _ _ (rw (e, f) at h)) (
            trigger_balloon-InRange n t.takers _ (
              trigger_balloon-InRange n t.givers rated
                (plan-AllInRange infos rated p.progress progress t updated f)))
      ]
    ]
      where
        Safe : RpPolicy n → Type 0
        Safe q = AllInRange q.vm_infos

    -- If every balloon target of the guests that the policy knows is at least 1100000 kB and at
    -- most the configured size of its guest, then so is every one after a round that ends, whatever
    -- the host and the guests report.
    pub evaluate-AllInRange :
        (mem_available : Num) (guests : List (Guest n)) (p p' : RpPolicy n)
        → AllInRange p.vm_infos
        → evaluate n intercept mem_available guests p ≡ some p'
        → AllInRange p'.vm_infos
    unfolding evaluate
    evaluate-AllInRange mem_available guests p p' r h =
        let (infos, e, k) =
          and_then-some (update_guests n intercept p.alpha p.beta guests p.vm_infos) _ p' h in
        run_round-AllInRange (n.times mem_available p.total_mem_ratio) p p' infos
          (update_guests-AllInRange p.alpha p.beta guests p.vm_infos infos r e) k
