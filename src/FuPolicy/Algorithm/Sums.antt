-- ===== src/FuPolicy/Algorithm/Sums.antt =====
-- Proofs about the sums of the tables of mom/Policy/FUPolicy.py.
use mathlib.Core.List.{reverse, reverse-append}
use mathlib.Core.Option.{some-injective}
use mom_perf_fair_scheduler.Common.{
  String, ◌≡◌, refl, sym, ap, ◌∙◌, true, some, List, [], ◌∷◌, ◌++◌, arith, All, Dict, has_key,
  lookup, str_eq, Bool-cases, inl, inr, Bool, Option-cases, subst,
}
use mom_perf_fair_scheduler.Common.Sort.{sort, insert_sorted}
use mom_perf_fair_scheduler.Number.{Number, IsExact, zero-plus}
use mom_perf_fair_scheduler.FuPolicy.Algorithm.{change, sum_of, exceeds}

module _ (n : Number) where
  open n use {Num, of_ℕ, plus, minus}

  -- Every name of the list stands in the dictionary.
  abbrev pub Covers : Dict Num → List (String × Num) → Type 0
  Covers d rank = All (λ (e : String × Num). has_key e.0 d ≡ true) rank

  pub has_key-change :
      (j name : String) (f : Num → Num) (d : Dict Num) → has_key j (change n name f d) ≡ has_key j d
  unfolding change lookup
  has_key-change j name f [] = refl
  has_key-change j name f ((k, x) ∷ d) = ground (arith, has_key-change j name f d)

  pub exceeds-Covers :
      (f_allocated u_allocated exceed : Dict Num)
      → exceeds n f_allocated u_allocated ≡ some exceed
      → Covers u_allocated exceed
  unfolding exceeds
  exceeds-Covers [] u exceed h = subst (Covers u) (some-injective _ _ h) tt
  exceeds-Covers ((name, f_mem) ∷ f) u exceed h = elim (Option-cases (lookup name u)) [
    | inl e ↦ absurd (ground (arith, h, e))
    | inr (u_mem, e) ↦ elim (Option-cases (exceeds n f u)) [
      | inl k ↦ absurd (ground (arith, h, e, k))
      | inr (rest, k) ↦
          subst (Covers u) (some-injective _ _ (rw (e, k, exceeds) at h))
            (ground (arith, e), exceeds-Covers f u rest k)
    ]
  ]

  module _ (exact : IsExact n) where
    plus_left : (a b c : Num) → plus a (plus b c) ≡ plus b (plus a c)
    plus_left a b c =
        sym (exact.plus_assoc a b c)
        ∙ ap (λ x. plus x c) (exact.plus_comm a b)
        ∙ exact.plus_assoc b a c

    -- The sum of one changed entry: `g` is the change of the whole sum.
    pub sum-change :
        (name : String) (f : Num → Num) (d : Dict Num)
        → ((x y : Num) → plus (f x) y ≡ f (plus x y))
        → has_key name d ≡ true
        → sum_of n (change n name f d) ≡ f (sum_of n d)
    unfolding change lookup sum_of
    sum-change name f [] shift h = absurd (ground arith)
    sum-change name f ((k, x) ∷ d) shift h = elim (Bool-cases (str_eq k name)) [
      | inl e ↦ rw (e, change) (shift x (sum_of n d))
      | inr e ↦
          rw (e, change)
            (ap (plus x) (sum-change name f d shift (rw e at h))
              ∙ exact.plus_comm x (f (sum_of n d))
              ∙ shift (sum_of n d) x
              ∙ ap f (exact.plus_comm (sum_of n d) x))
    ]

    sum-insert_sorted :
        (leb : String × Num → String × Num → Bool) (e : String × Num) (d : Dict Num)
        → sum_of n (insert_sorted leb e d) ≡ plus e.1 (sum_of n d)
    unfolding insert_sorted sum_of
    sum-insert_sorted leb (k, x) [] = refl
    sum-insert_sorted leb (k, x) ((j, y) ∷ d) = elim (Bool-cases (leb (k, x) (j, y))) [
      | inl e ↦ rw (e, insert_sorted) refl
      | inr e ↦
          rw (e, insert_sorted)
            (ap (plus y) (sum-insert_sorted leb (k, x) d) ∙ plus_left y x (sum_of n d))
    ]

    pub sum-sort :
        (leb : String × Num → String × Num → Bool) (d : Dict Num)
        → sum_of n (sort leb d) ≡ sum_of n d
    unfolding sort sum_of
    sum-sort leb [] = refl
    sum-sort leb ((k, x) ∷ d) =
        sum-insert_sorted leb (k, x) (sort leb d) ∙ ap (plus x) (sum-sort leb d)

    sum-append : (d e : Dict Num) → sum_of n (d ++ e) ≡ plus (sum_of n d) (sum_of n e)
    unfolding sum_of
    sum-append [] e = sym (zero-plus n exact (sum_of n e))
    sum-append ((k, x) ∷ d) e =
        ap (plus x) (sum-append d e) ∙ sym (exact.plus_assoc x (sum_of n d) (sum_of n e))

    pub sum-reverse : (d : Dict Num) → sum_of n (reverse d) ≡ sum_of n d
    unfolding sum_of
    sum-reverse [] = refl
    sum-reverse ((k, x) ∷ d) =
        ap (sum_of n) (reverse-append ((k, x) ∷ []) d)
        ∙ sum-append (reverse d) ((k, x) ∷ [])
        ∙ ap (λ y. plus y (plus x (of_ℕ 0))) (sum-reverse d)
        ∙ ap (plus (sum_of n d)) (exact.plus-zero x)
        ∙ exact.plus_comm (sum_of n d) x
