-- ===== src/Language/Scopes/Laws.antt =====
-- What the variable stack of mom/Policy/Parser.py keeps: which names each scope has, and what the
-- operations do to a look-up.
use Prim.Native.Char.{code}
use mathlib.Core.Option.{some-injective}
use mom_perf_fair_scheduler.Common.{
  String, ◌≡◌, refl, sym, ap, ◌∙◌, subst, true, false, set_default, Bool-cases, ◌==◌, Option, none,
  some, List, [], ◌∷◌, arith, Dict, lookup, insert, has_key, keys, length, suc, drop, if◌then◌else◌,
  str_eq, eq_iff, lookup-insert, lookup-set_default, Option-cases, inl, inr, All, ◌↔◌,
}
use mom_perf_fair_scheduler.Language.Scopes.{
  Stack, leave_scope, find, alloc, assign, get, split_name, before_dot, after_dot, dot,
}

-- The names that each scope has.
abbrev pub scope_names : {V : Type 0} → Stack V → List (List String)
scope_names [] = []
scope_names (scope ∷ stack) = keys scope ∷ scope_names stack

-- The scopes below the innermost.
abbrev pub outer : {V : Type 0} → Stack V → Stack V
outer [] = []
outer (scope ∷ stack) = stack

abbrev get_or_default : {V : Type 0} → V → Option V → V
get_or_default v none = v
get_or_default v (some w) = w

-- A name without a dot is its own object.
before_dot-whole : (name : String) → after_dot name ≡ none → before_dot name ≡ name
unfolding before_dot after_dot
before_dot-whole String.[] h = refl
before_dot-whole (String.◌∷◌ c s) h = elim (Bool-cases (code c == dot)) [
  | inl e ↦ absurd (ground (arith, rw e at h))
  | inr e ↦ rw e (ap (String.◌∷◌ c) (before_dot-whole s (rw e at h)))
]

split_name-whole : (name : String) → after_dot name ≡ none → split_name name ≡ (name, none)
unfolding split_name
split_name-whole name h = ground (arith, h, before_dot-whole name h)

module _ {V : Type 0} where
  -- A write to a name that a dictionary has adds no name.
  keys-insert_old :
      (k : String) (v : V) (d : Dict V) → has_key k d ≡ true → keys (insert k v d) ≡ keys d
  unfolding insert lookup
  keys-insert_old k v [] h = cc
  keys-insert_old k v ((j, w) ∷ d) h = ground (arith, eq_iff j k, keys-insert_old k v d)

  -- An assignment that succeeds adds no name to any scope and takes none away.
  pub scope_names-assign :
      (name : String) (v : V) (stack stack' : Stack V)
      → assign name v stack ≡ some stack'
      → scope_names stack' ≡ scope_names stack
  unfolding assign
  scope_names-assign name v [] stack' h = cc
  scope_names-assign name v (scope ∷ stack) stack' h =
      let old = keys-insert_old name v scope in
      elim (Option-cases (assign name v stack)) [
        | inl e ↦ ground (arith, old, e)
        | inr (rest, e) ↦ ground (arith, old, e, scope_names-assign name v stack rest e)
      ]

  pub length-scope_names : (stack : Stack V) → length (scope_names stack) ≡ length stack
  length-scope_names [] = refl
  length-scope_names (scope ∷ stack) = ap suc (length-scope_names stack)

  pub leave_scope-eq-outer : (stack : Stack V) → leave_scope stack ≡ outer stack
  unfolding leave_scope
  leave_scope-eq-outer [] = refl
  leave_scope-eq-outer (scope ∷ stack) = refl

  pub scope_names-outer : (stack : Stack V) → scope_names (outer stack) ≡ drop 1 (scope_names stack)
  scope_names-outer [] = refl
  scope_names-outer (scope ∷ stack) = refl

  -- An assignment fails exactly where no scope has the name.
  assign_undefined :
      (name : String) (v : V) (stack : Stack V)
      → (assign name v stack ≡ none) ↔ All (λ scope. lookup name scope ≡ none) stack
  unfolding assign
  assign_undefined name v [] = (λ h. tt, λ h. refl)
  assign_undefined name v (scope ∷ stack) =
      let ih = assign_undefined name v stack in
      (λ h. (ground (arith, h), ih.0 (ground (arith, h))), λ h. ground (arith, h.0, ih.1 h.1))

  pub outer-alloc :
      (name : String) (v : V) (stack : Stack V) → outer (alloc name v stack).1 ≡ outer stack
  unfolding alloc
  outer-alloc name v [] = refl
  outer-alloc name v (scope ∷ stack) = refl

  pub length-alloc :
      (name : String) (v : V) (stack : Stack V) → length (alloc name v stack).1 ≡ length stack
  unfolding alloc
  length-alloc name v [] = refl
  length-alloc name v (scope ∷ stack) = refl

  -- After an assignment that succeeds, the name has the new value, and any other name what it had.
  find-assign :
      (attribute : V → String → Option V) (name other : String) (v : V) (stack stack' : Stack V)
      → assign name v stack ≡ some stack'
      → find attribute other none stack'
        ≡ (if str_eq name other then some v else find attribute other none stack)
  unfolding assign find
  find-assign attribute name other v [] stack' h = cc
  find-assign attribute name other v (scope ∷ stack) stack' h =
      let here = lookup-insert name other v scope in
      elim (Option-cases (assign name v stack)) [
        | inl e ↦ ground (arith, here, e, eq_iff name other)
        | inr (rest, e) ↦
            ground
              (arith, here, e, eq_iff name other, find-assign attribute name other v stack rest e)
      ]

  -- The objects of other names keep their attributes.
  find-assign_other :
      (attribute : V → String → Option V) (name obj : String) (field : Option String) (v : V)
      (stack stack' : Stack V)
      → assign name v stack ≡ some stack'
      → str_eq name obj ≡ false
      → find attribute obj field stack' ≡ find attribute obj field stack
  unfolding assign find
  find-assign_other attribute name obj field v [] stack' h other = cc
  find-assign_other attribute name obj field v (scope ∷ stack) stack' h other =
      let here : lookup obj (insert name v scope) ≡ lookup obj scope =
        ground (arith, other, lookup-insert name obj v scope) in
      elim (Bool-cases (has_key name scope)) [
        | inl k ↦
            let same = some-injective _ _ (rw k at h) in
            subst (λ s. find attribute obj field s ≡ find attribute obj field (scope ∷ stack)) same
              (rw (here, find) refl)
        | inr k ↦ elim (Option-cases (assign name v stack)) [
          | inl e ↦ absurd (ground (arith, rw (k, e) at h))
          | inr (rest, e) ↦
              let same = some-injective _ _ (rw (k, e) at h) in
              let below = find-assign_other attribute name obj field v stack rest e other in
              subst (λ s. find attribute obj field s ≡ find attribute obj field (scope ∷ stack))
                same (ground (arith, below))
        ]
      ]

  get-whole :
      (attribute : V → String → Option V) (name : String) (stack : Stack V)
      → after_dot name ≡ none
      → get attribute name stack ≡ find attribute name none stack
  unfolding get
  get-whole attribute name stack h =
      ap (λ (p : String × Option String). find attribute p.0 p.1 stack) (split_name-whole name h)

  -- After an assignment that succeeds, a name without a dot reads as the new value if it is the
  -- assigned one, and otherwise as before; and any name whose part before the dot is not the
  -- assigned one reads as before.
  pub get-assign :
      (attribute : V → String → Option V) (name other : String) (v : V) (stack stack' : Stack V)
      → assign name v stack ≡ some stack'
      → (after_dot other ≡ none
          → get attribute other stack'
            ≡ (if str_eq name other then some v else get attribute other stack))
        × (str_eq name (before_dot other) ≡ false
            → get attribute other stack' ≡ get attribute other stack)
  unfolding get split_name
  get-assign attribute name other v stack stack' h = (
    λ whole.
        get-whole attribute other stack' whole
        ∙ find-assign attribute name other v stack stack' h
        ∙ ap (λ o. if str_eq name other then some v else o)
            (sym (get-whole attribute other stack whole)),
    find-assign_other attribute name (before_dot other) _ v stack stack' h,
  )

  find-alloc :
      (attribute : V → String → Option V) (name other : String) (v : V) (scope : Dict V)
      (stack : Stack V)
      → find attribute other none (alloc name v (scope ∷ stack)).1 ≡ (
          if str_eq name other
          then some (get_or_default v (lookup name scope))
          else find attribute other none (scope ∷ stack))
  unfolding alloc find
  find-alloc attribute name other v scope stack =
      ground (arith, lookup-set_default name other v scope, eq_iff name other)

  find-alloc_other :
      (attribute : V → String → Option V) (name obj : String) (field : Option String) (v : V)
      (scope : Dict V) (stack : Stack V)
      → str_eq name obj ≡ false
      → find attribute obj field (alloc name v (scope ∷ stack)).1
        ≡ find attribute obj field (scope ∷ stack)
  unfolding alloc find
  find-alloc_other attribute name obj field v scope stack other =
      let here : lookup obj (set_default name v scope) ≡ lookup obj scope =
        ground (arith, other, lookup-set_default name obj v scope) in
      rw (here, find) refl

  -- After a definition in the innermost scope, a name without a dot reads, if it is the defined
  -- one, as the value that this scope had for it, or else as the new value, and otherwise as
  -- before; and any name whose part before the dot is not the defined one reads as before.
  pub get-alloc :
      (attribute : V → String → Option V) (name other : String) (v : V) (scope : Dict V)
      (stack : Stack V)
      → (after_dot other ≡ none
          → get attribute other (alloc name v (scope ∷ stack)).1 ≡ (
              if str_eq name other
              then some (get_or_default v (lookup name scope))
              else get attribute other (scope ∷ stack)))
        × (str_eq name (before_dot other) ≡ false
            → get attribute other (alloc name v (scope ∷ stack)).1
              ≡ get attribute other (scope ∷ stack))
  unfolding get split_name
  get-alloc attribute name other v scope stack = (
    λ whole.
        get-whole attribute other (alloc name v (scope ∷ stack)).1 whole
        ∙ find-alloc attribute name other v scope stack
        ∙ ap (λ o. if str_eq name other then some (get_or_default v (lookup name scope)) else o)
            (sym (get-whole attribute other (scope ∷ stack) whole)),
    find-alloc_other attribute name (before_dot other) _ v scope stack,
  )
