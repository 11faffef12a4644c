-- ===== src/Policy/Rollback.antt =====
-- Proofs about `set_policy` of mom/Policy/Policy.py: how code and texts go together, and what a
-- refused change leaves.
use mom_perf_fair_scheduler.Common.{
  String, ◌≡◌, refl, sym, ap, ◌∙◌, ◌≢◌, ◌⊎◌, ◌↔◌, inl, inr, Bool, true, false, Option, none, some,
  List, [], ◌∷◌, ◌++◌, Dict, lookup, insert, remove, keys, has_key, eq_iff, arith, lookup-insert,
  lookup-remove, fun_ext,
}
use mathlib.Core.List.{append-nil}
use mom_perf_fair_scheduler.Common.Keys.{
  IsDict, insert-IsDict, remove-IsDict, remove_absent, remove-insert, insert-insert, keys-remove,
  keys-insert_new,
}
use mom_perf_fair_scheduler.Common.Sort.{sort, insert_sorted}
use mom_perf_fair_scheduler.Common.Sort.Laws.{sort-middle}
use mom_perf_fair_scheduler.Common.Texts.{text_leb, text-IsOrder, text_leb_antisym}
use mom_perf_fair_scheduler.Language.Syntax.{Code}
use mom_perf_fair_scheduler.Policy.{
  Policy, Compiled, compiles, policy_error, other_error, Ending, returns, raises_key_error,
  raises_other, text_of, cat_policies, store_text, restore_text, finish_set, set_named, set_policy,
  clear_policy, or_default,
}

-- The text of the policies does not change where a name is deleted and stored again.
cat_policies-restore :
    (k text : String) (d : Dict String)
    → IsDict d
    → lookup k d ≡ some text
    → cat_policies (insert k text (remove k d)) ≡ cat_policies d
unfolding cat_policies
cat_policies-restore k text d unique h =
    let (xs, ys, p, q) = keys-remove k text d unique h in
    let gone =
      keys-insert_new k text (remove k d) (ground (arith, lookup-remove k k d, eq_iff k k)) in
    let same_keys : sort text_leb (keys (insert k text (remove k d))) ≡ sort text_leb (keys d) =
      ap (sort text_leb) (gone ∙ ap (λ (l : List String). l ++ k ∷ []) q)
      ∙ sort-middle text_leb text-IsOrder text_leb_antisym k (xs ++ ys) []
      ∙ ap (λ (l : List String). insert_sorted text_leb k (sort text_leb l)) (append-nil (xs ++ ys))
      ∙ sym (sort-middle text_leb text-IsOrder text_leb_antisym k xs ys)
      ∙ ap (sort text_leb) (sym p) in
    let same_text : text_of (insert k text (remove k d)) ≡ text_of d = fun_ext λ j.
      ground (arith, lookup-insert k j text (remove k d), lookup-remove k j d, eq_iff k j, h) in
    rw (same_keys, same_text)

-- The cases of `get_code`.
pub Compiled-cases :
    (c : Compiled)
    → ((code : List Code) × (c ≡ compiles code)) ⊎ (c ≡ policy_error) ⊎ (c ≡ other_error)
Compiled-cases (compiles code) = inl (code, refl)
Compiled-cases policy_error = inr (inl refl)
Compiled-cases other_error = inr (inr refl)

-- What `set_policy` keeps: the names are distinct, and the code is that of the stored texts, or
-- there is no text and nothing is compiled, or the stored texts are such that `get_code` raises
-- another exception than `PolicyError` for them.
pub record IsConsistent (get_code : String → Compiled) (p : Policy) : Type 0 where
  pub distinct : IsDict p.policy_strings
  pub compiled :
      (get_code (cat_policies p.policy_strings) ≡ compiles p.code)
      ⊎ ((cat_policies p.policy_strings ≡ "0") × (p.code ≡ []))
      ⊎ (get_code (cat_policies p.policy_strings) ≡ other_error)

store_text-IsDict :
    (name : String) (text : Option String) (d : Dict String)
    → IsDict d
    → IsDict (store_text name text d)
unfolding store_text
store_text-IsDict name none d h = remove-IsDict name d h
store_text-IsDict name (some text) d h = insert-IsDict name text d h

-- The undone change leaves every name its text, and all the texts the same text, unless it was to
-- delete a name that was not there.
restore_text_undoes :
    (name : String) (text : Option String) (d : Dict String)
    → IsDict d
    → (text ≢ none) ⊎ (lookup name d ≢ none)
    → let (restored, e) = restore_text name (lookup name d) (store_text name text d) in
      (restored ≡ true)
      × IsDict e
      × (cat_policies e ≡ cat_policies d)
      × ((j : String) → lookup j e ≡ lookup j d)
unfolding restore_text store_text
restore_text_undoes name text d unique h = go text (lookup name d) refl h
  where
    go :
        (text : Option String) (old : Option String)
        → lookup name d ≡ old
        → (text ≢ none) ⊎ (old ≢ none)
        → let (restored, e) = restore_text name old (store_text name text d) in
          (restored ≡ true)
          × IsDict e
          × (cat_policies e ≡ cat_policies d)
          × ((j : String) → lookup j e ≡ lookup j d)
    go none none e h = absurd (ground arith)
    go (some text) none e h =
        let same = remove-insert name text d (ground (arith, e)) in
        let there : has_key name (insert name text d) ≡ true =
          ground (arith, lookup-insert name name text d, eq_iff name name) in
        rw there (refl, rw same unique, ap cat_policies same, λ j. ap (lookup j) same)
    go none (some old) e h = (
      refl,
      insert-IsDict name old (remove name d) (remove-IsDict name d unique),
      cat_policies-restore name old d unique e,
      λ j. ground (
        arith,
        e,
        lookup-insert name j old (remove name d),
        lookup-remove name j d,
        eq_iff name j,
      ),
    )
    go (some text) (some old) e h =
        let same = insert-insert name text old d e in
        (refl, rw same unique, ap cat_policies same, λ j. ap (lookup j) same)

-- The end of a refused change whose undoing went well.
refused_parts :
    (p : Policy) (strings : Dict String) (r : Bool × Dict String)
    → r.0 ≡ true
    → finish_set policy_error strings r p ≡ (returns false, record p { policy_strings = r.1 })
unfolding finish_set
refused_parts p strings (true, d) h = refl
refused_parts p strings (false, d) h = absurd (ground arith)

-- The texts after a change that was undone.
abbrev undone : String → Option String → Dict String → Dict String
undone name text d = (restore_text name (lookup name d) (store_text name text d)).1

-- How `set_policy` ends is told by what `get_code` gives for the new texts, and with `true` the code
-- is that of the texts.
abbrev pub EndsBy : (String → Compiled) → Compiled → Ending × Policy → Type 0
EndsBy get_code c (ending, p') =
    ((ending ≡ raises_other) ↔ (c ≡ other_error))
    × (ending ≡ returns true → get_code (cat_policies p'.policy_strings) ≡ compiles p'.code)

module _ (get_code : String → Compiled) {zero_code : List Code}
    (zero_compiles : get_code "0" ≡ compiles zero_code) where
  -- For the texts that are stored there is no `PolicyError`.
  stored_compiles :
      (p : Policy)
      → IsConsistent get_code p
      → get_code (cat_policies p.policy_strings) ≢ policy_error
  stored_compiles p c e = elim c.compiled [
    | inl h ↦ cc
    | inr (inl h) ↦ absurd (ground (arith, ap get_code h.0, zero_compiles, e))
    | inr (inr h) ↦ cc
  ]

  -- A change that is refused deletes no absent name, since without a change the texts compile.
  refused_changes :
      (name : String) (text : Option String) (p : Policy)
      → IsConsistent get_code p
      → get_code (cat_policies (store_text name text p.policy_strings)) ≡ policy_error
      → (text ≢ none) ⊎ (lookup name p.policy_strings ≢ none)
  unfolding store_text
  refused_changes name (some text) p c e = inl (cc)
  refused_changes name none p c e = inr λ absent.
      stored_compiles p c (rw (remove_absent name p.policy_strings (ground (arith, absent))) at e)

  set_named_refused :
      (name : String) (text : Option String) (p : Policy)
      → IsConsistent get_code p
      → get_code (cat_policies (store_text name text p.policy_strings)) ≡ policy_error
      → set_named get_code name text p
        ≡ (returns false, record p { policy_strings = undone name text p.policy_strings })
  unfolding set_named
  set_named_refused name text p c e =
      let d = p.policy_strings in
      let facts = restore_text_undoes name text d c.distinct (refused_changes name text p c e) in
      rw e (
        refused_parts p (store_text name text d)
          (restore_text name (lookup name d) (store_text name text d)) facts.0)

  -- If the text `0` compiles, then from a state that `IsConsistent` describes a change for whose
  -- texts `get_code` raises `PolicyError` makes `set_policy` return false and leaves the code, the
  -- text of the policies, and what every name stands for.
  pub set_policy_refused :
      (name text : Option String) (p : Policy)
      → IsConsistent get_code p
      → get_code (cat_policies (store_text (or_default name) text p.policy_strings)) ≡ policy_error
      → let (ending, p') = set_policy get_code name text p in
        (ending ≡ returns false)
        × (p'.code ≡ p.code)
        × (cat_policies p'.policy_strings ≡ cat_policies p.policy_strings)
        × ((j : String) → lookup j p'.policy_strings ≡ lookup j p.policy_strings)
  unfolding set_policy
  set_policy_refused name text p c e =
      let d = p.policy_strings in
      let (restored, unique, same_text, same) =
        restore_text_undoes (or_default name) text d c.distinct
          (refused_changes (or_default name) text p c e) in
      rw (set_named_refused (or_default name) text p c e) (refl, refl, same_text, same)

  set_named_other :
      (name : String) (text : Option String) (p : Policy)
      → get_code (cat_policies (store_text name text p.policy_strings)) ≡ other_error
      → set_named get_code name text p
        ≡ (raises_other, record p { policy_strings = store_text name text p.policy_strings })
  unfolding set_named finish_set
  set_named_other name text p e = rw e refl

  -- If the text `0` compiles, then from a state with distinct names whose code is that of the
  -- stored texts, or that has no code and whose texts are those of `0`, or for whose texts
  -- `get_code` raises another exception than `PolicyError`, `set_policy` does not raise `KeyError`,
  -- raises another exception exactly where `get_code` does for the new texts, has the code of the
  -- stored texts where it returns true, and leaves such a state again, whatever name and text it is
  -- given.
  pub set_policy-IsConsistent :
      (name text : Option String) (p : Policy)
      → IsConsistent get_code p
      → ((set_policy get_code name text p).0 ≢ raises_key_error)
        × EndsBy get_code
            (get_code (cat_policies (store_text (or_default name) text p.policy_strings)))
            (set_policy get_code name text p)
        × IsConsistent get_code (set_policy get_code name text p).1
  unfolding set_policy finish_set
  set_policy-IsConsistent name text p c =
      let strings = store_text (or_default name) text p.policy_strings in
      let unique' = store_text-IsDict (or_default name) text p.policy_strings c.distinct in
      elim (Compiled-cases (get_code (cat_policies strings))) [
        | inr (inl e) ↦
            let (restored, unique, same_text, same) =
              restore_text_undoes (or_default name) text p.policy_strings c.distinct
                (refused_changes (or_default name) text p c e) in
            rw (set_named_refused (or_default name) text p c e) (
              (λ h. cc),
              (((λ h. cc), (λ h. cc)), λ h. cc),
              record {
                distinct = unique;
                compiled = elim c.compiled [
                  | inl h ↦ inl (ap get_code same_text ∙ h)
                  | inr (inl h) ↦ inr (inl (same_text ∙ h.0, h.1))
                  | inr (inr h) ↦ inr (inr (ap get_code same_text ∙ h))
                ];
              },
            )
        | inl (code, e) ↦
            rw (e, set_named, finish_set)
              (
                (λ h. cc),
                (((λ h. cc), (λ h. cc)), λ h. e),
                record { distinct = unique'; compiled = inl e },
              )
        | inr (inr e) ↦ rw (set_named_other (or_default name) text p e) (
          (λ h. cc),
          (((λ h. e), (λ h. refl)), λ h. cc),
          record { distinct = unique'; compiled = inr (inr e) },
        )
      ]

  pub clear_policy-IsConsistent : (p : Policy) → IsConsistent get_code (clear_policy p)
  unfolding clear_policy cat_policies
  clear_policy-IsConsistent p = record { distinct = tt; compiled = inr (inl (refl, refl)) }
