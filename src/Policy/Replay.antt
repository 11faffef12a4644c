-- ===== src/Policy/Replay.antt =====
-- The policies of mom/Policy/Policy.py after a sequence of changes, against a map that takes the
-- changes that were stored and knows nothing of code.
use mom_perf_fair_scheduler.Common.{
  String, ◌≡◌, refl, ap, ◌∙◌, Bool, true, false, Option, none, some, List, [], ◌∷◌, inl, inr, Dict,
  lookup, lookup-insert, lookup-remove, str_eq, if◌then◌else◌,
}
use mom_perf_fair_scheduler.Language.Syntax.{Code}
use mom_perf_fair_scheduler.Policy.{
  Policy, Compiled, compiles, other_error, Ending, returns, raises_key_error, raises_other,
  cat_policies, store_text, or_default, finish_set, set_named, set_policy,
}
use mom_perf_fair_scheduler.Policy.Rollback.{
  IsConsistent, Compiled-cases, set_policy_refused, set_policy-IsConsistent,
}

-- A change: the arguments of `set_policy`.
abbrev pub Change : Type 0
Change = Option String × Option String

-- Whether the call has stored the change: it returned true, or raised what `get_code` did.
abbrev pub was_stored : Ending → Bool
was_stored (returns b) = b
was_stored raises_key_error = false
was_stored raises_other = true

-- A change of the map, where it was stored.
abbrev pub changed : String → Change → Bool → Option String → Option String
changed j (name, text) false old = old
changed j (name, text) true old = if str_eq (or_default name) j then text else old

-- What the map has for a name after some changes, with how they ended.
abbrev pub replay : String → List Change → List Bool → Option String → Option String
replay j (c ∷ changes) (b ∷ ends) old = replay j changes ends (changed j c b old)
replay j _ _ old = old

lookup-store_text :
    (j name : String) (text : Option String) (d : Dict String)
    → lookup j (store_text name text d) ≡ (if str_eq name j then text else lookup j d)
unfolding store_text
lookup-store_text j name none d = lookup-remove name j d
lookup-store_text j name (some text) d = lookup-insert name j text d

module _ (get_code : String → Compiled) where
  -- The calls of `set_policy` in turn: how each ended, and the state.
  unfoldable pub set_all : List Change → Policy → List Bool × Policy
  unfolding set_policy
  set_all [] p = ([], p)
  set_all ((name, text) ∷ changes) p =
      let (ending, p') = set_policy get_code name text p in
      let (ends, after) = set_all changes p' in (was_stored ending ∷ ends, after)

  -- A change whose texts compile is stored.
  set_policy-accepted :
      (name text : Option String) (p : Policy) (code : List Code)
      → get_code (cat_policies (store_text (or_default name) text p.policy_strings)) ≡ compiles code
      → set_policy get_code name text p ≡ (
        returns true,
        record { policy_strings = store_text (or_default name) text p.policy_strings; code = code },
      )
  unfolding set_policy finish_set
  set_policy-accepted name text p code e = rw (e, set_named, finish_set) refl

  -- So is one for which `get_code` raises another exception.
  set_policy-other :
      (name text : Option String) (p : Policy)
      → get_code (cat_policies (store_text (or_default name) text p.policy_strings)) ≡ other_error
      → set_policy get_code name text p ≡ (
        raises_other,
        record p { policy_strings = store_text (or_default name) text p.policy_strings },
      )
  unfolding set_policy finish_set
  set_policy-other name text p e = rw (e, set_named, finish_set) refl

  module _ {zero_code : List Code} (zero_compiles : get_code "0" ≡ compiles zero_code) where
    lookup-set_policy :
        (j : String) (name text : Option String) (p : Policy)
        → IsConsistent get_code p
        → lookup j (set_policy get_code name text p).1.policy_strings
          ≡ changed j
              (name, text)
              (was_stored (set_policy get_code name text p).0)
              (lookup j p.policy_strings)
    lookup-set_policy j name text p c =
        elim (Compiled-cases
          (get_code (cat_policies (store_text (or_default name) text p.policy_strings)))) [
            | inr (inl e) ↦
                let (ending, code, text_same, same) =
                  set_policy_refused get_code zero_compiles name text p c e in
                rw ending (same j)
            | inl (code, e) ↦
                rw (set_policy-accepted name text p code e)
                  (lookup-store_text j (or_default name) text p.policy_strings)
            | inr (inr e) ↦
                rw (set_policy-other name text p e)
                  (lookup-store_text j (or_default name) text p.policy_strings)
          ]

    -- If the text `0` compiles, then after any sequence of calls of `set_policy` from a state that
    -- `IsConsistent` describes, a name stands for what a map has for it that takes the changes for
    -- which the call returned true or raised another exception of `get_code`, and no others.
    pub lookup-set_all :
        (changes : List Change) (p : Policy) (j : String)
        → IsConsistent get_code p
        → lookup j (set_all changes p).1.policy_strings
          ≡ replay j changes (set_all changes p).0 (lookup j p.policy_strings)
    unfolding set_all
    lookup-set_all [] p j c = refl
    lookup-set_all ((name, text) ∷ changes) p j c =
        lookup-set_all changes (set_policy get_code name text p).1 j
          (set_policy-IsConsistent get_code zero_compiles name text p c).2
        ∙ ap (replay j changes (set_all changes (set_policy get_code name text p).1).0)
            (lookup-set_policy j name text p c)
