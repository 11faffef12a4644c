-- ===== src/Policy/Tests.antt =====
-- `set_policy` on concrete texts, with a compiler that knows two of them, and the theorems about it
-- at concrete inputs.
use mom_perf_fair_scheduler.Common.{
  String, ◌≡◌, ◌≢◌, refl, inl, true, false, none, some, List, [], ◌∷◌, lookup, str_eq,
  if◌then◌else◌,
}
use mom_perf_fair_scheduler.Language.Syntax.{Code, leaf, number, integer}
use mom_perf_fair_scheduler.Policy.{
  Policy, Compiled, compiles, policy_error, other_error, returns, raises_key_error, raises_other,
  cat_policies, store_text, restore_text, set_policy,
}
use mom_perf_fair_scheduler.Common.Texts.{text_leb}
use mom_perf_fair_scheduler.Policy.Replay.{Change, replay, set_all, lookup-set_all}
use mom_perf_fair_scheduler.Policy.Rollback.{
  IsConsistent, EndsBy, set_policy-IsConsistent, set_policy_refused,
}

abbrev pub number_code : String → List Code
number_code s = leaf (record { kind = number integer; value = s; line = some 1 }) ∷ []

-- A blank has no token, so that it raises another exception than a text that is no policy.
abbrev pub compiler : String → Compiled
compiler s =
    if str_eq s "0"
    then compiles (number_code "0")
    else if str_eq s "1"
    then compiles (number_code "1")
    else if str_eq s " "
    then other_error
    else policy_error

abbrev pub stored : Policy
stored = record { policy_strings = ("50_main_", "1") ∷ []; code = number_code "1" }

pub stored-IsConsistent : IsConsistent compiler stored
unfolding cat_policies
stored-IsConsistent = record { distinct = (refl, tt); compiled = inl refl }

set_policy-IsConsistent_example :
    ((set_policy compiler (some "extra") (some "(") stored).0 ≢ raises_key_error)
    × EndsBy compiler
        (compiler (cat_policies (store_text "extra" (some "(") stored.policy_strings)))
        (set_policy compiler (some "extra") (some "(") stored)
    × IsConsistent compiler (set_policy compiler (some "extra") (some "(") stored).1
set_policy-IsConsistent_example =
    set_policy-IsConsistent compiler refl (some "extra") (some "(") stored stored-IsConsistent

set_policy_refused_example :
    let (ending, p') = set_policy compiler none (some "(") stored in
    (ending ≡ returns false)
    × (p'.code ≡ stored.code)
    × (cat_policies p'.policy_strings ≡ cat_policies stored.policy_strings)
    × ((j : String) → lookup j p'.policy_strings ≡ lookup j stored.policy_strings)
unfolding cat_policies store_text
set_policy_refused_example =
    set_policy_refused compiler refl none (some "(") stored stored-IsConsistent refl

-- A blank text is stored, with the code of the old one, although the call raises.
blank_runs :
    set_policy compiler none (some " ") stored
    ≡ (raises_other, record stored { policy_strings = ("50_main_", " ") ∷ [] })
unfolding set_policy cat_policies store_text restore_text text_leb
blank_runs = refl

-- A text that compiles only alone, one that does not, the deletion of a name, and a blank text.
abbrev changes : List Change
changes = (none, some "0") ∷ (some "extra", some "(") ∷ (none, none) ∷ (none, some " ") ∷ []

changes_run : (set_all compiler changes stored).0 ≡ true ∷ false ∷ true ∷ true ∷ []
unfolding set_all store_text cat_policies restore_text lookup text_leb
changes_run = refl

lookup-set_all_example :
    lookup "extra" (set_all compiler changes stored).1.policy_strings
    ≡ replay "extra" changes
        (set_all compiler changes stored).0
        (lookup "extra" stored.policy_strings)
lookup-set_all_example = lookup-set_all compiler refl changes stored "extra" stored-IsConsistent
