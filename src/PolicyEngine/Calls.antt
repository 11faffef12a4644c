-- ===== src/PolicyEngine/Calls.antt =====
-- Proofs about the calls of mom/PolicyEngine.py that change the stored policies.
use mom_perf_fair_scheduler.Common.{
  String, ◌≡◌, ◌≢◌, inl, inr, Option, none, some, List, [], ◌∷◌, str_eq, Bool-cases, Option-cases,
}
use mom_perf_fair_scheduler.Common.Sort.{sort}
use mom_perf_fair_scheduler.Common.Texts.{text_leb}
use mom_perf_fair_scheduler.Language.Syntax.{Code}
use mom_perf_fair_scheduler.Policy.{
  Policy, Compiled, compiles, Ending, returns, raises_key_error, raises_other, set_policy,
  clear_policy,
}
use mom_perf_fair_scheduler.Policy.Rollback.{
  IsConsistent, set_policy-IsConsistent, clear_policy-IsConsistent,
}
use mom_perf_fair_scheduler.PolicyEngine.{
  ended, read_policy, is_policy_file, load_files, load_directory, load_policy, rpc_reset_policy,
  rpc_set_policy, rpc_set_named_policy,
}

-- What the source relies on: no `KeyError`, and a consistent state.
pub record IsSound (get_code : String → Compiled) (r : Ending × Policy) : Type 0 where
  pub caught : r.0 ≢ raises_key_error
  pub consistent : IsConsistent get_code r.1

module _ (get_code : String → Compiled) {zero_code : List Code}
    (zero_compiles : get_code "0" ≡ compiles zero_code) where
  set_policy-IsSound :
      (name text : Option String) (p : Policy)
      → IsConsistent get_code p
      → IsSound get_code (set_policy get_code name text p)
  set_policy-IsSound name text p c =
      let (caught, ends, consistent) =
        set_policy-IsConsistent get_code zero_compiles name text p c in
      record { caught = caught; consistent = consistent }

  read_policy-IsSound :
      (content name : Option String) (p : Policy)
      → IsConsistent get_code p
      → IsSound get_code (read_policy get_code content name p)
  unfolding read_policy
  read_policy-IsSound none name p c = record { caught = λ e. cc; consistent = c }
  read_policy-IsSound (some text) name p c = set_policy-IsSound name (some text) p c

  -- A result without an exception goes on.
  continue-IsSound :
      (r : Ending × Policy) (f : Policy → Ending × Policy)
      → IsSound get_code r
      → ((p : Policy) → IsConsistent get_code p → IsSound get_code (f p))
      → IsSound get_code (elim r.0 as (λ x. Ending × Policy) [
        | returns b ↦ f r.1
        | raises_key_error ↦ r
        | raises_other ↦ r
      ])
  continue-IsSound (returns b, p) f s g = g p s.consistent
  continue-IsSound (raises_key_error, p) f s g = s
  continue-IsSound (raises_other, p) f s g = s

  module _ (read_file : String → Option String) (list_directory : String → Option (List String))
      (join_path : String → String → String) where
    load_files-IsSound :
        (directory : String) (names : List String) (p : Policy)
        → IsConsistent get_code p
        → IsSound get_code
            (load_files get_code read_file list_directory join_path directory names p)
    unfolding load_files
    load_files-IsSound directory [] p c = record { caught = λ e. cc; consistent = c }
    load_files-IsSound directory (name ∷ names) p c =
        elim (Bool-cases (is_policy_file get_code name)) [
          | inl e ↦ rw e (
              continue-IsSound _ _ (read_policy-IsSound _ _ p c)
                (load_files-IsSound directory names))
          | inr e ↦ rw e (load_files-IsSound directory names p c)
        ]

    load_directory-IsSound :
        (directory : String) (p : Policy)
        → IsConsistent get_code p
        → IsSound get_code (load_directory get_code read_file list_directory join_path directory p)
    unfolding load_directory
    load_directory-IsSound directory p c = elim (Option-cases (list_directory directory)) [
      | inl e ↦ rw (e, load_directory) (record { caught = λ h. cc; consistent = c })
      | inr (names, e) ↦
          rw (e, load_directory) (load_files-IsSound directory (sort text_leb names) p c)
    ]

    -- If the text `0` compiles, then from a state that `IsConsistent` describes `load_policy` ends
    -- without a `KeyError`, and in such a state again, whatever the files hold and `get_code`
    -- raises for them.
    pub load_policy-IsConsistent :
        (fname directory : String) (p : Policy)
        → IsConsistent get_code p
        → let (loaded, p') =
            load_policy get_code read_file list_directory join_path fname directory p in
          (loaded ≢ ended raises_key_error) × IsConsistent get_code p'
    unfolding load_policy
    load_policy-IsConsistent fname directory p c =
        let file = read_policy-IsSound (read_file fname) none p c in
        let names = load_directory-IsSound directory p c in
        elim (Bool-cases (str_eq fname "")) [
          | inl e ↦ elim (Bool-cases (str_eq directory "")) [
            | inl d ↦ rw (e, d) ((λ h. cc), c)
            | inr d ↦ rw (e, d) ((λ h. names.caught (cc)), names.consistent)
          ]
          | inr e ↦ rw e ((λ h. file.caught (cc)), file.consistent)
        ]

    -- The calls that change the policies, with the configuration and the files that they find.
    pub data Call : Policy → Policy → Type 0 where
      reset :
          (fname directory : String) (p : Policy)
          → Call p
              (rpc_reset_policy get_code read_file list_directory join_path fname directory p).1
      set : (text : Option String) (p : Policy) → Call p (rpc_set_policy get_code text p).1
      set_name :
          (name text : Option String) (p : Policy)
          → Call p (rpc_set_named_policy get_code name text p).1

    pub data Calls : Policy → Policy → Type 0 where
      stop : (p : Policy) → Calls p p
      after_call : {p q r : Policy} → Call p q → Calls q r → Calls p r

    Call-IsConsistent :
        {p q : Policy} → Call p q → IsConsistent get_code p → IsConsistent get_code q
    unfolding rpc_reset_policy rpc_set_policy rpc_set_named_policy
    Call-IsConsistent (reset fname directory p) c =
        (load_policy-IsConsistent fname directory (clear_policy p)
          (clear_policy-IsConsistent get_code zero_compiles p)).1
    Call-IsConsistent (set text p) c =
        (set_policy-IsSound none text (clear_policy p)
          (clear_policy-IsConsistent get_code zero_compiles p)).consistent
    Call-IsConsistent (set_name name text p) c = (set_policy-IsSound name text p c).consistent

    -- If the text `0` compiles, then after any sequence of calls that reset the policies, set the
    -- policy, or set a named policy, from the empty state on, whatever they raise, the names are
    -- distinct and the code is that of the stored texts, or there is no code and the texts stand
    -- for `0`, or `get_code` raises another exception than `PolicyError` for the texts.
    pub Calls-IsConsistent : (p q : Policy) → Calls (clear_policy p) q → IsConsistent get_code q
    Calls-IsConsistent p q calls = go calls (clear_policy-IsConsistent get_code zero_compiles p)
      where
        go : {a b : Policy} → Calls a b → IsConsistent get_code a → IsConsistent get_code b
        go (stop a) c = c
        go (after_call call calls) c = go calls (Call-IsConsistent call c)
