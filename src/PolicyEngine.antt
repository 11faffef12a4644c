-- ===== src/PolicyEngine.antt =====
-- mom/PolicyEngine.py: how the policies of a directory are loaded, the calls that change the stored
-- policies, and `do_controls`. The file system is a parameter: what a file holds and which names a
-- directory has, none where Python raises `IOError` or `OSError`, and `os.path.join`.
pub mod Calls
pub mod Targets
pub mod Tests
use Prim.Native.Char.{code}
use mom_perf_fair_scheduler.Common.{
  String, Bool, true, false, not, Option, none, some, List, [], ◌∷◌, ◌++◌, ◌==◌, ◌||◌,
  if◌then◌else◌, str_eq,
}
use mom_perf_fair_scheduler.Common.Sort.{sort}
use mom_perf_fair_scheduler.Common.Texts.{text_leb}
use mom_perf_fair_scheduler.Language.Syntax.{Code}
use mom_perf_fair_scheduler.Policy.{
  Policy, Compiled, Ending, returns, raises_key_error, raises_other, set_policy, clear_policy,
  get_string,
}

-- `s.startswith(p)`, `s.endswith(p)`, `s.split(p)[0]`
unfoldable pub starts_with : String → String → Bool
starts_with String.[] s = true
starts_with (String.◌∷◌ c p) String.[] = false
starts_with (String.◌∷◌ c p) (String.◌∷◌ d s) = if code c == code d then starts_with p s else false

unfoldable pub ends_with : String → String → Bool
ends_with p String.[] = str_eq p ""
ends_with p (String.◌∷◌ c s) = str_eq p (String.◌∷◌ c s) || ends_with p s

unfoldable pub before_text : String → String → String
unfolding starts_with
before_text p String.[] = String.[]
before_text p (String.◌∷◌ c s) =
    if starts_with p (String.◌∷◌ c s) then String.[] else String.◌∷◌ c (before_text p s)

-- What `load_policy` returns: `None` where the configuration names no policy.
pub data Loaded : Type 0 where
  nothing_to_load : Loaded
  ended : Ending → Loaded

module _ (get_code : String → Compiled) where
  -- `read_policy`, for the content of the file
  unfoldable pub read_policy : Option String → Option String → Policy → Ending × Policy
  unfolding set_policy
  read_policy none policy_name p = (returns false, p)
  read_policy (some text) policy_name p = set_policy get_code policy_name (some text) p

  -- A name of the directory that is loaded.
  unfoldable pub is_policy_file : String → Bool
  unfolding starts_with ends_with
  is_policy_file name = if starts_with "." name then false else ends_with ".policy" name

  module _ (read_file : String → Option String) (list_directory : String → Option (List String))
      (join_path : String → String → String) where
    -- The loop over the names; an uncaught exception ends it.
    unfoldable pub load_files : String → List String → Policy → Ending × Policy
    unfolding read_policy is_policy_file before_text
    load_files directory [] p = (returns true, p)
    load_files directory (name ∷ names) p =
        let file = read_file (join_path directory name) in
        let after = read_policy file (some (before_text ".policy" name)) p in
        if is_policy_file name
        then elim after.0 [
          | returns b ↦ load_files directory names after.1
          | raises_key_error ↦ after
          | raises_other ↦ after
        ]
        else load_files directory names p

    unfoldable pub load_directory : String → Policy → Ending × Policy
    unfolding load_files sort
    load_directory directory p = elim (list_directory directory) [
      | none ↦ (returns false, p)
      | some names ↦ load_files directory (sort text_leb names) p
    ]

    -- `load_policy()`, for `policy` and `policy-dir` of the configuration
    unfoldable pub load_policy : String → String → Policy → Loaded × Policy
    unfolding read_policy load_directory
    load_policy fname directory p =
        let from_file = read_policy (read_file fname) none p in
        let from_directory = load_directory directory p in
        if str_eq fname ""
        then (if str_eq directory ""
            then (nothing_to_load, p)
            else (ended from_directory.0, from_directory.1))
        else (ended from_file.0, from_file.1)

    unfoldable pub rpc_reset_policy : String → String → Policy → Loaded × Policy
    unfolding load_policy
    rpc_reset_policy fname directory p = load_policy fname directory (clear_policy p)

  unfoldable pub rpc_set_policy : Option String → Policy → Ending × Policy
  unfolding set_policy
  rpc_set_policy text p = set_policy get_code none text (clear_policy p)

  unfoldable pub rpc_set_named_policy : Option String → Option String → Policy → Ending × Policy
  unfolding set_policy
  rpc_set_named_policy name text p = set_policy get_code name text p

unfoldable pub rpc_get_policy : Policy → String
unfolding get_string
rpc_get_policy p = get_string p

module _ {H G C : Type 0} where
  -- `c.process(host, guest_list)` for each controller; what they send to the hypervisor is `C`.
  unfoldable pub run_controllers : List (H → List G → List C) → H → List G → List C
  run_controllers [] host guests = []
  run_controllers (c ∷ controllers) host guests =
      c host guests ++ run_controllers controllers host guests

  -- `do_controls()`, for the host and the guests of `interrogate`. `evaluate` changes the objects and
  -- returns true, false, or `None`; only false keeps the controllers from their work.
  unfoldable pub do_controls :
      (H → List G → Option Bool × H × List G)
      → List (H → List G → List C)
      → Option H
      → List G
      → List C
  unfolding run_controllers
  do_controls evaluate controllers none guests = []
  do_controls evaluate controllers (some host) guests =
      let (ret, host', guests') = evaluate host guests in
      elim ret [ some false ↦ [] | _ ↦ run_controllers controllers host' guests' ]
