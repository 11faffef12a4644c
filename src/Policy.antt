-- ===== src/Policy.antt =====
-- mom/Policy/Policy.py: the named policies and the code that they compile to. `get_code` of
-- mom/Policy/Parser.py, which runs the vendored scanner and parser of spark.py, is a parameter:
-- the code of a text, or the exception that it raises. The semaphore makes each method one step.
pub mod Rollback
pub mod Replay
pub mod Tests
use mom_perf_fair_scheduler.Common.{
  ℕ, String, Bool, true, false, Option, none, some, List, [], ◌∷◌, map, Dict, lookup, insert,
  remove, keys, has_key, if◌then◌else◌, str_eq,
}
use mom_perf_fair_scheduler.Language.Action.{Result, ok, err}
use mom_perf_fair_scheduler.Language.Syntax.{Code}
use mom_perf_fair_scheduler.Language.Python.{Python}
use mom_perf_fair_scheduler.Language.Scopes.{alloc}
use mom_perf_fair_scheduler.Language.Handlers.{State}
use mom_perf_fair_scheduler.Language.Eval.{eval_program, new_evaluator}
use mom_perf_fair_scheduler.Common.Sort.{sort}
use mom_perf_fair_scheduler.Common.Texts.{text_leb, join}

abbrev pub default_name : String
default_name = "50_main_"

-- What `get_code` gives for a text: code, the `PolicyError` that `set_policy` catches, or another
-- exception, such as the `IndexError` for a text of blanks or comments, which has no token.
pub data Compiled : Type 0 where
  compiles : List Code → Compiled
  policy_error other_error : Compiled

-- What a method ends with: a value, the `KeyError` of a deletion, or another exception of `get_code`,
-- both of which `set_policy` does not catch.
pub data Ending : Type 0 where
  returns : Bool → Ending
  raises_key_error raises_other : Ending

pub record Policy : Type 0 where
  pub policy_strings : Dict String
  pub code : List Code

-- The text of a name; the default is never read where the name is a key.
abbrev pub text_of : Dict String → String → String
text_of strings name = elim (lookup name strings) [ none ↦ "" | some text ↦ text ]

unfoldable pub cat_policies : Dict String → String
unfolding sort join lookup
cat_policies strings =
    let text = join "\n" (map (text_of strings) (sort text_leb (keys strings))) in
    if str_eq text "" then "0" else text

unfoldable pub clear_policy : Policy → Policy
clear_policy p = record { policy_strings = []; code = [] }

-- `get_strings(name)` for one name, and for none
unfoldable pub get_named_string : Policy → String → Option String
get_named_string p name = lookup name p.policy_strings

unfoldable pub get_string : Policy → String
unfolding cat_policies
get_string p = cat_policies p.policy_strings

-- The first change of `set_policy`: a deletion, whose `KeyError` it catches, or a write.
unfoldable pub store_text : String → Option String → Dict String → Dict String
unfolding remove insert
store_text name none strings = remove name strings
store_text name (some text) strings = insert name text strings

-- The changes of its handler. To delete a name that is not there raises `KeyError` once more.
unfoldable pub restore_text : String → Option String → Dict String → Bool × Dict String
unfolding remove insert lookup
restore_text name none strings =
    if has_key name strings then (true, remove name strings) else (false, strings)
restore_text name (some old) strings = (true, insert name old strings)

abbrev pub or_default : Option String → String
or_default none = default_name
or_default (some name) = name

-- The end of `set_policy`, for what `get_code` gives: the new texts with their code; the old ones;
-- or, where another exception goes on, the new texts with the old code.
unfoldable pub finish_set : Compiled → Dict String → Bool × Dict String → Policy → Ending × Policy
finish_set (compiles code) strings restored p =
    (returns true, record { policy_strings = strings; code = code })
finish_set policy_error strings (true, restored) p =
    (returns false, record p { policy_strings = restored })
finish_set policy_error strings (false, restored) p =
    (raises_key_error, record p { policy_strings = restored })
finish_set other_error strings restored p = (raises_other, record p { policy_strings = strings })

module _ (get_code : String → Compiled) where
  unfoldable pub set_named : String → Option String → Policy → Ending × Policy
  unfolding finish_set
  set_named name text p =
      let strings = store_text name text p.policy_strings in
      finish_set (get_code (cat_policies strings)) strings
        (restore_text name (lookup name p.policy_strings) strings) p

  unfoldable pub set_policy : Option String → Option String → Policy → Ending × Policy
  unfolding set_named
  set_policy name text p = set_named (or_default name) text p

-- The end of `evaluate`: what the run of the policy gave, as it is reported, and the objects of
-- `Host` and `Guests` as the run left them. Every exception is caught.
abbrev pub report : {V H A : Type 0} → Option (Result A × State V H) → Option (Bool × H)
report none = none
report (some (ok a, s)) = some (true, s.heap)
report (some (err e, s)) = some (false, s.heap)

module _ (py : Python) where
  -- The evaluator of one run: a new one, with the host and the guests in its scope.
  unfoldable pub prepare : py.Value → py.Value → py.Heap → State py.Value py.Heap
  unfolding new_evaluator alloc
  prepare host guest_list heap =
      let start = new_evaluator py heap in
      let with_host = (alloc "Host" host start.stack).1 in
      record start { stack = (alloc "Guests" guest_list with_host).1 }

  unfoldable pub evaluate : ℕ → py.Value → py.Value → Policy → py.Heap → Option (Bool × py.Heap)
  unfolding prepare eval_program
  evaluate fuel host guest_list p heap =
      report (eval_program py fuel p.code (prepare host guest_list heap))
