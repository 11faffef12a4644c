-- ===== src/Language/Eval.antt =====
-- mom/Policy/Parser.py: `GenericEvaluator.eval` with the methods of `Evaluator`, and `eval` of the
-- module. A policy may call its own functions without end, so the evaluator runs on fuel, one unit
-- for each nested call of `eval`.
use mom_perf_fair_scheduler.Common.{
  ℕ, zero, suc, String, Option, none, some, List, [], ◌∷◌, ◌==◌, if◌then◌else◌, Dict, lookup,
  length, last?, str_eq,
}
use mom_perf_fair_scheduler.Language.Action.{
  Result, ok, err, policy_error, type_error, index_error, key_error, pure, raise, lift, from_option,
  map_action, ◌>>=◌,
}
use mom_perf_fair_scheduler.Language.Syntax.{
  Kind, symbol, string, operator, number, Token, Code, leaf, node, nil, cons, to_list, of_list,
}
use mom_perf_fair_scheduler.Language.Python.{Python}
use mom_perf_fair_scheduler.Language.Scopes.{enter_scope, alloc, get}
use mom_perf_fair_scheduler.Language.Dispatch.{error_at, dispatch}
use mom_perf_fair_scheduler.Language.Handlers.{State, handlers, types_of, Eval, get_variable, run}

-- `Evaluator.operator_map`
unfoldable pub operator_map : Dict String
operator_map =
    ("+", "add")
    ∷ ("-", "sub")
    ∷ ("*", "mul")
    ∷ ("/", "div")
    ∷ ("<", "lt")
    ∷ (">", "gt")
    ∷ ("<=", "lte")
    ∷ (">=", "gte")
    ∷ ("<<", "shl")
    ∷ (">>", "shr")
    ∷ ("==", "eq")
    ∷ ("!=", "neq")
    ∷ ("and", "and")
    ∷ ("or", "or")
    ∷ ("not", "not")
    ∷ ("min", "min")
    ∷ ("max", "max")
    ∷ ("null", "null")
    ∷ ("valid", "valid")
    ∷ []

-- `s[:-1]`
abbrev without_last : String → String
without_last String.[] = String.[]
without_last (String.◌∷◌ c String.[]) = String.[]
without_last (String.◌∷◌ c (String.◌∷◌ d s)) = String.◌∷◌ c (without_last (String.◌∷◌ d s))

-- `s[1:-1]`
unfoldable pub unquote : String → String
unquote String.[] = String.[]
unquote (String.◌∷◌ c s) = without_last s

-- The name of the function that the head of a list stands for.
unfoldable pub function_name : Token → Result String
unfolding operator_map lookup
function_name token = elim token.kind [
  | symbol ↦ ok token.value
  | operator ↦ elim (lookup token.value operator_map) [ none ↦ err key_error | some name ↦ ok name ]
  | _ ↦ err (error_at token.line)
]

-- `[[params[i], args[i]] for i ...]`
abbrev pub bindings : List Code → List Code → List Code
bindings (p ∷ params) (a ∷ args) = node (cons p (cons a nil)) ∷ bindings params args
bindings _ _ = []

-- `[Token('symbol', 'let'), scope, code]`
abbrev pub let_code : List Code → Code → Code
let_code scope code = node (
    cons (leaf (record { kind = symbol; value = "let"; line = none }))
      (cons (node (of_list scope)) (cons code nil)))

module _ (py : Python) where
  open py use {Value, Heap, nothing, text, is_nothing, number_of, attribute, call}

  -- `func(*args)`, which may change the objects that a policy can reach
  unfoldable pub call_function : Value → List Value → Eval py Value
  call_function f args s =
      let (result, heap') = call f args s.heap in some (result, record s { heap = heap' })

  -- `self.stack.get(name, ..., allow_undefined=True)`, `None` counted as not found
  unfoldable pub variable_function : String → State Value Heap → Option Value
  unfolding get
  variable_function name s = elim (get (attribute s.heap) name s.stack) [
    | none ↦ none
    | some f ↦ if is_nothing f then none else some f
  ]

  -- `self.funcs[name]`
  unfoldable pub find_function : String → Eval py (Code × Code)
  unfolding lookup
  find_function name s = from_option key_error (lookup name s.funcs) s

  -- What `eval` does with a token.
  unfoldable pub eval_token : Kind → String → Option ℕ → Eval py Value
  unfolding get_variable unquote
  eval_token (number type) word line = lift (number_of type word)
  eval_token string word line = pure (text (unquote word))
  eval_token symbol word line =
      if str_eq word "nil" then pure nothing else get_variable py (error_at line) word
  eval_token operator word line = raise (error_at line)

  module _ (eval : Code → Eval py Value) where
    -- The call of a function that the policy defines.
    unfoldable pub call_defined : List Code → Option ℕ → Code × Code → Eval py Value
    call_defined args line (leaf token, code) = raise type_error
    call_defined args line (node params, code) =
        if length (to_list params) == length args
        then eval (let_code (bindings (to_list params) args) code)
        else raise (error_at line)

    unfoldable pub default : String → List Code → Option ℕ → Eval py Value
    unfolding call_defined find_function map_action ◌>>=◌
    default name args line =
        if str_eq name "eval"
        then (do results ← map_action eval args; from_option index_error (last? results))
        else (do f ← find_function name; call_defined args line f)

    unfoldable pub apply_builtin : String → List Code → Option ℕ → Eval py Value
    unfolding default dispatch run handlers types_of lookup
    apply_builtin name args line = elim (lookup name handlers) [
      | some h ↦ dispatch eval line (types_of h) (run py eval h) args
      | none ↦ default name args line
    ]

    -- What `eval` does with a list whose head names the function `name`.
    unfoldable pub apply : String → List Code → Option ℕ → Eval py Value
    unfolding variable_function call_function apply_builtin map_action ◌>>=◌
    apply name args line s = elim (variable_function name s) [
      | some f ↦ (do values ← map_action eval args; call_function f values) s
      | none ↦ apply_builtin name args line s
    ]

    -- One call of `eval`; the calls inside it are `eval`.
    unfoldable pub eval_code : Code → Eval py Value
    unfolding eval_token apply function_name ◌>>=◌
    eval_code (leaf token) = eval_token token.kind token.value token.line
    eval_code (node nil) = raise index_error
    eval_code (node (cons (node head) args)) = raise policy_error
    eval_code (node (cons (leaf token) args)) = do
      name ← lift (function_name token)
      apply name (to_list args) token.line

  unfoldable pub eval : ℕ → Code → Eval py Value
  unfolding eval_code
  eval zero code s = none
  eval (suc fuel) code s = eval_code (eval fuel) code s

  -- `eval` of the module, after `get_code`: the results of the expressions in turn.
  unfoldable pub eval_program : ℕ → List Code → Eval py (List Value)
  unfolding map_action
  eval_program fuel code = map_action (eval fuel) code

  -- `Evaluator()`: one scope, which holds the functions of `ExternalFunctions`.
  unfoldable pub new_evaluator : Heap → State Value Heap
  unfolding enter_scope alloc
  new_evaluator heap =
      let with_abs = (alloc "abs" py.abs_function (enter_scope [])).1 in
      record { stack = (alloc "debug" py.debug_function with_abs).1; funcs = []; heap = heap }
