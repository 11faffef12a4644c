-- ===== src/Language/Handlers.antt =====
-- mom/Policy/Parser.py: the built-ins `c_def` to `c_valid` of `Evaluator`, and the state that
-- they work on. Each takes its bound arguments; those that evaluate code take the evaluator.
use mom_perf_fair_scheduler.Common.{
  String, true, false, Option, none, some, List, [], ◌∷◌, not, ◌==◌, if◌then◌else◌, Dict, insert,
  last?,
}
use mom_perf_fair_scheduler.Language.Action.{
  Error, Result, ok, err, policy_error, type_error, attribute_error, index_error, unbound_local,
  Action, pure, raise, lift, from_option, map_action, for_each, ◌>>=◌, ◌>>◌,
}
use mom_perf_fair_scheduler.Language.Syntax.{Code, leaf, node, to_list}
use mom_perf_fair_scheduler.Language.Python.{
  Python, BinaryOp, add, sub, mul, div, lt, gt, lte, gte, eq, neq, shl, shr,
}
use mom_perf_fair_scheduler.Language.Scopes.{Stack, enter_scope, leave_scope, get, alloc, assign}
use mom_perf_fair_scheduler.Language.Dispatch.{
  DocType, symbol_type, value_type, code_type, dots, Argument, symbol_arg, value_arg, code_arg,
  symbol_text,
}

-- An `Evaluator`: its variable stack and functions, and the objects that its values refer to.
pub record State (V H : Type 0) : Type 0 where
  pub stack : Stack V
  pub funcs : Dict (Code × Code)
  pub heap : H

-- The methods `c_...`, an alias as the method that it names.
pub data Handler : Type 0 where
  def_ set_ defvar let_ with_ if_ and_ or_ not_ min_ max_ null valid : Handler
  binary_ : BinaryOp → Handler

-- `hasattr(self, 'c_%s' % name)`
unfoldable pub handlers : Dict Handler
handlers =
    ("def", def_)
    ∷ ("defun", def_)
    ∷ ("set", set_)
    ∷ ("setq", set_)
    ∷ ("defvar", defvar)
    ∷ ("let", let_)
    ∷ ("with", with_)
    ∷ ("if", if_)
    ∷ ("add", binary_ add)
    ∷ ("sub", binary_ sub)
    ∷ ("mul", binary_ mul)
    ∷ ("div", binary_ div)
    ∷ ("lt", binary_ lt)
    ∷ ("gt", binary_ gt)
    ∷ ("lte", binary_ lte)
    ∷ ("gte", binary_ gte)
    ∷ ("eq", binary_ eq)
    ∷ ("neq", binary_ neq)
    ∷ ("shl", binary_ shl)
    ∷ ("shr", binary_ shr)
    ∷ ("and", and_)
    ∷ ("or", or_)
    ∷ ("not", not_)
    ∷ ("min", min_)
    ∷ ("max", max_)
    ∷ ("null", null)
    ∷ ("valid", valid)
    ∷ []

-- The doc strings.
unfoldable pub types_of : Handler → List DocType
types_of def_ = symbol_type ∷ code_type ∷ code_type ∷ []
types_of set_ = symbol_type ∷ value_type ∷ []
types_of defvar = symbol_type ∷ value_type ∷ []
types_of let_ = code_type ∷ code_type ∷ dots ∷ []
types_of with_ = symbol_type ∷ symbol_type ∷ code_type ∷ []
types_of if_ = value_type ∷ code_type ∷ code_type ∷ []
types_of (binary_ op) = value_type ∷ value_type ∷ []
types_of and_ = value_type ∷ dots ∷ []
types_of or_ = value_type ∷ dots ∷ []
types_of not_ = value_type ∷ []
types_of min_ = value_type ∷ dots ∷ []
types_of max_ = value_type ∷ dots ∷ []
types_of null = dots ∷ []
types_of valid = dots ∷ []

-- The arguments `*args` where all are values, and where all are code.
abbrev pub values_of : {V : Type 0} → List (Argument V) → Option (List V)
values_of [] = some []
values_of (value_arg v ∷ args) = elim (values_of args) [ none ↦ none | some vs ↦ some (v ∷ vs) ]
values_of (symbol_arg text ∷ args) = none
values_of (code_arg c ∷ args) = none

abbrev pub codes_of : {V : Type 0} → List (Argument V) → Option (List Code)
codes_of [] = some []
codes_of (code_arg c ∷ args) = elim (codes_of args) [ none ↦ none | some cs ↦ some (c ∷ cs) ]
codes_of (symbol_arg text ∷ args) = none
codes_of (value_arg v ∷ args) = none

module _ (py : Python) where
  open py use {
    Value, Heap, nothing, bool, text, list_of, is_nothing, truth, binary, minimum, maximum, len,
    iterate, attribute,
  }

  abbrev pub Eval : Type 0 → Type 0
  Eval A = Action (State Value Heap) A

  -- `self.stack.enter_scope()`, `self.stack.leave_scope()`
  unfoldable pub push_scope : Eval (Unit {0})
  push_scope s = some (ok tt, record s { stack = enter_scope s.stack })

  unfoldable pub pop_scope : Eval (Unit {0})
  pop_scope s = some (ok tt, record s { stack = leave_scope s.stack })

  -- `self.stack.get(name, line=line)`, with the error that it raises for an unknown name
  unfoldable pub get_variable : Error → String → Eval Value
  unfolding get
  get_variable error name s = from_option error (get (attribute s.heap) name s.stack) s

  -- `self.stack.set(name, value, True)`
  unfoldable pub alloc_variable : String → Value → Eval Value
  unfolding alloc
  alloc_variable name v s =
      let (result, stack') = alloc name v s.stack in
      from_option index_error result (record s { stack = stack' })

  -- `self.stack.set(name, value)`
  unfoldable pub set_variable : String → Value → Eval Value
  unfolding assign
  set_variable name v s = elim (assign name v s.stack) [
    | none ↦ some (err policy_error, s)
    | some stack' ↦ some (ok v, record s { stack = stack' })
  ]

  unfoldable pub c_def : String → Code → Code → Eval Value
  c_def name params code s =
      some (ok (text name), record s { funcs = insert name (params, code) s.funcs })

  -- The text of the name in one binding of a `let`.
  unfoldable pub binding_name : Code → Result String
  binding_name (leaf token) = elim (symbol_text (leaf token)) [
    | none ↦ err policy_error
    | some name ↦ ok name
  ]
  binding_name (node codes) = err attribute_error

  -- `all(v is None or len(v) == 0 for v in args)`, inside `try: ... except TypeError`
  unfoldable pub c_null : List Value → Result Value
  c_null [] = ok (bool true)
  c_null (v ∷ vs) = if is_nothing v then c_null vs else elim (len v) [
    | ok n ↦ if n == 0 then c_null vs else ok (bool false)
    | err type_error ↦ ok (bool false)
    | err e ↦ err e
  ]

  unfoldable pub c_valid : List Value → Result Value
  c_valid [] = ok (bool true)
  c_valid (v ∷ vs) = if is_nothing v then ok (bool false) else c_valid vs

  -- The first value that is false, or the last; the error is that of `args[-1]`.
  unfoldable pub c_and : List Value → Result Value
  c_and [] = err index_error
  c_and (v ∷ []) = ok v
  c_and (v ∷ w ∷ vs) = if truth v then c_and (w ∷ vs) else ok v

  unfoldable pub c_or : List Value → Result Value
  c_or [] = err index_error
  c_or (v ∷ []) = ok v
  c_or (v ∷ w ∷ vs) = if truth v then ok v else c_or (w ∷ vs)

  abbrev pub with_values : (List Value → Result Value) → List (Argument Value) → Result Value
  with_values f args = elim (values_of args) [ none ↦ err type_error | some vs ↦ f vs ]

  -- `enter_scope`, some code, `leave_scope`: where the code raises, the scope stays.
  unfoldable pub in_scope : {A : Type 0} → Eval A → Eval A
  unfolding push_scope pop_scope ◌>>=◌
  in_scope m = do push_scope; a ← m; pop_scope; pure a

  module _ (eval : Code → Eval Value) where
    -- One round of the first loop of `c_let`.
    unfoldable pub bind_symbol : Code → Eval Value
    unfolding binding_name alloc_variable ◌>>=◌
    bind_symbol (node codes) = elim (to_list codes) [
      | sym ∷ code ∷ [] ↦ do name ← lift (binding_name sym); v ← eval code; alloc_variable name v
      | _ ↦ raise policy_error
    ]
    bind_symbol (leaf token) = raise policy_error

    -- `for expr in code: result = self.eval(expr)`, with the last result
    unfoldable pub eval_body : List Code → Eval (Option Value)
    unfolding map_action ◌>>=◌
    eval_body code = do results ← map_action eval code; pure (last? results)

    unfoldable pub c_let : Code → List Code → Eval Value
    unfolding in_scope bind_symbol eval_body for_each ◌>>=◌
    c_let (leaf token) code = raise policy_error
    c_let (node syms) code = do
      result ← in_scope (do for_each bind_symbol (to_list syms); eval_body code)
      from_option unbound_local result

    -- One round of the loop of `c_with`.
    unfoldable pub eval_item : String → Code → Value → Eval Value
    unfolding in_scope alloc_variable ◌>>=◌
    eval_item iterator code item = in_scope (do alloc_variable iterator item; eval code)

    -- `get` has no line here, so that its message about an unknown name is a `TypeError`.
    unfoldable pub c_with : String → String → Code → Eval Value
    unfolding get_variable eval_item map_action ◌>>=◌
    c_with iterable iterator code = do
      v ← get_variable type_error iterable
      items ← lift (iterate v)
      results ← map_action (eval_item iterator code) items
      pure (list_of results)

    unfoldable pub c_if : Value → Code → Code → Eval Value
    c_if test positive negative = if truth test then eval positive else eval negative

    -- `fn(*args)`: a number or a sort of arguments that the method does not take is a `TypeError`.
    unfoldable pub run : Handler → List (Argument Value) → Eval Value
    unfolding c_def set_variable alloc_variable c_let c_with c_if c_and c_or c_null c_valid ◌>>=◌
    run def_ (symbol_arg f ∷ code_arg params ∷ code_arg code ∷ []) = c_def f params code
    run set_ (symbol_arg x ∷ value_arg v ∷ []) = set_variable x v
    run defvar (symbol_arg x ∷ value_arg v ∷ []) = alloc_variable x v
    run let_ (code_arg syms ∷ args) = do
      code ← from_option type_error (codes_of args)
      c_let syms code
    run with_ (symbol_arg xs ∷ symbol_arg x ∷ code_arg code ∷ []) = c_with xs x code
    run if_ (value_arg test ∷ code_arg positive ∷ code_arg negative ∷ []) =
        c_if test positive negative
    run (binary_ op) (value_arg x ∷ value_arg y ∷ []) = lift (binary op x y)
    run not_ (value_arg x ∷ []) = lift (ok (bool (not (truth x))))
    run and_ args = lift (with_values c_and args)
    run or_ args = lift (with_values c_or args)
    run min_ args = lift (with_values minimum args)
    run max_ args = lift (with_values maximum args)
    run null args = lift (with_values c_null args)
    run valid args = lift (with_values c_valid args)
    run _ args = raise type_error
