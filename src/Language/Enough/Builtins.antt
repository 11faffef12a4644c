-- ===== src/Language/Enough/Builtins.antt =====
-- Proofs that the built-ins of mom/Policy/Parser.py end on code for which the evaluator ends.
use mom_perf_fair_scheduler.Common.{
  ℕ, String, ◌≡◌, refl, Bool, true, false, Option, some, List, [], ◌∷◌, arith, length, Option-cases,
  inl, inr, All, map, subst, ◌≢◌,
}
use mathlib.Core.Option.{some-injective}
use mom_perf_fair_scheduler.Language.Action.{
  Error, index_error, type_error, ok, pure, from_option, ◌>>=◌, ◌>>◌,
}
use mom_perf_fair_scheduler.Language.Syntax.{Code, leaf, node, nil, cons, to_list}
use mom_perf_fair_scheduler.Language.Python.{Python}
use mom_perf_fair_scheduler.Language.Scopes.{enter_scope, leave_scope, get, alloc, assign}
use mom_perf_fair_scheduler.Language.Dispatch.{
  DocType, symbol_type, value_type, code_type, Argument, symbol_arg, value_arg, code_arg, next_type,
  arity_fits, error_at, symbol_text, bind_argument, bind_arguments, dispatch,
}
use mom_perf_fair_scheduler.Language.Handlers.{
  Handler, Eval, get_variable, alloc_variable, set_variable, push_scope, pop_scope, in_scope,
  bind_symbol, binding_name, eval_body, c_let, eval_item, c_with, c_if, run, codes_of, def_, set_,
  defvar, let_, with_, if_, and_, or_, not_, min_, max_, null, valid, binary_,
}
use mom_perf_fair_scheduler.Language.Enough.{
  Any, IsReturning, IsReturning-Any, IsReturning-pure, IsReturning-raise, IsReturning-from_option,
  IsReturning-if, IsReturning-bind, IsReturning-map_action, IsReturning-for_each, All-Any,
}
use mom_perf_fair_scheduler.Language.Enough.Measure.{Fits, Fits-inner}

module _ (py : Python) where
  open py use {Value, Heap}

  abbrev pub IsEnding : {A : Type 0} → Eval py A → Type 0
  IsEnding m = IsReturning Any m

  pub get_variable-IsEnding : (e : Error) (x : String) → IsEnding (get_variable py e x)
  unfolding get_variable
  get_variable-IsEnding e x = record {
    at =
        λ s h. (IsReturning-from_option e (get (py.attribute s.heap) x s.stack) (λ a k. tt)).at s h;
  }

  alloc_variable-IsEnding : (x : String) (v : Value) → IsEnding (alloc_variable py x v)
  unfolding alloc_variable
  alloc_variable-IsEnding x v = record {
    at = λ s h.
        let (found, stack') = alloc x v s.stack in
        (IsReturning-from_option index_error found (λ a k. tt)).at (record s { stack = stack' }) h;
  }

  set_variable-IsEnding : (x : String) (v : Value) → IsEnding (set_variable py x v)
  unfolding set_variable
  set_variable-IsEnding x v = record {
    at = λ s h. elim (Option-cases (assign x v s.stack)) [
      | inl e ↦ rw (e, set_variable) ((_, s, refl, h, tt))
      | inr (stack', e) ↦ rw (e, set_variable) ((_, record s { stack = stack' }, refl, h, tt))
    ];
  }

  push_scope-IsEnding : IsEnding (push_scope py)
  unfolding push_scope
  push_scope-IsEnding = record {
    at = λ s h. (ok tt, record s { stack = enter_scope s.stack }, refl, h, tt);
  }

  pop_scope-IsEnding : IsEnding (pop_scope py)
  unfolding pop_scope
  pop_scope-IsEnding = record {
    at = λ s h. (ok tt, record s { stack = leave_scope s.stack }, refl, h, tt);
  }

  in_scope-IsEnding : {A : Type 0} (m : Eval py A) → IsEnding m → IsEnding (in_scope py m)
  unfolding in_scope
  in_scope-IsEnding {A} m p =
      let close : A → Eval py A = λ a. pop_scope py >> pure a in
      IsReturning-bind (push_scope py) (λ u. m >>= close) push_scope-IsEnding
        λ u hu. IsReturning-bind m close p λ a ha.
          IsReturning-bind (pop_scope py) (λ w. pure a) pop_scope-IsEnding
            λ w hw. IsReturning-pure a tt

  module _ (fuel : ℕ) where
    -- The code of an argument fits.
    abbrev pub ArgumentFits : Argument Value → Type 0
    ArgumentFits (symbol_arg x) = Unit
    ArgumentFits (value_arg v) = Unit
    ArgumentFits (code_arg c) = Fits fuel c

    map-code_arg-Fits :
        (args : List Code) → All (Fits fuel) args → All ArgumentFits (map code_arg args)
    map-code_arg-Fits [] h = tt
    map-code_arg-Fits (c ∷ args) h = (h.0, map-code_arg-Fits args h.1)

    codes_of-Fits :
        (args : List (Argument Value)) (cs : List Code)
        → codes_of args ≡ some cs
        → All ArgumentFits args
        → All (Fits fuel) cs
    codes_of-Fits [] cs e h = subst (All (Fits fuel)) (some-injective _ _ e) tt
    codes_of-Fits (code_arg c ∷ args) cs e h = elim (Option-cases (codes_of args)) [
      | inl k ↦ absurd (ground (arith, e, k))
      | inr (ds, k) ↦
          subst (All (Fits fuel)) (some-injective _ _ (rw k at e))
            (h.0, codes_of-Fits args ds k h.1)
    ]
    codes_of-Fits (symbol_arg x ∷ args) cs e h = absurd (ground arith)
    codes_of-Fits (value_arg v ∷ args) cs e h = absurd (ground arith)

    module _ (eval : Code → Eval py Value)
        (ends : (c : Code) → Fits fuel c → IsEnding (eval c)) where
      bind_symbol-IsEnding : (c : Code) → Fits fuel c → IsEnding (bind_symbol py eval c)
      unfolding bind_symbol
      bind_symbol-IsEnding (leaf token) h = IsReturning-raise _
      bind_symbol-IsEnding (node nil) h = IsReturning-raise _
      bind_symbol-IsEnding (node (cons sym nil)) h = IsReturning-raise _
      bind_symbol-IsEnding (node (cons sym (cons code nil))) h =
          IsReturning-bind _ _ (IsReturning-Any (binding_name py sym)) λ name hn.
            IsReturning-bind _ _ (ends code (Fits-inner fuel (cons sym (cons code nil)) h).1.0)
              λ v hv. alloc_variable-IsEnding name v
      bind_symbol-IsEnding (node (cons sym (cons code (cons c cs)))) h = IsReturning-raise _

      c_let-IsEnding :
          (syms : Code) (code : List Code)
          → Fits fuel syms
          → All (Fits fuel) code
          → IsEnding (c_let py eval syms code)
      unfolding c_let eval_body
      c_let-IsEnding (leaf token) code h k = IsReturning-raise _
      c_let-IsEnding (node syms) code h k =
          IsReturning-bind _ _
            (in_scope-IsEnding _ (
              IsReturning-bind _ _
                (IsReturning-for_each _ (to_list syms) (Fits-inner fuel syms h)
                  bind_symbol-IsEnding)
                λ u hu.
                  IsReturning-bind _ _ (IsReturning-map_action eval code k ends)
                    λ vs hvs. IsReturning-pure _ tt))
            λ v hv. IsReturning-from_option _ v (λ a e. tt)

      eval_item-IsEnding :
          (x : String) (code : Code) (item : Value)
          → Fits fuel code
          → IsEnding (eval_item py eval x code item)
      unfolding eval_item
      eval_item-IsEnding x code item h =
          in_scope-IsEnding _
            (IsReturning-bind _ _ (alloc_variable-IsEnding x item) λ u hu. ends code h)

      c_with-IsEnding :
          (xs x : String) (code : Code) → Fits fuel code → IsEnding (c_with py eval xs x code)
      unfolding c_with
      c_with-IsEnding xs x code h =
          IsReturning-bind _ _ (get_variable-IsEnding type_error xs) λ v hv.
            IsReturning-bind _ _ (IsReturning-Any (py.iterate v)) λ items hi.
              IsReturning-bind _ _
                (IsReturning-map_action {G = Any} (eval_item py eval x code) items (All-Any items)
                  λ item hitem. eval_item-IsEnding x code item h)
                λ vs hvs. IsReturning-pure _ tt

      bind_argument-Fits :
          (line : Option ℕ) (t : DocType) (arg : Code)
          → Fits fuel arg
          → IsReturning ArgumentFits (bind_argument eval line t arg)
      unfolding bind_argument
      bind_argument-Fits line code_type arg h = IsReturning-pure _ h
      bind_argument-Fits line symbol_type arg h =
          IsReturning-bind {P = Any} (from_option (error_at line) (symbol_text arg))
            (λ x. pure (symbol_arg x))
            (IsReturning-from_option (error_at line) (symbol_text arg) (λ a e. tt))
            λ x hx. IsReturning-pure (symbol_arg x) tt
      bind_argument-Fits line _ arg h =
          IsReturning-bind _ _ (ends arg h) λ v hv. IsReturning-pure _ tt

      bind_arguments-Fits :
          (line : Option ℕ) (types : List DocType) (current : DocType) (first : Bool)
          (args : List Code)
          → All (Fits fuel) args
          → IsReturning (All ArgumentFits) (bind_arguments eval line types current first args)
      unfolding bind_arguments
      bind_arguments-Fits line types current first [] h = IsReturning-pure [] tt
      bind_arguments-Fits line [] current first (arg ∷ args) h =
          IsReturning-pure _ (map-code_arg-Fits (arg ∷ args) h)
      bind_arguments-Fits line (t ∷ types) current first (arg ∷ args) h =
          let (rest, now) = next_type (t ∷ types) current first in
          IsReturning-bind _ _ (bind_argument-Fits line now arg h.0) λ b hb.
            IsReturning-bind _ _ (bind_arguments-Fits line rest now false args h.1)
              λ bs hbs. IsReturning-pure (b ∷ bs) (hb, hbs)

      run-IsEnding :
          (h : Handler) (args : List (Argument Value))
          → h ≢ def_
          → All ArgumentFits args
          → IsEnding (run py eval h args)
      unfolding run c_if
      run-IsEnding def_ (symbol_arg f ∷ code_arg params ∷ code_arg code ∷ []) ne fits =
          absurd (ne refl)
      run-IsEnding set_ (symbol_arg x ∷ value_arg v ∷ []) ne fits = set_variable-IsEnding x v
      run-IsEnding defvar (symbol_arg x ∷ value_arg v ∷ []) ne fits = alloc_variable-IsEnding x v
      run-IsEnding let_ (code_arg syms ∷ args) ne fits =
          IsReturning-bind {P = All (Fits fuel)} _ _
            (IsReturning-from_option type_error (codes_of args)
              λ cs e. codes_of-Fits args cs e fits.1)
            λ code hc. c_let-IsEnding syms code fits.0 hc
      run-IsEnding with_ (symbol_arg xs ∷ symbol_arg x ∷ code_arg code ∷ []) ne fits =
          c_with-IsEnding xs x code fits.1.1.0
      run-IsEnding if_ (value_arg test ∷ code_arg positive ∷ code_arg negative ∷ []) ne fits =
          IsReturning-if (py.truth test) _ _ (ends positive fits.1.0) (ends negative fits.1.1.0)
      run-IsEnding (binary_ op) (value_arg x ∷ value_arg y ∷ []) ne fits = IsReturning-Any _
      run-IsEnding not_ (value_arg x ∷ []) ne fits = IsReturning-Any _
      run-IsEnding and_ args ne fits = IsReturning-Any _
      run-IsEnding or_ args ne fits = IsReturning-Any _
      run-IsEnding min_ args ne fits = IsReturning-Any _
      run-IsEnding max_ args ne fits = IsReturning-Any _
      run-IsEnding null args ne fits = IsReturning-Any _
      run-IsEnding valid args ne fits = IsReturning-Any _
      run-IsEnding _ args ne fits = IsReturning-raise type_error

      pub dispatch-IsEnding :
          (line : Option ℕ) (types : List DocType) (h : Handler) (args : List Code)
          → h ≢ def_
          → All (Fits fuel) args
          → IsEnding (dispatch eval line types (run py eval h) args)
      unfolding dispatch
      dispatch-IsEnding line types h args ne fits =
          IsReturning-if (arity_fits types (length args)) _ _
            (IsReturning-bind _ _ (bind_arguments-Fits line types value_type true args fits)
              λ bound hb. run-IsEnding h bound ne hb)
            (IsReturning-raise _)
