-- ===== src/Language/Enough/Evaluator.antt =====
-- Proofs that the evaluator of mom/Policy/Parser.py ends, within fuel that the code tells.
use mom_perf_fair_scheduler.Common.{
  ℕ, zero, suc, ◌<◌, String, true, false, ◌≡◌, ◌≢◌, refl, ap, Option, some, List, [], arith,
  Option-cases, inl, inr, lookup, All,
}
use mom_perf_fair_scheduler.Language.Action.{Result, key_error, index_error}
use mom_perf_fair_scheduler.Language.Syntax.{
  Kind, symbol, string, operator, number, Token, Code, leaf, node, nil, cons, to_list,
}
use mom_perf_fair_scheduler.Language.Python.{Python}
use mom_perf_fair_scheduler.Language.Handlers.{State, Handler, Eval, handlers, types_of, def_}
use mom_perf_fair_scheduler.Language.Eval.{
  variable_function, call_function, find_function, default, apply_builtin, apply, eval_token,
  eval_code, eval, function_name,
}
use mom_perf_fair_scheduler.Language.Enough.{
  Holds, Holds-Any, Result-cases, IsReturning, IsReturning-Any, IsReturning-lift, IsReturning-raise,
  IsReturning-from_option, IsReturning-if, IsReturning-bind, IsReturning-map_action,
}
use mom_perf_fair_scheduler.Language.Enough.Measure.{
  is_def, is_definition, defines_none, depth, Fits, Fits-members,
}
use mom_perf_fair_scheduler.Language.Enough.Builtins.{
  IsEnding, dispatch-IsEnding, get_variable-IsEnding,
}

module _ (py : Python) where
  open py use {Value, Heap}

  call_function-IsEnding : (f : Value) (args : List Value) → IsEnding py (call_function py f args)
  unfolding call_function
  call_function-IsEnding f args = record {
    at = λ s h. (_, _, refl, h, Holds-Any (py.call f args s.heap).0);
  }

  -- No function is found.
  find_function-fails : (name : String) → IsReturning (λ f. ⊥) (find_function py name)
  unfolding find_function lookup
  find_function-fails name = record {
    at = λ s h.
        (IsReturning-from_option key_error (lookup name s.funcs)
            λ f e. absurd (ground (arith, ap (λ funcs. lookup name funcs) h, e))).at
          s h;
  }

  eval_token-IsEnding :
      (kind : Kind) (word : String) (line : Option ℕ) → IsEnding py (eval_token py kind word line)
  unfolding eval_token
  eval_token-IsEnding (number type) word line = IsReturning-Any _
  eval_token-IsEnding string word line = IsReturning-Any _
  eval_token-IsEnding symbol word line =
      IsReturning-if _ _ _ (IsReturning-Any _) (get_variable-IsEnding py _ word)
  eval_token-IsEnding operator word line = IsReturning-raise _

  is_def-handler :
      (name : String) (h : Handler) → lookup name handlers ≡ some h → is_def name ≡ false → h ≢ def_
  unfolding is_def
  is_def-handler name h e k p = cc

  module _ (fuel : ℕ) (eval : Code → Eval py Value)
      (ends : (c : Code) → Fits fuel c → IsEnding py (eval c)) where
    default-IsEnding :
        (name : String) (args : List Code) (line : Option ℕ)
        → All (Fits fuel) args
        → IsEnding py (default py eval name args line)
    unfolding default
    default-IsEnding name args line fits =
        IsReturning-if _ _ _
          (IsReturning-bind _ _ (IsReturning-map_action eval args fits ends)
            λ vs hvs. IsReturning-from_option index_error _ (λ a e. tt))
          (IsReturning-bind _ _ (find_function-fails name) λ f none_found. absurd none_found)

    apply_builtin-IsEnding :
        (name : String) (args : List Code) (line : Option ℕ)
        → is_def name ≡ false
        → All (Fits fuel) args
        → IsEnding py (apply_builtin py eval name args line)
    unfolding apply_builtin
    apply_builtin-IsEnding name args line plain fits = elim (Option-cases (lookup name handlers)) [
      | inl e ↦ rw (e, apply_builtin) (default-IsEnding name args line fits)
      | inr (h, e) ↦
          rw (e, apply_builtin)
            (dispatch-IsEnding py fuel eval ends line (types_of h) h args
              (is_def-handler name h e plain) fits)
    ]

    apply-IsEnding :
        (name : String) (args : List Code) (line : Option ℕ)
        → is_def name ≡ false
        → All (Fits fuel) args
        → IsEnding py (apply py eval name args line)
    unfolding apply
    apply-IsEnding name args line plain fits = record {
      at = λ s h. elim (Option-cases (variable_function py name s)) [
        | inl e ↦ rw (e, apply) ((apply_builtin-IsEnding name args line plain fits).at s h)
        | inr (f, e) ↦
            rw (e, apply)
              ((IsReturning-bind _ _ (IsReturning-map_action eval args fits ends)
                  λ vs hvs. call_function-IsEnding f vs).at
                s h)
      ];
    }

    -- The name at the head of a list that is no definition.
    function_name-plain :
        (token : Token) (args : _)
        → is_definition (cons (leaf token) args) ≡ false
        → Holds (λ name. is_def name ≡ false) (function_name token)
    unfolding is_definition
    function_name-plain token args h = elim (Result-cases (function_name token)) [
      | inl (name, e) ↦ rw e (rw (e, is_definition) at h)
      | inr (x, e) ↦ rw e tt
    ]

    eval_code-IsEnding : (c : Code) → Fits (suc fuel) c → IsEnding py (eval_code py eval c)
    unfolding eval_code
    eval_code-IsEnding (leaf token) fits = eval_token-IsEnding token.kind token.value token.line
    eval_code-IsEnding (node nil) fits = IsReturning-raise _
    eval_code-IsEnding (node (cons (node head) args)) fits = IsReturning-raise _
    eval_code-IsEnding (node (cons (leaf token) args)) fits =
        IsReturning-bind _ _
          (IsReturning-lift (function_name token)
            (function_name-plain token args (ground (arith, fits.0))))
          λ name plain.
            apply-IsEnding name (to_list args) token.line plain
              (Fits-members fuel (cons (leaf token) args) fits).1

  eval-IsEnding : (fuel : ℕ) (c : Code) → Fits fuel c → IsEnding py (eval py fuel c)
  unfolding eval
  eval-IsEnding zero c fits = absurd (omega (arith, fits.1))
  eval-IsEnding (suc fuel) c fits = record {
    at = λ s h. (eval_code-IsEnding fuel (eval py fuel) (eval-IsEnding fuel) c fits).at s h;
  }

  -- If no list in the code begins like a definition, the fuel is more than the depth of the code,
  -- and the evaluator has no function of the policy yet, then the evaluator ends with a value or an
  -- exception, and has no function of the policy then either.
  pub eval_enough_fuel :
      (fuel : ℕ) (c : Code) (s : State Value Heap)
      → defines_none c ≡ true
      → depth c < fuel
      → s.funcs ≡ []
      → (r : Result Value) × (t : State Value Heap) × (eval py fuel c s ≡ some (r, t))
        × (t.funcs ≡ [])
  eval_enough_fuel fuel c s plain deep h =
      let (r, t, e, k, any) = (eval-IsEnding fuel c (plain, deep)).at s h in (r, t, e, k)
