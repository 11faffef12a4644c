-- ===== src/Language/Balance/Evaluator.antt =====
-- Proofs about what the evaluator of mom/Policy/Parser.py does to the scopes of its caller.
use mom_perf_fair_scheduler.Common.{
  ℕ, zero, suc, String, ◌≡◌, Option, some, List, arith, Option-cases, inl, inr, lookup,
}
use mom_perf_fair_scheduler.Language.Action.{ok}
use mom_perf_fair_scheduler.Language.Syntax.{
  Kind, symbol, string, operator, number, Code, leaf, node, nil, cons,
}
use mom_perf_fair_scheduler.Language.Python.{Python}
use mom_perf_fair_scheduler.Language.Handlers.{State, Eval, handlers, types_of, run}
use mom_perf_fair_scheduler.Language.Eval.{
  variable_function, call_function, call_defined, find_function, default, apply_builtin, apply,
  eval_token, eval_code, eval,
}
use mom_perf_fair_scheduler.Language.Balance.{
  SameScopes, IsBalanced-lift, IsBalanced-pure, IsBalanced-raise, IsBalanced-bind,
  IsBalanced-map_action, IsBalanced-from_option, SameScopes-of_names, balance_rules,
}
use mom_perf_fair_scheduler.Language.Balance.Builtins.{
  IsKept, run-IsBalanced, dispatch-IsBalanced, get_variable-IsBalanced,
}

module _ (py : Python) where
  open py use {Value, Heap}

  call_function-IsBalanced : (f : Value) (args : List Value) → IsKept py (call_function py f args)
  unfolding call_function
  call_function-IsBalanced f args = record {
    at = λ s t a h. SameScopes-of_names s t (ground arith);
  }

  find_function-IsBalanced : (name : String) → IsKept py (find_function py name)
  unfolding find_function
  find_function-IsBalanced name = record {
    at = λ s t a h. (IsBalanced-from_option _ (lookup name s.funcs)).at s t a h;
  }

  eval_token-IsBalanced :
      (kind : Kind) (word : String) (line : Option ℕ) → IsKept py (eval_token py kind word line)
  unfolding eval_token
  eval_token-IsBalanced (number type) word line = IsBalanced-lift _
  eval_token-IsBalanced string word line = IsBalanced-pure _
  eval_token-IsBalanced symbol word line = search (balance_rules, get_variable-IsBalanced)
  eval_token-IsBalanced operator word line = IsBalanced-raise _

  module _ (eval : Code → Eval py Value) (kept : (c : Code) → IsKept py (eval c)) where
    call_defined-IsBalanced :
        (args : List Code) (line : Option ℕ) (f : Code × Code)
        → IsKept py (call_defined py eval args line f)
    unfolding call_defined
    call_defined-IsBalanced args line (leaf token, code) = IsBalanced-raise _
    call_defined-IsBalanced args line (node params, code) = search (balance_rules, kept)

    default-IsBalanced :
        (name : String) (args : List Code) (line : Option ℕ)
        → IsKept py (default py eval name args line)
    unfolding default
    default-IsBalanced name args line =
        search (balance_rules, find_function-IsBalanced, call_defined-IsBalanced, kept)

    apply_builtin-IsBalanced :
        (name : String) (args : List Code) (line : Option ℕ)
        → IsKept py (apply_builtin py eval name args line)
    unfolding apply_builtin
    apply_builtin-IsBalanced name args line = elim (Option-cases (lookup name handlers)) [
      | inl e ↦ rw (e, apply_builtin) (default-IsBalanced name args line)
      | inr (h, e) ↦
          rw (e, apply_builtin)
            (dispatch-IsBalanced py eval kept line (types_of h) (run py eval h) args
              (run-IsBalanced py eval kept h))
    ]

    apply-IsBalanced :
        (name : String) (args : List Code) (line : Option ℕ)
        → IsKept py (apply py eval name args line)
    unfolding apply
    apply-IsBalanced name args line = record {
      at = λ s t a h. elim (Option-cases (variable_function py name s)) [
        | inl e ↦ (apply_builtin-IsBalanced name args line).at s t a ((rw (e, apply) at h))
        | inr (f, e) ↦
            (IsBalanced-bind _ _ (IsBalanced-map_action eval args kept)
                (call_function-IsBalanced f)).at
              s t a (rw (e, apply) at h)
      ];
    }

    eval_code-IsBalanced : (c : Code) → IsKept py (eval_code py eval c)
    unfolding eval_code
    eval_code-IsBalanced (leaf token) = eval_token-IsBalanced token.kind token.value token.line
    eval_code-IsBalanced (node nil) = IsBalanced-raise _
    eval_code-IsBalanced (node (cons (node head) args)) = IsBalanced-raise _
    eval_code-IsBalanced (node (cons (leaf token) args)) = search (balance_rules, apply-IsBalanced)

  pub eval-IsBalanced : (fuel : ℕ) (c : Code) → IsKept py (eval py fuel c)
  unfolding eval
  eval-IsBalanced zero c = record { at = λ s t a h. absurd (ground (arith, h)) }
  eval-IsBalanced (suc fuel) c = record {
    at = λ s t a h. (eval_code-IsBalanced (eval py fuel) (eval-IsBalanced fuel) c).at s t a h;
  }

  -- Where the evaluator returns a value, with whatever fuel, the variable stack has as many scopes
  -- as before, and the scopes below the innermost have the names that they had.
  pub eval-SameScopes :
      (fuel : ℕ) (c : Code) (s t : State Value Heap) (v : Value)
      → eval py fuel c s ≡ some (ok v, t)
      → SameScopes s t
  eval-SameScopes fuel c s t v h = (eval-IsBalanced fuel c).at s t v h
