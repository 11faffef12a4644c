-- ===== src/Language/Balance/Builtins.antt =====
-- Proofs about what the built-ins of mom/Policy/Parser.py do to the scopes of their caller.
use mom_perf_fair_scheduler.Common.{
  ℕ, String, ap, Bool, true, false, Option, List, [], ◌∷◌, arith, length, Option-cases, inl, inr,
}
use mom_perf_fair_scheduler.Language.Action.{Error, index_error, type_error, ok, err, pure, ◌>>=◌}
use mom_perf_fair_scheduler.Language.Syntax.{Code, leaf, node, nil, cons}
use mom_perf_fair_scheduler.Language.Python.{Python}
use mom_perf_fair_scheduler.Language.Scopes.{enter_scope, get, alloc, assign}
use mom_perf_fair_scheduler.Language.Scopes.Laws.{
  scope_names, scope_names-assign, outer-alloc, length-alloc, leave_scope-eq-outer,
}
use mom_perf_fair_scheduler.Language.Dispatch.{
  DocType, symbol_type, value_type, code_type, Argument, symbol_arg, value_arg, code_arg, next_type,
  arity_fits, bind_argument, bind_arguments, dispatch,
}
use mom_perf_fair_scheduler.Language.Handlers.{
  Handler, Eval, get_variable, alloc_variable, set_variable, c_def, in_scope, bind_symbol,
  eval_body, c_let, eval_item, c_with, c_if, run, codes_of, def_, set_, defvar, let_, with_, if_,
  and_, or_, not_, min_, max_, null, valid, binary_,
}
use mom_perf_fair_scheduler.Language.Balance.{
  SameScopes-trans, SameScopes-of_names, IsBalanced-from_option, IsBalanced, IsBalanced-lift,
  IsBalanced-pure, IsBalanced-raise, IsBalanced-if, IsBalanced-bind, balance_rules,
}

module _ (py : Python) where
  open py use {Value, Heap}

  abbrev pub IsKept : {A : Type 0} → Eval py A → Type 0
  IsKept m = IsBalanced m

  pub get_variable-IsBalanced : (e : Error) (x : String) → IsKept (get_variable py e x)
  unfolding get_variable
  get_variable-IsBalanced e x = record {
    at = λ s t a h. (IsBalanced-from_option e (get (py.attribute s.heap) x s.stack)).at s t a h;
  }

  alloc_variable-IsBalanced : (x : String) (v : Value) → IsKept (alloc_variable py x v)
  unfolding alloc_variable
  alloc_variable-IsBalanced x v = record {
    at = λ s t a h.
        let (found, stack') = alloc x v s.stack in
        SameScopes-trans
          (record {
            depth = length-alloc x v s.stack;
            names = ap scope_names (outer-alloc x v s.stack);
          })
          ((IsBalanced-from_option index_error found).at (record s { stack = stack' }) t a h);
  }

  set_variable-IsBalanced : (x : String) (v : Value) → IsKept (set_variable py x v)
  unfolding set_variable
  set_variable-IsBalanced x v = record {
    at = λ s t a h. elim (Option-cases (assign x v s.stack)) [
      | inl e ↦ absurd (ground (arith, h, e))
      | inr (stack', e) ↦
          SameScopes-of_names s t (ground (arith, h, e, scope_names-assign x v s.stack stack' e))
    ];
  }

  c_def-IsBalanced : (f : String) (params code : Code) → IsKept (c_def py f params code)
  unfolding c_def
  c_def-IsBalanced f params code = record { at = λ s t a h. SameScopes-of_names s t (ground arith) }

  in_scope-IsBalanced : {A : Type 0} (m : Eval py A) → IsKept m → IsKept (in_scope py m)
  unfolding in_scope enter_scope
  in_scope-IsBalanced m p = record {
    at = λ s t a h. elim (Option-cases (m (record s { stack = [] ∷ s.stack }))) [
      | inl e ↦ absurd (ground (arith, h, e))
      | inr ((ok b, u), e) ↦ SameScopes-of_names s t (
          ground (
            arith,
            h,
            e,
            (p.at (record s { stack = [] ∷ s.stack }) u b e).names,
            leave_scope-eq-outer u.stack,
          ))
      | inr ((err b, u), e) ↦ absurd (ground (arith, h, e))
    ];
  }

  module _ (eval : Code → Eval py Value) (kept : (c : Code) → IsKept (eval c)) where
    bind_symbol-IsBalanced : (c : Code) → IsKept (bind_symbol py eval c)
    unfolding bind_symbol
    bind_symbol-IsBalanced (leaf token) = IsBalanced-raise _
    bind_symbol-IsBalanced (node nil) = IsBalanced-raise _
    bind_symbol-IsBalanced (node (cons sym nil)) = IsBalanced-raise _
    bind_symbol-IsBalanced (node (cons sym (cons code nil))) =
        search (balance_rules, alloc_variable-IsBalanced, kept)
    bind_symbol-IsBalanced (node (cons sym (cons code (cons c cs)))) = IsBalanced-raise _

    c_let-IsBalanced : (syms : Code) (code : List Code) → IsKept (c_let py eval syms code)
    unfolding c_let eval_body
    c_let-IsBalanced (leaf token) code = IsBalanced-raise _
    c_let-IsBalanced (node syms) code =
        search (balance_rules, in_scope-IsBalanced, bind_symbol-IsBalanced, kept)

    eval_item-IsBalanced :
        (x : String) (code : Code) (item : Value) → IsKept (eval_item py eval x code item)
    unfolding eval_item
    eval_item-IsBalanced x code item =
        search (balance_rules, in_scope-IsBalanced, alloc_variable-IsBalanced, kept)

    c_with-IsBalanced : (xs x : String) (code : Code) → IsKept (c_with py eval xs x code)
    unfolding c_with
    c_with-IsBalanced xs x code =
        search (balance_rules, eval_item-IsBalanced, get_variable-IsBalanced) depth 7

    bind_argument-IsBalanced :
        (line : Option ℕ) (t : DocType) (arg : Code) → IsKept (bind_argument eval line t arg)
    unfolding bind_argument
    bind_argument-IsBalanced line code_type arg = IsBalanced-lift _
    bind_argument-IsBalanced line symbol_type arg = search balance_rules
    bind_argument-IsBalanced line _ arg = search (balance_rules, kept)

    -- One round of the loop, before the others.
    bind_round-IsBalanced :
        (line : Option ℕ) (t : DocType) (arg : Code) (others : Eval py (List (Argument Value)))
        → IsKept others
        → IsKept (do bound ← bind_argument eval line t arg; rest ← others; pure (bound ∷ rest))
    bind_round-IsBalanced line t arg others kept_others =
        IsBalanced-bind _ _ (bind_argument-IsBalanced line t arg)
          λ b. IsBalanced-bind _ _ kept_others λ rest. IsBalanced-pure (b ∷ rest)

    bind_arguments-IsBalanced :
        (line : Option ℕ) (types : List DocType) (current : DocType) (first : Bool)
        (args : List Code)
        → IsKept (bind_arguments eval line types current first args)
    unfolding bind_arguments
    bind_arguments-IsBalanced line types current first [] = IsBalanced-pure []
    bind_arguments-IsBalanced line [] current first (arg ∷ args) = IsBalanced-pure _
    bind_arguments-IsBalanced line (t ∷ types) current first (arg ∷ args) =
        let (rest, now) = next_type (t ∷ types) current first in
        bind_round-IsBalanced line now arg _ (bind_arguments-IsBalanced line rest now false args)

    pub run-IsBalanced : (h : Handler) (args : List (Argument Value)) → IsKept (run py eval h args)
    unfolding run c_if
    run-IsBalanced def_ (symbol_arg f ∷ code_arg params ∷ code_arg code ∷ []) =
        c_def-IsBalanced f params code
    run-IsBalanced set_ (symbol_arg x ∷ value_arg v ∷ []) = set_variable-IsBalanced x v
    run-IsBalanced defvar (symbol_arg x ∷ value_arg v ∷ []) = alloc_variable-IsBalanced x v
    run-IsBalanced let_ (code_arg syms ∷ args) =
        IsBalanced-bind _ _ (IsBalanced-from_option type_error (codes_of args))
          (c_let-IsBalanced syms)
    run-IsBalanced with_ (symbol_arg xs ∷ symbol_arg x ∷ code_arg code ∷ []) =
        c_with-IsBalanced xs x code
    run-IsBalanced if_ (value_arg test ∷ code_arg positive ∷ code_arg negative ∷ []) =
        IsBalanced-if (py.truth test) _ _ (kept positive) (kept negative)
    run-IsBalanced (binary_ op) (value_arg x ∷ value_arg y ∷ []) = IsBalanced-lift _
    run-IsBalanced not_ (value_arg x ∷ []) = IsBalanced-lift _
    run-IsBalanced and_ args = IsBalanced-lift _
    run-IsBalanced or_ args = IsBalanced-lift _
    run-IsBalanced min_ args = IsBalanced-lift _
    run-IsBalanced max_ args = IsBalanced-lift _
    run-IsBalanced null args = IsBalanced-lift _
    run-IsBalanced valid args = IsBalanced-lift _
    run-IsBalanced _ args = IsBalanced-raise type_error

    pub dispatch-IsBalanced :
        (line : Option ℕ) (types : List DocType) (f : List (Argument Value) → Eval py Value)
        (args : List Code)
        → ((bound : List (Argument Value)) → IsKept (f bound))
        → IsKept (dispatch eval line types f args)
    unfolding dispatch
    dispatch-IsBalanced line types f args kept_f =
        IsBalanced-if (arity_fits types (length args)) _ _
          (IsBalanced-bind _ _ (bind_arguments-IsBalanced line types value_type true args) kept_f)
          (IsBalanced-raise _)
