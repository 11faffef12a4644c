-- ===== src/Language/Dispatch.antt =====
-- mom/Policy/Parser.py: `_dispatch`, which binds the arguments of a built-in by the types that its
-- doc string lists. The doc strings are constants, and stand here as `parse_doc` reads them.
use mom_perf_fair_scheduler.Common.{
  ℕ, ◌+◌, String, Bool, true, false, Option, none, some, List, [], ◌∷◌, not, ◌==◌, ltb,
  if◌then◌else◌, length, last?, map,
}
use mom_perf_fair_scheduler.Language.Action.{
  Error, policy_error, type_error, Action, pure, raise, from_option, ◌>>=◌,
}
use mom_perf_fair_scheduler.Language.Syntax.{Kind, symbol, Code, leaf, node}

-- The words of a doc string.
pub data DocType : Type 0 where
  symbol_type value_type code_type dots : DocType

-- A bound argument: the text of a symbol, a value, or code that was left alone.
pub data Argument (V : Type 0) : Type 0 where
  symbol_arg : String → Argument V
  value_arg : V → Argument V
  code_arg : Code → Argument V

-- `raise PolicyError(... % line)`: with no line the format itself raises `TypeError`.
abbrev pub error_at : Option ℕ → Error
error_at none = type_error
error_at (some line) = policy_error

abbrev pub is_dots : DocType → Bool
is_dots dots = true
is_dots _ = false

-- `types[-1]` is the operator `...`.
abbrev pub is_repeating : List DocType → Bool
is_repeating types = elim (last? types) [ none ↦ false | some t ↦ is_dots t ]

-- The two tests on the number of arguments.
unfoldable pub arity_fits : List DocType → ℕ → Bool
arity_fits types count =
    if is_repeating types then not (ltb (count + 1) (length types)) else length types == count

-- The head of one round of the loop: the types that are left, and the type of this argument.
-- `first` is the test `i == 0`, and `current` the type of the argument before.
unfoldable pub next_type : List DocType → DocType → Bool → List DocType × DocType
next_type [] current first = ([], current)
next_type (dots ∷ types) current first = (dots ∷ types, if first then dots else current)
next_type (t ∷ types) current first = (types, t)

abbrev symbol_value : Kind → String → Option String
symbol_value symbol text = some text
symbol_value _ text = none

-- `args[i].value` where `isinstance(args[i], Token)` and its kind is `symbol`
unfoldable pub symbol_text : Code → Option String
symbol_text (leaf token) = symbol_value token.kind token.value
symbol_text (node codes) = none

module _ {S V : Type 0} (eval : Code → Action S V) (line : Option ℕ) where
  -- The body of the loop for one argument.
  unfoldable pub bind_argument : DocType → Code → Action S (Argument V)
  unfolding symbol_text ◌>>=◌
  bind_argument code_type arg = pure (code_arg arg)
  bind_argument symbol_type arg = do
    text ← from_option (error_at line) (symbol_text arg)
    pure (symbol_arg text)
  bind_argument _ arg = do v ← eval arg; pure (value_arg v)

  -- The loop. Where no type is left, it ends and the other arguments stay as they are.
  unfoldable pub bind_arguments :
      List DocType → DocType → Bool → List Code → Action S (List (Argument V))
  unfolding bind_argument next_type
  bind_arguments types current first [] = pure []
  bind_arguments [] current first (arg ∷ args) = pure (map code_arg (arg ∷ args))
  bind_arguments (t ∷ types) current first (arg ∷ args) = do
    let (rest, now) = next_type (t ∷ types) current first
    bound ← bind_argument now arg
    others ← bind_arguments rest now false args
    pure (bound ∷ others)

  -- `_dispatch`, with the function that the doc string belongs to.
  unfoldable pub dispatch : List DocType → (List (Argument V) → Action S V) → List Code → Action S V
  unfolding bind_arguments arity_fits
  dispatch types run args =
      if arity_fits types (length args)
      then (do bound ← bind_arguments types value_type true args; run bound)
      else raise (error_at line)
