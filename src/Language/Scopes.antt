-- ===== src/Language/Scopes.antt =====
-- mom/Policy/Parser.py: `VariableStack`. A scope is a dictionary, and the innermost comes first.
-- A name `a.b` is the attribute `b` of the object that `a` names.
pub mod Laws
use Prim.Native.Char.{code}
use mom_perf_fair_scheduler.Common.{
  ℕ, String, Bool, true, false, Option, none, some, List, [], ◌∷◌, ◌==◌, if◌then◌else◌, Dict,
  lookup, insert, set_default, has_key,
}

abbrev pub dot : ℕ
dot = b'.'

-- `name.split('.')[0]`
pub before_dot : String → String
before_dot String.[] = String.[]
before_dot (String.◌∷◌ c s) = if code c == dot then String.[] else String.◌∷◌ c (before_dot s)

-- What follows the first dot, if there is one.
pub after_dot : String → Option String
after_dot String.[] = none
after_dot (String.◌∷◌ c s) = if code c == dot then some s else after_dot s

-- `parts[0]`, and `parts[1]` where `len(parts) > 1`
unfoldable pub split_name : String → String × Option String
unfolding before_dot after_dot
split_name name =
    (before_dot name, elim (after_dot name) [ none ↦ none | some rest ↦ some (before_dot rest) ])

abbrev pub Stack : Type 0 → Type 0
Stack V = List (Dict V)

module _ {V : Type 0} where
  unfoldable pub enter_scope : Stack V → Stack V
  enter_scope stack = [] ∷ stack

  unfoldable pub leave_scope : Stack V → Stack V
  leave_scope [] = []
  leave_scope (scope ∷ stack) = stack

  -- The part of `get` for one scope that holds the object: none where the search goes on.
  abbrev pub member : (V → String → Option V) → Option String → V → Option V
  member attribute none v = some v
  member attribute (some field) v = attribute v field

  -- The loop of `get` over the scopes.
  unfoldable pub find : (V → String → Option V) → String → Option String → Stack V → Option V
  unfolding lookup
  find attribute obj field [] = none
  find attribute obj field (scope ∷ stack) =
      let rest = find attribute obj field stack in
      elim (lookup obj scope) [
        | none ↦ rest
        | some v ↦ elim (member attribute field v) [ none ↦ rest | some w ↦ some w ]
      ]

  -- `get`; what it does where nothing is found stands with its callers.
  unfoldable pub get : (V → String → Option V) → String → Stack V → Option V
  unfolding find split_name
  get attribute name stack = let (obj, field) = split_name name in find attribute obj field stack

  -- `set(name, value, alloc=True)`: the value that the name has then, or none for the
  -- `IndexError` of an empty stack. A name that the scope has keeps its value.
  unfoldable pub alloc : String → V → Stack V → Option V × Stack V
  unfolding set_default
  alloc name v [] = (none, [])
  alloc name v (scope ∷ stack) =
      (lookup name (set_default name v scope), set_default name v scope ∷ stack)

  -- `set(name, value)`: the innermost scope that has the name, or none where no scope has it.
  unfoldable pub assign : String → V → Stack V → Option (Stack V)
  unfolding insert lookup
  assign name v [] = none
  assign name v (scope ∷ stack) =
      let rest = assign name v stack in
      if has_key name scope
      then some (insert name v scope ∷ stack)
      else elim rest [ none ↦ none | some stack' ↦ some (scope ∷ stack') ]
