-- ===== src/Language/Syntax.antt =====
-- mom/Policy/Parser.py: tokens, and the code tree that the parser builds from them.
use mom_perf_fair_scheduler.Common.{ℕ, String, ◌≡◌, Option, List, [], ◌∷◌, refl, ap}

-- The types of a `NumericToken`, as the scanner makes them.
pub data NumberType : Type 0 where
  float integer hex octal : NumberType

pub data Kind : Type 0 where
  symbol string operator : Kind
  number : NumberType → Kind

-- `line` is `None` in the tokens that the evaluator makes itself.
pub record Token : Type 0 where
  pub kind : Kind
  pub value : String
  pub line : Option ℕ

-- A Python value of the tree is a token or a list of such values.
mutual
  pub data Code : Type 0 where
    leaf : Token → Code
    node : Codes → Code

  pub data Codes : Type 0 where
    nil : Codes
    cons : Code → Codes → Codes

abbrev pub to_list : Codes → List Code
to_list nil = []
to_list (cons c cs) = c ∷ to_list cs

abbrev pub of_list : List Code → Codes
of_list [] = nil
of_list (c ∷ cs) = cons c (of_list cs)

pub to_list-of_list : (cs : List Code) → to_list (of_list cs) ≡ cs
to_list-of_list [] = refl
to_list-of_list (c ∷ cs) = ap (λ r. c ∷ r) (to_list-of_list cs)
