-- ===== src/Language/Tests.antt =====
-- A small object model to run policies in, runs of the evaluator on concrete code, and the
-- theorems about the evaluator at concrete inputs.
use mom_perf_fair_scheduler.Common.{
  ℕ, arith, ◌+◌, ◌-◌, String, ◌≡◌, refl, Bool, true, false, Option, none, some, List, [], ◌∷◌, ◌==◌,
  ltb, if◌then◌else◌, length, str_eq, lookup,
}
use mom_perf_fair_scheduler.Language.Action.{Result, ok, err, type_error, attribute_error, other}
use mom_perf_fair_scheduler.Language.Syntax.{
  symbol, operator, number, integer, Code, leaf, node, of_list,
}
use mom_perf_fair_scheduler.Language.Python.{Python, BinaryOp, add, sub, lt, eq}
use mom_perf_fair_scheduler.Language.Handlers.{State}
use mom_perf_fair_scheduler.Language.Scopes.{Stack, get, before_dot, after_dot, alloc, assign}
use mom_perf_fair_scheduler.Language.Scopes.Laws.{get-assign, get-alloc}
use mom_perf_fair_scheduler.Language.Balance.{SameScopes}
use mom_perf_fair_scheduler.Language.Balance.Evaluator.{eval-SameScopes}
use mom_perf_fair_scheduler.Language.Enough.Measure.{is_definition}
use mom_perf_fair_scheduler.Language.Enough.Evaluator.{eval_enough_fuel}
use mom_perf_fair_scheduler.Language.Eval.{eval, eval_program, new_evaluator}

-- Values of a small model: numbers, texts, truth values, lists, objects by name, and functions.
mutual
  data Value : Type 0 where
    nothing : Value
    bool : Bool → Value
    num : ℕ → Value
    text : String → Value
    items : Values → Value
    entity : Value
    setter : Value
    abs_of : Value

  data Values : Type 0 where
    empty : Values
    more : Value → Values → Values

abbrev listed : Values → List Value
listed empty = []
listed (more v vs) = v ∷ listed vs

abbrev pack : List Value → Values
pack [] = empty
pack (v ∷ vs) = more v (pack vs)

abbrev is_nothing : Value → Bool
is_nothing nothing = true
is_nothing _ = false

abbrev truth : Value → Bool
truth (bool b) = b
truth nothing = false
truth (num n) = ltb 0 n
truth _ = true

abbrev digit : String → ℕ
digit s = if str_eq s "1" then 1 else if str_eq s "2" then 2 else if str_eq s "3" then 3 else 7

abbrev binary : BinaryOp → Value → Value → Result Value
binary add (num a) (num b) = ok (num (a + b))
binary sub (num a) (num b) = ok (num (a - b))
binary lt (num a) (num b) = ok (bool (ltb a b))
binary eq (num a) (num b) = ok (bool (a == b))
binary _ _ _ = err type_error

abbrev len : Value → Result ℕ
len (items vs) = ok (length (listed vs))
len entity = err attribute_error
len _ = err type_error

abbrev iterate : Value → Result (List Value)
iterate (items vs) = ok (listed vs)
iterate _ = err type_error

abbrev attribute : Option ℕ → Value → String → Option Value
attribute heap entity field =
    if str_eq field "Control"
    then some setter
    else if str_eq field "balloon_cur"
    then some (num 7)
    else none
attribute heap _ field = none

-- `Control` of the only entity stores its second argument in the heap.
abbrev call : Value → List Value → Option ℕ → Result Value × Option ℕ
call setter (k ∷ num n ∷ []) heap = (ok nothing, some n)
call abs_of (v ∷ []) heap = (ok v, heap)
call _ vs heap = (err type_error, heap)

abbrev model : Python
model = record {
  Value = Value;
  Heap = Option ℕ;
  nothing = nothing;
  bool = bool;
  text = text;
  list_of = λ vs. items (pack vs);
  is_nothing = is_nothing;
  truth = truth;
  number_of = λ type s. ok (num (digit s));
  binary = binary;
  minimum = λ vs. err other;
  maximum = λ vs. err other;
  len = len;
  iterate = iterate;
  attribute = attribute;
  call = call;
  abs_function = abs_of;
  debug_function = nothing;
}

abbrev sym : String → Code
sym s = leaf (record { kind = symbol; value = s; line = some 1 })

abbrev op : String → Code
op s = leaf (record { kind = operator; value = s; line = some 1 })

abbrev lit : String → Code
lit s = leaf (record { kind = number integer; value = s; line = some 1 })

abbrev form : List Code → Code
form cs = node (of_list cs)

abbrev answer : ℕ → List Code → Option (Result (List Value))
answer fuel program = elim (eval_program model fuel program (new_evaluator model none)) [
  | none ↦ none
  | some (r, s) ↦ some r
]

-- (let ((a 1) (b 2)) (+ a b))
abbrev sum_program : Code
sum_program = form (
    sym "let"
    ∷ form (form (sym "a" ∷ lit "1" ∷ []) ∷ form (sym "b" ∷ lit "2" ∷ []) ∷ [])
    ∷ form (op "+" ∷ sym "a" ∷ sym "b" ∷ [])
    ∷ [])

sum_runs : answer 5 (sum_program ∷ []) ≡ some (ok (num 3 ∷ []))
unfolding eval_program new_evaluator eval
sum_runs = refl

abbrev before : State Value (Option ℕ)
before = new_evaluator model none

abbrev after_sum : State Value (Option ℕ)
after_sum = elim (eval model 5 sum_program before) [ none ↦ before | some (r, s) ↦ s ]

eval-SameScopes_example : SameScopes before after_sum
unfolding eval new_evaluator
eval-SameScopes_example = eval-SameScopes model 5 sum_program before after_sum (num 3) refl

abbrev scopes : Stack ℕ
scopes = (("x", 1) ∷ []) ∷ (("y", 2) ∷ ("x", 3) ∷ []) ∷ []

abbrev no_attribute : ℕ → String → Option ℕ
no_attribute v field = none

-- The inner `x` hides the other one, and the assignment reaches the outer scope.
get-assign_example :
    (after_dot "y" ≡ none
      → get no_attribute "y" ((("x", 1) ∷ []) ∷ (("y", 5) ∷ ("x", 3) ∷ []) ∷ [])
        ≡ (if str_eq "y" "y" then some 5 else get no_attribute "y" scopes))
    × (str_eq "y" (before_dot "y") ≡ false
        → get no_attribute "y" ((("x", 1) ∷ []) ∷ (("y", 5) ∷ ("x", 3) ∷ []) ∷ [])
          ≡ get no_attribute "y" scopes)
unfolding assign
get-assign_example = get-assign no_attribute "y" "y" 5 scopes _ refl

get-alloc_example :
    (after_dot "x" ≡ none
      → get no_attribute "x" (alloc "x" 5 scopes).1
        ≡ (if str_eq "x" "x" then some 1 else get no_attribute "x" scopes))
    × (str_eq "x" (before_dot "x") ≡ false
        → get no_attribute "x" (alloc "x" 5 scopes).1 ≡ get no_attribute "x" scopes)
unfolding lookup
get-alloc_example =
    get-alloc no_attribute "x" "x" 5 (("x", 1) ∷ []) ((("y", 2) ∷ ("x", 3) ∷ []) ∷ [])

eval_enough_fuel_example :
    (r : Result Value) × (t : State Value (Option ℕ)) × (eval model 4 sum_program before
      ≡ some (r, t))
    × (t.funcs ≡ [])
unfolding is_definition lookup new_evaluator
eval_enough_fuel_example = eval_enough_fuel model 4 sum_program before refl (omega arith) refl
