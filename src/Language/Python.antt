-- ===== src/Language/Python.antt =====
-- What the policy language takes from the interpreter of the source: the values that a policy
-- handles, and the operations on them that the evaluator calls.
use mom_perf_fair_scheduler.Common.{ℕ, String, Bool, Option, List}
use mom_perf_fair_scheduler.Language.Action.{Result}
use mom_perf_fair_scheduler.Language.Syntax.{NumberType}

-- The binary operators of the expressions in `c_add` to `c_shr`.
pub data BinaryOp : Type 0 where
  add sub mul div lt gt lte gte eq neq shl shr : BinaryOp

-- `Heap` holds the objects that a policy can reach, such as `Host` and the members of `Guests`.
pub record Python : Type 1 where
  pub Value : Type 0
  pub Heap : Type 0
  -- `None`, `True` and `False`, a text, a list
  pub nothing : Value
  pub bool : Bool → Value
  pub text : String → Value
  pub list_of : List Value → Value
  -- `v is None`, `bool(v)`
  pub is_nothing : Value → Bool
  pub truth : Value → Bool
  -- `float(s)` of a float token, `int(s, 0)` of any other
  pub number_of : NumberType → String → Result Value
  pub binary : BinaryOp → Value → Value → Result Value
  -- `min(vs)`, `max(vs)`
  pub minimum : List Value → Result Value
  pub maximum : List Value → Result Value
  -- `len(v)`, `iter(v)`
  pub len : Value → Result ℕ
  pub iterate : Value → Result (List Value)
  -- `getattr(v, name)`, or none where `hasattr(v, name)` is false
  pub attribute : Heap → Value → String → Option Value
  -- `f(*args)`
  pub call : Value → List Value → Heap → Result Value × Heap
  -- the functions of `ExternalFunctions`
  pub abs_function : Value
  pub debug_function : Value
