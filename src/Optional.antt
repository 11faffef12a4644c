-- ===== src/Optional.antt =====
-- mom/optional.py: `Optional`, a value that may be missing. A missing one holds no value.
use mom_perf_fair_scheduler.Common.{
  String, Bool, Option, none, some, List, [], Dict, lookup, is_some,
}

pub record Optional (A : Type 0) : Type 0 where
  pub contents : Option A

module _ {A : Type 0} where
  unfoldable pub missing : Optional A
  missing = record { contents = none }

  unfoldable pub present : Optional A → Bool
  present o = is_some o.contents

  unfoldable pub or_none : Optional A → Option A
  or_none o = o.contents

  unfoldable pub or_else : A → Optional A → A
  or_else default o = elim o.contents [ none ↦ default | some v ↦ v ]

  -- none stands for the exception that is raised
  unfoldable pub or_raise : Optional A → Option A
  or_raise o = o.contents

module _ {A B : Type 0} where
  unfoldable pub map_optional : (A → B) → Optional A → Optional B
  map_optional f o = elim o.contents [
    | none ↦ record { contents = none }
    | some v ↦ record { contents = some (f v) }
  ]

module _ {V : Type 0} where
  abbrev value_or : V → Option V → V
  value_or default none = default
  value_or default (some v) = v

  -- `get(key, default)`, of a dictionary
  unfoldable pub get_optional : String → V → Optional (Dict V) → Optional V
  unfolding lookup
  get_optional key default o = elim o.contents [
    | none ↦ record { contents = none }
    | some d ↦ record { contents = some (value_or default (lookup key d)) }
  ]

  -- `o[key]`, of a dictionary
  unfoldable pub item : String → Optional (Dict V) → Optional V
  unfolding lookup
  item key o = elim o.contents [
    | none ↦ record { contents = none }
    | some d ↦ record { contents = lookup key d }
  ]

  -- `iter(o)`, of a list
  unfoldable pub iterate_optional : Optional (List V) → List V
  iterate_optional o = elim o.contents [ none ↦ [] | some vs ↦ vs ]
