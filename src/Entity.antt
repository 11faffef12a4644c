-- ===== src/Entity.antt =====
-- mom/Entity.py: the snapshot of a monitor that policies and controllers read. What `_finalize`
-- sets by `setattr` is the dictionary `attributes`; `valid_fields` is that of the monitor. The
-- debugging output of `_disp` is left out.
use mom_perf_fair_scheduler.Common.{
  String, Option, none, some, List, [], ◌∷◌, ◌++◌, ◌==◌, if◌then◌else◌, Dict, lookup, insert,
  contains, length, last?,
}
use mom_perf_fair_scheduler.Number.{Number, sum}

-- The exceptions of the accessors.
pub data EntityError : Type 0 where
  key_error entity_error : EntityError

pub data Answer (A : Type 0) : Type 0 where
  value : A → Answer A
  raises : EntityError → Answer A

-- One row of statistics. A field that was not collected is there with `None`.
abbrev pub Row : Type 0 → Type 0
Row V = Dict (Option V)

pub record Entity (V : Type 0) : Type 0 where
  pub properties : Dict V
  pub variables : Dict V
  pub statistics : List (Row V)
  pub controls : Dict V
  pub attributes : Row V
  pub valid_fields : List String

module _ {V : Type 0} where
  unfoldable pub new_entity : List String → Entity V
  new_entity fields = record {
    properties = [];
    variables = [];
    statistics = [];
    controls = [];
    attributes = [];
    valid_fields = fields;
  }

  unfoldable pub set_property : String → V → Entity V → Entity V
  set_property name val e = record e { properties = insert name val e.properties }

  unfoldable pub set_variable : String → V → Entity V → Entity V
  set_variable name val e = record e { variables = insert name val e.variables }

  unfoldable pub set_statistics : List (Row V) → Entity V → Entity V
  set_statistics stats e = record e { statistics = e.statistics ++ stats }

  -- The loop of `_finalize` over one row.
  unfoldable pub set_attributes : List String → Row V → Row V → Row V
  set_attributes fields [] attributes = attributes
  set_attributes fields ((stat, val) ∷ row) attributes =
      set_attributes fields row
        (if contains stat fields then insert stat val attributes else attributes)

  unfoldable pub finalize : Entity V → Entity V
  unfolding set_attributes
  finalize e = elim (last? e.statistics) [
    | none ↦ e
    | some row ↦ record e { attributes = set_attributes e.valid_fields row e.attributes }
  ]

  unfoldable pub prop : String → Entity V → Answer V
  prop name e = elim (lookup name e.properties) [ none ↦ raises key_error | some val ↦ value val ]

  -- A value of `row.get(name, default)`
  abbrev pub get_default : Option V → Option (Option V) → Option V
  get_default default none = default
  get_default default (some val) = val

  -- `Stat(name, default)`, where `None` is `none`
  unfoldable pub stat : String → Option V → Entity V → Answer (Option V)
  stat name default e =
      if contains name e.valid_fields
      then elim (last? e.statistics) [
        | none ↦ value none
        | some row ↦ value (get_default default (lookup name row))
      ]
      else raises key_error

  -- The values of a field in the rows that have one.
  unfoldable pub recorded : String → List (Row V) → List V
  recorded name [] = []
  recorded name (row ∷ rows) = elim (get_default none (lookup name row)) [
    | none ↦ recorded name rows
    | some val ↦ val ∷ recorded name rows
  ]

  unfoldable pub set_var : String → V → Entity V → Entity V
  set_var name val e = record e { variables = insert name val e.variables }

  unfoldable pub get_var : String → Entity V → Option V
  get_var name e = lookup name e.variables

  unfoldable pub control : String → V → Entity V → Entity V
  control name val e = record e { controls = insert name val e.controls }

  unfoldable pub get_control : String → Entity V → Option V
  get_control name e = lookup name e.controls

-- `StatAvg(name)` of numbers.
unfoldable pub stat_avg : (n : Number) → String → Entity n.Num → Answer n.Num
unfolding recorded sum
stat_avg n name e =
    let values = recorded name e.statistics in
    if contains name e.valid_fields
    then (if length e.statistics == 0
        then raises entity_error
        else if length values == 0
        then value (n.of_ℕ 0)
        else value (n.over (sum n values) (n.of_ℕ (length values))))
    else raises key_error
