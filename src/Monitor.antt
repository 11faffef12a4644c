-- ===== src/Monitor.antt =====
-- mom/Monitor.py: a monitor and its history of statistics. What the collectors do in one round is
-- an argument: for each of them, in the order of the configuration, how its `collect` ended. The
-- semaphore makes each change of the data one step; the plotter and the log are left out.
pub mod Priority
pub mod Collect
pub mod Variables
pub mod Threads
pub mod Tests
use mom_perf_fair_scheduler.Common.{
  ℕ, String, Bool, true, false, not, Option, none, some, List, [], ◌∷◌, ◌++◌, ◌&&◌, ltb,
  if◌then◌else◌, Dict, lookup, insert, set_default, contains, has_key, length, drop, select,
}
use mom_perf_fair_scheduler.Entity
use mom_perf_fair_scheduler.Entity.{Entity, Row, new_entity, set_statistics, finalize}

-- The fields that a collector declares.
pub record Declared : Type 0 where
  pub get_fields : List String
  pub get_optional_fields : List String

-- How one `collect` of a collector ends.
pub data Outcome (V : Type 0) : Type 0 where
  collected : Row V → Outcome V
  no_data collection_error unexpected_error fatal_error : Outcome V

-- `ready` is `None` until the first round.
pub record Monitor (V : Type 0) : Type 0 where
  pub properties : Dict V
  pub statistics : List (Row V)
  pub variables : Dict V
  pub fields : Option (List String)
  pub optional_fields : Option (List String)
  pub ready : Option Bool
  pub terminated : Bool

-- `set |= ...` and `set.difference`, on sets as lists
unfoldable pub union : List String → List String → List String
union [] js = js
union (k ∷ ks) js = if contains k js then union ks js else k ∷ union ks js

abbrev pub difference : List String → List String → List String
difference ks js = select (λ k. not (contains k js)) ks

unfoldable pub all_fields : List Declared → List String
unfolding union
all_fields [] = []
all_fields (c ∷ cs) = union (all_fields cs) c.get_fields

unfoldable pub all_optional_fields : List Declared → List String
unfolding union
all_optional_fields [] = []
all_optional_fields (c ∷ cs) = union (all_optional_fields cs) c.get_optional_fields

abbrev pub or_else {ℓ} : {A : Type ℓ} → A → Option A → A
or_else a none = a
or_else a (some b) = b

module _ {V : Type 0} where
  -- `data[key] is None`, or the key is not there
  abbrev pub is_open : Option (Option V) → Bool
  is_open (some (some val)) = false
  is_open _ = true

  -- The loop over the items of one collector.
  unfoldable pub merge : Row V → Row V → Row V
  merge [] row = row
  merge ((key, val) ∷ items) row =
      merge items (if is_open (lookup key row) then insert key val row else row)

  -- The loop over the collectors: the merged data, or none for a fatal error.
  unfoldable pub merge_all : List (Outcome V) → Row V → Option (Row V)
  unfolding merge
  merge_all [] row = some row
  merge_all (collected items ∷ outcomes) row = merge_all outcomes (merge items row)
  merge_all (fatal_error ∷ outcomes) row = none
  merge_all (_ ∷ outcomes) row = merge_all outcomes row

  -- `set(data).issuperset(fields)`
  unfoldable pub has_all : List String → Row V → Bool
  has_all [] row = true
  has_all (k ∷ ks) row = has_key k row && has_all ks row

  -- `data.setdefault(k, None)` for the optional fields
  unfoldable pub default_fields : List String → Row V → Row V
  default_fields [] row = row
  default_fields (k ∷ ks) row = default_fields ks (set_default k none row)

  -- The append to the deque, and its `popleft`.
  unfoldable pub push_history : ℕ → Row V → List (Row V) → List (Row V)
  push_history sample_history_length row rows =
      let longer = rows ++ row ∷ [] in
      if ltb sample_history_length (length longer) then drop 1 longer else longer

  -- The part of `collect` that names the fields.
  unfoldable pub name_fields : List Declared → Monitor V → Monitor V
  unfolding all_fields all_optional_fields
  name_fields collectors m =
      let fields = or_else (all_fields collectors) m.fields in
      let optional = or_else (all_optional_fields collectors) m.optional_fields in
      record m { fields = some fields; optional_fields = some (difference optional fields) }

  -- The part of `collect` after the collectors have run.
  unfoldable pub store_row : ℕ → Option (Row V) → Monitor V → Option (Row V) × Monitor V
  unfolding has_all default_fields push_history
  store_row history none m = (none, record m { ready = some false; terminated = true })
  store_row history (some row) m =
      let full = default_fields (or_else [] m.optional_fields) row in
      if has_all (or_else [] m.fields) row
      then (
        some full,
        record m { statistics = push_history history full m.statistics; ready = some true },
      )
      else (none, record m { ready = some false })

  unfoldable pub collect :
      List Declared → ℕ → List (Outcome V) → Monitor V → Option (Row V) × Monitor V
  unfolding name_fields merge_all store_row
  collect collectors history outcomes m =
      store_row history (merge_all outcomes []) (name_fields collectors m)

  abbrev pub valid_fields : Monitor V → List String
  valid_fields m = union (or_else [] m.fields) (or_else [] m.optional_fields)

  -- The copies of `interrogate`, one entry at a time.
  unfoldable pub copy_properties : Dict V → Entity V → Entity V
  copy_properties [] e = e
  copy_properties ((k, v) ∷ d) e = copy_properties d (Entity.set_property k v e)

  unfoldable pub copy_variables : Dict V → Entity V → Entity V
  copy_variables [] e = e
  copy_variables ((k, v) ∷ d) e = copy_variables d (Entity.set_variable k v e)

  unfoldable pub interrogate : Monitor V → Option (Entity V)
  interrogate m = elim m.ready [
    | some true ↦ some (
        finalize (
          set_statistics m.statistics (
            copy_variables m.variables
              (copy_properties m.properties (new_entity (valid_fields m))))))
    | _ ↦ none
  ]

  unfoldable pub update_variables : Dict V → Monitor V → Monitor V
  update_variables [] m = m
  update_variables ((var, val) ∷ variables) m =
      update_variables variables (record m { variables = insert var val m.variables })

  unfoldable pub terminate : Monitor V → Monitor V
  terminate m = record m { terminated = true }

  unfoldable pub is_ready : Monitor V → Bool
  is_ready m = elim m.ready [ none ↦ false | some b ↦ b ]

  -- `should_run()`, with the test that the configuration says that the daemon runs
  unfoldable pub should_run : Bool → Monitor V → Bool
  should_run running m = running && not m.terminated
