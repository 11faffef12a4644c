-- ===== src/Monitor/Priority.antt =====
-- Proofs about `Monitor.collect` of mom/Monitor.py: which collector a value comes from.
use mom_perf_fair_scheduler.Common.{
  ℕ, String, ◌≡◌, refl, ap, ◌∙◌, inl, inr, true, Option, none, some, List, [], ◌∷◌, arith, lookup,
  insert, set_default, lookup-insert, lookup-set_default, eq_iff, if◌then◌else◌, All, Bool-cases,
}
use mom_perf_fair_scheduler.Common.Keys.{IsDict}
use mom_perf_fair_scheduler.Entity.{Row, get_default}
use mom_perf_fair_scheduler.Monitor.{
  Declared, Outcome, collected, no_data, collection_error, unexpected_error, fatal_error, Monitor,
  is_open, merge, merge_all, has_all, default_fields, push_history, name_fields, store_row, collect,
  or_else,
}

module _ {V : Type 0} where
  -- The value of a field, `None` counted as no value.
  abbrev pub value_in : String → Row V → Option V
  value_in k row = get_default none (lookup k row)

  abbrev first_of_two : Option V → Option V → Option V
  first_of_two none o = o
  first_of_two (some v) o = some v

  merge-value :
      (k : String) (items row : Row V)
      → IsDict items
      → value_in k (merge items row) ≡ first_of_two (value_in k row) (value_in k items)
  unfolding merge lookup
  merge-value k [] row d = ground arith
  merge-value k ((j, val) ∷ items) row d = ground (
    arith,
    d.0,
    lookup-insert j k val row,
    eq_iff j k,
    merge-value k items (if is_open (lookup j row) then insert j val row else row) d.1,
  )

  -- The first value that a collector has for a field, before any collector that fails for good.
  unfoldable pub first_value : String → List (Outcome V) → Option V
  first_value k [] = none
  first_value k (collected items ∷ outcomes) =
      first_of_two (value_in k items) (first_value k outcomes)
  first_value k (_ ∷ outcomes) = first_value k outcomes

  -- A collector returns a dictionary.
  abbrev pub IsProper : Outcome V → Type 0
  IsProper (collected items) = IsDict items
  IsProper _ = Unit

  merge_all-value :
      (k : String) (outcomes : List (Outcome V)) (row after : Row V)
      → All IsProper outcomes
      → merge_all outcomes row ≡ some after
      → value_in k after ≡ first_of_two (value_in k row) (first_value k outcomes)
  unfolding merge_all first_value
  merge_all-value k [] row after d h = ground (arith, h)
  merge_all-value k (collected items ∷ outcomes) row after d h =
      ground (
        arith,
        merge_all-value k outcomes (merge items row) after d.1 h,
        merge-value k items row d.0,
      )
  merge_all-value k (no_data ∷ outcomes) row after d h = merge_all-value k outcomes row after d.1 h
  merge_all-value k (collection_error ∷ outcomes) row after d h =
      merge_all-value k outcomes row after d.1 h
  merge_all-value k (unexpected_error ∷ outcomes) row after d h =
      merge_all-value k outcomes row after d.1 h
  merge_all-value k (fatal_error ∷ outcomes) row after d h = absurd (ground arith)

  default_fields-value :
      (k : String) (ks : List String) (row : Row V)
      → value_in k (default_fields ks row) ≡ value_in k row
  unfolding default_fields
  default_fields-value k [] row = refl
  default_fields-value k (j ∷ ks) row =
      default_fields-value k ks (set_default j none row)
      ∙ ground (arith, lookup-set_default j k none row, eq_iff j k)

  -- A round that returns a row has stored it, and the row has the mandatory fields.
  record Stored (history : ℕ) (o : Option (Row V)) (m m' : Monitor V) (row : Row V) : Type 0 where
    merged : Row V
    from_merged : o ≡ some merged
    completed : row ≡ default_fields (or_else [] m.optional_fields) merged
    has_fields : has_all (or_else [] m.fields) merged ≡ true
    pushed : m'.statistics ≡ push_history history row m.statistics
    ready : m'.ready ≡ some true

  store_row-Stored :
      (history : ℕ) (o : Option (Row V)) (m : Monitor V) (row : Row V)
      → (store_row history o m).0 ≡ some row
      → Stored history o m (store_row history o m).1 row
  unfolding store_row
  store_row-Stored history none m row h = absurd (ground arith)
  store_row-Stored history (some r) m row h = elim (Bool-cases (has_all (or_else [] m.fields) r)) [
    | inl e ↦ record {
      merged = r;
      from_merged = refl;
      completed = ground (arith, h, e);
      has_fields = e;
      pushed = ground (arith, h, e);
      ready = ground (arith, e);
    }
    | inr e ↦ absurd (ground (arith, h, e))
  ]

  -- If every collector returns a dictionary, then the value of a field in the row that `collect`
  -- returns is that of the first collector that has one, in the order of the configuration.
  pub collect-priority :
      (collectors : List Declared) (history : ℕ) (outcomes : List (Outcome V)) (m : Monitor V)
      (k : String) (row : Row V)
      → All IsProper outcomes
      → (collect collectors history outcomes m).0 ≡ some row
      → value_in k row ≡ first_value k outcomes
  unfolding collect first_value lookup
  collect-priority collectors history outcomes m k row d h =
      let named = name_fields collectors m in
      let s = store_row-Stored history (merge_all outcomes []) named row h in
      ap (value_in k) s.completed
      ∙ default_fields-value k (or_else [] named.optional_fields) s.merged
      ∙ merge_all-value k outcomes [] s.merged d s.from_merged
