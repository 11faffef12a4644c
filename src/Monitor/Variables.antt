-- ===== src/Monitor/Variables.antt =====
-- mom/Entity.py: `_store_variables`, which hands the variables of a snapshot back to its monitor
-- (mom/Monitor.py: `update_variables`), and proofs about the next snapshot.
use mom_perf_fair_scheduler.Common.{
  String, ◌≡◌, refl, true, Option, none, some, [], ◌∷◌, arith, if◌then◌else◌, str_eq, eq_iff, Dict,
  lookup, insert, lookup-insert, last?, ◌∙◌, inl, inr, Option-cases, ap, subst, sym,
}
use mathlib.Core.Option.{some-injective}
use mom_perf_fair_scheduler.Common.Keys.{IsDict, insert-IsDict}
use mom_perf_fair_scheduler.Entity.{
  Entity, set_var, get_var, set_variable, set_property, set_statistics, finalize, new_entity,
}
use mom_perf_fair_scheduler.Monitor.{
  Monitor, update_variables, interrogate, copy_variables, copy_properties, valid_fields,
}

module _ {V : Type 0} where
  -- `entity._store_variables()`, where the entity has the monitor
  unfoldable pub store_variables : Entity V → Monitor V → Monitor V
  unfolding update_variables
  store_variables e m = update_variables e.variables m

  -- The value in the newer of two dictionaries that has one.
  abbrev pub first_found : Option V → Option V → Option V
  first_found none old = old
  first_found (some v) old = some v

  lookup-update_variables :
      (j : String) (d : Dict V) (m : Monitor V)
      → IsDict d
      → lookup j (update_variables d m).variables ≡ first_found (lookup j d) (lookup j m.variables)
  unfolding update_variables lookup
  lookup-update_variables j [] m h = refl
  lookup-update_variables j ((k, v) ∷ d) m h = ground (
    arith,
    h,
    eq_iff k j,
    lookup-insert k j v m.variables,
    lookup-update_variables j d (record m { variables = insert k v m.variables }) h.1,
  )

  ready-update_variables : (d : Dict V) (m : Monitor V) → (update_variables d m).ready ≡ m.ready
  unfolding update_variables
  ready-update_variables [] m = refl
  ready-update_variables ((k, v) ∷ d) m =
      ready-update_variables d (record m { variables = insert k v m.variables })

  lookup-copy_variables :
      (j : String) (d : Dict V) (e : Entity V)
      → IsDict d
      → lookup j (copy_variables d e).variables ≡ first_found (lookup j d) (lookup j e.variables)
  unfolding copy_variables set_variable lookup
  lookup-copy_variables j [] e h = refl
  lookup-copy_variables j ((k, v) ∷ d) e h = ground (
    arith,
    h,
    eq_iff k j,
    lookup-insert k j v e.variables,
    lookup-copy_variables j d (set_variable k v e) h.1,
  )

  update_variables-IsDict :
      (d : Dict V) (m : Monitor V) → IsDict m.variables → IsDict (update_variables d m).variables
  unfolding update_variables
  update_variables-IsDict [] m h = h
  update_variables-IsDict ((k, v) ∷ d) m h =
      update_variables-IsDict d _ (insert-IsDict k v m.variables h)

  copy_variables-IsDict :
      (d : Dict V) (e : Entity V) → IsDict e.variables → IsDict (copy_variables d e).variables
  unfolding copy_variables set_variable
  copy_variables-IsDict [] e h = h
  copy_variables-IsDict ((k, v) ∷ d) e h =
      copy_variables-IsDict d _ (insert-IsDict k v e.variables h)

  variables-copy_properties :
      (d : Dict V) (e : Entity V) → (copy_properties d e).variables ≡ e.variables
  unfolding copy_properties set_property
  variables-copy_properties [] e = refl
  variables-copy_properties ((k, v) ∷ d) e = variables-copy_properties d (set_property k v e)

  variables-finalize : (e : Entity V) → (finalize e).variables ≡ e.variables
  unfolding finalize
  variables-finalize e = elim (Option-cases (last? e.statistics)) [
    | inl p ↦ rw (p, finalize) refl
    | inr (row, p) ↦ rw (p, finalize) refl
  ]

  interrogate-ready : (m : Monitor V) (e : Entity V) → interrogate m ≡ some e → m.ready ≡ some true
  unfolding interrogate
  interrogate-ready m e h = ground arith

  interrogates : (m : Monitor V) → m.ready ≡ some true → (e : Entity V) × (interrogate m ≡ some e)
  unfolding interrogate
  interrogates m h = rw (h, interrogate) ((_, refl))

  variables-interrogate :
      (m : Monitor V) (e : Entity V)
      → interrogate m ≡ some e
      → e.variables
        ≡ (copy_variables m.variables
            (copy_properties m.properties (new_entity (valid_fields m)))).variables
  unfolding interrogate set_statistics
  variables-interrogate m e h =
      subst
        (λ (e : Entity V).
          e.variables
          ≡ (copy_variables m.variables
              (copy_properties m.properties (new_entity (valid_fields m)))).variables)
        (some-injective _ _ (rw (interrogate-ready m e h, interrogate) at h)) (variables-finalize _)

  lookup-interrogate :
      (j : String) (m : Monitor V) (e : Entity V)
      → IsDict m.variables
      → interrogate m ≡ some e
      → lookup j e.variables ≡ lookup j m.variables
  unfolding lookup new_entity
  lookup-interrogate j m e unique h =
      let start = new_entity (valid_fields m) in
      ap (lookup j) (variables-interrogate m e h)
      ∙ lookup-copy_variables j m.variables (copy_properties m.properties start) unique
      ∙ ground (arith, ap (lookup j) (variables-copy_properties m.properties start))

  -- If every variable of a monitor stands there once and the monitor gives a snapshot, then after a
  -- variable of the snapshot is set and the variables are stored back, the next snapshot has the
  -- new value under that name, and under any other name what the first one had.
  pub get_var-store_variables :
      (k j : String) (v : V) (m : Monitor V) (e : Entity V)
      → IsDict m.variables
      → interrogate m ≡ some e
      → (next : Entity V) × (interrogate (store_variables (set_var k v e) m) ≡ some next)
        × (get_var j next ≡ (if str_eq k j then some v else get_var j e))
  unfolding interrogate store_variables get_var set_var new_entity
  get_var-store_variables k j v m e unique h =
      let d = insert k v e.variables in
      let after = update_variables d m in
      let ready = ready-update_variables d m ∙ interrogate-ready m e h in
      let unique_d = insert-IsDict k v e.variables (
        subst IsDict (sym (variables-interrogate m e h)) (
          copy_variables-IsDict m.variables _
            (subst IsDict (sym (variables-copy_properties m.properties _)) tt))) in
      let (next, found) = interrogates after ready in
      (
        next,
        found,
        ground (
          arith,
          lookup-interrogate j after next (update_variables-IsDict d m unique) found,
          lookup-update_variables j d m unique_d,
          lookup-insert k j v e.variables,
          lookup-interrogate j m e unique h,
        ),
      )
