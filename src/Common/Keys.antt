-- ===== src/Common/Keys.antt =====
-- Dictionaries in which every name stands once, and what changes of one name do to the names.
use Prim.Native.String.{String}
use mathlib.Core.Path.{ap}
use mathlib.Core.List.{List, ◌++◌}
use mathlib.Core.Option.{some}
use mom_perf_fair_scheduler.Common.Dicts.{keys}
use mathlib.Core.Path.{◌≡◌, refl}
use mathlib.Core.Logic.{inl, inr}
use mathlib.Core.List.{[], ◌∷◌}
use mathlib.Core.Bool.{false}
use native.Mathlib.Omega.{arith}
use text.Mathlib.Text.{◌==◌ as str_eq}
use text.Mathlib.TextEquality.{eq_iff}
use mom_perf_fair_scheduler.Common.Tests.{Bool-cases}
use mom_perf_fair_scheduler.Common.Dicts.{
  Dict, lookup, insert, remove, has_key, lookup-insert, lookup-remove,
}

-- No name stands in the dictionary twice.
abbrev pub IsDict : {V : Type 0} → Dict V → Type 0
IsDict [] = Unit
IsDict ((k, v) ∷ d) = (has_key k d ≡ false) × IsDict d

module _ {V : Type 0} where
  pub insert-IsDict : (k : String) (v : V) (d : Dict V) → IsDict d → IsDict (insert k v d)
  unfolding insert lookup
  insert-IsDict k v [] h = (refl, tt)
  insert-IsDict k v ((j, w) ∷ d) h = elim (Bool-cases (str_eq j k)) [
    | inl e ↦ rw e (rw ((eq_iff j k).0 e) at h)
    | inr e ↦ rw e (
      ground (arith, e, eq_iff k j, eq_iff j k, lookup-insert k j v d, h.0),
      insert-IsDict k v d h.1,
    )
  ]

  pub remove-IsDict : (k : String) (d : Dict V) → IsDict d → IsDict (remove k d)
  unfolding remove lookup
  remove-IsDict k [] h = tt
  remove-IsDict k ((j, w) ∷ d) h = elim (Bool-cases (str_eq j k)) [
    | inl e ↦ rw e (remove-IsDict k d h.1)
    | inr e ↦
        rw e (
          ground (arith, e, eq_iff k j, eq_iff j k, lookup-remove k j d, h.0),
          remove-IsDict k d h.1,
        )
  ]

module _ {V : Type 0} where
  -- To remove a name that is not there changes nothing.
  pub remove_absent : (k : String) (d : Dict V) → has_key k d ≡ false → remove k d ≡ d
  unfolding remove lookup
  remove_absent k [] h = refl
  remove_absent k ((j, w) ∷ d) h = ground (arith, eq_iff j k, remove_absent k d)

  pub remove-insert :
      (k : String) (v : V) (d : Dict V) → has_key k d ≡ false → remove k (insert k v d) ≡ d
  unfolding remove insert lookup
  remove-insert k v [] h = ground (arith, eq_iff k k)
  remove-insert k v ((j, w) ∷ d) h = ground (arith, eq_iff j k, remove-insert k v d)

  pub insert-insert :
      (k : String) (v w : V) (d : Dict V) → lookup k d ≡ some w → insert k w (insert k v d) ≡ d
  unfolding insert lookup
  insert-insert k v w [] h = absurd (ground arith)
  insert-insert k v w ((j, u) ∷ d) h = ground (arith, eq_iff j k, eq_iff k k, insert-insert k v w d)

  -- Where a name stands among the others, and the names without it.
  pub keys-remove :
      (k : String) (w : V) (d : Dict V)
      → IsDict d
      → lookup k d ≡ some w
      → (xs : List String) × (ys : List String) × (keys d ≡ xs ++ k ∷ ys)
        × (keys (remove k d) ≡ xs ++ ys)
  unfolding remove lookup
  keys-remove k w [] u h = absurd (ground arith)
  keys-remove k w ((j, u) ∷ d) unique h = elim (Bool-cases (str_eq j k)) [
    | inl e ↦ (
      [],
      keys d,
      ap (λ (i : String). i ∷ keys d) ((eq_iff j k).0 e),
      rw e (ap keys (remove_absent k d (rw ((eq_iff j k).0 e) at (unique.0)))),
    )
    | inr e ↦
        let (xs, ys, p, q) = keys-remove k w d unique.1 (ground (arith, h, e)) in
        (j ∷ xs, ys, ap (λ r. j ∷ r) p, rw e (ap (λ r. j ∷ r) q))
  ]

  pub keys-insert_new :
      (k : String) (v : V) (d : Dict V)
      → has_key k d ≡ false
      → keys (insert k v d) ≡ keys d ++ k ∷ []
  unfolding insert lookup
  keys-insert_new k v [] h = refl
  keys-insert_new k v ((j, w) ∷ d) h = ground (arith, eq_iff j k, keys-insert_new k v d)
