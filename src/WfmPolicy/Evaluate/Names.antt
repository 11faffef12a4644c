-- ===== src/WfmPolicy/Evaluate/Names.antt =====
-- Proofs about the names that a round of mom/Policy/WFMPolicy.py has seen.
use mom_perf_fair_scheduler.Common.{
  String, ◌≡◌, refl, true, false, List, [], ◌∷◌, arith, All, All-map, Dict, has_key, lookup, insert,
  lookup-insert, str_eq, eq_iff, Bool-cases, inl, inr,
}
use mom_perf_fair_scheduler.Number.{Number}
use mom_perf_fair_scheduler.RpPolicy.VmInfo.{Guest}
use mom_perf_fair_scheduler.WfmPolicy.Evaluate.{grow}

module _ (n : Number) where
  open n use {Num}

  -- The guests by their names.
  abbrev pub by_name : List (Guest n) → Dict (Guest n)
  by_name [] = []
  by_name (g ∷ guests) = (g.name, g) ∷ by_name guests

  -- Every name of the first dictionary stands in the second.
  abbrev pub Covers : Dict Num → Dict Num → Type 0
  Covers allocation d = All (λ (e : String × Num). has_key e.0 allocation ≡ true) d

  pub has_key-grow :
      (j name : String) (x : Num) (d : Dict Num) → has_key j (grow n name x d) ≡ has_key j d
  unfolding grow lookup
  has_key-grow j name x [] = refl
  has_key-grow j name x ((k, y) ∷ d) = ground (arith, has_key-grow j name x d)

  All-insert :
      (P : String × Num → Type 0) (k : String) (v : Num) (d : Dict Num)
      → P (k, v)
      → All P d
      → All P (insert k v d)
  unfolding insert
  All-insert P k v [] h all = (h, tt)
  All-insert P k v ((j, w) ∷ d) h all = elim (Bool-cases (str_eq j k)) [
    | inl e ↦ rw e (h, all.1)
    | inr e ↦ rw e (all.0, All-insert P k v d h all.1)
  ]

  pub Covers-insert :
      (k : String) (v w : Num) (allocation d : Dict Num)
      → Covers allocation d
      → Covers (insert k v allocation) (insert k w d)
  Covers-insert k v w allocation d h =
      All-insert _ k w d (ground (arith, lookup-insert k k v allocation, eq_iff k k)) (
        All-map _ _ d
          (λ (e : String × Num) (key : has_key e.0 allocation ≡ true).
            ground (arith, key, lookup-insert k e.0 v allocation))
          h)

  -- Names that are not in a dictionary are not in it after the insertion of another name.
  pub New-insert :
      (k : String) (v : Num) (d : Dict Num) (guests : List (Guest n))
      → has_key k (by_name guests) ≡ false
      → All (λ (g : Guest n). has_key g.name d ≡ false) guests
      → All (λ (g : Guest n). has_key g.name (insert k v d) ≡ false) guests
  unfolding lookup
  New-insert k v d [] h new = tt
  New-insert k v d (g ∷ guests) h new = (
    ground (arith, h, new.0, eq_iff k g.name, eq_iff g.name k, lookup-insert k g.name v d),
    New-insert k v d guests (ground (arith, h)) new.1,
  )

  pub New-empty :
      (guests : List (Guest n)) → All (λ (g : Guest n). has_key {V = Num} g.name [] ≡ false) guests
  unfolding lookup
  New-empty [] = tt
  New-empty (g ∷ guests) = (refl, New-empty guests)
