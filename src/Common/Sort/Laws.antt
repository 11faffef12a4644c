-- ===== src/Common/Sort/Laws.antt =====
-- `sort` orders its members, keeps them, and does not depend on their first order where equal
-- members are one.
use Prim.Native.Nat.{suc}
use mathlib.Core.Path.{◌≡◌, refl, ap, ◌∙◌}
use mathlib.Core.Logic.{inl, inr}
use mathlib.Core.Bool.{Bool, true, false}
use mathlib.Core.List.{List, [], ◌∷◌, ◌++◌, reverse, reverse-append}
use native.Mathlib.Omega.{arith}
use mom_perf_fair_scheduler.Common.Tests.{if◌then◌else◌, Bool-cases}
use mom_perf_fair_scheduler.Common.Lists.{length, All, All-append}
use mom_perf_fair_scheduler.Common.Sort.{insert_sorted, sort}

-- A linear order as a Boolean test.
pub record IsOrder {A : Type 0} (leb : A → A → Bool) : Type 0 where
  pub total : (a b : A) → leb a b ≡ false → leb b a ≡ true
  pub trans : (a b c : A) → leb a b ≡ true → leb b c ≡ true → leb a c ≡ true

-- Each member stands before no smaller one.
abbrev pub IsSorted : {A : Type 0} → (A → A → Bool) → List A → Type 0
IsSorted leb [] = Unit
IsSorted leb (x ∷ xs) = All (λ y. leb x y ≡ true) xs × IsSorted leb xs

module _ {A : Type 0} (leb : A → A → Bool) where
  pub All-insert_sorted :
      (P : A → Type 0) (x : A) (xs : List A) → P x → All P xs → All P (insert_sorted leb x xs)
  unfolding insert_sorted
  All-insert_sorted P x [] h k = (h, tt)
  All-insert_sorted P x (y ∷ ys) h k = elim (Bool-cases (leb x y)) [
    | inl e ↦ rw e (h, (k.0, k.1))
    | inr e ↦ rw e (k.0, All-insert_sorted P x ys h k.1)
  ]

  -- What all members have, the members of the sorted list have.
  pub All-sort : (P : A → Type 0) (xs : List A) → All P xs → All P (sort leb xs)
  unfolding sort
  All-sort P [] h = tt
  All-sort P (x ∷ xs) h = All-insert_sorted P x (sort leb xs) h.0 (All-sort P xs h.1)

  length-insert_sorted : (x : A) (xs : List A) → length (insert_sorted leb x xs) ≡ suc (length xs)
  unfolding insert_sorted
  length-insert_sorted x [] = refl
  length-insert_sorted x (y ∷ ys) = ground (arith, length-insert_sorted x ys)

  pub length-sort : (xs : List A) → length (sort leb xs) ≡ length xs
  unfolding sort
  length-sort [] = refl
  length-sort (x ∷ xs) = length-insert_sorted x (sort leb xs) ∙ ap suc (length-sort xs)

  module _ (order : IsOrder leb) where
    below-All :
        (x y : A) (ys : List A)
        → leb x y ≡ true
        → All (λ z. leb y z ≡ true) ys
        → All (λ z. leb x z ≡ true) ys
    below-All x y [] h k = tt
    below-All x y (z ∷ zs) h k = (order.trans x y z h k.0, below-All x y zs h k.1)

    insert_sorted-IsSorted :
        (x : A) (xs : List A) → IsSorted leb xs → IsSorted leb (insert_sorted leb x xs)
    unfolding insert_sorted
    insert_sorted-IsSorted x [] h = (tt, tt)
    insert_sorted-IsSorted x (y ∷ ys) h = elim (Bool-cases (leb x y)) [
      | inl e ↦ rw e ((e, below-All x y ys e h.0), h)
      | inr e ↦ rw e (
        All-insert_sorted (λ z. leb y z ≡ true) x ys (order.total x y e) h.0,
        insert_sorted-IsSorted x ys h.1,
      )
    ]

    pub sort-IsSorted : (xs : List A) → IsSorted leb (sort leb xs)
    unfolding sort
    sort-IsSorted [] = tt
    sort-IsSorted (x ∷ xs) = insert_sorted-IsSorted x (sort leb xs) (sort-IsSorted xs)

    module _ (antisym : (a b : A) → leb a b ≡ true → leb b a ≡ true → a ≡ b) where
      insert_comm :
          (x y : A) (zs : List A)
          → insert_sorted leb x (insert_sorted leb y zs)
            ≡ insert_sorted leb y (insert_sorted leb x zs)
      unfolding insert_sorted
      insert_comm x y [] = ground (arith, order.total x y, order.total y x, antisym x y)
      insert_comm x y (z ∷ zs) = ground (
        arith,
        order.total x y,
        order.total y x,
        antisym x y,
        insert_comm x y zs,
        order.total x z,
        order.total y z,
        order.trans x y z,
        order.trans y x z,
        antisym x z,
        antisym y z,
        order.trans y z x,
        order.trans x z y,
      )

      -- A member may stand anywhere.
      pub sort-middle :
          (x : A) (xs ys : List A)
          → sort leb (xs ++ x ∷ ys) ≡ insert_sorted leb x (sort leb (xs ++ ys))
      unfolding sort
      sort-middle x [] ys = refl
      sort-middle x (y ∷ xs) ys =
          ap (insert_sorted leb y) (sort-middle x xs ys) ∙ insert_comm y x (sort leb (xs ++ ys))

-- The other end first.
abbrev pub flip : {A : Type 0} → (A → A → Bool) → A → A → Bool
flip leb a b = leb b a

module _ {A : Type 0} where
  All-insert_sorted_inv :
      (leb : A → A → Bool) (P : A → Type 0) (x : A) (xs : List A)
      → All P (insert_sorted leb x xs)
      → P x × All P xs
  unfolding insert_sorted
  All-insert_sorted_inv leb P x [] h = h
  All-insert_sorted_inv leb P x (y ∷ ys) h = elim (Bool-cases (leb x y)) [
    | inl e ↦ let k : P x × (P y × All P ys) = (rw (e, if◌then◌else◌) at h) in k
    | inr e ↦
        let k : P y × All P (insert_sorted leb x ys) = (rw e at h) in
        let (px, pys) = All-insert_sorted_inv leb P x ys k.1 in (px, (k.0, pys))
  ]

  -- What all members of the sorted list have, all members have.
  pub All-unsort :
      (leb : A → A → Bool) (P : A → Type 0) (xs : List A) → All P (sort leb xs) → All P xs
  unfolding sort
  All-unsort leb P [] h = tt
  All-unsort leb P (x ∷ xs) h =
      let (px, rest) = All-insert_sorted_inv leb P x (sort leb xs) h in
      (px, All-unsort leb P xs rest)

  pub All-reverse : (P : A → Type 0) (xs : List A) → All P xs → All P (reverse xs)
  All-reverse P [] h = tt
  All-reverse P (x ∷ xs) h =
      rw (reverse-append (x ∷ []) xs)
        (All-append P (reverse xs) (x ∷ []) (All-reverse P xs h.1) (h.0, tt))

  IsSorted-snoc :
      (leb : A → A → Bool) (xs : List A) (x : A)
      → IsSorted leb xs
      → All (λ y. leb y x ≡ true) xs
      → IsSorted leb (xs ++ x ∷ [])
  IsSorted-snoc leb [] x h k = (tt, tt)
  IsSorted-snoc leb (y ∷ ys) x h k =
      (All-append (λ z. leb y z ≡ true) ys (x ∷ []) h.0 (k.0, tt), IsSorted-snoc leb ys x h.1 k.1)

  pub reverse-IsSorted :
      (leb : A → A → Bool) (xs : List A) → IsSorted leb xs → IsSorted (flip leb) (reverse xs)
  reverse-IsSorted leb [] h = tt
  reverse-IsSorted leb (x ∷ xs) h = rw (reverse-append (x ∷ []) xs) (
      IsSorted-snoc (flip leb) (reverse xs) x (reverse-IsSorted leb xs h.1)
        (All-reverse (λ y. leb x y ≡ true) xs h.0))
