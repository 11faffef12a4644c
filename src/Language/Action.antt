-- ===== src/Language/Action.antt =====
-- Python code that changes a state and may raise. What was written before a raise stays written,
-- so the state comes back beside the error too. `none` says that the fuel ran out.
use mom_perf_fair_scheduler.Common.{◌≡◌, refl, Option, none, some, List, [], ◌∷◌, arith}

-- The exceptions that the policy code raises, by class.
pub data Error : Type 0 where
  policy_error key_error index_error attribute_error type_error unbound_local other : Error

pub data Result {ℓ} (A : Type ℓ) : Type ℓ where
  ok : A → Result A
  err : Error → Result A

abbrev pub Action : Type 0 → Type 0 → Type 0
Action S A = S → Option (Result A × S)

module _ {S A : Type 0} where
  abbrev pub pure : A → Action S A
  pure a s = some (ok a, s)

  abbrev pub raise : Error → Action S A
  raise e s = some (err e, s)

  -- A primitive that reads nothing and writes nothing.
  abbrev pub lift : Result A → Action S A
  lift r s = some (r, s)

  abbrev pub from_option : Error → Option A → Action S A
  from_option e none s = some (err e, s)
  from_option e (some a) s = some (ok a, s)

module _ {S A B : Type 0} where
  abbrev pub and_then : Option (Result A × S) → (A → Action S B) → Option (Result B × S)
  and_then none f = none
  and_then (some (ok a, s)) f = f a s
  and_then (some (err e, s)) f = some (err e, s)

  infixl 5 ◌>>=◌ ◌>>◌
  unfoldable pub ◌>>=◌ : Action S A → (A → Action S B) → Action S B
  ◌>>=◌ m f s = and_then (m s) f

  abbrev pub ◌>>◌ : Action S A → Action S B → Action S B
  m >> n = m >>= λ _. n

module _ {S A B : Type 0} where
  -- `map(f, xs)`, from the left
  unfoldable pub map_action : (A → Action S B) → List A → Action S (List B)
  map_action f [] = pure []
  map_action f (x ∷ xs) = do y ← f x; ys ← map_action f xs; pure (y ∷ ys)

  -- `for x in xs: f(x)`
  unfoldable pub for_each : (A → Action S B) → List A → Action S (Unit {0})
  for_each f [] = pure tt
  for_each f (x ∷ xs) = do f x; for_each f xs

  and_then_ok :
      (o : Option (Result A × S)) (f : A → Action S B) (b : B) (t : S)
      → and_then o f ≡ some (ok b, t)
      → (a : A) × (u : S) × (o ≡ some (ok a, u)) × (f a u ≡ some (ok b, t))
  and_then_ok none f b t h = cc
  and_then_ok (some (ok a, u)) f b t h = (a, u, refl, h)
  and_then_ok (some (err e, u)) f b t h = ground arith

  -- Inversion of a chain that ended well.
  pub >>=-eq-ok :
      (m : Action S A) (f : A → Action S B) (s : S) (b : B) (t : S)
      → (m >>= f) s ≡ some (ok b, t)
      → (a : A) × (u : S) × (m s ≡ some (ok a, u)) × (f a u ≡ some (ok b, t))
  unfolding ◌>>=◌
  >>=-eq-ok m f s b t h = and_then_ok (m s) f b t h
