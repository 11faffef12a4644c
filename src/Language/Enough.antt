-- ===== src/Language/Enough.antt =====
-- The fuel that code of mom/Policy/Parser.py needs: actions that end, and the rules for their parts.
pub mod Measure
pub mod Builtins
pub mod Evaluator
use mom_perf_fair_scheduler.Common.{
  ◌≡◌, refl, Bool, true, false, Option, none, some, List, [], ◌∷◌, if◌then◌else◌, All, ◌⊎◌, inl,
  inr,
}
use mom_perf_fair_scheduler.Language.Action.{
  Error, Result, ok, err, Action, pure, raise, lift, from_option, and_then, map_action, for_each,
  ◌>>=◌, ◌>>◌,
}
use mom_perf_fair_scheduler.Language.Handlers.{State}

-- What holds of the value of a result, if it is one.
abbrev pub Holds : {A : Type 0} → (A → Type 0) → Result A → Type 0
Holds Q (ok a) = Q a
Holds Q (err e) = Unit

pub Result-cases :
    {A : Type 0} (r : Result A) → ((a : A) × (r ≡ ok a)) ⊎ ((e : Error) × (r ≡ err e))
Result-cases (ok a) = inl (a, refl)
Result-cases (err e) = inr (e, refl)

-- Where the state has no functions of the policy, `m` ends, with none in the state then either, and
-- `Q` holds of its value.
pub record IsReturning {V H A : Type 0} (Q : A → Type 0) (m : Action (State V H) A) : Type 0 where
  pub at :
      (s : State V H)
      → s.funcs ≡ []
      → (r : Result A) × (t : State V H) × (m s ≡ some (r, t)) × (t.funcs ≡ []) × Holds Q r

-- Any value.
abbrev pub Any : {A : Type 0} → A → Type 0
Any a = Unit

pub Holds-Any : {A : Type 0} (r : Result A) → Holds Any r
Holds-Any (ok a) = tt
Holds-Any (err e) = tt

module _ {V H A : Type 0} {Q : A → Type 0} where
  pub IsReturning-lift : (r : Result A) → Holds Q r → IsReturning {V = V} {H = H} Q (lift r)
  IsReturning-lift r q = record { at = λ s h. (r, s, refl, h, q) }

  pub IsReturning-pure : (a : A) → Q a → IsReturning {V = V} {H = H} Q (pure a)
  IsReturning-pure a q = IsReturning-lift (ok a) q

  pub IsReturning-raise : (e : Error) → IsReturning {V = V} {H = H} Q (raise e)
  IsReturning-raise e = IsReturning-lift (err e) tt

  pub IsReturning-from_option :
      (e : Error) (o : Option A)
      → ((a : A) → o ≡ some a → Q a)
      → IsReturning {V = V} {H = H} Q (from_option e o)
  IsReturning-from_option e none q = IsReturning-lift (err e) tt
  IsReturning-from_option e (some a) q = IsReturning-lift (ok a) (q a refl)

  pub IsReturning-if :
      (b : Bool) (m n : Action (State V H) A)
      → IsReturning Q m
      → IsReturning Q n
      → IsReturning Q (if b then m else n)
  IsReturning-if true m n p q = p
  IsReturning-if false m n p q = q

module _ {V H A : Type 0} where
  -- Where nothing is said of the value.
  pub IsReturning-Any : (r : Result A) → IsReturning {V = V} {H = H} Any (lift r)
  IsReturning-Any r = IsReturning-lift r (Holds-Any r)

module _ {V H A B : Type 0} {P : A → Type 0} {Q : B → Type 0} where
  and_then-returns :
      (o : Option (Result A × State V H)) (f : A → Action (State V H) B) (r : Result A)
      (u : State V H)
      → o ≡ some (r, u)
      → u.funcs ≡ []
      → Holds P r
      → ((a : A) → P a → IsReturning Q (f a))
      → (r' : Result B) × (t : State V H) × (and_then o f ≡ some (r', t))
        × (t.funcs ≡ [])
        × Holds Q r'
  and_then-returns o f (ok a) u e h p q = rw e ((q a p).at u h)
  and_then-returns o f (err x) u e h p q = rw e (err x, u, refl, h, tt)

  pub IsReturning-bind :
      (m : Action (State V H) A) (f : A → Action (State V H) B)
      → IsReturning P m
      → ((a : A) → P a → IsReturning Q (f a))
      → IsReturning Q (m >>= f)
  unfolding ◌>>=◌
  IsReturning-bind m f p q = record {
    at = λ s h. let (r, u, e, k, holds) = p.at s h in and_then-returns (m s) f r u e k holds q;
  }

module _ {V H A B : Type 0} {G : A → Type 0} (f : A → Action (State V H) B) where
  pub IsReturning-map_action :
      {P : B → Type 0} (xs : List A)
      → All G xs
      → ((a : A) → G a → IsReturning P (f a))
      → IsReturning (All P) (map_action f xs)
  unfolding map_action
  IsReturning-map_action [] g p = IsReturning-pure [] tt
  IsReturning-map_action (x ∷ xs) g p = IsReturning-bind _ _ (p x g.0) λ y hy.
      IsReturning-bind _ _ (IsReturning-map_action xs g.1 p)
        λ ys hys. IsReturning-pure (y ∷ ys) (hy, hys)

  pub IsReturning-for_each :
      (xs : List A)
      → All G xs
      → ((a : A) → G a → IsReturning Any (f a))
      → IsReturning Any (for_each f xs)
  unfolding for_each
  IsReturning-for_each [] g p = IsReturning-pure tt tt
  IsReturning-for_each (x ∷ xs) g p =
      IsReturning-bind _ _ (p x g.0) λ y hy. IsReturning-for_each xs g.1 p

pub All-Any : {A : Type 0} (xs : List A) → All Any xs
All-Any [] = tt
All-Any (x ∷ xs) = (tt, All-Any xs)
