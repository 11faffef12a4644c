-- ===== src/Language/Balance.antt =====
-- Code that leaves the scopes of the caller alone: the rules for its parts.
pub mod Builtins
pub mod Evaluator
use mom_perf_fair_scheduler.Common.{
  ℕ, String, ◌≡◌, refl, sym, ap, drop, subst, ◌∙◌, Bool, true, false, Option, none, some, List, [],
  ◌∷◌, arith, length, if◌then◌else◌,
}
use mom_perf_fair_scheduler.Language.Action.{
  Error, Result, ok, err, Action, pure, raise, lift, from_option, map_action, for_each, ◌>>=◌, ◌>>◌,
  >>=-eq-ok,
}
use mom_perf_fair_scheduler.Language.Scopes.{Stack}
use mom_perf_fair_scheduler.Language.Scopes.Laws.{
  scope_names, outer, length-scope_names, scope_names-outer,
}
use mom_perf_fair_scheduler.Language.Handlers.{State}

-- The stack has as many scopes as before, and those below the innermost have their names.
pub record SameScopes {V H : Type 0} (s t : State V H) : Type 0 where
  pub depth : length t.stack ≡ length s.stack
  pub names : scope_names (outer t.stack) ≡ scope_names (outer s.stack)

pub SameScopes-refl : {V H : Type 0} (s : State V H) → SameScopes s s
SameScopes-refl s = record { depth = refl; names = refl }

pub SameScopes-trans :
    {V H : Type 0} {s t u : State V H} → SameScopes s t → SameScopes t u → SameScopes s u
SameScopes-trans p q = record { depth = q.depth ∙ p.depth; names = q.names ∙ p.names }

-- Whenever `m` returns, the scopes are the same.
pub record IsBalanced {V H A : Type 0} (m : Action (State V H) A) : Type 0 where
  pub at : (s t : State V H) (a : A) → m s ≡ some (ok a, t) → SameScopes s t

pub SameScopes-of_eq : {V H : Type 0} {s t : State V H} → s ≡ t → SameScopes s t
SameScopes-of_eq {s} p = subst (SameScopes s) p (SameScopes-refl s)

-- Where every scope has its names, the scopes are the same.
pub SameScopes-of_names :
    {V H : Type 0} (s t : State V H) → scope_names t.stack ≡ scope_names s.stack → SameScopes s t
SameScopes-of_names s t e = record {
  depth = sym (length-scope_names t.stack) ∙ ap length e ∙ length-scope_names s.stack;
  names = scope_names-outer t.stack ∙ ap (drop 1) e ∙ sym (scope_names-outer s.stack);
}

module _ {V H A : Type 0} where
  pub IsBalanced-lift : (r : Result A) → IsBalanced {V = V} {H = H} (lift r)
  IsBalanced-lift r = record { at = λ s t b h. SameScopes-of_eq (cc) }

  pub IsBalanced-pure : (a : A) → IsBalanced {V = V} {H = H} (pure a)
  IsBalanced-pure a = IsBalanced-lift (ok a)

  pub IsBalanced-raise : (e : Error) → IsBalanced {V = V} {H = H} {A = A} (raise e)
  IsBalanced-raise e = IsBalanced-lift (err e)

  pub IsBalanced-from_option :
      (e : Error) (o : Option A) → IsBalanced {V = V} {H = H} (from_option e o)
  IsBalanced-from_option e none = IsBalanced-lift (err e)
  IsBalanced-from_option e (some a) = IsBalanced-lift (ok a)

  pub IsBalanced-if :
      (b : Bool) (m n : Action (State V H) A)
      → IsBalanced m
      → IsBalanced n
      → IsBalanced (if b then m else n)
  IsBalanced-if true m n p q = p
  IsBalanced-if false m n p q = q

module _ {V H A B : Type 0} where
  pub IsBalanced-bind :
      (m : Action (State V H) A) (f : A → Action (State V H) B)
      → IsBalanced m
      → ((a : A) → IsBalanced (f a))
      → IsBalanced (m >>= f)
  IsBalanced-bind m f p q = record {
    at = λ s t b h.
        let (a, u, hm, hf) = >>=-eq-ok m f s b t h in
        SameScopes-trans (p.at s u a hm) ((q a).at u t b hf);
  }

module _ {V H A B : Type 0} where
  pub IsBalanced-map_action :
      (f : A → Action (State V H) B) (xs : List A)
      → ((a : A) → IsBalanced (f a))
      → IsBalanced (map_action f xs)
  unfolding map_action
  IsBalanced-map_action f [] p = IsBalanced-pure []
  IsBalanced-map_action f (x ∷ xs) p =
      IsBalanced-bind _ _ (p x)
        λ y. IsBalanced-bind _ _ (IsBalanced-map_action f xs p) λ ys. IsBalanced-pure (y ∷ ys)

  pub IsBalanced-for_each :
      (f : A → Action (State V H) B) (xs : List A)
      → ((a : A) → IsBalanced (f a))
      → IsBalanced (for_each f xs)
  unfolding for_each
  IsBalanced-for_each f [] p = IsBalanced-pure tt
  IsBalanced-for_each f (x ∷ xs) p = IsBalanced-bind _ _ (p x) λ y. IsBalanced-for_each f xs p

pub ruleset balance_rules = (
  IsBalanced-lift, IsBalanced-pure, IsBalanced-raise, IsBalanced-from_option, IsBalanced-if,
  IsBalanced-bind, IsBalanced-map_action, IsBalanced-for_each,
)
