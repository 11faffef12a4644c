-- ===== src/Common/Sort.antt =====
-- Python's `sorted`, which is stable, by a Boolean comparison that puts a member before the later
-- ones that are not smaller.
pub mod Laws
use mathlib.Core.Bool.{Bool}
use mathlib.Core.List.{List, [], ◌∷◌}
use mom_perf_fair_scheduler.Common.Tests.{if◌then◌else◌}

module _ {A : Type 0} (leb : A → A → Bool) where
  unfoldable pub insert_sorted : A → List A → List A
  insert_sorted x [] = x ∷ []
  insert_sorted x (y ∷ ys) = if leb x y then x ∷ y ∷ ys else y ∷ insert_sorted x ys

  unfoldable pub sort : List A → List A
  unfolding insert_sorted
  sort [] = []
  sort (x ∷ xs) = insert_sorted x (sort xs)
