-- ===== src/Monitor/Collect.antt =====
-- Proofs about `Monitor.collect` of mom/Monitor.py: what a round leaves behind, and how long the
-- history grows.
use mom_perf_fair_scheduler.Common.{
  is_some, not, ℕ, ◌≤◌, ◌<◌, ◌≡◌, refl, ◌∙◌, inl, inr, Bool, true, false, ◌||◌, Option, none, some,
  List, [], ◌∷◌, ◌++◌, arith, length, last?, last?-append, length-append, length-drop, ltb,
  Bool-cases,
}
use mom_perf_fair_scheduler.Entity.{Row}
use mom_perf_fair_scheduler.Monitor.{
  Declared, Outcome, collected, no_data, collection_error, unexpected_error, fatal_error, Monitor,
  merge, merge_all, has_all, default_fields, push_history, name_fields, store_row, collect, or_else,
}

module _ {V : Type 0} where
  push_history-bound :
      (history : ℕ) (row : Row V) (rows : List (Row V))
      → length rows ≤ history
      → length (push_history history row rows) ≤ history
  unfolding push_history
  push_history-bound history row rows h =
      let longer = rows ++ row ∷ [] in
      elim (Bool-cases (ltb history (length longer))) [
        | inl e ↦ rw e (omega (arith, h, length-drop 1 longer, length-append rows (row ∷ [])))
        | inr e ↦ let few : length longer ≤ history = ground (arith, e) in rw e few
      ]

  store_row-history :
      (history : ℕ) (o : Option (Row V)) (m : Monitor V)
      → length m.statistics ≤ history
      → length (store_row history o m).1.statistics ≤ history
  unfolding store_row
  store_row-history history none m h = h
  store_row-history history (some r) m h = elim (Bool-cases (has_all (or_else [] m.fields) r)) [
    | inl e ↦ rw e (push_history-bound history _ m.statistics h)
    | inr e ↦ rw e h
  ]

  -- A history that is no longer than the configured length is no longer than it after a round.
  pub collect-history :
      (collectors : List Declared) (history : ℕ) (outcomes : List (Outcome V)) (m : Monitor V)
      → length m.statistics ≤ history
      → length (collect collectors history outcomes m).1.statistics ≤ history
  unfolding collect name_fields
  collect-history collectors history outcomes m h =
      store_row-history history (merge_all outcomes []) (name_fields collectors m) h

  last?-push_history :
      (history : ℕ) (row : Row V) (rows : List (Row V))
      → 0 < history
      → last? (push_history history row rows) ≡ some row
  unfolding push_history
  last?-push_history history row [] h = ground arith
  last?-push_history history row (r ∷ rs) h =
      elim (Bool-cases (ltb history (length (r ∷ rs ++ row ∷ [])))) [
        | inl e ↦ rw e (last?-append rs row)
        | inr e ↦ rw e (last?-append (r ∷ rs) row)
      ]

  -- What a round leaves, with a row and without.
  abbrev pub Ended : Monitor V → Option (Row V) × Monitor V → Type 0
  Ended m (result, m') =
      ((row : Row V)
        → result ≡ some row
        → (m'.ready ≡ some true) × (last? m'.statistics ≡ some row))
      × (result ≡ none → (m'.ready ≡ some false) × (m'.statistics ≡ m.statistics))

  store_row-Ended :
      (history : ℕ) (o : Option (Row V)) (m : Monitor V)
      → 0 < history
      → Ended m (store_row history o m)
  unfolding store_row
  store_row-Ended history none m h = ((λ row e. absurd (ground arith)), (λ e. (refl, refl)))
  store_row-Ended history (some r) m h =
      let full = default_fields (or_else [] m.optional_fields) r in
      let pushed = last?-push_history history full m.statistics h in
      elim (Bool-cases (has_all (or_else [] m.fields) r)) [
        | inl e ↦ rw e ((λ row k. (refl, ground (arith, k, pushed))), (λ k. absurd (ground arith)))
        | inr e ↦ rw e ((λ row k. absurd (ground arith)), (λ k. (refl, refl)))
      ]

  collect-Ended :
      (collectors : List Declared) (history : ℕ) (outcomes : List (Outcome V)) (m : Monitor V)
      → 0 < history
      → Ended m (collect collectors history outcomes m)
  unfolding collect name_fields
  collect-Ended collectors history outcomes m h =
      store_row-Ended history (merge_all outcomes []) (name_fields collectors m) h

  -- If the history may hold a row, then a round that returns a row makes the monitor ready, and the
  -- row the newest of its history.
  pub collect_returned :
      (collectors : List Declared) (history : ℕ) (outcomes : List (Outcome V)) (m : Monitor V)
      (row : Row V)
      → 0 < history
      → (collect collectors history outcomes m).0 ≡ some row
      → ((collect collectors history outcomes m).1.ready ≡ some true)
        × (last? (collect collectors history outcomes m).1.statistics ≡ some row)
  collect_returned collectors history outcomes m row h e =
      (collect-Ended collectors history outcomes m h).0 row e

  -- If the history may hold a row, then a round that returns no row makes the monitor not ready and
  -- leaves its history.
  collect_skipped :
      (collectors : List Declared) (history : ℕ) (outcomes : List (Outcome V)) (m : Monitor V)
      → 0 < history
      → (collect collectors history outcomes m).0 ≡ none
      → ((collect collectors history outcomes m).1.ready ≡ some false)
        × ((collect collectors history outcomes m).1.statistics ≡ m.statistics)
  collect_skipped collectors history outcomes m h e =
      (collect-Ended collectors history outcomes m h).1 e

  -- Whether a collector failed for good.
  unfoldable pub has_fatal : List (Outcome V) → Bool
  has_fatal [] = false
  has_fatal (fatal_error ∷ outcomes) = true
  has_fatal (_ ∷ outcomes) = has_fatal outcomes

  merge_all-has_fatal :
      (outcomes : List (Outcome V)) (row : Row V)
      → is_some (merge_all outcomes row) ≡ not (has_fatal outcomes)
  unfolding merge_all has_fatal
  merge_all-has_fatal [] row = refl
  merge_all-has_fatal (collected items ∷ outcomes) row =
      merge_all-has_fatal outcomes (merge items row)
  merge_all-has_fatal (no_data ∷ outcomes) row = merge_all-has_fatal outcomes row
  merge_all-has_fatal (collection_error ∷ outcomes) row = merge_all-has_fatal outcomes row
  merge_all-has_fatal (unexpected_error ∷ outcomes) row = merge_all-has_fatal outcomes row
  merge_all-has_fatal (fatal_error ∷ outcomes) row = refl

  store_row-terminated :
      (history : ℕ) (o : Option (Row V)) (m : Monitor V)
      → (store_row history o m).1.terminated ≡ (m.terminated || not (is_some o))
  unfolding store_row
  store_row-terminated history none m = ground arith
  store_row-terminated history (some r) m = ground arith

  -- After a round the monitor is told to end exactly where it was before or a collector failed for
  -- good.
  pub collect-terminated :
      (collectors : List Declared) (history : ℕ) (outcomes : List (Outcome V)) (m : Monitor V)
      → (collect collectors history outcomes m).1.terminated ≡ (m.terminated || has_fatal outcomes)
  unfolding collect name_fields
  collect-terminated collectors history outcomes m =
      store_row-terminated history (merge_all outcomes []) (name_fields collectors m)
      ∙ ground (arith, merge_all-has_fatal outcomes [])
