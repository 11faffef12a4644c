-- ===== src/Controllers/Settled.antt =====
-- Proofs about the controllers of mom/Controllers: what they send, and when they send it again.
pub mod Tests
use mom_perf_fair_scheduler.Common.{
  String, ◌≡◌, refl, ap, inl, inr, Bool, true, false, Option, none, some, List, [], ◌∷◌, ◌++◌,
  arith, if◌then◌else◌, Dict, lookup, Bool-cases, Option-cases,
}
use mathlib.Core.List.{append_assoc}
use mom_perf_fair_scheduler.Common.Texts.{join}
use mom_perf_fair_scheduler.Entity.{Entity, get_control}
use mom_perf_fair_scheduler.Controllers.{
  Command, process, ksm_change, ksm_changes, ksm_command, ksm_process,
}

module _ {V : Type 0} (same : V → V → Bool) (same_refl : (v : V) → same v v ≡ true) where
  -- A round after which the other keys are settled leaves its own key settled too.
  ksm_change_again :
      (control : String → Option V) (o : Option V) (key : String) (old : V) (r : Dict V × Dict V)
      → control (join "" ("ksm_" ∷ key ∷ [])) ≡ o
      → ksm_changes same control r.1 ≡ ([], r.1)
      → let after = (ksm_change same o key old r).1 in ksm_changes same control after ≡ ([], after)
  unfolding ksm_changes ksm_change
  ksm_change_again control none key old (outputs, cur) e h = rw (e, h) refl
  ksm_change_again control (some v) key old (outputs, cur) e h = elim (Bool-cases (same v old)) [
    | inl s ↦ rw (s, e, h, s) refl
    | inr s ↦ rw (s, e, h, same_refl v) refl
  ]

  ksm_changes_again :
      (control : String → Option V) (cur : Dict V)
      → let after = (ksm_changes same control cur).1 in ksm_changes same control after ≡ ([], after)
  unfolding ksm_changes
  ksm_changes_again control [] = refl
  ksm_changes_again control ((key, old) ∷ cur) =
      ksm_change_again control (control (join "" ("ksm_" ∷ key ∷ []))) key old
        (ksm_changes same control cur) refl (ksm_changes_again control cur)

  -- If every value is equal to itself, then a second run of the KSM controller on the same host
  -- sends nothing and changes nothing.
  pub ksm_process_again :
      (host : Entity V) (cur : Dict V)
      → let after = (ksm_process same host cur).1 in ksm_process same host after ≡ ([], after)
  unfolding ksm_process
  ksm_process_again host cur = rw (ksm_changes_again (λ k. get_control k host) cur) refl

module _ {V : Type 0} (process_guest : Entity V → Option (List (Command V))) where
  -- If a controller gets to the end of some guests without an exception, then for these and some
  -- further guests it sends what it sends for the first and then what it sends for the others.
  pub process-append :
      (guests others : List (Entity V))
      → (process process_guest guests).1 ≡ true
      → process process_guest (guests ++ others) ≡ (
        (process process_guest guests).0 ++ (process process_guest others).0,
        (process process_guest others).1,
      )
  unfolding process
  process-append [] others h = refl
  process-append (guest ∷ guests) others h = elim (Option-cases (process_guest guest)) [
    | inl e ↦ absurd (ground (arith, h, e))
    | inr (commands, e) ↦
        let rest = process-append guests others (rw (e, process) at h) in
        rw (e, process, rest, append_assoc) refl
  ]
