-- ===== src/GuestManager/Tracking.antt =====
-- Which guests the manager of mom/GuestManager.py tracks after a round.
use mom_perf_fair_scheduler.Common.{
  String, ◌≡◌, refl, ◌∙◌, Bool, false, not, inl, inr, ◌&&◌, Option, none, some, List, [], ◌∷◌,
  if◌then◌else◌, arith, Dict, lookup, contains, str_eq, eq_iff, lookup-remove, Option-cases,
}
use mom_perf_fair_scheduler.Common.Keys.{IsDict}
use mom_perf_fair_scheduler.GuestManager.{
  Guest, Manager, is_running, unregister_guest, check_guest, check_guests, check_guest_monitors,
}

module _ {V : Type 0} where
  -- Whether a guest stays: it runs, and the hypervisor lists it.
  abbrev pub stays : List String → String → Guest V → Bool
  stays domain_list id g = is_running g && contains id domain_list

  -- A guest of the dictionary that stays.
  abbrev pub keep : List String → String → Option (Guest V) → Option (Guest V)
  keep domain_list id none = none
  keep domain_list id (some g) = if stays domain_list id g then some g else none

  lookup-unregister_guest :
      (id other : String) (m : Manager V)
      → lookup other (unregister_guest id m).guests
        ≡ (if str_eq id other then none else lookup other m.guests)
  unfolding unregister_guest
  lookup-unregister_guest id other m = elim (Option-cases (lookup id m.guests)) [
    | inl e ↦ ground (arith, e, eq_iff id other)
    | inr (g, e) ↦ ground (arith, e, lookup-remove id other m.guests)
  ]

  lookup-check_guest :
      (domain_list : List String) (id other : String) (g : Guest V) (m : Manager V)
      → lookup other (check_guest domain_list id g m).guests
        ≡ (if str_eq id other && not (stays domain_list id g) then none else lookup other m.guests)
  unfolding check_guest is_running
  lookup-check_guest domain_list id other g m =
      ground (
        arith,
        lookup-unregister_guest id other m,
        lookup-remove id other m.guests,
        eq_iff id other,
      )

  -- Where one of the items has the name and does not stay, the name is gone.
  abbrev goes : List String → String → Option (Guest V) → Bool
  goes domain_list id none = false
  goes domain_list id (some g) = not (stays domain_list id g)

  lookup-check_guests :
      (domain_list : List String) (other : String) (items : Dict (Guest V)) (m : Manager V)
      → IsDict items
      → lookup other (check_guests domain_list items m).guests
        ≡ (if goes domain_list other (lookup other items) then none else lookup other m.guests)
  unfolding check_guests lookup
  lookup-check_guests domain_list other [] m d = refl
  lookup-check_guests domain_list other ((id, g) ∷ items) m d =
      lookup-check_guests domain_list other items (check_guest domain_list id g m) d.1
      ∙ ground (arith, lookup-check_guest domain_list id other g m, d.0, eq_iff id other)

  -- If every guest stands in the dictionary once, then after the check of a list of domains a name
  -- stands for the guest that it stood for, if that guest runs and the name is listed, and else for
  -- none.
  pub lookup-check_guest_monitors :
      (domain_list : List String) (id : String) (m : Manager V)
      → IsDict m.guests
      → lookup id (check_guest_monitors domain_list m).guests
        ≡ keep domain_list id (lookup id m.guests)
  unfolding check_guest_monitors
  lookup-check_guest_monitors domain_list id m d =
      lookup-check_guests domain_list id m.guests m d ∙ ground arith
