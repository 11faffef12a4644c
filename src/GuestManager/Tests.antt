-- ===== src/GuestManager/Tests.antt =====
-- A round of the guest manager with three guests, and the theorems about it at concrete inputs.
use mom_perf_fair_scheduler.Common.{
  String, ◌≡◌, refl, true, false, some, List, [], ◌∷◌, lookup, insert, remove, contains, str_eq,
  if◌then◌else◌,
}
use mom_perf_fair_scheduler.Monitor.{Monitor}
use mom_perf_fair_scheduler.GuestMonitor.{new_guest_monitor}
use mom_perf_fair_scheduler.GuestManager.{
  Guest, Manager, Answer, told, fails, check_guest_monitors, update_guests,
}
use mom_perf_fair_scheduler.GuestManager.Tracking.{keep, lookup-check_guest_monitors}

abbrev monitor_of : String → Monitor String
monitor_of name = new_guest_monitor (("name", name) ∷ []) "hypervisor" "1"

abbrev running : String → Guest String
running name = record { monitor = monitor_of name; thread = some true }

abbrev dead : Guest String
dead = record { monitor = monitor_of "two"; thread = some false }

-- The second guest has died, and the third is new.
abbrev manager : Manager String
manager = record { guests = ("1", running "one") ∷ ("2", dead) ∷ []; ended = [] }

abbrev domains : List String
domains = "1" ∷ "2" ∷ "3" ∷ []

-- The hypervisor knows the new guest, and raises an exception for any other name.
abbrev info : String → Answer String
info id = if str_eq id "3" then told "three" else fails

lookup-check_guest_monitors_example :
    lookup "2" (check_guest_monitors domains manager).guests
    ≡ keep domains "2" (lookup "2" manager.guests)
unfolding lookup
lookup-check_guest_monitors_example =
    lookup-check_guest_monitors domains "2" manager (refl, (refl, tt))

-- A guest that is gone when it is asked for ends the round before the dead one is removed.
gone_guest_runs :
    update_guests info monitor_of true (λ i. true) (some ("4" ∷ [])) manager ≡ (false, manager)
unfolding update_guests lookup contains
gone_guest_runs = refl

-- The new guest is there.
update_guests_runs :
    lookup "3" (update_guests info monitor_of true (λ i. true) (some domains) manager).1.guests
    ≡ some (running "three")
unfolding update_guests lookup contains insert remove new_guest_monitor
update_guests_runs = refl
