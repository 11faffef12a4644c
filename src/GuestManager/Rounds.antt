-- ===== src/GuestManager/Rounds.antt =====
-- Which guests the manager of mom/GuestManager.py tracks after a whole round: the new ones are
-- spawned first, and then all are checked.
use mom_perf_fair_scheduler.Common.{
  String, ◌≡◌, Bool, true, not, ◌&&◌, Option, none, some, List, if◌then◌else◌, lookup, has_key,
  contains, str_eq,
}
use mom_perf_fair_scheduler.Common.Keys.{IsDict}
use mom_perf_fair_scheduler.Monitor.{Monitor}
use mom_perf_fair_scheduler.GuestManager.{
  Guest, Manager, Answer, told, not_told, fails, is_running, create_monitor,
}

module _ {V : Type 0} where
  module _ {Info : Type 0} (get_vm_info : String → Answer Info) (new_monitor : Info → Monitor V)
      (threaded : Bool) (is_alive : Info → Bool) where
    -- The guest that is started under a name: the hypervisor knows it, and it runs.
    abbrev pub when_running : Guest V → Option (Guest V)
    when_running g = if is_running g then some g else none

    abbrev pub started_of : Answer Info → Option (Guest V)
    started_of fails = none
    started_of not_told = none
    started_of (told info) =
        when_running (create_monitor get_vm_info new_monitor threaded is_alive info)

    abbrev pub started : String → Option (Guest V)
    started id = started_of (get_vm_info id)

    -- The guest of a name after the spawning: the old one, or else one that is started if asked for.
    abbrev pub or_started : Bool → String → Option (Guest V) → Option (Guest V)
    or_started listed id (some g) = some g
    or_started listed id none = if listed then started id else none

    -- A round of the loop where the hypervisor raises nothing: it ends, leaves a dictionary, and
    -- starts the guest if its name has none.
    abbrev Spawned : String → Bool × Manager V → Manager V → Option (Guest V) → Type 0
    Spawned id (ended, m') m g =
        (ended ≡ true)
        × (IsDict m.guests → IsDict m'.guests)
        × ((other : String)
            → lookup other m'.guests
              ≡ (if str_eq id other && not (has_key id m.guests) then g else lookup other m.guests))

    -- The loop.
    abbrev SpawnedAll : List String → Bool × Manager V → Manager V → Type 0
    SpawnedAll ids (ended, m') m =
        (ended ≡ true)
        × IsDict m'.guests
        × ((other : String)
            → lookup other m'.guests
              ≡ or_started (contains other ids) other (lookup other m.guests))
