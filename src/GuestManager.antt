-- ===== src/GuestManager.antt =====
-- mom/GuestManager.py: the monitors of the guests that run. The semaphore makes each method one
-- step. Parameters are what the hypervisor does for a guest (`get_vm_info`), the monitor that is
-- made from it, and whether its thread is alive when the manager looks at it; the log and the
-- sleep between rounds are left out.
pub mod Tracking
pub mod Rounds
pub mod Tests
use mom_perf_fair_scheduler.Common.{
  ℕ, String, Bool, true, false, Option, none, some, List, [], ◌∷◌, ◌++◌, if◌then◌else◌, Dict,
  lookup, insert, remove, has_key, contains,
}
use mom_perf_fair_scheduler.Entity.{Entity}
use mom_perf_fair_scheduler.Monitor
use mom_perf_fair_scheduler.Monitor.{Monitor, Outcome, Declared, collect, is_ready, should_run}
use mom_perf_fair_scheduler.GuestMonitor.{get_guest_name}

-- `GuestData`: no thread, or a thread that is alive or not.
pub record Guest (V : Type 0) : Type 0 where
  pub monitor : Monitor V
  pub thread : Option Bool

-- `ended` are the guests whose monitors the manager told to end when it removed them.
pub record Manager (V : Type 0) : Type 0 where
  pub guests : Dict (Guest V)
  pub ended : List (Guest V)

-- How `getVmInfo` of the hypervisor ends: with what it knows, with `None`, or with an exception.
pub data Answer (Info : Type 0) : Type 0 where
  told : Info → Answer Info
  not_told fails : Answer Info

module _ {V : Type 0} where
  unfoldable pub is_running : Guest V → Bool
  is_running g = elim g.thread [ none ↦ true | some alive ↦ alive ]

  unfoldable pub register_guest : String → Guest V → Manager V → Manager V
  register_guest uuid g m =
      if has_key uuid m.guests then m else record m { guests = insert uuid g m.guests }

  unfoldable pub unregister_guest : String → Manager V → Manager V
  unregister_guest uuid m = elim (lookup uuid m.guests) [
    | none ↦ m
    | some g ↦ record m {
      guests = remove uuid m.guests;
      ended = m.ended ++ record g { monitor = Monitor.terminate g.monitor } ∷ [];
    }
  ]

  -- One round of the loop of `_check_guest_monitors`.
  unfoldable pub check_guest : List String → String → Guest V → Manager V → Manager V
  unfolding unregister_guest
  check_guest domain_list id g m = elim g.thread [
    | none ↦ if contains id domain_list then m else unregister_guest id m
    | some false ↦ record m { guests = remove id m.guests }
    | some true ↦ if contains id domain_list then m else unregister_guest id m
  ]

  -- The loop, over the items that there are at its start.
  unfoldable pub check_guests : List String → Dict (Guest V) → Manager V → Manager V
  unfolding check_guest
  check_guests domain_list [] m = m
  check_guests domain_list ((id, g) ∷ items) m =
      check_guests domain_list items (check_guest domain_list id g m)

  unfoldable pub check_guest_monitors : List String → Manager V → Manager V
  unfolding check_guests
  check_guest_monitors domain_list m = check_guests domain_list m.guests m

  -- `set(domain_list) - set(self.guests)`
  unfoldable pub spawn_list : List String → Dict (Guest V) → List String
  spawn_list [] guests = []
  spawn_list (id ∷ ids) guests =
      if contains id ids
      then spawn_list ids guests
      else if has_key id guests
      then spawn_list ids guests
      else id ∷ spawn_list ids guests

  module _ {Info : Type 0} (get_vm_info : String → Answer Info) (new_monitor : Info → Monitor V)
      (threaded : Bool) (is_alive : Info → Bool) where
    unfoldable pub create_monitor : Info → Guest V
    create_monitor info = record {
      monitor = new_monitor info;
      thread = if threaded then some (is_alive info) else none;
    }

    -- One round of the loop of `_spawn_guest_monitors`, for what the hypervisor does: whether it
    -- ends without an exception, and the manager.
    unfoldable pub spawn_guest : String → Answer Info → Manager V → Bool × Manager V
    unfolding create_monitor is_running register_guest
    spawn_guest id fails m = (false, m)
    spawn_guest id not_told m = (true, m)
    spawn_guest id (told info) m =
        let g = create_monitor info in (true, if is_running g then register_guest id g m else m)

    -- What comes after an exception does not happen.
    abbrev pub if_ended : Bool × Manager V → (Manager V → Bool × Manager V) → Bool × Manager V
    if_ended (true, m) f = f m
    if_ended (false, m) f = (false, m)

    unfoldable pub spawn_guests : List String → Manager V → Bool × Manager V
    unfolding spawn_guest
    spawn_guests [] m = (true, m)
    spawn_guests (id ∷ ids) m = if_ended (spawn_guest id (get_vm_info id) m) (spawn_guests ids)

    unfoldable pub spawn_guest_monitors : List String → Manager V → Bool × Manager V
    unfolding spawn_guests spawn_list
    spawn_guest_monitors domain_list m = spawn_guests (spawn_list domain_list m.guests) m

    -- The changes of one round of `run`, for the list of `getVmList()`, where there is one. After an
    -- exception the thread ends.
    unfoldable pub update_guests : Option (List String) → Manager V → Bool × Manager V
    unfolding spawn_guest_monitors check_guest_monitors
    update_guests none m = (true, m)
    update_guests (some domain_list) m =
        if_ended (spawn_guest_monitors domain_list m)
          λ m'. (true, check_guest_monitors domain_list m')

  -- `interrogate()`: the entities of the guests that are ready
  unfoldable pub interrogate_guests : Dict (Guest V) → Dict (Entity V)
  interrogate_guests [] = []
  interrogate_guests ((id, g) ∷ guests) =
      let rest = interrogate_guests guests in
      elim (Monitor.interrogate g.monitor) [ none ↦ rest | some entity ↦ (id, entity) ∷ rest ]

  -- `rpc_get_active_guests()`: the names of the guests that are ready and have one
  unfoldable pub active_guests : Dict (Guest V) → List V
  unfolding is_ready get_guest_name
  active_guests [] = []
  active_guests ((id, g) ∷ guests) =
      let rest = active_guests guests in
      if is_ready g.monitor
      then elim (get_guest_name g.monitor) [ none ↦ rest | some name ↦ name ∷ rest ]
      else rest

  -- `_collect_from_guest_monitors()`, for the way in which the collectors of each guest end
  unfoldable pub collect_from_guests :
      List Declared → ℕ → (String → List (Outcome V)) → Bool → Dict (Guest V) → Dict (Guest V)
  unfolding should_run collect
  collect_from_guests collectors history outcomes running [] = []
  collect_from_guests collectors history outcomes running ((id, g) ∷ guests) =
      let after = (collect collectors history (outcomes id) g.monitor).1 in
      (id, if should_run running g.monitor then record g { monitor = after } else g)
      ∷ collect_from_guests collectors history outcomes running guests
