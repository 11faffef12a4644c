-- ===== src/Controllers.antt =====
-- mom/Controllers: what each controller sends to the hypervisor for the controls that a policy has
-- set. A call of the hypervisor interface is a `Command`; an exception that the source does not
-- catch is none. How Python compares two values, and `int(v)`, are parameters.
pub mod Settled
use mom_perf_fair_scheduler.Common.{
  String, Bool, true, false, Option, none, some, List, [], ◌∷◌, ◌++◌, if◌then◌else◌, Dict, lookup,
}
use mom_perf_fair_scheduler.Common.Texts.{join}
use mom_perf_fair_scheduler.Entity.{Entity, Answer, value, raises, prop, stat, get_control}

-- One device of a guest, with its limits.
pub record Device (V : Type 0) : Type 0 where
  pub name : V
  pub path : V
  pub io_tune : Dict V

pub data Command (V : Type 0) : Type 0 where
  set_vm_balloon_target : V → V → Command V
  set_vm_cpu_tune : V → V → V → Command V
  set_vm_io_tune : V → List (Device V) → Command V
  ksm_tune : Dict V → Command V

abbrev pub read : {A : Type 0} → Answer A → Option A
read (value a) = some a
read (raises e) = none

abbrev pub and_then : {A B : Type 0} → Option A → (A → Option B) → Option B
and_then none f = none
and_then (some a) f = f a

module _ {V : Type 0} where
  -- The loop of `process`: the commands, and whether it came to its end.
  unfoldable pub process :
      (Entity V → Option (List (Command V))) → List (Entity V) → List (Command V) × Bool
  process process_guest [] = ([], true)
  process process_guest (guest ∷ guests) =
      let rest = process process_guest guests in
      elim (process_guest guest) [
        | none ↦ ([], false)
        | some commands ↦ (commands ++ rest.0, rest.1)
      ]

  -- Balloon.process_guest
  unfoldable pub balloon_guest : (V → Option V) → Entity V → Option (List (Command V))
  unfolding get_control prop stat
  balloon_guest to_int guest = elim (get_control "balloon_target" guest) [
    | none ↦ some []
    | some control ↦ and_then (to_int control) λ target. and_then (read (prop "uuid" guest)) λ uuid.
        and_then (read (prop "name" guest)) λ name.
          and_then (read (stat "balloon_cur" none guest))
            λ prev_target. some (set_vm_balloon_target uuid target ∷ [])
  ]

  module _ (same : V → V → Bool) (to_int : V → Option V) where
    -- `a == b`, where either may be `None`
    abbrev pub same_option : Option V → Option V → Bool
    same_option none none = true
    same_option (some a) (some b) = same a b
    same_option _ _ = false

    -- CpuTune.get_changed_val
    unfoldable pub get_changed_val : Option V → Option V → Option V
    get_changed_val none prev_val = prev_val
    get_changed_val (some val) prev_val =
        if same_option (some val) prev_val then prev_val else some val

    -- CpuTune.process_guest, after the previous values have been read as attributes
    unfoldable pub tune_cpu : Option V → Option V → Entity V → Option (List (Command V))
    unfolding get_changed_val prop get_control
    tune_cpu prev_quota prev_period guest =
        let quota = get_changed_val (get_control "vcpu_quota" guest) prev_quota in
        let period = get_changed_val (get_control "vcpu_period" guest) prev_period in
        let command = and_then (and_then quota to_int) λ q. and_then (and_then period to_int) λ p.
          and_then (read (prop "uuid" guest)) λ uuid.
            and_then (read (prop "name" guest)) λ name. some (set_vm_cpu_tune uuid q p ∷ []) in
        if same_option quota prev_quota
        then (if same_option period prev_period then some [] else command)
        else command

    unfoldable pub cpu_guest : Entity V → Option (List (Command V))
    unfolding tune_cpu
    cpu_guest guest = and_then (lookup "vcpu_quota" guest.attributes) λ prev_quota.
        and_then (lookup "vcpu_period" guest.attributes)
          λ prev_period. tune_cpu prev_quota prev_period guest

  -- The loop of IoTune.process_guest; a device without a previous state is an `IndexError`.
  unfoldable pub changed_devices :
      (Dict V → Dict V → Bool) → List (Device V) → List (Device V) → Option (List (Device V))
  changed_devices same_limits [] prev = some []
  changed_devices same_limits (tune ∷ tunes) [] = none
  changed_devices same_limits (tune ∷ tunes) (tune_prev ∷ prev) =
      let rest = changed_devices same_limits tunes prev in
      if same_limits tune.io_tune tune_prev.io_tune
      then rest
      else elim rest [ none ↦ none | some changed ↦ some (tune ∷ changed) ]

  abbrev pub io_command : V → List (Device V) → List (Command V)
  io_command uuid [] = []
  io_command uuid (tune ∷ changed) = set_vm_io_tune uuid (tune ∷ changed) ∷ []

  -- IoTune.process_guest, with the attributes `io_tune` and `io_tune_current` of the guest
  unfoldable pub io_guest :
      (Dict V → Dict V → Bool)
      → List (Device V)
      → List (Device V)
      → Entity V
      → Option (List (Command V))
  unfolding changed_devices prop
  io_guest same_limits [] prev guest = some []
  io_guest same_limits tunes [] guest = some []
  io_guest same_limits tunes prev guest =
      and_then (changed_devices same_limits tunes prev) λ changed.
        and_then (read (prop "uuid" guest))
          λ uuid. and_then (read (prop "name" guest)) λ name. some (io_command uuid changed)

  -- One round of the loop of KSM.process, after the other keys: the outputs, and what is current.
  unfoldable pub ksm_change :
      (V → V → Bool) → Option V → String → V → Dict V × Dict V → Dict V × Dict V
  ksm_change same none key old (outputs, cur) = (outputs, (key, old) ∷ cur)
  ksm_change same (some rule_var) key old (outputs, cur) =
      if same rule_var old
      then (outputs, (key, old) ∷ cur)
      else ((key, rule_var) ∷ outputs, (key, rule_var) ∷ cur)

  unfoldable pub ksm_changes : (V → V → Bool) → (String → Option V) → Dict V → Dict V × Dict V
  unfolding ksm_change
  ksm_changes same control [] = ([], [])
  ksm_changes same control ((key, old) ∷ cur) =
      ksm_change same (control (join "" ("ksm_" ∷ key ∷ []))) key old (ksm_changes same control cur)

  abbrev pub ksm_command : Dict V → List (Command V)
  ksm_command [] = []
  ksm_command ((k, v) ∷ outputs) = ksm_tune ((k, v) ∷ outputs) ∷ []

  -- KSM.process, on what is current
  unfoldable pub ksm_process : (V → V → Bool) → Entity V → Dict V → List (Command V) × Dict V
  unfolding ksm_changes get_control
  ksm_process same host cur =
      let (outputs, after) = ksm_changes same (λ k. get_control k host) cur in
      (ksm_command outputs, after)
