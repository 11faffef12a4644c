-- ===== src/GuestMonitor.antt =====
-- mom/GuestMonitor.py: the monitor of one guest and the weight that it is given. The collectors of
-- the configuration are plug-ins, and stand with the rounds of `Monitor`. A parameter says what a
-- helper program prints, none where it cannot be called, and how Python reads a number.
use mom_perf_fair_scheduler.Common.{
  String, false, Option, none, some, [], ◌∷◌, if◌then◌else◌, Dict, lookup, insert,
}
use mom_perf_fair_scheduler.Number.{Number}
use mom_perf_fair_scheduler.Monitor.{Monitor}

module _ {V : Type 0} where
  -- `self.properties.update(info)`
  unfoldable pub add_properties : Dict V → Dict V → Dict V
  add_properties [] properties = properties
  add_properties ((k, v) ∷ info) properties = add_properties info (insert k v properties)

  -- `GuestMonitor(config, info, hypervisor_iface)`, with the weight of the guest
  unfoldable pub new_guest_monitor : Dict V → V → V → Monitor V
  unfolding add_properties
  new_guest_monitor info hypervisor_iface weight = record {
    properties =
        insert "weight-vm" weight
          (insert "hypervisor_iface" hypervisor_iface (add_properties info []));
    statistics = [];
    variables = [];
    fields = none;
    optional_fields = none;
    ready = none;
    terminated = false;
  }

  unfoldable pub get_guest_name : Monitor V → Option V
  get_guest_name m = lookup "name" m.properties

module _ (n : Number) (run : String → String → Option String) (read : String → Option n.Num) where
  open n use {Num, of_ℕ, leb}

  -- A number that is not positive, or no number, counts as 0.
  unfoldable pub positive_or_zero : Option Num → Num
  positive_or_zero none = of_ℕ 0
  positive_or_zero (some weight) = if leb weight (of_ℕ 0) then of_ℕ 0 else weight

  -- The number that a helper program prints for a guest; `None` where it cannot be called.
  unfoldable pub ask_number : Option String → String → Option Num
  unfolding positive_or_zero
  ask_number none name = some (of_ℕ 0)
  ask_number (some prog) name = elim (run prog name) [
    | none ↦ none
    | some output ↦ some (positive_or_zero (read output))
  ]

  -- The configuration is a dictionary, as the handlers of `KeyError` expect it to be:
  -- `name-to-weights`, `name-to-user-weights` and `name-to-slope` of the configuration
  unfoldable pub get_guest_weight : Dict String → String → Option Num
  unfolding ask_number
  get_guest_weight config name = ask_number (lookup "name-to-weights" config) name

  unfoldable pub get_user_weight : Dict String → String → Option Num
  unfolding ask_number
  get_user_weight config name = ask_number (lookup "name-to-user-weights" config) name

  unfoldable pub get_guest_slope : Dict String → String → Option Num
  unfolding ask_number
  get_guest_slope config name = ask_number (lookup "name-to-slope" config) name
