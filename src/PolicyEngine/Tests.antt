-- ===== src/PolicyEngine/Tests.antt =====
-- Policies loaded from a directory of two files, and the theorems about the calls at concrete
-- inputs.
use mom_perf_fair_scheduler.Common.{
  String, ◌≡◌, ◌≢◌, refl, true, Option, none, some, List, [], ◌∷◌, str_eq, if◌then◌else◌, All,
  insert, lookup, contains,
}
use Prim.Native.String.{◌++◌}
use mom_perf_fair_scheduler.Policy.{
  Policy, returns, raises_key_error, clear_policy, cat_policies, store_text, restore_text,
}
use mom_perf_fair_scheduler.Common.Texts.{text_leb}
use mom_perf_fair_scheduler.Policy.Rollback.{IsConsistent}
use mom_perf_fair_scheduler.Policy.Tests.{compiler, number_code, stored, stored-IsConsistent}
use mom_perf_fair_scheduler.PolicyEngine.{ended, load_policy, rpc_set_named_policy}
use mom_perf_fair_scheduler.Entity.{Entity, new_entity, prop, stat, get_control}
use mom_perf_fair_scheduler.Controllers.{Command, set_vm_balloon_target}
use mom_perf_fair_scheduler.Number.Integers.{ℤ, pos, integers, leb_ℤ, floor_div, ◌-ℤ◌, ◌*ℤ◌, ◌+ℤ◌}
use mom_perf_fair_scheduler.RpPolicy.Tests.{fresh, met, no_fit, after_round}
use mom_perf_fair_scheduler.RpPolicy.Fitting.{get_speed}
use mom_perf_fair_scheduler.RpPolicy.VmInfo.{init_attribute, update, update_speed}
use mom_perf_fair_scheduler.RpPolicy.Allocate.{first_time}
use mom_perf_fair_scheduler.RpPolicy.Evaluate.{evaluate, update_guests}
use mom_perf_fair_scheduler.PolicyEngine.Targets.{control_round, IsSafe, control_round-IsSafe}
use mom_perf_fair_scheduler.PolicyEngine.Calls.{
  stop, after_call, set_name, load_policy-IsConsistent, Calls-IsConsistent,
}

-- One of the files has a text that does not compile.
abbrev files : String → Option String
files s =
    if str_eq s "/etc/good.policy"
    then some "1"
    else if str_eq s "/etc/bad.policy"
    then some "("
    else none

abbrev directory : String → Option (List String)
directory s = if str_eq s "/etc" then some ("good.policy" ∷ "notes" ∷ "bad.policy" ∷ []) else none

abbrev join_path : String → String → String
join_path a b = a ++ ("/" ++ b)

-- The file that compiles is stored, and the other one is not.
load_policy_runs :
    load_policy compiler files directory join_path "" "/etc" (clear_policy stored)
    ≡ (ended (returns true), record { policy_strings = ("good", "1") ∷ []; code = number_code "1" })
unfolding load_policy text_leb cat_policies store_text clear_policy restore_text
load_policy_runs = refl

load_policy-IsConsistent_example :
    let (loaded, p') = load_policy compiler files directory join_path "" "/etc" stored in
    (loaded ≢ ended raises_key_error) × IsConsistent compiler p'
load_policy-IsConsistent_example =
    load_policy-IsConsistent compiler refl files directory join_path "" "/etc" stored
      stored-IsConsistent

abbrev named : Policy
named = (rpc_set_named_policy compiler (some "a") (some "(") (clear_policy stored)).1

Calls-IsConsistent_example : IsConsistent compiler named
Calls-IsConsistent_example =
    Calls-IsConsistent compiler refl files directory join_path stored named
      (after_call (set_name (some "a") (some "(") (clear_policy stored)) (stop named))

-- One guest that the memory policy has not met before: the command for it is the number 2500000.
abbrev entity : Entity ℤ
entity = record (new_entity ("balloon_cur" ∷ [])) {
  properties = ("uuid", pos 7) ∷ ("name", pos 8) ∷ [];
}

abbrev commands : List (Command ℤ)
commands = control_round integers no_fit (λ t. some t) fresh (pos 2_500_000) ((met, entity) ∷ [])

control_round_runs : commands ≡ set_vm_balloon_target (pos 7) (pos 2_500_000) ∷ []
unfolding control_round prop stat get_control new_entity insert lookup leb_ℤ floor_div ◌-ℤ◌ ◌*ℤ◌
    ◌+ℤ◌ evaluate first_time update_guests init_attribute update update_speed get_speed contains
control_round_runs = refl

control_round-IsSafe_example :
    All (IsSafe integers (λ t. some t) after_round.vm_infos ((met, entity) ∷ [])) commands
unfolding evaluate leb_ℤ floor_div ◌-ℤ◌ ◌*ℤ◌ ◌+ℤ◌ lookup new_entity get_control first_time
    update_guests insert init_attribute update update_speed get_speed
control_round-IsSafe_example =
    control_round-IsSafe integers no_fit (λ t. some t) (pos 2_500_000) ((met, entity) ∷ []) fresh
      after_round tt (refl, tt) refl
