-- ===== src/Monitor/Tests.antt =====
-- Rounds of a monitor with two collectors, and the theorems about them at concrete inputs.
use mom_perf_fair_scheduler.Common.{
  ℕ, ◌≤◌, ◌≡◌, refl, true, false, ◌||◌, none, some, List, [], ◌∷◌, length, last?, arith, contains,
  lookup, insert, set_default, str_eq, if◌then◌else◌,
}
use mom_perf_fair_scheduler.Entity.{Row, Entity, new_entity, set_var, get_var}
use mom_perf_fair_scheduler.Monitor.{
  Declared, Outcome, collected, collection_error, fatal_error, Monitor, collect, interrogate,
  update_variables, should_run, or_else,
}
use mom_perf_fair_scheduler.Monitor.Variables.{store_variables, get_var-store_variables}
use mom_perf_fair_scheduler.Monitor.Threads.{
  Reach, here, next, stored_by, leave, testing, ended, IsQuiet, Reach-IsQuiet,
}
use mom_perf_fair_scheduler.Monitor.Priority.{value_in, first_value, collect-priority}
use mom_perf_fair_scheduler.Monitor.Collect.{
  has_fatal, collect-history, collect_returned, collect-terminated,
}

abbrev declared : List Declared
declared =
    record { get_fields = "mem" ∷ []; get_optional_fields = [] }
    ∷ record { get_fields = "cpu" ∷ []; get_optional_fields = "swap" ∷ [] }
    ∷ []

-- The second collector has both fields, and the first only `mem`.
abbrev outcomes : List (Outcome ℕ)
outcomes =
    collected (("mem", some 5) ∷ []) ∷ collected (("mem", some 9) ∷ ("cpu", some 2) ∷ []) ∷ []

abbrev failing : List (Outcome ℕ)
failing = collected (("mem", some 5) ∷ []) ∷ collection_error ∷ []

abbrev old_row : Row ℕ
old_row = ("mem", some 1) ∷ ("cpu", some 1) ∷ ("swap", none) ∷ []

abbrev new_row : Row ℕ
new_row = ("mem", some 5) ∷ ("cpu", some 2) ∷ ("swap", none) ∷ []

abbrev monitor : Monitor ℕ
monitor = record {
  properties = [];
  statistics = old_row ∷ [];
  variables = [];
  fields = none;
  optional_fields = none;
  ready = none;
  terminated = false;
}

-- The history of one row keeps the newer one.
collect_runs : collect declared 1 outcomes monitor ≡ (
  some new_row,
  record monitor {
    statistics = new_row ∷ [];
    fields = some ("cpu" ∷ "mem" ∷ []);
    optional_fields = some ("swap" ∷ []);
    ready = some true;
  },
)
unfolding collect contains lookup insert set_default
collect_runs = refl

collect-priority_example : value_in "mem" new_row ≡ first_value "mem" outcomes
unfolding collect contains lookup insert set_default
collect-priority_example =
    collect-priority declared 1 outcomes monitor "mem" new_row
      ((refl, tt), ((refl, (refl, tt)), tt)) refl

collect_returned_example :
    ((collect declared 1 outcomes monitor).1.ready ≡ some true)
    × (last? (collect declared 1 outcomes monitor).1.statistics ≡ some new_row)
unfolding collect contains lookup insert set_default
collect_returned_example = collect_returned declared 1 outcomes monitor new_row (omega arith) refl

collect-history_example : length (collect declared 1 outcomes monitor).1.statistics ≤ 1
collect-history_example = collect-history declared 1 outcomes monitor (omega arith)

collect-terminated_example :
    (collect declared 1 (fatal_error ∷ failing) monitor).1.terminated
    ≡ (false || has_fatal (fatal_error ∷ failing))
collect-terminated_example = collect-terminated declared 1 (fatal_error ∷ failing) monitor

-- A monitor that is ready, and a variable that a policy has stored before.
abbrev ready_monitor : Monitor ℕ
ready_monitor = record monitor { variables = ("seen", 4) ∷ []; ready = some true }

abbrev entity : Entity ℕ
entity = or_else (new_entity []) (interrogate ready_monitor)

get_var-store_variables_example :
    (next : Entity ℕ) × (interrogate (store_variables (set_var "count" 6 entity) ready_monitor)
      ≡ some next)
    × (get_var "seen" next ≡ (if str_eq "count" "seen" then some 6 else get_var "seen" entity))
unfolding interrogate lookup
get_var-store_variables_example =
    get_var-store_variables "count" "seen" 6 ready_monitor entity (refl, tt) refl

-- The monitor is told to end while the thread is before its test; variables are stored, and the
-- thread leaves its loop.
abbrev told : Monitor ℕ
told = record ready_monitor { terminated = true }

abbrev told_later : Monitor ℕ
told_later = update_variables (("seen", 5) ∷ []) told

ending : Reach declared 1 (told, testing) (told_later, ended)
unfolding should_run update_variables
ending = next (next here (stored_by (("seen", 5) ∷ []) told testing)) (leave true told_later refl)

Reach-IsQuiet_example : IsQuiet declared 1 (old_row ∷ []) (told_later, ended)
Reach-IsQuiet_example =
    Reach-IsQuiet declared 1 (old_row ∷ []) (told, testing) (told_later, ended)
      (record { told = refl; idle = tt; kept = refl }) ending
