-- ===== src/Monitor/Threads.antt =====
-- mom/GuestMonitor.py: `GuestMonitorThread.run`, and mom/HostMonitor.py: `HostMonitor.run`, the
-- threads that collect in rounds, with what other threads do to the monitor between their steps.
-- The semaphore of the monitor makes each change of its data one step, and the time that a thread
-- sleeps is left out.
use mom_perf_fair_scheduler.Common.{
  ℕ, ◌≡◌, refl, ◌∙◌, Bool, true, false, List, [], ◌∷◌, arith, Dict, insert,
}
use mom_perf_fair_scheduler.Entity.{Row}
use mom_perf_fair_scheduler.Monitor.{
  Declared, Outcome, Monitor, collect, terminate, should_run, update_variables,
}

-- Where the thread stands: before the test of its loop, in the body, or behind the loop.
pub data Thread : Type 0 where
  testing collecting ended : Thread

abbrev pub IsIdle : Thread → Type 0
IsIdle testing = Unit
IsIdle collecting = ⊥
IsIdle ended = Unit

module _ {V : Type 0} (collectors : List Declared) (history : ℕ) where
  -- One step of the thread or of another one. `running` is what the configuration says then.
  pub data Step : Monitor V × Thread → Monitor V × Thread → Type 0 where
    enter :
        (running : Bool) (m : Monitor V)
        → should_run running m ≡ true
        → Step (m, testing) (m, collecting)
    round :
        (outcomes : List (Outcome V)) (m : Monitor V)
        → Step (m, collecting) ((collect collectors history outcomes m).1, testing)
    leave :
        (running : Bool) (m : Monitor V)
        → should_run running m ≡ false
        → Step (m, testing) (m, ended)
    crash : (m : Monitor V) → Step (m, collecting) (m, ended)
    terminated_by : (m : Monitor V) (t : Thread) → Step (m, t) (terminate m, t)
    stored_by :
        (variables : Dict V) (m : Monitor V) (t : Thread)
        → Step (m, t) (update_variables variables m, t)

  pub data Reach (s : Monitor V × Thread) : Monitor V × Thread → Type 0 where
    here : Reach s s
    next : {t u : Monitor V × Thread} → Reach s t → Step t u → Reach s u

  -- The monitor is told to end, no round is under way, and the history is the given one.
  pub record IsQuiet (rows : List (Row V)) (s : Monitor V × Thread) : Type 0 where
    pub told : s.0.terminated ≡ true
    pub idle : IsIdle s.1
    pub kept : s.0.statistics ≡ rows

  update_variables-fields :
      (d : Dict V) (m : Monitor V)
      → ((update_variables d m).terminated ≡ m.terminated)
        × ((update_variables d m).statistics ≡ m.statistics)
  unfolding update_variables
  update_variables-fields [] m = (refl, refl)
  update_variables-fields ((k, v) ∷ d) m =
      update_variables-fields d (record m { variables = insert k v m.variables })

  Step-IsQuiet :
      {rows : List (Row V)} {s t : Monitor V × Thread} → Step s t → IsQuiet rows s → IsQuiet rows t
  unfolding should_run terminate
  Step-IsQuiet (enter running m h) q = absurd (ground (arith, h, q.told))
  Step-IsQuiet (round outcomes m) q = absurd q.idle
  Step-IsQuiet (leave running m h) q = record { told = q.told; idle = tt; kept = q.kept }
  Step-IsQuiet (crash m) q = absurd q.idle
  Step-IsQuiet (terminated_by m t) q = record { told = refl; idle = q.idle; kept = q.kept }
  Step-IsQuiet (stored_by variables m t) q =
      let (told, kept) = update_variables-fields variables m in
      record { told = told ∙ q.told; idle = q.idle; kept = kept ∙ q.kept }

  -- If a monitor is told to end and its thread is not in a round, then in every state that the
  -- thread and other threads reach from there the monitor is told to end, the thread is not in a
  -- round, and the history is the same.
  pub Reach-IsQuiet :
      (rows : List (Row V)) (s t : Monitor V × Thread) → IsQuiet rows s → Reach s t → IsQuiet rows t
  Reach-IsQuiet rows s t q here = q
  Reach-IsQuiet rows s t q (next r step) = Step-IsQuiet step (Reach-IsQuiet rows s _ q r)
