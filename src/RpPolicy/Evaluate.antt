-- ===== src/RpPolicy/Evaluate.antt =====
-- mom/Policy/RPPolicy.py: one round, `RPPolicy.evaluate`. The plotter, the log and `check`, which
-- only add up or write out what is there, are left out.
pub mod Safety
use mom_perf_fair_scheduler.Common.{
  ℕ, ◌+◌, String, Bool, true, false, Option, none, some, List, [], ◌∷◌, ◌==◌, leb, if◌then◌else◌,
  Dict, lookup, insert, values, length, select, not, and_then,
}
use mom_perf_fair_scheduler.Number.{Number}
use mom_perf_fair_scheduler.RpPolicy.VmInfo.{VmInfo, Guest, update, init_attribute}
use mom_perf_fair_scheduler.RpPolicy.Fitting.{ave_len}
use mom_perf_fair_scheduler.RpPolicy.Allocate.{
  Progress, Transfer, no_transfer, first_time, dynamic_allocate, mean_by_free, is_busy,
  trigger_balloon,
}

module _ (n : Number) where
  open n use {Num, times}

  pub record RpPolicy : Type 0 where
    pub start : Bool
    pub count : ℕ
    pub vm_infos : Dict (VmInfo n)
    pub progress : Progress n
    pub total_mem_ratio : Num
    pub alpha : Num
    pub beta : Num

  module _ (intercept : List Num → List Num → List Num → Num) where
    -- The entry of `VM_Infos` for a guest of the round, brought up to date.
    abbrev pub info_of : Num → Num → Guest n → Option (VmInfo n) → Option (VmInfo n)
    info_of alpha beta g none = init_attribute n intercept alpha beta g
    info_of alpha beta g (some i) = update n intercept g i

    -- The loop over `guest_list`; none is an uncaught exception, here and below.
    unfoldable pub update_guests :
        Num → Num → List (Guest n) → Dict (VmInfo n) → Option (Dict (VmInfo n))
    update_guests alpha beta [] infos = some infos
    update_guests alpha beta (g ∷ guests) infos =
        and_then (info_of alpha beta g (lookup g.name infos))
          λ info. update_guests alpha beta guests (insert g.name info infos)

    -- The choice between the two ways to move memory, by the guests of `seperate()`.
    unfoldable pub plan :
        Dict (VmInfo n) → Progress n → Option (Dict (VmInfo n) × Progress n × Transfer n)
    plan infos progress =
        let busy = select (is_busy n) (values infos) in
        let idle = select (λ i. not (is_busy n i)) (values infos) in
        if length idle == 0
        then dynamic_allocate n infos progress
        else some (
          infos,
          progress,
          if length busy == 0 then no_transfer n else mean_by_free n (values infos),
        )

    -- `self.trigger_balloon(self.givers)`, then the takers.
    abbrev pub carry_out : Transfer n → Dict (VmInfo n) → Dict (VmInfo n)
    carry_out t infos = trigger_balloon n t.takers (trigger_balloon n t.givers infos)

    -- What a round does with the entries that are up to date.
    unfoldable pub run_round : Num → RpPolicy → Dict (VmInfo n) → Option RpPolicy
    run_round total_mem p infos =
        if p.start
        then elim (first_time n total_mem infos) [
          | none ↦ none
          | some shared ↦ some (record p {
            start = not (leb ave_len (p.count + 1));
            count = p.count + 1;
            vm_infos = shared;
          })
        ]
        else elim (plan infos p.progress) [
          | none ↦ none
          | some (rated, progress, transfer) ↦
              some (record p { vm_infos = carry_out transfer rated; progress = progress })
        ]

    -- A round, from the memory of the host and the guests.
    unfoldable pub evaluate : Num → List (Guest n) → RpPolicy → Option RpPolicy
    unfolding update_guests run_round
    evaluate mem_available guests p =
        and_then (update_guests p.alpha p.beta guests p.vm_infos)
          (run_round (times mem_available p.total_mem_ratio) p)
