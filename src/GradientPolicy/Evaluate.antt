-- ===== src/GradientPolicy/Evaluate.antt =====
-- mom/Policy/GradientPolicy.py: one round, `GradientPolicy.evaluate`. The plotter and the log are
-- left out. The policy engine hands `set_step` the text of its configuration file; here the step is
-- a number.
use mom_perf_fair_scheduler.Common.{
  ℕ, ◌+◌, Bool, true, false, not, Option, none, some, List, [], ◌∷◌, ◌==◌, ltb, if◌then◌else◌, Dict,
  lookup, insert, values, length, select,
}
use mom_perf_fair_scheduler.Number.{Number}
use mom_perf_fair_scheduler.RpPolicy.VmInfo.{Guest}
use mom_perf_fair_scheduler.RpPolicy.Allocate.{Progress}
use mom_perf_fair_scheduler.GradientPolicy.VmInfo.{VmInfo, update, init_attribute, set_balloon}
use mom_perf_fair_scheduler.GradientPolicy.Allocate.{
  Transfer, no_transfer, for_all, perf_fair, utilization, is_busy, trigger_balloon,
}

abbrev pub warmup_count : ℕ
warmup_count = 4

module _ (n : Number) where
  open n use {Num, of_ℕ, times, over}

  pub record GradientPolicy : Type 0 where
    pub total_mem_ratio : Num
    pub alpha : Num
    pub beta : Num
    pub step : Num
    pub vm_infos : Dict (VmInfo n)
    pub count : ℕ
    pub givers : Dict Num
    pub takers : Dict Num
    pub progress : Progress n

  module _ (intercept : List Num → List Num → List Num → Num) where
    -- `init_update_infos(guest_list)`
    unfoldable pub init_update_infos : List (Guest n) → GradientPolicy → GradientPolicy
    unfolding lookup insert init_attribute update
    init_update_infos [] p = p
    init_update_infos (g ∷ guests) p =
        let info : VmInfo n = elim (lookup g.name p.vm_infos) [
          | none ↦ init_attribute n intercept p.alpha p.beta p.step g
          | some i ↦ update n intercept g i
        ] in
        init_update_infos guests (record p { vm_infos = insert g.name info p.vm_infos })

    -- `warm_up(total_mem)`: whether the round ends here; none is the `ZeroDivisionError` where there
    -- is no guest, and then the round is counted all the same.
    unfoldable pub warm_up : Num → GradientPolicy → Option Bool × GradientPolicy
    unfolding for_all set_balloon
    warm_up total_mem p =
        let counted : GradientPolicy = record p { count = p.count + 1 } in
        let share = over total_mem (of_ℕ (length p.vm_infos)) in
        if ltb p.count warmup_count
        then if length p.vm_infos == 0 then (none, counted) else (
          some true,
          record counted {
            vm_infos = for_all n (λ i. set_balloon n (record i { allocated = share })) p.vm_infos;
          },
        )
        else (some false, p)

    -- The choice between the two ways to move memory, by the groups of `divide_group()`.
    unfoldable pub plan : Dict (VmInfo n) → Progress n → Dict (VmInfo n) × Progress n × Transfer n
    unfolding perf_fair utilization
    plan infos progress =
        let busy = select (is_busy n) (values infos) in
        let idle = select (λ i. not (is_busy n i)) (values infos) in
        if length idle == 0 then perf_fair n infos progress else (
          infos,
          progress,
          if length busy == 0 then no_transfer n else utilization n (values infos),
        )

    -- `self.trigger_balloon(self.givers)`, then the takers.
    unfoldable pub carry_out :
        Dict (VmInfo n) × Progress n × Transfer n → GradientPolicy → GradientPolicy
    unfolding trigger_balloon
    carry_out (infos, progress, t) p = record p {
      vm_infos = trigger_balloon n t.takers (trigger_balloon n t.givers infos);
      progress = progress;
      givers = t.givers;
      takers = t.takers;
    }

    -- A round, from the memory of the host and the guests; false is an uncaught exception.
    unfoldable pub evaluate : Num → List (Guest n) → GradientPolicy → Bool × GradientPolicy
    unfolding init_update_infos warm_up plan carry_out
    evaluate mem_available guests p =
        let (warming, q) =
          warm_up (times mem_available p.total_mem_ratio) (init_update_infos guests p) in
        elim warming [
          | none ↦ (false, q)
          | some true ↦ (true, q)
          | some false ↦ (true, carry_out (plan q.vm_infos q.progress) q)
        ]
