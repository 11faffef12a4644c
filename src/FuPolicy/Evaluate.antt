-- ===== src/FuPolicy/Evaluate.antt =====
-- mom/Policy/FUPolicy.py: one round, `FUPolicy.evaluate`. The log is left out, and so is
-- `_validate_config`, which is never called, with the thresholds that only it reads.
use mom_perf_fair_scheduler.Common.{
  String, Bool, false, Option, none, some, List, [], ◌∷◌, if◌then◌else◌, Dict, lookup, insert,
}
use mom_perf_fair_scheduler.Number.{Number, ltb_num, eq_num}
use mom_perf_fair_scheduler.FuPolicy.Algorithm.{
  Sample, fairness, predictor, utilization, combination,
}

module _ (n : Number) where
  open n use {Num, of_ℕ, plus, minus, times, over}

  -- What the policy reads of a guest.
  pub record Guest : Type 0 where
    pub name : String
    pub weight : Num
    pub mem_unused : Num
    pub balloon_max : Num
    pub balloon_cur : Num
    pub swap_out : Num
    pub statistics : List (Sample n)

  pub record FuPolicy : Type 0 where
    pub allocated_mems : Dict Num
    pub total_mem_alltime : Num
    pub first : Bool

  -- The local variables of `evaluate`; `swap_outs` and `active_mems`, which are never read, are left
  -- out.
  pub record Round : Type 0 where
    pub total_weights : Num
    pub vms : Dict Guest
    pub weights : Dict Num
    pub config_mems : Dict Num
    pub all_statistics : Dict (List (Sample n))

  abbrev pub new_round : Round
  new_round = record {
    total_weights = of_ℕ 0;
    vms = [];
    weights = [];
    config_mems = [];
    all_statistics = [];
  }

  -- The memory that is counted for a guest.
  unfoldable pub count_memory : Guest → FuPolicy → Dict Num
  unfolding lookup insert
  count_memory g p =
      let mem = if ltb_num n g.balloon_max g.balloon_cur then g.balloon_max else g.balloon_cur in
      elim (lookup g.name p.allocated_mems) [
        | none ↦ insert g.name (if p.first then of_ℕ 0 else mem) p.allocated_mems
        | some old ↦
            if p.first then p.allocated_mems else insert g.name (plus old mem) p.allocated_mems
      ]

  -- The loop over `guest_list`.
  unfoldable pub add_guests : List Guest → FuPolicy × Round → FuPolicy × Round
  unfolding count_memory insert
  add_guests [] pr = pr
  add_guests (g ∷ guests) (p, r) = add_guests guests (
    record p { allocated_mems = count_memory g p },
    record {
      total_weights = plus r.total_weights g.weight;
      vms = insert g.name g r.vms;
      weights = insert g.name g.weight r.weights;
      config_mems = insert g.name g.balloon_max r.config_mems;
      all_statistics = insert g.name g.statistics r.all_statistics;
    },
  )

  -- The loop that makes the weights add up to 1; none is a `ZeroDivisionError`.
  unfoldable pub normalize : Num → Dict Num → Option (Dict Num)
  normalize total_weights [] = some []
  normalize total_weights ((name, weight) ∷ weights) =
      let rest = normalize total_weights weights in
      if eq_num n total_weights (of_ℕ 0) then none else elim rest [
        | none ↦ none
        | some normal ↦ some ((name, over weight total_weights) ∷ normal)
      ]

  -- `setBalloon(targets, vms)`: the control `balloon_target` of each guest; none is a `KeyError`.
  unfoldable pub set_balloons : Dict Num → Dict Guest → Option (Dict Num)
  unfolding lookup
  set_balloons targets [] = some []
  set_balloons targets ((name, vm) ∷ vms) =
      let rest = set_balloons targets vms in
      elim (lookup name targets) [
        | none ↦ none
        | some target ↦ elim rest [ none ↦ none | some set ↦ some ((name, target) ∷ set) ]
      ]

  -- What the algorithm makes of the values of a round.
  unfoldable pub targets_of : Num → Num → Dict Num → Round → Option (Dict Num)
  unfolding normalize fairness predictor utilization combination set_balloons
  targets_of total_mem total_mem_alltime allocated_mems r =
      elim (normalize r.total_weights r.weights) [
        | none ↦ none
        | some weights ↦ elim (fairness n allocated_mems weights total_mem_alltime) [
          | none ↦ none
          | some f_allocated ↦ elim (predictor n r.all_statistics) [
            | none ↦ none
            | some predictors ↦
                let u_allocated = utilization n predictors r.config_mems in
                elim (combination n f_allocated u_allocated total_mem r.config_mems) [
                  | none ↦ none
                  | some c_allocated ↦ set_balloons c_allocated r.vms
                ]
          ]
        ]
      ]

  -- A round, from the memory of the host and the guests: the balloon targets, or none for an
  -- uncaught exception, and the state.
  unfoldable pub evaluate : Num → List Guest → FuPolicy → Option (Dict Num) × FuPolicy
  unfolding add_guests targets_of
  evaluate mem_available guests p =
      let total_mem = times mem_available (over (of_ℕ 7) (of_ℕ 10)) in
      let counted : FuPolicy = record p {
        total_mem_alltime = plus p.total_mem_alltime total_mem;
      } in
      let (q, r) = add_guests guests (counted, new_round) in
      (targets_of total_mem q.total_mem_alltime q.allocated_mems r, record q { first = false })
