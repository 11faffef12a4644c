-- ===== src/FuPolicy/Algorithm.antt =====
-- mom/Policy/FUPolicy.py: `Algorithm`. None is an uncaught exception of the source. The log is left
-- out.
pub mod Sums
pub mod Budget
use mathlib.Core.List.{reverse}
use mom_perf_fair_scheduler.Common.{
  ℕ, String, Bool, Option, none, some, List, [], ◌∷◌, if◌then◌else◌, Dict, lookup, insert, str_eq,
}
use mom_perf_fair_scheduler.Common.Sort.{sort}
use mom_perf_fair_scheduler.Number.{Number, ltb_num, negate}

abbrev pub reserve : ℕ
reserve = 150_000

module _ (n : Number) where
  open n use {Num, of_ℕ, plus, minus, times, leb}

  -- The fields of a row of statistics that the predictor reads.
  pub record Sample : Type 0 where
    pub balloon_cur : Num
    pub mem_unused : Num
    pub swap_out : Num

  -- `fairness(allocated_mems, weights, total_mem)`: a guest without a weight is a `KeyError`.
  unfoldable pub fairness : Dict Num → Dict Num → Num → Option (Dict Num)
  unfolding lookup
  fairness [] weights total_mem = some []
  fairness ((name, mem) ∷ allocated_mems) weights total_mem =
      let rest = fairness allocated_mems weights total_mem in
      elim (lookup name weights) [
        | none ↦ none
        | some weight ↦ elim rest [
          | none ↦ none
          | some f_allocated ↦ some ((name, minus (times total_mem weight) mem) ∷ f_allocated)
        ]
      ]

  -- The memory that a guest is expected to need, from its statistics with the newest row first.
  unfoldable pub predict : List Sample → Option Num
  predict [] = none
  predict (cur ∷ older) =
      let active_cur = plus (minus cur.balloon_cur cur.mem_unused) cur.swap_out in
      let active_prev : Num = elim older [
        | [] ↦ of_ℕ 0
        | prev ∷ rows ↦ minus prev.balloon_cur prev.mem_unused
      ] in
      some (
        if leb active_cur active_prev
        then active_cur
        else minus (times active_cur (of_ℕ 2)) active_prev)

  unfoldable pub predict_all : Dict (List Sample) → Option (Dict Num)
  unfolding predict
  predict_all [] = some []
  predict_all ((name, statistics) ∷ all_statistics) =
      let rest = predict_all all_statistics in
      elim (predict (reverse statistics)) [
        | none ↦ none
        | some mem ↦ elim rest [ none ↦ none | some predictors ↦ some ((name, mem) ∷ predictors) ]
      ]

  -- `predictor(all_statistics)`: without a guest it returns None, which `utilization` cannot read.
  unfoldable pub predictor : Dict (List Sample) → Option (Dict Num)
  unfolding predict_all
  predictor [] = none
  predictor (entry ∷ all_statistics) = predict_all (entry ∷ all_statistics)

  -- `d[name]`, where a missing name counts as 0; what follows only reads names that are there.
  abbrev pub value_of : String → Dict Num → Num
  value_of name d = elim (lookup name d) [ none ↦ of_ℕ 0 | some x ↦ x ]

  -- `utilization(predictors, config_mems)`
  unfoldable pub utilization : Dict Num → Dict Num → Dict Num
  unfolding lookup
  utilization [] config_mems = []
  utilization ((name, mem) ∷ predictors) config_mems =
      let needed = plus mem (of_ℕ reserve) in
      let config = value_of name config_mems in
      (name, if ltb_num n config needed then config else needed)
      ∷ utilization predictors config_mems

  -- `u_allocated[key] = f(u_allocated[key])`
  unfoldable pub change : String → (Num → Num) → Dict Num → Dict Num
  change name f [] = []
  change name f ((k, x) ∷ d) = if str_eq k name then (k, f x) ∷ d else (k, x) ∷ change name f d

  -- The first loop of `combination`.
  unfoldable pub exceeds : Dict Num → Dict Num → Option (Dict Num)
  unfolding lookup
  exceeds [] u_allocated = some []
  exceeds ((name, f_mem) ∷ f_allocated) u_allocated =
      let rest = exceeds f_allocated u_allocated in
      elim (lookup name u_allocated) [
        | none ↦ none
        | some u_mem ↦ elim rest [
          | none ↦ none
          | some exceed ↦ some ((name, minus u_mem f_mem) ∷ exceed)
        ]
      ]

  unfoldable pub sum_of : Dict Num → Num
  sum_of [] = of_ℕ 0
  sum_of ((name, x) ∷ d) = plus x (sum_of d)

  abbrev pub by_value : String × Num → String × Num → Bool
  by_value x y = leb x.1 y.1

  -- What one guest may get more.
  unfoldable pub share_of : Dict Num → Dict Num → String → Num → Num
  unfolding lookup
  share_of config_mems u_allocated key exceed =
      let value = negate n exceed in
      let upper_bound = minus (value_of key config_mems) (value_of key u_allocated) in
      if ltb_num n upper_bound value then upper_bound else value

  -- The loop that gives the free memory, from the guest that is furthest below its fair share.
  unfoldable pub give : Dict Num → List (String × Num) → Num → Dict Num → Dict Num
  unfolding share_of change
  give config_mems [] left_free u_allocated = u_allocated
  give config_mems ((key, exceed) ∷ rank) left_free u_allocated =
      let value = share_of config_mems u_allocated key exceed in
      let given = if ltb_num n value left_free then value else left_free in
      if ltb_num n (of_ℕ 0) left_free
      then give config_mems rank (minus left_free value)
          (change key (λ x. plus x given) u_allocated)
      else u_allocated

  -- The loop that takes memory, from the guest that is furthest above its fair share.
  unfoldable pub take_back : List (String × Num) → Num → Dict Num → Dict Num
  unfolding change
  take_back [] left_demand u_allocated = u_allocated
  take_back ((key, value) ∷ rank) left_demand u_allocated =
      let taken = if ltb_num n value left_demand then value else left_demand in
      if ltb_num n (of_ℕ 0) left_demand
      then take_back rank (minus left_demand value) (change key (λ x. minus x taken) u_allocated)
      else u_allocated

  -- `combination(f_allocated, u_allocated, total_mem, config_mems)`
  unfoldable pub combination : Dict Num → Dict Num → Num → Dict Num → Option (Dict Num)
  unfolding exceeds sum_of sort give take_back
  combination f_allocated u_allocated total_mem config_mems =
      let demands = sum_of u_allocated in
      elim (exceeds f_allocated u_allocated) [
        | none ↦ none
        | some exceed ↦
            let sorted_exceed = sort by_value exceed in
            some (
              if ltb_num n demands total_mem
              then give config_mems sorted_exceed (minus total_mem demands) u_allocated
              else take_back (reverse sorted_exceed) (minus demands total_mem) u_allocated)
      ]
