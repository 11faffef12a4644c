-- ===== src/GradientPolicy/Allocate.antt =====
-- mom/Policy/GradientPolicy.py: the methods of `GradientPolicy` that move memory. `VM_Infos` is a
-- dictionary by name; `givers` and `takers`, which the source keys by the info object, are keyed by
-- its name. `giver_fair` and `taker_fair`, which are only written, are left out.
pub mod Gradient
pub mod Choice
use mom_perf_fair_scheduler.Common.{
  ℕ, ◌+◌, String, Bool, true, false, Option, none, some, List, [], ◌∷◌, ◌==◌, leb, ltb, not,
  if◌then◌else◌, Dict, lookup, values, length, str_eq, ◌&&◌,
}
use mom_perf_fair_scheduler.Number.{Number, ltb_num, eq_num, negate}
use mom_perf_fair_scheduler.RpPolicy.Allocate.{Progress, min_num}
use mom_perf_fair_scheduler.GradientPolicy.VmInfo.{
  VmInfo, Direction, no_direction, down, up, max_free, set_balloon, halve_step, update_limit2,
}

module _ (n : Number) where
  open n use {Num, of_ℕ, plus, minus, times, over, leb as le_num, round3}

  -- The change of one entry, found by its name, and that of every entry.
  unfoldable pub adjust : String → (VmInfo n → VmInfo n) → Dict (VmInfo n) → Dict (VmInfo n)
  adjust name f [] = []
  adjust name f ((k, i) ∷ infos) = (k, if str_eq k name then f i else i) ∷ adjust name f infos

  unfoldable pub for_all : (VmInfo n → VmInfo n) → Dict (VmInfo n) → Dict (VmInfo n)
  for_all f [] = []
  for_all f ((k, i) ∷ infos) = (k, f i) ∷ for_all f infos

  -- `check_finish(fairness)`; `completed` is the content of the message file.
  unfoldable pub check_finish : Num → Progress n → Progress n
  check_finish fairness p =
      let fair_round = round3 fairness in
      if eq_num n fair_round p.last_fair
      then record p {
        num_fair = p.num_fair + 1;
        completed = if leb 20 (p.num_fair + 1) then true else p.completed;
      }
      else record p { last_fair = fair_round; num_fair = 0 }

  -- `rate < 0` for no guest
  unfoldable pub rates_valid : List (VmInfo n) → Bool
  rates_valid [] = true
  rates_valid (i ∷ infos) = not (ltb_num n i.rate (of_ℕ 0)) && rates_valid infos

  -- `sum_a` and `sum_b`
  unfoldable pub sum_squares : List (VmInfo n) → Num
  sum_squares [] = of_ℕ 0
  sum_squares (i ∷ infos) = plus (times i.rate i.rate) (sum_squares infos)

  unfoldable pub sum_rates : List (VmInfo n) → Num
  sum_rates [] = of_ℕ 0
  sum_rates (i ∷ infos) = plus i.rate (sum_rates infos)

  -- What `partial_derivative(a, b, p_to_w, w)` divides by `w`.
  unfoldable pub numerator : Num → Num → Num → Num
  numerator a b p_to_w = minus a (times b p_to_w)

  unfoldable pub partial_derivative : Num → Num → Num → Num → Num
  unfolding numerator
  partial_derivative a b p_to_w w = over (numerator a b p_to_w) w

  -- The gradient of one guest.
  unfoldable pub gradient_of : Num → Num → VmInfo n → Num
  unfolding partial_derivative
  gradient_of sum_a sum_b i =
      partial_derivative (minus sum_a (times i.rate i.rate)) (minus sum_b i.rate) i.rate i.weight

  -- The second loop of `update_gradient`.
  unfoldable pub with_gradients : Num → Num → Num → Dict (VmInfo n) → Dict (VmInfo n)
  unfolding gradient_of for_all
  with_gradients fairness sum_a sum_b infos =
      for_all (λ i. record i { fairness = fairness; gradient = gradient_of sum_a sum_b i }) infos

  -- `update_gradient()`: none where it returns False.
  unfoldable pub update_gradient :
      Dict (VmInfo n) → Progress n → Option (Dict (VmInfo n) × Progress n)
  unfolding rates_valid sum_squares sum_rates with_gradients check_finish
  update_gradient infos progress =
      let sum_a = sum_squares (values infos) in
      let sum_b = sum_rates (values infos) in
      let fairness = over (times sum_b sum_b) (times (of_ℕ (length infos)) sum_a) in
      if rates_valid (values infos)
      then if eq_num n sum_a (of_ℕ 0)
        then none
        else some (with_gradients fairness sum_a sum_b infos, check_finish fairness progress)
      else none

  -- The body of `update_step` for one guest.
  unfoldable pub step_of : VmInfo n → VmInfo n
  unfolding halve_step
  step_of i =
      let falling = ltb_num n i.gradient (of_ℕ 0) in
      let rising = ltb_num n (of_ℕ 0) i.gradient in
      let halved : VmInfo n = elim i.grad_direct [
        | down ↦ if rising then halve_step n i else i
        | up ↦ if falling then halve_step n i else i
        | no_direction ↦ i
      ] in
      if falling
      then record halved { grad_direct = down }
      else if rising
      then record halved { grad_direct = up }
      else halved

  unfoldable pub update_step : Dict (VmInfo n) → Dict (VmInfo n)
  unfolding step_of for_all
  update_step infos = for_all step_of infos

  -- The loop that chooses the taker, with the highest gradient so far.
  unfoldable pub choose_taker : Num → Option (VmInfo n) → List (VmInfo n) → Option (VmInfo n)
  choose_taker taker_grad taker [] = taker
  choose_taker taker_grad taker (i ∷ infos) =
      let better = ltb_num n taker_grad i.gradient && ltb_num n i.speed (of_ℕ 1) in
      choose_taker (if better then i.gradient else taker_grad) (if better then some i else taker)
        infos

  -- The same for the giver, with the lowest gradient so far.
  unfoldable pub choose_giver : Num → Option (VmInfo n) → List (VmInfo n) → Option (VmInfo n)
  choose_giver giver_grad giver [] = giver
  choose_giver giver_grad giver (i ∷ infos) =
      let better = ltb_num n i.gradient giver_grad in
      choose_giver (if better then i.gradient else giver_grad) (if better then some i else giver)
        infos

  unfoldable pub final_blk : VmInfo n → VmInfo n → Num
  final_blk giver taker =
      min_num n (min_num n (min_num n giver.max_step taker.max_step) taker.limit2) giver.limit1

  pub record Transfer : Type 0 where
    pub givers : Dict Num
    pub takers : Dict Num

  abbrev pub no_transfer : Transfer
  no_transfer = record { givers = []; takers = [] }

  -- The end of `perf_fair`.
  unfoldable pub transfer_of : Option (VmInfo n) → Option (VmInfo n) → Transfer
  unfolding final_blk
  transfer_of (some giver) (some taker) =
      let blk = final_blk giver taker in
      record { givers = (giver.vm, negate n blk) ∷ []; takers = (taker.vm, blk) ∷ [] }
  transfer_of _ _ = no_transfer

  unfoldable pub perf_fair : Dict (VmInfo n) → Progress n → Dict (VmInfo n) × Progress n × Transfer
  unfolding update_gradient update_step choose_taker choose_giver transfer_of
  perf_fair infos progress = elim (update_gradient infos progress) [
    | none ↦ (infos, progress, no_transfer)
    | some (graded, progress') ↦
        let stepped = update_step graded in
        let giver = choose_giver (of_ℕ 0) none (values stepped) in
        let taker = choose_taker (of_ℕ 0) none (values stepped) in
        (stepped, progress', transfer_of giver taker)
  ]

  -- What `utilization` counts as free of one guest.
  unfoldable pub free_of : VmInfo n → Num
  free_of i = if ltb_num n i.used i.min then minus i.allocated i.min else i.free

  unfoldable pub total_free : List (VmInfo n) → Num
  unfolding free_of
  total_free [] = of_ℕ 0
  total_free (i ∷ infos) = plus (free_of i) (total_free infos)

  -- The second loop of `utilization`.
  unfoldable pub split_free : Num → List (VmInfo n) → Transfer
  unfolding free_of
  split_free target [] = no_transfer
  split_free target (i ∷ infos) =
      let rest = split_free target infos in
      let blk = minus target (free_of i) in
      if ltb_num n blk (of_ℕ 0)
      then record rest { givers = (i.vm, blk) ∷ rest.givers }
      else record rest { takers = (i.vm, blk) ∷ rest.takers }

  unfoldable pub utilization : List (VmInfo n) → Transfer
  unfolding total_free split_free
  utilization infos = split_free (over (total_free infos) (of_ℕ (length infos))) infos

  -- The test of `divide_group()`
  abbrev pub is_busy : VmInfo n → Bool
  is_busy i = ltb_num n i.free (of_ℕ max_free)

  -- `trigger_balloon(maps)`
  unfoldable pub trigger_balloon : Dict Num → Dict (VmInfo n) → Dict (VmInfo n)
  unfolding adjust set_balloon
  trigger_balloon [] infos = infos
  trigger_balloon ((name, blk) ∷ maps) infos =
      trigger_balloon maps
        (adjust name (λ i. set_balloon n (record i { allocated = plus i.allocated blk })) infos)

  -- `GradientPolicy.update_limit2()`, over the takers
  unfoldable pub update_limits : Dict Num → Dict (VmInfo n) → Dict (VmInfo n)
  unfolding adjust update_limit2
  update_limits [] infos = infos
  update_limits ((name, blk) ∷ takers) infos =
      update_limits takers
        (adjust name (λ i. if eq_num n blk i.limit2 then update_limit2 n i else i) infos)
