-- ===== src/RpPolicy/Allocate.antt =====
-- mom/Policy/RPPolicy.py: the methods of `RPPolicy` that move memory. `VM_Infos` is a dictionary
-- by name; `givers` and `takers`, which the source keys by the info object, are keyed by its name.
pub mod Choice
pub mod Conservation
pub mod Range
use mom_perf_fair_scheduler.Common.{
  ℕ, suc, ◌+◌, String, Bool, true, false, Option, none, some, List, [], ◌∷◌, ◌++◌, ◌==◌, leb, ltb,
  if◌then◌else◌, Dict, values, length, str_eq, ◌&&◌,
}
use mathlib.Core.List.{reverse}
use mom_perf_fair_scheduler.Common.Sort.{sort}
use mom_perf_fair_scheduler.Number.{Number, ltb_num, eq_num, negate}
use mom_perf_fair_scheduler.RpPolicy.VmInfo.{
  VmInfo, max_free, min_share, dist2low, dist2high, set_balloon, add_allocated,
}

module _ (n : Number) where
  open n use {Num, of_ℕ, plus, minus, times, over, leb as le_num, round3}

  abbrev pub min_num : Num → Num → Num
  min_num a b = if ltb_num n b a then b else a

  -- The change of one entry, found by its name.
  unfoldable pub adjust : String → (VmInfo n → VmInfo n) → Dict (VmInfo n) → Dict (VmInfo n)
  adjust name f [] = []
  adjust name f ((k, i) ∷ infos) = (k, if str_eq k name then f i else i) ∷ adjust name f infos

  -- The change of every entry.
  unfoldable pub for_all : (VmInfo n → VmInfo n) → Dict (VmInfo n) → Dict (VmInfo n)
  for_all f [] = []
  for_all f ((k, i) ∷ infos) = (k, f i) ∷ for_all f infos

  -- `firstTime(total_mem)`: none is the `ZeroDivisionError` where there is no guest.
  unfoldable pub first_time : Num → Dict (VmInfo n) → Option (Dict (VmInfo n))
  unfolding for_all set_balloon
  first_time total_mem infos =
      let share = over total_mem (of_ℕ (length infos)) in
      if length infos == 0
      then none
      else some (for_all (λ i. set_balloon n (record i { allocated = share })) infos)

  -- What `update_message` writes: `completed` is the content of the message file.
  pub record Progress : Type 0 where
    pub last_fair : Num
    pub num_fair : ℕ
    pub completed : Bool

  unfoldable pub update_message : Num → Progress → Progress
  update_message fairness p =
      let fair_round = round3 fairness in
      if eq_num n fair_round p.last_fair
      then record p {
        num_fair = p.num_fair + 1;
        completed = if leb 20 (p.num_fair + 1) then true else p.completed;
      }
      else record p { last_fair = fair_round; num_fair = 0 }

  -- `rate > 0` for every guest
  unfoldable pub rates_positive : List (VmInfo n) → Bool
  rates_positive [] = true
  rates_positive (i ∷ infos) = ltb_num n (of_ℕ 0) i.rate && rates_positive infos

  unfoldable pub sum_rates : List (VmInfo n) → Num
  sum_rates [] = of_ℕ 0
  sum_rates (i ∷ infos) = plus i.rate (sum_rates infos)

  unfoldable pub sum_squares : List (VmInfo n) → Num
  sum_squares [] = of_ℕ 0
  sum_squares (i ∷ infos) = plus (times i.rate i.rate) (sum_squares infos)

  -- Jain's index of the rates.
  unfoldable pub fairness_of : List (VmInfo n) → Num
  unfolding sum_rates sum_squares
  fairness_of infos =
      over (times (sum_rates infos) (sum_rates infos))
        (times (of_ℕ (length infos)) (sum_squares infos))

  abbrev pub by_rate : VmInfo n → VmInfo n → Bool
  by_rate i j = le_num i.rate j.rate

  -- The `while` loop over the ranking from its top: the first guest above its minimum, unless the
  -- loop comes down to the last place, which takes.
  unfoldable pub choose_giver : List (VmInfo n) → Option (VmInfo n)
  unfolding dist2low
  choose_giver [] = none
  choose_giver (i ∷ []) = none
  choose_giver (i ∷ j ∷ rest) =
      if le_num (dist2low n i) (of_ℕ 0) then choose_giver (j ∷ rest) else some i

  -- The memory that the giver passes to the taker.
  unfoldable pub final_blk : VmInfo n → VmInfo n → Num
  unfolding dist2low dist2high
  final_blk giver taker = min_num (min_num (dist2low n giver) (dist2high n taker)) (of_ℕ min_share)

  pub record Transfer : Type 0 where
    pub givers : Dict Num
    pub takers : Dict Num

  abbrev pub no_transfer : Transfer
  no_transfer = record { givers = []; takers = [] }

  -- The end of `dynamic_allocate`, over the ranking from the lowest rate.
  unfoldable pub transfer_of : List (VmInfo n) → Transfer
  unfolding choose_giver final_blk
  transfer_of [] = no_transfer
  transfer_of (taker ∷ others) = elim (choose_giver (reverse (taker ∷ others))) [
    | none ↦ no_transfer
    | some giver ↦
        let blk = final_blk giver taker in
        record { givers = (giver.vm, negate n blk) ∷ []; takers = (taker.vm, blk) ∷ [] }
  ]

  -- `dynamic_allocate()`: none is the `ZeroDivisionError` where there is no guest. The loop is over
  -- the infos `VM_Infos.values()`.
  unfoldable pub dynamic_allocate :
      Dict (VmInfo n) → Progress → Option (Dict (VmInfo n) × Progress × Transfer)
  unfolding rates_positive fairness_of update_message transfer_of for_all sort
  dynamic_allocate infos progress =
      let fairness = fairness_of (values infos) in
      let rated = for_all (λ i. record i { fairness = fairness }) infos in
      if length infos == 0
      then none
      else if rates_positive (values infos)
      then some (rated, update_message fairness progress, transfer_of (sort by_rate (values rated)))
      else some (infos, progress, no_transfer)

  -- What `meanByFree` counts as free of one guest.
  unfoldable pub free_of : VmInfo n → Num
  free_of i = if ltb_num n i.used i.min then minus i.allocated i.min else i.free

  unfoldable pub total_free : List (VmInfo n) → Num
  unfolding free_of
  total_free [] = of_ℕ 0
  total_free (i ∷ infos) = plus (free_of i) (total_free infos)

  -- The second loop of `meanByFree`.
  unfoldable pub split_free : Num → List (VmInfo n) → Transfer
  unfolding free_of
  split_free target [] = no_transfer
  split_free target (i ∷ infos) =
      let rest = split_free target infos in
      let blk = minus target (free_of i) in
      if ltb_num n blk (of_ℕ 0)
      then record rest { givers = (i.vm, blk) ∷ rest.givers }
      else record rest { takers = (i.vm, blk) ∷ rest.takers }

  unfoldable pub mean_by_free : List (VmInfo n) → Transfer
  unfolding total_free split_free
  mean_by_free infos = split_free (over (total_free infos) (of_ℕ (length infos))) infos

  -- `seperate()`: whether there is a busy guest, and whether there is an idle one.
  abbrev pub is_busy : VmInfo n → Bool
  is_busy i = ltb_num n i.free (of_ℕ max_free)

  -- `trigger_balloon(maps)`
  unfoldable pub trigger_balloon : Dict Num → Dict (VmInfo n) → Dict (VmInfo n)
  unfolding adjust set_balloon add_allocated
  trigger_balloon [] infos = infos
  trigger_balloon ((name, blk) ∷ maps) infos =
      trigger_balloon maps (adjust name (λ i. set_balloon n (add_allocated n blk i)) infos)
