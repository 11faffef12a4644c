-- ===== src/Collectors/Counters.antt =====
-- Proofs about the counters of mom/Collectors: the differences of a run of rounds, and the
-- wrap-around.
pub mod Tests
use mom_perf_fair_scheduler.Common.{
  ℕ, ◌+◌, ◌-◌, ◌%◌, ◌^◌, ◌<◌, String, ◌≡◌, refl, ap, ◌∙◌, Option, none, some, List, [], ◌∷◌, arith,
  Dict, lookup,
}
use mom_perf_fair_scheduler.Number.{Number, IsExact, sum}
use mom_perf_fair_scheduler.Collectors.{
  HostMemory, Memory, host_memory, interval_jiffies, previous_or,
}

-- If a counter of 32 bits increases by less than 2 ^ 32 between two rounds, then the jiffies that
-- are computed are that increase, also where the counter wraps around.
pub interval_jiffies_wraps :
    (count increase : ℕ)
    → increase < 2 ^ 32
    → interval_jiffies (count % 2 ^ 32) ((count + increase) % 2 ^ 32) ≡ increase
unfolding interval_jiffies
interval_jiffies_wraps count increase h = omega (arith, h)

module _ (n : Number) (laws : IsExact n) where
  open n use {Num, of_ℕ, plus, minus}

  -- The values of a field in the rows of some rounds.
  unfoldable pub field_of_rounds : String → List (Memory n) → HostMemory n → List (Option Num)
  field_of_rounds field [] h = []
  field_of_rounds field (m ∷ ms) h =
      lookup field (host_memory n m h).0 ∷ field_of_rounds field ms (host_memory n m h).1

  abbrev pub total_of : List (Option Num) → Num
  total_of [] = of_ℕ 0
  total_of (none ∷ vs) = total_of vs
  total_of (some v ∷ vs) = plus v (total_of vs)

  abbrev pub last_swap_in : Num → List (Memory n) → Num
  last_swap_in before [] = before
  last_swap_in before (m ∷ ms) = last_swap_in m.pswpin ms

  regroup : (a b c : Num) → plus (plus (minus a b) c) b ≡ plus c a
  regroup a b c =
      ap (λ x. plus x b) (laws.plus_comm (minus a b) c)
      ∙ laws.plus_assoc c (minus a b) b
      ∙ ap (plus c) (laws.minus-plus a b)

  -- With exact arithmetic, the pages swapped in that some rounds report add up to the increase of
  -- the counter from the round before them to the last of them.
  pub swap_in_adds_up :
      (ms : List (Memory n)) (h : HostMemory n) (before : Num)
      → h.swap_in_cur ≡ some before
      → plus (total_of (field_of_rounds "swap_in" ms h)) before ≡ last_swap_in before ms
  unfolding field_of_rounds host_memory lookup
  swap_in_adds_up ms h before e = go ms h before (some before) e refl
    where
      go :
          (ms : List (Memory n)) (h : HostMemory n) (before : Num) (o : Option Num)
          → h.swap_in_cur ≡ o
          → o ≡ some before
          → plus (total_of (field_of_rounds "swap_in" ms h)) before ≡ last_swap_in before ms
      go [] h before o e f = laws.plus_comm (of_ℕ 0) before ∙ laws.plus-zero before
      go (m ∷ ms) h before none e f = absurd (ground arith)
      go (m ∷ ms) h before (some b) e f =
          let same : previous_or m.pswpin h.swap_in_cur ≡ before = ground (arith, e, f) in
          rw same (regroup m.pswpin before _ ∙ go ms _ m.pswpin (some m.pswpin) refl refl)
