-- ===== src/Controllers/Settled/Tests.antt =====
-- The controllers on one host and two guests, and the theorems about them at concrete inputs.
use mom_perf_fair_scheduler.Common.{ℕ, String, ◌≡◌, refl, true, [], ◌∷◌, Dict, ◌==◌, arith, lookup}
use mom_perf_fair_scheduler.Entity.{Entity}
use mom_perf_fair_scheduler.Common.Texts.{join}
use mom_perf_fair_scheduler.Controllers.{ksm_tune, ksm_process}
use mom_perf_fair_scheduler.Controllers.Settled.{ksm_process_again}

-- A host or a guest with one control.
abbrev entity : String → ℕ → Entity ℕ
entity key n = record {
  properties = ("uuid", 1) ∷ ("name", 2) ∷ [];
  variables = [];
  statistics = [];
  controls = (key, n) ∷ [];
  attributes = [];
  valid_fields = "balloon_cur" ∷ [];
}

abbrev settings : Dict ℕ
settings = ("run", 0) ∷ ("pages_to_scan", 0) ∷ []

abbrev host : Entity ℕ
host = entity "ksm_run" 1

same_refl : (a : ℕ) → (a == a) ≡ true
same_refl a = ground arith

ksm_process_runs :
    ksm_process ◌==◌ host settings
    ≡ (ksm_tune (("run", 1) ∷ []) ∷ [], ("run", 1) ∷ ("pages_to_scan", 0) ∷ [])
unfolding ksm_process lookup join
ksm_process_runs = refl

ksm_process_again_example :
    ksm_process ◌==◌ host (ksm_process ◌==◌ host settings).1
    ≡ ([], (ksm_process ◌==◌ host settings).1)
ksm_process_again_example = ksm_process_again ◌==◌ same_refl host settings
