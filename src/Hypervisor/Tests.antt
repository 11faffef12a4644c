-- ===== src/Hypervisor/Tests.antt =====
-- Calls of a cached function and queries on a report of vdsm, over the integers, and the theorems
-- about them at concrete inputs.
use mom_perf_fair_scheduler.Common.{
  ℕ, String, ◌≡◌, ◌⊎◌, refl, false, Option, none, some, [], ◌∷◌, Dict, contains, ◌-◌, ◌==◌,
}
use mom_perf_fair_scheduler.Number.Integers.{ℤ, pos, integers, leb_ℤ, ◌-ℤ◌}
use mom_perf_fair_scheduler.Hypervisor.Memoize.{
  Call, after_calls, memoizer, Answered, is_expired, memoizer-Answered,
}
use mom_perf_fair_scheduler.Hypervisor.RpcBase.{
  VmStats, plain, table, interface_error, balloon_info, get_vm_balloon_info, get_vm_memory_stats,
}

-- The second call comes 3 s after the first, with an expiration of 5 s.
abbrev first_call : Call integers ℕ
first_call = record { now = pos 100; key = "all"; answer = some 7 }

abbrev second_call : Call integers ℕ
second_call = record { now = pos 103; key = "all"; answer = some 8 }

abbrev result_of : Call integers ℕ → Option ℕ
result_of c =
    (memoizer integers ℕ (pos 5) c.now c.key c.answer
      (after_calls integers ℕ (pos 5) (first_call ∷ []))).0

cached_runs : result_of second_call ≡ some 7
unfolding memoizer after_calls leb_ℤ ◌-ℤ◌
cached_runs = refl

expired_runs : result_of (record second_call { now = pos 106 }) ≡ some 8
unfolding memoizer after_calls leb_ℤ ◌-ℤ◌
expired_runs = refl

memoizer-Answered_example :
    (time : ℤ) × Answered integers ℕ "all" 7 time (second_call ∷ first_call ∷ [])
    × ((time ≡ pos 103) ⊎ (is_expired integers ℕ (pos 5) (pos 103) time ≡ false))
memoizer-Answered_example =
    memoizer-Answered integers ℕ (pos 5) (first_call ∷ []) second_call 7 cached_runs

abbrev digits : String → Option ℕ
digits s = elim s [ String.[] ↦ none | String.◌∷◌ c r ↦ some 9 ]

abbrev info : Dict String
info = ("balloon_max", "4096") ∷ ("ballooning", "true") ∷ ("balloon_cur", "2048") ∷ []

abbrev numbers : Dict ℕ
numbers = ("balloon_max", 9) ∷ ("balloon_cur", 9) ∷ []

balloon_info_runs : balloon_info digits info ≡ some numbers
unfolding balloon_info contains
balloon_info_runs = refl

-- A guest whose agent reports no memory use, and an unknown one.
abbrev report : Dict (VmStats String)
report =
    ("vm", ("memUsage", plain "0") ∷ ("balloonInfo", table info) ∷ ("status", plain "Up") ∷ []) ∷ []

inactive_agent_runs :
    get_vm_memory_stats digits (λ n. n) ◌-◌ (λ n. n == 9) "vm" report ≡ interface_error
unfolding get_vm_memory_stats
inactive_agent_runs = refl

unknown_guest_runs : get_vm_balloon_info digits "other" report ≡ interface_error
unfolding get_vm_balloon_info
unknown_guest_runs = refl
