-- ===== src/Hypervisor/Vdsm/Tests.antt =====
-- Calls of vdsm by the classes below `VdsmRpcBase`, and the theorem about an outage at one.
use mom_perf_fair_scheduler.Common.{String, ◌≡◌, refl, false, none, some, List, [], ◌∷◌, Dict}
use mom_perf_fair_scheduler.Number.Integers.{pos, integers, leb_ℤ, ◌-ℤ◌}
use mom_perf_fair_scheduler.Hypervisor.Memoize.{is_expired}
use mom_perf_fair_scheduler.Hypervisor.RpcBase.{VmStats, plain, interface_error}
use mom_perf_fair_scheduler.Hypervisor.Vdsm.{
  Answer, socket_error, error_status, replies, xml_rpc, json_vm_stats, client_vm_stats,
  get_all_vm_stats, vm_stats_at, json_io_tune, bulk_io_tune,
}
use mom_perf_fair_scheduler.Hypervisor.Vdsm.Outage.{outage_stays}

abbrev vm : VmStats String
vm = ("vmId", plain "a") ∷ ("status", plain "Up") ∷ []

abbrev text : String → String
text s = s

-- The guest is in both lists, and once in the result.
json_vm_stats_runs :
    json_vm_stats text (replies (("items", vm ∷ []) ∷ ("result", vm ∷ []) ∷ []))
    ≡ some (("a", vm) ∷ [])
unfolding json_vm_stats
json_vm_stats_runs = refl

missing_id_runs : client_vm_stats text (replies ((("status", plain "Up") ∷ []) ∷ [])) ≡ none
unfolding client_vm_stats
missing_id_runs = refl

io_tune_runs :
    (json_io_tune {T = String} "unlimited" (replies []) ≡ some "unlimited")
    × (json_io_tune {T = String} "unlimited" error_status ≡ none)
    × (bulk_io_tune {T = String} "policy" "a" (replies (("a", ("policy", "fast") ∷ []) ∷ []))
        ≡ some "fast")
unfolding json_io_tune bulk_io_tune
io_tune_runs = (refl, refl, refl)

-- vdsm is back after 3 s, and the cache holds for 5 s.
abbrev working : Answer (Dict (List (VmStats String)))
working = replies (("statsList", vm ∷ []) ∷ [])

cache_is_fresh : is_expired integers (Dict (VmStats String)) (pos 5) (pos 103) (pos 100) ≡ false
unfolding is_expired leb_ℤ ◌-ℤ◌
cache_is_fresh = refl

outage_stays_example :
    vm_stats_at integers xml_rpc text
      (pos 5)
      (pos 103)
      "all"
      working
      ((get_all_vm_stats integers xml_rpc text (pos 5) (pos 100) "all" socket_error []).1)
      "a"
    ≡ interface_error
unfolding get_all_vm_stats
outage_stays_example =
    outage_stays integers text (pos 5) xml_rpc (pos 100) (pos 103) "all" "a" socket_error working []
      tt refl cache_is_fresh
