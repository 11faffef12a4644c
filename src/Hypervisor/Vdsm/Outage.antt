-- ===== src/Hypervisor/Vdsm/Outage.antt =====
-- mom/HypervisorInterfaces/vdsmjsonrpcInterface.py and vdsmxmlrpcInterface.py: what a failed call of
-- vdsm does to the queries after it.
use mom_perf_fair_scheduler.Common.{
  String, ◌≡◌, refl, true, false, some, List, [], Dict, lookup, lookup-insert, arith, eq_iff,
}
use mom_perf_fair_scheduler.Number.{Number}
use mom_perf_fair_scheduler.Optional.{missing, item, iterate_optional}
use mom_perf_fair_scheduler.Hypervisor.Memoize.{Cache, memoizer, needs_call, is_expired}
use mom_perf_fair_scheduler.Hypervisor.RpcBase.{VmStats, interface_error, get_vm_stats}
use mom_perf_fair_scheduler.Hypervisor.Vdsm.{
  Answer, socket_error, error_status, no_response, replies, Protocol, xml_rpc, json_rpc,
  checked_call, vm_stats_at, store_vms, vm_stats_of, xml_vm_stats, json_vm_stats, get_all_vm_stats,
}

module _ {V : Type 0} (n : Number) (text : V → String) (expiration : n.Num) where
  open n use {Num}

  abbrev Stats : Type 0
  Stats = Answer (Dict (List (VmStats V)))

  -- The failures that both classes catch.
  abbrev pub IsOutage : Stats → Type 0
  IsOutage socket_error = Unit {0}
  IsOutage error_status = Unit {0}
  IsOutage no_response = ⊥
  IsOutage (replies response) = ⊥

  outage-vm_stats_of :
      (protocol : Protocol) (answer : Stats)
      → IsOutage answer
      → vm_stats_of protocol text answer ≡ some []
  unfolding vm_stats_of xml_vm_stats json_vm_stats checked_call missing item iterate_optional
      store_vms
  outage-vm_stats_of xml_rpc socket_error h = refl
  outage-vm_stats_of xml_rpc error_status h = refl
  outage-vm_stats_of xml_rpc no_response h = absurd h
  outage-vm_stats_of xml_rpc (replies r) h = absurd h
  outage-vm_stats_of json_rpc socket_error h = refl
  outage-vm_stats_of json_rpc error_status h = refl
  outage-vm_stats_of json_rpc no_response h = absurd h
  outage-vm_stats_of json_rpc (replies r) h = absurd h

  -- The cache after a call that fails, where the cache has no answer that is new enough.
  lookup-outage :
      (protocol : Protocol) (now : Num) (key : String) (failed : Stats)
      (cache : Cache n (Dict (VmStats V)))
      → IsOutage failed
      → needs_call n (Dict (VmStats V)) expiration now (lookup key cache) ≡ true
      → lookup key ((get_all_vm_stats n protocol text expiration now key failed cache).1)
        ≡ some ([], now)
  unfolding get_all_vm_stats memoizer
  lookup-outage protocol now key failed cache h needed =
      rw (outage-vm_stats_of protocol failed h, needed) ground
        (arith, lookup-insert key key ([], now) cache, (eq_iff key key).1 refl)

  -- If a call of vdsm fails for want of a connection or with an error status, and the cache had no
  -- answer that is new enough, then until the expiration of the cache every query of any guest
  -- raises the exception of the interface, whatever vdsm would answer by then.
  pub outage_stays :
      (protocol : Protocol) (now later : Num) (key id : String) (failed answer : Stats)
      (cache : Cache n (Dict (VmStats V)))
      → IsOutage failed
      → needs_call n (Dict (VmStats V)) expiration now (lookup key cache) ≡ true
      → is_expired n (Dict (VmStats V)) expiration later now ≡ false
      → vm_stats_at n protocol text expiration later key answer
          ((get_all_vm_stats n protocol text expiration now key failed cache).1)
          id
        ≡ interface_error
  unfolding vm_stats_at memoizer get_vm_stats lookup
  outage_stays protocol now later key id failed answer cache h needed fresh =
      rw (lookup-outage protocol now key failed cache h needed, fresh) refl
