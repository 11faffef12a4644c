-- ===== src/Hypervisor/Vdsm.antt =====
-- mom/HypervisorInterfaces/vdsmjsonrpcInterface.py, vdsmxmlrpcInterface.py and
-- vdsmjsonrpcclientInterface.py, with vdsmjsonrpcbulkInterface.py: the calls of vdsm by which the
-- classes below `VdsmRpcBase` read. What vdsm answers is an argument; a response has a status. The
-- methods that only send, and the log, are left out.
pub mod Outage
pub mod Tests
use mom_perf_fair_scheduler.Common.{String, Option, none, some, List, [], ◌∷◌, Dict, lookup, insert}
use mom_perf_fair_scheduler.Number.{Number}
use mom_perf_fair_scheduler.Optional.{
  Optional, missing, or_none, get_optional, item, iterate_optional,
}
use mom_perf_fair_scheduler.Hypervisor.Memoize.{Cache, memoizer}
use mom_perf_fair_scheduler.Hypervisor.RpcBase.{
  Field, plain, VmStats, VmInfo, Ending, or_error, after, get_vm_stats,
}

-- How a call of vdsm ends: no connection, a response whose status is an error, none in time, or one
-- with this content. `JsonRpcVdsmInterface` and `XmlRpcVdsmInterface` raise the exceptions that they
-- catch for the first three.
pub data Answer (A : Type 0) : Type 0 where
  socket_error error_status no_response : Answer A
  replies : A → Answer A

-- `checked_call(vdsm_method)`
unfoldable pub checked_call : {A : Type 0} → Answer A → Optional A
unfolding missing
checked_call (replies response) = record { contents = some response }
checked_call _ = missing

-- The classes over XML-RPC and over JSON-RPC.
pub data Protocol : Type 0 where
  xml_rpc json_rpc : Protocol

-- What comes after an exception does not happen.
abbrev pub and_then : {A B : Type 0} → Option A → (A → Option B) → Option B
and_then none f = none
and_then (some a) f = f a

module _ {V : Type 0} where
  -- `vm['vmId']`, none for a key that is missing or a value that is no key
  abbrev pub id_of : (V → String) → VmStats V → Option String
  unfolding lookup
  id_of text vm = plain_text (lookup "vmId" vm)
    where
      plain_text : Option (Field V) → Option String
      plain_text (some (plain v)) = some (text v)
      plain_text _ = none

  -- `for vm in ...: vms[vm['vmId']] = vm`, none for the exception of a missing key
  abbrev pub store_vm : Option String → VmStats V → Dict (VmStats V) → Option (Dict (VmStats V))
  unfolding insert
  store_vm none vm vms = none
  store_vm (some id) vm vms = some (insert id vm vms)

  unfoldable pub store_vms :
      (V → String) → List (VmStats V) → Dict (VmStats V) → Option (Dict (VmStats V))
  unfolding id_of store_vm
  store_vms text [] vms = some vms
  store_vms text (vm ∷ list) vms = and_then (store_vm (id_of text vm) vm vms) (store_vms text list)

  -- `getAllVmStats()` of `JsonRpcVdsmInterface`
  unfoldable pub json_vm_stats :
      (V → String) → Answer (Dict (List (VmStats V))) → Option (Dict (VmStats V))
  unfolding store_vms checked_call item iterate_optional
  json_vm_stats text answer =
      let ret = checked_call answer in
      and_then (store_vms text (iterate_optional (item "result" ret)) [])
        (store_vms text (iterate_optional (item "items" ret)))

  -- `getAllVmStats()` of `XmlRpcVdsmInterface`
  unfoldable pub xml_vm_stats :
      (V → String) → Answer (Dict (List (VmStats V))) → Option (Dict (VmStats V))
  unfolding store_vms lookup
  xml_vm_stats text (replies ret) =
      and_then (lookup "statsList" ret) λ stats_list. store_vms text stats_list []
  xml_vm_stats text no_response = none
  xml_vm_stats text _ = some []

  -- `getAllVmStats()` of `JsonRpcVdsmClientInterface`, where any failure is a `ServerError`
  unfoldable pub client_vm_stats :
      (V → String) → Answer (List (VmStats V)) → Option (Dict (VmStats V))
  unfolding store_vms checked_call iterate_optional
  client_vm_stats text answer = store_vms text (iterate_optional (checked_call answer)) []

  abbrev pub vm_stats_of :
      Protocol → (V → String) → Answer (Dict (List (VmStats V))) → Option (Dict (VmStats V))
  unfolding xml_vm_stats json_vm_stats
  vm_stats_of xml_rpc text answer = xml_vm_stats text answer
  vm_stats_of json_rpc text answer = json_vm_stats text answer

  module _ (n : Number) where
    open n use {Num}

    -- `getAllVmStats()` under `@memoize(expiration=CACHE_EXPIRATION)`, at a time
    unfoldable pub get_all_vm_stats :
        Protocol
        → (V → String)
        → Num
        → Num
        → String
        → Answer (Dict (List (VmStats V)))
        → Cache n (Dict (VmStats V))
        → Option (Dict (VmStats V)) × Cache n (Dict (VmStats V))
    unfolding vm_stats_of memoizer
    get_all_vm_stats protocol text expiration now key answer cache =
        memoizer n (Dict (VmStats V)) expiration now key (vm_stats_of protocol text answer) cache

    -- `_getVmStats(vmId)` with it
    unfoldable pub vm_stats_at :
        Protocol
        → (V → String)
        → Num
        → Num
        → String
        → Answer (Dict (List (VmStats V)))
        → Cache n (Dict (VmStats V))
        → String
        → Ending (VmStats V)
    unfolding get_all_vm_stats get_vm_stats
    vm_stats_at protocol text expiration now key answer cache id =
        after (or_error ((get_all_vm_stats protocol text expiration now key answer cache).0))
          (get_vm_stats id)

-- `getVmIoTunePolicy(vmId)` and `getVmIoTune(vmId)` of the three classes: of `JsonRpcVdsmInterface`,
-- of `XmlRpcVdsmInterface` with the name of the field, and of the two with one call for all guests,
-- with the name of the part of the result. `unlimited` is the empty list.
module _ {T : Type 0} (unlimited : T) where
  unfoldable pub json_io_tune : Answer (Dict T) → Option T
  unfolding checked_call get_optional or_none
  json_io_tune answer = or_none (get_optional "items" unlimited (checked_call answer))

  unfoldable pub xml_io_tune : String → Answer (Dict T) → Option T
  unfolding lookup
  xml_io_tune name (replies result) = elim (lookup name result) [
    | none ↦ some unlimited
    | some policy ↦ some policy
  ]
  xml_io_tune name _ = none

unfoldable pub bulk_io_tune : {T : Type 0} → String → String → Answer (Dict (Dict T)) → Option T
unfolding checked_call item or_none
bulk_io_tune part id answer = or_none (item part (item id (checked_call answer)))
