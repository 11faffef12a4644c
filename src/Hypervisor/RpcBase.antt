-- ===== src/Hypervisor/RpcBase.antt =====
-- mom/HypervisorInterfaces/vdsmRpcBase.py: `VdsmRpcBase`, the queries on the statistics that vdsm
-- reports. `getAllVmStats` of the subclasses, and `int(v)` with none where it raises, are
-- arguments. A value of a report is a plain one or a dictionary of them.
pub mod Balloon
use mom_perf_fair_scheduler.Common.{
  ℕ, String, Bool, true, false, ◌||◌, Option, none, some, List, [], ◌∷◌, if◌then◌else◌, Dict,
  lookup, insert, remove, contains, keys,
}

-- How a query ends: with a value, with `None`, with the exception of the interface, or with
-- another one.
pub data Ending (A : Type 0) : Type 0 where
  returns : A → Ending A
  returns_none : Ending A
  interface_error : Ending A
  other_error : Ending A

pub data Field (V : Type 0) : Type 0 where
  plain : V → Field V
  table : Dict V → Field V

abbrev pub VmStats : Type 0 → Type 0
VmStats V = Dict (Field V)

-- An exception that is not the interface's, where there is no value.
abbrev pub or_error : {A : Type 0} → Option A → Ending A
or_error none = other_error
or_error (some a) = returns a

abbrev and_then : {A B : Type 0} → Option A → (A → Option B) → Option B
and_then none f = none
and_then (some a) f = f a

abbrev pub after : {A B : Type 0} → Ending A → (A → Ending B) → Ending B
after (returns a) f = f a
after returns_none f = returns_none
after interface_error f = interface_error
after other_error f = other_error

-- The names that `getVmBalloonInfo` keeps.
unfoldable pub balloon_fields : List String
balloon_fields = "balloon_max" ∷ "balloon_min" ∷ "balloon_cur" ∷ []

-- What `getVmInfo` returns: the process, if it is told, and the name.
pub record VmInfo (V : Type 0) : Type 0 where
  pub pid : Option (Field V)
  pub name : Field V

module _ {V : Type 0} where
  -- `vm[name]` of a plain value
  abbrev plain_of : Option (Field V) → Option V
  plain_of (some (plain v)) = some v
  plain_of _ = none

  -- `_getVmStats(vmId)`, on the answer of `getAllVmStats`
  unfoldable pub get_vm_stats : String → Dict (VmStats V) → Ending (VmStats V)
  unfolding lookup
  get_vm_stats id all = elim (lookup id all) [ none ↦ interface_error | some vm ↦ returns vm ]

  -- A test of a value, which a dictionary does not pass.
  abbrev test_plain : (V → Bool) → Field V → Bool
  test_plain p (plain v) = p v
  test_plain p (table d) = false

  -- `getVmList()`, with the test `status == 'Up'`
  unfoldable pub get_vm_list : (V → Bool) → Dict (VmStats V) → Option (List (Field V))
  unfolding lookup
  get_vm_list is_up [] = some []
  get_vm_list is_up ((id, vm) ∷ all) =
      let rest = get_vm_list is_up all in
      let with_id = and_then (lookup "vmId" vm) λ vm_id. and_then rest λ ids. some (vm_id ∷ ids) in
      and_then (lookup "status" vm) λ status. if test_plain is_up status then with_id else rest

  abbrev lacks : (V → Bool) → Option (Field V) → Bool
  lacks is_none none = false
  lacks is_none (some field) = test_plain is_none field

  -- `getVmInfo(uuid)`
  unfoldable pub get_vm_info : (V → Bool) → String → Dict (VmStats V) → Ending (VmInfo V)
  unfolding get_vm_stats lookup
  get_vm_info is_none uuid all = after (get_vm_stats uuid all) λ vm.
      after (or_error (lookup "vmName" vm)) λ name.
        if lacks is_none (lookup "pid" vm) || test_plain is_none name
        then returns_none
        else returns (record { pid = lookup "pid" vm; name = name })

module _ {V N : Type 0} (to_int : V → Option N) where
  -- `int(stats[name])`
  unfoldable pub int_at : String → Dict V → Option N
  unfolding lookup
  int_at name stats = and_then (lookup name stats) to_int

  -- The loop of `getVmBalloonInfo`: the fields of other names go, and the others become numbers.
  unfoldable pub balloon_info : Dict V → Option (Dict N)
  unfolding contains balloon_fields
  balloon_info [] = some []
  balloon_info ((key, v) ∷ info) =
      let rest = balloon_info info in
      let with_key = and_then (to_int v) λ x. and_then rest λ others. some ((key, x) ∷ others) in
      if contains key balloon_fields then with_key else rest

  -- `getVmBalloonInfo(uuid)`: where nothing is reported, it returns `None`.
  unfoldable pub read_balloon : Option (Field V) → Ending (Dict N)
  unfolding balloon_info
  read_balloon none = returns_none
  read_balloon (some (plain v)) = other_error
  read_balloon (some (table [])) = returns_none
  read_balloon (some (table (entry ∷ info))) = or_error (balloon_info (entry ∷ info))

  unfoldable pub get_vm_balloon_info : String → Dict (VmStats V) → Ending (Dict N)
  unfolding get_vm_stats read_balloon lookup
  get_vm_balloon_info uuid all =
      after (get_vm_stats uuid all) λ vm. read_balloon (lookup "balloonInfo" vm)

  module _ (of_ℕ : ℕ → N) where
    -- `int(stats.get(name, default))`
    unfoldable pub int_or : ℕ → String → Dict V → Option N
    unfolding lookup
    int_or default name stats = elim (lookup name stats) [
      | none ↦ some (of_ℕ default)
      | some v ↦ to_int v
    ]

    -- `int(vm.get(name, default))`
    unfoldable pub plain_int_or : ℕ → String → VmStats V → Option N
    unfolding lookup
    plain_int_or default name vm = elim (lookup name vm) [
      | none ↦ some (of_ℕ default)
      | some (plain v) ↦ to_int v
      | some (table stats) ↦ none
    ]

    -- `getVmCpuTuneInfo(uuid)`: without a count of CPUs it returns `None`.
    unfoldable pub get_vm_cpu_tune_info : String → Dict (VmStats V) → Ending (Dict N)
    unfolding get_vm_stats plain_int_or lookup
    get_vm_cpu_tune_info uuid all = after (get_vm_stats uuid all) λ vm.
        elim (lookup "vcpuCount" vm) [
          | none ↦ returns_none
          | some count ↦ or_error (
              and_then (plain_int_or 100 "vcpuUserLimit" vm) λ limit.
                and_then (plain_int_or 0 "vcpuQuota" vm) λ quota.
                  and_then (plain_int_or 0 "vcpuPeriod" vm) λ period.
                    and_then (and_then (plain_of (some count)) to_int) λ vcpus. some (
                      ("vcpu_user_limit", limit)
                      ∷ ("vcpu_quota", quota)
                      ∷ ("vcpu_period", period)
                      ∷ ("vcpu_count", vcpus)
                      ∷ []))
        ]

    module _ (minus : N → N → N) (is_zero : N → Bool) where
      -- The dictionary that `getVmMemoryStats` makes of the statistics of the memory.
      unfoldable pub memory_stats : Dict V → Option (Dict N)
      unfolding int_at int_or
      memory_stats stats = and_then (int_at "mem_total" stats) λ mem_total.
          and_then (int_at "mem_unused" stats) λ mem_unused.
            and_then (int_at "mem_free" stats) λ mem_free.
              and_then (int_at "majflt" stats) λ majflt.
                and_then (int_at "pageflt" stats) λ pageflt.
                  and_then (int_at "swap_in" stats) λ swap_in.
                    and_then (int_at "swap_out" stats) λ swap_out.
                      and_then (int_or 0 "swap_total" stats) λ swap_total.
                        and_then (int_or 0 "swap_usage" stats) λ swap_usage. some (
                          ("mem_available", mem_total)
                          ∷ ("mem_unused", mem_unused)
                          ∷ ("mem_free", mem_free)
                          ∷ ("major_fault", majflt)
                          ∷ ("minor_fault", minus pageflt majflt)
                          ∷ ("swap_in", swap_in)
                          ∷ ("swap_out", swap_out)
                          ∷ ("swap_total", swap_total)
                          ∷ ("swap_usage", swap_usage)
                          ∷ [])

      -- What `getVmMemoryStats` does with the field `memoryStats`: one that is empty is an error.
      unfoldable pub read_memory : Option (Field V) → Ending (Dict N)
      unfolding memory_stats
      read_memory (some (table [])) = interface_error
      read_memory (some (table (entry ∷ stats))) = or_error (memory_stats (entry ∷ stats))
      read_memory _ = other_error

      unfoldable pub get_vm_memory_stats : String → Dict (VmStats V) → Ending (Dict N)
      unfolding get_vm_stats read_memory lookup
      get_vm_memory_stats uuid all = after (get_vm_stats uuid all) λ vm.
          after (or_error (and_then (plain_of (lookup "memUsage" vm)) to_int)) λ usage.
            if is_zero usage then interface_error else read_memory (lookup "memoryStats" vm)
