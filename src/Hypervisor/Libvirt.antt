-- ===== src/Hypervisor/Libvirt.antt =====
-- mom/HypervisorInterfaces/libvirtInterface.py: `libvirtInterface`, the connection to libvirt and the
-- methods that use it. What libvirt answers and does to the system is the parameter `Libvirt`. The
-- logging is left out, and so are the tuning of the CPUs and of KSM and the commands to the agent.
pub mod Opened
pub mod Tests
pub mod Told
use mom_perf_fair_scheduler.Common.{
  ℕ, String, Bool, true, false, ◌==◌, ◌||◌, Option, none, some, List, [], ◌∷◌, if◌then◌else◌, Dict,
  lookup, contains,
}

-- The answer of a call, or the code of a `libvirtError`.
pub data Reply (A : Type 0) : Type 0 where
  answers : A → Reply A
  fails : ℕ → Reply A

-- What `domain.info()` tells of the memory.
pub record DomainInfo : Type 0 where
  pub max_mem : ℕ
  pub memory : ℕ

-- The calls of libvirt, over the state of the system. `close` is one whose error is ignored,
-- `pids` are the matches in the output of `ps`, `min_guarantee` is the text of the element in the
-- description of a domain, if it has one, and `set_stats_period` is one that may be missing.
pub record Libvirt : Type 1 where
  pub World : Type 0
  pub Handle : Type 0
  pub Domain : Type 0
  pub system_error : ℕ
  pub invalid_conn : ℕ
  pub open_conn : World → Reply Handle × World
  pub close : Handle → World → World
  pub list_domains : Handle → World → Reply (List ℕ) × World
  pub lookup_by_id : Handle → ℕ → World → Reply Domain × World
  pub lookup_by_uuid : Handle → String → World → Reply Domain × World
  pub domain_uuid : Domain → World → Reply String × World
  pub domain_name : Domain → World → Reply String × World
  pub domain_info : Domain → World → Reply DomainInfo × World
  pub min_guarantee : Domain → World → Reply (Option String) × World
  pub domain_stats : Domain → World → Reply (Dict ℕ) × World
  pub set_stats_period : Domain → ℕ → World → Reply (Unit {0}) × World
  pub set_memory : Domain → ℕ → World → Reply ℕ × World
  pub pids : String → World → List ℕ

pub data Exception : Type 0 where
  attribute_error type_error libvirt_error interface_error : Exception

pub data Outcome (A : Type 0) : Type 0 where
  returns : A → Outcome A
  raises : Exception → Outcome A

-- What `getVmInfo` returns.
pub record VmData : Type 0 where
  pub uuid : String
  pub name : String
  pub pid : ℕ

-- What `getVmBalloonInfo` returns; none stands for the number 0.
pub record BalloonInfo : Type 0 where
  pub balloon_max : ℕ
  pub balloon_cur : ℕ
  pub balloon_min : Option String

-- `int(matches[0])`, where there is one match
abbrev pub only : List ℕ → Option ℕ
only (pid ∷ []) = some pid
only _ = none

abbrev pub data_of : String → Option String → Option ℕ → Option VmData
data_of uuid (some name) (some pid) = some (record { uuid = uuid; name = name; pid = pid })
data_of uuid _ _ = none

-- `self.mem_stats`
abbrev pub mem_stats : Dict String
mem_stats =
    ("available", "mem_available")
    ∷ ("unused", "mem_unused")
    ∷ ("major_fault", "major_fault")
    ∷ ("minor_fault", "minor_fault")
    ∷ ("swap_in", "swap_in")
    ∷ ("swap_out", "swap_out")
    ∷ []

-- The loop of `getVmMemoryStats` over the keys that both have, in the order of `mem_stats`.
unfoldable pub renamed : Dict String → Dict ℕ → Dict ℕ
unfolding lookup
renamed [] info = []
renamed ((key, name) ∷ fields) info = elim (lookup key info) [
  | none ↦ renamed fields info
  | some value ↦ (name, value) ∷ renamed fields info
]

-- A call of one of the methods.
pub data Request : Type 0 where
  list_vms : Request
  tell_info : ℕ → Request
  start_stats : ℕ → String → Request
  tell_stats tell_balloon : String → Request
  set_balloon : String → ℕ → Request

module _ (api : Libvirt) where
  open api use {
    World, Handle, Domain, system_error, invalid_conn, open_conn, close, list_domains, lookup_by_id,
    lookup_by_uuid, domain_uuid, domain_name, domain_info, min_guarantee, domain_stats,
    set_stats_period, set_memory, pids,
  }

  -- `self.conn`, and the system
  pub record Interface : Type 0 where
    pub conn : Option Handle
    pub world : World

  -- A method: it ends in an outcome and leaves the interface.
  abbrev pub Method : Type 0 → Type 0
  Method A = Interface → Outcome A × Interface

  abbrev pub result : {A : Type 0} → A → Method A
  result a s = (returns a, s)

  abbrev pub raise : {A : Type 0} → Exception → Method A
  raise e s = (raises e, s)

  abbrev pub proceed :
      {A B : Type 0} → Outcome A × Interface → (A → Method B) → Outcome B × Interface
  proceed (returns a, s) f = f a s
  proceed (raises e, s) f = (raises e, s)

  unfoldable pub then_do : {A B : Type 0} → Method A → (A → Method B) → Method B
  then_do m f s = proceed (m s) f

  -- `_connect()`, on the answer of `libvirt.open`: where it fails, `self.conn` stays.
  abbrev pub connected : Option Handle → Reply Handle × World → Interface
  connected old (answers handle, w) = record { conn = some handle; world = w }
  connected old (fails code, w) = record { conn = old; world = w }

  unfoldable pub connect : Interface → Interface
  connect s = connected s.conn (open_conn s.world)

  -- `__init__`
  abbrev pub start : World → Interface
  start w = connect (record { conn = none; world = w })

  -- `_reconnect()` with this `self.conn`, and what the method that called it then returns
  abbrev pub reopen : {A : Type 0} → A → Option Handle → Method A
  unfolding connect
  reopen a none s = (raises attribute_error, s)
  reopen a (some handle) s = (returns a, connect (record s { world = close handle s.world }))

  unfoldable pub reconnect : {A : Type 0} → A → Method A
  reconnect a s = reopen a s.conn s

  -- `_handleException(e)`
  unfoldable pub handle_exception : {A : Type 0} → ℕ → A → Method A
  unfolding reconnect
  handle_exception code a s =
      if (code == system_error) || (code == invalid_conn) then reconnect a s else (returns a, s)

  -- `try: ... except libvirt.libvirtError`, with what is returned after an error
  unfoldable pub guarded : {A B : Type 0} → (A → B) → B → Reply A × World → Method B
  unfolding handle_exception
  guarded f b (answers a, w) s = (returns (f a), record s { world = w })
  guarded f b (fails code, w) s = handle_exception code b (record s { world = w })

  -- A call of the connection, and one of a domain; `None` has no such method.
  abbrev pub on_handle :
      {A B : Type 0} → (A → B) → B → (Handle → World → Reply A × World) → Option Handle → Method B
  unfolding guarded
  on_handle f b call none s = (raises attribute_error, s)
  on_handle f b call (some handle) s = guarded f b (call handle s.world) s

  unfoldable pub on_conn :
      {A B : Type 0} → (A → B) → B → (Handle → World → Reply A × World) → Method B
  on_conn f b call s = on_handle f b call s.conn s

  unfoldable pub on_domain :
      {A B : Type 0} → (A → B) → B → (Domain → World → Reply A × World) → Option Domain → Method B
  unfolding guarded
  on_domain f b call none s = (raises attribute_error, s)
  on_domain f b call (some domain) s = guarded f b (call domain s.world) s

  -- `_getDomainFromID(dom_id)` and `_getDomainFromUUID(dom_uuid)`
  unfoldable pub domain_from_id : ℕ → Method (Option Domain)
  unfolding on_conn
  domain_from_id id = on_conn some none λ handle. lookup_by_id handle id

  unfoldable pub domain_from_uuid : String → Method (Option Domain)
  unfolding on_conn
  domain_from_uuid uuid = on_conn some none λ handle. lookup_by_uuid handle uuid

  -- `_domainGetPid(uuid)`: a pattern cannot be made of `None`.
  unfoldable pub get_pid : Option String → Option String → Method (Option VmData)
  get_pid none name s = (raises type_error, s)
  get_pid (some uuid) name s = (returns (data_of uuid name (only (pids uuid s.world))), s)

  -- `getVmList()`
  unfoldable pub get_vm_list : Method (List ℕ)
  unfolding on_conn
  get_vm_list = on_conn (λ ids. ids) [] list_domains

  -- `getVmInfo(id)`
  unfoldable pub get_vm_info : ℕ → Method (Option VmData)
  unfolding then_do domain_from_id on_domain get_pid
  get_vm_info id = then_do (domain_from_id id) λ domain.
      then_do (on_domain some none domain_uuid domain)
        λ uuid. then_do (on_domain some none domain_name domain) λ name. get_pid uuid name

  -- `startVmMemoryStats(uuid)`: an `AttributeError` is caught too.
  unfoldable pub set_period : ℕ → Option Domain → Method (Unit {0})
  unfolding guarded
  set_period interval none s = (returns tt, s)
  set_period interval (some domain) s =
      guarded (λ u. u) tt (set_stats_period domain interval s.world) s

  unfoldable pub start_vm_memory_stats : ℕ → String → Method (Unit {0})
  unfolding then_do domain_from_uuid set_period
  start_vm_memory_stats interval uuid = then_do (domain_from_uuid uuid) (set_period interval)

  -- `getVmMemoryStats(uuid)`
  abbrev pub read_stats : Option (Dict ℕ) → Method (Dict ℕ)
  read_stats none = raise interface_error
  read_stats (some []) = raise interface_error
  read_stats (some (entry ∷ info)) = result (renamed mem_stats (entry ∷ info))

  unfoldable pub get_vm_memory_stats : String → Method (Dict ℕ)
  unfolding then_do domain_from_uuid on_domain renamed
  get_vm_memory_stats uuid =
      then_do (domain_from_uuid uuid)
        λ domain. then_do (on_domain some none domain_stats domain) read_stats

  -- `_getGuaranteedMemory(domain)`, where `info` was told: an error of libvirt goes on.
  abbrev pub with_guarantee :
      DomainInfo → Reply (Option String) × World → Method (Option BalloonInfo)
  with_guarantee info (answers text, w) s = (
    returns (
        some
          (record { balloon_max = info.max_mem; balloon_cur = info.memory; balloon_min = text })),
    record s { world = w },
  )
  with_guarantee info (fails code, w) s = (raises libvirt_error, record s { world = w })

  abbrev pub read_balloon : Option Domain → Option DomainInfo → Method (Option BalloonInfo)
  read_balloon domain none s = (returns none, s)
  read_balloon none (some info) s = (raises attribute_error, s)
  read_balloon (some domain) (some info) s = with_guarantee info (min_guarantee domain s.world) s

  -- `getVmBalloonInfo(uuid)`
  unfoldable pub get_vm_balloon_info : String → Method (Option BalloonInfo)
  unfolding then_do domain_from_uuid on_domain
  get_vm_balloon_info uuid =
      then_do (domain_from_uuid uuid)
        λ domain. then_do (on_domain some none domain_info domain) (read_balloon domain)

  -- `setVmBalloonTarget(uuid, target)`: whether `setMemory` returned a number that is not 0 selects
  -- a warning with the name of the domain, a text under `%i`, which the logger reports itself.
  unfoldable pub warn_of : Option Domain → ℕ → Method (Unit {0})
  unfolding then_do on_domain
  warn_of domain n s =
      let named = then_do (on_domain some none domain_name domain) (λ name. result tt) s in
      if n == 0 then (returns tt, s) else named

  unfoldable pub set_target : ℕ → Option Domain → Method (Unit {0})
  unfolding then_do on_domain warn_of
  set_target target none = result tt
  set_target target (some domain) =
      then_do (on_domain (λ n. n) 0 (λ d. set_memory d target) (some domain))
        (warn_of (some domain))

  unfoldable pub set_vm_balloon_target : String → ℕ → Method (Unit {0})
  unfolding then_do domain_from_uuid set_target
  set_vm_balloon_target uuid target = then_do (domain_from_uuid uuid) (set_target target)

  -- A call of one of the methods, and a sequence of them, the first one first.
  unfoldable pub serve : Request → Interface → Interface
  unfolding get_vm_list get_vm_info start_vm_memory_stats get_vm_memory_stats get_vm_balloon_info
      set_vm_balloon_target
  serve list_vms s = (get_vm_list s).1
  serve (tell_info id) s = (get_vm_info id s).1
  serve (start_stats interval uuid) s = (start_vm_memory_stats interval uuid s).1
  serve (tell_stats uuid) s = (get_vm_memory_stats uuid s).1
  serve (tell_balloon uuid) s = (get_vm_balloon_info uuid s).1
  serve (set_balloon uuid target) s = (set_vm_balloon_target uuid target s).1

  unfoldable pub serve_all : List Request → Interface → Interface
  unfolding serve
  serve_all [] s = s
  serve_all (request ∷ requests) s = serve_all requests (serve request s)
