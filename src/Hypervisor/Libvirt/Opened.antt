-- ===== src/Hypervisor/Libvirt/Opened.antt =====
-- mom/HypervisorInterfaces/libvirtInterface.py: what the methods keep true of `self.conn`, and the
-- guests that `getVmInfo` ends well for.
use mom_perf_fair_scheduler.Common.{
  ℕ, String, ◌≡◌, refl, ◌==◌, ◌||◌, Option, none, some, List, [], ◌∷◌, Bool-cases, Dict, inl, inr,
}
use mom_perf_fair_scheduler.Hypervisor.Libvirt.{
  Reply, answers, fails, Libvirt, Outcome, returns, raises, Interface, Method, proceed, then_do,
  connected, connect, reopen, reconnect, on_handle, DomainInfo, handle_exception, guarded, on_conn,
  on_domain, domain_from_id, domain_from_uuid, get_pid, get_vm_list, get_vm_info, set_period,
  start_vm_memory_stats, read_stats, get_vm_memory_stats, with_guarantee, read_balloon,
  get_vm_balloon_info, warn_of, set_target, set_vm_balloon_target, result, Request, list_vms,
  tell_info, start_stats, tell_stats, tell_balloon, set_balloon, serve, serve_all,
}

module _ (api : Libvirt) where
  open api use {
    World, Handle, Domain, open_conn, set_memory, lookup_by_id, domain_uuid, domain_name,
    domain_info, domain_stats, set_stats_period, min_guarantee, list_domains, close, system_error,
    invalid_conn, pids,
  }

  -- `self.conn` is a handle that `libvirt.open` answered with.
  abbrev pub IsOpened : Interface api → Type 0
  IsOpened s =
      (handle : Handle) × (before : World) × (after : World) × (s.conn ≡ some handle)
      × (open_conn before ≡ (answers handle, after))

  -- The method leaves such a connection.
  unfoldable Keeps : {A : Type 0} → Method api A → Type 0
  Keeps m = (s : Interface api) → IsOpened s → IsOpened (m s).1

  connected-IsOpened :
      (s : Interface api) (before : World) (reply : Reply Handle × World)
      → open_conn before ≡ reply
      → IsOpened s
      → IsOpened (connected api s.conn reply)
  connected-IsOpened s before (answers handle, w) e h = (handle, before, w, refl, e)
  connected-IsOpened s before (fails code, w) e (handle, b, a, c, o) = (handle, b, a, c, o)

  reopen-Keeps : {A : Type 0} (a : A) (c : Option Handle) → Keeps (reopen api a c)
  unfolding Keeps reopen connect
  reopen-Keeps a none s h = h
  reopen-Keeps a (some handle) s h =
      connected-IsOpened (record s { world = close handle s.world }) (close handle s.world)
        (open_conn (close handle s.world)) refl h

  handle_exception-Keeps : {A : Type 0} (code : ℕ) (a : A) → Keeps (handle_exception api code a)
  unfolding Keeps handle_exception reconnect
  handle_exception-Keeps code a s h =
      elim (Bool-cases ((code == system_error) || (code == invalid_conn))) [
        | inl e ↦ rw (e) (reopen-Keeps a s.conn s h)
        | inr e ↦ rw (e) h
      ]

  guarded-Keeps :
      {A B : Type 0} (f : A → B) (b : B) (reply : Reply A × World) → Keeps (guarded api f b reply)
  unfolding Keeps guarded
  guarded-Keeps f b (answers a, w) s h = h
  guarded-Keeps f b (fails code, w) s h = handle_exception-Keeps code b (record s { world = w }) h

  on_conn-Keeps :
      {A B : Type 0} (f : A → B) (b : B) (call : Handle → World → Reply A × World)
      → Keeps (on_conn api f b call)
  unfolding Keeps on_conn on_handle
  on_conn-Keeps f b call s h = with_handle s.conn
    where
      with_handle : (c : Option Handle) → IsOpened (on_handle api f b call c s).1
      with_handle none = h
      with_handle (some handle) = guarded-Keeps f b (call handle s.world) s h

  on_domain-Keeps :
      {A B : Type 0} (f : A → B) (b : B) (call : Domain → World → Reply A × World)
      (domain : Option Domain)
      → Keeps (on_domain api f b call domain)
  unfolding Keeps on_domain
  on_domain-Keeps f b call none s h = h
  on_domain-Keeps f b call (some domain) s h = guarded-Keeps f b (call domain s.world) s h

  then_do-Keeps :
      {A B : Type 0} (m : Method api A) (f : A → Method api B)
      → Keeps m
      → ((a : A) → Keeps (f a))
      → Keeps (then_do api m f)
  unfolding Keeps then_do
  then_do-Keeps {A = A} m f keeps next s h = go (m s) (keeps s h)
    where
      go : (r : Outcome A × Interface api) → IsOpened r.1 → IsOpened (proceed api r f).1
      go (returns a, s') k = next a s' k
      go (raises e, s') k = k

  get_pid-Keeps : (uuid name : Option String) → Keeps (get_pid api uuid name)
  unfolding Keeps get_pid
  get_pid-Keeps none name s h = h
  get_pid-Keeps (some uuid) name s h = h

  result-Keeps : {A : Type 0} (a : A) → Keeps (result api a)
  unfolding Keeps
  result-Keeps a s h = h

  get_vm_info-Keeps : (id : ℕ) → Keeps (get_vm_info api id)
  unfolding get_vm_info domain_from_id
  get_vm_info-Keeps id = then_do-Keeps _ _ (on_conn-Keeps some none _) λ domain.
      then_do-Keeps _ _ (on_domain-Keeps some none domain_uuid domain) λ uuid.
        then_do-Keeps _ _ (on_domain-Keeps some none domain_name domain)
          λ name. get_pid-Keeps uuid name

  set_period-Keeps :
      (interval : ℕ) (domain : Option Domain) → Keeps (set_period api interval domain)
  unfolding Keeps set_period
  set_period-Keeps interval none s h = h
  set_period-Keeps interval (some domain) s h =
      guarded-Keeps (λ u. u) tt (set_stats_period domain interval s.world) s h

  read_stats-Keeps : (stats : Option (Dict ℕ)) → Keeps (read_stats api stats)
  unfolding Keeps
  read_stats-Keeps none s h = h
  read_stats-Keeps (some []) s h = h
  read_stats-Keeps (some (entry ∷ stats)) s h = h

  with_guarantee-Keeps :
      (info : DomainInfo) (reply : Reply (Option String) × World)
      → Keeps (with_guarantee api info reply)
  unfolding Keeps
  with_guarantee-Keeps info (answers text, w) s h = h
  with_guarantee-Keeps info (fails code, w) s h = h

  read_balloon-Keeps :
      (domain : Option Domain) (info : Option DomainInfo) → Keeps (read_balloon api domain info)
  unfolding Keeps
  read_balloon-Keeps domain none s h = h
  read_balloon-Keeps none (some info) s h = h
  read_balloon-Keeps (some domain) (some info) s h =
      with_guarantee-Keeps info (min_guarantee domain s.world) s h

  name-Keeps :
      (domain : Option Domain)
      → Keeps (then_do api (on_domain api some none domain_name domain) (λ name. result api tt))
  name-Keeps domain = then_do-Keeps _ _ (on_domain-Keeps some none domain_name domain) done
    where
      done : (name : Option String) → Keeps (result api tt)
      done name = result-Keeps tt

  warn_of-Keeps : (domain : Option Domain) (n : ℕ) → Keeps (warn_of api domain n)
  unfolding Keeps warn_of
  warn_of-Keeps domain n s h = elim (Bool-cases (n == 0)) [
    | inl e ↦ rw (e) h
    | inr e ↦ rw (e) (name-Keeps domain s h)
  ]

  set_target-Keeps : (target : ℕ) (domain : Option Domain) → Keeps (set_target api target domain)
  unfolding set_target
  set_target-Keeps target none = result-Keeps tt
  set_target-Keeps target (some domain) =
      then_do-Keeps _ _ (on_domain-Keeps (λ n. n) 0 (λ d. set_memory d target) (some domain))
        (warn_of-Keeps (some domain))

  from_uuid-Keeps :
      {B : Type 0} (uuid : String) (f : Option Domain → Method api B)
      → ((domain : Option Domain) → Keeps (f domain))
      → Keeps (then_do api (domain_from_uuid api uuid) f)
  unfolding domain_from_uuid
  from_uuid-Keeps uuid f = then_do-Keeps _ f (on_conn-Keeps some none _)

  get_vm_list-Keeps : Keeps (get_vm_list api)
  unfolding get_vm_list
  get_vm_list-Keeps = on_conn-Keeps (λ ids. ids) [] list_domains

  start_vm_memory_stats-Keeps :
      (interval : ℕ) (uuid : String) → Keeps (start_vm_memory_stats api interval uuid)
  unfolding start_vm_memory_stats
  start_vm_memory_stats-Keeps interval uuid = from_uuid-Keeps uuid _ (set_period-Keeps interval)

  get_vm_memory_stats-Keeps : (uuid : String) → Keeps (get_vm_memory_stats api uuid)
  unfolding get_vm_memory_stats
  get_vm_memory_stats-Keeps uuid =
      from_uuid-Keeps uuid _
        λ domain. then_do-Keeps _ _ (on_domain-Keeps some none domain_stats domain) read_stats-Keeps

  get_vm_balloon_info-Keeps : (uuid : String) → Keeps (get_vm_balloon_info api uuid)
  unfolding get_vm_balloon_info
  get_vm_balloon_info-Keeps uuid = from_uuid-Keeps uuid _ λ domain.
      then_do-Keeps _ _ (on_domain-Keeps some none domain_info domain) (read_balloon-Keeps domain)

  set_vm_balloon_target-Keeps :
      (uuid : String) (target : ℕ) → Keeps (set_vm_balloon_target api uuid target)
  unfolding set_vm_balloon_target
  set_vm_balloon_target-Keeps uuid target = from_uuid-Keeps uuid _ (set_target-Keeps target)

  serve-IsOpened :
      (request : Request) (s : Interface api) → IsOpened s → IsOpened (serve api request s)
  unfolding serve Keeps
  serve-IsOpened list_vms = get_vm_list-Keeps
  serve-IsOpened (tell_info id) = get_vm_info-Keeps id
  serve-IsOpened (start_stats interval uuid) = start_vm_memory_stats-Keeps interval uuid
  serve-IsOpened (tell_stats uuid) = get_vm_memory_stats-Keeps uuid
  serve-IsOpened (tell_balloon uuid) = get_vm_balloon_info-Keeps uuid
  serve-IsOpened (set_balloon uuid target) = set_vm_balloon_target-Keeps uuid target

  -- If `self.conn` is a handle that libvirt.open answered with, it is such a handle after any
  -- sequence of calls of the methods, whatever errors libvirt raises and however the connections to
  -- it fail.
  pub serve_all-IsOpened :
      (requests : List Request) (s : Interface api)
      → IsOpened s
      → IsOpened (serve_all api requests s)
  unfolding serve_all
  serve_all-IsOpened [] s h = h
  serve_all-IsOpened (request ∷ requests) s h =
      serve_all-IsOpened requests (serve api request s) (serve-IsOpened request s h)
