-- ===== src/Hypervisor/Libvirt/Told.antt =====
-- mom/HypervisorInterfaces/libvirtInterface.py: what `getVmInfo` needs in order to end without an
-- exception.
use mom_perf_fair_scheduler.Common.{
  ℕ, String, ◌≡◌, refl, sym, ap, ◌∙◌, ◌==◌, ◌||◌, Option, none, some, Bool-cases, inl, inr, arith,
}
use mom_perf_fair_scheduler.Hypervisor.Libvirt.{
  Reply, answers, fails, Libvirt, Outcome, returns, raises, VmData, Interface, Method, proceed,
  data_of, only, then_do, reopen, reconnect, handle_exception, guarded, on_handle, on_conn,
  on_domain, domain_from_id, get_pid, get_vm_info,
}

module _ (api : Libvirt) where
  open api use {
    World, Handle, Domain, lookup_by_id, domain_uuid, domain_name, pids, system_error, invalid_conn,
  }

  proceed-returns :
      {A B : Type 0} (r : Outcome A × Interface api) (f : A → Method api B) (b : B)
      → (proceed api r f).0 ≡ returns b
      → (a : A) × (r.0 ≡ returns a) × ((f a r.1).0 ≡ returns b)
  proceed-returns (returns a, s) f b e = (a, refl, e)
  proceed-returns (raises x, s) f b e = absurd (ground arith)

  reopen-none :
      {A : Type 0} (a : A) (c : Option Handle) (s : Interface api)
      → (reopen api {A = Option A} none c s).0 ≡ returns (some a)
      → ⊥
  unfolding reopen
  reopen-none a none s e = ground arith
  reopen-none a (some handle) s e = ground arith

  guarded-some :
      {A : Type 0} (a : A) (reply : Reply A × World) (s : Interface api)
      → (guarded api some none reply s).0 ≡ returns (some a)
      → reply ≡ (answers a, (guarded api some none reply s).1.world)
  unfolding guarded handle_exception reconnect
  guarded-some a (answers b, w) s e = cc
  guarded-some a (fails code, w) s e =
      elim (Bool-cases ((code == system_error) || (code == invalid_conn))) [
        | inl c ↦ absurd (reopen-none a s.conn (record s { world = w }) (rw (c) at e))
        | inr c ↦ absurd (ground (arith, rw (c) at e))
      ]

  on_conn-some :
      {A : Type 0} (call : Handle → World → Reply A × World) (a : A) (s : Interface api)
      → (on_conn api some none call s).0 ≡ returns (some a)
      → (handle : Handle) × (s.conn ≡ some handle)
        × (call handle s.world ≡ (answers a, (on_conn api some none call s).1.world))
  unfolding on_conn on_handle
  on_conn-some call a s = with_handle s.conn refl
    where
      with_handle :
          (c : Option Handle)
          → s.conn ≡ c
          → (on_handle api some none call c s).0 ≡ returns (some a)
          → (handle : Handle) × (s.conn ≡ some handle)
            × (call handle s.world ≡ (answers a, (on_handle api some none call c s).1.world))
      with_handle none h e = absurd (ground arith)
      with_handle (some handle) h e = (handle, h, guarded-some a (call handle s.world) s e)

  on_domain-some :
      {A : Type 0} (call : Domain → World → Reply A × World) (a : A) (d : Option Domain)
      (s : Interface api)
      → (on_domain api some none call d s).0 ≡ returns (some a)
      → (domain : Domain) × (d ≡ some domain)
        × (call domain s.world ≡ (answers a, (on_domain api some none call d s).1.world))
  unfolding on_domain
  on_domain-some call a none s e = absurd (ground arith)
  on_domain-some call a (some domain) s e = (domain, refl, guarded-some a (call domain s.world) s e)

  -- A method of `None` raises.
  on_domain-returns :
      {A : Type 0} (call : Domain → World → Reply A × World) (r : Option A) (d : Option Domain)
      (s : Interface api)
      → (on_domain api some none call d s).0 ≡ returns r
      → (domain : Domain) × (d ≡ some domain)
  unfolding on_domain
  on_domain-returns call r none s e = absurd (ground arith)
  on_domain-returns call r (some domain) s e = (domain, refl)

  get_pid-returns :
      (uuid name : Option String) (r : Option VmData) (s : Interface api)
      → (get_pid api uuid name s).0 ≡ returns r
      → (text : String) × (uuid ≡ some text) × (r ≡ data_of text name (only (pids text s.world)))
  unfolding get_pid
  get_pid-returns none name r s e = absurd (ground arith)
  get_pid-returns (some text) name r s e = (text, refl, sym cc)

  -- The connection found the domain, which told its UUID; the result is made of that, and of the
  -- processes that were found then.
  abbrev pub Told : ℕ → Interface api → Option VmData → Type 0
  Told id s r =
      (handle : Handle) × (domain : Domain) × (uuid : String) × (found : World) × (told : World)
      × (s.conn ≡ some handle)
      × (lookup_by_id handle id s.world ≡ (answers domain, found))
      × (domain_uuid domain found ≡ (answers uuid, told))
      × (name : Option String) × (later : World) × (r ≡ data_of uuid name (only (pids uuid later)))

  -- Where `getVmInfo` returns, `None` included, the connection found the domain and the domain told
  -- its UUID, and the result is made of this UUID, of a name or none, and of the processes found
  -- for the UUID; so for a guest that is gone it never returns.
  pub get_vm_info-Told :
      (id : ℕ) (s : Interface api) (r : Option VmData)
      → (get_vm_info api id s).0 ≡ returns r
      → Told id s r
  unfolding get_vm_info then_do domain_from_id
  get_vm_info-Told id s r e =
      let (d, d_returns, e1) = proceed-returns (domain_from_id api id s) _ r e in
      let s1 = (domain_from_id api id s).1 in
      let (u, u_returns, e2) = proceed-returns (on_domain api some none domain_uuid d s1) _ r e1 in
      let s2 = (on_domain api some none domain_uuid d s1).1 in
      let (n, n_returns, e3) = proceed-returns (on_domain api some none domain_name d s2) _ r e2 in
      let s3 = (on_domain api some none domain_name d s2).1 in
      let (uuid, is_uuid, is_data) = get_pid-returns u n r s3 e3 in
      let (domain, is_domain, told) =
        on_domain-some domain_uuid uuid d s1 (u_returns ∙ ap returns is_uuid) in
      let (handle, is_handle, found) =
        on_conn-some (λ h. lookup_by_id h id) domain s (d_returns ∙ ap returns is_domain) in
      (handle, domain, uuid, s1.world, s2.world, is_handle, found, told, n, s3.world, is_data)
