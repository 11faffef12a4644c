-- ===== src/Hypervisor/Libvirt/Tests.antt =====
-- A system where the first connection is broken and one guest runs, calls of the interface to it,
-- and the theorems at these calls.
use mom_perf_fair_scheduler.Common.{
  ℕ, suc, String, ◌≡◌, refl, none, some, List, [], ◌∷◌, ◌==◌, if◌then◌else◌,
}
use mom_perf_fair_scheduler.Hypervisor.Libvirt.{
  Libvirt, answers, fails, VmData, Interface, start, returns, raises, attribute_error, Request,
  list_vms, tell_info, set_balloon, serve_all, connect, get_vm_info, get_vm_memory_stats,
}
use mom_perf_fair_scheduler.Hypervisor.Libvirt.Opened.{IsOpened, serve_all-IsOpened}
use mom_perf_fair_scheduler.Hypervisor.Libvirt.Told.{Told, get_vm_info-Told}

-- The state counts the connections that were opened, and a handle is its number.
abbrev system : Libvirt
system = record {
  World = ℕ;
  Handle = ℕ;
  Domain = String;
  system_error = 38;
  invalid_conn = 6;
  open_conn = λ w. (answers (suc w), suc w);
  close = λ handle w. w;
  list_domains = λ handle w. (if handle == 1 then fails 38 else answers (7 ∷ []), w);
  lookup_by_id = λ handle id w. (if id == 7 then answers "vm" else fails 42, w);
  lookup_by_uuid = λ handle uuid w. (answers uuid, w);
  domain_uuid = λ domain w. (answers domain, w);
  domain_name = λ domain w. (answers "guest", w);
  domain_info = λ domain w. (answers (record { max_mem = 4096; memory = 2048 }), w);
  min_guarantee = λ domain w. (answers none, w);
  domain_stats = λ domain w. (answers (("unused", 64) ∷ ("rss", 128) ∷ []), w);
  set_stats_period = λ domain period w. (answers tt, w);
  set_memory = λ domain target w. (answers 0, w);
  pids = λ uuid w. 4242 ∷ [];
}

abbrev requests : List Request
requests = list_vms ∷ tell_info 7 ∷ set_balloon "vm" 1024 ∷ []

abbrev second_connection : Interface system
second_connection = record { conn = some 2; world = 2 }

serve_all_runs : serve_all system requests (start system 0) ≡ second_connection
unfolding serve_all connect
serve_all_runs = refl

abbrev vm_data : VmData
vm_data = record { uuid = "vm"; name = "guest"; pid = 4242 }

get_vm_info_runs : (get_vm_info system 7 (start system 0)).0 ≡ returns (some vm_data)
unfolding get_vm_info connect
get_vm_info_runs = refl

-- A guest that is gone ends the method with an exception, not with `None`.
gone_guest_runs : (get_vm_info system 9 (start system 0)).0 ≡ raises attribute_error
unfolding get_vm_info connect
gone_guest_runs = refl

memory_stats_runs :
    (get_vm_memory_stats system "vm" (start system 0)).0 ≡ returns (("mem_unused", 64) ∷ [])
unfolding get_vm_memory_stats connect
memory_stats_runs = refl

start-IsOpened : IsOpened system (start system 0)
unfolding connect
start-IsOpened = (1, 0, 1, refl, refl)

serve_all-IsOpened_example : IsOpened system (serve_all system requests (start system 0))
serve_all-IsOpened_example = serve_all-IsOpened system requests (start system 0) start-IsOpened

get_vm_info-Told_example : Told system 7 (start system 0) (some vm_data)
get_vm_info-Told_example =
    get_vm_info-Told system 7 (start system 0) (some vm_data) get_vm_info_runs
