-- ===== src/WfmPolicy/VmInfo.antt =====
-- mom/Policy/WFMPolicy.py: `VM_Info`, the attributes of one guest as fields. The guest object is an
-- argument: its properties and statistics, and the control `balloon_target` that a round sets.
use mom_perf_fair_scheduler.Common.{ℕ, String, Option, none, some, ◌&&◌, if◌then◌else◌}
use mom_perf_fair_scheduler.Number.{Number, eq_num}
use mom_perf_fair_scheduler.RpPolicy.VmInfo.{Guest}

-- `MinLoc`
abbrev pub min_loc : ℕ
min_loc = 900_000

abbrev pub reserve : ℕ
reserve = 150_000

module _ (n : Number) where
  open n use {Num, of_ℕ, plus, minus, leb}

  pub record VmInfo : Type 0 where
    pub vm : String
    pub configured : Num
    pub min : Num
    pub weight : Num
    pub allocated : Num
    pub speed : Num
    pub rate : Num
    pub start_time : Num
    pub start_user : Num
    pub user : Num
    pub pagefault : Num
    pub free : Num
    pub balloon : Num
    pub swap : Num
    pub iowait : Num
    pub softirq : Num
    pub system : Num
    pub total : Num
    pub used : Num
    pub worksize : Num
    pub balloon_target : Option Num

  unfoldable pub update_used : VmInfo → VmInfo
  update_used i = record i { used = plus (minus i.balloon i.free) (of_ℕ reserve) }

  unfoldable pub update_worksize : VmInfo → VmInfo
  update_worksize i = record i { worksize = plus i.used i.swap }

  unfoldable pub update : Guest n → VmInfo → VmInfo
  unfolding update_used update_worksize
  update g i =
      let copied : VmInfo = record i {
        free = g.mem_unused;
        balloon = g.balloon_cur;
        swap = g.swap_usage;
        iowait = g.iowait;
        softirq = g.softirq;
        system = g.system;
        total = g.total;
        user = g.user;
        pagefault = g.major_fault;
        start_time = if eq_num n g.user i.start_user then g.total else i.start_time;
        balloon_target = none;
      } in
      update_worksize (update_used copied)

  -- `VM_Info(name)` and `initAttribute(guest)`; what `update` sets starts at 0.
  unfoldable pub init_attribute : Guest n → VmInfo
  unfolding update
  init_attribute g =
      let zero = of_ℕ 0 in
      update g (record {
        vm = g.name;
        configured = g.balloon_max;
        min = of_ℕ min_loc;
        weight = g.weight;
        allocated = zero;
        speed = zero;
        rate = zero;
        start_time = g.total;
        start_user = g.user;
        user = g.user;
        pagefault = g.major_fault;
        free = zero;
        balloon = zero;
        swap = zero;
        iowait = zero;
        softirq = zero;
        system = zero;
        total = zero;
        used = zero;
        worksize = zero;
        balloon_target = none;
      })

  -- `setBalloon()`: a share out of range is only logged.
  unfoldable pub set_balloon : VmInfo → VmInfo
  set_balloon i =
      if leb i.allocated i.configured && leb i.min i.allocated
      then record i { balloon_target = some i.allocated }
      else i
