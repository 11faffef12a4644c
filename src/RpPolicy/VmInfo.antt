-- ===== src/RpPolicy/VmInfo.antt =====
-- mom/Policy/RPPolicy.py: `VM_Info`, the attributes of one guest as fields. The guest object is an
-- argument: its properties and statistics, and the control `balloon_target` that a round sets.
use mom_perf_fair_scheduler.Common.{
  and_then, ℕ, String, Option, none, some, List, ◌&&◌, if◌then◌else◌,
}
use mom_perf_fair_scheduler.Number.{Number, ltb_num, eq_num}
use mom_perf_fair_scheduler.RpPolicy.Fitting
use mom_perf_fair_scheduler.RpPolicy.Fitting.{Fitting, new_fitting, get_speed}

abbrev pub max_free : ℕ
max_free = 200_000

abbrev pub min_share : ℕ
min_share = 40_000

abbrev pub min_memory : ℕ
min_memory = 1_100_000

abbrev pub reserve : ℕ
reserve = 150_000

module _ (n : Number) where
  open n use {Num, of_ℕ, plus, minus, over, leb}

  -- What the policy reads of a guest.
  pub record Guest : Type 0 where
    pub name : String
    pub weight : Num
    pub balloon_max : Num
    pub balloon_cur : Num
    pub mem_unused : Num
    pub swap_usage : Num
    pub iowait : Num
    pub softirq : Num
    pub system : Num
    pub total : Num
    pub user : Num
    pub major_fault : Num

  -- `balloon_target` is the control of the guest object that the last update brought.
  pub record VmInfo : Type 0 where
    pub vm : String
    pub configured : Num
    pub min : Num
    pub weight : Num
    pub allocated : Num
    pub speed : Num
    pub rate : Num
    pub fairness : Num
    pub start_time : Num
    pub start_user : Num
    pub user : Num
    pub pagefault : Num
    pub free : Num
    pub balloon : Num
    pub swap : Num
    pub iowait : Num
    pub softirq : Num
    pub system : Num
    pub total : Num
    pub used : Num
    pub worksize : Num
    pub fitting : Fitting n
    pub balloon_target : Option Num

  unfoldable pub update_used : VmInfo → VmInfo
  update_used i = record i { used = plus (minus i.balloon i.free) (of_ℕ reserve) }

  unfoldable pub update_worksize : VmInfo → VmInfo
  update_worksize i = record i { worksize = plus i.used i.swap }

  module _ (intercept : List Num → List Num → List Num → Num) where
    -- None is the exception of a division by a weight of 0.
    abbrev pub with_speed : Option Num × Fitting n → VmInfo → Option VmInfo
    with_speed (none, f) i = some (record i { fitting = f })
    with_speed (some speed, f) i =
        if eq_num n i.weight (of_ℕ 0)
        then none
        else some (record i { fitting = f; speed = speed; rate = over speed i.weight })

    -- `updateSpeed()`; none is an exception.
    unfoldable pub update_speed : VmInfo → Option VmInfo
    update_speed i = and_then (get_speed n intercept i.fitting) λ r. with_speed r i

    -- The statistics that `update` copies.
    abbrev pub copy_statistics : Guest → VmInfo → VmInfo
    copy_statistics g i = record i {
      free = g.mem_unused;
      balloon = g.balloon_cur;
      swap = g.swap_usage;
      iowait = g.iowait;
      softirq = g.softirq;
      system = g.system;
      total = g.total;
      user = g.user;
      pagefault = g.major_fault;
      balloon_target = none;
    }

    -- A guest that has not run since it was first seen is not sampled.
    abbrev pub sample : Guest → VmInfo → VmInfo → VmInfo
    sample g before i =
        if eq_num n g.user before.start_user then record i { start_time = g.total } else record i {
          fitting =
              Fitting.update n (minus g.user before.user) (minus g.major_fault before.pagefault)
                g.total i.fitting;
        }

    unfoldable pub update : Guest → VmInfo → Option VmInfo
    unfolding update_used update_worksize
    update g i = update_speed (update_worksize (update_used (sample g i (copy_statistics g i))))

    -- `VM_Info(name, alpha, beta)` and `initAttribute(guest)`; what `update` sets starts at 0.
    unfoldable pub init_attribute : Num → Num → Guest → Option VmInfo
    init_attribute alpha beta g =
        let zero = of_ℕ 0 in
        update g (record {
          vm = g.name;
          configured = g.balloon_max;
          min = of_ℕ min_memory;
          weight = g.weight;
          allocated = zero;
          speed = zero;
          rate = zero;
          fairness = zero;
          start_time = g.total;
          start_user = g.user;
          user = g.user;
          pagefault = g.major_fault;
          free = zero;
          balloon = zero;
          swap = zero;
          iowait = zero;
          softirq = zero;
          system = zero;
          total = zero;
          used = zero;
          worksize = zero;
          fitting = new_fitting n alpha beta;
          balloon_target = none;
        })

  unfoldable pub dist2low : VmInfo → Num
  dist2low i = minus i.allocated i.min

  unfoldable pub dist2high : VmInfo → Num
  dist2high i =
      let ratio = minus (of_ℕ max_free) i.free in if ltb_num n ratio (of_ℕ 0) then of_ℕ 0 else ratio

  -- `setBalloon()`: a share out of range is only logged.
  unfoldable pub set_balloon : VmInfo → VmInfo
  set_balloon i =
      if leb i.allocated i.configured && leb i.min i.allocated
      then record i { balloon_target = some i.allocated }
      else i

  unfoldable pub add_allocated : Num → VmInfo → VmInfo
  add_allocated blk i = record i { allocated = plus i.allocated blk }
