-- ===== src/GradientPolicy/VmInfo.antt =====
-- mom/Policy/GradientPolicy.py: `VM_Info`, the attributes of one guest as fields. The guest object
-- is an argument: its properties and statistics, and the control `balloon_target` that a round sets.
use mom_perf_fair_scheduler.Common.{ℕ, String, Option, none, some, List, ◌&&◌, if◌then◌else◌}
use mom_perf_fair_scheduler.Number.{Number, ltb_num, eq_num}
use mom_perf_fair_scheduler.RpPolicy.Fitting.{Fitting, new_fitting}
use mom_perf_fair_scheduler.RpPolicy.VmInfo.{Guest}
use mom_perf_fair_scheduler.GradientPolicy.Fitting
use mom_perf_fair_scheduler.GradientPolicy.Fitting.{get_speed}

abbrev pub max_free : ℕ
max_free = 200_000

abbrev pub min_memory : ℕ
min_memory = 1_100_000

abbrev pub reserve : ℕ
reserve = 150_000

-- `grad_direct`: the sign that the gradient last had
pub data Direction : Type 0 where
  no_direction down up : Direction

module _ (n : Number) where
  open n use {Num, of_ℕ, plus, minus, times, over, leb}

  -- `balloon_target` is the control of the guest object that the last update brought.
  pub record VmInfo : Type 0 where
    pub vm : String
    pub configured : Num
    pub min : Num
    pub weight : Num
    pub allocated : Num
    pub speed : Num
    pub rate : Num
    pub fairness : Num
    pub gradient : Num
    pub max_step : Num
    pub limit1 : Num
    pub limit2 : Num
    pub consumed : Num
    pub start_time : Num
    pub start_user : Num
    pub user : Num
    pub pagefault : Num
    pub free : Num
    pub balloon : Num
    pub swap : Num
    pub iowait : Num
    pub softirq : Num
    pub system : Num
    pub total : Num
    pub used : Num
    pub worksize : Num
    pub grad_direct : Direction
    pub fitting : Fitting n
    pub balloon_target : Option Num

  unfoldable pub update_used : VmInfo → VmInfo
  update_used i =
      let used = plus (minus i.balloon i.free) (of_ℕ reserve) in
      record i { consumed = minus used i.used; used = used }

  unfoldable pub update_worksize : VmInfo → VmInfo
  update_worksize i = record i { worksize = plus i.used i.swap }

  module _ (intercept : List Num → List Num → List Num → Num) where
    abbrev with_speed : Option Num × Fitting n → VmInfo → VmInfo
    with_speed (none, f) i = record i { fitting = f }
    with_speed (some speed, f) i = record i {
      fitting = f;
      speed = speed;
      rate = over speed i.weight;
    }

    unfoldable pub update_speed : VmInfo → VmInfo
    update_speed i = with_speed (get_speed n intercept i.fitting) i

    -- The statistics that `update` copies, and the limit that follows from them.
    abbrev pub copy_statistics : Guest n → VmInfo → VmInfo
    copy_statistics g i = record i {
      free = g.mem_unused;
      balloon = g.balloon_cur;
      swap = g.swap_usage;
      iowait = g.iowait;
      softirq = g.softirq;
      system = g.system;
      total = g.total;
      user = g.user;
      pagefault = g.major_fault;
      limit1 = minus g.balloon_cur i.min;
      balloon_target = none;
    }

    -- A guest that has not run since it was first seen is not sampled.
    abbrev pub sample : Guest n → VmInfo → VmInfo → VmInfo
    sample g before i =
        if eq_num n g.user before.start_user then record i { start_time = g.total } else record i {
          fitting =
              Fitting.update n (minus g.user before.user) (minus g.major_fault before.pagefault)
                g.total i.fitting;
        }

    unfoldable pub update : Guest n → VmInfo → VmInfo
    unfolding update_used update_worksize update_speed
    update g i = update_speed (update_worksize (update_used (sample g i (copy_statistics g i))))

    -- `VM_Info(name, alpha, beta, step)` and `initAttribute(guest)`; what `update` sets starts at 0.
    unfoldable pub init_attribute : Num → Num → Num → Guest n → VmInfo
    unfolding update
    init_attribute alpha beta step g =
        let zero = of_ℕ 0 in
        update g (record {
          vm = g.name;
          configured = g.balloon_max;
          min = of_ℕ min_memory;
          weight = g.weight;
          allocated = zero;
          speed = zero;
          rate = zero;
          fairness = zero;
          gradient = zero;
          max_step = step;
          limit1 = zero;
          limit2 = of_ℕ 10_000;
          consumed = zero;
          start_time = g.total;
          start_user = g.user;
          user = g.user;
          pagefault = g.major_fault;
          free = zero;
          balloon = zero;
          swap = zero;
          iowait = zero;
          softirq = zero;
          system = zero;
          total = zero;
          used = zero;
          worksize = zero;
          grad_direct = no_direction;
          fitting = new_fitting n alpha beta;
          balloon_target = none;
        })

  -- `setBalloon()`: a share out of range is only logged.
  unfoldable pub set_balloon : VmInfo → VmInfo
  set_balloon i =
      if leb i.allocated i.configured && leb i.min i.allocated
      then record i { balloon_target = some i.allocated }
      else i

  unfoldable pub halve_step : VmInfo → VmInfo
  halve_step i = record i { max_step = over i.max_step (of_ℕ 2) }

  -- `VM_Info.update_limit2()`, where `R` is a quarter
  unfoldable pub update_limit2 : VmInfo → VmInfo
  update_limit2 i =
      let quarter = over (of_ℕ 1) (of_ℕ 4) in
      let less = times i.limit2 (minus (of_ℕ 1) quarter) in
      if leb i.limit2 i.consumed
      then record i { limit2 = times i.limit2 (plus (of_ℕ 1) quarter) }
      else if ltb_num n i.consumed less
      then record i { limit2 = less }
      else i
