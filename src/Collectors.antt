-- ===== src/Collectors.antt =====
-- mom/Collectors: the collectors that keep a state from one round to the next, and how the list of
-- collectors is made. What the files of the system hold, the numbers that `parse_int` finds in it,
-- and what the hypervisor answers are arguments.
pub mod Counters
use Prim.Native.Char.{code}
use mom_perf_fair_scheduler.Common.{
  ℕ, ◌+◌, ◌-◌, ◌*◌, ◌/◌, ◌%◌, ◌^◌, String, Bool, true, false, Option, none, some, List, [], ◌∷◌,
  ◌==◌, if◌then◌else◌, Dict, str_eq,
}
use mom_perf_fair_scheduler.Number.{Number}

-- `config_str.split(',')`, with `lstrip` of each name
unfoldable pub split_commas : String → List String
split_commas String.[] = "" ∷ []
split_commas (String.◌∷◌ c s) =
    let rest = split_commas s in if code c == b',' then "" ∷ rest else add_char rest
  where
    add_char : List String → List String
    add_char [] = String.◌∷◌ c String.[] ∷ []
    add_char (t ∷ ts) = String.◌∷◌ c t ∷ ts

unfoldable pub strip_left : String → String
strip_left String.[] = String.[]
strip_left (String.◌∷◌ c s) = if code c == b' ' then strip_left s else String.◌∷◌ c s

module _ {C : Type 0} (create : String → Option C) where
  -- The loop of `get_collectors`; none where a collector cannot be imported or made.
  unfoldable pub create_all : List String → Option (List C)
  unfolding strip_left
  create_all [] = some []
  create_all (name ∷ names) =
      let rest = create_all names in
      if str_eq (strip_left name) "" then rest else elim (create (strip_left name)) [
        | none ↦ none
        | some c ↦ elim rest [ none ↦ none | some cs ↦ some (c ∷ cs) ]
      ]

  unfoldable pub get_collectors : Bool → String → Option (List C)
  unfolding create_all split_commas
  get_collectors has_config config_str =
      if has_config then none else create_all (split_commas config_str)

module _ {A : Type 0} where
  -- GuestBalloon.collect and GuestCpuTune.collect: what they return, whether a line is logged, and
  -- whether the information is available after it.
  unfoldable pub collect_info : Option A → Bool → Option A × Bool × Bool
  collect_info none available = (none, available, false)
  collect_info (some stat) available = (some stat, false, true)

  -- GuestMemory.collect, where none is a `HypervisorInterfaceError`: then no field is returned.
  unfoldable pub collect_memory_stats : Option (Dict A) → Bool → Dict A × Bool × Bool
  collect_memory_stats none available = ([], available, false)
  collect_memory_stats (some stat) available = (stat, false, true)

  -- The previous value of a counter; none before the first round.
  abbrev pub previous_or : A → Option A → A
  previous_or cur none = cur
  previous_or cur (some prev) = prev

module _ (n : Number) where
  open n use {Num, plus, minus}

  -- `HostMemory`: the swap counters of the last round, and those that it compared them with.
  pub record HostMemory : Type 0 where
    pub swap_in_prev : Option Num
    pub swap_in_cur : Option Num
    pub swap_out_prev : Option Num
    pub swap_out_cur : Option Num

  -- The numbers in /proc/meminfo and /proc/vmstat. That one of them is missing is left out.
  pub record Memory : Type 0 where
    pub mem_total : Num
    pub anon_pages : Num
    pub mem_free : Num
    pub buffers : Num
    pub cached : Num
    pub swap_total : Num
    pub swap_free : Num
    pub pswpin : Num
    pub pswpout : Num

  -- HostMemory.collect
  unfoldable pub host_memory : Memory → HostMemory → Dict Num × HostMemory
  host_memory m h =
      let in_prev = previous_or m.pswpin h.swap_in_cur in
      let out_prev = previous_or m.pswpout h.swap_out_cur in
      (
        ("mem_available", m.mem_total)
            ∷ ("mem_unused", m.mem_free)
            ∷ ("mem_free", plus (plus m.mem_free m.buffers) m.cached)
            ∷ ("swap_in", minus m.pswpin in_prev)
            ∷ ("swap_out", minus m.pswpout out_prev)
            ∷ ("anon_pages", m.anon_pages)
            ∷ ("swap_total", m.swap_total)
            ∷ ("swap_usage", minus m.swap_total m.swap_free)
            ∷ [],
        record {
          swap_in_prev = some in_prev;
          swap_in_cur = some m.pswpin;
          swap_out_prev = some out_prev;
          swap_out_cur = some m.pswpout;
        },
      )

  -- `GuestQemuProc`: the counters of the round before.
  pub record QemuProc : Type 0 where
    pub prev_minor_faults : Option Num
    pub prev_major_faults : Option Num

  -- The numbers 9, 11 and 23 of the file of the process.
  pub record ProcStat : Type 0 where
    pub minor_faults : Num
    pub major_faults : Num
    pub rss : Num

  -- Without a file nothing is reported.
  unfoldable pub qemu_proc : Option ProcStat → QemuProc → Dict Num × QemuProc
  qemu_proc none q = ([], q)
  qemu_proc (some s) q = (
    ("host_minor_faults", minus s.minor_faults (previous_or s.minor_faults q.prev_minor_faults))
        ∷ (
          "host_major_faults",
          minus s.major_faults (previous_or s.major_faults q.prev_major_faults),
        )
        ∷ ("rss", s.rss)
        ∷ [],
    record { prev_minor_faults = some s.minor_faults; prev_major_faults = some s.major_faults },
  )

-- HostKSM.get_ksmd_cpu_usage: the jiffies since the last round, with the wrap-around of the
-- counter. Python's `%` of a negative number is not negative.
unfoldable pub interval_jiffies : ℕ → ℕ → ℕ
interval_jiffies last cur = (cur + (2 ^ 32 - last % 2 ^ 32)) % 2 ^ 32

-- The usage in percent, and the count that the next round starts from.
unfoldable pub ksmd_cpu_usage : ℕ → ℕ → ℕ → ℕ × ℕ
unfolding interval_jiffies
ksmd_cpu_usage total_jiffies last cur = (100 * interval_jiffies last cur / total_jiffies, cur)

module _ {V : Type 0} (same : V → V → Bool) where
  -- A device as the hypervisor reports it.
  pub record DeviceState : Type 0 where
    pub name : Option V
    pub path : Option V
    pub io_tune : Dict V

  -- The limits that the policy of a device sets.
  pub record PolicyLimits : Type 0 where
    pub name : Option V
    pub path : Option V
    pub guaranteed : Dict V
    pub maximum : Dict V

  pub record IoTune : Type 0 where
    pub name : Option V
    pub path : Option V
    pub guaranteed : Dict V
    pub maximum : Dict V
    pub current : Dict V

  -- `a == b`, where either may be `None`
  abbrev pub equal_names : Option V → Option V → Bool
  equal_names none none = true
  equal_names (some a) (some b) = same a b
  equal_names _ _ = false

  abbrev pub has_no_path : Option V → Option V → Bool
  has_no_path (some a) (some b) = false
  has_no_path _ _ = true

  -- `findState(name, path)`
  unfoldable pub find_state : Option V → Option V → List DeviceState → Option DeviceState
  find_state name path [] = none
  find_state name path (state ∷ states) =
      let rest = find_state name path states in
      if equal_names path state.path
      then some state
      else if has_no_path path state.path
      then (if equal_names name state.name then some state else rest)
      else rest

  -- The loop over the policies; a policy without a device is left out.
  unfoldable pub io_tunes : List DeviceState → List PolicyLimits → List IoTune × List DeviceState
  unfolding find_state
  io_tunes states [] = ([], [])
  io_tunes states (limits ∷ policies) =
      let rest = io_tunes states policies in
      elim (find_state limits.name limits.path states) [
        | none ↦ rest
        | some state ↦ (
          record {
            name = state.name;
            path = state.path;
            guaranteed = limits.guaranteed;
            maximum = limits.maximum;
            current = state.io_tune;
          }
              ∷ rest.0,
          state ∷ rest.1,
        )
      ]

  -- GuestIoTune.collect, for the answers of the hypervisor, an empty or missing one as [].
  unfoldable pub guest_io_tune :
      List PolicyLimits → List DeviceState → Option (List IoTune × List DeviceState)
  unfolding io_tunes
  guest_io_tune [] states = none
  guest_io_tune policies [] = none
  guest_io_tune policies states = some (io_tunes states policies)
