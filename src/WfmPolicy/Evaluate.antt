-- ===== src/WfmPolicy/Evaluate.antt =====
-- mom/Policy/WFMPolicy.py: one round, `WFMPolicy.evaluate`. The plotter and the log are left out.
-- `_validate_config`, which reads fields that the class does not have, is never called.
pub mod Names
pub mod Budget
use mom_perf_fair_scheduler.Common.{
  String, Bool, Option, none, some, List, [], ◌∷◌, if◌then◌else◌, Dict, lookup, insert, str_eq,
  and_then,
}
use mom_perf_fair_scheduler.Common.Sort.{sort}
use mom_perf_fair_scheduler.Number.{Number, ltb_num, eq_num}
use mom_perf_fair_scheduler.RpPolicy.VmInfo.{Guest}
use mom_perf_fair_scheduler.WfmPolicy.VmInfo.{
  VmInfo, min_loc, reserve, update, init_attribute, set_balloon,
}

module _ (n : Number) where
  open n use {Num, of_ℕ, plus, minus, times, over, leb}

  pub record WfmPolicy : Type 0 where
    pub total_mem_ratio : Num
    pub total_used : Dict Num
    pub vm_infos : Dict (VmInfo n)

  -- The local variables of `evaluate`.
  pub record Round : Type 0 where
    pub total_mem : Num
    pub demands : Dict Num
    pub allocation : Dict Num
    pub wei_allo : Dict Num

  abbrev pub new_round : Num → Round
  new_round total_mem = record {
    total_mem = total_mem;
    demands = [];
    allocation = [];
    wei_allo = [];
  }

  -- `d[name]`, where a missing name counts as 0; the loops below only read names that are there.
  abbrev pub value_of : String → Dict Num → Num
  value_of name d = elim (lookup name d) [ none ↦ of_ℕ 0 | some x ↦ x ]

  -- The entry of `VM_Infos` for a guest of the round: a new one, or the old one brought up to date.
  abbrev pub info_of : Guest n → Option (VmInfo n) → VmInfo n
  unfolding init_attribute update
  info_of g none = init_attribute n g
  info_of g (some i) = update n g i

  -- What the body of the loop over `guest_list` leaves, for the entry of the guest.
  abbrev pub with_guest : Guest n → VmInfo n → WfmPolicy × Round → WfmPolicy × Round
  unfolding lookup insert
  with_guest g info (p, r) =
      let used = plus (value_of g.name p.total_used) (minus info.used (of_ℕ reserve)) in
      (
        record p {
          vm_infos = insert g.name info p.vm_infos;
          total_used = insert g.name used p.total_used;
        },
        record {
          total_mem = minus r.total_mem (of_ℕ min_loc);
          demands = insert g.name info.worksize r.demands;
          allocation = insert g.name (of_ℕ min_loc) r.allocation;
          wei_allo = insert g.name (over used info.weight) r.wei_allo;
        },
      )

  -- The body of the loop; none is the exception of a division by a weight of 0.
  unfoldable pub add_guest : Guest n → WfmPolicy × Round → Option (WfmPolicy × Round)
  unfolding with_guest info_of lookup
  add_guest g (p, r) =
      let info = info_of g (lookup g.name p.vm_infos) in
      if eq_num n info.weight (of_ℕ 0) then none else some (with_guest g info (p, r))

  unfoldable pub add_guests : List (Guest n) → WfmPolicy × Round → Option (WfmPolicy × Round)
  unfolding add_guest
  add_guests [] pr = some pr
  add_guests (g ∷ guests) pr = and_then (add_guest g pr) (add_guests guests)

  -- `allocation[name] += x`
  unfoldable pub grow : String → Num → Dict Num → Dict Num
  grow name x [] = []
  grow name x ((k, y) ∷ d) = if str_eq k name then (k, plus y x) ∷ d else (k, y) ∷ grow name x d

  -- `cmp(x[1], y[1])`
  abbrev pub by_usage : String × Num → String × Num → Bool
  by_usage x y = leb x.1 y.1

  -- One round of the `while` loop, on the memory that is left and the allocation.
  unfoldable pub serve : Dict Num → String → Num × Dict Num → Num × Dict Num
  unfolding grow lookup
  serve demands name (total_mem, allocation) =
      let demand = value_of name demands in
      let more = minus demand (of_ℕ min_loc) in
      if ltb_num n (of_ℕ min_loc) demand
      then (if ltb_num n total_mem more
          then (of_ℕ 0, grow name total_mem allocation)
          else (minus total_mem more, grow name more allocation))
      else (total_mem, allocation)

  -- The `while` loop over the ranking.
  unfoldable pub share_out : Dict Num → List (String × Num) → Num × Dict Num → Num × Dict Num
  unfolding serve
  share_out demands [] left = left
  share_out demands ((name, x) ∷ rank) (total_mem, allocation) =
      if ltb_num n (of_ℕ 0) total_mem
      then share_out demands rank (serve demands name (total_mem, allocation))
      else (total_mem, allocation)

  -- What `evaluate` gives to each guest, with the memory that is left over.
  unfoldable pub allocate : Round → Num × Dict Num
  unfolding share_out sort
  allocate r = share_out r.demands (sort by_usage r.wei_allo) (r.total_mem, r.allocation)

  -- `info.setAttribute('Allocated', alloc)` for the guests of the allocation
  unfoldable pub set_allocated : Dict Num → Dict (VmInfo n) → Dict (VmInfo n)
  unfolding lookup
  set_allocated allocation [] = []
  set_allocated allocation ((name, i) ∷ infos) =
      let rest = set_allocated allocation infos in
      elim (lookup name allocation) [
        | none ↦ (name, i) ∷ rest
        | some alloc ↦ (name, record i { allocated = alloc }) ∷ rest
      ]

  unfoldable pub set_balloons : Dict (VmInfo n) → Dict (VmInfo n)
  unfolding set_balloon
  set_balloons [] = []
  set_balloons ((name, i) ∷ infos) = (name, set_balloon n i) ∷ set_balloons infos

  -- A round, from the memory of the host and the guests; none is an uncaught exception.
  unfoldable pub evaluate : Num → List (Guest n) → WfmPolicy → Option WfmPolicy
  unfolding add_guests allocate set_allocated set_balloons
  evaluate mem_available guests p =
      and_then (add_guests guests (p, new_round (times mem_available p.total_mem_ratio))) λ (q, r).
        some (record q { vm_infos = set_balloons (set_allocated (allocate r).1 q.vm_infos) })
