-- ===== src/WfmPolicy/Evaluate/Budget.antt =====
-- Proofs about the memory that a round of mom/Policy/WFMPolicy.py hands out.
use mom_perf_fair_scheduler.Common.{
  String, ◌≡◌, refl, subst, Option, none, some, lookup-insert, sym, ap, ◌∙◌, true, false, List, [],
  ◌∷◌, arith, All, All-map, Dict, has_key, lookup, insert, str_eq, Bool-cases, inl, inr,
}
use mathlib.Core.Option.{some-injective}
use mom_perf_fair_scheduler.Common.Keys.{IsDict}
use mom_perf_fair_scheduler.Common.Sort.{sort}
use mom_perf_fair_scheduler.Common.Sort.Laws.{All-sort}
use mom_perf_fair_scheduler.Number.{
  Number, IsExact, IsOrdered, ltb_num, eq_num, plus-minus, zero-plus, minus-nonnegative,
}
use mom_perf_fair_scheduler.RpPolicy.VmInfo.{Guest}
use mom_perf_fair_scheduler.WfmPolicy.VmInfo.{VmInfo, min_loc, init_attribute, update}
use mom_perf_fair_scheduler.WfmPolicy.Evaluate.{
  WfmPolicy, Round, new_round, value_of, info_of, with_guest, add_guest, add_guests, grow, by_usage,
  serve, share_out, allocate,
}
use mom_perf_fair_scheduler.WfmPolicy.Evaluate.Names.{
  by_name, Covers, has_key-grow, Covers-insert, New-insert, New-empty,
}

module _ (n : Number) where
  open n use {Num, of_ℕ, plus, minus, leb}

  -- The memory of all guests of an allocation.
  abbrev pub sum_of : Dict Num → Num
  sum_of [] = of_ℕ 0
  sum_of ((name, x) ∷ d) = plus x (sum_of d)

  module _ (exact : IsExact n) where
    sum-grow :
        (name : String) (x : Num) (d : Dict Num)
        → has_key name d ≡ true
        → sum_of (grow n name x d) ≡ plus (sum_of d) x
    unfolding grow lookup
    sum-grow name x [] h = absurd (ground arith)
    sum-grow name x ((k, y) ∷ d) h = elim (Bool-cases (str_eq k name)) [
      | inl e ↦
          rw (e, grow)
            (exact.plus_assoc y x (sum_of d)
              ∙ ap (plus y) (exact.plus_comm x (sum_of d))
              ∙ sym (exact.plus_assoc y (sum_of d) x))
      | inr e ↦
          rw (e, grow)
            (ap (plus y) (sum-grow name x d (rw e at h)) ∙ sym (exact.plus_assoc y (sum_of d) x))
    ]

    sum-insert_new :
        (name : String) (x : Num) (d : Dict Num)
        → has_key name d ≡ false
        → sum_of (insert name x d) ≡ plus (sum_of d) x
    unfolding insert lookup
    sum-insert_new name x [] h = exact.plus_comm x (of_ℕ 0)
    sum-insert_new name x ((k, y) ∷ d) h = elim (Bool-cases (str_eq k name)) [
      | inl e ↦ absurd (ground (arith, h, e))
      | inr e ↦
          rw (e, insert)
            (ap (plus y) (sum-insert_new name x d (rw e at h))
              ∙ sym (exact.plus_assoc y (sum_of d) x))
    ]

    -- The memory that is left and the memory that the guests have.
    abbrev budget : Num × Dict Num → Num
    budget (total_mem, allocation) = plus (sum_of allocation) total_mem

    budget-serve :
        (demands : Dict Num) (name : String) (total_mem : Num) (allocation : Dict Num)
        → has_key name allocation ≡ true
        → budget (serve n demands name (total_mem, allocation)) ≡ budget (total_mem, allocation)
    unfolding serve
    budget-serve demands name total_mem allocation h =
        let demand = value_of n name demands in
        let more = minus demand (of_ℕ min_loc) in
        elim (Bool-cases (ltb_num n (of_ℕ min_loc) demand)) [
          | inr e ↦ rw (e, serve) refl
          | inl e ↦ elim (Bool-cases (ltb_num n total_mem more)) [
            | inl less ↦
                rw (e, less, serve) (exact.plus-zero _ ∙ sum-grow name total_mem allocation h)
            | inr enough ↦
                rw (e, enough, serve)
                  (ap (λ s. plus s (minus total_mem more)) (sum-grow name more allocation h)
                    ∙ plus-minus n exact (sum_of allocation) total_mem more)
          ]
        ]

    has_key-serve :
        (j : String) (demands : Dict Num) (name : String) (total_mem : Num) (allocation : Dict Num)
        → has_key j (serve n demands name (total_mem, allocation)).1 ≡ has_key j allocation
    unfolding serve
    has_key-serve j demands name total_mem allocation = ground (
      arith,
      has_key-grow n j name total_mem allocation,
      has_key-grow n j name (minus (value_of n name demands) (of_ℕ min_loc)) allocation,
    )

    budget-share_out :
        (demands : Dict Num) (rank : List (String × Num)) (total_mem : Num) (allocation : Dict Num)
        → Covers n allocation rank
        → budget (share_out n demands rank (total_mem, allocation)) ≡ budget (total_mem, allocation)
    unfolding share_out
    budget-share_out demands [] total_mem allocation h = refl
    budget-share_out demands ((name, x) ∷ rank) total_mem allocation h =
        elim (Bool-cases (ltb_num n (of_ℕ 0) total_mem)) [
          | inr e ↦ rw (e, share_out) refl
          | inl e ↦
              let (left, served) = serve n demands name (total_mem, allocation) in
              rw (e, share_out)
                (budget-share_out demands rank left served (
                    All-map _ _ rank
                      (λ (e : String × Num) key.
                        has_key-serve e.0 demands name total_mem allocation ∙ key)
                      h.1)
                  ∙ budget-serve demands name total_mem allocation h.0)
        ]

    -- No entry has the weight 0.
    abbrev pub IsWeighted : Dict (VmInfo n) → Type 0
    IsWeighted infos =
        (name : String) (i : VmInfo n)
        → lookup name infos ≡ some i
        → eq_num n i.weight (of_ℕ 0) ≡ false

    -- The memory after the minimum of each guest.
    abbrev pub after_minimums : List (Guest n) → Num → Num
    after_minimums [] total_mem = total_mem
    after_minimums (g ∷ guests) total_mem = after_minimums guests (minus total_mem (of_ℕ min_loc))

    info_of-weight :
        (g : Guest n) (infos : Dict (VmInfo n))
        → eq_num n g.weight (of_ℕ 0) ≡ false
        → IsWeighted infos
        → eq_num n (info_of n g (lookup g.name infos)).weight (of_ℕ 0) ≡ false
    unfolding info_of init_attribute update
    info_of-weight g infos h known = go (lookup g.name infos) refl
      where
        go :
            (o : Option (VmInfo n))
            → lookup g.name infos ≡ o
            → eq_num n (info_of n g o).weight (of_ℕ 0) ≡ false
        go none e = h
        go (some i) e = known g.name i e

    insert-IsWeighted :
        (name : String) (i : VmInfo n) (infos : Dict (VmInfo n))
        → eq_num n i.weight (of_ℕ 0) ≡ false
        → IsWeighted infos
        → IsWeighted (insert name i infos)
    insert-IsWeighted name i infos h known other j e = elim (Bool-cases (str_eq name other)) [
      | inl k ↦
          let same : some i ≡ some j = ground (arith, e, k, lookup-insert name other i infos) in
          subst (λ (x : VmInfo n). eq_num n x.weight (of_ℕ 0) ≡ false) (some-injective _ _ same) h
      | inr k ↦ known other j (ground (arith, e, k, lookup-insert name other i infos))
    ]

    -- The guests are new to the round, each with a name of its own and a weight.
    abbrev Added : Option (WfmPolicy n × Round n) → List (Guest n) → Round n → Type 0
    Added result guests r =
        (q : WfmPolicy n) × (s : Round n) × (result ≡ some (q, s))
        × (budget (s.total_mem, s.allocation) ≡ budget (r.total_mem, r.allocation))
        × Covers n s.allocation s.wei_allo
        × (s.total_mem ≡ after_minimums guests r.total_mem)

    add_guests-Added :
        (guests : List (Guest n)) (p : WfmPolicy n) (r : Round n)
        → IsDict (by_name n guests)
        → All (λ (g : Guest n). has_key g.name r.allocation ≡ false) guests
        → Covers n r.allocation r.wei_allo
        → All (λ (g : Guest n). eq_num n g.weight (of_ℕ 0) ≡ false) guests
        → IsWeighted p.vm_infos
        → Added (add_guests n guests (p, r)) guests r
    unfolding add_guests add_guest with_guest
    add_guests-Added [] p r distinct new covers weights known = (p, r, refl, refl, covers, refl)
    add_guests-Added (g ∷ guests) p r distinct new covers weights known =
        let info = info_of n g (lookup g.name p.vm_infos) in
        let weight = info_of-weight g p.vm_infos weights.0 known in
        let (q, s, result, same, covered, left) =
          add_guests-Added guests (with_guest n g info (p, r)).0 (with_guest n g info (p, r)).1
            distinct.1 (New-insert n g.name (of_ℕ min_loc) r.allocation guests distinct.0 new.1)
            (Covers-insert n g.name (of_ℕ min_loc) _ r.allocation r.wei_allo covers) weights.1
            (insert-IsWeighted g.name info p.vm_infos weight known) in
        (
          q,
          s,
          rw weight result,
          same
              ∙ ap (λ x. plus x (minus r.total_mem (of_ℕ min_loc)))
                  (sum-insert_new g.name (of_ℕ min_loc) r.allocation new.0)
              ∙ plus-minus n exact (sum_of r.allocation) r.total_mem (of_ℕ min_loc),
          covered,
          left,
        )

    module _ (ordered : IsOrdered n) where
      serve-nonnegative :
          (demands : Dict Num) (name : String) (total_mem : Num) (allocation : Dict Num)
          → leb (of_ℕ 0) total_mem ≡ true
          → leb (of_ℕ 0) (serve n demands name (total_mem, allocation)).0 ≡ true
      unfolding serve
      serve-nonnegative demands name total_mem allocation h = ground (
        arith,
        ordered.of_ℕ_mono 0 0,
        minus-nonnegative n exact total_mem (minus (value_of n name demands) (of_ℕ min_loc)),
      )

      share_out-nonnegative :
          (demands : Dict Num) (rank : List (String × Num)) (total_mem : Num)
          (allocation : Dict Num)
          → leb (of_ℕ 0) total_mem ≡ true
          → leb (of_ℕ 0) (share_out n demands rank (total_mem, allocation)).0 ≡ true
      unfolding share_out
      share_out-nonnegative demands [] total_mem allocation h = h
      share_out-nonnegative demands ((name, x) ∷ rank) total_mem allocation h =
          elim (Bool-cases (ltb_num n (of_ℕ 0) total_mem)) [
            | inr e ↦ rw (e, share_out) h
            | inl e ↦
                let (left, served) = serve n demands name (total_mem, allocation) in
                rw (e, share_out)
                  (share_out-nonnegative demands rank left served
                    (serve-nonnegative demands name total_mem allocation h))
          ]

      -- With exact sums and ordered numbers, if the guests have different names, no guest of the
      -- round or of the policy has the weight 0, and the memory is enough for the minimum of each,
      -- then the first loop of the round ends without an exception, what the round hands out and
      -- what it leaves add up to the memory, and what it leaves is not below 0.
      pub allocate-budget :
          (total_mem : Num) (guests : List (Guest n)) (p : WfmPolicy n)
          → IsDict (by_name n guests)
          → All (λ (g : Guest n). eq_num n g.weight (of_ℕ 0) ≡ false) guests
          → IsWeighted p.vm_infos
          → leb (of_ℕ 0) (after_minimums guests total_mem) ≡ true
          → (q : WfmPolicy n) × (r : Round n) × (add_guests n guests (p, new_round n total_mem)
              ≡ some (q, r))
            × (plus (sum_of (allocate n r).1) (allocate n r).0 ≡ total_mem)
            × (leb (of_ℕ 0) (allocate n r).0 ≡ true)
      unfolding allocate lookup
      allocate-budget total_mem guests p distinct weights known enough =
          let (q, r, result, same, covers, left) =
            add_guests-Added guests p (new_round n total_mem) distinct (New-empty n guests) tt
              weights known in
          (
            q,
            r,
            result,
            budget-share_out r.demands (sort (by_usage n) r.wei_allo) r.total_mem r.allocation
                  (All-sort (by_usage n) _ r.wei_allo covers)
                ∙ same
                ∙ zero-plus n exact total_mem,
            share_out-nonnegative r.demands (sort (by_usage n) r.wei_allo) r.total_mem r.allocation
                (rw left enough),
          )
