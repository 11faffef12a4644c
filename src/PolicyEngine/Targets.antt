-- ===== src/PolicyEngine/Targets.antt =====
-- A round of mom/PolicyEngine.py with mom/Policy/RPPolicy.py as its policy and
-- mom/Controllers/Balloon.py as its controller: what reaches the hypervisor. An exception of the
-- policy ends the round, which sends nothing then.
use mathlib.Core.Option.{some-injective}
use mom_perf_fair_scheduler.Common.{
  String, ◌≡◌, refl, sym, ap, ◌∙◌, subst, Bool, true, false, Option, none, some, List, [], ◌∷◌,
  ◌++◌, arith, map, All, Any, All-append, Dict, lookup, lookup-insert, Option-cases, inl, inr,
}
use mom_perf_fair_scheduler.Number.{Number}
use mom_perf_fair_scheduler.Entity.{Entity, control, get_control, prop, stat}
use mom_perf_fair_scheduler.Controllers.{
  Command, set_vm_balloon_target, set_vm_cpu_tune, set_vm_io_tune, ksm_tune, process, balloon_guest,
  read,
}
use mom_perf_fair_scheduler.RpPolicy.VmInfo.{VmInfo, Guest, min_memory}
use mom_perf_fair_scheduler.RpPolicy.Allocate.Range.{TargetIn}
use mom_perf_fair_scheduler.RpPolicy.Evaluate.{RpPolicy, evaluate}
use mom_perf_fair_scheduler.RpPolicy.Evaluate.Safety.{
  AllInRange, evaluate-AllInRange, lookup-InRange,
}
use mom_perf_fair_scheduler.PolicyEngine.{do_controls, run_controllers}

-- Where the policy returns `None`, the controllers do their work.
do_controls-returns :
    {H G C : Type 0} (decide : H → List G → Option Bool × H × List G)
    (controllers : List (H → List G → List C)) (host : H) (guests : List G) (after : H × List G)
    → decide host guests ≡ (none, after.0, after.1)
    → do_controls decide controllers (some host) guests
      ≡ run_controllers controllers after.0 after.1
unfolding do_controls
do_controls-returns {H} {G} decide controllers host guests after h =
    rw (ap (λ (x : Option Bool × H × List G). x.0) h, do_controls)
      (ap (λ (x : Option Bool × H × List G). run_controllers controllers x.1 x.2) h)

-- What holds of a member holds of some member.
All-swap :
    {A C : Type 0} (P : A → C → Type 0) (xs : List A)
    → All (λ x. (c : C) → P x c → Any (λ y. P y c) xs) xs
All-swap {A} {C} P xs = go xs (λ c h. h)
  where
    go :
        (ys : List A)
        → ((c : C) → Any (λ y. P y c) ys → Any (λ y. P y c) xs)
        → All (λ x. (c : C) → P x c → Any (λ y. P y c) xs) ys
    go [] f = tt
    go (y ∷ ys) f = ((λ c h. f c (inl h)), go ys (λ c h. f c (inr h)))

module _ (n : Number) where
  open n use {Num, of_ℕ, leb}

  -- A guest: what the policy reads of it, and the snapshot that the controllers read.
  abbrev pub Snapshot : Type 0
  Snapshot = Guest n × Entity Num

  -- `self.guest.Control('balloon_target', share)`, for the target that the round has left; the guests of
  -- a round have different names.
  unfoldable pub hand_over : Dict (VmInfo n) → Snapshot → Snapshot
  unfolding lookup control
  hand_over infos (g, e) = elim (lookup g.name infos) [
    | none ↦ (g, e)
    | some i ↦ elim i.balloon_target [
      | none ↦ (g, e)
      | some target ↦ (g, control "balloon_target" target e)
    ]
  ]

  module _ (intercept : List Num → List Num → List Num → Num) where
    -- `self.policy.evaluate(host, guest_list)`, which returns `None` where it ends
    unfoldable pub evaluate_policy :
        RpPolicy n → Num → List Snapshot → Option Bool × Num × List Snapshot
    unfolding evaluate hand_over
    evaluate_policy p mem_available guests =
        elim (evaluate n intercept mem_available (map (λ g. g.0) guests) p) [
          | none ↦ (some false, mem_available, guests)
          | some p' ↦ (none, mem_available, map (hand_over p'.vm_infos) guests)
        ]

    -- `c.process(host, guest_list)` of the balloon controller
    unfoldable pub send_targets : (Num → Option Num) → Num → List Snapshot → List (Command Num)
    unfolding process balloon_guest
    send_targets to_int mem_available guests =
        (process (balloon_guest to_int) (map (λ g. g.1) guests)).0

    -- `do_controls()`
    unfoldable pub control_round :
        (Num → Option Num) → RpPolicy n → Num → List Snapshot → List (Command Num)
    unfolding do_controls evaluate_policy send_targets
    control_round to_int p mem_available guests =
        do_controls (evaluate_policy p) (send_targets to_int ∷ []) (some mem_available) guests

  -- The command sets, for this guest by its UUID, the integer of the target that the policy has for
  -- it by its name, and this lies from the minimum to the size of the guest.
  abbrev pub IsSafeFor : (Num → Option Num) → Dict (VmInfo n) → Command Num → Snapshot → Type 0
  IsSafeFor to_int infos (set_vm_balloon_target uuid target) (g, e) =
      (read (prop "uuid" e) ≡ some uuid)
      × (i : VmInfo n) × (t : Num) × (lookup g.name infos ≡ some i)
      × (i.balloon_target ≡ some t)
      × (to_int t ≡ some target)
      × (leb (of_ℕ min_memory) t ≡ true)
      × (leb t i.configured ≡ true)
  IsSafeFor to_int infos (set_vm_cpu_tune uuid quota period) g = ⊥
  IsSafeFor to_int infos (set_vm_io_tune uuid devices) g = ⊥
  IsSafeFor to_int infos (ksm_tune outputs) g = ⊥

  -- It does so for one of the guests.
  abbrev pub IsSafe : (Num → Option Num) → Dict (VmInfo n) → List Snapshot → Command Num → Type 0
  IsSafe to_int infos guests command = Any (IsSafeFor to_int infos command) guests

  -- The number is the target that the policy has for the guest.
  SafeTarget : Dict (VmInfo n) → String → Num → Type 0
  SafeTarget infos name t =
      (i : VmInfo n) × (lookup name infos ≡ some i)
      × (i.balloon_target ≡ some t)
      × (leb (of_ℕ min_memory) t ≡ true)
      × (leb t i.configured ≡ true)

  TargetIn-SafeTarget :
      (infos : Dict (VmInfo n)) (name : String) (i : VmInfo n) (t : Num)
      → AllInRange n infos
      → lookup name infos ≡ some i
      → i.balloon_target ≡ some t
      → SafeTarget infos name t
  unfolding SafeTarget
  TargetIn-SafeTarget infos name i t safe found set =
      let range = lookup-InRange n name i infos safe found in
      let (low, high) = subst (TargetIn n i.configured) set range.target in
      (i, found, set, low, high)

  hand_over-SafeTarget :
      (infos : Dict (VmInfo n)) (g : Guest n) (e : Entity Num) (t : Num)
      → AllInRange n infos
      → get_control "balloon_target" e ≡ none
      → get_control "balloon_target" (hand_over infos (g, e)).1 ≡ some t
      → SafeTarget infos g.name t
  unfolding hand_over get_control control
  hand_over-SafeTarget infos g e t safe clean h = elim (Option-cases (lookup g.name infos)) [
    | inl p ↦ absurd (ground (arith, clean, rw (p, hand_over) at h))
    | inr (i, p) ↦ elim (Option-cases i.balloon_target) [
      | inl q ↦ absurd (ground (arith, clean, rw (p, q, hand_over) at h))
      | inr (u, q) ↦ TargetIn-SafeTarget infos g.name i t safe p (
          q
          ∙ sym (lookup-insert "balloon_target" "balloon_target" u e.controls)
          ∙ (rw (p, q, hand_over) at h))
    ]
  ]

  hand_over-prop :
      (infos : Dict (VmInfo n)) (g : Guest n) (e : Entity Num) (name : String)
      → prop name (hand_over infos (g, e)).1 ≡ prop name e
  unfolding hand_over control prop
  hand_over-prop infos g e name = elim (Option-cases (lookup g.name infos)) [
    | inl p ↦ rw (p, hand_over) refl
    | inr (i, p) ↦ elim (Option-cases i.balloon_target) [
      | inl q ↦ rw (p, q, hand_over) refl
      | inr (u, q) ↦ rw (p, q, hand_over) refl
    ]
  ]

  -- What the balloon controller sends for one guest.
  balloon_guest-target :
      (P : Command Num → Type 0) (to_int : Num → Option Num) (e : Entity Num)
      (commands : List (Command Num))
      → ((uuid t target : Num)
          → read (prop "uuid" e) ≡ some uuid
          → get_control "balloon_target" e ≡ some t
          → to_int t ≡ some target
          → P (set_vm_balloon_target uuid target))
      → balloon_guest to_int e ≡ some commands
      → All P commands
  unfolding balloon_guest
  balloon_guest-target P to_int e commands p h =
      elim (Option-cases (get_control "balloon_target" e)) [
        | inl c ↦ subst (All P) (some-injective _ _ (rw (c, balloon_guest) at h)) tt
        | inr (t, c) ↦ elim (Option-cases (to_int t)) [
          | inl i ↦ absurd (ground (arith, rw (c, i, balloon_guest) at h))
          | inr (target, i) ↦ elim (Option-cases (read (prop "uuid" e))) [
            | inl u ↦ absurd (ground (arith, rw (c, i, u, balloon_guest) at h))
            | inr (uuid, u) ↦ elim (Option-cases (read (prop "name" e))) [
              | inl m ↦ absurd (ground (arith, rw (c, i, u, m, balloon_guest) at h))
              | inr (name, m) ↦ elim (Option-cases (read (stat "balloon_cur" none e))) [
                | inl s ↦ absurd (ground (arith, rw (c, i, u, m, s, balloon_guest) at h))
                | inr (prev, s) ↦
                    subst (All P) (some-injective _ _ (rw (c, i, u, m, s, balloon_guest) at h))
                      (p uuid t target u c i, tt)
              ]
            ]
          ]
        ]
      ]

  process-All :
      (P : Command Num → Type 0) (f : Entity Num → Option (List (Command Num)))
      (guests : List (Entity Num))
      → All (λ e. (commands : List (Command Num)) → f e ≡ some commands → All P commands) guests
      → All P (process f guests).0
  unfolding process
  process-All P f [] h = tt
  process-All P f (e ∷ guests) h = elim (Option-cases (f e)) [
    | inl p ↦ rw (p, process) tt
    | inr (commands, p) ↦
        rw (p, process) (All-append P commands _ (h.0 commands p) (process-All P f guests h.1))
  ]

  -- What is sent for the guests of a round, where `P` holds of what is safe for one of them.
  send_targets-IsSafe :
      (P : Command Num → Type 0) (to_int : Num → Option Num) (infos : Dict (VmInfo n))
      (guests : List Snapshot)
      → AllInRange n infos
      → All (λ (g : Snapshot). get_control "balloon_target" g.1 ≡ none) guests
      → All (λ (g : Snapshot). (c : Command Num) → IsSafeFor to_int infos c g → P c) guests
      → All
          (λ e.
            (commands : List (Command Num))
            → balloon_guest to_int e ≡ some commands
            → All P commands)
          (map (λ (g : Snapshot). g.1) (map (hand_over infos) guests))
  unfolding SafeTarget
  send_targets-IsSafe P to_int infos [] safe clean h = tt
  send_targets-IsSafe P to_int infos ((g, e) ∷ guests) safe clean h = (
    λ commands.
        balloon_guest-target P to_int (hand_over infos (g, e)).1 commands λ uuid t target u c i.
          let (info, found, set, low, high) = hand_over-SafeTarget infos g e t safe clean.0 c in
          h.0 (set_vm_balloon_target uuid target) (
            sym (ap read (hand_over-prop infos g e "uuid")) ∙ u,
            info,
            t,
            found,
            set,
            i,
            low,
            high,
          ),
    send_targets-IsSafe P to_int infos guests safe clean.1 h.1,
  )

  evaluate_policy-returns :
      (intercept : List Num → List Num → List Num → Num) (mem_available : Num)
      (guests : List Snapshot) (p p' : RpPolicy n)
      → evaluate n intercept mem_available (map (λ (g : Snapshot). g.0) guests) p ≡ some p'
      → evaluate_policy intercept p mem_available guests
        ≡ (none, mem_available, map (hand_over p'.vm_infos) guests)
  unfolding evaluate_policy
  evaluate_policy-returns intercept mem_available guests p p' h = rw (h, evaluate_policy) refl

  control_round-eq :
      (intercept : List Num → List Num → List Num → Num) (to_int : Num → Option Num)
      (mem_available : Num) (guests : List Snapshot) (p p' : RpPolicy n)
      → evaluate n intercept mem_available (map (λ (g : Snapshot). g.0) guests) p ≡ some p'
      → (process
            (balloon_guest to_int)
            (map (λ (g : Snapshot). g.1) (map (hand_over p'.vm_infos) guests))).0
          ++ []
        ≡ control_round intercept to_int p mem_available guests
  unfolding control_round send_targets run_controllers
  control_round-eq intercept to_int mem_available guests p p' h = sym (
      do_controls-returns (evaluate_policy intercept p) (send_targets intercept to_int ∷ [])
        mem_available guests (mem_available, map (hand_over p'.vm_infos) guests)
        (evaluate_policy-returns intercept mem_available guests p p' h))

  -- If every balloon target that the policy knows is at least 1100000 kB and at most the configured
  -- size of its guest, the snapshots come without a balloon target, and the policy ends the round,
  -- then every command that `do_controls` sends with `RPPolicy` and the balloon controller sets,
  -- for a guest of the round by its UUID, the integer of the target that the round leaves for the
  -- name of this guest, and this target is at least 1100000 kB and at most the configured size of
  -- the guest.
  pub control_round-IsSafe :
      (intercept : List Num → List Num → List Num → Num) (to_int : Num → Option Num)
      (mem_available : Num) (guests : List Snapshot) (p p' : RpPolicy n)
      → AllInRange n p.vm_infos
      → All (λ (g : Snapshot). get_control "balloon_target" g.1 ≡ none) guests
      → evaluate n intercept mem_available (map (λ (g : Snapshot). g.0) guests) p ≡ some p'
      → All
          (IsSafe to_int p'.vm_infos guests)
          (control_round intercept to_int p mem_available guests)
  control_round-IsSafe intercept to_int mem_available guests p p' safe clean h =
      let Safe : Command Num → Type 0 = IsSafe to_int p'.vm_infos guests in
      subst (All Safe) (control_round-eq intercept to_int mem_available guests p p' h) (
        All-append Safe _ []
          (process-All Safe (balloon_guest to_int) _ (
            send_targets-IsSafe Safe to_int p'.vm_infos guests
              (evaluate-AllInRange n intercept mem_available _ p p' safe h) clean
              (All-swap (λ (g : Snapshot) c. IsSafeFor to_int p'.vm_infos c g) guests)))
          tt)
