-- ===== src/Hypervisor/RpcBase/Balloon.antt =====
-- Proofs about what `getVmBalloonInfo` of mom/HypervisorInterfaces/vdsmRpcBase.py keeps.
use mom_perf_fair_scheduler.Common.{
  String, ◌≡◌, refl, sym, ◌∙◌, subst, false, Option, none, some, [], ◌∷◌, arith, Bool-cases,
  Option-cases, inl, inr, Dict, lookup, contains, str_eq, eq_iff, if◌then◌else◌,
}
use mathlib.Core.Option.{some-injective}
use mom_perf_fair_scheduler.Hypervisor.RpcBase.{balloon_info, balloon_fields}

module _ {V N : Type 0} (to_int : V → Option N) where
  -- The number of a field that is kept.
  abbrev pub kept : String → Option V → Option N
  kept key none = none
  kept key (some v) = if contains key balloon_fields then to_int v else none

  not_kept : (key : String) (o : Option V) → contains key balloon_fields ≡ false → kept key o ≡ none
  not_kept key none h = refl
  not_kept key (some v) h = ground (arith, h)

  -- Where the loop ends, a field of the three names has its number, and no other is there.
  pub lookup-balloon_info :
      (key : String) (info : Dict V) (result : Dict N)
      → balloon_info to_int info ≡ some result
      → lookup key result ≡ kept key (lookup key info)
  unfolding balloon_info lookup
  lookup-balloon_info key [] result h =
      subst (λ (r : Dict N). lookup key r ≡ none) (some-injective _ _ h) refl
  lookup-balloon_info key ((k, v) ∷ info) result h = elim (Bool-cases (contains k balloon_fields)) [
    | inl c ↦ elim (Option-cases (to_int v)) [
      | inl e ↦ absurd (ground (arith, rw (c, e, balloon_info) at h))
      | inr (x, e) ↦ elim (Option-cases (balloon_info to_int info)) [
        | inl b ↦ absurd (ground (arith, rw (c, e, b, balloon_info) at h))
        | inr (others, b) ↦
            subst (λ (r : Dict N). lookup key r ≡ kept key (lookup key ((k, v) ∷ info)))
              (some-injective _ _ (rw (c, e, b, balloon_info) at h))
              (elim (Bool-cases (str_eq k key)) [
                | inl s ↦ rw s (rw⁻¹ ((eq_iff k key).0 s) (rw c (sym e)))
                | inr s ↦ rw s (lookup-balloon_info key info others b)
              ])
      ]
    ]
    | inr c ↦
        let same = lookup-balloon_info key info result (rw (c, balloon_info) at h) in
        elim (Bool-cases (str_eq k key)) [
          | inl s ↦
              let gone : contains key balloon_fields ≡ false =
                subst (λ j. contains j balloon_fields ≡ false) ((eq_iff k key).0 s) c in
              rw s (same ∙ not_kept key (lookup key info) gone ∙ sym (not_kept key (some v) gone))
          | inr s ↦ rw s same
        ]
  ]
