-- ===== src/FuPolicy/Algorithm/Budget.antt =====
-- Proofs about the memory that `combination` of mom/Policy/FUPolicy.py hands out.
use mathlib.Core.List.{reverse}
use mathlib.Core.Option.{some-injective}
use mom_perf_fair_scheduler.Common.{
  String, ◌≡◌, refl, sym, ap, ◌∙◌, true, false, some, List, [], ◌∷◌, arith, All-map, Dict,
  Bool-cases, inl, inr, subst,
}
use mom_perf_fair_scheduler.Common.Sort.{sort}
use mom_perf_fair_scheduler.Common.Sort.Laws.{All-sort, All-reverse}
use mom_perf_fair_scheduler.Number.{
  Number, IsExact, IsOrdered, ltb_num, plus-minus, zero-plus, minus-nonnegative, minus-nonpositive,
  minus_shift, plus_shift, leb_cancel,
}
use mom_perf_fair_scheduler.FuPolicy.Algorithm.{
  change, sum_of, exceeds, by_value, share_of, give, take_back, combination,
}
use mom_perf_fair_scheduler.FuPolicy.Algorithm.Sums.{
  Covers, has_key-change, exceeds-Covers, sum-change, sum-sort, sum-reverse,
}

module _ (n : Number) (exact : IsExact n) (ordered : IsOrdered n) where
  open n use {Num, of_ℕ, plus, minus, leb}

  Covers-change :
      (name : String) (f : Num → Num) (d : Dict Num) (rank : List (String × Num))
      → Covers n d rank
      → Covers n (change n name f d) rank
  Covers-change name f d rank h =
      All-map _ _ rank (λ (e : String × Num) key. has_key-change n e.0 name f d ∙ key) h

  -- Where no memory is left, nothing more is given.
  give_done :
      (config : Dict Num) (rank : List (String × Num)) (left : Num) (u : Dict Num)
      → leb left (of_ℕ 0) ≡ true
      → give n config rank left u ≡ u
  unfolding give
  give_done config [] left u h = refl
  give_done config (e ∷ rank) left u h = ground (arith, h)

  take_back_done :
      (rank : List (String × Num)) (left : Num) (u : Dict Num)
      → leb left (of_ℕ 0) ≡ true
      → take_back n rank left u ≡ u
  unfolding take_back
  take_back_done [] left u h = refl
  take_back_done (e ∷ rank) left u h = ground (arith, h)

  leb_refl : (a : Num) → leb a a ≡ true
  leb_refl a = elim (Bool-cases (leb a a)) [ inl e ↦ e | inr e ↦ ordered.total a a e ]

  -- A sum is not below its first part when the other part is not below 0, and the other way round.
  leb-plus : (a b : Num) → leb (of_ℕ 0) b ≡ true → leb a (plus a b) ≡ true
  leb-plus a b h =
      rw (zero-plus n exact a) at (rw (exact.plus_comm b a) at (exact.plus_mono (of_ℕ 0) b a h))

  plus-leb : (a b : Num) → leb b (of_ℕ 0) ≡ true → leb (plus a b) a ≡ true
  plus-leb a b h =
      rw (zero-plus n exact a) at (rw (exact.plus_comm b a) at (exact.plus_mono b (of_ℕ 0) a h))

  sum-give :
      (config : Dict Num) (rank : List (String × Num)) (left : Num) (u : Dict Num)
      → Covers n u rank
      → leb (of_ℕ 0) left ≡ true
      → leb (sum_of n (give n config rank left u)) (plus (sum_of n u) left) ≡ true
  unfolding give
  sum-give config [] left u covers h = leb-plus (sum_of n u) left h
  sum-give config ((key, exceed) ∷ rank) left u covers h =
      let value = share_of n config u key exceed in
      elim (Bool-cases (ltb_num n (of_ℕ 0) left)) [
        | inr e ↦ rw (e, give) (leb-plus (sum_of n u) left h)
        | inl e ↦ elim (Bool-cases (ltb_num n value left)) [
          | inl k ↦
              rw (e, k, give)
                (subst
                  (λ s.
                    leb
                      (sum_of n (
                        give n config rank (minus left value) (change n key (λ x. plus x value) u)))
                      s
                    ≡ true)
                  (ap (λ s. plus s (minus left value))
                      (sum-change n exact key (λ x. plus x value) u (plus_shift n exact value)
                        covers.0)
                    ∙ plus-minus n exact (sum_of n u) left value)
                  (sum-give config rank (minus left value) (change n key (λ x. plus x value) u)
                    (Covers-change key (λ x. plus x value) u rank covers.1)
                    (minus-nonnegative n exact left value
                      (ordered.total left value (ground (arith, k))))))
          | inr k ↦
              rw (e, k, give)
                (rw
                  (
                    give_done config rank (minus left value) (change n key (λ x. plus x left) u)
                        (minus-nonpositive n exact left value (ground (arith, k))),
                    sum-change n exact key (λ x. plus x left) u (plus_shift n exact left) covers.0,
                  )
                  (leb_refl (plus (sum_of n u) left)))
        ]
      ]

  -- The demand that is left after a guest has given its value.
  left-rest :
      (value left others : Num)
      → leb left (plus value others) ≡ true
      → leb (minus left value) others ≡ true
  left-rest value left others h =
      leb_cancel n exact (minus left value) others value
        (rw (exact.minus-plus left value, exact.plus_comm others value) h)

  sum-take_back :
      (rank : List (String × Num)) (left : Num) (u : Dict Num)
      → Covers n u rank
      → leb left (sum_of n rank) ≡ true
      → leb (plus (sum_of n (take_back n rank left u)) left) (sum_of n u) ≡ true
  unfolding take_back sum_of
  sum-take_back [] left u covers h = plus-leb (sum_of n u) left h
  sum-take_back ((key, value) ∷ rank) left u covers h =
      elim (Bool-cases (ltb_num n (of_ℕ 0) left)) [
        | inr e ↦ rw (e, take_back) (plus-leb (sum_of n u) left (ground (arith, e)))
        | inl e ↦ elim (Bool-cases (ltb_num n value left)) [
          | inl k ↦
              let u' = change n key (λ x. minus x value) u in
              let after = sum_of n (take_back n rank (minus left value) u') in
              let less =
                sum-take_back rank (minus left value) u'
                  (Covers-change key (λ x. minus x value) u rank covers.1)
                  (left-rest value left (sum_of n rank) h) in
              rw (e, k, take_back)
                (rw
                  (
                    exact.plus_assoc after (minus left value) value,
                    exact.minus-plus left value,
                    sum-change n exact key (λ x. minus x value) u (minus_shift n exact value)
                        covers.0,
                    exact.minus-plus (sum_of n u) value,
                  )
                  at (exact.plus_mono (plus after (minus left value)) (sum_of n u') value less))
          | inr k ↦
              rw (e, k, take_back)
                (rw
                  (
                    take_back_done rank (minus left value) (change n key (λ x. minus x left) u)
                        (minus-nonpositive n exact left value (ground (arith, k))),
                    sum-change n exact key (λ x. minus x left) u (minus_shift n exact left)
                        covers.0,
                    exact.minus-plus (sum_of n u) left,
                  )
                  (leb_refl (sum_of n u)))
        ]
      ]

  -- What is handed out where the demands are too high: with the demand taken off, what was there.
  within_total :
      (after demands total : Num)
      → leb (plus after (minus demands total)) demands ≡ true
      → leb after total ≡ true
  within_total after demands total h = leb_cancel n exact after total (minus demands total) (
      subst (λ x. leb (plus after (minus demands total)) x ≡ true)
        (sym (exact.minus-plus demands total) ∙ exact.plus_comm (minus demands total) total) h)

  -- With exact sums and ordered numbers, and if in a shortage what the guests have above their fair
  -- shares covers it, `combination` hands out no more than the total memory.
  pub combination-within :
      (f_allocated u_allocated config_mems exceed shares : Dict Num) (total_mem : Num)
      → exceeds n f_allocated u_allocated ≡ some exceed
      → (ltb_num n (sum_of n u_allocated) total_mem ≡ false
          → leb (minus (sum_of n u_allocated) total_mem) (sum_of n exceed) ≡ true)
      → combination n f_allocated u_allocated total_mem config_mems ≡ some shares
      → leb (sum_of n shares) total_mem ≡ true
  unfolding combination
  combination-within f u config exceed shares total found enough h =
      let demands = sum_of n u in
      let covers = exceeds-Covers n f u exceed found in
      elim (Bool-cases (ltb_num n demands total)) [
        | inl e ↦
            subst (λ d. leb (sum_of n d) total ≡ true)
              (some-injective _ _ (rw (found, e, combination) at h))
              (rw (exact.plus_comm demands (minus total demands) ∙ exact.minus-plus total demands)
                at
                (sum-give config (sort (by_value n) exceed) (minus total demands) u
                  (All-sort (by_value n) _ exceed covers)
                  (minus-nonnegative n exact total demands
                    (ordered.total total demands (ground (arith, e))))))
        | inr e ↦
            let rank = reverse (sort (by_value n) exceed) in
            subst (λ d. leb (sum_of n d) total ≡ true)
              (some-injective _ _ (rw (found, e, combination) at h))
              (within_total _ demands total (
                sum-take_back rank (minus demands total) u
                  (All-reverse _ (sort (by_value n) exceed) (All-sort (by_value n) _ exceed covers))
                  (rw
                    (
                      sum-reverse n exact (sort (by_value n) exceed),
                      sum-sort n exact (by_value n) exceed,
                    )
                    (enough e))))
      ]
