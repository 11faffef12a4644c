-- ===== src/GradientPolicy/Allocate/Gradient.antt =====
-- Proofs about the gradients that `update_gradient` of mom/Policy/GradientPolicy.py computes.
use mom_perf_fair_scheduler.Common.{
  ◌≡◌, sym, ap, ◌∙◌, subst, some, List, [], ◌∷◌, arith, All, Dict, values, length,
}
use mom_perf_fair_scheduler.Number.{Number, IsExact, IsRing, plus_cancel, plus_swap, zero-plus}
use mom_perf_fair_scheduler.RpPolicy.Allocate.{Progress}
use mom_perf_fair_scheduler.GradientPolicy.VmInfo.{VmInfo}
use mom_perf_fair_scheduler.GradientPolicy.Allocate.{
  for_all, sum_squares, sum_rates, numerator, gradient_of, with_gradients, update_gradient,
  partial_derivative,
}

module _ (n : Number) where
  open n use {Num, of_ℕ, plus, minus, times, over}

  -- The gradients, each with the performance of its guest: the rate times the weight.
  abbrev pub weighted_sum : List (VmInfo n) → Num
  weighted_sum [] = of_ℕ 0
  weighted_sum (i ∷ infos) = plus (times i.rate (times i.weight i.gradient)) (weighted_sum infos)

  -- To divide by the weight of the guest is exact.
  abbrev pub DividesExactly : VmInfo n → Type 0
  DividesExactly i = (x : Num) → times i.weight (over x i.weight) ≡ x

  module _ (exact : IsExact n) (ring : IsRing n) where
    plus-times : (a b c : Num) → times (plus a b) c ≡ plus (times a c) (times b c)
    plus-times a b c =
        ring.times_comm (plus a b) c
        ∙ ring.times-plus c a b
        ∙ ap (λ x. plus x (times c b)) (ring.times_comm c a)
        ∙ ap (plus (times a c)) (ring.times_comm c b)

    -- The numerator of a guest with rate `r`, and what it is short of `a`.
    numerator-plus :
        (a b r : Num) → plus (numerator n (minus a (times r r)) (minus b r) r) (times b r) ≡ a
    unfolding numerator
    numerator-plus a b r =
        let rest = times (minus b r) r in
        ap (plus (minus (minus a (times r r)) rest))
          (ap (λ x. times x r) (sym (exact.minus-plus b r)) ∙ plus-times (minus b r) r r)
        ∙ sym (exact.plus_assoc (minus (minus a (times r r)) rest) rest (times r r))
        ∙ ap (λ x. plus x (times r r)) (exact.minus-plus (minus a (times r r)) rest)
        ∙ exact.minus-plus a (times r r)

    -- The term of one guest.
    term-plus :
        (a b : Num) (i : VmInfo n)
        → DividesExactly i
        → plus (times i.rate (times i.weight (gradient_of n a b i))) (times b (times i.rate i.rate))
          ≡ times a i.rate
    unfolding gradient_of partial_derivative
    term-plus a b i divides =
        let r = i.rate in
        let x = numerator n (minus a (times r r)) (minus b r) r in
        ap (λ y. plus (times r y) (times b (times r r))) (divides x)
        ∙ ap (plus (times r x)) (sym (ring.times_assoc b r r) ∙ ring.times_comm (times b r) r)
        ∙ sym (ring.times-plus r x (times b r))
        ∙ ap (times r) (numerator-plus a b r)
        ∙ ring.times_comm r a

    weighted_sum-plus :
        (f a b : Num) (infos : Dict (VmInfo n))
        → All DividesExactly (values infos)
        → plus
            (weighted_sum (values (with_gradients n f a b infos)))
            (times b (sum_squares n (values infos)))
          ≡ times a (sum_rates n (values infos))
    unfolding with_gradients for_all sum_squares sum_rates
    weighted_sum-plus f a b [] h =
        ap (plus (of_ℕ 0)) (ring.times-zero b) ∙ exact.plus-zero (of_ℕ 0) ∙ sym (ring.times-zero a)
    weighted_sum-plus f a b ((k, i) ∷ infos) h =
        let term = times i.rate (times i.weight (gradient_of n a b i)) in
        let others = weighted_sum (values (with_gradients n f a b infos)) in
        ap (plus (plus term others))
          (ring.times-plus b (times i.rate i.rate) (sum_squares n (values infos)))
        ∙ plus_swap n exact term others _ _
        ∙ ap (λ x. plus x (plus others (times b (sum_squares n (values infos)))))
            (term-plus a b i h.0)
        ∙ ap (plus (times a i.rate)) (weighted_sum-plus f a b infos h.1)
        ∙ sym (ring.times-plus a i.rate (sum_rates n (values infos)))

    with_gradients-weighted_sum :
        (f : Num) (infos : Dict (VmInfo n))
        → All DividesExactly (values infos)
        → weighted_sum (
            values (
              with_gradients n f (sum_squares n (values infos)) (sum_rates n (values infos)) infos))
          ≡ of_ℕ 0
    with_gradients-weighted_sum f infos h =
        let a = sum_squares n (values infos) in
        let b = sum_rates n (values infos) in
        plus_cancel n exact _ (of_ℕ 0) (times b a) (
          weighted_sum-plus f a b infos h
          ∙ ring.times_comm a b
          ∙ sym (zero-plus n exact (times b a)))

    graded-eq :
        (infos graded : Dict (VmInfo n)) (progress progress' : Progress n)
        → update_gradient n infos progress ≡ some (graded, progress')
        → (f : Num) × (with_gradients n f
              (sum_squares n (values infos))
              (sum_rates n (values infos))
              infos
            ≡ graded)
    unfolding update_gradient
    graded-eq infos graded progress progress' e = (
      over (times (sum_rates n (values infos)) (sum_rates n (values infos)))
          (times (of_ℕ (length infos)) (sum_squares n (values infos))),
      ground (arith, e),
    )

    -- With exact sums and products, and if to divide by the weights is exact, the gradients that
    -- `update_gradient` sets, each times the rate and the weight of its guest, add up to 0: what
    -- scales all performances alike does not change the fairness.
    pub update_gradient-weighted_sum :
        (infos graded : Dict (VmInfo n)) (progress progress' : Progress n)
        → All DividesExactly (values infos)
        → update_gradient n infos progress ≡ some (graded, progress')
        → weighted_sum (values graded) ≡ of_ℕ 0
    unfolding update_gradient
    update_gradient-weighted_sum infos graded progress progress' h e =
        let (f, same) = graded-eq infos graded progress progress' e in
        subst (λ (d : Dict (VmInfo n)). weighted_sum (values d) ≡ of_ℕ 0) same
          (with_gradients-weighted_sum f infos h)
