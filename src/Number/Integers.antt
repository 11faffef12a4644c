-- ===== src/Number/Integers.antt =====
-- Python's integers as numbers: an instance in which the policies run, and that has the laws.
-- `negsuc n` is -(n + 1).
use mom_perf_fair_scheduler.Common.{
  some, ℕ, suc, ◌+◌, ◌-◌, ◌*◌, ◌/◌, Bool, ◌≡◌, ap, arith, leb, if◌then◌else◌,
}
use mom_perf_fair_scheduler.Number.{Number, IsOrdered, IsExact, IsRing}

pub data ℤ : Type 0 where
  pos : ℕ → ℤ
  negsuc : ℕ → ℤ

abbrev pub positive_part : ℤ → ℕ
positive_part (pos n) = n
positive_part (negsuc n) = 0

abbrev pub negative_part : ℤ → ℕ
negative_part (pos n) = 0
negative_part (negsuc n) = suc n

-- a - b, as an integer.
abbrev pub sub_ℕ : ℕ → ℕ → ℤ
sub_ℕ a b = if leb b a then pos (a - b) else negsuc (b - a - 1)

infixl 65 ◌+ℤ◌ ◌-ℤ◌
infixl 70 ◌*ℤ◌
unfoldable pub ◌+ℤ◌ : ℤ → ℤ → ℤ
a +ℤ b = sub_ℕ (positive_part a + positive_part b) (negative_part a + negative_part b)

unfoldable pub ◌-ℤ◌ : ℤ → ℤ → ℤ
a -ℤ b = sub_ℕ (positive_part a + negative_part b) (negative_part a + positive_part b)

unfoldable pub ◌*ℤ◌ : ℤ → ℤ → ℤ
◌*ℤ◌ a b =
    sub_ℕ (positive_part a * positive_part b + negative_part a * negative_part b)
      (positive_part a * negative_part b + negative_part a * positive_part b)

-- Floor division by a positive divisor, the only kind that the tests reach.
unfoldable pub floor_div : ℤ → ℤ → ℤ
floor_div (pos a) (pos b) = pos (a / b)
floor_div (negsuc a) (pos b) = negsuc (a / b)
floor_div a (negsuc b) = pos 0

unfoldable pub leb_ℤ : ℤ → ℤ → Bool
leb_ℤ a b = leb (positive_part a + negative_part b) (positive_part b + negative_part a)

abbrev pub integers : Number
integers = record {
  Num = ℤ;
  of_ℕ = pos;
  plus = ◌+ℤ◌;
  minus = ◌-ℤ◌;
  times = ◌*ℤ◌;
  over = floor_div;
  leb = leb_ℤ;
  power = λ a b. some a;
  round3 = λ a. a;
}

pub integers-IsOrdered : IsOrdered integers
unfolding leb_ℤ
integers-IsOrdered = record {
  total = λ a b h. ground arith;
  trans = λ a b c h k. ground arith;
  of_ℕ_mono = λ a b h. ground arith;
}

pub integers-IsExact : IsExact integers
unfolding leb_ℤ ◌+ℤ◌ ◌-ℤ◌
integers-IsExact = record {
  plus_comm = λ a b. ground arith;
  plus_assoc = λ a b c. ground arith;
  plus-zero = λ a. ground arith;
  plus-negate = λ a. ground arith;
  minus-plus = λ a b. ground arith;
  plus_mono = λ a b c h. ground arith;
}

-- Two differences with the same cross sums are the same integer.
sub_ℕ-eq : (a b c d : ℕ) → a + d ≡ c + b → sub_ℕ a b ≡ sub_ℕ c d
sub_ℕ-eq a b c d h = ground arith

-- The parts of a difference.
parts-sub_ℕ : (a b : ℕ) → positive_part (sub_ℕ a b) + b ≡ negative_part (sub_ℕ a b) + a
parts-sub_ℕ a b = ground arith

-- The positive and the negative part of a product, before they are subtracted.
abbrev product_plus : ℤ → ℤ → ℕ
product_plus a b = positive_part a * positive_part b + negative_part a * negative_part b

abbrev product_minus : ℤ → ℤ → ℕ
product_minus a b = positive_part a * negative_part b + negative_part a * positive_part b

times_assoc_ℤ : (a b c : ℤ) → (a *ℤ b) *ℤ c ≡ a *ℤ (b *ℤ c)
unfolding ◌*ℤ◌
times_assoc_ℤ a b c =
    let left = parts-sub_ℕ (product_plus a b) (product_minus a b) in
    let right = parts-sub_ℕ (product_plus b c) (product_minus b c) in
    sub_ℕ-eq (product_plus (a *ℤ b) c) (product_minus (a *ℤ b) c) (product_plus a (b *ℤ c))
      (product_minus a (b *ℤ c))
      (omega (
        arith,
        ap (λ z. z * positive_part c) left,
        ap (λ z. z * negative_part c) left,
        ap (λ z. positive_part a * z) right,
        ap (λ z. negative_part a * z) right,
      ))

times-plus_ℤ : (a b c : ℤ) → a *ℤ (b +ℤ c) ≡ a *ℤ b +ℤ a *ℤ c
unfolding ◌*ℤ◌ ◌+ℤ◌
times-plus_ℤ a b c =
    let total =
      parts-sub_ℕ (positive_part b + positive_part c) (negative_part b + negative_part c) in
    sub_ℕ-eq (product_plus a (b +ℤ c)) (product_minus a (b +ℤ c))
      (positive_part (a *ℤ b) + positive_part (a *ℤ c))
      (negative_part (a *ℤ b) + negative_part (a *ℤ c))
      (omega (
        arith,
        ap (λ z. positive_part a * z) total,
        ap (λ z. negative_part a * z) total,
        parts-sub_ℕ (product_plus a b) (product_minus a b),
        parts-sub_ℕ (product_plus a c) (product_minus a c),
      ))

pub integers-IsRing : IsRing integers
unfolding ◌+ℤ◌ ◌*ℤ◌
integers-IsRing = record {
  times_comm = λ a b. ground arith;
  times_assoc = times_assoc_ℤ;
  times-plus = times-plus_ℤ;
  times-zero = λ a. ground arith;
}
