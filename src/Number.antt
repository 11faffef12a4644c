-- ===== src/Number.antt =====
-- The numbers of the memory policies: Python's integers and floats as one type with the operations
-- that the policies use. The laws that a theorem needs are hypotheses of that theorem.
pub mod Integers
use mom_perf_fair_scheduler.Common.{
  ℕ, ◌≤◌, ◌≡◌, sym, ap, ◌∙◌, Bool, true, false, not, Option, List, [], ◌∷◌,
}

pub record Number : Type 1 where
  pub Num : Type 0
  pub of_ℕ : ℕ → Num
  pub plus : Num → Num → Num
  pub minus : Num → Num → Num
  pub times : Num → Num → Num
  -- `/` of Python 2, total here: where the source divides by a count that may be 0, the model tests
  pub over : Num → Num → Num
  pub leb : Num → Num → Bool
  -- `math.pow`, none where it raises an exception; `round(x, 3)`
  pub power : Num → Num → Option Num
  pub round3 : Num → Num

module _ (n : Number) where
  open n use {Num, of_ℕ, plus, minus, leb}

  -- `a < b`, `a == b`, `-a`, `min(a, b)`
  abbrev pub ltb_num : Num → Num → Bool
  ltb_num a b = not (leb b a)

  abbrev pub eq_num : Num → Num → Bool
  eq_num a b = both (leb a b) (leb b a)
    where
      both : Bool → Bool → Bool
      both true b = b
      both false b = false

  abbrev pub negate : Num → Num
  negate a = minus (of_ℕ 0) a

  unfoldable pub sum : List Num → Num
  sum [] = of_ℕ 0
  sum (x ∷ xs) = plus x (sum xs)

-- The comparison is a linear order: what holds of all numbers but NaN.
pub record IsOrdered (n : Number) : Type 0 where
  pub total : (a b : n.Num) → n.leb a b ≡ false → n.leb b a ≡ true
  pub trans : (a b c : n.Num) → n.leb a b ≡ true → n.leb b c ≡ true → n.leb a c ≡ true
  pub of_ℕ_mono : (a b : ℕ) → a ≤ b → n.leb (n.of_ℕ a) (n.of_ℕ b) ≡ true

-- Sums and differences are exact: integers, and floats as far as they do not round.
pub record IsExact (n : Number) : Type 0 where
  pub plus_comm : (a b : n.Num) → n.plus a b ≡ n.plus b a
  pub plus_assoc : (a b c : n.Num) → n.plus (n.plus a b) c ≡ n.plus a (n.plus b c)
  pub plus-zero : (a : n.Num) → n.plus a (n.of_ℕ 0) ≡ a
  pub plus-negate : (a : n.Num) → n.plus (negate n a) a ≡ n.of_ℕ 0
  pub minus-plus : (a b : n.Num) → n.plus (n.minus a b) b ≡ a
  pub plus_mono : (a b c : n.Num) → n.leb a b ≡ true → n.leb (n.plus a c) (n.plus b c) ≡ true

-- Products are exact too.
pub record IsRing (n : Number) : Type 0 where
  pub times_comm : (a b : n.Num) → n.times a b ≡ n.times b a
  pub times_assoc : (a b c : n.Num) → n.times (n.times a b) c ≡ n.times a (n.times b c)
  pub times-plus : (a b c : n.Num) → n.times a (n.plus b c) ≡ n.plus (n.times a b) (n.times a c)
  pub times-zero : (a : n.Num) → n.times a (n.of_ℕ 0) ≡ n.of_ℕ 0

module _ (n : Number) (exact : IsExact n) where
  open n use {Num, of_ℕ, plus, minus}

  pub zero-plus : (a : Num) → plus (of_ℕ 0) a ≡ a
  zero-plus a = exact.plus_comm (of_ℕ 0) a ∙ exact.plus-zero a

  -- What is added on both sides may be left out.
  pub plus_cancel : (a b c : Num) → plus a c ≡ plus b c → a ≡ b
  plus_cancel a b c h = sym (undo a) ∙ ap (λ x. plus x (negate n c)) h ∙ undo b
    where
      undo : (x : Num) → plus (plus x c) (negate n c) ≡ x
      undo x =
          exact.plus_assoc x c (negate n c)
          ∙ ap (plus x) (exact.plus_comm c (negate n c) ∙ exact.plus-negate c)
          ∙ exact.plus-zero x

  -- Two sums of two, sorted the other way.
  pub plus_swap : (a b c d : Num) → plus (plus a b) (plus c d) ≡ plus (plus a c) (plus b d)
  plus_swap a b c d =
      exact.plus_assoc a b (plus c d)
      ∙ ap (plus a) (
          sym (exact.plus_assoc b c d)
          ∙ ap (λ x. plus x d) (exact.plus_comm b c)
          ∙ exact.plus_assoc c b d)
      ∙ sym (exact.plus_assoc a c (plus b d))

  -- What is taken from one part of a sum and added to the other leaves the sum.
  pub plus-minus : (a b v : Num) → plus (plus a v) (minus b v) ≡ plus a b
  plus-minus a b v =
      exact.plus_assoc a v (minus b v)
      ∙ ap (plus a) (exact.plus_comm v (minus b v) ∙ exact.minus-plus b v)

  pub minus-negate : (a b : Num) → minus a b ≡ plus a (negate n b)
  minus-negate a b = plus_cancel (minus a b) (plus a (negate n b)) b (
      exact.minus-plus a b
      ∙ sym (exact.plus-zero a)
      ∙ ap (plus a) (sym (exact.plus-negate b))
      ∙ sym (exact.plus_assoc a (negate n b) b))

  -- A difference of a number and one that is not larger.
  pub minus-nonnegative : (a b : Num) → n.leb b a ≡ true → n.leb (of_ℕ 0) (minus a b) ≡ true
  minus-nonnegative a b h =
      rw⁻¹ (exact.plus_comm b (negate n b) ∙ exact.plus-negate b)
        (rw (minus-negate a b) (exact.plus_mono b a (negate n b) h))

  pub leb_cancel : (a b c : Num) → n.leb (plus a c) (plus b c) ≡ true → n.leb a b ≡ true
  leb_cancel a b c h = rw (undo a, undo b) at (exact.plus_mono (plus a c) (plus b c) (negate n c) h)
    where
      undo : (x : Num) → plus (plus x c) (negate n c) ≡ x
      undo x =
          exact.plus_assoc x c (negate n c)
          ∙ ap (plus x) (exact.plus_comm c (negate n c) ∙ exact.plus-negate c)
          ∙ exact.plus-zero x

  -- To take from a part of a sum is to take from the sum, and likewise to add.
  pub minus_shift : (v a b : Num) → plus (minus a v) b ≡ minus (plus a b) v
  minus_shift v a b = plus_cancel (plus (minus a v) b) (minus (plus a b) v) v (
      plus_shift v (minus a v) b
      ∙ ap (λ x. plus x b) (exact.minus-plus a v)
      ∙ sym (exact.minus-plus (plus a b) v))
    where
      plus_shift : (v a b : Num) → plus (plus a b) v ≡ plus (plus a v) b
      plus_shift v a b =
          exact.plus_assoc a b v ∙ ap (plus a) (exact.plus_comm b v) ∙ sym (exact.plus_assoc a v b)

  pub plus_shift : (v a b : Num) → plus (plus a v) b ≡ plus (plus a b) v
  plus_shift v a b =
      exact.plus_assoc a v b ∙ ap (plus a) (exact.plus_comm v b) ∙ sym (exact.plus_assoc a b v)

  pub minus-nonpositive : (a b : Num) → n.leb a b ≡ true → n.leb (minus a b) (of_ℕ 0) ≡ true
  minus-nonpositive a b h =
      leb_cancel (minus a b) (of_ℕ 0) b (rw (exact.minus-plus a b, zero-plus b) h)
