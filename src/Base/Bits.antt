-- ===== src/Base/Bits.antt =====
-- `|` and `&` of numbers, bit by bit: what they do to the lower half and to the quotient by 2.
use Prim.Native.Nat.{
  ℕ, zero, suc, ◌+◌, ◌*◌, ◌/◌, ◌%◌, ◌≤◌, min, max, digits, bit_and, bit_or, bit_and-bitwise,
  bit_or-bitwise,
}
use mathlib.Core.Path.{◌≡◌, refl}
use native.Mathlib.Omega.{arith}

module _ (rest : ℕ → ℕ) (op : ℕ → ℕ → ℕ) where
  -- the digit recursion does not depend on its fuel, once that is no less than the first number
  digits_enough : (b a n m : ℕ) → a ≤ m → a ≤ n → digits rest op n a b ≡ digits rest op m a b
  digits_enough b zero zero zero p q = refl
  digits_enough b zero zero (suc m) p q = refl
  digits_enough b zero (suc n) zero p q = refl
  digits_enough b zero (suc n) (suc m) p q = refl
  digits_enough b (suc a) zero m p q = absurd (omega arith)
  digits_enough b (suc a) (suc n) zero p q = absurd (omega arith)
  digits_enough b (suc a) (suc n) (suc m) p q =
      rw (digits_enough (b / 2) (suc a / 2) n m (omega arith) (omega arith))

or_zero : (b : ℕ) → bit_or 0 b ≡ b
or_zero b = bit_or-bitwise 0 b

and_zero : (b : ℕ) → bit_and 0 b ≡ 0
and_zero b = bit_and-bitwise 0 b

pub or_split : (a b : ℕ) → bit_or a b ≡ 2 * bit_or (a / 2) (b / 2) + max (a % 2) (b % 2)
or_split zero b = omega (arith, or_zero b, or_zero (b / 2))
or_split (suc a) b = omega (
  arith,
  bit_or-bitwise (suc a) b,
  bit_or-bitwise (suc a / 2) (b / 2),
  digits_enough (λ y. y) max (b / 2) (suc a / 2) a (suc a / 2) (omega arith) (omega arith),
)

pub and_split : (a b : ℕ) → bit_and a b ≡ 2 * bit_and (a / 2) (b / 2) + min (a % 2) (b % 2)
and_split zero b = omega (arith, and_zero b, and_zero (b / 2))
and_split (suc a) b = omega (
  arith,
  bit_and-bitwise (suc a) b,
  bit_and-bitwise (suc a / 2) (b / 2),
  digits_enough (λ y. 0) min (b / 2) (suc a / 2) a (suc a / 2) (omega arith) (omega arith),
)

pub or_none : (n a : ℕ) → a ≤ n → bit_or a 0 ≡ a
or_none n zero h = or_zero 0
or_none zero (suc a) h = absurd (omega arith)
or_none (suc n) (suc a) h = omega (arith, or_split (suc a) 0, or_none n (suc a / 2) (omega arith))

-- `x >> k`, one place at a time, and the lowest bit of that
abbrev pub halve : ℕ → ℕ → ℕ
halve zero x = x
halve (suc k) x = halve k (x / 2)

abbrev pub bit : ℕ → ℕ → ℕ
bit k x = halve k x % 2

pub halve-bit_or : (k a b : ℕ) → halve k (bit_or a b) ≡ bit_or (halve k a) (halve k b)
halve-bit_or zero a b = refl
halve-bit_or (suc k) a b =
    let half : bit_or a b / 2 ≡ bit_or (a / 2) (b / 2) = omega (arith, or_split a b) in
    rw half (halve-bit_or k (a / 2) (b / 2))

pub halve-bit_and : (k a b : ℕ) → halve k (bit_and a b) ≡ bit_and (halve k a) (halve k b)
halve-bit_and zero a b = refl
halve-bit_and (suc k) a b =
    let half : bit_and a b / 2 ≡ bit_and (a / 2) (b / 2) = omega (arith, and_split a b) in
    rw half (halve-bit_and k (a / 2) (b / 2))

-- bit `k` of `a | b` and of `a & b`
pub bit-bit_or : (k a b : ℕ) → bit k (bit_or a b) ≡ max (bit k a) (bit k b)
bit-bit_or k a b = rw (halve-bit_or k a b) (omega (arith, or_split (halve k a) (halve k b)))

pub bit-bit_and : (k a b : ℕ) → bit k (bit_and a b) ≡ min (bit k a) (bit k b)
bit-bit_and k a b = rw (halve-bit_and k a b) (omega (arith, and_split (halve k a) (halve k b)))

-- the number with `k` ones
abbrev pub ones : ℕ → ℕ
ones zero = 0
ones (suc k) = 2 * ones k + 1

pub and_ones : (k a : ℕ) → a ≤ ones k → bit_and a (ones k) ≡ a
and_ones zero a le = ground (arith, and_zero 0)
and_ones (suc k) a le =
    let half : (2 * ones k + 1) / 2 ≡ ones k = omega arith in
    let split : bit_and a (2 * ones k + 1)
        ≡ 2 * bit_and (a / 2) (ones k) + min (a % 2) ((2 * ones k + 1) % 2) =
      rw half at (and_split a (2 * ones k + 1)) in
    omega (arith, split, and_ones k (a / 2) (omega arith))

pub halve_ten : (x : ℕ) → halve 10 x ≡ x / 1024
halve_ten x = omega arith
