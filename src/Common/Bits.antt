-- ===== src/Common/Bits.antt =====
-- Bit operations at every width: each follows from an equation for the lowest binary digit.
use Prim.Native.Nat.{
  ℕ, zero, suc, ◌+◌, ◌*◌, ◌/◌, ◌%◌, ◌^◌, ◌-◌, ◌≤◌, ◌<◌, min, max, bit_and, bit_or, bit_xor, differ,
  bitwise, digits, bit_and-bitwise, bit_or-bitwise, bit_xor-bitwise,
}
use mathlib.Core.Path.{◌≡◌, refl, ap}
use native.Mathlib.Nat.{pow-suc, one-le-pow}
use native.Mathlib.Omega.{arith}

module _ (z : ℕ → ℕ) (f : ℕ → ℕ → ℕ) where
  -- The fuel of the definition does not matter once it covers the first operand.
  digits_enough : (a i j b : ℕ) → a ≤ i → a ≤ j → digits z f i a b ≡ digits z f j a b
  digits_enough zero zero zero b hi hj = refl
  digits_enough zero (suc i) zero b hi hj = refl
  digits_enough zero zero (suc j) b hi hj = refl
  digits_enough zero (suc i) (suc j) b hi hj = refl
  digits_enough (suc a) zero j b hi hj = absurd (omega arith)
  digits_enough (suc a) (suc i) zero b hi hj = absurd (omega arith)
  digits_enough (suc a) (suc i) (suc j) b hi hj =
      ap (λ (t : ℕ). t * 2 + f (suc a % 2) (b % 2))
        (digits_enough (suc a / 2) i j (b / 2) (omega arith) (omega arith))

  lowest_digit :
      (a b : ℕ)
      → bitwise z f (suc a) b ≡ bitwise z f (suc a / 2) (b / 2) * 2 + f (suc a % 2) (b % 2)
  lowest_digit a b =
      omega (arith, digits_enough (suc a / 2) a (suc a / 2) (b / 2) (omega arith) (omega arith))

pub bit_and_digit : (a b : ℕ) → bit_and a b ≡ bit_and (a / 2) (b / 2) * 2 + min (a % 2) (b % 2)
bit_and_digit zero b = simp bit_and-bitwise (omega arith)
bit_and_digit (suc a) b = simp bit_and-bitwise (lowest_digit (λ y. 0) min a b)

pub bit_or_digit : (a b : ℕ) → bit_or a b ≡ bit_or (a / 2) (b / 2) * 2 + max (a % 2) (b % 2)
bit_or_digit zero b = simp bit_or-bitwise (omega arith)
bit_or_digit (suc a) b = simp bit_or-bitwise (lowest_digit (λ y. y) max a b)

pub bit_xor_digit : (a b : ℕ) → bit_xor a b ≡ bit_xor (a / 2) (b / 2) * 2 + differ (a % 2) (b % 2)
bit_xor_digit zero b = simp bit_xor-bitwise (omega arith)
bit_xor_digit (suc a) b = simp bit_xor-bitwise (lowest_digit (λ y. y) differ a b)

-- Induction on a bound in place of strong induction.
bit_or_zero_below : (n a : ℕ) → a ≤ n → bit_or a 0 ≡ a
bit_or_zero_below n zero h = refl
bit_or_zero_below zero (suc a) h = absurd (omega arith)
bit_or_zero_below (suc n) (suc a) h =
    omega (arith, bit_or_digit (suc a) 0, bit_or_zero_below n (suc a / 2) (omega arith))

pub bit_or-zero : (a : ℕ) → bit_or a 0 ≡ a
bit_or-zero a = bit_or_zero_below a a (omega arith)

bit_and_zero_below : (n a : ℕ) → a ≤ n → bit_and a 0 ≡ 0
bit_and_zero_below n zero h = refl
bit_and_zero_below zero (suc a) h = absurd (omega arith)
bit_and_zero_below (suc n) (suc a) h =
    omega (arith, bit_and_digit (suc a) 0, bit_and_zero_below n (suc a / 2) (omega arith))

double_shift : (q k : ℕ) → q * 2 ^ suc k ≡ 2 * (q * 2 ^ k)
double_shift q k = omega (arith, ap (λ (t : ℕ). q * t) (pow-suc 2 k))

-- `(q << k) | r` is a sum when `r` has at most `k` binary digits.
pub bit_or_shift : (k q r : ℕ) → r < 2 ^ k → bit_or (q * 2 ^ k) r ≡ q * 2 ^ k + r
bit_or_shift zero q r h = ground (arith, bit_or-zero q)
bit_or_shift (suc k) q r h = ground (
  arith,
  bit_or_digit (q * 2 ^ suc k) r,
  double_shift q k,
  bit_or_shift k q (r / 2) (omega (arith, pow-suc 2 k)),
)

bit_and_low : (k q r : ℕ) → r < 2 ^ k → bit_and (q * 2 ^ k + r) (2 ^ k - 1) ≡ r
bit_and_low zero q r h = omega (arith, bit_and_zero_below (q * 1 + r) (q * 1 + r) (omega arith))
bit_and_low (suc k) q r h = ground (
  arith,
  bit_and_digit (q * 2 ^ suc k + r) (2 ^ suc k - 1),
  double_shift q k,
  pow-suc 2 k,
  one-le-pow k 2,
  bit_and_low k q (r / 2) (omega (arith, pow-suc 2 k)),
)

-- A mask of `k` ones keeps the remainder by `2 ^ k`.
pub bit_and_mask : (k a : ℕ) → bit_and a (2 ^ k - 1) ≡ a % 2 ^ k
bit_and_mask k a = ground (arith, one-le-pow k 2, bit_and_low k (a / 2 ^ k) (a % 2 ^ k))

differ-eq-zero : (x y : ℕ) → differ x y ≡ 0 → x ≡ y
differ-eq-zero zero y h = omega arith
differ-eq-zero (suc x) zero h = h
differ-eq-zero (suc x) (suc y) h = ap suc (differ-eq-zero x y h)

differ_self : (x : ℕ) → differ x x ≡ 0
differ_self zero = refl
differ_self (suc x) = differ_self x

xor_zero_below : (n a b : ℕ) → a ≤ n → bit_xor a b ≡ 0 → a ≡ b
xor_zero_below n zero b p h = omega (arith, bit_xor-zero_left b)
  where
    bit_xor-zero_left : (b : ℕ) → bit_xor 0 b ≡ b
    bit_xor-zero_left b = simp bit_xor-bitwise refl
xor_zero_below zero (suc a) b p h = absurd (omega arith)
xor_zero_below (suc n) (suc a) b p h = omega (
  arith,
  bit_xor_digit (suc a) b,
  xor_zero_below n (suc a / 2) (b / 2) (omega arith) (omega (arith, bit_xor_digit (suc a) b)),
  differ-eq-zero (suc a % 2) (b % 2) (omega (arith, bit_xor_digit (suc a) b)),
)

-- `a ^ b` is 0 only for equal numbers.
pub eq_of_bit_xor : (a b : ℕ) → bit_xor a b ≡ 0 → a ≡ b
eq_of_bit_xor a b = xor_zero_below a a b (omega arith)

xor_self_below : (n a : ℕ) → a ≤ n → bit_xor a a ≡ 0
xor_self_below n zero p = refl
xor_self_below zero (suc a) p = absurd (omega arith)
xor_self_below (suc n) (suc a) p = omega (
  arith,
  bit_xor_digit (suc a) (suc a),
  xor_self_below n (suc a / 2) (omega arith),
  differ_self (suc a % 2),
)

pub bit_xor_self : (a : ℕ) → bit_xor a a ≡ 0
bit_xor_self a = xor_self_below a a (omega arith)

or_zero_below : (n a b : ℕ) → a ≤ n → bit_or a b ≡ 0 → (a ≡ 0) × (b ≡ 0)
or_zero_below n zero b p h = (refl, simp bit_or-bitwise at h)
or_zero_below zero (suc a) b p h = absurd (omega arith)
or_zero_below (suc n) (suc a) b p h =
    let (ha, hb) =
      or_zero_below n (suc a / 2) (b / 2) (omega arith) (omega (arith, bit_or_digit (suc a) b)) in
    omega (arith, bit_or_digit (suc a) b, ha, hb)

-- `a | b` is 0 only if both are.
pub zeros_of_bit_or : (a b : ℕ) → bit_or a b ≡ 0 → (a ≡ 0) × (b ≡ 0)
zeros_of_bit_or a b = or_zero_below a a b (omega arith)

-- `|` does not grow past a power of two that bounds both numbers.
pub bit_or_lt : (k a b : ℕ) → a < 2 ^ k → b < 2 ^ k → bit_or a b < 2 ^ k
bit_or_lt zero zero zero ha hb = omega (arith, bit_or-zero 0)
bit_or_lt zero (suc a) b ha hb = absurd (omega arith)
bit_or_lt zero zero (suc b) ha hb = absurd (omega arith)
bit_or_lt (suc k) a b ha hb = omega (
  arith,
  bit_or_digit a b,
  pow-suc 2 k,
  bit_or_lt k (a / 2) (b / 2) (omega (arith, pow-suc 2 k)) (omega (arith, pow-suc 2 k)),
)

and_le_below : (n a b : ℕ) → a ≤ n → bit_and a b ≤ b
and_le_below n zero b p = simp bit_and-bitwise (omega arith)
and_le_below zero (suc a) b p = absurd (omega arith)
and_le_below (suc n) (suc a) b p =
    omega (arith, bit_and_digit (suc a) b, and_le_below n (suc a / 2) (b / 2) (omega arith))

pub bit_and_le : (a b : ℕ) → bit_and a b ≤ b
bit_and_le a b = and_le_below a a b (omega arith)
