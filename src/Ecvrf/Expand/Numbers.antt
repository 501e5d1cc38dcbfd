-- ===== src/Ecvrf/Expand/Numbers.antt =====
-- Integers as JavaScript numbers: sums are rounded to 53 significant bits, half to even.
use cc_vrf.Common.{
  ℕ, zero, suc, ◌*◌, ◌/◌, ◌%◌, ◌^◌, ◌<◌, ◌≡◌, refl, ap, ◌∙◌, true, false, ltb, ◌==◌, if◌then◌else◌,
  ℤ, pos, negsuc, pos_part, neg_part, sub_ℕ, ◌+ℤ◌, arith,
}

-- The unit in the last place of `n`, from the unit `u` on. A finite number is below 2 ^ 1024, so 971
-- rounds are enough.
unfoldable pub unit_of : ℕ → ℕ → ℕ → ℕ
unit_of zero n u = u
unit_of (suc fuel) n u = elim (ltb n (2 ^ 53 * u)) [ true ↦ u | false ↦ unit_of fuel n (2 * u) ]

-- `n` as a multiple of the unit: the nearer one, of two as near the even one.
unfoldable pub round_to : ℕ → ℕ → ℕ
round_to u n =
    let q = n / u in
    let r = n % u in
    if ltb (2 * r) u
    then q * u
    else if ltb u (2 * r)
    then suc q * u
    else if q % 2 == 0
    then q * u
    else suc q * u

unfoldable pub round_magnitude : ℕ → ℕ
round_magnitude n = round_to (unit_of 971 n 1) n

unfoldable pub round_double : ℤ → ℤ
round_double (pos n) = pos (round_magnitude n)
round_double (negsuc n) = sub_ℕ 0 (round_magnitude (suc n))

-- `a + b`
unfoldable pub add_double : ℤ → ℤ → ℤ
add_double a b = round_double (a +ℤ b)

-- `Number.isSafeInteger`
abbrev pub IsSafe : ℤ → Type 0
IsSafe a = (pos_part a < 2 ^ 53) × (neg_part a < 2 ^ 53)

unit_of-safe : (fuel n : ℕ) → n < 2 ^ 53 → unit_of fuel n 1 ≡ 1
unfolding unit_of
unit_of-safe zero n h = refl
unit_of-safe (suc fuel) n h = ground arith

round_to-one : (n : ℕ) → round_to 1 n ≡ n
unfolding round_to
round_to-one n = ground arith

round_magnitude-safe : (n : ℕ) → n < 2 ^ 53 → round_magnitude n ≡ n
unfolding round_magnitude
round_magnitude-safe n h = ap (λ (u : ℕ). round_to u n) (unit_of-safe 971 n h) ∙ round_to-one n

sub_ℕ-zero : (n : ℕ) → sub_ℕ 0 (suc n) ≡ negsuc n
sub_ℕ-zero n = ground arith

round_double-safe : (a : ℤ) → IsSafe a → round_double a ≡ a
unfolding round_double
round_double-safe (pos n) (h, k) = ap pos (round_magnitude-safe n h)
round_double-safe (negsuc n) (h, k) = ap (sub_ℕ 0) (round_magnitude-safe (suc n) k) ∙ sub_ℕ-zero n

-- A sum that is a safe integer is exact.
pub add_double-safe : (a b : ℤ) → IsSafe (a +ℤ b) → add_double a b ≡ a +ℤ b
unfolding add_double
add_double-safe a b h = round_double-safe (a +ℤ b) h
