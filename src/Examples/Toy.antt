-- ===== src/Examples/Toy.antt =====
-- A small instance of the curve's interface: the numbers modulo 2 ^ 255 under addition, with every
-- point safe, and a hash whose 64 bytes are all 1.
use cc_vrf.Common.{
  ℕ, zero, suc, ◌+◌, ◌-◌, ◌*◌, ◌/◌, ◌%◌, ◌^◌, ◌<◌, ◌≡◌, refl, sym, ap, ◌∙◌, true, false, Option,
  none, some, Bytes, IsByte, All, arith, length, replicate, ◌==◌, ltb, if◌then◌else◌,
}
use cc_vrf.Ecvrf.Encoding.{le_digits, bytes_to_big_int_le}
use cc_vrf.Ecvrf.Encoding.Integers.{le_digits_lem}
use cc_vrf.Ecvrf.Curve.{Curve, IsNoble, IsEdwards}
use native.Mathlib.Nat.{mod-lt, mod-mod, mod-add-mod, mod-add-div, add-mul-mod_self_left}

abbrev pub toy_order : ℕ
toy_order = 2 ^ 255

abbrev pub ones : Bytes
ones = replicate 64 1

abbrev pub times : ℕ → ℕ → ℕ
times n p = (n * p) % toy_order

unfoldable pub toy_bytes : ℕ → Bytes
toy_bytes p = (le_digits 32 p).0

unfoldable pub toy_point : Bytes → Option ℕ
toy_point b = some (bytes_to_big_int_le b)

abbrev pub toy : Curve
toy = record {
  Point = ℕ;
  zero_point = 0;
  base = 1;
  order = toy_order;
  from_bytes = toy_point;
  to_bytes = toy_bytes;
  multiply = λ p n. if n == 0 then none else if ltb n toy_order then some (times n p) else none;
  subtract = λ p q. (p + (toy_order - q % toy_order)) % toy_order;
  is_small_order = λ p. false;
  is_torsion_free = λ p. true;
  equals = λ p q. p == q;
  sha512 = λ m. ones;
}

pub multiply_in_range : (p n : ℕ) → 0 < n → n < toy_order → toy.multiply p n ≡ some (times n p)
multiply_in_range p n l h = ground arith

pub ones-IsByte : All IsByte ones
ones-IsByte = all 64
  where
    all : (n : ℕ) → All IsByte (replicate n 1)
    all zero = tt
    all (suc n) = (omega arith, all n)

pub length-toy_bytes : (p : ℕ) → length (toy_bytes p) ≡ 32
unfolding toy_bytes
length-toy_bytes p = (le_digits_lem 32 p).0

pub toy_bytes-IsByte : (p : ℕ) → All IsByte (toy_bytes p)
unfolding toy_bytes
toy_bytes-IsByte p = let (len, bytes, sum) = le_digits_lem 32 p in bytes

abbrev pub toy_noble : IsNoble toy
toy_noble = record {
  scalar_multiple = times;
  multiply-eq-some = multiply_in_range;
  multiply-zero = λ p. refl;
  order_lower = omega arith;
  order_upper = omega arith;
  length-to_bytes = length-toy_bytes;
  to_bytes-IsByte = toy_bytes-IsByte;
  length-sha512 = λ m. refl;
  sha512-IsByte = λ m. ones-IsByte;
}

module _ (m : ℕ) where
  mul-mod_right : (a x : ℕ) → (a * (x % m)) % m ≡ (a * x) % m
  mul-mod_right a x =
      let e : a * x ≡ a * (x % m) + m * (a * (x / m)) =
        ap (λ (t : ℕ). a * t) (sym (mod-add-div x m)) ∙ grind arith in
      sym (ap (λ (t : ℕ). t % m) e ∙ add-mul-mod_self_left (a * (x % m)) m (a * (x / m)))

  mul-mod_left : (a x : ℕ) → ((x % m) * a) % m ≡ (x * a) % m
  mul-mod_left a x =
      ap (λ (t : ℕ). t % m) (grind arith) ∙ mul-mod_right a x ∙ ap (λ (t : ℕ). t % m) (grind arith)

  -- (u + v) - v, all modulo `m`
  sub-add_mod : (u v : ℕ) → 0 < m → ((u + v) % m + (m - v % m % m)) % m ≡ u % m
  sub-add_mod u v h =
      mod-add-mod (u + v) m (m - v % m % m)
      ∙ ap (λ (t : ℕ). t % m) (sum (v / m) (mod-add-div v m) (mod-lt v h) (mod-mod v m))
      ∙ add-mul-mod_self_left u m (v / m + 1)
    where
      sum :
          (q : ℕ)
          → v % m + m * q ≡ v
          → v % m < m
          → v % m % m ≡ v % m
          → u + v + (m - v % m % m) ≡ u + m * (q + 1)
      sum q e l mm = let d : m * (q + 1) ≡ m * q + m = grind arith in omega (arith, d, e, l, mm)

from-to : (p : ℕ) → p < toy_order → toy_point (toy_bytes p) ≡ some p
unfolding toy_point toy_bytes
from-to p h = let (len, bytes, sum) = le_digits_lem 32 p in ap some (below sum)
  where
    below :
        bytes_to_big_int_le (le_digits 32 p).0 + (le_digits 32 p).1 * 256 ^ 32 ≡ p
        → bytes_to_big_int_le (le_digits 32 p).0 ≡ p
    below e = omega (arith, e)

pub toy_edwards : IsEdwards toy toy_noble
toy_edwards = record {
  zero-multiple = λ p. omega arith;
  multiple-multiple =
      λ a b p. mul-mod_right toy_order a (b * p) ∙ ap (λ (t : ℕ). t % toy_order) (grind arith);
  subtract-multiple = λ a b p.
      ap (λ (t : ℕ). (t % toy_order + (toy_order - b * p % toy_order % toy_order)) % toy_order)
        (grind arith)
      ∙ sub-add_mod toy_order (a * p) (b * p) (omega arith);
  multiple-mod = λ n p h. mul-mod_left toy_order p n;
  base_torsion_free = refl;
  base_not_small = refl;
  multiple_torsion_free = λ n p h. refl;
  cleared_torsion_free = λ p. refl;
  cleared_not_small = λ p h z. refl;
  multiple_not_small = λ n p l h t s. refl;
  from_bytes-to_bytes = λ n p. from-to (times n p) (mod-lt (n * p) (omega arith));
}
