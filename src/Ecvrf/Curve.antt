-- ===== src/Ecvrf/Curve.antt =====
-- What the package takes from @noble/ed25519 and @noble/hashes: an interface of operations, and the
-- laws of the curve that theorems name as hypotheses. A call that throws returns `none`.
use cc_vrf.Common.{
  ℕ, ◌+◌, ◌*◌, ◌%◌, ◌^◌, ◌≤◌, ◌<◌, ◌≡◌, Bool, true, false, Option, none, some, Bytes, IsByte, All,
  length, Result, ok, err,
}
use cc_vrf.Ecvrf.Encoding.{Error, invalid_scalar}

pub record Curve : Type 1 where
  pub Point : Type 0  -- ed.Point
  pub zero_point : Point  -- ed.Point.ZERO
  pub base : Point  -- ed.Point.BASE
  pub order : ℕ  -- ed.Point.CURVE().n
  pub from_bytes : Bytes → Option Point
  pub to_bytes : Point → Bytes
  pub multiply : Point → ℕ → Option Point
  pub subtract : Point → Point → Point
  pub is_small_order : Point → Bool
  pub is_torsion_free : Point → Bool
  pub equals : Point → Point → Bool
  pub sha512 : Bytes → Bytes

-- Documented behaviour: SHA-512 returns 64 bytes, a point is encoded in 32 bytes, `multiply` takes
-- the scalars from 1 to the group order less 1 and throws on 0, and the order lies between 2 ^ 128
-- and 2 ^ 256.
pub record IsNoble (ed : Curve) : Type 0 where
  pub scalar_multiple : ℕ → ed.Point → ed.Point
  pub multiply-eq-some :
      (p : ed.Point) (n : ℕ) → 0 < n → n < ed.order → ed.multiply p n ≡ some (scalar_multiple n p)
  pub multiply-zero : (p : ed.Point) → ed.multiply p 0 ≡ none
  pub order_lower : 2 ^ 128 ≤ ed.order
  pub order_upper : ed.order ≤ 2 ^ 256
  pub length-to_bytes : (p : ed.Point) → length (ed.to_bytes p) ≡ 32
  pub to_bytes-IsByte : (p : ed.Point) → All IsByte (ed.to_bytes p)
  pub length-sha512 : (m : Bytes) → length (ed.sha512 m) ≡ 64
  pub sha512-IsByte : (m : Bytes) → All IsByte (ed.sha512 m)

-- The points form a group in which 8 clears the cofactor and the torsion-free points have prime
-- order; a multiple of a point decodes from its encoding.
pub record IsEdwards (ed : Curve) (noble : IsNoble ed) : Type 0 where
  pub zero-multiple : (p : ed.Point) → noble.scalar_multiple 0 p ≡ ed.zero_point
  pub multiple-multiple :
      (a b : ℕ) (p : ed.Point)
      → noble.scalar_multiple a (noble.scalar_multiple b p) ≡ noble.scalar_multiple (a * b) p
  pub subtract-multiple :
      (a b : ℕ) (p : ed.Point)
      → ed.subtract (noble.scalar_multiple (a + b) p) (noble.scalar_multiple b p)
        ≡ noble.scalar_multiple a p
  pub multiple-mod :
      (n : ℕ) (p : ed.Point)
      → ed.is_torsion_free p ≡ true
      → noble.scalar_multiple (n % ed.order) p ≡ noble.scalar_multiple n p
  pub base_torsion_free : ed.is_torsion_free ed.base ≡ true
  pub base_not_small : ed.is_small_order ed.base ≡ false
  pub multiple_torsion_free :
      (n : ℕ) (p : ed.Point)
      → ed.is_torsion_free p ≡ true
      → ed.is_torsion_free (noble.scalar_multiple n p) ≡ true
  pub cleared_torsion_free : (p : ed.Point) → ed.is_torsion_free (noble.scalar_multiple 8 p) ≡ true
  pub cleared_not_small :
      (p : ed.Point)
      → ed.is_torsion_free p ≡ true
      → ed.equals p ed.zero_point ≡ false
      → ed.is_small_order p ≡ false
  pub multiple_not_small :
      (n : ℕ) (p : ed.Point)
      → 0 < n
      → n < ed.order
      → ed.is_torsion_free p ≡ true
      → ed.is_small_order p ≡ false
      → ed.is_small_order (noble.scalar_multiple n p) ≡ false
  pub from_bytes-to_bytes :
      (n : ℕ) (p : ed.Point)
      → ed.from_bytes (ed.to_bytes (noble.scalar_multiple n p)) ≡ some (noble.scalar_multiple n p)

module _ (ed : Curve) where
  -- `p.multiply(n)`, which throws on a scalar out of range
  abbrev pub multiply_checked : ed.Point → ℕ → Result Error ed.Point
  multiply_checked p n = elim (ed.multiply p n) [ none ↦ err invalid_scalar | some q ↦ ok q ]

  -- `Point.fromBytes(bytes)`, which throws on bytes that encode no point
  abbrev pub decode_point : Bytes → Result Error ed.Point
  decode_point bytes = elim (ed.from_bytes bytes) [ none ↦ err Error.invalid_point | some q ↦ ok q ]
