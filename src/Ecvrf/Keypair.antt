-- ===== src/Ecvrf/Keypair.antt =====
-- packages/ecvrf/src/keypair.ts and nonce.ts. The random seed of `generateKeyPair` is an argument.
pub mod Clamp
use cc_vrf.Common.{
  ℕ, ◌%◌, List, [], ◌∷◌, Bytes, slice, set, get_or, length, ◌==◌, bit_and, bit_or, Result, ok,
  guard, ◌>>=◌, ◌>>◌,
}
use cc_vrf.Ecvrf.Encoding.{Error, bad_seed_length, bytes_to_big_int_le, concat_bytes}
use cc_vrf.Ecvrf.Curve.{Curve, multiply_checked}

-- `xBytes[0] &= 248; xBytes[31] &= 127; xBytes[31] |= 64;`
unfoldable pub clamp : Bytes → Bytes
clamp x =
    let x0 = set x 0 (bit_and (get_or x 0 0) 248) in
    let x1 = set x0 31 (bit_and (get_or x0 31 0) 127) in set x1 31 (bit_or (get_or x1 31 0) 64)

module _ (ed : Curve) where
  unfoldable pub derive_scalar : Bytes → Result Error (ℕ × ed.Point)
  derive_scalar sk = do
    guard (length sk == 32) bad_seed_length
    let x = bytes_to_big_int_le (clamp (slice (ed.sha512 sk) 0 32)) % ed.order
    y ← multiply_checked ed ed.base x
    ok (x, y)

  -- `generateKeyPair` on the seed that the random source gave it
  unfoldable pub generate_key_pair : Bytes → Result Error (Bytes × Bytes)
  unfolding derive_scalar
  generate_key_pair seed = do (x, y) ← derive_scalar seed; ok (seed, ed.to_bytes y)

  unfoldable pub public_key_from_seed : Bytes → Result Error Bytes
  unfolding derive_scalar
  public_key_from_seed sk = do (x, y) ← derive_scalar sk; ok (ed.to_bytes y)

  unfoldable pub generate_nonce : Bytes → Bytes → Result Error ℕ
  generate_nonce sk h_string = do
    guard (length sk == 32) bad_seed_length
    let truncated = slice (ed.sha512 sk) 32 64
    ok (bytes_to_big_int_le (ed.sha512 (concat_bytes (truncated ∷ h_string ∷ []))) % ed.order)
