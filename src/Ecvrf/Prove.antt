-- ===== src/Ecvrf/Prove.antt =====
-- packages/ecvrf/src/challenge.ts and prove.ts.
pub mod Challenge
pub mod Complete
pub mod RoundTrip
pub mod Shape
use cc_vrf.Common.{pos, ℕ, ◌+◌, ◌*◌, ◌%◌, List, [], ◌∷◌, Bytes, Result, ok, ◌>>=◌}
use cc_vrf.Ecvrf.Encoding.{Error, concat_bytes, big_int_to_bytes_le}
use cc_vrf.Ecvrf.Curve.{Curve, multiply_checked}
use cc_vrf.Ecvrf.Suite.{c_len, q_len}
use cc_vrf.Ecvrf.HashToCurve.{encode_to_curve_tai}
use cc_vrf.Ecvrf.Keypair.{derive_scalar, generate_nonce}
use Challenge.{challenge_generation}

module _ (ed : Curve) where
  -- Steps 5 to 7, from the nonce on.
  unfoldable pub prove_with_nonce :
      ℕ → ed.Point → ed.Point → ed.Point → ℕ → Result Error (Bytes × Bytes)
  prove_with_nonce x y h gamma k = do
    u ← multiply_checked ed ed.base k
    v ← multiply_checked ed h k
    let c = challenge_generation ed y h gamma u v
    let s = (k + c * x) % ed.order
    c_bytes ← big_int_to_bytes_le (pos c) c_len
    s_bytes ← big_int_to_bytes_le (pos s) q_len
    ok (concat_bytes (ed.to_bytes gamma ∷ c_bytes ∷ s_bytes ∷ []), ed.to_bytes gamma)

  unfoldable pub prove_vrf : Bytes → Bytes → Result Error (Bytes × Bytes)
  prove_vrf sk alpha = do
    (x, y) ← derive_scalar ed sk
    h ← encode_to_curve_tai ed (ed.to_bytes y) alpha
    gamma ← multiply_checked ed h x
    k ← generate_nonce ed sk (ed.to_bytes h)
    prove_with_nonce x y h gamma k
