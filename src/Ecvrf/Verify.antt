-- ===== src/Ecvrf/Verify.antt =====
-- packages/ecvrf/src/verify.ts and proofToHash.ts.
pub mod Accepts
pub mod Beta
use cc_vrf.Common.{
  ℕ, ◌+◌, List, [], ◌∷◌, Bytes, Bool, true, false, not, ◌||◌, none, some, slice, length, leb, ◌==◌,
  if◌then◌else◌, Result, ok, guard, ◌>>=◌, ◌>>◌,
}
use cc_vrf.Ecvrf.Encoding.{
  Error, bad_proof_length, bad_gamma, bad_hash_length, concat_bytes, bytes_to_big_int_le,
}
use cc_vrf.Ecvrf.Curve.{Curve, multiply_checked, decode_point}
use cc_vrf.Ecvrf.Suite.{
  pt_len, c_len, proof_len, hash_len, cofactor, suite_string, proof_to_hash_dst_front,
  proof_to_hash_dst_back,
}
use cc_vrf.Ecvrf.HashToCurve.{encode_to_curve_tai}
use cc_vrf.Ecvrf.Prove.Challenge.{challenge_generation}

-- The parts of a proof: the encoded Gamma, and the scalars c and s.
abbrev pub gamma_bytes : Bytes → Bytes
gamma_bytes proof = slice proof 0 pt_len

abbrev pub proof_c : Bytes → ℕ
proof_c proof = bytes_to_big_int_le (slice proof pt_len (pt_len + c_len))

abbrev pub proof_s : Bytes → ℕ
proof_s proof = bytes_to_big_int_le (slice proof (pt_len + c_len) proof_len)

module _ (ed : Curve) where
  -- `n === 0n ? ed.Point.ZERO : p.multiply(n)`
  unfoldable pub multiply_or_zero : ed.Point → ℕ → Result Error ed.Point
  multiply_or_zero p n = if n == 0 then ok ed.zero_point else multiply_checked ed p n

  -- `p.isSmallOrder() || !p.isTorsionFree()`
  abbrev pub is_unsafe : ed.Point → Bool
  is_unsafe p = ed.is_small_order p || not (ed.is_torsion_free p)

  -- From `encodeToCurveTAI` on: the two equations and the challenge.
  unfoldable pub check_equations : Bytes → Bytes → ed.Point → ed.Point → ℕ → ℕ → Result Error Bool
  unfolding multiply_or_zero
  check_equations pk alpha y gamma c s = do
    h ← encode_to_curve_tai ed pk alpha
    s_b ← multiply_or_zero ed.base s
    c_y ← multiply_or_zero y c
    let u = ed.subtract s_b c_y
    s_h ← multiply_or_zero h s
    c_gamma ← multiply_or_zero gamma c
    let v = ed.subtract s_h c_gamma
    ok (c == challenge_generation ed y h gamma u v)

  unfoldable pub verify_vrf : Bytes → Bytes → Bytes → Result Error Bool
  verify_vrf pk alpha proof =
      if not (length proof == proof_len)
      then ok false
      else if not (length pk == pt_len)
      then ok false
      else if leb ed.order (proof_s proof)
      then ok false
      else elim (ed.from_bytes pk) [
        | none ↦ ok false
        | some y ↦ elim (ed.from_bytes (gamma_bytes proof)) [
          | none ↦ ok false
          | some gamma ↦
              if is_unsafe y
              then ok false
              else if is_unsafe gamma
              then ok false
              else check_equations pk alpha y gamma (proof_c proof) (proof_s proof)
        ]
      ]

  unfoldable pub vrf_proof_to_hash : Bytes → Result Error Bytes
  vrf_proof_to_hash proof = do
    guard (length proof == proof_len) bad_proof_length
    gamma ← decode_point ed (gamma_bytes proof)
    guard (not (is_unsafe gamma)) bad_gamma
    cofactor_gamma ← multiply_checked ed gamma cofactor
    let beta = ed.sha512 (
        concat_bytes (
          (suite_string ∷ [])
          ∷ (proof_to_hash_dst_front ∷ [])
          ∷ ed.to_bytes cofactor_gamma
          ∷ (proof_to_hash_dst_back ∷ [])
          ∷ []))
    guard (length beta == hash_len) bad_hash_length
    ok beta
