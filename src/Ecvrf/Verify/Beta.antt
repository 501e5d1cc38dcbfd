-- ===== src/Ecvrf/Verify/Beta.antt =====
-- `vrfProofToHash` on the proofs that `verifyVRF` accepts.
use cc_vrf.Common.{
  ◌⊎◌, inl, inr, Option-cases, Bool-cases, ==_iff, ◌==◌, ◌<◌, ◌≡◌, ◌≢◌, Bytes, IsByte, All, true,
  false, some, none, arith, ok, err, length, [], ◌∷◌,
}
use cc_vrf.Ecvrf.Encoding.{concat_bytes, bad_proof_length, bad_gamma, invalid_point}
use cc_vrf.Ecvrf.Curve.{Curve, IsNoble, IsEdwards}
use cc_vrf.Ecvrf.Verify.{gamma_bytes, is_unsafe, verify_vrf, vrf_proof_to_hash}
use cc_vrf.Ecvrf.Verify.Accepts.{verify_vrf_iff}

module _ (ed : Curve) (noble : IsNoble ed) where
  cofactor_in_range : 8 < ed.order
  cofactor_in_range = omega (arith, noble.order_lower)

  -- What is hashed: the suite, the tag 0x03, eight times Gamma, and 0x00.
  abbrev pub beta_input : ed.Point → Bytes
  beta_input gamma =
      concat_bytes
        ((0x03 ∷ []) ∷ (0x03 ∷ []) ∷ ed.to_bytes (noble.scalar_multiple 8 gamma) ∷ (0x00 ∷ []) ∷ [])

  branches :
      (proof : Bytes)
      → (length proof ≢ 80 → vrf_proof_to_hash ed proof ≡ err bad_proof_length)
        × (length proof ≡ 80
            → ed.from_bytes (gamma_bytes proof) ≡ none
            → vrf_proof_to_hash ed proof ≡ err invalid_point)
        × ((gamma : ed.Point)
            → length proof ≡ 80
            → ed.from_bytes (gamma_bytes proof) ≡ some gamma
            → (is_unsafe ed gamma ≡ true → vrf_proof_to_hash ed proof ≡ err bad_gamma)
              × (is_unsafe ed gamma ≡ false
                  → vrf_proof_to_hash ed proof ≡ ok (ed.sha512 (beta_input gamma))))
  unfolding vrf_proof_to_hash
  branches proof = (
    (λ n. ground arith),
    (λ n e. ground arith),
    (λ gamma n e. (
      (λ u. ground arith),
      (λ u. ground (
        arith,
        noble.multiply-eq-some gamma 8 (omega arith) cofactor_in_range,
        noble.length-sha512 (beta_input gamma),
      )),
    )),
  )

  -- Over a curve library with its documented behaviour, vrf_proof_to_hash returns the hash of
  -- eight times Gamma on exactly the proofs of 80 bytes whose Gamma decodes to a safe point; on
  -- any other input it throws the error of the first check that fails.
  pub vrf_proof_to_hash_cases :
      (proof : Bytes)
      → ((length proof ≢ 80) × (vrf_proof_to_hash ed proof ≡ err bad_proof_length))
        ⊎ ((length proof ≡ 80)
            × (ed.from_bytes (gamma_bytes proof) ≡ none)
            × (vrf_proof_to_hash ed proof ≡ err invalid_point))
        ⊎ ((gamma : ed.Point) × (length proof ≡ 80)
            × (ed.from_bytes (gamma_bytes proof) ≡ some gamma)
            × (((is_unsafe ed gamma ≡ true) × (vrf_proof_to_hash ed proof ≡ err bad_gamma))
                ⊎ ((is_unsafe ed gamma ≡ false)
                    × (vrf_proof_to_hash ed proof ≡ ok (ed.sha512 (beta_input gamma))))))
  vrf_proof_to_hash_cases proof =
      let (short, undecoded, decoded) = branches proof in
      elim (Bool-cases (length proof == 80)) [
        | inr e ↦
            let n : length proof ≢ 80 =
              λ is. absurd (ground (arith, (==_iff (length proof) 80).1 is)) in
            inl (n, short n)
        | inl e ↦
            let n = (==_iff (length proof) 80).0 e in
            elim (Option-cases (ed.from_bytes (gamma_bytes proof))) [
              | inl d ↦ inr (inl (n, d, undecoded n d))
              | inr (gamma, d) ↦ elim (Bool-cases (is_unsafe ed gamma)) [
                | inl u ↦ inr (inr (gamma, n, d, inl (u, (decoded gamma n d).0 u)))
                | inr u ↦ inr (inr (gamma, n, d, inr (u, (decoded gamma n d).1 u)))
              ]
            ]
      ]

  -- Over a curve library with its documented behaviour and the laws of the curve's group,
  -- vrf_proof_to_hash returns 64 bytes on every proof of bytes that verify_vrf accepts: the hash
  -- of eight times the point Gamma that the proof encodes.
  pub vrf_proof_to_hash-verify_vrf :
      (edwards : IsEdwards ed noble) (pk alpha proof : Bytes)
      → All IsByte proof
      → verify_vrf ed pk alpha proof ≡ ok true
      → (gamma : ed.Point) × (ed.from_bytes (gamma_bytes proof) ≡ some gamma)
        × (vrf_proof_to_hash ed proof ≡ ok (ed.sha512 (beta_input gamma)))
        × (length (ed.sha512 (beta_input gamma)) ≡ 64)
  vrf_proof_to_hash-verify_vrf edwards pk alpha proof bytes e =
      let v = (verify_vrf_iff ed noble edwards pk alpha proof bytes).0 e in
      (
        v.gamma,
        v.gamma_decodes,
        ((branches proof).2 v.gamma v.proof_length v.gamma_decodes).1
            (ground (arith, v.gamma_safe)),
        noble.length-sha512 _,
      )
