-- ===== src/Ecvrf/Prove/Shape.antt =====
-- What `proveVRF` and `vrfProofToHash` return is made of bytes.
use cc_vrf.Common.{
  pos, ℕ, ◌+◌, ◌*◌, ◌%◌, ◌^◌, ◌<◌, ◌≡◌, sym, subst, ◌∙◌, ap, Bytes, IsByte, All, arith, ok, inl,
  inr, length, All-append, >>=-eq-ok, ok_injective,
}
use native.Mathlib.Nat.{mod-lt}
use cc_vrf.Ecvrf.Curve.{Curve, IsNoble, multiply_checked}
use cc_vrf.Ecvrf.Encoding.{big_int_to_bytes_le}
use cc_vrf.Ecvrf.Encoding.Integers.{big_int_to_bytes_le_lem}
use cc_vrf.Ecvrf.HashToCurve.{encode_to_curve_tai}
use cc_vrf.Ecvrf.Keypair.{derive_scalar, generate_nonce}
use cc_vrf.Ecvrf.Prove.{prove_vrf, prove_with_nonce}
use cc_vrf.Ecvrf.Prove.Challenge.{challenge_generation}
use cc_vrf.Ecvrf.Prove.Complete.{challenge_generation-lt, three_parts}
use cc_vrf.Ecvrf.Verify.{vrf_proof_to_hash}
use cc_vrf.Ecvrf.Verify.Beta.{vrf_proof_to_hash_cases}

written-IsByte :
    (n w : ℕ) (out : Bytes) → n < 256 ^ w → big_int_to_bytes_le (pos n) w ≡ ok out → All IsByte out
written-IsByte n w out h e =
    let (made, em, len, bytes, value) = big_int_to_bytes_le_lem n w h in
    subst (All IsByte) (ok_injective (sym em ∙ e)) bytes

module _ (ed : Curve) (noble : IsNoble ed) where
  prove_with_nonce-IsByte :
      (x k : ℕ) (y h gamma : ed.Point) {proof g : Bytes}
      → prove_with_nonce ed x y h gamma k ≡ ok (proof, g)
      → All IsByte proof
  unfolding prove_with_nonce
  prove_with_nonce-IsByte x k y h gamma {proof} {g} e =
      let (u, e1, r1) = >>=-eq-ok (multiply_checked ed ed.base k) _ e in
      let (v, e2, r2) = >>=-eq-ok (multiply_checked ed h k) _ r1 in
      let c = challenge_generation ed y h gamma u v in
      let s = (k + c * x) % ed.order in
      let (cb, ec, r3) = >>=-eq-ok (big_int_to_bytes_le (pos c) 16) _ r2 in
      let (sb, es, r4) = >>=-eq-ok (big_int_to_bytes_le (pos s) 32) _ r3 in
      subst (All IsByte)
        (sym (three_parts (ed.to_bytes gamma) cb sb) ∙ ap (λ p. p.0) (ok_injective r4))
        (All-append IsByte _ _ (noble.to_bytes-IsByte gamma) (
          All-append IsByte cb sb
            (written-IsByte c 16 cb (challenge_generation-lt ed noble y h gamma u v) ec)
            (written-IsByte s 32 sb (fits (k + c * x)) es)))
    where
      fits : (n : ℕ) → n % ed.order < 256 ^ 32
      fits n = omega (
        arith,
        noble.order_upper,
        noble.order_lower,
        mod-lt n {m = ed.order} (omega (arith, noble.order_lower)),
      )

  -- Over a curve library with its documented behaviour: a proof that `prove_vrf` returns is made of
  -- bytes.
  pub prove_vrf-IsByte :
      (sk alpha : Bytes) {proof g : Bytes}
      → prove_vrf ed sk alpha ≡ ok (proof, g)
      → All IsByte proof
  unfolding prove_vrf
  prove_vrf-IsByte sk alpha e =
      let ((x, y), e1, r1) = >>=-eq-ok (derive_scalar ed sk) _ e in
      let (h, e2, r2) = >>=-eq-ok (encode_to_curve_tai ed (ed.to_bytes y) alpha) _ r1 in
      let (gamma, e3, r3) = >>=-eq-ok (multiply_checked ed h x) _ r2 in
      let (k, e4, r4) = >>=-eq-ok (generate_nonce ed sk (ed.to_bytes h)) _ r3 in
      prove_with_nonce-IsByte x k y h gamma r4

  -- Over a curve library with its documented behaviour: what `vrf_proof_to_hash` returns is the
  -- value of the hash, of 64 bytes.
  pub vrf_proof_to_hash_shape :
      (proof : Bytes) {beta : Bytes}
      → vrf_proof_to_hash ed proof ≡ ok beta
      → (length beta ≡ 64) × All IsByte beta
  vrf_proof_to_hash_shape proof {beta} e = elim (vrf_proof_to_hash_cases ed noble proof) [
    | inl (n, f) ↦ absurd (cc (e, f))
    | inr (inl (n, d, f)) ↦ absurd (cc (e, f))
    | inr (inr (gamma, n, d, inl (u, f))) ↦ absurd (cc (e, f))
    | inr (inr (gamma, n, d, inr (u, f))) ↦
        let is = ok_injective (sym f ∙ e) in
        (
          subst (λ b. length b ≡ 64) is (noble.length-sha512 _),
          subst (All IsByte) is (noble.sha512-IsByte _),
        )
  ]
