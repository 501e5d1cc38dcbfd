-- ===== src/Website/ClientDemo/Fair.antt =====
-- The rolls of the browser demo, one by one.
use cc_vrf.Common.{
  ℕ, zero, suc, ◌≤◌, ◌<◌, ◌≡◌, refl, sym, ap, subst, ◌∙◌, [], ◌∷◌, Bytes, IsByte, All, true, length,
  Result, ok, err, >>=-eq-ok, ok_injective, arith,
}
use cc_vrf.Client.Platform.{Platform}
use cc_vrf.Demo.Draw.{roll_value}
use cc_vrf.Demo.Host.{from_vrf}
use cc_vrf.Demo.History.{from_vrf-eq-ok}
use cc_vrf.Demo.Value.{roll_value_lem}
use cc_vrf.Ecvrf.Curve.{Curve, IsNoble, IsEdwards, multiply_checked}
use cc_vrf.Ecvrf.Encoding.{Error, bytes_to_hex}
use cc_vrf.Ecvrf.HashToCurve.{encode_to_curve_tai}
use cc_vrf.Ecvrf.Keypair.{derive_scalar, generate_key_pair, generate_nonce}
use cc_vrf.Ecvrf.Prove.{prove_vrf, prove_with_nonce}
use cc_vrf.Ecvrf.Prove.RoundTrip.{verify_vrf-prove_vrf}
use cc_vrf.Ecvrf.Prove.Shape.{vrf_proof_to_hash_shape}
use cc_vrf.Ecvrf.Verify.{verify_vrf, vrf_proof_to_hash}
use cc_vrf.Website.ClientDemo.{ShownRoll, DemoPage, next_roll}

module _ (sol : Platform) (ed : Curve) (noble : IsNoble ed) (edwards : IsEdwards ed noble) where
  nonce_pos :
      (x k : ℕ) (y h gamma : ed.Point) {out : Bytes × Bytes}
      → prove_with_nonce ed x y h gamma k ≡ ok out
      → 0 < k
  unfolding prove_with_nonce
  nonce_pos x zero y h gamma e = absurd (ground (arith, e, noble.multiply-zero ed.base))
  nonce_pos x (suc k) y h gamma e = omega arith

  -- A key pair as `generateKeyPair` returns it.
  abbrev pub IsPair : Bytes → Bytes → Type 0
  IsPair sk pk = (x : ℕ) × (y : ed.Point) × (derive_scalar ed sk ≡ ok (x, y)) × (pk ≡ ed.to_bytes y)

  pub generate_key_pair-IsPair :
      (seed sk pk : Bytes) → generate_key_pair ed seed ≡ ok (sk, pk) → IsPair sk pk
  unfolding generate_key_pair
  generate_key_pair-IsPair seed sk pk e =
      let ((x, y), e1, r1) = >>=-eq-ok (derive_scalar ed seed) _ e in
      let same = ok_injective r1 in
      (
        x,
        y,
        subst (λ s. derive_scalar ed s ≡ ok (x, y)) (ap (λ p. p.0) same) e1,
        sym (ap (λ p. p.1) same),
      )

  -- Whatever the prover returns for a key pair, the verifier accepts.
  prove_vrf-verifies :
      (sk pk alpha proof gamma : Bytes)
      → IsPair sk pk
      → prove_vrf ed sk alpha ≡ ok (proof, gamma)
      → verify_vrf ed pk alpha proof ≡ ok true
  unfolding prove_vrf
  prove_vrf-verifies sk pk alpha proof gamma (x, y, made, is) e =
      let ((x', y'), e1, r1) = >>=-eq-ok (derive_scalar ed sk) _ e in
      let (h, e2, r2) = >>=-eq-ok (encode_to_curve_tai ed (ed.to_bytes y') alpha) _ r1 in
      let (g, e3, r3) = >>=-eq-ok (multiply_checked ed h x') _ r2 in
      let (k, e4, r4) = >>=-eq-ok (generate_nonce ed sk (ed.to_bytes h)) _ r3 in
      let (proof', gamma', made', len, eg, valid) =
        verify_vrf-prove_vrf ed noble edwards sk alpha x' k y' h e1 e2 e4
          (nonce_pos x' k y' h g r4) in
      let same_key : pk ≡ ed.to_bytes y' =
        is ∙ ap (λ p. ed.to_bytes p.1) (ok_injective (sym made ∙ e1)) in
      let same_proof : proof' ≡ proof = ap (λ p. p.0) (ok_injective (sym made' ∙ e)) in
      rw (same_key, ← same_proof) valid

  -- What a roll on the page stands for.
  abbrev pub IsFair : Bytes → ShownRoll → Type 0
  IsFair pk r =
      (proof : Bytes) × (beta : Bytes) × (verify_vrf ed pk (sol.sha256 (sol.utf8 r.memo)) proof
        ≡ ok true)
      × (vrf_proof_to_hash ed proof ≡ ok beta)
      × (roll_value beta ≡ ok r.roll_value)
      × (r.pk_hex ≡ bytes_to_hex pk)
      × (r.alpha_hex ≡ bytes_to_hex (sol.sha256 (sol.utf8 r.memo)))
      × (r.proof_hex ≡ bytes_to_hex proof)
      × (r.beta_hex ≡ bytes_to_hex beta)
      × (r.ecvrf_valid ≡ true)
      × (1 ≤ r.roll_value)
      × (r.roll_value ≤ 100)

  value_bounds :
      (beta : Bytes) (v : ℕ)
      → length beta ≡ 64
      → All IsByte beta
      → roll_value beta ≡ ok v
      → (1 ≤ v) × (v ≤ 100)
  value_bounds [] v len bytes e = absurd (omega (arith, len))
  value_bounds (b ∷ beta) v len bytes e = (roll_value_lem b beta bytes).1 v e

  pub next_roll-IsFair :
      (page : DemoPage) (r : ShownRoll)
      → IsPair page.sk page.pk
      → next_roll sol ed page ≡ ok r
      → IsFair page.pk r
  unfolding next_roll
  next_roll-IsFair page r pair e =
      let alpha = sol.sha256 (sol.utf8 page.memo) in
      let ((proof, gamma), e1, r1) = >>=-eq-ok (from_vrf (prove_vrf ed page.sk alpha)) _ e in
      let (beta, e2, r2) = >>=-eq-ok (from_vrf (vrf_proof_to_hash ed proof)) _ r1 in
      let (valid, e3, r3) = >>=-eq-ok (from_vrf (verify_vrf ed page.pk alpha proof)) _ r2 in
      let (value, e4, r4) = >>=-eq-ok (roll_value beta) _ r3 in
      let accepted =
        prove_vrf-verifies page.sk page.pk alpha proof gamma pair (from_vrf-eq-ok _ e1) in
      let hashed = from_vrf-eq-ok _ e2 in
      let (len, bytes) = vrf_proof_to_hash_shape ed noble proof hashed in
      let (low, high) = value_bounds beta value len bytes e4 in
      let yes_valid : valid ≡ true = ok_injective (sym (from_vrf-eq-ok _ e3) ∙ accepted) in
      subst (λ s. IsFair page.pk s) (ok_injective r4)
        (proof, beta, accepted, hashed, e4, refl, refl, refl, refl, yes_valid, low, high)

  pub value_made :
      (beta : Bytes) → length beta ≡ 64 → All IsByte beta → (v : ℕ) × (roll_value beta ≡ ok v)
  value_made [] len bytes = absurd (omega (arith, len))
  value_made (b ∷ beta) len bytes = (_, (roll_value_lem b beta bytes).0)

  pub from_vrf-ok {ℓ} : {A : Type ℓ} (r : Result Error A) {a : A} → r ≡ ok a → from_vrf r ≡ ok a
  from_vrf-ok (ok b) e = ap ok (ok_injective e)
  from_vrf-ok (err x) e = absurd cc
