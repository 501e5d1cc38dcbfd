-- ===== src/Ecvrf/Prove/RoundTrip.antt =====
-- Prover and verifier together: completeness, and proofs under other nonces.
use native.Mathlib.Nat.{mod-lt}
use cc_vrf.Common.{
  ℕ, zero, suc, ◌+◌, ◌*◌, ◌%◌, ◌<◌, ◌≡◌, ◌≢◌, sym, ◌∙◌, ap, ap₂, Bytes, true, false, inl, inr, some,
  arith, ok, Result, length, Bool-cases, slice, [], ◌∷◌, ◌==◌, Option-cases,
}
use cc_vrf.Ecvrf.Encoding.{Error, bytes_to_big_int_le, concat_bytes}
use cc_vrf.Ecvrf.Curve.{Curve, IsNoble, IsEdwards}
use cc_vrf.Ecvrf.HashToCurve.{encode_to_curve_tai}
use cc_vrf.Ecvrf.HashToCurve.Search.{encode_to_curve_tai_cases}
use cc_vrf.Ecvrf.Keypair.{clamp, derive_scalar, generate_nonce}
use cc_vrf.Ecvrf.Prove.{prove_vrf}
use cc_vrf.Ecvrf.Prove.Complete.{prove_with_nonce_lem, response}
use cc_vrf.Ecvrf.Verify.{gamma_bytes, proof_c, proof_s, verify_vrf}
use cc_vrf.Ecvrf.Verify.Accepts.{verify_vrf_iff}

module _ (ed : Curve) (noble : IsNoble ed) (edwards : IsEdwards ed noble) where
  multiply_inversion :
      (p q : ed.Point) (n : ℕ)
      → n < ed.order
      → ed.multiply p n ≡ some q
      → (0 < n) × (q ≡ noble.scalar_multiple n p)
  multiply_inversion p q zero lt e = cc (noble.multiply-zero p)
  multiply_inversion p q (suc n) lt e =
      (omega arith, cc (noble.multiply-eq-some p (suc n) (omega arith) lt))

  order_pos : 0 < ed.order
  order_pos = omega (arith, noble.order_lower)

  abbrev secret : Bytes → ℕ
  secret sk = bytes_to_big_int_le (clamp (slice (ed.sha512 sk) 0 32)) % ed.order

  -- A derived scalar lies between 1 and the order less 1, and the key is that multiple of the base.
  derive_scalar_lem :
      (sk : Bytes) {x : ℕ} {y : ed.Point}
      → derive_scalar ed sk ≡ ok (x, y)
      → (0 < x) × (x < ed.order) × (y ≡ noble.scalar_multiple x ed.base)
  unfolding derive_scalar
  derive_scalar_lem sk {x} {y} e =
      let lt = mod-lt (bytes_to_big_int_le (clamp (slice (ed.sha512 sk) 0 32))) order_pos in
      elim (Bool-cases (length sk == 32)) [
        | inr short ↦ absurd (ground arith)
        | inl len ↦ elim (Option-cases (ed.multiply ed.base (secret sk))) [
          | inl thrown ↦ absurd (ground arith)
          | inr (q, eq) ↦
              let (pos, mult) = multiply_inversion ed.base q (secret sk) lt eq in ground arith
        ]
      ]

  -- A hashed point lies in the prime-order subgroup and is not the identity.
  hashed_point :
      (salt alpha : Bytes) {h : ed.Point}
      → encode_to_curve_tai ed salt alpha ≡ ok h
      → (ed.is_torsion_free h ≡ true) × (ed.is_small_order h ≡ false)
  hashed_point salt alpha {h} e = elim (encode_to_curve_tai_cases ed noble salt alpha) [
    | inl (p, i, lt, ep, (q, dec, eight, nonzero), before) ↦
        let same : p ≡ h = ok_injective (sym ep ∙ e) in
        let t : ed.is_torsion_free p ≡ true = rw (← eight) (edwards.cleared_torsion_free q) in
        rw (← same) (t, edwards.cleared_not_small p t nonzero)
    | inr (ex, all) ↦ absurd (cc)
  ]
    where
      ok_injective : {a b : ed.Point} → Path (Result Error ed.Point) (ok a) (ok b) → a ≡ b
      ok_injective h = cc

  abbrev nonce_input : Bytes → Bytes → Bytes
  nonce_input sk h = concat_bytes (slice (ed.sha512 sk) 32 64 ∷ h ∷ [])

  generate_nonce-lt : (sk h : Bytes) {k : ℕ} → generate_nonce ed sk h ≡ ok k → k < ed.order
  unfolding generate_nonce
  generate_nonce-lt sk h {k} e = elim (Bool-cases (length sk == 32)) [
    | inr short ↦ absurd (ground arith)
    | inl len ↦
        ground (arith, mod-lt (bytes_to_big_int_le (ed.sha512 (nonce_input sk h))) order_pos)
  ]

  -- Challenge and response determine the nonce's multiple of the base point.
  same_multiple :
      (x k l c d : ℕ)
      → c ≡ d
      → (k + c * x) % ed.order ≡ (l + d * x) % ed.order
      → noble.scalar_multiple k ed.base ≡ noble.scalar_multiple l ed.base
  same_multiple x k l c d ec es =
      let y = noble.scalar_multiple x ed.base in
      sym (response ed noble edwards k c x ed.base edwards.base_torsion_free)
      ∙ ap₂ (λ (s e : ℕ). ed.subtract (noble.scalar_multiple s ed.base) (noble.scalar_multiple e y))
          es ec
      ∙ response ed noble edwards l d x ed.base edwards.base_torsion_free

  -- Over a curve library with its documented behaviour and the laws of the curve's group,
  -- prove_vrf returns a proof of 80 bytes, and verify_vrf accepts it under the key of the seed,
  -- whenever the seed has a scalar, the input hashes to a point and the nonce is not 0.
  pub verify_vrf-prove_vrf :
      (sk alpha : Bytes) (x k : ℕ) (y h : ed.Point)
      → derive_scalar ed sk ≡ ok (x, y)
      → encode_to_curve_tai ed (ed.to_bytes y) alpha ≡ ok h
      → generate_nonce ed sk (ed.to_bytes h) ≡ ok k
      → 0 < k
      → (proof : Bytes) × (gamma : Bytes) × (prove_vrf ed sk alpha ≡ ok (proof, gamma))
        × (length proof ≡ 80)
        × (gamma_bytes proof ≡ gamma)
        × (verify_vrf ed (ed.to_bytes y) alpha proof ≡ ok true)
  unfolding prove_vrf
  verify_vrf-prove_vrf sk alpha x k y h ex eh ek k_pos =
      let (x_pos, x_lt, ey) = derive_scalar_lem sk ex in
      let (torsion_free, not_small) = hashed_point (ed.to_bytes y) alpha eh in
      let k_lt = generate_nonce-lt sk (ed.to_bytes h) ek in
      let (proof, made, len, bytes, eg, ec, es, valid) =
        prove_with_nonce_lem ed noble edwards x k alpha h x_pos x_lt k_pos k_lt torsion_free
          not_small (rw ey at eh) in
      (
        proof,
        ed.to_bytes (noble.scalar_multiple x h),
        ground (arith, noble.multiply-eq-some h x x_pos x_lt),
        len,
        eg,
        rw ey ((verify_vrf_iff ed noble edwards _ alpha proof bytes).1 valid),
      )

  -- Over a curve library with its documented behaviour and the laws of the curve's group, a proof
  -- is not determined by key and input. With any two nonces in range that have different multiples
  -- of the base point, the holder of the secret scalar obtains two different proofs under one key,
  -- for one input and with one Gamma, and verify_vrf accepts both.
  pub nonce_malleability :
      (x k l : ℕ) (alpha : Bytes) (h : ed.Point)
      → 0 < x
      → x < ed.order
      → 0 < k
      → k < ed.order
      → 0 < l
      → l < ed.order
      → noble.scalar_multiple k ed.base ≢ noble.scalar_multiple l ed.base
      → encode_to_curve_tai ed (ed.to_bytes (noble.scalar_multiple x ed.base)) alpha ≡ ok h
      → let pk = ed.to_bytes (noble.scalar_multiple x ed.base) in
        (p : Bytes) × (q : Bytes) × (p ≢ q)
        × (gamma_bytes p ≡ gamma_bytes q)
        × (verify_vrf ed pk alpha p ≡ ok true)
        × (verify_vrf ed pk alpha q ≡ ok true)
  nonce_malleability x k l alpha h x_pos x_lt k_pos k_lt l_pos l_lt ne eh =
      let (torsion_free, not_small) = hashed_point _ alpha eh in
      let (p, made, len, bytes, eg, ec, es, valid) =
        prove_with_nonce_lem ed noble edwards x k alpha h x_pos x_lt k_pos k_lt torsion_free
          not_small eh in
      let (q, made', len', bytes', eg', ec', es', valid') =
        prove_with_nonce_lem ed noble edwards x l alpha h x_pos x_lt l_pos l_lt torsion_free
          not_small eh in
      (
        p,
        q,
        (λ e.
            ne (
              same_multiple x k l _ _ (sym ec ∙ ap proof_c e ∙ ec') (sym es ∙ ap proof_s e ∙ es'))),
        eg ∙ sym eg',
        (verify_vrf_iff ed noble edwards _ alpha p bytes).1 valid,
        (verify_vrf_iff ed noble edwards _ alpha q bytes').1 valid',
      )
