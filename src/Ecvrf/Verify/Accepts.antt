-- ===== src/Ecvrf/Verify/Accepts.antt =====
-- What `verifyVRF` accepts: the proofs that solve the equations of RFC 9381, section 5.3, with a key
-- and a Gamma that are torsion-free and not of small order, which the RFC does not ask of Gamma.
use cc_vrf.Common.{
  ℕ, zero, suc, ◌-◌, ◌^◌, ◌≤◌, ◌<◌, ◌≡◌, ◌≢◌, sym, ◌∙◌, ap, Bytes, IsByte, All, Bool, true, false,
  ◌⊎◌, inl, inr, ◌↔◌, some, arith, ok, err, Result, length, ◌==◌, ==_iff, slice, drop, length-take,
  length-drop, All-take, All-drop, Option-cases, Result-cases,
}
use cc_vrf.Ecvrf.Encoding.{Error, counter_exceeded}
use cc_vrf.Ecvrf.Encoding.Integers.{bytes_to_big_int_le-lt}
use cc_vrf.Ecvrf.Curve.{Curve, IsNoble, IsEdwards}
use cc_vrf.Ecvrf.HashToCurve.{encode_to_curve_tai}
use cc_vrf.Ecvrf.HashToCurve.Search.{encode_to_curve_tai_cases}
use cc_vrf.Ecvrf.Prove.Challenge.{challenge_generation}
use cc_vrf.Ecvrf.Verify.{
  gamma_bytes, proof_c, proof_s, multiply_or_zero, is_unsafe, check_equations, verify_vrf,
}

length-slice : (xs : Bytes) (i j : ℕ) → i ≤ j → j ≤ length xs → length (slice xs i j) ≡ j - i
length-slice xs i j h k = omega (arith, length-take (j - i) (drop i xs), length-drop i xs)

module _ (ed : Curve) (noble : IsNoble ed) (edwards : IsEdwards ed noble) where
  abbrev times : ℕ → ed.Point → ed.Point
  times = noble.scalar_multiple

  -- The equations of section 5.3 for a public key, an input and a proof, and the restriction of key
  -- and Gamma to safe points, which is stricter than the RFC.
  pub record IsValidProof (pk alpha proof : Bytes) : Type 0 where
    pub y : ed.Point
    pub gamma : ed.Point
    pub h : ed.Point
    pub proof_length : length proof ≡ 80
    pub pk_length : length pk ≡ 32
    pub scalar_range : proof_s proof < ed.order
    pub pk_decodes : ed.from_bytes pk ≡ some y
    pub pk_safe : (ed.is_small_order y ≡ false) × (ed.is_torsion_free y ≡ true)
    pub gamma_decodes : ed.from_bytes (gamma_bytes proof) ≡ some gamma
    pub gamma_safe : (ed.is_small_order gamma ≡ false) × (ed.is_torsion_free gamma ≡ true)
    pub hashed : encode_to_curve_tai ed pk alpha ≡ ok h
    pub challenge :
        proof_c proof
        ≡ challenge_generation ed y h gamma
            (ed.subtract
              (noble.scalar_multiple (proof_s proof) ed.base)
              (noble.scalar_multiple (proof_c proof) y))
            (ed.subtract
              (noble.scalar_multiple (proof_s proof) h)
              (noble.scalar_multiple (proof_c proof) gamma))

  multiply_or_zero_lem :
      (p : ed.Point) (n : ℕ) → n < ed.order → multiply_or_zero ed p n ≡ ok (times n p)
  unfolding multiply_or_zero
  multiply_or_zero_lem p zero h = rw (edwards.zero-multiple p)
  multiply_or_zero_lem p (suc n) h =
      ground (arith, noble.multiply-eq-some p (suc n) (omega arith) h)

  pub proof_c-lt : (proof : Bytes) → All IsByte proof → length proof ≡ 80 → proof_c proof < ed.order
  proof_c-lt proof bytes len = omega (
    arith,
    noble.order_lower,
    length-slice proof 32 48 (omega arith) (omega arith),
    bytes_to_big_int_le-lt (slice proof 32 48) part,
    ap (λ (k : ℕ). 256 ^ k) (length-slice proof 32 48 (omega arith) (omega arith)),
  )
    where
      part : All IsByte (slice proof 32 48)
      part = All-take IsByte 16 (drop 32 proof) (All-drop IsByte 32 proof bytes)

  check_equations_lem :
      (pk alpha : Bytes) (y gamma h : ed.Point) (c s : ℕ)
      → encode_to_curve_tai ed pk alpha ≡ ok h
      → c < ed.order
      → s < ed.order
      → check_equations ed pk alpha y gamma c s
        ≡ ok (
            c
            == challenge_generation ed y h gamma
                (ed.subtract (times s ed.base) (times c y))
                (ed.subtract (times s h) (times c gamma)))
  unfolding check_equations
  check_equations_lem pk alpha y gamma h c s e hc hs = rw (
    e,
    multiply_or_zero_lem ed.base s hs,
    multiply_or_zero_lem y c hc,
    multiply_or_zero_lem h s hs,
    multiply_or_zero_lem gamma c hc,
  )

  complete :
      (pk alpha proof : Bytes)
      → All IsByte proof
      → IsValidProof pk alpha proof
      → verify_vrf ed pk alpha proof ≡ ok true
  unfolding verify_vrf
  complete pk alpha proof bytes v = ground (
    arith,
    v.pk_safe,
    v.gamma_safe,
    check_equations_lem pk alpha v.y v.gamma v.h (proof_c proof) (proof_s proof) v.hashed
        (proof_c-lt proof bytes v.proof_length) v.scalar_range,
    (==_iff _ _).1 v.challenge,
  )

  check_equations_err :
      (pk alpha : Bytes) (y gamma : ed.Point) (c s : ℕ) {x : Error}
      → encode_to_curve_tai ed pk alpha ≡ err x
      → check_equations ed pk alpha y gamma c s ≡ err x
  unfolding check_equations
  check_equations_err pk alpha y gamma c s e = rw e

  ok_injective : {a b : Bool} → Path (Result Error Bool) (ok a) (ok b) → a ≡ b
  ok_injective h = cc

  -- A point that passes `isSmallOrder() || !isTorsionFree()` is safe.
  safe :
      (p : ed.Point)
      → is_unsafe ed p ≡ false
      → (ed.is_small_order p ≡ false) × (ed.is_torsion_free p ≡ true)
  safe p h = ground arith

  module _ (pk alpha proof : Bytes) where
    -- Whatever but `false` verify_vrf gives comes from the equations, behind all the guards.
    guards :
        (r : Result Error Bool)
        → r ≢ ok false
        → verify_vrf ed pk alpha proof ≡ r
        → (y : ed.Point) × (gamma : ed.Point) × (length proof ≡ 80)
          × (length pk ≡ 32)
          × (proof_s proof < ed.order)
          × (ed.from_bytes pk ≡ some y)
          × (is_unsafe ed y ≡ false)
          × (ed.from_bytes (gamma_bytes proof) ≡ some gamma)
          × (is_unsafe ed gamma ≡ false)
          × (check_equations ed pk alpha y gamma (proof_c proof) (proof_s proof) ≡ r)
    unfolding verify_vrf
    guards r ne e = elim (Option-cases (ed.from_bytes pk)) [
      | inl p ↦ absurd (ne (ground arith))
      | inr (y, p) ↦ elim (Option-cases (ed.from_bytes (gamma_bytes proof))) [
        | inl q ↦ absurd (ne (ground arith))
        | inr (gamma, q) ↦ (
          y,
          gamma,
          ground arith,
          ground arith,
          ground arith,
          p,
          ground arith,
          q,
          ground arith,
          ground arith,
        )
      ]
    ]

    sound : All IsByte proof → verify_vrf ed pk alpha proof ≡ ok true → IsValidProof pk alpha proof
    sound bytes e =
        let (y, gamma, lp, lk, hs, ey, sy, eg, sg, eqs) = guards (ok true) (λ h. cc) e in
        elim (Result-cases (encode_to_curve_tai ed pk alpha)) [
          | inl (h, eh) ↦ record {
            y = y;
            gamma = gamma;
            h = h;
            proof_length = lp;
            pk_length = lk;
            scalar_range = hs;
            pk_decodes = ey;
            pk_safe = safe y sy;
            gamma_decodes = eg;
            gamma_safe = safe gamma sg;
            hashed = eh;
            challenge = (==_iff _ _).0 (
                ok_injective (
                  sym (
                    check_equations_lem pk alpha y gamma h (proof_c proof) (proof_s proof) eh
                      (proof_c-lt proof bytes lp) hs)
                  ∙ eqs));
          }
          | inr (x, eh) ↦
              absurd (cc (check_equations_err pk alpha y gamma (proof_c proof) (proof_s proof) eh))
        ]

    -- Over a curve library with its documented behaviour and the laws of the curve's group,
    -- verify_vrf on a proof of bytes returns true exactly when proof and key have their lengths, s
    -- is below the group order, key and Gamma decode to points that are torsion-free and not of
    -- small order, the input hashes to a point H, and c is the challenge for sB - cY and
    -- sH - cGamma. The conditions on key and Gamma are stricter than those of RFC 9381.
    pub verify_vrf_iff :
        All IsByte proof → (verify_vrf ed pk alpha proof ≡ ok true) ↔ IsValidProof pk alpha proof
    verify_vrf_iff bytes = (sound bytes, complete pk alpha proof bytes)

    -- Over a curve library with its documented behaviour and the laws of the curve's group,
    -- verify_vrf on a proof of bytes answers true or false, or it throws the error of the exhausted
    -- counters; it throws only if no counter gives the input a curve point.
    pub verify_vrf_total :
        All IsByte proof
        → ((b : Bool) × (verify_vrf ed pk alpha proof ≡ ok b))
          ⊎ ((verify_vrf ed pk alpha proof ≡ err counter_exceeded)
              × (encode_to_curve_tai ed pk alpha ≡ err counter_exceeded))
    verify_vrf_total bytes = elim (Result-cases (verify_vrf ed pk alpha proof)) [
      | inl answer ↦ inl answer
      | inr (x, ex) ↦ elim (encode_to_curve_tai_cases ed noble pk alpha) [
        | inl (h, i, lt, eh, a, before) ↦ absurd (no_error x ex h eh)
        | inr (eh, rest) ↦ inr (thrown x ex eh, eh)
      ]
    ]
      where
        no_error :
            (x : Error)
            → verify_vrf ed pk alpha proof ≡ err x
            → (h : ed.Point) → encode_to_curve_tai ed pk alpha ≡ ok h
            → ⊥
        no_error x ex h eh =
            let (y, gamma, lp, lk, hs, ey, sy, eg, sg, eqs) = guards (err x) (λ q. cc) ex in
            cc (
              check_equations_lem pk alpha y gamma h (proof_c proof) (proof_s proof) eh
                  (proof_c-lt proof bytes lp) hs,
              eqs,
            )

        thrown :
            (x : Error)
            → verify_vrf ed pk alpha proof ≡ err x
            → encode_to_curve_tai ed pk alpha ≡ err counter_exceeded
            → verify_vrf ed pk alpha proof ≡ err counter_exceeded
        thrown x ex eh =
            let (y, gamma, lp, lk, hs, ey, sy, eg, sg, eqs) = guards (err x) (λ q. cc) ex in
            cc (check_equations_err pk alpha y gamma (proof_c proof) (proof_s proof) eh, eqs, ex)
