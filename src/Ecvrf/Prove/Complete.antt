-- ===== src/Ecvrf/Prove/Complete.antt =====
-- What `proveVRF` makes, `verifyVRF` accepts; and so it does with any other nonce.
use cc_vrf.Common.{
  pos, ℕ, ◌+◌, ◌*◌, ◌%◌, ◌^◌, ◌<◌, ◌≡◌, refl, sym, ◌∙◌, ap, [], ◌∷◌, ◌++◌, Bytes, IsByte, All, true,
  false, arith, ok, length, slice, take, length-take, length-append, All-take, All-append,
  append-nil, take-append_self, drop-append_self, drop-drop, flatten, take_all,
}
use native.Mathlib.Nat.{mod-lt}
use cc_vrf.Ecvrf.Encoding.{bytes_to_big_int_le, big_int_to_bytes_le, concat_bytes}
use cc_vrf.Ecvrf.Encoding.Concat.{concat_bytes-flatten}
use cc_vrf.Ecvrf.Encoding.Integers.{big_int_to_bytes_le_lem, bytes_to_big_int_le-lt}
use cc_vrf.Ecvrf.Curve.{Curve, IsNoble, IsEdwards}
use cc_vrf.Ecvrf.HashToCurve.{encode_to_curve_tai}
use cc_vrf.Ecvrf.Prove.{prove_with_nonce}
use cc_vrf.Ecvrf.Prove.Challenge.{challenge_generation}
use cc_vrf.Ecvrf.Verify.{gamma_bytes, proof_c, proof_s}
use cc_vrf.Ecvrf.Verify.Accepts.{IsValidProof}

-- The three fields of a proof are read back from their concatenation.
module _ (g cb sb : Bytes) (hg : length g ≡ 32) (hc : length cb ≡ 16) (hs : length sb ≡ 32) where
  field_gamma : gamma_bytes (g ++ (cb ++ sb)) ≡ g
  field_gamma = take-append_self g (cb ++ sb) (sym hg)

  field_c : slice (g ++ (cb ++ sb)) 32 48 ≡ cb
  field_c = rw (drop-append_self g (cb ++ sb) (sym hg)) (take-append_self cb sb (sym hc))

  field_s : slice (g ++ (cb ++ sb)) 48 80 ≡ sb
  field_s = rw (
    ← drop-drop 16 32 48 (g ++ (cb ++ sb)) refl,
    drop-append_self g (cb ++ sb) (sym hg),
    drop-append_self cb sb (sym hc),
    take_all 32 sb (omega arith),
  )

  field_lengths : length (g ++ (cb ++ sb)) ≡ 80
  field_lengths = omega (arith, length-append g (cb ++ sb), length-append cb sb)

pub three_parts : (a b c : Bytes) → concat_bytes (a ∷ b ∷ c ∷ []) ≡ a ++ (b ++ c)
unfolding flatten
three_parts a b c =
    (concat_bytes-flatten (a ∷ b ∷ c ∷ [])).0 ∙ ap (λ (t : Bytes). a ++ (b ++ t)) (append-nil c)

module _ (ed : Curve) (noble : IsNoble ed) where
  pub challenge_generation-lt :
      (y h gamma u v : ed.Point) → challenge_generation ed y h gamma u v < 256 ^ 16
  unfolding challenge_generation
  challenge_generation-lt y h gamma u v =
      truncated _ (noble.length-sha512 _) (noble.sha512-IsByte _)
    where
      truncated :
          (m : Bytes) → length m ≡ 64 → All IsByte m → bytes_to_big_int_le (take 16 m) < 256 ^ 16
      truncated m len bytes = omega (
        arith,
        bytes_to_big_int_le-lt (take 16 m) (All-take IsByte 16 m bytes),
        ap (λ (n : ℕ). 256 ^ n) (sixteen m len),
      )
        where
          sixteen : (m : Bytes) → length m ≡ 64 → length (take 16 m) ≡ 16
          sixteen m len = omega (arith, length-take 16 m)

  module _ (edwards : IsEdwards ed noble) where
    -- sP - c(xP) is kP for s = k + cx modulo the order.
    pub response :
        (k c x : ℕ) (p : ed.Point)
        → ed.is_torsion_free p ≡ true
        → ed.subtract
            (noble.scalar_multiple ((k + c * x) % ed.order) p)
            (noble.scalar_multiple c (noble.scalar_multiple x p))
          ≡ noble.scalar_multiple k p
    response k c x p t = rw (
      edwards.multiple-mod (k + c * x) p t,
      edwards.multiple-multiple c x p,
      edwards.subtract-multiple k (c * x) p,
    )

    module _ (x k : ℕ) (alpha : Bytes) (h : ed.Point) (x_pos : 0 < x) (x_lt : x < ed.order)
        (k_pos : 0 < k) (k_lt : k < ed.order) (h_torsion_free : ed.is_torsion_free h ≡ true)
        (h_not_small : ed.is_small_order h ≡ false)
        (hashed : encode_to_curve_tai ed (ed.to_bytes (noble.scalar_multiple x ed.base)) alpha
          ≡ ok h) where
      abbrev pub y : ed.Point
      y = noble.scalar_multiple x ed.base

      abbrev pub gamma : ed.Point
      gamma = noble.scalar_multiple x h

      abbrev pub c : ℕ
      c =
          challenge_generation ed y h gamma (noble.scalar_multiple k ed.base)
            (noble.scalar_multiple k h)

      abbrev pub s : ℕ
      s = (k + c * x) % ed.order

      -- With any nonce in range the prover returns a proof of 80 bytes that the verifier accepts.
      abbrev pub Proves : Type 0
      Proves =
          (proof : Bytes) × (prove_with_nonce ed x y h gamma k ≡ ok (proof, ed.to_bytes gamma))
          × (length proof ≡ 80)
          × All IsByte proof
          × (gamma_bytes proof ≡ ed.to_bytes gamma)
          × (proof_c proof ≡ c)
          × (proof_s proof ≡ s)
          × IsValidProof ed noble edwards (ed.to_bytes y) alpha proof

      valid :
          (proof : Bytes)
          → length proof ≡ 80
          → gamma_bytes proof ≡ ed.to_bytes gamma
          → proof_c proof ≡ c
          → proof_s proof ≡ s
          → IsValidProof ed noble edwards (ed.to_bytes y) alpha proof
      valid proof len eg ec es = record {
        y = y;
        gamma = gamma;
        h = h;
        proof_length = len;
        pk_length = noble.length-to_bytes y;
        scalar_range = rw es (mod-lt (k + c * x) {m = ed.order} (omega arith));
        pk_decodes = edwards.from_bytes-to_bytes x ed.base;
        pk_safe = (
          edwards.multiple_not_small x ed.base x_pos x_lt edwards.base_torsion_free
              edwards.base_not_small,
          edwards.multiple_torsion_free x ed.base edwards.base_torsion_free,
        );
        gamma_decodes = rw eg (edwards.from_bytes-to_bytes x h);
        gamma_safe = (
          edwards.multiple_not_small x h x_pos x_lt h_torsion_free h_not_small,
          edwards.multiple_torsion_free x h h_torsion_free,
        );
        hashed = hashed;
        challenge = rw (
          es,
          ec,
          response k c x ed.base edwards.base_torsion_free,
          response k c x h h_torsion_free,
        );
      }

      returns :
          (cb sb : Bytes)
          → big_int_to_bytes_le (pos c) 16 ≡ ok cb
          → big_int_to_bytes_le (pos s) 32 ≡ ok sb
          → prove_with_nonce ed x y h gamma k
            ≡ ok (ed.to_bytes gamma ++ (cb ++ sb), ed.to_bytes gamma)
      unfolding prove_with_nonce
      returns cb sb ec es = ground (
        arith,
        noble.multiply-eq-some ed.base k k_pos k_lt,
        noble.multiply-eq-some h k k_pos k_lt,
        three_parts (ed.to_bytes gamma) cb sb,
      )

      pub prove_with_nonce_lem : Proves
      prove_with_nonce_lem =
          let (cb, ec, lc, bc, vc) =
            big_int_to_bytes_le_lem c 16 (challenge_generation-lt y h gamma _ _) in
          let (sb, es, ls, bs, vs) = big_int_to_bytes_le_lem s 32 s_fits in
          let lg = noble.length-to_bytes gamma in
          let ec' = ap bytes_to_big_int_le (field_c (ed.to_bytes gamma) cb sb lg lc ls) ∙ vc in
          let es' = ap bytes_to_big_int_le (field_s (ed.to_bytes gamma) cb sb lg lc ls) ∙ vs in
          (
            ed.to_bytes gamma ++ (cb ++ sb),
            returns cb sb ec es,
            field_lengths (ed.to_bytes gamma) cb sb lg lc ls,
            All-append IsByte _ _ (noble.to_bytes-IsByte gamma) (All-append IsByte cb sb bc bs),
            field_gamma (ed.to_bytes gamma) cb sb lg lc ls,
            ec',
            es',
            valid _ (field_lengths (ed.to_bytes gamma) cb sb lg lc ls)
                (field_gamma (ed.to_bytes gamma) cb sb lg lc ls) ec' es',
          )
        where
          s_fits : s < 256 ^ 32
          s_fits = omega (arith, noble.order_upper, mod-lt (k + c * x) {m = ed.order} (omega arith))
