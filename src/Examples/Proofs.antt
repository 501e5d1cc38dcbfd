-- ===== src/Examples/Proofs.antt =====
-- The VRF at one seed and one input, over the toy curve.
use cc_vrf.Common.{
  ℕ, zero, suc, ◌<◌, ◌≡◌, ◌≢◌, ◌↔◌, ◌⊎◌, refl, Bool, true, some, Bytes, [], ◌∷◌, ◌++◌, IsByte, All,
  arith, length, replicate, ok, err,
}
use cc_vrf.Ecvrf.Encoding.{counter_exceeded, bytes_to_big_int_le}
use cc_vrf.Ecvrf.Keypair.{clamp, derive_scalar, generate_nonce}
use cc_vrf.Ecvrf.HashToCurve.{max_ctr, encode_to_curve_tai, try_counters, candidate}
use cc_vrf.Ecvrf.Prove.{prove_vrf}
use cc_vrf.Ecvrf.Prove.Challenge.{challenge_generation}
use cc_vrf.Ecvrf.HashToCurve.Search.{Accepts, Skips, encode_to_curve_tai_cases}
use cc_vrf.Ecvrf.Verify.{
  gamma_bytes, check_equations, multiply_or_zero, verify_vrf, vrf_proof_to_hash,
}
use cc_vrf.Ecvrf.Verify.Accepts.{IsValidProof, verify_vrf_iff, verify_vrf_total}
use cc_vrf.Ecvrf.Verify.Beta.{beta_input, vrf_proof_to_hash-verify_vrf}
use cc_vrf.Ecvrf.Prove.RoundTrip.{verify_vrf-prove_vrf, nonce_malleability}
use cc_vrf.Examples.Toy.{toy, toy_noble, toy_edwards, ones, times, toy_point}

abbrev sk : Bytes
sk = replicate 32 7

abbrev pub alpha : Bytes
alpha = 1 ∷ 2 ∷ []

abbrev pub x : ℕ
x = 0x4101010101010101010101010101010101010101010101010101010101010100

derived : derive_scalar toy sk ≡ ok (x, x)
unfolding derive_scalar clamp bytes_to_big_int_le
derived = refl

abbrev hashed : ℕ
hashed = 0x0808080808080808080808080808080808080808080808080808080808080808

hashes : (y : Bytes) → encode_to_curve_tai toy y alpha ≡ ok hashed
unfolding encode_to_curve_tai try_counters toy_point candidate bytes_to_big_int_le
hashes y = refl

abbrev k : ℕ
k = 0x0101010101010101010101010101010101010101010101010101010101010101

nonce : (h : Bytes) → generate_nonce toy sk h ≡ ok k
unfolding generate_nonce bytes_to_big_int_le
nonce h = refl

verify_vrf-prove_vrf_example :
    (proof : Bytes) × (gamma : Bytes) × (prove_vrf toy sk alpha ≡ ok (proof, gamma))
    × (length proof ≡ 80)
    × (gamma_bytes proof ≡ gamma)
    × (verify_vrf toy (toy.to_bytes x) alpha proof ≡ ok true)
verify_vrf-prove_vrf_example =
    verify_vrf-prove_vrf toy toy_noble toy_edwards sk alpha x k x hashed derived
      (hashes (toy.to_bytes x)) (nonce (toy.to_bytes hashed)) (omega arith)

nonce_malleability_example :
    (p : Bytes) × (q : Bytes) × (p ≢ q)
    × (gamma_bytes p ≡ gamma_bytes q)
    × (verify_vrf toy (toy.to_bytes (times 5 1)) alpha p ≡ ok true)
    × (verify_vrf toy (toy.to_bytes (times 5 1)) alpha q ≡ ok true)
nonce_malleability_example =
    nonce_malleability toy toy_noble toy_edwards 5 1 2 alpha hashed (omega arith) (omega arith)
      (omega arith) (omega arith) (omega arith) (omega arith) (λ e. omega (arith, e))
      (hashes (toy.to_bytes (times 5 1)))

-- The proof for the secret 5 and the nonce 1.
abbrev pub proof : Bytes
proof = replicate 32 0x28 ++ replicate 16 1 ++ 6 ∷ replicate 15 5 ++ replicate 16 0

abbrev pub pk : Bytes
pk = 5 ∷ replicate 31 0

All-run : (n b : ℕ) (rest : Bytes) → IsByte b → All IsByte rest → All IsByte (replicate n b ++ rest)
All-run zero b rest h hr = hr
All-run (suc n) b rest h hr = (h, All-run n b rest h hr)

pub proof-IsByte : All IsByte proof
proof-IsByte =
    All-run 32 0x28 (replicate 16 1 ++ 6 ∷ replicate 15 5 ++ replicate 16 0) (omega arith) (
      All-run 16 1 (6 ∷ replicate 15 5 ++ replicate 16 0) (omega arith) (
        omega arith,
        All-run 15 5 (replicate 16 0) (omega arith) (All-run 16 0 [] (omega arith) tt),
      ))

pub verified : verify_vrf toy pk alpha proof ≡ ok true
unfolding verify_vrf check_equations multiply_or_zero encode_to_curve_tai try_counters toy_point
    candidate bytes_to_big_int_le challenge_generation
verified = refl

verify_vrf_iff_example :
    (verify_vrf toy pk alpha proof ≡ ok true)
    ↔ IsValidProof toy toy_noble toy_edwards pk alpha proof
verify_vrf_iff_example = verify_vrf_iff toy toy_noble toy_edwards pk alpha proof proof-IsByte

verify_vrf_total_example :
    ((b : Bool) × (verify_vrf toy pk alpha proof ≡ ok b))
    ⊎ ((verify_vrf toy pk alpha proof ≡ err counter_exceeded)
        × (encode_to_curve_tai toy pk alpha ≡ err counter_exceeded))
verify_vrf_total_example = verify_vrf_total toy toy_noble toy_edwards pk alpha proof proof-IsByte

vrf_proof_to_hash-verify_vrf_example :
    (gamma : ℕ) × (toy_point (gamma_bytes proof) ≡ some gamma)
    × (vrf_proof_to_hash toy proof ≡ ok (toy.sha512 (beta_input toy toy_noble gamma)))
    × (length ones ≡ 64)
vrf_proof_to_hash-verify_vrf_example =
    vrf_proof_to_hash-verify_vrf toy toy_noble toy_edwards pk alpha proof proof-IsByte verified

encode_to_curve_tai_cases_example :
    ((p : ℕ) × (i : ℕ) × (i < max_ctr)
      × (encode_to_curve_tai toy pk alpha ≡ ok p)
      × Accepts toy toy_noble pk alpha i p
      × ((j : ℕ) → j < i → Skips toy toy_noble pk alpha j))
    ⊎ ((encode_to_curve_tai toy pk alpha ≡ err counter_exceeded)
        × ((j : ℕ) → j < max_ctr → Skips toy toy_noble pk alpha j))
encode_to_curve_tai_cases_example = encode_to_curve_tai_cases toy toy_noble pk alpha
