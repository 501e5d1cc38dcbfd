-- ===== src/Client/Verify/Checks.antt =====
-- What verifyEndToEnd checks: its `valid`, its `reasons` and its `beta`.
use cc_vrf.Common.{
  ◌≡◌, ◌≢◌, ◌↔◌, refl, ap, subst, ◌∙◌, List, All, IsByte, [], ◌∷◌, Bytes, Bool, true, false, ◌&&◌,
  Option, none, some, Result, ok, ◌>>=◌, >>=-eq-ok, ◌==◌, ==_iff, if◌then◌else◌, arith, inl, inr,
  Bool-cases,
}
use cc_vrf.Ecvrf.Encoding.{bytes_equal, bytes_to_hex}
use cc_vrf.Ecvrf.Encoding.Concat.{bytes_equal_iff}
use cc_vrf.Ecvrf.Curve.{Curve, IsNoble, IsEdwards}
use cc_vrf.Ecvrf.Verify.{gamma_bytes, verify_vrf, vrf_proof_to_hash}
use cc_vrf.Ecvrf.Verify.Beta.{beta_input, vrf_proof_to_hash-verify_vrf}
use cc_vrf.Client.Platform.{Platform, ClientError, from_ecvrf, from_ecvrf-eq-ok}
use cc_vrf.Client.Addresses.{suite_edwards25519_sha512_tai, text_bytes}
use cc_vrf.Client.Verify.{
  Reason, push_unless, VerifyEndToEndInput, VerifyEndToEndResult, suite_or_default,
  verify_end_to_end, unsupported_suite, ecvrf_verify_failed, proof_hash_mismatch,
  alpha_hash_mismatch, memo_hash_mismatch,
}

-- A reason is missing from the list exactly when its test holds.
pub push_unless-nil :
    (test : Bool) (reason : Reason) (reasons : List Reason)
    → (push_unless test reason reasons ≡ []) ↔ ((test ≡ true) × (reasons ≡ []))
push_unless-nil true reason reasons = (λ e. (refl, e), λ p. p.1)
push_unless-nil false reason [] = (λ e. absurd cc, λ p. absurd cc)
push_unless-nil false reason (r ∷ rs) = (λ e. absurd cc, λ p. absurd cc)

pub and_iff : (a b : Bool) → ((a && b) ≡ true) ↔ ((a ≡ true) × (b ≡ true))
and_iff true b = (λ e. (refl, e), λ p. p.1)
and_iff false b = (λ e. absurd cc, λ p. absurd cc)

and5_iff :
    (a b c d e : Bool)
    → ((a && b && c && d && e) ≡ true)
      ↔ ((a ≡ true) × (b ≡ true) × (c ≡ true) × (d ≡ true) × (e ≡ true))
and5_iff a b c d e = (λ h. ground arith, λ h. ground arith)

-- The conjunction of the checks is true when they leave no reason.
no_reasons :
    (a b c d e : Bool) (r s t u v : Reason)
    → ((a && b && c && d && e) ≡ true) ↔ (
        push_unless e v (push_unless d u (push_unless c t (push_unless b s (push_unless a r []))))
        ≡ [])
no_reasons a b c d e r s t u v = (
  (λ h. let (ha, hb, hc, hd, he) = (and5_iff a b c d e).0 h in rw (ha, hb, hc, hd, he) refl),
  (λ n0.
      let (he, n1) = (push_unless-nil e v _).0 n0 in
      let (hd, n2) = (push_unless-nil d u _).0 n1 in
      let (hc, n3) = (push_unless-nil c t _).0 n2 in
      let (hb, n4) = (push_unless-nil b s _).0 n3 in
      let (ha, n5) = (push_unless-nil a r []).0 n4 in (and5_iff a b c d e).1 (ha, hb, hc, hd, he)),
)

module _ (sol : Platform) (ed : Curve) where
  -- The step of the ECVRF check.
  abbrev pub ecvrf_step : VerifyEndToEndInput sol → Result ClientError Bool
  ecvrf_step input =
      if suite_or_default input.suite == suite_edwards25519_sha512_tai
      then from_ecvrf (verify_vrf ed input.pk input.alpha input.proof)
      else ok false

  abbrev pub beta_step : VerifyEndToEndInput sol → Bool → Result ClientError (Option Bytes)
  beta_step input v =
      if v then from_ecvrf (vrf_proof_to_hash ed input.proof) >>= (λ b. ok (some b)) else ok none

  ecvrf_step_iff :
      (input : VerifyEndToEndInput sol) (v : Bool)
      → ecvrf_step input ≡ ok v
      → (v ≡ true) ↔ (
          (suite_or_default input.suite ≡ suite_edwards25519_sha512_tai)
          × (verify_vrf ed input.pk input.alpha input.proof ≡ ok true))
  ecvrf_step_iff input v e =
      let suite = suite_or_default input.suite in
      elim (Bool-cases (suite == suite_edwards25519_sha512_tai)) [
        | inr other ↦ (
          (λ t. absurd (ground arith)),
          (λ p. absurd (ground (arith, (==_iff suite suite_edwards25519_sha512_tai).1 p.0))),
        )
        | inl same ↦
            let eq = (==_iff suite suite_edwards25519_sha512_tai).0 same in
            let step : from_ecvrf (verify_vrf ed input.pk input.alpha input.proof) ≡ ok v =
              ground arith in
            ((λ t. (eq, from_ecvrf-eq-ok _ (step ∙ ap ok t))), (λ p. ground arith))
      ]

  -- The result, from the answers of the two steps.
  abbrev pub answer : VerifyEndToEndInput sol → Bool → Option Bytes → VerifyEndToEndResult
  answer input v b =
      let suite = suite_or_default input.suite in
      let suite_supported = suite == suite_edwards25519_sha512_tai in
      let commit = input.on_chain_commit in
      let proof_hash = sol.sha256 input.proof in
      let same_proof = bytes_equal proof_hash commit.proof_hash in
      let same_alpha = bytes_equal (sol.sha256 input.alpha) commit.alpha_hash in
      let same_memo = bytes_equal (sol.sha256 (text_bytes sol input.memo)) commit.memo_hash in
      record {
        valid = suite_supported && v && same_proof && same_alpha && same_memo;
        ecvrf_valid = v;
        suite_supported = suite_supported;
        proof_hash_matches = same_proof;
        alpha_hash_matches = same_alpha;
        memo_hash_matches = same_memo;
        beta = b;
        reasons = push_unless same_memo memo_hash_mismatch (
            push_unless same_alpha alpha_hash_mismatch (
              push_unless same_proof
                (proof_hash_mismatch (bytes_to_hex proof_hash) (bytes_to_hex commit.proof_hash))
                (push_unless v ecvrf_verify_failed
                  (push_unless suite_supported (unsupported_suite suite) []))));
      }

  pub verify_end_to_end_steps :
      (input : VerifyEndToEndInput sol) (r : VerifyEndToEndResult)
      → verify_end_to_end sol ed input ≡ ok r
      → (v : Bool) × (b : Option Bytes) × (ecvrf_step input ≡ ok v)
        × (beta_step input v ≡ ok b)
        × (answer input v b ≡ r)
  unfolding verify_end_to_end
  verify_end_to_end_steps input r e =
      let (v, ev, e2) = >>=-eq-ok (ecvrf_step input) _ e in
      let (b, eb, e3) = >>=-eq-ok (beta_step input v) _ e2 in (v, b, ev, eb, cc)

  pub verify_end_to_end_made :
      (input : VerifyEndToEndInput sol) {v : Bool} {b : Option Bytes}
      → ecvrf_step input ≡ ok v
      → beta_step input v ≡ ok b
      → verify_end_to_end sol ed input ≡ ok (answer input v b)
  unfolding verify_end_to_end
  verify_end_to_end_made input ev eb = ground arith

  -- The three hashes of the commit are those of the proof, the input and the memo.
  abbrev pub HashesMatch : VerifyEndToEndInput sol → Type 0
  HashesMatch input =
      (sol.sha256 input.proof ≡ input.on_chain_commit.proof_hash)
      × (sol.sha256 input.alpha ≡ input.on_chain_commit.alpha_hash)
      × (sol.sha256 (text_bytes sol input.memo) ≡ input.on_chain_commit.memo_hash)

  -- The suite is the supported one, the proof verifies, and the hashes match.
  abbrev pub Checked : VerifyEndToEndInput sol → Type 0
  Checked input =
      (suite_or_default input.suite ≡ suite_edwards25519_sha512_tai)
      × (verify_vrf ed input.pk input.alpha input.proof ≡ ok true)
      × HashesMatch input

  answer_reasons :
      (input : VerifyEndToEndInput sol) (v : Bool) (b : Option Bytes)
      → ((answer input v b).valid ≡ true) ↔ ((answer input v b).reasons ≡ [])
  answer_reasons input v b =
      let commit = input.on_chain_commit in
      let suite = suite_or_default input.suite in
      no_reasons (suite == suite_edwards25519_sha512_tai) v
        (bytes_equal (sol.sha256 input.proof) commit.proof_hash)
        (bytes_equal (sol.sha256 input.alpha) commit.alpha_hash)
        (bytes_equal (sol.sha256 (text_bytes sol input.memo)) commit.memo_hash)
        (unsupported_suite suite) ecvrf_verify_failed
        (proof_hash_mismatch (bytes_to_hex (sol.sha256 input.proof))
          (bytes_to_hex commit.proof_hash))
        alpha_hash_mismatch memo_hash_mismatch

  answer_valid :
      (input : VerifyEndToEndInput sol) (v : Bool) (b : Option Bytes)
      → ((v ≡ true) ↔ (
          (suite_or_default input.suite ≡ suite_edwards25519_sha512_tai)
          × (verify_vrf ed input.pk input.alpha input.proof ≡ ok true)))
      → ((answer input v b).valid ≡ true) ↔ Checked input
  answer_valid input v b (to, from) =
      let commit = input.on_chain_commit in
      let suite_iff = ==_iff (suite_or_default input.suite) suite_edwards25519_sha512_tai in
      let proof_iff = bytes_equal_iff (sol.sha256 input.proof) commit.proof_hash in
      let alpha_iff = bytes_equal_iff (sol.sha256 input.alpha) commit.alpha_hash in
      let memo_iff = bytes_equal_iff (sol.sha256 (text_bytes sol input.memo)) commit.memo_hash in
      let five =
        and5_iff (suite_or_default input.suite == suite_edwards25519_sha512_tai) v
          (bytes_equal (sol.sha256 input.proof) commit.proof_hash)
          (bytes_equal (sol.sha256 input.alpha) commit.alpha_hash)
          (bytes_equal (sol.sha256 (text_bytes sol input.memo)) commit.memo_hash) in
      (
        (λ h.
            let (hs, hv, hp, ha, hm) = five.0 h in
            let (es, ev) = to hv in (es, ev, (proof_iff.0 hp, alpha_iff.0 ha, memo_iff.0 hm))),
        (λ c.
            let (es, ev, hashes) = c in
            let (hp, ha, hm) = hashes in
            five.1 (suite_iff.1 es, from (es, ev), proof_iff.1 hp, alpha_iff.1 ha, memo_iff.1 hm)),
      )

  -- When verify_end_to_end returns, `valid` says that the suite is the supported one, that the proof
  -- verifies and that the three hashes match; and it is true exactly when no reason is given.
  pub verify_end_to_end_valid :
      (input : VerifyEndToEndInput sol) (r : VerifyEndToEndResult)
      → verify_end_to_end sol ed input ≡ ok r
      → ((r.valid ≡ true) ↔ Checked input) × ((r.valid ≡ true) ↔ (r.reasons ≡ []))
  verify_end_to_end_valid input r e =
      let (v, b, ev, eb, er) = verify_end_to_end_steps input r e in
      subst (λ r. ((r.valid ≡ true) ↔ Checked input) × ((r.valid ≡ true) ↔ (r.reasons ≡ []))) er
        (answer_valid input v b (ecvrf_step_iff input v ev), answer_reasons input v b)

  -- verify_end_to_end returns a result unless verify_vrf throws: with an unsupported suite it never
  -- throws, and the result is not valid.
  pub verify_end_to_end_unsupported :
      (input : VerifyEndToEndInput sol)
      → suite_or_default input.suite ≢ suite_edwards25519_sha512_tai
      → (r : VerifyEndToEndResult) × (verify_end_to_end sol ed input ≡ ok r)
        × (r.valid ≡ false)
        × (r.ecvrf_valid ≡ false)
        × (r.beta ≡ none)
  verify_end_to_end_unsupported input other =
      let no : (suite_or_default input.suite == suite_edwards25519_sha512_tai) ≡ false =
        ground (arith, ==_iff (suite_or_default input.suite) suite_edwards25519_sha512_tai) in
      (
        answer input false none,
        verify_end_to_end_made input (ground arith) refl,
        ground arith,
        refl,
        refl,
      )

  -- Over a curve library with its documented behaviour and the laws of the curve's group, for a
  -- proof made of bytes and where every check holds, verify_end_to_end returns a valid result
  -- without a reason, with the hash of eight times Gamma as its beta.
  pub verify_end_to_end_accepts :
      (noble : IsNoble ed) (edwards : IsEdwards ed noble) (input : VerifyEndToEndInput sol)
      → All IsByte input.proof
      → Checked input
      → (r : VerifyEndToEndResult) × (gamma : ed.Point) × (verify_end_to_end sol ed input ≡ ok r)
        × (r.valid ≡ true)
        × (r.reasons ≡ [])
        × (ed.from_bytes (gamma_bytes input.proof) ≡ some gamma)
        × (r.beta ≡ some (ed.sha512 (beta_input ed noble gamma)))
  verify_end_to_end_accepts noble edwards input bytes checked =
      let (es, ev, hashes) = checked in
      let (gamma, decoded, hash, len) =
        vrf_proof_to_hash-verify_vrf ed noble edwards input.pk input.alpha input.proof bytes ev in
      let same = (==_iff (suite_or_default input.suite) suite_edwards25519_sha512_tai).1 es in
      let b = some (ed.sha512 (beta_input ed noble gamma)) in
      let made = verify_end_to_end_made input {v = true} {b = b} (ground arith) (rw hash refl) in
      let (valid_iff, reasons_iff) = verify_end_to_end_valid input (answer input true b) made in
      let valid = valid_iff.1 checked in
      (answer input true b, gamma, made, valid, reasons_iff.0 valid, decoded, refl)
