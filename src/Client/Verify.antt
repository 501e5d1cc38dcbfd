-- ===== src/Client/Verify.antt =====
-- packages/vrf-client/src/verifyEndToEnd.ts. Its `bytesEqual` is that of packages/ecvrf, word for word.
pub mod Checks
pub mod Fields
pub mod Authority
pub mod Canonical
use cc_vrf.Common.{
  ℕ, List, [], ◌∷◌, ◌++◌, Bytes, Bool, true, false, not, ◌&&◌, ltb, length, Option, none, some,
  Result, ok, ◌>>=◌, ◌==◌, if◌then◌else◌,
}
use cc_vrf.Ecvrf.Encoding.{bytes_equal, bytes_to_hex}
use cc_vrf.Ecvrf.Curve.{Curve}
use cc_vrf.Ecvrf.Verify.{verify_vrf, vrf_proof_to_hash}
use cc_vrf.Client.Platform.{Platform, Text, ClientError, from_ecvrf}
use cc_vrf.Client.Addresses.{suite_edwards25519_sha512_tai, text_bytes, derive_authority_address}

pub data Reason : Type 0 where
  unsupported_suite : ℕ → Reason
  ecvrf_verify_failed : Reason
  proof_hash_mismatch : List ℕ → List ℕ → Reason
  alpha_hash_mismatch memo_hash_mismatch : Reason
  authority_not_frozen authority_revoked authority_owner_mismatch authority_label_mismatch : Reason
  commit_authority_mismatch commit_authority_missing expected_authority_address_mismatch : Reason
  commit_beta_mismatch : Reason

-- `if (!test) reasons.push(reason)`
abbrev pub push_unless : Bool → Reason → List Reason → List Reason
push_unless test reason reasons = if test then reasons else reasons ++ reason ∷ []

pub record VerifyEndToEndResult : Type 0 where
  pub valid : Bool
  pub ecvrf_valid : Bool
  pub suite_supported : Bool
  pub proof_hash_matches : Bool
  pub alpha_hash_matches : Bool
  pub memo_hash_matches : Bool
  pub beta : Option Bytes
  pub reasons : List Reason

pub record VerifyAuthorityCommitEndToEndResult : Type 0 where
  pub base : VerifyEndToEndResult  -- the fields of `...base`, but `valid` and `reasons`
  pub valid : Bool
  pub reasons : List Reason
  pub authority_frozen : Bool
  pub authority_not_revoked : Bool
  pub authority_owner_matches : Bool
  pub authority_label_matches : Bool
  pub commit_authority_matches : Bool
  pub beta_matches : Option Bool

-- `input.suite ?? SUITE_EDWARDS25519_SHA512_TAI`
abbrev pub suite_or_default : Option ℕ → ℕ
suite_or_default none = suite_edwards25519_sha512_tai
suite_or_default (some s) = s

abbrev pub matches_label : Option Bytes → Bytes → Bool
matches_label none actual = true
matches_label (some expected) actual = bytes_equal actual expected

-- `onChainBeta ? beta !== null && bytesEqual(onChainBeta, beta) : null`
abbrev pub compare_beta : Option Bytes → Option Bytes → Option Bool
compare_beta none beta = none
compare_beta (some b) none = some false
compare_beta (some b) (some c) = some (bytes_equal b c)

-- `betaMatches !== false`
abbrev pub is_not_false : Option Bool → Bool
is_not_false none = true
is_not_false (some b) = b

module _ (sol : Platform) where
  -- `expected ? actual.equals(expected) : true`
  abbrev pub matches_key : Option sol.PublicKey → sol.PublicKey → Bool
  matches_key none actual = true
  matches_key (some expected) actual = sol.equals actual expected

  -- `commitAuthority?.equals(derivedAuthorityAddress) === true`
  abbrev pub commit_authority_equals : Option sol.PublicKey → sol.PublicKey → Bool
  commit_authority_equals none derived = false
  commit_authority_equals (some a) derived = sol.equals a derived

  abbrev pub commit_authority_reason : Option sol.PublicKey → Reason
  commit_authority_reason none = commit_authority_missing
  commit_authority_reason (some a) = commit_authority_mismatch

  abbrev pub program_or_default : Option sol.PublicKey → sol.PublicKey
  program_or_default none = sol.cc_vrf_program_id
  program_or_default (some p) = p

  abbrev pub expected_address_matches : Option sol.PublicKey → sol.PublicKey → Bool
  expected_address_matches none derived = true
  expected_address_matches (some e) derived = sol.equals e derived

  pub record OnChainAuthority : Type 0 where
    pub authority_address : Option sol.PublicKey
    pub owner : sol.PublicKey
    pub pk : Bytes
    pub suite : ℕ
    pub frozen : Bool
    pub revoked : Bool
    pub label : Bytes

  pub record OnChainCommit : Type 0 where
    pub authority : Option sol.PublicKey
    pub memo_hash : Bytes
    pub proof_hash : Bytes
    pub alpha_hash : Bytes
    pub committed_slot : ℕ

  pub record VerifyEndToEndInput : Type 0 where
    pub pk : Bytes
    pub alpha : Bytes
    pub proof : Bytes
    pub on_chain_commit : OnChainCommit
    pub memo : Text
    pub suite : Option ℕ

  pub record VerifyAuthorityCommitEndToEndInput : Type 0 where
    pub alpha : Bytes
    pub proof : Bytes
    pub on_chain_commit : OnChainCommit
    pub memo : Text
    pub authority : OnChainAuthority
    pub expected_owner : Option sol.PublicKey
    pub expected_label : Option Bytes
    pub expected_authority_address : Option sol.PublicKey
    pub program_id : Option sol.PublicKey
    pub on_chain_beta : Option Bytes

  module _ (ed : Curve) where
    unfoldable pub verify_end_to_end : VerifyEndToEndInput → Result ClientError VerifyEndToEndResult
    verify_end_to_end input = do
      let suite = suite_or_default input.suite
      let suite_supported = suite == suite_edwards25519_sha512_tai
      let reasons1 = push_unless suite_supported (unsupported_suite suite) []
      let commit = input.on_chain_commit
      ecvrf_valid ←
          if suite_supported
          then from_ecvrf (verify_vrf ed input.pk input.alpha input.proof)
          else ok false
      let reasons2 = push_unless ecvrf_valid ecvrf_verify_failed reasons1
      let computed_proof_hash = sol.sha256 input.proof
      let proof_hash_matches = bytes_equal computed_proof_hash commit.proof_hash
      let reasons3 =
          push_unless proof_hash_matches
            (proof_hash_mismatch (bytes_to_hex computed_proof_hash)
              (bytes_to_hex commit.proof_hash))
            reasons2
      let alpha_hash_matches = bytes_equal (sol.sha256 input.alpha) commit.alpha_hash
      let reasons4 = push_unless alpha_hash_matches alpha_hash_mismatch reasons3
      let memo_hash_matches = bytes_equal (sol.sha256 (text_bytes sol input.memo)) commit.memo_hash
      let reasons5 = push_unless memo_hash_matches memo_hash_mismatch reasons4
      beta ←
          if ecvrf_valid
          then from_ecvrf (vrf_proof_to_hash ed input.proof) >>= (λ b. ok (some b))
          else ok none
      ok (record {
        valid =
            suite_supported && ecvrf_valid && proof_hash_matches && alpha_hash_matches
            && memo_hash_matches;
        ecvrf_valid = ecvrf_valid;
        suite_supported = suite_supported;
        proof_hash_matches = proof_hash_matches;
        alpha_hash_matches = alpha_hash_matches;
        memo_hash_matches = memo_hash_matches;
        beta = beta;
        reasons = reasons5;
      })

    unfoldable pub verify_authority_commit_end_to_end :
        VerifyAuthorityCommitEndToEndInput → Result ClientError VerifyAuthorityCommitEndToEndResult
    verify_authority_commit_end_to_end input = do
      let authority = input.authority
      let commit = input.on_chain_commit
      base ← verify_end_to_end (record {
        pk = authority.pk;
        alpha = input.alpha;
        proof = input.proof;
        on_chain_commit = commit;
        memo = input.memo;
        suite = some authority.suite;
      })
      let reasons1 = push_unless authority.frozen authority_not_frozen base.reasons
      let not_revoked = not authority.revoked
      let reasons2 = push_unless not_revoked authority_revoked reasons1
      let owner_matches = matches_key input.expected_owner authority.owner
      let reasons3 = push_unless owner_matches authority_owner_mismatch reasons2
      let label_matches = matches_label input.expected_label authority.label
      let reasons4 = push_unless label_matches authority_label_mismatch reasons3
      derived ←
          derive_authority_address sol authority.owner authority.label
            (program_or_default input.program_id)
      let commit_matches = commit_authority_equals commit.authority derived
      let reasons5 = push_unless commit_matches (commit_authority_reason commit.authority) reasons4
      let expected_matches = expected_address_matches input.expected_authority_address derived
      let reasons6 = push_unless expected_matches expected_authority_address_mismatch reasons5
      let beta_matches = compare_beta input.on_chain_beta base.beta
      let reasons7 = push_unless (is_not_false beta_matches) commit_beta_mismatch reasons6
      ok (record {
        base = base;
        valid =
            base.valid
            && authority.frozen
            && not_revoked
            && owner_matches
            && label_matches
            && commit_matches
            && expected_matches
            && is_not_false beta_matches;
        reasons = reasons7;
        authority_frozen = authority.frozen;
        authority_not_revoked = not_revoked;
        authority_owner_matches = owner_matches;
        authority_label_matches = label_matches;
        commit_authority_matches = commit_matches;
        beta_matches = beta_matches;
      })

  pub record PickCanonicalResult : Type 0 where
    pub canonical : Option OnChainCommit
    pub candidates : List OnChainCommit
    pub duplicate_memo_events : Bool
    pub multiple_verifying : Bool

  unfoldable pub matching_commits : Bytes → List OnChainCommit → List OnChainCommit
  matching_commits hash [] = []
  matching_commits hash (c ∷ cs) =
      let rest = matching_commits hash cs in
      if bytes_equal hash c.proof_hash then c ∷ rest else rest

  -- `xs[0] ?? null`
  abbrev pub first_or_null : List OnChainCommit → Option OnChainCommit
  first_or_null [] = none
  first_or_null (c ∷ cs) = some c

  unfoldable pub pick_canonical_commit : List OnChainCommit → Bytes → PickCanonicalResult
  unfolding matching_commits
  pick_canonical_commit candidates proof =
      let matching = matching_commits (sol.sha256 proof) candidates in
      record {
        canonical = first_or_null matching;
        candidates = candidates;
        duplicate_memo_events = ltb 1 (length candidates);
        multiple_verifying = ltb 1 (length matching);
      }
