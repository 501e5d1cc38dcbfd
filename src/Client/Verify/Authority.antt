-- ===== src/Client/Verify/Authority.antt =====
-- What verifyAuthorityCommitEndToEnd checks beyond verifyEndToEnd.
use cc_vrf.Common.{
  ◌≡◌, ◌↔◌, refl, sym, ap, subst, ◌∙◌, List, [], Bytes, Bool, true, false, not, ◌&&◌, Option, some,
  Result, ok, >>=-eq-ok, arith,
}
use cc_vrf.Ecvrf.Curve.{Curve}
use cc_vrf.Client.Platform.{Platform, IsPlatform, ClientError}
use cc_vrf.Client.Addresses.{derive_authority_address}
use cc_vrf.Client.Verify.{
  Reason, push_unless, VerifyEndToEndInput, VerifyEndToEndResult,
  VerifyAuthorityCommitEndToEndInput, VerifyAuthorityCommitEndToEndResult, verify_end_to_end,
  verify_authority_commit_end_to_end, authority_not_frozen, authority_revoked,
  authority_owner_mismatch, authority_label_mismatch, expected_authority_address_mismatch,
  commit_beta_mismatch, commit_authority_reason, commit_authority_equals, matches_key,
  matches_label, program_or_default, expected_address_matches, compare_beta, is_not_false,
}
use cc_vrf.Client.Verify.Fields.{
  matches_key_iff, address_matches_iff, commit_authority_iff, matches_label_iff, beta_matches_iff,
}
use cc_vrf.Client.Verify.Checks.{push_unless-nil, Checked, verify_end_to_end_valid}

and8_iff :
    (a b c d e f g h : Bool)
    → ((a && b && c && d && e && f && g && h) ≡ true) ↔ (
        (a ≡ true)
        × (b ≡ true)
        × (c ≡ true)
        × (d ≡ true)
        × (e ≡ true)
        × (f ≡ true)
        × (g ≡ true)
        × (h ≡ true))
and8_iff a b c d e f g h = (λ p. ground arith, λ p. ground arith)

revoked_fails : (a b d e f g h : Bool) → (a && b && false && d && e && f && g && h) ≡ false
revoked_fails true true d e f g h = refl
revoked_fails true false d e f g h = refl
revoked_fails false b d e f g h = refl

no_reasons :
    (a b c d e f g h : Bool) (rs : List Reason) (s t u v w x y : Reason)
    → (a ≡ true) ↔ (rs ≡ [])
    → ((a && b && c && d && e && f && g && h) ≡ true) ↔ (
        push_unless h y (
          push_unless g x (
            push_unless f w
              (push_unless e v (push_unless d u (push_unless c t (push_unless b s rs))))))
        ≡ [])
no_reasons a b c d e f g h rs s t u v w x y base = (
  (λ p.
      let (ha, hb, hc, hd, he, hf, hg, hh) = (and8_iff a b c d e f g h).0 p in
      rw (hb, hc, hd, he, hf, hg, hh) (base.0 ha)),
  (λ n0.
      let (hh, n1) = (push_unless-nil h y _).0 n0 in
      let (hg, n2) = (push_unless-nil g x _).0 n1 in
      let (hf, n3) = (push_unless-nil f w _).0 n2 in
      let (he, n4) = (push_unless-nil e v _).0 n3 in
      let (hd, n5) = (push_unless-nil d u _).0 n4 in
      let (hc, n6) = (push_unless-nil c t _).0 n5 in
      let (hb, n7) = (push_unless-nil b s rs).0 n6 in
      (and8_iff a b c d e f g h).1 (base.1 n7, hb, hc, hd, he, hf, hg, hh)),
)

module _ (sol : Platform) (ed : Curve) where
  -- What verify_end_to_end gets.
  abbrev pub base_input : VerifyAuthorityCommitEndToEndInput sol → VerifyEndToEndInput sol
  base_input input = record {
    pk = input.authority.pk;
    alpha = input.alpha;
    proof = input.proof;
    on_chain_commit = input.on_chain_commit;
    memo = input.memo;
    suite = some input.authority.suite;
  }

  abbrev derived_step : VerifyAuthorityCommitEndToEndInput sol → Result ClientError sol.PublicKey
  derived_step input =
      derive_authority_address sol input.authority.owner input.authority.label
        (program_or_default sol input.program_id)

  -- The result, from the base result and the derived address.
  abbrev pub authority_answer :
      VerifyAuthorityCommitEndToEndInput sol
      → VerifyEndToEndResult
      → sol.PublicKey
      → VerifyAuthorityCommitEndToEndResult
  authority_answer input base derived =
      let frozen = input.authority.frozen in
      let not_revoked = not input.authority.revoked in
      let owner_matches = matches_key sol input.expected_owner input.authority.owner in
      let label_matches = matches_label input.expected_label input.authority.label in
      let commit_authority = input.on_chain_commit.authority in
      let commit_matches = commit_authority_equals sol commit_authority derived in
      let expected_matches =
        expected_address_matches sol input.expected_authority_address derived in
      let beta_matches = compare_beta input.on_chain_beta base.beta in
      record {
        base = base;
        valid =
            base.valid
            && frozen
            && not_revoked
            && owner_matches
            && label_matches
            && commit_matches
            && expected_matches
            && is_not_false beta_matches;
        reasons = push_unless (is_not_false beta_matches) commit_beta_mismatch (
            push_unless expected_matches expected_authority_address_mismatch (
              push_unless commit_matches (commit_authority_reason sol commit_authority) (
                push_unless label_matches authority_label_mismatch (
                  push_unless owner_matches authority_owner_mismatch (
                    push_unless not_revoked authority_revoked
                      (push_unless frozen authority_not_frozen base.reasons))))));
        authority_frozen = frozen;
        authority_not_revoked = not_revoked;
        authority_owner_matches = owner_matches;
        authority_label_matches = label_matches;
        commit_authority_matches = commit_matches;
        beta_matches = beta_matches;
      }

  authority_steps :
      (input : VerifyAuthorityCommitEndToEndInput sol) (r : VerifyAuthorityCommitEndToEndResult)
      → verify_authority_commit_end_to_end sol ed input ≡ ok r
      → (base : VerifyEndToEndResult) × (derived : sol.PublicKey) × (verify_end_to_end sol ed
            (base_input input)
          ≡ ok base)
        × (derived_step input ≡ ok derived)
        × (authority_answer input base derived ≡ r)
  unfolding verify_authority_commit_end_to_end
  authority_steps input r e =
      let (base, eb, e2) = >>=-eq-ok (verify_end_to_end sol ed (base_input input)) _ e in
      let (derived, ed', e3) = >>=-eq-ok (derived_step input) _ e2 in (base, derived, eb, ed', cc)

  pub authority_made :
      (input : VerifyAuthorityCommitEndToEndInput sol) {base : VerifyEndToEndResult}
      {derived : sol.PublicKey}
      → verify_end_to_end sol ed (base_input input) ≡ ok base
      → derived_step input ≡ ok derived
      → verify_authority_commit_end_to_end sol ed input ≡ ok (authority_answer input base derived)
  unfolding verify_authority_commit_end_to_end
  authority_made input eb ed' = rw (eb, ed') refl

  authority_answer_reasons :
      (input : VerifyAuthorityCommitEndToEndInput sol) (base : VerifyEndToEndResult)
      (derived : sol.PublicKey)
      → (base.valid ≡ true) ↔ (base.reasons ≡ [])
      → ((authority_answer input base derived).valid ≡ true)
        ↔ ((authority_answer input base derived).reasons ≡ [])
  authority_answer_reasons input base derived base_iff =
      no_reasons base.valid input.authority.frozen (not input.authority.revoked)
        (matches_key sol input.expected_owner input.authority.owner)
        (matches_label input.expected_label input.authority.label)
        (commit_authority_equals sol input.on_chain_commit.authority derived)
        (expected_address_matches sol input.expected_authority_address derived)
        (is_not_false (compare_beta input.on_chain_beta base.beta)) base.reasons
        authority_not_frozen authority_revoked authority_owner_mismatch authority_label_mismatch
        (commit_authority_reason sol input.on_chain_commit.authority)
        expected_authority_address_mismatch commit_beta_mismatch base_iff

  -- Revocation is no mere information for the verifier: for every input on which
  -- verify_authority_commit_end_to_end returns, the same input with a revoked authority has the
  -- result of the base checks and all other flags unchanged, but it is not valid.
  pub revoked_not_valid :
      (input : VerifyAuthorityCommitEndToEndInput sol) (r : VerifyAuthorityCommitEndToEndResult)
      → verify_authority_commit_end_to_end sol ed input ≡ ok r
      → let later = record input { authority = record input.authority { revoked = true } } in
        (r' : VerifyAuthorityCommitEndToEndResult) × (verify_authority_commit_end_to_end sol ed
            later
          ≡ ok r')
        × (r'.base ≡ r.base)
        × (r'.authority_frozen ≡ r.authority_frozen)
        × (r'.authority_owner_matches ≡ r.authority_owner_matches)
        × (r'.authority_label_matches ≡ r.authority_label_matches)
        × (r'.commit_authority_matches ≡ r.commit_authority_matches)
        × (r'.beta_matches ≡ r.beta_matches)
        × (r'.authority_not_revoked ≡ false)
        × (r'.valid ≡ false)
  revoked_not_valid input r e =
      let (base, derived, eb, ed', er) = authority_steps input r e in
      let later = record input { authority = record input.authority { revoked = true } } in
      let answer = authority_answer later base derived in
      (
        answer,
        authority_made later eb ed',
        ap (λ r. r.base) er,
        ap (λ r. r.authority_frozen) er,
        ap (λ r. r.authority_owner_matches) er,
        ap (λ r. r.authority_label_matches) er,
        ap (λ r. r.commit_authority_matches) er,
        ap (λ r. r.beta_matches) er,
        refl,
        revoked_fails base.valid input.authority.frozen
            (matches_key sol input.expected_owner input.authority.owner)
            (matches_label input.expected_label input.authority.label)
            (commit_authority_equals sol input.on_chain_commit.authority derived)
            (expected_address_matches sol input.expected_authority_address derived)
            (is_not_false (compare_beta input.on_chain_beta base.beta)),
      )

module _ (sol : Platform) (is_platform : IsPlatform sol) (ed : Curve) where
  -- The checks on the authority, and on the commit with respect to it; `beta` is that of the proof.
  pub record IsBound (input : VerifyAuthorityCommitEndToEndInput sol) (beta : Option Bytes)
      : Type 0 where
    pub checked : Checked sol ed (base_input sol ed input)
    pub frozen : input.authority.frozen ≡ true
    pub not_revoked : input.authority.revoked ≡ false
    pub owner : (e : sol.PublicKey) → input.expected_owner ≡ some e → input.authority.owner ≡ e
    pub label : (e : Bytes) → input.expected_label ≡ some e → input.authority.label ≡ e
    pub address : sol.PublicKey
    pub derived :
        derive_authority_address sol input.authority.owner input.authority.label
          (program_or_default sol input.program_id)
        ≡ ok address
    pub commit_authority : input.on_chain_commit.authority ≡ some address
    pub expected_address :
        (e : sol.PublicKey) → input.expected_authority_address ≡ some e → e ≡ address
    pub beta_matches : (b : Bytes) → input.on_chain_beta ≡ some b → beta ≡ some b

  -- Over a platform with its documented behaviour: when verify_authority_commit_end_to_end
  -- returns, `valid` says that the base checks hold, the authority is frozen, not revoked and has
  -- the expected owner and label, the commit names the address derived from that owner and label,
  -- an expected address is that one, and a beta on chain is the proof's; and it is true exactly
  -- when no reason is given.
  pub verify_authority_commit_end_to_end_valid :
      (input : VerifyAuthorityCommitEndToEndInput sol) (r : VerifyAuthorityCommitEndToEndResult)
      → verify_authority_commit_end_to_end sol ed input ≡ ok r
      → ((r.valid ≡ true) ↔ IsBound input r.base.beta) × ((r.valid ≡ true) ↔ (r.reasons ≡ []))
  verify_authority_commit_end_to_end_valid input r e =
      let (base, derived, eb, ed', er) = authority_steps sol ed input r e in
      let (base_iff, base_reasons) =
        verify_end_to_end_valid sol ed (base_input sol ed input) base eb in
      let eight =
        and8_iff base.valid input.authority.frozen (not input.authority.revoked)
          (matches_key sol input.expected_owner input.authority.owner)
          (matches_label input.expected_label input.authority.label)
          (commit_authority_equals sol input.on_chain_commit.authority derived)
          (expected_address_matches sol input.expected_authority_address derived)
          (is_not_false (compare_beta input.on_chain_beta base.beta)) in
      let owner_iff = matches_key_iff sol is_platform input.expected_owner input.authority.owner in
      let label_iff = matches_label_iff input.expected_label input.authority.label in
      let commit_iff =
        commit_authority_iff sol is_platform input.on_chain_commit.authority derived in
      let address_iff =
        address_matches_iff sol is_platform input.expected_authority_address derived in
      let beta_iff = beta_matches_iff input.on_chain_beta base.beta in
      subst
        (λ r.
          ((r.valid ≡ true) ↔ IsBound input r.base.beta) × ((r.valid ≡ true) ↔ (r.reasons ≡ [])))
        er
        (
          (
            (λ v.
                let (hb, hf, hr, ho, hl, hc, ha, hx) = eight.0 v in
                record {
                  checked = base_iff.0 hb;
                  frozen = hf;
                  not_revoked = ground arith;
                  owner = owner_iff.0 ho;
                  label = label_iff.0 hl;
                  address = derived;
                  derived = ed';
                  commit_authority = commit_iff.0 hc;
                  expected_address = address_iff.0 ha;
                  beta_matches = beta_iff.0 hx;
                }),
            (λ b.
                let same : b.address ≡ derived = same_address _ _ (sym b.derived ∙ ed') in
                eight.1 (
                  base_iff.1 b.checked,
                  b.frozen,
                  ap not b.not_revoked,
                  owner_iff.1 b.owner,
                  label_iff.1 b.label,
                  commit_iff.1 (b.commit_authority ∙ ap some same),
                  address_iff.1 (λ e is. b.expected_address e is ∙ same),
                  beta_iff.1 b.beta_matches,
                )),
          ),
          authority_answer_reasons sol ed input base derived base_reasons,
        )
    where
      same_address :
          (a b : sol.PublicKey) → Path (Result ClientError sol.PublicKey) (ok a) (ok b) → a ≡ b
      same_address a b e = cc
