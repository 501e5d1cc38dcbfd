-- ===== src/Website/Soundness.antt =====
-- What the verify page shows: runVerify's outcome against the ledger it read.
use cc_vrf.Common.{
  ◌≡◌, subst, refl, sym, ap, ◌∙◌, ℕ, List, ◌∷◌, ◌++◌, Bytes, true, false, Option, none, some,
  length, map, ◌==◌, ==_iff, Result, ok, err, >>=-eq-ok, guard-eq-ok, some_injective, ok_injective,
  All, inl, inr,
}
use cc_vrf.Client.Events.{Connection, ProofCommitEvent, fetch_proof_commit_events}
use cc_vrf.Client.Light.{Rpc}
use cc_vrf.Client.Operations.{
  Program, FetchedAuthority, FetchedCommit, FetchedCommitWithBeta, fetch_authority,
  fetch_proof_commit, fetch_proof_commit_with_beta,
}
use cc_vrf.Client.Platform.{Platform, IsPlatform, string}
use cc_vrf.Client.Verify.{OnChainCommit, verify_authority_commit_end_to_end, pick_canonical_commit}
use cc_vrf.Client.Verify.Authority.{IsBound, verify_authority_commit_end_to_end_valid}
use cc_vrf.Client.Verify.Canonical.{Matches, pick_canonical_commit_cases}
use cc_vrf.Ecvrf.Curve.{Curve}
use cc_vrf.Ecvrf.Encoding.{hex_to_bytes, bytes_to_hex}
use cc_vrf.Website.Steps.{or_absent-eq-ok, called-eq-ok, or_error-eq-ok}
use cc_vrf.Website.Verify.{
  PageMode, Form, PageError, Request, FoundCommit, VerifyOutcome, PageState, or_absent, called,
  or_error, trim, is_given, parse_form, find_commit, check_of, try_verify, show, run_verify,
  registry, registry_beta, event, invalid_owner, label_required, memo_required, proof_not_hex,
  proof_not_80, alpha_required, alpha_not_hex, no_commit, no_commit_with_beta, no_events, no_match,
  authority_not_found,
}

module _ (sol : Platform) (parse_key : List ℕ → Option sol.PublicKey) where
  -- The request holds what the fields of the form say, with a proof of 80 bytes.
  abbrev pub IsParsed : Form → Request sol → Type 0
  IsParsed form request =
      (parse_key (trim form.owner) ≡ some request.owner)
      × (hex_to_bytes (trim form.proof_hex) ≡ ok request.proof)
      × (hex_to_bytes (trim form.alpha_hex) ≡ ok request.alpha)
      × (length request.proof ≡ 80)

  parse_form-IsParsed :
      (form : Form) (request : Request sol)
      → parse_form sol parse_key form ≡ ok request
      → IsParsed form request
  unfolding parse_form
  parse_form-IsParsed form request e =
      let (owner, e0, r0) = >>=-eq-ok (or_absent invalid_owner (parse_key (trim form.owner))) _ e in
      let (e1, r1) = guard-eq-ok (is_given (trim form.label)) label_required _ r0 in
      let (e2, r2) = guard-eq-ok (is_given form.memo) memo_required _ r1 in
      let (proof, e3, r3) =
        >>=-eq-ok (or_error proof_not_hex (hex_to_bytes (trim form.proof_hex))) _ r2 in
      let (e4, r4) = guard-eq-ok (length proof == 80) (proof_not_80 (length proof)) _ r3 in
      let (e5, r5) = guard-eq-ok (is_given (trim form.alpha_hex)) alpha_required _ r4 in
      let (alpha, e6, r6) =
        >>=-eq-ok (or_error alpha_not_hex (hex_to_bytes (trim form.alpha_hex))) _ r5 in
      let made = ok_injective r6 in
      subst (λ q. IsParsed form q) made
        (or_absent-eq-ok _ _ e0, or_error-eq-ok _ _ e3, or_error-eq-ok _ _ e6, (==_iff _ _).0 e4)

  module _ (rpc : Rpc sol) (program : Program sol) (connection : Connection sol) where
    -- Where the commit that is checked was read, and the beta read with it.
    abbrev pub IsFound :
        Form → Request sol → FetchedAuthority sol → PageMode → FoundCommit sol → Type 0
    IsFound form request auth registry found =
        (c : FetchedCommit sol) × (fetch_proof_commit sol rpc program auth.authority_address
            (string form.memo)
          ≡ ok (some c))
        × (found.on_chain_commit ≡ c.on_chain_commit)
        × (found.on_chain_beta ≡ none)
    IsFound form request auth registry_beta found =
        (c : FetchedCommitWithBeta sol) × (fetch_proof_commit_with_beta sol rpc program
            auth.authority_address (string form.memo)
          ≡ ok (some c))
        × (found.on_chain_commit ≡ c.on_chain_commit)
        × (found.on_chain_beta ≡ some c.beta)
    IsFound form request auth event found =
        (events : List (ProofCommitEvent sol)) × (front : List (OnChainCommit sol)) × (back : List
          (OnChainCommit sol))
        × (fetch_proof_commit_events sol program connection request.owner (string form.label)
              (string form.memo) (record { signature = none; limit = none })
            ≡ ok events)
        × (map (λ e. e.on_chain_commit) events ≡ front ++ found.on_chain_commit ∷ back)
        × All (λ c. ¬ Matches sol request.proof c) front
        × (found.candidate_count ≡ some (length events))
        × (found.on_chain_beta ≡ none)

    find_commit-IsFound :
        (form : Form) (request : Request sol) (auth : FetchedAuthority sol) (mode : PageMode)
        (found : FoundCommit sol)
        → find_commit sol parse_key rpc program connection form request auth mode ≡ ok found
        → IsFound form request auth mode found
    unfolding find_commit
    find_commit-IsFound form request auth registry found e =
        let (o, e0, r0) =
          >>=-eq-ok
            (called (fetch_proof_commit sol rpc program auth.authority_address (string form.memo)))
            _ e in
        let (c, e1, r1) = >>=-eq-ok (or_absent no_commit o) _ r0 in
        let read = called-eq-ok _ e0 ∙ ap ok (or_absent-eq-ok _ o e1) in
        subst (λ f. IsFound form request auth registry f) (ok_injective r1) (c, read, refl, refl)
    find_commit-IsFound form request auth registry_beta found e =
        let (o, e0, r0) =
          >>=-eq-ok
            (called (
              fetch_proof_commit_with_beta sol rpc program auth.authority_address
                (string form.memo)))
            _ e in
        let (c, e1, r1) = >>=-eq-ok (or_absent no_commit_with_beta o) _ r0 in
        let read = called-eq-ok _ e0 ∙ ap ok (or_absent-eq-ok _ o e1) in
        subst (λ f. IsFound form request auth registry_beta f) (ok_injective r1)
          (c, read, refl, refl)
    find_commit-IsFound form request auth event found e =
        let (events, e0, r0) =
          >>=-eq-ok
            (called (
              fetch_proof_commit_events sol program connection request.owner (string form.label)
                (string form.memo) (record { signature = none; limit = none })))
            _ e in
        let (e1, r1) = guard-eq-ok _ no_events _ r0 in
        let rows = map (λ e. e.on_chain_commit) events in
        let (c, e2, r2) =
          >>=-eq-ok
            (or_absent (no_match (length events))
              (pick_canonical_commit sol rows request.proof).canonical)
            _ r1 in
        let (front, back, same, all) = first_match rows request.proof c (or_absent-eq-ok _ _ e2) in
        subst (λ f. IsFound form request auth event f) (ok_injective r2)
          (events, front, back, called-eq-ok _ e0, same, all, refl, refl)
      where
        first_match :
            (rows : List (OnChainCommit sol)) (proof : Bytes) (c : OnChainCommit sol)
            → (pick_canonical_commit sol rows proof).canonical ≡ some c
            → (front : List (OnChainCommit sol)) × (back : List (OnChainCommit sol)) × (rows
                ≡ front ++ c ∷ back)
              × All (λ c. ¬ Matches sol proof c) front
        first_match rows proof c is = elim (pick_canonical_commit_cases sol rows proof) [
          | inl (e, m, all) ↦ absurd cc
          | inr (front, d, back, e, all, m, picked, several) ↦
              (front, back, e ∙ ap (λ x. front ++ x ∷ back) (some_injective (sym picked ∙ is)), all)
        ]

    module _ (is_platform : IsPlatform sol) (ed : Curve) where
      -- What a green result of the page stands for.
      abbrev pub IsVerified : Form → VerifyOutcome sol → Type 0
      IsVerified form outcome =
          (request : Request sol) × (auth : FetchedAuthority sol) × (found : FoundCommit sol)
          × IsParsed form request
          × (fetch_authority sol rpc program request.owner (string form.label) ≡ ok (some auth))
          × IsFound form request auth form.mode found
          × IsBound sol is_platform ed
              (check_of sol parse_key rpc program connection form request auth found)
              outcome.result.base.beta
          × (outcome.pk_hex ≡ bytes_to_hex auth.decoded.pk)

      try_verify-IsVerified :
          (form : Form) (outcome : VerifyOutcome sol)
          → try_verify sol parse_key rpc program connection ed form ≡ ok outcome
          → outcome.result.valid ≡ true
          → IsVerified form outcome
      unfolding try_verify
      try_verify-IsVerified form outcome e valid =
          let (request, e0, r0) = >>=-eq-ok (parse_form sol parse_key form) _ e in
          let (fetched, e1, r1) =
            >>=-eq-ok (called (fetch_authority sol rpc program request.owner (string form.label))) _
              r0 in
          let (auth, e2, r2) = >>=-eq-ok (or_absent authority_not_found fetched) _ r1 in
          let (found, e3, r3) =
            >>=-eq-ok (find_commit sol parse_key rpc program connection form request auth form.mode)
              _ r2 in
          let (result, e4, r4) =
            >>=-eq-ok
              (called (
                verify_authority_commit_end_to_end sol ed
                  (check_of sol parse_key rpc program connection form request auth found)))
              _ r3 in
          let made = ok_injective r4 in
          let (bound_iff, reasons_iff) =
            verify_authority_commit_end_to_end_valid sol is_platform ed
              (check_of sol parse_key rpc program connection form request auth found) result
              (called-eq-ok _ e4) in
          let bound = bound_iff.0 (ap (λ o. o.result.valid) made ∙ valid) in
          subst (λ o. IsVerified form o) made
            (
              request,
              auth,
              found,
              parse_form-IsParsed form request e0,
              called-eq-ok _ e1 ∙ ap ok (or_absent-eq-ok _ fetched e2),
              find_commit-IsFound form request auth form.mode found e3,
              bound,
              refl,
            )

      show-outcome :
          (page : PageState sol) (answer : Result PageError (VerifyOutcome sol))
          (outcome : VerifyOutcome sol)
          → (show sol answer page).outcome ≡ some outcome
          → (answer ≡ ok outcome)
            × ((show sol answer page).error ≡ none)
            × ((show sol answer page).loading ≡ false)
      unfolding show
      show-outcome page (ok o) outcome e = (ap ok (some_injective e), refl, refl)
      show-outcome page (err x) outcome e = absurd cc

      -- Over a platform with its documented behaviour: when the page has run its check and shows an
      -- outcome as valid, it loads no more and shows no error. The form parses, with a proof of 80
      -- bytes; the authority of that owner and label was fetched; the commit is the one stored for
      -- the memo or, in event mode, the first of the events found that has the hash of the proof;
      -- all checks of verify_authority_commit_end_to_end hold of it, with the beta that was stored,
      -- if any; and the key shown is the authority's.
      pub run_verify-IsVerified :
          (form : Form) (page : PageState sol) (outcome : VerifyOutcome sol)
          → let after = run_verify sol parse_key rpc program connection ed form page in
            after.outcome ≡ some outcome
            → outcome.result.valid ≡ true
            → let after = run_verify sol parse_key rpc program connection ed form page in
              (after.error ≡ none) × (after.loading ≡ false) × IsVerified form outcome
      unfolding run_verify
      run_verify-IsVerified form page outcome e valid =
          let (answered, no_error, done) =
            show-outcome page (try_verify sol parse_key rpc program connection ed form) outcome e in
          (no_error, done, try_verify-IsVerified form outcome answered valid)
