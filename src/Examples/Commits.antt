-- ===== src/Examples/Commits.antt =====
-- The client over a toy platform: one authority, whose commits verify.
use cc_vrf.Common.{
  ℕ, ◌≡◌, ◌↔◌, ◌⊎◌, refl, true, false, none, some, List, [], ◌∷◌, ◌++◌, All, length, ok,
}
use cc_vrf.Ecvrf.Encoding.{bytes_equal}
use cc_vrf.Ecvrf.Verify.{verify_vrf, gamma_bytes}
use cc_vrf.Ecvrf.Verify.Beta.{beta_input}
use cc_vrf.Client.Platform.{raw}
use cc_vrf.Client.Addresses.{derive_proof_commit_address, memo_hash, proof_hash, alpha_hash}
use cc_vrf.Client.Verify.{
  OnChainCommit, VerifyEndToEndInput, VerifyEndToEndResult, VerifyAuthorityCommitEndToEndResult,
  verify_end_to_end, verify_authority_commit_end_to_end, pick_canonical_commit,
}
use cc_vrf.Client.Verify.Checks.{Checked, verify_end_to_end_valid, verify_end_to_end_accepts}
use cc_vrf.Client.Verify.Authority.{
  IsBound, verify_authority_commit_end_to_end_valid, revoked_not_valid,
}
use cc_vrf.Client.Verify.Canonical.{Matches, HasMatch, pick_canonical_commit_cases}
use cc_vrf.Client.Light.{CommitContext, build_commit_proof_context}
use cc_vrf.Client.Operations.{commit_proof, FetchedAuthority, fetch_authority}
use cc_vrf.Client.Operations.Commit.{build_commit_proof_ix_lem}
use cc_vrf.Client.Operations.Agreement.{
  check_of_row, written_row, commit_row, build_commit_proof_ix-verifies,
}
use cc_vrf.Examples.Network.{
  sol, is_platform, label, rpc, program, input, auth, honest, ix, built, check, base_check, checked,
  accepted, bound,
}
use cc_vrf.Examples.Toy.{toy, toy_noble, toy_edwards, toy_point}
use cc_vrf.Examples.Proofs.{proof, proof-IsByte, alpha}

build_commit_proof_ix_lem_example :
    (auth : FetchedAuthority sol) × (ctx : CommitContext sol rpc) × (length proof ≡ 80)
    × (fetch_authority sol rpc program 1 (raw label) ≡ ok (some auth))
    × (auth.decoded.suite ≡ 3)
    × (auth.decoded.frozen ≡ true)
    × (auth.decoded.revoked ≡ false)
    × (verify_vrf toy auth.decoded.pk alpha proof ≡ ok true)
    × (derive_proof_commit_address sol auth.authority_address (memo_hash sol input.memo) 9 ≡ ok 96)
    × (build_commit_proof_context sol rpc 9 auth.account 96 ≡ ok ctx)
    × (ix.method
        ≡ commit_proof ctx.proof ctx.authority_read_only_meta auth.decoded
            ctx.packed_address_tree_info ctx.output_state_tree_index
            (memo_hash sol input.memo)
            (proof_hash sol proof)
            (alpha_hash sol alpha))
    × (ix.owner ≡ 1)
build_commit_proof_ix_lem_example = build_commit_proof_ix_lem sol rpc program toy input built

build_commit_proof_ix-verifies_example :
    (a : FetchedAuthority sol) × (written : OnChainCommit sol)
    × (r : VerifyAuthorityCommitEndToEndResult) × (fetch_authority sol rpc program 1 (raw label)
        ≡ ok (some a))
    × (written_row sol rpc program toy a.authority_address ix.method 77 ≡ some written)
    × (verify_authority_commit_end_to_end sol toy (check_of_row sol rpc program toy a input written)
        ≡ ok r)
    × (r.valid ≡ true)
    × (r.reasons ≡ [])
build_commit_proof_ix-verifies_example =
    build_commit_proof_ix-verifies sol rpc program toy is_platform toy_noble toy_edwards input 77
      proof-IsByte honest built

verify_end_to_end_accepts_example :
    (r : VerifyEndToEndResult) × (gamma : ℕ) × (verify_end_to_end sol toy base_check ≡ ok r)
    × (r.valid ≡ true)
    × (r.reasons ≡ [])
    × (toy_point (gamma_bytes proof) ≡ some gamma)
    × (r.beta ≡ some (toy.sha512 (beta_input toy toy_noble gamma)))
verify_end_to_end_accepts_example =
    verify_end_to_end_accepts sol toy toy_noble toy_edwards base_check proof-IsByte checked

verify_end_to_end_valid_example :
    ((accepted.0.valid ≡ true) ↔ Checked sol toy base_check)
    × ((accepted.0.valid ≡ true) ↔ (accepted.0.reasons ≡ []))
verify_end_to_end_valid_example = verify_end_to_end_valid sol toy base_check accepted.0 accepted.1

abbrev other_suite : VerifyEndToEndInput sol
other_suite = record base_check { suite = some 4 }

verify_authority_commit_end_to_end_valid_example :
    ((bound.0.valid ≡ true) ↔ IsBound sol is_platform toy check bound.0.base.beta)
    × ((bound.0.valid ≡ true) ↔ (bound.0.reasons ≡ []))
verify_authority_commit_end_to_end_valid_example =
    verify_authority_commit_end_to_end_valid sol is_platform toy check bound.0 bound.1

revoked_not_valid_example :
    let later = record check { authority = record check.authority { revoked = true } } in
    (r' : VerifyAuthorityCommitEndToEndResult) × (verify_authority_commit_end_to_end sol toy later
      ≡ ok r')
    × (r'.base ≡ bound.0.base)
    × (r'.authority_frozen ≡ bound.0.authority_frozen)
    × (r'.authority_owner_matches ≡ bound.0.authority_owner_matches)
    × (r'.authority_label_matches ≡ bound.0.authority_label_matches)
    × (r'.commit_authority_matches ≡ bound.0.commit_authority_matches)
    × (r'.beta_matches ≡ bound.0.beta_matches)
    × (r'.authority_not_revoked ≡ false)
    × (r'.valid ≡ false)
revoked_not_valid_example = revoked_not_valid sol toy check bound.0 bound.1

abbrev row : OnChainCommit sol
row = commit_row sol rpc program toy auth input 77

pick_canonical_commit_cases_example :
    let r = pick_canonical_commit sol (row ∷ row ∷ []) proof in
    ((r.canonical ≡ none)
      × (r.multiple_verifying ≡ false)
      × All (λ c. ¬ Matches sol proof c) (row ∷ row ∷ []))
    ⊎ ((front : List (OnChainCommit sol)) × (c : OnChainCommit sol) × (back : List
          (OnChainCommit sol))
        × (row ∷ row ∷ [] ≡ front ++ c ∷ back)
        × All (λ c. ¬ Matches sol proof c) front
        × Matches sol proof c
        × (r.canonical ≡ some c)
        × (((r.multiple_verifying ≡ false) × All (λ c. ¬ Matches sol proof c) back)
            ⊎ ((r.multiple_verifying ≡ true) × HasMatch sol proof back)))
pick_canonical_commit_cases_example = pick_canonical_commit_cases sol (row ∷ row ∷ []) proof

-- One event in two copies counts as two that verify.
duplicate : (pick_canonical_commit sol (row ∷ row ∷ []) proof).multiple_verifying ≡ true
unfolding pick_canonical_commit proof_hash bytes_equal
duplicate = refl

abbrev label_text : List ℕ
label_text = b'g' ∷ b'a' ∷ b'c' ∷ b'h' ∷ b'a' ∷ []
