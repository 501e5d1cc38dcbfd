-- ===== src/Client/Operations/Agreement.antt =====
-- The two sides of a commit agree: what buildCommitProofIx writes, the verifier accepts.
use cc_vrf.Common.{
  ℕ, ◌≡◌, refl, sym, ap, ◌∙◌, [], Bytes, IsByte, All, true, none, Option, some, Result, ok,
}
use cc_vrf.Ecvrf.Curve.{Curve, IsNoble, IsEdwards}
use cc_vrf.Client.Platform.{Platform, IsPlatform, ClientError}
use cc_vrf.Client.Addresses.{
  derive_authority_address, label_bytes, memo_hash, proof_hash, alpha_hash,
}
use cc_vrf.Client.Verify.{
  OnChainCommit, VerifyAuthorityCommitEndToEndInput, VerifyAuthorityCommitEndToEndResult,
  verify_authority_commit_end_to_end,
}
use cc_vrf.Client.Verify.Checks.{HashesMatch, Checked, verify_end_to_end_accepts}
use cc_vrf.Client.Verify.Authority.{
  base_input, authority_made, authority_answer, verify_authority_commit_end_to_end_valid,
}
use cc_vrf.Client.Light.{Rpc}
use cc_vrf.Client.Operations.{
  Program, Method, init_authority, freeze_authority, revoke_authority, commit_proof,
  commit_proof_event, commit_proof_with_beta, Instruction, CommitProofInput, FetchedAuthority,
  fetch_authority, build_commit_proof_ix, authority_row,
}
use cc_vrf.Client.Operations.Commit.{build_commit_proof_ix_lem, fetch_authority-eq-some}

module _ (sol : Platform) (rpc : Rpc sol) (program : Program sol) (ed : Curve) where
  -- The row that the program stores for a call of `commit_proof` under an authority's address, from
  -- the call's arguments, in the slot where it runs; `none` for the other methods.
  abbrev pub written_row : sol.PublicKey → Method sol → ℕ → Option (OnChainCommit sol)
  written_row authority
        (commit_proof proof meta current info output memo_hash proof_hash alpha_hash) slot =
      some (record {
        authority = some authority;
        memo_hash = memo_hash;
        proof_hash = proof_hash;
        alpha_hash = alpha_hash;
        committed_slot = slot;
      })
  written_row authority (init_authority proof info output pk suite label) slot = none
  written_row authority (freeze_authority proof current meta) slot = none
  written_row authority (revoke_authority proof current meta) slot = none
  written_row authority (commit_proof_event proof meta current label mh ph ah) slot = none
  written_row authority (commit_proof_with_beta proof meta current info output mh ph ah lo hi)
        slot =
      none

  -- The row with the hashes of an input.
  abbrev pub commit_row : FetchedAuthority sol → CommitProofInput sol → ℕ → OnChainCommit sol
  commit_row auth input slot = record {
    authority = some auth.authority_address;
    memo_hash = memo_hash sol input.memo;
    proof_hash = proof_hash sol input.proof;
    alpha_hash = alpha_hash sol input.alpha;
    committed_slot = slot;
  }

  -- What a verifier checks who knows proof, input and memo, and finds a row.
  abbrev pub check_of_row :
      FetchedAuthority sol
      → CommitProofInput sol
      → OnChainCommit sol
      → VerifyAuthorityCommitEndToEndInput sol
  check_of_row auth input row = record {
    alpha = input.alpha;
    proof = input.proof;
    on_chain_commit = row;
    memo = input.memo;
    authority = authority_row sol auth.authority_address auth.decoded;
    expected_owner = some input.owner;
    expected_label = none;
    expected_authority_address = some auth.authority_address;
    program_id = some program.program_id;
    on_chain_beta = none;
  }

  abbrev pub row_check :
      FetchedAuthority sol → CommitProofInput sol → ℕ → VerifyAuthorityCommitEndToEndInput sol
  row_check auth input slot = check_of_row auth input (commit_row auth input slot)

  -- The record at the address of owner and label is a record of that owner and label.
  abbrev pub IsHonest : CommitProofInput sol → Type 0
  IsHonest input =
      (auth : FetchedAuthority sol)
      → fetch_authority sol rpc program input.owner input.label ≡ ok (some auth)
      → (auth.decoded.owner ≡ input.owner) × (label_bytes sol input.label ≡ ok auth.decoded.label)

  row_hashes :
      (auth : FetchedAuthority sol) (input : CommitProofInput sol) (slot : ℕ)
      → HashesMatch sol ed (base_input sol ed (row_check auth input slot))
  unfolding memo_hash proof_hash alpha_hash
  row_hashes auth input slot = (refl, refl, refl)

  -- The row with the input's hashes is one that the verifier accepts.
  pub commit_row-verifies :
      (is_platform : IsPlatform sol) (noble : IsNoble ed) (edwards : IsEdwards ed noble)
      (input : CommitProofInput sol) (slot : ℕ) {ix : Instruction sol rpc} {address : sol.PublicKey}
      → All IsByte input.proof
      → IsHonest input
      → build_commit_proof_ix sol rpc program ed input ≡ ok (ix, address)
      → (auth : FetchedAuthority sol) × (r : VerifyAuthorityCommitEndToEndResult) × (fetch_authority
            sol rpc program input.owner input.label
          ≡ ok (some auth))
        × (verify_authority_commit_end_to_end sol ed (row_check auth input slot) ≡ ok r)
        × (r.valid ≡ true)
        × (r.reasons ≡ [])
  commit_row-verifies is_platform noble edwards input slot bytes honest e =
      let (
        auth, ctx, len, fetched, suite, frozen, revoked, verified, derived, made, method, owner,
      ) =
        build_commit_proof_ix_lem sol rpc program ed input e in
      let (label, el, address_made, found, decoded, row) =
        fetch_authority-eq-some sol rpc program ed input.owner input.label fetched in
      let (owner_is, label_is) = honest auth fetched in
      let check = row_check auth input slot in
      let checked : Checked sol ed (base_input sol ed check) =
        (suite, verified, row_hashes auth input slot) in
      let (base, gamma, eb, base_valid, base_reasons, gamma_is, beta_is) =
        verify_end_to_end_accepts sol ed noble edwards (base_input sol ed check) bytes checked in
      let address_is : derive_authority_address sol auth.decoded.owner auth.decoded.label
            program.program_id
          ≡ ok auth.authority_address =
        rw (owner_is, same_label label auth.decoded.label (sym label_is ∙ el)) address_made in
      let answer_is = authority_made sol ed check eb address_is in
      let r = authority_answer sol ed check base auth.authority_address in
      let (valid_iff, reasons_iff) =
        verify_authority_commit_end_to_end_valid sol is_platform ed check r answer_is in
      let valid = valid_iff.1 (record {
        checked = checked;
        frozen = frozen;
        not_revoked = revoked;
        owner = λ x is. owner_is ∙ injective is;
        label = λ x is. absurd cc;
        address = auth.authority_address;
        derived = address_is;
        commit_authority = refl;
        expected_address = λ x is. sym (injective is);
        beta_matches = λ x is. absurd cc;
      }) in
      (auth, r, fetched, answer_is, valid, reasons_iff.0 valid)
    where
      injective : {a b : sol.PublicKey} → some a ≡ some b → a ≡ b
      injective e = cc

      same_label : (a b : Bytes) → Path (Result ClientError Bytes) (ok b) (ok a) → b ≡ a
      same_label a b e = cc

  -- Over a platform and a curve library with their documented behaviour and the laws of the
  -- curve's group: where the proof is made of bytes and the fetched record is that of the owner
  -- and the label asked for, a commit instruction that build_commit_proof_ix returns is a call of
  -- commit_proof, and the row that its own arguments make, under the fetched authority's address
  -- and in any slot, is one that verify_authority_commit_end_to_end finds valid for the input's
  -- memo, alpha and proof, without a reason against it.
  pub build_commit_proof_ix-verifies :
      (is_platform : IsPlatform sol) (noble : IsNoble ed) (edwards : IsEdwards ed noble)
      (input : CommitProofInput sol) (slot : ℕ) {ix : Instruction sol rpc} {address : sol.PublicKey}
      → All IsByte input.proof
      → IsHonest input
      → build_commit_proof_ix sol rpc program ed input ≡ ok (ix, address)
      → (auth : FetchedAuthority sol) × (row : OnChainCommit sol)
        × (r : VerifyAuthorityCommitEndToEndResult) × (fetch_authority sol rpc program input.owner
              input.label
            ≡ ok (some auth))
        × (written_row auth.authority_address ix.method slot ≡ some row)
        × (verify_authority_commit_end_to_end sol ed (check_of_row auth input row) ≡ ok r)
        × (r.valid ≡ true)
        × (r.reasons ≡ [])
  build_commit_proof_ix-verifies is_platform noble edwards input slot bytes honest e =
      let (auth, r, fetched, checks, valid, reasons) =
        commit_row-verifies is_platform noble edwards input slot bytes honest e in
      let (a, ctx, len, fetched', suite, frozen, revoked, verified, derived, made, method, owner) =
        build_commit_proof_ix_lem sol rpc program ed input e in
      let written = ap (λ m. written_row auth.authority_address m slot) method in
      (auth, commit_row auth input slot, r, fetched, written, checks, valid, reasons)
