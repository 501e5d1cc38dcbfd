-- ===== src/Client/Operations/Commit.antt =====
-- A commit instruction that is built stands for a commit that verifies.
use cc_vrf.Common.{
  ◌≡◌, refl, sym, ap, subst, ◌∙◌, Bytes, Bool, true, false, Option, none, some, length, ◌==◌,
  ==_iff, Result, ok, guard, >>=-eq-ok, guard-eq-ok,
}
use cc_vrf.Ecvrf.Curve.{Curve}
use cc_vrf.Ecvrf.Verify.{verify_vrf}
use cc_vrf.Client.Platform.{
  Platform, Text, ClientError, from_ecvrf, from_ecvrf-eq-ok, bad_proof, proof_mismatch,
}
use cc_vrf.Client.Addresses.{
  suite_edwards25519_sha512_tai, derive_authority_address, derive_proof_commit_address, label_bytes,
  memo_hash, proof_hash, alpha_hash,
}
use cc_vrf.Client.Light.{Rpc, CompressedAccount, CommitContext, build_commit_proof_context}
use cc_vrf.Client.Operations.{
  Program, Instruction, CommitProofInput, FetchedAuthority, DecodedAuthority, authority_of_account,
  fetch_authority, assert_authority_can_commit, assert_proof_matches_authority,
  build_commit_proof_ix, commit_proof, authority_row,
}
use cc_vrf.Client.Operations.Guards.{assert_authority_can_commit-eq-ok}

module _ (sol : Platform) (rpc : Rpc sol) (program : Program sol) (ed : Curve) where
  pub proof_matches :
      (auth : FetchedAuthority sol) (input : CommitProofInput sol) {u : Unit {0}}
      → assert_proof_matches_authority sol rpc program ed auth input ≡ ok u
      → verify_vrf ed auth.decoded.pk input.alpha input.proof ≡ ok true
  unfolding assert_proof_matches_authority
  proof_matches auth input e =
      let step = from_ecvrf (verify_vrf ed auth.decoded.pk input.alpha input.proof) in
      let (b, eb, e2) = >>=-eq-ok step (λ matches. guard matches proof_mismatch) e in
      from_ecvrf-eq-ok _ (eb ∙ ap ok (passed b e2))
    where
      passed :
          (b : Bool) {u : Unit {0}}
          → Path (Result ClientError (Unit {0})) (guard b proof_mismatch) (ok u)
          → b ≡ true
      passed true e = refl
      passed false e = cc

  abbrev fetched :
      sol.PublicKey → CompressedAccount sol → DecodedAuthority sol → FetchedAuthority sol
  fetched address account decoded = record {
    authority_address = address;
    account = account;
    decoded = decoded;
    on_chain_authority = authority_row sol address decoded;
  }

  authority_of_account-eq-some :
      (address : sol.PublicKey) (found : Option (CompressedAccount sol))
      {auth : FetchedAuthority sol}
      → authority_of_account sol rpc program address found ≡ ok (some auth)
      → (address ≡ auth.authority_address)
        × (account : CompressedAccount sol) × (found ≡ some auth.account)
        × (program.decode_authority auth.account.account_data ≡ ok auth.decoded)
        × (auth.on_chain_authority ≡ authority_row sol auth.authority_address auth.decoded)
  unfolding authority_of_account
  authority_of_account-eq-some address none e = absurd cc
  authority_of_account-eq-some address (some account) {auth} e =
      let (decoded, e1, r1) = >>=-eq-ok (program.decode_authority account.account_data) _ e in
      let is = made address account decoded r1 in
      (
        ap (λ f. f.authority_address) is,
        account,
        ap (λ f. some f.account) is,
        subst (λ f. program.decode_authority f.account.account_data ≡ ok f.decoded) is e1,
        subst (λ f. f.on_chain_authority ≡ authority_row sol f.authority_address f.decoded) is refl,
      )
    where
      made :
          (address : sol.PublicKey) (account : CompressedAccount sol)
          (decoded : DecodedAuthority sol) {auth : FetchedAuthority sol}
          → Path
              (Result ClientError (Option (FetchedAuthority sol)))
              (ok (some (fetched address account decoded)))
              (ok (some auth))
          → fetched address account decoded ≡ auth
      made address account decoded e = cc

  -- A fetched authority stands at the address of the label and the owner that were asked for.
  pub fetch_authority-eq-some :
      (owner : sol.PublicKey) (label : Text) {auth : FetchedAuthority sol}
      → fetch_authority sol rpc program owner label ≡ ok (some auth)
      → (bytes : Bytes) × (label_bytes sol label ≡ ok bytes)
        × (derive_authority_address sol owner bytes program.program_id ≡ ok auth.authority_address)
        × (rpc.get_compressed_account (sol.to_bytes auth.authority_address)
            ≡ ok (some auth.account))
        × (program.decode_authority auth.account.account_data ≡ ok auth.decoded)
        × (auth.on_chain_authority ≡ authority_row sol auth.authority_address auth.decoded)
  unfolding fetch_authority
  fetch_authority-eq-some owner label {auth} e =
      let (bytes, e1, r1) = >>=-eq-ok (label_bytes sol label) _ e in
      let (address, e2, r2) =
        >>=-eq-ok (derive_authority_address sol owner bytes program.program_id) _ r1 in
      let (found, e3, r3) = >>=-eq-ok (rpc.get_compressed_account (sol.to_bytes address)) _ r2 in
      let (ea, account, ef, decoded, row) = authority_of_account-eq-some address found r3 in
      (
        bytes,
        e1,
        e2 ∙ ap ok ea,
        subst (λ a. rpc.get_compressed_account (sol.to_bytes a) ≡ ok (some auth.account)) ea
            (e3 ∙ ap ok ef),
        decoded,
        row,
      )

  -- When build_commit_proof_ix returns an instruction, the authority was fetched, has the supported
  -- suite, is frozen and not revoked, the proof has 80 bytes and verifies under the authority's key,
  -- and the instruction carries the three hashes for the address derived from authority and memo.
  pub build_commit_proof_ix_lem :
      (input : CommitProofInput sol) {ix : Instruction sol rpc} {address : sol.PublicKey}
      → build_commit_proof_ix sol rpc program ed input ≡ ok (ix, address)
      → (auth : FetchedAuthority sol) × (ctx : CommitContext sol rpc) × (length input.proof ≡ 80)
        × (fetch_authority sol rpc program input.owner input.label ≡ ok (some auth))
        × (auth.decoded.suite ≡ suite_edwards25519_sha512_tai)
        × (auth.decoded.frozen ≡ true)
        × (auth.decoded.revoked ≡ false)
        × (verify_vrf ed auth.decoded.pk input.alpha input.proof ≡ ok true)
        × (derive_proof_commit_address sol auth.authority_address
              (memo_hash sol input.memo)
              program.program_id
            ≡ ok address)
        × (build_commit_proof_context sol rpc program.program_id auth.account address ≡ ok ctx)
        × (ix.method
            ≡ commit_proof ctx.proof ctx.authority_read_only_meta auth.decoded
                ctx.packed_address_tree_info ctx.output_state_tree_index
                (memo_hash sol input.memo)
                (proof_hash sol input.proof)
                (alpha_hash sol input.alpha))
        × (ix.owner ≡ input.owner)
  unfolding build_commit_proof_ix
  build_commit_proof_ix_lem input {ix} {address} e =
      let (len, r1) = guard-eq-ok (length input.proof == 80) bad_proof _ e in
      let (found, e2, r2) =
        >>=-eq-ok (fetch_authority sol rpc program input.owner input.label) _ r1 in
      let (auth, e3, r3) = >>=-eq-ok (assert_authority_can_commit sol found) _ r2 in
      let (u, e4, r4) =
        >>=-eq-ok (assert_proof_matches_authority sol rpc program ed auth input) _ r3 in
      let (a, e5, r5) =
        >>=-eq-ok
          (derive_proof_commit_address sol auth.authority_address (memo_hash sol input.memo)
            program.program_id)
          _ r4 in
      let (ctx, e6, r6) =
        >>=-eq-ok (build_commit_proof_context sol rpc program.program_id auth.account a) _ r5 in
      let (is, suite, frozen, revoked) = assert_authority_can_commit-eq-ok sol found e3 in
      let (same_ix, same) = parts r6 in
      (
        auth,
        ctx,
        (==_iff _ _).0 len,
        e2 ∙ ap ok is,
        suite,
        frozen,
        revoked,
        proof_matches auth input e4,
        e5 ∙ ap ok same,
        subst (λ a. build_commit_proof_context sol rpc program.program_id auth.account a ≡ ok ctx)
            same e6,
        sym (ap (λ i. i.method) same_ix),
        sym (ap (λ i. i.owner) same_ix),
      )
    where
      parts :
          {i ix : Instruction sol rpc} {a address : sol.PublicKey}
          → Path
              (Result ClientError (Instruction sol rpc × sol.PublicKey))
              (ok (i, a))
              (ok (ix, address))
          → (i ≡ ix) × (a ≡ address)
      parts e = (cc, cc)
