-- ===== src/Program/Delivery.antt =====
-- The client's instructions at the on-chain program: both sides derive the same address, and what
-- the program stores is what the client's verifier accepts.
use cc_vrf.Common.{
  ℕ, ◌≡◌, ◌<◌, refl, sym, ap, subst, ◌∙◌, List, [], ◌∷◌, Bytes, IsByte, All, true, none, some,
  length, ◌==◌, ok, guard-eq-ok, some_injective, ok_injective, arith,
}
use cc_vrf.Ecvrf.Curve.{Curve, IsNoble, IsEdwards}
use cc_vrf.Client.Platform.{Platform, IsPlatform}
use cc_vrf.Client.Addresses.{
  proof_commit_seed, derive_proof_commit_address, memo_hash, proof_hash, alpha_hash,
}
use cc_vrf.Client.Light.{Rpc}
use cc_vrf.Client.Operations.{
  Program, Method, Instruction, CommitProofInput, FetchedAuthority, DecodedCommit, fetch_authority,
  build_commit_proof_ix,
}
use cc_vrf.Client.Operations
use cc_vrf.Client.Operations.Agreement.{row_check, IsHonest, commit_row-verifies}
use cc_vrf.Client.Operations.Commit.{build_commit_proof_ix_lem}
use cc_vrf.Client.Verify.{VerifyAuthorityCommitEndToEndResult, verify_authority_commit_end_to_end}
use cc_vrf.Program.{
  Call, Chain, Context, dispatch, init_authority, freeze_authority, revoke_authority, commit_proof,
  commit_proof_event, commit_proof_with_beta, commit_proof_handler, commit_proof_row,
  commit_address,
}
use cc_vrf.Program.Light.{LightSdk, IsLight, vrf_proof_commit}
use cc_vrf.Program.Registry.{Reach, Writes-self}
use cc_vrf.Program.Registry.Permanence.{Reach-commit}
use cc_vrf.Program.Transition.{row_at, commit_place}
use cc_vrf.Program.Transition.Handlers.{commit_row_handler-eq-ok}

-- Documented behaviour of TextEncoder: an ASCII string is its code units.
abbrev pub IsAscii : Platform → Type 0
IsAscii sol = (s : List ℕ) → All (λ n. n < 128) s → sol.utf8 s ≡ s

module _ (sol : Platform) where
  -- The call that the program reads from a method; `address` is the key in the metadata.
  abbrev pub receive : sol.PublicKey → Method sol → Call sol
  receive address (Operations.init_authority proof info output pk suite label) =
      init_authority proof info output pk suite label
  receive address (Operations.freeze_authority proof current meta) =
      freeze_authority proof current address
  receive address (Operations.revoke_authority proof current meta) =
      revoke_authority proof current address
  receive address (Operations.commit_proof proof meta current info output mh ph ah) =
      commit_proof proof address current info output mh ph ah
  receive address (Operations.commit_proof_event proof meta current label mh ph ah) =
      commit_proof_event proof address current label mh ph ah
  receive address
        (Operations.commit_proof_with_beta proof meta current info output mh ph ah lo hi) =
      commit_proof_with_beta proof address current info output mh ph ah lo hi

  abbrev pub stored_commit : FetchedAuthority sol → CommitProofInput sol → ℕ → DecodedCommit sol
  stored_commit auth input slot = record {
    authority = auth.authority_address;
    memo_hash = memo_hash sol input.memo;
    proof_hash = proof_hash sol input.proof;
    alpha_hash = alpha_hash sol input.alpha;
    committed_slot = slot;
  }

  module _ (sdk : LightSdk sol) (is_platform : IsPlatform sol) (is_light : IsLight sol sdk) where
    -- Over a platform and a Light SDK with their documented behaviour: the address that the client
    -- derives for an authority and a memo's hash is the one at which the program stores the commit.
    pub derive_proof_commit_address-commit_place :
        (ascii : IsAscii sol) (authority : sol.PublicKey) (mh : Bytes) {address : sol.PublicKey}
        → derive_proof_commit_address sol authority mh sol.cc_vrf_program_id ≡ ok address
        → address ≡ commit_place sol sdk authority mh
    unfolding derive_proof_commit_address commit_address
    derive_proof_commit_address-commit_place ascii authority mh {address} e =
        let (len, made) = guard-eq-ok (length mh == 32) _ _ e in
        let text : sol.utf8 proof_commit_seed ≡ proof_commit_seed =
          ascii proof_commit_seed (ground arith) in
        sym (ok_injective made)
        ∙ ap
            (λ s.
              sol.derive_address_v2
                (sol.derive_address_seed_v2 (s ∷ sol.to_bytes authority ∷ mh ∷ []))
                sol.batch_address_tree sol.cc_vrf_program_id)
            text
        ∙ sym (
            is_light.derive_address_v2 _ _ _
            ∙ ap
                (λ t.
                  sol.derive_address_v2
                    (sol.derive_address_seed_v2
                      (proof_commit_seed ∷ sol.to_bytes authority ∷ mh ∷ []))
                    t sol.cc_vrf_program_id)
                is_light.same_tree)

    module _ (rpc : Rpc sol) (program : Program sol) (ed : Curve) where
      -- Over a platform, a Light SDK and a curve library with their documented behaviour and the laws
      -- of the curve's group: where the client is configured with the program's own id, the proof is
      -- made of bytes, and the fetched record is that of the owner and the label asked for, a commit
      -- instruction that the client builds and the program accepts under the fetched authority's
      -- address stores the client's hashes at the address that the client returned, which was unused;
      -- the row stays there whatever follows, and verify_authority_commit_end_to_end finds it valid.
      pub commit_proof-verifies :
          (ascii : IsAscii sol) (noble : IsNoble ed) (edwards : IsEdwards ed noble)
          (input : CommitProofInput sol) (auth : FetchedAuthority sol) (c c' d : Chain sol sdk)
          (ctx : Context sol sdk) {ix : Instruction sol rpc} {address : sol.PublicKey}
          → program.program_id ≡ sol.cc_vrf_program_id
          → All IsByte input.proof
          → IsHonest sol rpc program ed input
          → fetch_authority sol rpc program input.owner input.label ≡ ok (some auth)
          → build_commit_proof_ix sol rpc program ed input ≡ ok (ix, address)
          → dispatch sol sdk c ctx (receive auth.authority_address ix.method) ≡ ok c'
          → Reach sol sdk c' d
          → (slot : ℕ) × (r : VerifyAuthorityCommitEndToEndResult) × (row_at sol sdk c address
              ≡ none)
            × (row_at sol sdk d address ≡ some (vrf_proof_commit (stored_commit auth input slot)))
            × (verify_authority_commit_end_to_end sol ed
                  (row_check sol rpc program ed auth input slot)
                ≡ ok r)
            × (r.valid ≡ true)
            × (r.reasons ≡ [])
      unfolding dispatch commit_proof_handler commit_proof_row
      commit_proof-verifies ascii noble edwards input auth c c' d ctx {ix} {address} own bytes
            honest fetched e accepted reach =
          let (
            auth', cc_ctx, len, fetched', suite, frozen, revoked, verified, derived, made, method,
            owner,
          ) =
            build_commit_proof_ix_lem sol rpc program ed input e in
          let same_auth : auth' ≡ auth = some_injective (ok_injective (sym fetched' ∙ fetched)) in
          let mh = memo_hash sol input.memo in
          let ran =
            subst (λ m. dispatch sol sdk c ctx (receive auth.authority_address m) ≡ ok c') method
              accepted in
          let (can, stored, free, slot, clock, writes, events) =
            commit_row_handler-eq-ok sol sdk is_platform is_light c ctx cc_ctx.proof
              auth.authority_address auth'.decoded cc_ctx.packed_address_tree_info mh _ ran in
          let place : address ≡ commit_place sol sdk auth.authority_address mh =
            derive_proof_commit_address-commit_place ascii auth.authority_address mh (
              subst (λ k. derive_proof_commit_address sol k mh sol.cc_vrf_program_id ≡ ok address)
                (ap (λ a. a.authority_address) same_auth)
                (subst
                  (λ p. derive_proof_commit_address sol auth'.authority_address mh p ≡ ok address)
                  own derived)) in
          let (auth'', r, fetched'', checks, valid, reasons) =
            commit_row-verifies sol rpc program ed is_platform noble edwards input slot bytes honest
              e in
          let same_auth' : auth'' ≡ auth =
            some_injective (ok_injective (sym fetched'' ∙ fetched)) in
          let kept =
            Reach-commit sol sdk is_platform is_light
              (commit_place sol sdk auth.authority_address mh)
              (vrf_proof_commit (stored_commit auth input slot)) refl
              (Writes-self sol sdk is_platform c c' _ _ writes) reach in
          (
            slot,
            r,
            subst (λ k. row_at sol sdk c k ≡ none) (sym place) free,
            subst
                (λ k. row_at sol sdk d k ≡ some (vrf_proof_commit (stored_commit auth input slot)))
                (sym place) kept,
            subst
                (λ a.
                  verify_authority_commit_end_to_end sol ed
                    (row_check sol rpc program ed a input slot)
                  ≡ ok r)
                same_auth' checks,
            valid,
            reasons,
          )
