-- ===== src/Client/Operations.antt =====
-- packages/vrf-client/src/operations.ts: fetching records and building instructions. `Coder` is the
-- Anchor coder of the program's IDL; an instruction is the method that is called, with its arguments.
mod Records
pub mod Guards
pub mod Commit
pub mod Agreement
pub mod Beta
use cc_vrf.Common.{
  ℕ, List, [], ◌∷◌, ◌++◌, Bytes, Bool, true, false, not, Option, none, some, length, slice, ◌==◌,
  if◌then◌else◌, replicate, Result, ok, err, guard, ◌>>=◌, ◌>>◌,
}
use cc_vrf.Ecvrf.Curve.{Curve}
use cc_vrf.Ecvrf.Encoding.{set_at}
use cc_vrf.Ecvrf.Verify.{verify_vrf, vrf_proof_to_hash}
use cc_vrf.Client.Platform.{
  Platform, Text, raw, ClientError, from_ecvrf, bad_pk, bad_suite, label_not_32, bad_proof,
  bad_beta, authority_not_found, suite_not_supported, not_frozen, is_revoked, proof_mismatch,
  beta_mismatch,
}
use cc_vrf.Client.Addresses.{
  suite_edwards25519_sha512_tai, derive_authority_address, derive_proof_commit_address,
  derive_proof_commit_with_beta_address, label_bytes, memo_hash, proof_hash, alpha_hash,
}
use cc_vrf.Client.Verify.{OnChainAuthority, OnChainCommit}
use cc_vrf.Client.Light.{
  CompressedAccount, Rpc, PackedAddressTreeInfo, ReadOnlyMeta, MutateMeta, build_create_context,
  build_commit_proof_context, build_read_only_authority_context, build_mutate_context,
  remaining_account_metas,
}
unfoldable pub use Records.*

module _ (sol : Platform) where
  unfoldable pub assert_authority_can_commit :
      Option (FetchedAuthority sol) → Result ClientError (FetchedAuthority sol)
  assert_authority_can_commit none = err authority_not_found
  assert_authority_can_commit (some auth) = do
    guard (auth.decoded.suite == suite_edwards25519_sha512_tai) suite_not_supported
    guard auth.decoded.frozen not_frozen
    guard (not auth.decoded.revoked) is_revoked
    ok auth

  -- `if (!auth) throw new Error("authority not found")`
  abbrev pub require_authority :
      Option (FetchedAuthority sol) → Result ClientError (FetchedAuthority sol)
  require_authority none = err authority_not_found
  require_authority (some auth) = ok auth

  module _ (rpc : Rpc sol) where
    pub record Instruction : Type 0 where
      pub method : Method sol
      pub owner : sol.PublicKey
      pub remaining_accounts : List rpc.AccountMeta

    module _ (program : Program sol) where
      -- The rest of `fetchAuthority`, from what the RPC found at the address.
      unfoldable pub authority_of_account :
          sol.PublicKey
          → Option (CompressedAccount sol)
          → Result ClientError (Option (FetchedAuthority sol))
      authority_of_account authority_address none = ok none
      authority_of_account authority_address (some account) = do
        decoded ← program.decode_authority account.account_data
        ok (
            some (record {
              authority_address = authority_address;
              account = account;
              decoded = decoded;
              on_chain_authority = authority_row sol authority_address decoded;
            }))

      unfoldable pub fetch_authority :
          sol.PublicKey → Text → Result ClientError (Option (FetchedAuthority sol))
      fetch_authority owner label = do
        bytes ← label_bytes sol label
        authority_address ← derive_authority_address sol owner bytes program.program_id
        found ← rpc.get_compressed_account (sol.to_bytes authority_address)
        authority_of_account authority_address found

      unfoldable pub fetch_proof_commit :
          sol.PublicKey → Text → Result ClientError (Option (FetchedCommit sol))
      fetch_proof_commit authority memo = do
        commit_address ←
            derive_proof_commit_address sol authority (memo_hash sol memo) program.program_id
        found ← rpc.get_compressed_account (sol.to_bytes commit_address)
        elim found [
          | none ↦ ok none
          | some account ↦ do
            decoded ← program.decode_proof_commit account.account_data
            ok (
                some (record {
                  commit_address = commit_address;
                  account = account;
                  decoded = decoded;
                  on_chain_commit = record {
                    authority = some decoded.authority;
                    memo_hash = decoded.memo_hash;
                    proof_hash = decoded.proof_hash;
                    alpha_hash = decoded.alpha_hash;
                    committed_slot = decoded.committed_slot;
                  };
                }))
        ]

      unfoldable pub fetch_proof_commit_with_beta :
          sol.PublicKey → Text → Result ClientError (Option (FetchedCommitWithBeta sol))
      fetch_proof_commit_with_beta authority memo = do
        commit_address ←
            derive_proof_commit_with_beta_address sol authority (memo_hash sol memo)
              program.program_id
        found ← rpc.get_compressed_account (sol.to_bytes commit_address)
        elim found [
          | none ↦ ok none
          | some account ↦ do
            decoded ← program.decode_proof_commit_with_beta account.account_data
            ok (
                some (record {
                  commit_address = commit_address;
                  account = account;
                  decoded = decoded;
                  on_chain_commit = record {
                    authority = some decoded.authority;
                    memo_hash = decoded.memo_hash;
                    proof_hash = decoded.proof_hash;
                    alpha_hash = decoded.alpha_hash;
                    committed_slot = decoded.committed_slot;
                  };
                  beta = join_beta decoded.beta_lo decoded.beta_hi;
                }))
        ]

      unfoldable pub build_init_authority_ix :
          (InitAuthorityInput sol) → Result ClientError (Instruction × sol.PublicKey)
      build_init_authority_ix input = do
        guard (length input.pk == 32) bad_pk
        guard (input.suite == suite_edwards25519_sha512_tai) bad_suite
        bytes ← label_bytes sol input.label
        guard (length bytes == 32) label_not_32
        authority_address ← derive_authority_address sol input.owner bytes program.program_id
        ctx ← build_create_context sol rpc program.program_id authority_address []
        ok (
          record {
            method =
                init_authority ctx.proof ctx.packed_address_tree_info ctx.output_state_tree_index
                  input.pk input.suite bytes;
            owner = input.owner;
            remaining_accounts = remaining_account_metas sol rpc ctx.packed;
          },
          authority_address,
        )

      unfoldable pub build_freeze_authority_ix :
          (FreezeAuthorityInput sol) → Result ClientError Instruction
      build_freeze_authority_ix input = do
        found ← fetch_authority input.owner input.label
        auth ← require_authority found
        ctx ← build_mutate_context sol rpc program.program_id auth.account
        ok (record {
          method = freeze_authority ctx.proof auth.decoded ctx.account_meta;
          owner = input.owner;
          remaining_accounts = remaining_account_metas sol rpc ctx.packed;
        })

      unfoldable pub build_revoke_authority_ix :
          (FreezeAuthorityInput sol) → Result ClientError Instruction
      build_revoke_authority_ix input = do
        found ← fetch_authority input.owner input.label
        auth ← require_authority found
        ctx ← build_mutate_context sol rpc program.program_id auth.account
        ok (record {
          method = revoke_authority ctx.proof auth.decoded ctx.account_meta;
          owner = input.owner;
          remaining_accounts = remaining_account_metas sol rpc ctx.packed;
        })

      module _ (ed : Curve) where
        unfoldable pub assert_proof_matches_authority :
            (FetchedAuthority sol) → (CommitProofInput sol) → Result ClientError (Unit {0})
        assert_proof_matches_authority auth input = do
          matches ← from_ecvrf (verify_vrf ed auth.decoded.pk input.alpha input.proof)
          guard matches proof_mismatch

        unfoldable pub build_commit_proof_ix :
            (CommitProofInput sol) → Result ClientError (Instruction × sol.PublicKey)
        build_commit_proof_ix input = do
          guard (length input.proof == 80) bad_proof
          found ← fetch_authority input.owner input.label
          auth ← assert_authority_can_commit found
          assert_proof_matches_authority auth input
          let mh = memo_hash sol input.memo
          commit_address ←
              derive_proof_commit_address sol auth.authority_address mh program.program_id
          ctx ← build_commit_proof_context sol rpc program.program_id auth.account commit_address
          ok (
            record {
              method =
                  commit_proof ctx.proof ctx.authority_read_only_meta auth.decoded
                    ctx.packed_address_tree_info ctx.output_state_tree_index mh
                    (proof_hash sol input.proof) (alpha_hash sol input.alpha);
              owner = input.owner;
              remaining_accounts = remaining_account_metas sol rpc ctx.packed;
            },
            commit_address,
          )

        unfoldable pub build_commit_proof_event_ix :
            (CommitProofInput sol) → Result ClientError Instruction
        build_commit_proof_event_ix input = do
          guard (length input.proof == 80) bad_proof
          bytes ← label_bytes sol input.label
          guard (length bytes == 32) label_not_32
          found ← fetch_authority input.owner (raw bytes)
          auth ← assert_authority_can_commit found
          assert_proof_matches_authority auth input
          ctx ← build_read_only_authority_context sol rpc program.program_id auth.account
          ok (record {
            method =
                commit_proof_event ctx.proof ctx.authority_read_only_meta auth.decoded bytes
                  (memo_hash sol input.memo) (proof_hash sol input.proof)
                  (alpha_hash sol input.alpha);
            owner = input.owner;
            remaining_accounts = remaining_account_metas sol rpc ctx.packed;
          })

        unfoldable pub build_commit_proof_with_beta_ix :
            (CommitProofInput sol) → Bytes → Result ClientError (Instruction × sol.PublicKey)
        build_commit_proof_with_beta_ix input beta = do
          guard (length input.proof == 80) bad_proof
          guard (length beta == 64) bad_beta
          found ← fetch_authority input.owner input.label
          auth ← assert_authority_can_commit found
          assert_proof_matches_authority auth input
          hash ← from_ecvrf (vrf_proof_to_hash ed input.proof)
          guard (bytes_equal_early beta hash) beta_mismatch
          let mh = memo_hash sol input.memo
          commit_address ←
              derive_proof_commit_with_beta_address sol auth.authority_address mh program.program_id
          ctx ← build_commit_proof_context sol rpc program.program_id auth.account commit_address
          ok (
            record {
              method =
                  commit_proof_with_beta ctx.proof ctx.authority_read_only_meta auth.decoded
                    ctx.packed_address_tree_info ctx.output_state_tree_index mh
                    (proof_hash sol input.proof) (alpha_hash sol input.alpha) (slice beta 0 32)
                    (slice beta 32 64);
              owner = input.owner;
              remaining_accounts = remaining_account_metas sol rpc ctx.packed;
            },
            commit_address,
          )
