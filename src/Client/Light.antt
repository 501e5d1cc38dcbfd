-- ===== src/Client/Light.antt =====
-- packages/vrf-client/src/light.ts. The RPC and the SDK's packed accounts are the interface `Rpc`; the
-- version flag that `forceLightV2` sets is the SDK's own, and what `Rpc` gives is that of version 2.
use cc_vrf.Common.{ℕ, ◌-◌, List, [], ◌∷◌, Bytes, Bool, Option, length, get_elem?, Result, ok, ◌>>=◌}
use cc_vrf.Client.Platform.{Platform, ClientError}

module _ (sol : Platform) where
  -- The fields that the program reads of `CompressedAccountWithMerkleContext`.
  pub record CompressedAccount : Type 0 where
    pub hash : Bytes
    pub tree : sol.PublicKey
    pub queue : sol.PublicKey
    pub leaf_index : ℕ
    pub address : Option Bytes
    pub account_data : Bytes  -- `data!.data`

  -- An element of either list that `getValidityProofV0` takes.
  pub record ProofInput : Type 0 where
    pub hash : Bytes
    pub tree : sol.PublicKey
    pub queue : sol.PublicKey

  pub record ProofAddress : Type 0 where
    pub tree : sol.PublicKey
    pub queue : sol.PublicKey
    pub address : Bytes

  pub record ValidityProof : Type 0 where
    pub compressed_proof : Bytes
    pub root_indices : List ℕ
    pub prove_by_indices : List Bool

  pub record Rpc : Type 1 where
    pub get_compressed_account : Bytes → Result ClientError (Option CompressedAccount)
    pub get_validity_proof_v0 :
        List ProofInput → List ProofAddress → Result ClientError ValidityProof
    pub state_tree_queue : Result ClientError sol.PublicKey  -- selectStateTreeInfo(getStateTreeInfos())
    pub PackedAccounts : Type 0
    pub AccountMeta : Type 0
    pub new_with_system_accounts_v2 : sol.PublicKey → PackedAccounts
    pub insert_or_get : sol.PublicKey → PackedAccounts → ℕ × PackedAccounts
    pub to_account_metas : PackedAccounts → List AccountMeta

  pub record PackedAddressTreeInfo : Type 0 where
    pub root_index : Option ℕ
    pub address_merkle_tree_pubkey_index : ℕ
    pub address_queue_pubkey_index : ℕ

  pub record TreeInfo : Type 0 where
    pub root_index : Option ℕ
    pub prove_by_index : Option Bool
    pub merkle_tree_pubkey_index : ℕ
    pub queue_pubkey_index : ℕ
    pub leaf_index : ℕ

  -- The metadata of an existing account; a read-only one has no output tree.
  pub record ReadOnlyMeta : Type 0 where
    pub tree_info : TreeInfo
    pub address : Option Bytes

  pub record MutateMeta : Type 0 where
    pub tree_info : TreeInfo
    pub address : Option Bytes
    pub output_state_tree_index : ℕ

  -- `indices[indices.length - 1]`, undefined for no index
  abbrev pub last_index : List ℕ → Option ℕ
  last_index indices = get_elem? indices (length indices - 1)

  abbrev pub proof_input : CompressedAccount → ProofInput
  proof_input a = record { hash = a.hash; tree = a.tree; queue = a.queue }

  abbrev pub new_address : sol.PublicKey → ProofAddress
  new_address address = record {
    tree = sol.batch_address_tree;
    queue = sol.batch_address_tree;
    address = sol.to_bytes address;
  }

  module _ (rpc : Rpc) where
    pub record CreateContext : Type 0 where
      pub proof : Bytes
      pub packed_address_tree_info : PackedAddressTreeInfo
      pub output_state_tree_index : ℕ
      pub packed : rpc.PackedAccounts

    pub record CommitContext : Type 0 where
      pub proof : Bytes
      pub authority_read_only_meta : ReadOnlyMeta
      pub packed_address_tree_info : PackedAddressTreeInfo
      pub output_state_tree_index : ℕ
      pub packed : rpc.PackedAccounts

    pub record ReadOnlyContext : Type 0 where
      pub proof : Bytes
      pub authority_read_only_meta : ReadOnlyMeta
      pub packed : rpc.PackedAccounts

    pub record MutateContext : Type 0 where
      pub proof : Bytes
      pub account_meta : MutateMeta
      pub packed : rpc.PackedAccounts

    -- A context keeps the packed accounts; `remaining_account_metas` reads the list that is returned.
    abbrev pub remaining_account_metas : rpc.PackedAccounts → List rpc.AccountMeta
    remaining_account_metas packed = rpc.to_account_metas packed

    unfoldable pub build_create_context :
        sol.PublicKey → sol.PublicKey → List ProofInput → Result ClientError CreateContext
    build_create_context program_id new_compressed_address existing_inputs = do
      proof_res ←
          rpc.get_validity_proof_v0 existing_inputs (new_address new_compressed_address ∷ [])
      state_queue ← rpc.state_tree_queue
      let p0 = rpc.new_with_system_accounts_v2 program_id
      let (address_idx, p1) = rpc.insert_or_get sol.batch_address_tree p0
      let (output_idx, p2) = rpc.insert_or_get state_queue p1
      ok (record {
        proof = proof_res.compressed_proof;
        packed_address_tree_info = record {
          root_index = last_index proof_res.root_indices;
          address_merkle_tree_pubkey_index = address_idx;
          address_queue_pubkey_index = address_idx;
        };
        output_state_tree_index = output_idx;
        packed = p2;
      })

    -- `treeInfo` of an account from its two indices
    abbrev pub tree_info : ValidityProof → ℕ → ℕ → CompressedAccount → TreeInfo
    tree_info proof_res tree_idx queue_idx existing = record {
      root_index = get_elem? proof_res.root_indices 0;
      prove_by_index = get_elem? proof_res.prove_by_indices 0;
      merkle_tree_pubkey_index = tree_idx;
      queue_pubkey_index = queue_idx;
      leaf_index = existing.leaf_index;
    }

    unfoldable pub build_commit_proof_context :
        sol.PublicKey → CompressedAccount → sol.PublicKey → Result ClientError CommitContext
    build_commit_proof_context program_id authority_existing new_commit_address = do
      proof_res ←
          rpc.get_validity_proof_v0 (proof_input authority_existing ∷ [])
            (new_address new_commit_address ∷ [])
      state_queue ← rpc.state_tree_queue
      let p0 = rpc.new_with_system_accounts_v2 program_id
      let (tree_idx, p1) = rpc.insert_or_get authority_existing.tree p0
      let (queue_idx, p2) = rpc.insert_or_get authority_existing.queue p1
      let (address_idx, p3) = rpc.insert_or_get sol.batch_address_tree p2
      let (output_idx, p4) = rpc.insert_or_get state_queue p3
      ok (record {
        proof = proof_res.compressed_proof;
        authority_read_only_meta = record {
          tree_info = tree_info proof_res tree_idx queue_idx authority_existing;
          address = authority_existing.address;
        };
        packed_address_tree_info = record {
          root_index = last_index proof_res.root_indices;
          address_merkle_tree_pubkey_index = address_idx;
          address_queue_pubkey_index = address_idx;
        };
        output_state_tree_index = output_idx;
        packed = p4;
      })

    unfoldable pub build_read_only_authority_context :
        sol.PublicKey → CompressedAccount → Result ClientError ReadOnlyContext
    build_read_only_authority_context program_id authority_existing = do
      proof_res ← rpc.get_validity_proof_v0 (proof_input authority_existing ∷ []) []
      let p0 = rpc.new_with_system_accounts_v2 program_id
      let (tree_idx, p1) = rpc.insert_or_get authority_existing.tree p0
      let (queue_idx, p2) = rpc.insert_or_get authority_existing.queue p1
      ok (record {
        proof = proof_res.compressed_proof;
        authority_read_only_meta = record {
          tree_info = tree_info proof_res tree_idx queue_idx authority_existing;
          address = authority_existing.address;
        };
        packed = p2;
      })

    unfoldable pub build_mutate_context :
        sol.PublicKey → CompressedAccount → Result ClientError MutateContext
    build_mutate_context program_id existing = do
      proof_res ← rpc.get_validity_proof_v0 (proof_input existing ∷ []) []
      state_queue ← rpc.state_tree_queue
      let p0 = rpc.new_with_system_accounts_v2 program_id
      let (tree_idx, p1) = rpc.insert_or_get existing.tree p0
      let (queue_idx, p2) = rpc.insert_or_get existing.queue p1
      let (output_idx, p3) = rpc.insert_or_get state_queue p2
      ok (record {
        proof = proof_res.compressed_proof;
        account_meta = record {
          tree_info = tree_info proof_res tree_idx queue_idx existing;
          address = existing.address;
          output_state_tree_index = output_idx;
        };
        packed = p3;
      })
