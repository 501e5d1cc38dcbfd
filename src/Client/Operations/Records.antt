-- ===== src/Client/Operations/Records.antt =====
-- The records of operations.ts, and its helpers on bytes.
use cc_vrf.Common.{
  ℕ, [], ◌∷◌, Bytes, Bool, true, false, some, length, ◌==◌, if◌then◌else◌, replicate, Result,
}
use cc_vrf.Ecvrf.Encoding.{set_at}
use cc_vrf.Client.Platform.{Platform, Text, ClientError}
use cc_vrf.Client.Verify.{OnChainAuthority, OnChainCommit}
use cc_vrf.Client.Light.{CompressedAccount, PackedAddressTreeInfo, ReadOnlyMeta, MutateMeta}

-- `bytesEqual` of this file: it leaves the loop at the first difference.
unfoldable pub same_entries : Bytes → Bytes → Bool
same_entries [] b = true
same_entries (x ∷ a) [] = false
same_entries (x ∷ a) (y ∷ b) = let rest = same_entries a b in if x == y then rest else false

unfoldable pub bytes_equal_early : Bytes → Bytes → Bool
unfolding same_entries
bytes_equal_early a b = if length a == length b then same_entries a b else false

-- `beta.set(lo, 0); beta.set(hi, 32)` on 64 zeros
abbrev pub join_beta : Bytes → Bytes → Bytes
join_beta lo hi = set_at (set_at (replicate 64 0) 0 lo) 32 hi

module _ (sol : Platform) where
  pub record DecodedAuthority : Type 0 where
    pub owner : sol.PublicKey
    pub pk : Bytes
    pub suite : ℕ
    pub frozen : Bool
    pub revoked : Bool
    pub label : Bytes
    pub created_slot : ℕ

  pub record DecodedCommit : Type 0 where
    pub authority : sol.PublicKey
    pub memo_hash : Bytes
    pub proof_hash : Bytes
    pub alpha_hash : Bytes
    pub committed_slot : ℕ

  pub record DecodedCommitWithBeta : Type 0 where
    pub authority : sol.PublicKey
    pub memo_hash : Bytes
    pub proof_hash : Bytes
    pub alpha_hash : Bytes
    pub beta_lo : Bytes
    pub beta_hi : Bytes
    pub committed_slot : ℕ

  -- `program.programId` and `program.coder.types.decode` at the three types
  pub record Program : Type 0 where
    pub program_id : sol.PublicKey
    pub decode_authority : Bytes → Result ClientError DecodedAuthority
    pub decode_proof_commit : Bytes → Result ClientError DecodedCommit
    pub decode_proof_commit_with_beta : Bytes → Result ClientError DecodedCommitWithBeta

  pub data Method : Type 0 where
    init_authority : Bytes → PackedAddressTreeInfo sol → ℕ → Bytes → ℕ → Bytes → Method
    freeze_authority : Bytes → DecodedAuthority → MutateMeta sol → Method
    revoke_authority : Bytes → DecodedAuthority → MutateMeta sol → Method
    commit_proof :
        Bytes
        → ReadOnlyMeta sol
        → DecodedAuthority
        → PackedAddressTreeInfo sol
        → ℕ
        → Bytes
        → Bytes
        → Bytes
        → Method
    commit_proof_event :
        Bytes → ReadOnlyMeta sol → DecodedAuthority → Bytes → Bytes → Bytes → Bytes → Method
    commit_proof_with_beta :
        Bytes
        → ReadOnlyMeta sol
        → DecodedAuthority
        → PackedAddressTreeInfo sol
        → ℕ
        → Bytes
        → Bytes
        → Bytes
        → Bytes
        → Bytes
        → Method

  pub record InitAuthorityInput : Type 0 where
    pub owner : sol.PublicKey
    pub pk : Bytes
    pub suite : ℕ
    pub label : Text

  pub record FreezeAuthorityInput : Type 0 where
    pub owner : sol.PublicKey
    pub label : Text

  pub record CommitProofInput : Type 0 where
    pub owner : sol.PublicKey
    pub label : Text
    pub memo : Text
    pub alpha : Bytes
    pub proof : Bytes

  pub record FetchedAuthority : Type 0 where
    pub authority_address : sol.PublicKey
    pub account : CompressedAccount sol
    pub decoded : DecodedAuthority
    pub on_chain_authority : OnChainAuthority sol

  pub record FetchedCommit : Type 0 where
    pub commit_address : sol.PublicKey
    pub account : CompressedAccount sol
    pub decoded : DecodedCommit
    pub on_chain_commit : OnChainCommit sol

  pub record FetchedCommitWithBeta : Type 0 where
    pub commit_address : sol.PublicKey
    pub account : CompressedAccount sol
    pub decoded : DecodedCommitWithBeta
    pub on_chain_commit : OnChainCommit sol
    pub beta : Bytes

  -- `onChainAuthority` of a decoded record at its address
  abbrev pub authority_row : sol.PublicKey → DecodedAuthority → OnChainAuthority sol
  authority_row authority_address decoded = record {
    authority_address = some authority_address;
    owner = decoded.owner;
    pk = decoded.pk;
    suite = decoded.suite;
    frozen = decoded.frozen;
    revoked = decoded.revoked;
    label = decoded.label;
  }
