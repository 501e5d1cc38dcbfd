-- ===== src/Program.antt =====
-- programs/cc-vrf/src: the on-chain program. lib.rs dispatches a call to a handler of instructions/;
-- a handler that returns an error leaves the chain as it was. A [u8; 32] that names an address is a
-- key, and `require!` is `guard`.
pub mod Light
pub mod Transition
pub mod Registry
pub mod Delivery
use cc_vrf.Common.{
  ℕ, List, [], ◌∷◌, ◌++◌, Bytes, Bool, true, false, not, Option, none, some, ◌==◌, Result, ok, err,
  guard, ◌>>=◌, ◌>>◌,
}
use cc_vrf.Ecvrf.Encoding.{bytes_equal}
use cc_vrf.Client.Platform.{Platform}
use cc_vrf.Client.Addresses.{authority_seed, proof_commit_seed}
use cc_vrf.Client.Light.{PackedAddressTreeInfo}
use cc_vrf.Client.Operations.{DecodedAuthority}
use Light.{
  VrfError, LightSdk, LightAccount, Row, vrf_authority, vrf_proof_commit,
  vrf_proof_commit_with_beta, created, replaced, read_only, already_frozen, authority_not_frozen,
  authority_revoked, not_owner, authority_label_mismatch, authority_address_mismatch,
  unsupported_suite, invalid_account_data,
}

-- SUITE_EDWARDS25519_SHA512_TAI of state.rs
abbrev pub supported_suite : ℕ
supported_suite = 0x03

-- `.map_err(|_| ProgramError::InvalidAccountData)?`
abbrev pub or_invalid {ℓ} : {A : Type ℓ} → Option A → Result VrfError A
or_invalid none = err invalid_account_data
or_invalid (some a) = ok a

module _ (sol : Platform) where
  pub data Call : Type 0 where
    init_authority : Bytes → PackedAddressTreeInfo sol → ℕ → Bytes → ℕ → Bytes → Call
    freeze_authority : Bytes → DecodedAuthority sol → sol.PublicKey → Call
    revoke_authority : Bytes → DecodedAuthority sol → sol.PublicKey → Call
    commit_proof :
        Bytes
        → sol.PublicKey
        → DecodedAuthority sol
        → PackedAddressTreeInfo sol
        → ℕ
        → Bytes
        → Bytes
        → Bytes
        → Call
    commit_proof_event :
        Bytes → sol.PublicKey → DecodedAuthority sol → Bytes → Bytes → Bytes → Bytes → Call
    commit_proof_with_beta :
        Bytes
        → sol.PublicKey
        → DecodedAuthority sol
        → PackedAddressTreeInfo sol
        → ℕ
        → Bytes
        → Bytes
        → Bytes
        → Bytes
        → Bytes
        → Call

  pub record VrfProofCommitted : Type 0 where
    pub owner : sol.PublicKey
    pub label : Bytes
    pub memo_hash : Bytes
    pub proof_hash : Bytes
    pub alpha_hash : Bytes
    pub committed_slot : ℕ

  -- `authority.frozen = true` and `authority.revoked = true` on a handle
  abbrev pub update_authority :
      (DecodedAuthority sol → DecodedAuthority sol) → LightAccount sol → LightAccount sol
  update_authority f (replaced a old (vrf_authority r)) = replaced a old (vrf_authority (f r))
  update_authority f handle = handle

  abbrev pub set_frozen : DecodedAuthority sol → DecodedAuthority sol
  set_frozen r = record r { frozen = true }

  abbrev pub set_revoked : DecodedAuthority sol → DecodedAuthority sol
  set_revoked r = record r { revoked = true }

  module _ (sdk : LightSdk sol) where
    -- The rows of the state tree, and what has been logged, oldest first.
    pub record Chain : Type 0 where
      pub tree : sdk.Tree
      pub events : List VrfProofCommitted

    -- The signer, the accounts that come with the call, and `Clock::get()`.
    pub record Context : Type 0 where
      pub owner : sol.PublicKey
      pub remaining_accounts : sdk.Accounts
      pub clock : Result VrfError ℕ

    unfoldable pub authority_address : sol.PublicKey → Bytes → sol.PublicKey × Bytes
    authority_address owner label =
        sdk.derive_address (authority_seed ∷ sol.to_bytes owner ∷ label ∷ []) sdk.address_tree_v2
          sol.cc_vrf_program_id

    unfoldable pub commit_address : sol.PublicKey → Bytes → sol.PublicKey → sol.PublicKey × Bytes
    commit_address authority memo_hash tree =
        sdk.derive_address (proof_commit_seed ∷ sol.to_bytes authority ∷ memo_hash ∷ []) tree
          sol.cc_vrf_program_id

    -- The address tree of the call, which is to be the one of version 2.
    unfoldable pub check_address_tree :
        Context → PackedAddressTreeInfo sol → Result VrfError sol.PublicKey
    check_address_tree ctx address_tree_info = do
      tree ← or_invalid (sdk.get_tree_pubkey address_tree_info ctx.remaining_accounts)
      guard (sol.equals tree sdk.address_tree_v2) invalid_account_data
      ok tree

    -- `LightSystemProgramCpi::new_cpi(..).with_..(..).invoke(cpi_accounts)?` and `Ok(())`.
    unfoldable pub submit :
        Chain
        → Context
        → Bytes
        → List (LightAccount sol)
        → List sdk.NewAddress
        → Result VrfError Chain
    submit c ctx proof handles fresh = do
      t ← sdk.invoke c.tree proof handles fresh ctx.remaining_accounts
      ok (record c { tree = t })

    unfoldable pub init_authority_handler :
        Chain
        → Context
        → Bytes
        → PackedAddressTreeInfo sol
        → ℕ
        → Bytes
        → ℕ
        → Bytes
        → Result VrfError Chain
    init_authority_handler c ctx proof address_tree_info output_state_tree_index pk suite label = do
      guard (suite == supported_suite) unsupported_suite
      tree ← check_address_tree ctx address_tree_info
      let (address, seed) =
          sdk.derive_address (authority_seed ∷ sol.to_bytes ctx.owner ∷ label ∷ []) tree
            sol.cc_vrf_program_id
      slot ← ctx.clock
      let row = vrf_authority (record {
        owner = ctx.owner;
        pk = pk;
        suite = suite;
        frozen = false;
        revoked = false;
        label = label;
        created_slot = slot;
      })
      submit c ctx proof (created address row ∷ [])
          (sdk.new_address_params_assigned address_tree_info seed 0 ∷ [])

    unfoldable pub freeze_authority_handler :
        Chain → Context → Bytes → DecodedAuthority sol → sol.PublicKey → Result VrfError Chain
    freeze_authority_handler c ctx proof current_authority address = do
      guard (sol.equals current_authority.owner ctx.owner) not_owner
      guard (not current_authority.frozen) already_frozen
      handle ← sdk.new_mut address current_authority
      submit c ctx proof (update_authority set_frozen handle ∷ []) []

    unfoldable pub revoke_authority_handler :
        Chain → Context → Bytes → DecodedAuthority sol → sol.PublicKey → Result VrfError Chain
    revoke_authority_handler c ctx proof current_authority address = do
      guard (sol.equals current_authority.owner ctx.owner) not_owner
      handle ← sdk.new_mut address current_authority
      submit c ctx proof (update_authority set_revoked handle ∷ []) []

    -- The first three tests of the two handlers that create a row.
    unfoldable pub require_committer : Context → DecodedAuthority sol → Result VrfError (Unit {0})
    require_committer ctx current_authority = do
      guard (sol.equals current_authority.owner ctx.owner) not_owner
      guard current_authority.frozen authority_not_frozen
      guard (not current_authority.revoked) authority_revoked

    -- What those two do with the row, from the address tree on.
    unfoldable pub commit_row_handler :
        Chain
        → Context
        → Bytes
        → sol.PublicKey
        → DecodedAuthority sol
        → PackedAddressTreeInfo sol
        → Bytes
        → (ℕ → Row sol)
        → Result VrfError Chain
    commit_row_handler c ctx proof authority current_authority address_tree_info memo_hash row = do
      require_committer ctx current_authority
      tree ← check_address_tree ctx address_tree_info
      let (address, seed) = commit_address authority memo_hash tree
      keys ← or_invalid (sdk.tree_pubkeys ctx.remaining_accounts)
      auth_readonly ← sdk.new_read_only authority current_authority keys
      slot ← ctx.clock
      submit c ctx proof (auth_readonly ∷ created address (row slot) ∷ [])
          (sdk.new_address_params_assigned address_tree_info seed 0 ∷ [])

    unfoldable pub commit_proof_row : sol.PublicKey → Bytes → Bytes → Bytes → ℕ → Row sol
    commit_proof_row authority memo_hash proof_hash alpha_hash slot = vrf_proof_commit (record {
      authority = authority;
      memo_hash = memo_hash;
      proof_hash = proof_hash;
      alpha_hash = alpha_hash;
      committed_slot = slot;
    })

    unfoldable pub commit_proof_with_beta_row :
        sol.PublicKey → Bytes → Bytes → Bytes → Bytes → Bytes → ℕ → Row sol
    commit_proof_with_beta_row authority memo_hash proof_hash alpha_hash beta_lo beta_hi slot =
        vrf_proof_commit_with_beta (record {
          authority = authority;
          memo_hash = memo_hash;
          proof_hash = proof_hash;
          alpha_hash = alpha_hash;
          beta_lo = beta_lo;
          beta_hi = beta_hi;
          committed_slot = slot;
        })

    unfoldable pub commit_proof_handler :
        Chain
        → Context
        → Bytes
        → sol.PublicKey
        → DecodedAuthority sol
        → PackedAddressTreeInfo sol
        → Bytes
        → Bytes
        → Bytes
        → Result VrfError Chain
    commit_proof_handler c ctx proof authority current info mh ph ah =
        commit_row_handler c ctx proof authority current info mh
          (commit_proof_row authority mh ph ah)

    unfoldable pub commit_proof_with_beta_handler :
        Chain
        → Context
        → Bytes
        → sol.PublicKey
        → DecodedAuthority sol
        → PackedAddressTreeInfo sol
        → Bytes
        → Bytes
        → Bytes
        → Bytes
        → Bytes
        → Result VrfError Chain
    commit_proof_with_beta_handler c ctx proof authority current info mh ph ah lo hi =
        commit_row_handler c ctx proof authority current info mh
          (commit_proof_with_beta_row authority mh ph ah lo hi)

    abbrev pub committed_event : Context → Bytes → Bytes → Bytes → Bytes → ℕ → VrfProofCommitted
    committed_event ctx label mh ph ah slot = record {
      owner = ctx.owner;
      label = label;
      memo_hash = mh;
      proof_hash = ph;
      alpha_hash = ah;
      committed_slot = slot;
    }

    -- `emit!(VrfProofCommitted { .. })`
    unfoldable pub emit_event :
        Context → Bytes → Bytes → Bytes → Bytes → Chain → Result VrfError Chain
    emit_event ctx label mh ph ah called = do
      slot ← ctx.clock
      ok (record called { events = called.events ++ committed_event ctx label mh ph ah slot ∷ [] })

    unfoldable pub commit_proof_event_handler :
        Chain
        → Context
        → Bytes
        → sol.PublicKey
        → DecodedAuthority sol
        → Bytes
        → Bytes
        → Bytes
        → Bytes
        → Result VrfError Chain
    commit_proof_event_handler c ctx proof authority current_authority label mh ph ah = do
      guard (sol.equals current_authority.owner ctx.owner) not_owner
      guard (bytes_equal current_authority.label label) authority_label_mismatch
      guard current_authority.frozen authority_not_frozen
      guard (not current_authority.revoked) authority_revoked
      guard (sol.equals authority (authority_address ctx.owner label).0) authority_address_mismatch
      keys ← or_invalid (sdk.tree_pubkeys ctx.remaining_accounts)
      auth_readonly ← sdk.new_read_only authority current_authority keys
      called ← submit c ctx proof (auth_readonly ∷ []) []
      emit_event ctx label mh ph ah called

    unfoldable pub dispatch : Chain → Context → Call → Result VrfError Chain
    dispatch c ctx (init_authority proof info output pk suite label) =
        init_authority_handler c ctx proof info output pk suite label
    dispatch c ctx (freeze_authority proof current address) =
        freeze_authority_handler c ctx proof current address
    dispatch c ctx (revoke_authority proof current address) =
        revoke_authority_handler c ctx proof current address
    dispatch c ctx (commit_proof proof authority current info output mh ph ah) =
        commit_proof_handler c ctx proof authority current info mh ph ah
    dispatch c ctx (commit_proof_event proof authority current label mh ph ah) =
        commit_proof_event_handler c ctx proof authority current label mh ph ah
    dispatch c ctx (commit_proof_with_beta proof authority current info output mh ph ah lo hi) =
        commit_proof_with_beta_handler c ctx proof authority current info mh ph ah lo hi
