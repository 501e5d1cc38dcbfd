-- ===== src/Program/Light.antt =====
-- What programs/cc-vrf takes from light_sdk and anchor_lang: the state tree that the Light system
-- program keeps, the calls of the SDK on it, and the errors of errors.rs with those passed on.
use cc_vrf.Common.{ℕ, ◌≡◌, List, [], ◌∷◌, Bytes, All, Option, none, some, Result, ok, if◌then◌else◌}
use cc_vrf.Client.Platform.{Platform}
use cc_vrf.Client.Light.{PackedAddressTreeInfo}
use cc_vrf.Client.Operations.{DecodedAuthority, DecodedCommit, DecodedCommitWithBeta}

-- `light` stands for an error that the SDK or the system program returns.
pub data VrfError : Type 0 where
  authority_frozen already_frozen authority_not_frozen authority_revoked not_owner : VrfError
  authority_label_mismatch authority_address_mismatch label_too_long : VrfError
  unsupported_suite invalid_public_key_length : VrfError
  invalid_account_data : VrfError
  light : ℕ → VrfError

module _ (sol : Platform) where
  -- The structs of state.rs, which have the fields of the records that the client's coder decodes.
  pub data Row : Type 0 where
    vrf_authority : DecodedAuthority sol → Row
    vrf_proof_commit : DecodedCommit sol → Row
    vrf_proof_commit_with_beta : DecodedCommitWithBeta sol → Row

  -- A handle of the SDK: a row to be created, one to be replaced and one that is only read.
  pub data LightAccount : Type 0 where
    created : sol.PublicKey → Row → LightAccount
    replaced : sol.PublicKey → Row → Row → LightAccount
    read_only : sol.PublicKey → Row → LightAccount

  pub record LightSdk : Type 1 where
    pub Tree : Type 0
    pub Accounts : Type 0  -- ctx.remaining_accounts
    pub NewAddress : Type 0
    pub lookup : Tree → sol.PublicKey → Option Row
    pub address_tree_v2 : sol.PublicKey
    pub derive_address : List Bytes → sol.PublicKey → sol.PublicKey → sol.PublicKey × Bytes
    pub get_tree_pubkey : PackedAddressTreeInfo sol → Accounts → Option sol.PublicKey
    pub tree_pubkeys : Accounts → Option (List sol.PublicKey)
    pub new_address_params_assigned : PackedAddressTreeInfo sol → Bytes → ℕ → NewAddress
    pub new_mut : sol.PublicKey → DecodedAuthority sol → Result VrfError LightAccount
    pub new_read_only :
        sol.PublicKey → DecodedAuthority sol → List sol.PublicKey → Result VrfError LightAccount
    pub invoke :
        Tree → Bytes → List LightAccount → List NewAddress → Accounts → Result VrfError Tree

  -- What the system program demands of a handle before it changes the tree.
  abbrev pub IsAccepted : (sol.PublicKey → Option Row) → LightAccount → Type 0
  IsAccepted rows (created a row) = rows a ≡ none
  IsAccepted rows (replaced a old row) = rows a ≡ some old
  IsAccepted rows (read_only a row) = rows a ≡ some row

  abbrev pub write_account :
      LightAccount → (sol.PublicKey → Option Row) → sol.PublicKey → Option Row
  write_account (created a row) rows b = if sol.equals a b then some row else rows b
  write_account (replaced a old row) rows b = if sol.equals a b then some row else rows b
  write_account (read_only a row) rows b = rows b

  abbrev pub write_accounts :
      List LightAccount → (sol.PublicKey → Option Row) → sol.PublicKey → Option Row
  write_accounts [] rows = rows
  write_accounts (account ∷ accounts) rows = write_account account (write_accounts accounts rows)

  -- Documented behaviour of the SDK and of the system program.
  pub record IsLight (sdk : LightSdk) : Type 0 where
    pub new_mut-eq-ok :
        (a : sol.PublicKey) (r : DecodedAuthority sol) {handle : LightAccount}
        → sdk.new_mut a r ≡ ok handle
        → handle ≡ replaced a (vrf_authority r) (vrf_authority r)
    pub new_read_only-eq-ok :
        (a : sol.PublicKey) (r : DecodedAuthority sol) (keys : List sol.PublicKey)
        {handle : LightAccount}
        → sdk.new_read_only a r keys ≡ ok handle
        → handle ≡ read_only a (vrf_authority r)
    pub invoke_accepts :
        (t : sdk.Tree) (proof : Bytes) (handles : List LightAccount) (fresh : List sdk.NewAddress)
        (accounts : sdk.Accounts) {t' : sdk.Tree}
        → sdk.invoke t proof handles fresh accounts ≡ ok t'
        → All (IsAccepted (sdk.lookup t)) handles
    pub invoke_writes :
        (t : sdk.Tree) (proof : Bytes) (handles : List LightAccount) (fresh : List sdk.NewAddress)
        (accounts : sdk.Accounts) {t' : sdk.Tree} (a : sol.PublicKey)
        → sdk.invoke t proof handles fresh accounts ≡ ok t'
        → sdk.lookup t' a ≡ write_accounts handles (sdk.lookup t) a
    -- The client's SDK derives the same addresses, in the same tree.
    pub derive_address_v2 :
        (seeds : List Bytes) (tree program : sol.PublicKey)
        → (sdk.derive_address seeds tree program).0
          ≡ sol.derive_address_v2 (sol.derive_address_seed_v2 seeds) tree program
    pub same_tree : sdk.address_tree_v2 ≡ sol.batch_address_tree
