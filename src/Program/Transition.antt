-- ===== src/Program/Transition.antt =====
-- What a call does that the program accepts: the abstract transitions of the registry.
pub mod Handlers
use cc_vrf.Common.{
  ℕ, ◌≡◌, refl, sym, ap, subst, ◌∙◌, ◌⊎◌, inl, inr, List, [], ◌∷◌, ◌++◌, Bytes, Bool, All, true,
  false, not, Option, none, some, ==_iff, ◌==◌, Result, ok, err, guard, ◌>>=◌, ◌>>◌, if◌then◌else◌,
  >>=-eq-ok, guard-eq-ok, guard_passed,
}
use cc_vrf.Ecvrf.Encoding.Concat.{bytes_equal_iff}
use cc_vrf.Ecvrf.Encoding.{bytes_equal}
use cc_vrf.Client.Platform.{Platform, IsPlatform}
use cc_vrf.Client.Light.{PackedAddressTreeInfo}
use cc_vrf.Client.Operations.{DecodedAuthority}
use cc_vrf.Program.{
  Call, Chain, Context, VrfProofCommitted, authority_address, commit_address, set_frozen,
  set_revoked, supported_suite, or_invalid, check_address_tree, require_committer,
  init_authority_handler, freeze_authority_handler, revoke_authority_handler, commit_row_handler,
  commit_proof_event_handler, commit_proof_row, submit, emit_event, dispatch, commit_proof_handler,
  commit_proof_with_beta_handler, init_authority, freeze_authority, revoke_authority, commit_proof,
  commit_proof_event, commit_proof_with_beta, commit_proof_with_beta_row, update_authority,
}
use cc_vrf.Program.Light.{
  VrfError, LightSdk, IsLight, LightAccount, IsAccepted, write_accounts, Row, vrf_authority,
  vrf_proof_commit, vrf_proof_commit_with_beta, created, replaced, read_only,
}

module _ (sol : Platform) where
  -- The authority and the memo of a commit row.
  abbrev pub commit_key : Row sol → Option (sol.PublicKey × Bytes)
  commit_key (vrf_authority r) = none
  commit_key (vrf_proof_commit r) = some (r.authority, r.memo_hash)
  commit_key (vrf_proof_commit_with_beta r) = some (r.authority, r.memo_hash)

  abbrev pub fresh_authority : sol.PublicKey → Bytes → Bytes → ℕ → DecodedAuthority sol
  fresh_authority owner pk label slot = record {
    owner = owner;
    pk = pk;
    suite = supported_suite;
    frozen = false;
    revoked = false;
    label = label;
    created_slot = slot;
  }

  -- What becomes of the row of an authority, by calls of `owner`.
  pub data Update (owner : sol.PublicKey) (old new : DecodedAuthority sol) : Type 0 where
    freeze :
        old.owner ≡ owner → old.frozen ≡ false → new ≡ set_frozen sol old → Update owner old new
    revoke : old.owner ≡ owner → new ≡ set_revoked sol old → Update owner old new

  module _ (sdk : LightSdk sol) where
    abbrev pub row_at : Chain sol sdk → sol.PublicKey → Option (Row sol)
    row_at c a = sdk.lookup c.tree a

    abbrev pub authority_place : sol.PublicKey → Bytes → sol.PublicKey
    authority_place owner label = (authority_address sol sdk owner label).0

    abbrev pub commit_place : sol.PublicKey → Bytes → sol.PublicKey
    commit_place authority memo_hash =
        (commit_address sol sdk authority memo_hash sdk.address_tree_v2).0

    -- `c'` has the rows of `c`, and `row` at `a`.
    abbrev pub Writes : Chain sol sdk → Chain sol sdk → sol.PublicKey → Row sol → Type 0
    Writes c c' a row =
        (x : sol.PublicKey) → row_at c' x ≡ (if sol.equals a x then some row else row_at c x)

    -- A row of this authority may be used by `owner` to commit.
    pub record CanCommit (owner : sol.PublicKey) (r : DecodedAuthority sol) : Type 0 where
      pub owned : r.owner ≡ owner
      pub frozen : r.frozen ≡ true
      pub not_revoked : r.revoked ≡ false

    pub data Transition (owner : sol.PublicKey) (c c' : Chain sol sdk) : Type 0 where
      initialised :
          (pk label : Bytes) (slot : ℕ)
          → row_at c (authority_place owner label) ≡ none
          → Writes c c'
              (authority_place owner label)
              (vrf_authority (fresh_authority owner pk label slot))
          → c'.events ≡ c.events
          → Transition owner c c'
      updated :
          (a : sol.PublicKey) (old new : DecodedAuthority sol)
          → row_at c a ≡ some (vrf_authority old)
          → Update owner old new
          → Writes c c' a (vrf_authority new)
          → c'.events ≡ c.events
          → Transition owner c c'
      committed :
          (a : sol.PublicKey) (r : DecodedAuthority sol) (memo_hash : Bytes) (row : Row sol)
          → row_at c a ≡ some (vrf_authority r)
          → CanCommit owner r
          → commit_key row ≡ some (a, memo_hash)
          → row_at c (commit_place a memo_hash) ≡ none
          → Writes c c' (commit_place a memo_hash) row
          → c'.events ≡ c.events
          → Transition owner c c'
      logged :
          (r : DecodedAuthority sol) (event : VrfProofCommitted sol)
          → event.owner ≡ owner
          → row_at c (authority_place owner event.label) ≡ some (vrf_authority r)
          → CanCommit owner r
          → r.label ≡ event.label
          → ((x : sol.PublicKey) → row_at c' x ≡ row_at c x)
          → c'.events ≡ c.events ++ event ∷ []
          → Transition owner c c'
