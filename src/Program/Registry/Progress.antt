-- ===== src/Program/Registry/Progress.antt =====
-- How the owner of a live authority brings a commit about.
use cc_vrf.Common.{
  ℕ, ◌≡◌, refl, sym, ap, ◌∙◌, inl, inr, List, [], ◌∷◌, Bytes, false, not, none, some, ok, guard,
  >>=-ok, guard-true, ok_injective,
}
use cc_vrf.Client.Platform.{Platform, IsPlatform}
use cc_vrf.Client.Addresses.{proof_commit_seed}
use cc_vrf.Client.Light.{PackedAddressTreeInfo}
use cc_vrf.Client.Operations.{DecodedAuthority}
use cc_vrf.Program.{
  Chain, Context, set_frozen, dispatch, freeze_authority, commit_proof, commit_proof_row,
  freeze_authority_handler, commit_proof_handler, commit_row_handler, or_invalid, submit,
  require_committer, check_address_tree, commit_address,
}
use cc_vrf.Program.Light.{
  LightSdk, IsLight, Row, vrf_authority, replaced, read_only, created, authority_revoked,
}
use cc_vrf.Program.Registry.{Writes-cases, Writes-self}
use cc_vrf.Program.Transition.{row_at, commit_place, Writes, CanCommit}
use cc_vrf.Program.Transition.Handlers.{commit_row_handler-eq-ok}

module _ (sol : Platform) (sdk : LightSdk sol) where
  -- What a signer finds who asks a prover for validity proofs: the accounts of the call are the ones
  -- that the SDK expects, and a change that the system program can accept has a proof.
  pub record IsAvailable (ctx : Context sol sdk) (info : PackedAddressTreeInfo sol) : Type 0 where
    pub slot : ℕ
    pub clock : ctx.clock ≡ ok slot
    pub keys : List sol.PublicKey
    pub tree_pubkeys : sdk.tree_pubkeys ctx.remaining_accounts ≡ some keys
    pub address_tree : sdk.get_tree_pubkey info ctx.remaining_accounts ≡ some sdk.address_tree_v2
    pub opens :
        (a : sol.PublicKey) (r : DecodedAuthority sol)
        → sdk.new_mut a r ≡ ok (replaced a (vrf_authority r) (vrf_authority r))
    pub reads :
        (a : sol.PublicKey) (r : DecodedAuthority sol)
        → sdk.new_read_only a r keys ≡ ok (read_only a (vrf_authority r))
    pub updates :
        (t : sdk.Tree) (a : sol.PublicKey) (old new : Row sol)
        → sdk.lookup t a ≡ some old
        → (proof : Bytes) × (t' : sdk.Tree) × (sdk.invoke t proof
              (replaced a old new ∷ [])
              []
              ctx.remaining_accounts
            ≡ ok t')
    pub creates :
        (t : sdk.Tree) (a : sol.PublicKey) (old row : Row sol) (seeds : List Bytes)
        → sdk.lookup t a ≡ some old
        → let (b, seed) = sdk.derive_address seeds sdk.address_tree_v2 sol.cc_vrf_program_id in
          sdk.lookup t b ≡ none
          → (proof : Bytes) × (t' : sdk.Tree) × (sdk.invoke t proof
                (read_only a old ∷ created b row ∷ [])
                (sdk.new_address_params_assigned info seed 0 ∷ [])
                ctx.remaining_accounts
              ≡ ok t')

  module _ (is_platform : IsPlatform sol) (is_light : IsLight sol sdk) where
    can_freeze :
        (c : Chain sol sdk) (ctx : Context sol sdk) (info : PackedAddressTreeInfo sol)
        (a : sol.PublicKey) (r : DecodedAuthority sol)
        → IsAvailable ctx info
        → row_at sol sdk c a ≡ some (vrf_authority r)
        → r.owner ≡ ctx.owner
        → r.frozen ≡ false
        → (proof : Bytes) × (c' : Chain sol sdk) × (freeze_authority_handler sol sdk c ctx proof r a
            ≡ ok c')
          × Writes sol sdk c c' a (vrf_authority (set_frozen sol r))
    unfolding freeze_authority_handler submit
    can_freeze c ctx info a r available stored owned open_ =
        let (proof, t, accepted) =
          available.updates c.tree a (vrf_authority r) (vrf_authority (set_frozen sol r)) stored in
        (
          proof,
          record c { tree = t },
          guard-true (sol.equals r.owner ctx.owner) _ _
                ((is_platform.equals_iff r.owner ctx.owner).1 owned)
              ∙ guard-true (not r.frozen) _ _ (ap not open_)
              ∙ >>=-ok (sdk.new_mut a r) _ (available.opens a r)
              ∙ >>=-ok (sdk.invoke c.tree proof _ [] ctx.remaining_accounts) _ accepted,
          (λ x. is_light.invoke_writes c.tree proof _ [] ctx.remaining_accounts x accepted),
        )

    check_address_tree_passes :
        (ctx : Context sol sdk) (info : PackedAddressTreeInfo sol)
        → IsAvailable ctx info
        → check_address_tree sol sdk ctx info ≡ ok sdk.address_tree_v2
    unfolding check_address_tree
    check_address_tree_passes ctx info available =
        >>=-ok (or_invalid (sdk.get_tree_pubkey info ctx.remaining_accounts)) _
          (ap or_invalid available.address_tree)
        ∙ guard-true (sol.equals sdk.address_tree_v2 sdk.address_tree_v2) _ _
            ((is_platform.equals_iff sdk.address_tree_v2 sdk.address_tree_v2).1 refl)

    require_committer_passes :
        (ctx : Context sol sdk) (r : DecodedAuthority sol)
        → CanCommit sol sdk ctx.owner r
        → require_committer sol sdk ctx r ≡ ok tt
    unfolding require_committer
    require_committer_passes ctx r can =
        guard-true (sol.equals r.owner ctx.owner) _ _
          ((is_platform.equals_iff r.owner ctx.owner).1 can.owned)
        ∙ guard-true r.frozen _ _ can.frozen
        ∙ ap (λ b. guard (not b) authority_revoked) can.not_revoked

    can_commit :
        (c : Chain sol sdk) (ctx : Context sol sdk) (info : PackedAddressTreeInfo sol)
        (a : sol.PublicKey) (r : DecodedAuthority sol) (mh : Bytes) (row : ℕ → Row sol)
        → IsAvailable ctx info
        → row_at sol sdk c a ≡ some (vrf_authority r)
        → CanCommit sol sdk ctx.owner r
        → row_at sol sdk c (commit_place sol sdk a mh) ≡ none
        → (proof : Bytes) × (c' : Chain sol sdk) × (commit_row_handler sol sdk c ctx proof a r info
              mh row
            ≡ ok c')
    unfolding commit_row_handler submit commit_address
    can_commit c ctx info a r mh row available stored can free =
        let (proof, t, accepted) =
          available.creates c.tree a (vrf_authority r) (row available.slot)
            (proof_commit_seed ∷ sol.to_bytes a ∷ mh ∷ []) stored free in
        (
          proof,
          record c { tree = t },
          >>=-ok (require_committer sol sdk ctx r) _ (require_committer_passes ctx r can)
              ∙ >>=-ok (check_address_tree sol sdk ctx info) _
                  (check_address_tree_passes ctx info available)
              ∙ >>=-ok (or_invalid (sdk.tree_pubkeys ctx.remaining_accounts)) _
                  (ap or_invalid available.tree_pubkeys)
              ∙ >>=-ok (sdk.new_read_only a r available.keys) _ (available.reads a r)
              ∙ >>=-ok ctx.clock _ available.clock
              ∙ >>=-ok (sdk.invoke c.tree proof _ _ ctx.remaining_accounts) _ accepted,
        )

    -- Over a platform and a Light SDK with their documented behaviour, for a signer whose calls find
    -- a validity proof for each change that can be accepted: where an authority of the signer's is
    -- stored that is neither frozen nor revoked, and nothing is stored for it and a memo, two calls
    -- bring the commit about. The first freezes the authority, the second stores the commit row with
    -- the hashes given and the slot of the call.
    pub freeze_then_commit :
        (c : Chain sol sdk) (ctx : Context sol sdk) (info : PackedAddressTreeInfo sol) (output : ℕ)
        (a : sol.PublicKey) (r : DecodedAuthority sol) (mh ph ah : Bytes)
        (available : IsAvailable ctx info)
        → row_at sol sdk c a ≡ some (vrf_authority r)
        → r.owner ≡ ctx.owner
        → r.frozen ≡ false
        → r.revoked ≡ false
        → row_at sol sdk c (commit_place sol sdk a mh) ≡ none
        → (proof proof' : Bytes) × (c' d : Chain sol sdk) × (dispatch sol sdk c ctx
              (freeze_authority proof r a)
            ≡ ok c')
          × (dispatch sol sdk c' ctx (commit_proof proof' a (set_frozen sol r) info output mh ph ah)
              ≡ ok d)
          × (row_at sol sdk d (commit_place sol sdk a mh)
              ≡ some (commit_proof_row sol sdk a mh ph ah available.slot))
    unfolding dispatch commit_proof_handler
    freeze_then_commit c ctx info output a r mh ph ah available stored owned open_ live free =
        let (proof, c', frozen, w) = can_freeze c ctx info a r available stored owned open_ in
        let at = Writes-self sol sdk is_platform c c' a _ w in
        let still_free : row_at sol sdk c' (commit_place sol sdk a mh) ≡ none =
          elim (Writes-cases sol sdk is_platform c c' a _ w (commit_place sol sdk a mh)) [
            | inl (is, now) ↦ absurd (cc (stored, free, is))
            | inr unchanged ↦ unchanged ∙ free
          ] in
        let can : CanCommit sol sdk ctx.owner (set_frozen sol r) = record {
          owned = owned;
          frozen = refl;
          not_revoked = live;
        } in
        let (proof', d, committed) =
          can_commit c' ctx info a (set_frozen sol r) mh (commit_proof_row sol sdk a mh ph ah)
            available at can still_free in
        let (can', at', free', slot, clock, w', events) =
          commit_row_handler-eq-ok sol sdk is_platform is_light c' ctx proof' a (set_frozen sol r)
            info mh _ committed in
        let here_row = Writes-self sol sdk is_platform c' d _ _ w' in
        (
          proof,
          proof',
          c',
          d,
          frozen,
          committed,
          here_row
              ∙ ap (λ n. some (commit_proof_row sol sdk a mh ph ah n))
                  (ok_injective (sym clock ∙ available.clock)),
        )
