-- ===== src/Program/Registry/Guards.antt =====
-- Who can commit, and how often.
use cc_vrf.Common.{
  ◌≡◌, refl, sym, subst, ◌∙◌, Bytes, true, false, Option, none, some, ok, some_injective,
}
use cc_vrf.Client.Platform.{Platform, IsPlatform}
use cc_vrf.Client.Operations.{DecodedAuthority}
use cc_vrf.Program.{
  Call, Chain, Context, dispatch, commit_proof, commit_proof_with_beta, commit_proof_event,
  init_authority, freeze_authority, revoke_authority, commit_proof_handler,
  commit_proof_with_beta_handler, commit_proof_row, commit_proof_with_beta_row,
}
use cc_vrf.Program.Light.{LightSdk, IsLight, Row, vrf_authority}
use cc_vrf.Program.Registry.{Reach, Writes-self}
use cc_vrf.Program.Registry.Permanence.{Reach-authority, Reach-commit}
use cc_vrf.Program.Transition.{commit_key, row_at, commit_place, CanCommit}
use cc_vrf.Program.Transition.Handlers.{commit_row_handler-eq-ok, commit_proof_event_handler-eq-ok}

module _ (sol : Platform) where
  -- The authority's address in a call that commits.
  abbrev pub call_authority : Call sol → Option sol.PublicKey
  call_authority (commit_proof proof a r info output mh ph ah) = some a
  call_authority (commit_proof_event proof a r label mh ph ah) = some a
  call_authority (commit_proof_with_beta proof a r info output mh ph ah lo hi) = some a
  call_authority _ = none

  -- The authority's address and the memo's hash in a call that creates a commit row.
  abbrev pub call_key : Call sol → Option (sol.PublicKey × Bytes)
  call_key (commit_proof proof a r info output mh ph ah) = some (a, mh)
  call_key (commit_proof_with_beta proof a r info output mh ph ah lo hi) = some (a, mh)
  call_key _ = none

  module _ (sdk : LightSdk sol) (is_platform : IsPlatform sol) (is_light : IsLight sol sdk) where
    abbrev Committer : Chain sol sdk → Context sol sdk → sol.PublicKey → Type 0
    Committer c ctx a =
        (r : DecodedAuthority sol) × (row_at sol sdk c a ≡ some (vrf_authority r))
        × CanCommit sol sdk ctx.owner r

    -- Over a platform and a Light SDK with their documented behaviour: in each of the three modes a
    -- commit is accepted only under an authority that is stored at the address given, belongs to the
    -- signer, is frozen and is not revoked.
    pub dispatch-CanCommit :
        (c : Chain sol sdk) (ctx : Context sol sdk) (call : Call sol) (a : sol.PublicKey)
        {c' : Chain sol sdk}
        → call_authority call ≡ some a
        → dispatch sol sdk c ctx call ≡ ok c'
        → Committer c ctx a
    unfolding dispatch commit_proof_handler commit_proof_with_beta_handler
    dispatch-CanCommit c ctx (commit_proof proof b r info output mh ph ah) a is e =
        let (can, stored, free, slot, clock, writes, events) =
          commit_row_handler-eq-ok sol sdk is_platform is_light c ctx proof b r info mh _ e in
        subst (Committer c ctx) (some_injective is) (r, stored, can)
    dispatch-CanCommit c ctx (commit_proof_event proof b r label mh ph ah) a is e =
        let (can, stored, placed, same_label, slot, unchanged, events) =
          commit_proof_event_handler-eq-ok sol sdk is_platform is_light c ctx proof b r label mh ph
            ah e in
        subst (Committer c ctx) (some_injective is) (r, stored, can)
    dispatch-CanCommit c ctx (commit_proof_with_beta proof b r info output mh ph ah lo hi) a is e =
        let (can, stored, free, slot, clock, writes, events) =
          commit_row_handler-eq-ok sol sdk is_platform is_light c ctx proof b r info mh _ e in
        subst (Committer c ctx) (some_injective is) (r, stored, can)
    dispatch-CanCommit c ctx (init_authority proof info output pk suite label) a is e = absurd cc
    dispatch-CanCommit c ctx (freeze_authority proof r b) a is e = absurd cc
    dispatch-CanCommit c ctx (revoke_authority proof r b) a is e = absurd cc

    -- Over a platform and a Light SDK with their documented behaviour: once an authority is stored
    -- as revoked, the program refuses every later commit under its address, in each of the three
    -- modes and by whoever signs it.
    pub revoked_refused :
        (c d : Chain sol sdk) (ctx : Context sol sdk) (call : Call sol) (a : sol.PublicKey)
        (r : DecodedAuthority sol) {e : Chain sol sdk}
        → row_at sol sdk c a ≡ some (vrf_authority r)
        → r.revoked ≡ true
        → Reach sol sdk c d
        → call_authority call ≡ some a
        → ¬ (dispatch sol sdk d ctx call ≡ ok e)
    revoked_refused c d ctx call a r stored revoked reach is accepted =
        let (now, at, evolves) = Reach-authority sol sdk is_platform is_light a r stored reach in
        let (used, used_at, can) = dispatch-CanCommit d ctx call a is accepted in
        clash now used (sym at ∙ used_at) (evolves.revoked revoked) can.not_revoked
      where
        clash :
            (x y : DecodedAuthority sol)
            → Path (Option (Row sol)) (some (vrf_authority x)) (some (vrf_authority y))
            → x.revoked ≡ true
            → y.revoked ≡ false
            → ⊥
        clash x y same was is_not = cc

    abbrev Created : Chain sol sdk → Chain sol sdk → sol.PublicKey × Bytes → Type 0
    Created c c' key =
        (row_at sol sdk c (commit_place sol sdk key.0 key.1) ≡ none)
        × (row : Row sol) × (commit_key sol row ≡ some key)
        × (row_at sol sdk c' (commit_place sol sdk key.0 key.1) ≡ some row)

    dispatch-Created :
        (c : Chain sol sdk) (ctx : Context sol sdk) (call : Call sol) (key : sol.PublicKey × Bytes)
        {c' : Chain sol sdk}
        → call_key call ≡ some key
        → dispatch sol sdk c ctx call ≡ ok c'
        → Created c c' key
    unfolding dispatch commit_proof_handler commit_proof_with_beta_handler commit_proof_row
        commit_proof_with_beta_row
    dispatch-Created c ctx (commit_proof proof a r info output mh ph ah) key {c'} is e =
        let (can, stored, free, slot, clock, writes, events) =
          commit_row_handler-eq-ok sol sdk is_platform is_light c ctx proof a r info mh _ e in
        subst (Created c c') (some_injective is)
          (free, _, refl, Writes-self sol sdk is_platform c c' _ _ writes)
    dispatch-Created c ctx (commit_proof_with_beta proof a r info output mh ph ah lo hi) key {c'} is
          e =
        let (can, stored, free, slot, clock, writes, events) =
          commit_row_handler-eq-ok sol sdk is_platform is_light c ctx proof a r info mh _ e in
        subst (Created c c') (some_injective is)
          (free, _, refl, Writes-self sol sdk is_platform c c' _ _ writes)
    dispatch-Created c ctx (commit_proof_event proof a r label mh ph ah) key is e = absurd cc
    dispatch-Created c ctx (init_authority proof info output pk suite label) key is e = absurd cc
    dispatch-Created c ctx (freeze_authority proof r b) key is e = absurd cc
    dispatch-Created c ctx (revoke_authority proof r b) key is e = absurd cc

    -- Over a platform and a Light SDK with their documented behaviour: a commit for an authority and
    -- a memo, with or without beta, stores a row of both at an address that was unused; whatever
    -- happens afterwards the row is stored there unchanged, and the program refuses every other
    -- commit for the authority and the memo, in either of the two modes.
    pub commit_once :
        (c c' d : Chain sol sdk) (ctx ctx' : Context sol sdk) (call again : Call sol)
        (a : sol.PublicKey) (memo_hash : Bytes)
        → call_key call ≡ some (a, memo_hash)
        → dispatch sol sdk c ctx call ≡ ok c'
        → Reach sol sdk c' d
        → call_key again ≡ some (a, memo_hash)
        → (row : Row sol) × (commit_key sol row ≡ some (a, memo_hash))
          × (row_at sol sdk c (commit_place sol sdk a memo_hash) ≡ none)
          × (row_at sol sdk c' (commit_place sol sdk a memo_hash) ≡ some row)
          × (row_at sol sdk d (commit_place sol sdk a memo_hash) ≡ some row)
          × ((e : Chain sol sdk) → ¬ (dispatch sol sdk d ctx' again ≡ ok e))
    commit_once c c' d ctx ctx' call again a memo_hash is e reach again_is =
        let (free, row, key, stored) = dispatch-Created c ctx call (a, memo_hash) is e in
        let kept = Reach-commit sol sdk is_platform is_light _ row key stored reach in
        (
          row,
          key,
          free,
          stored,
          kept,
          (λ e' accepted.
              taken row (dispatch-Created d ctx' again (a, memo_hash) again_is accepted).0 kept),
        )
      where
        taken : {x : Option (Row sol)} (row : Row sol) → x ≡ none → x ≡ some row → ⊥
        taken row free used = cc
