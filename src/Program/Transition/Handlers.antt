-- ===== src/Program/Transition/Handlers.antt =====
-- Every handler of programs/cc-vrf/src/instructions makes a transition, or returns an error.
use cc_vrf.Common.{
  ℕ, ◌≡◌, refl, sym, ap, subst, ◌∙◌, List, [], ◌∷◌, ◌++◌, Bytes, Bool, All, true, false, not, none,
  some, ==_iff, ◌==◌, Result, ok, ◌>>=◌, ◌>>◌, >>=-eq-ok, guard-eq-ok, guard_passed, ok_injective,
}
use cc_vrf.Ecvrf.Encoding.Concat.{bytes_equal_iff}
use cc_vrf.Ecvrf.Encoding.{bytes_equal}
use cc_vrf.Client.Platform.{Platform, IsPlatform}
use cc_vrf.Client.Light.{PackedAddressTreeInfo}
use cc_vrf.Client.Operations.{DecodedAuthority}
use cc_vrf.Program.{
  Call, Chain, Context, authority_address, commit_address, set_frozen, set_revoked, supported_suite,
  or_invalid, check_address_tree, require_committer, init_authority_handler,
  freeze_authority_handler, revoke_authority_handler, commit_row_handler,
  commit_proof_event_handler, commit_proof_row, submit, emit_event, committed_event, dispatch,
  commit_proof_handler, commit_proof_with_beta_handler, init_authority, freeze_authority,
  revoke_authority, commit_proof, commit_proof_event, commit_proof_with_beta,
  commit_proof_with_beta_row,
}
use cc_vrf.Program.Light.{
  VrfError, LightSdk, IsLight, LightAccount, IsAccepted, write_accounts, Row, vrf_authority,
  replaced, read_only,
}
use cc_vrf.Program.Transition.{
  fresh_authority, row_at, authority_place, commit_place, Writes, CanCommit, Transition, freeze,
  revoke, initialised, updated, committed, logged,
}

module _ (sol : Platform) (sdk : LightSdk sol) (is_platform : IsPlatform sol)
    (is_light : IsLight sol sdk) where
  -- Each check is passed on the one value that it lets through.
  check_address_tree-next :
      (ctx : Context sol sdk) (info : PackedAddressTreeInfo sol)
      (next : sol.PublicKey → Result VrfError (Chain sol sdk)) {c' : Chain sol sdk}
      → (check_address_tree sol sdk ctx info >>= next) ≡ ok c'
      → next sdk.address_tree_v2 ≡ ok c'
  unfolding check_address_tree
  check_address_tree-next ctx info next {c'} e =
      let (tree', e0, r0) = >>=-eq-ok (check_address_tree sol sdk ctx info) next e in
      let (tree, e1, r1) =
        >>=-eq-ok (or_invalid (sdk.get_tree_pubkey info ctx.remaining_accounts)) _ e0 in
      let (same, r2) = guard-eq-ok (sol.equals tree sdk.address_tree_v2) _ _ r1 in
      subst (λ k. next k ≡ ok c')
        (sym (ok_injective r2) ∙ (is_platform.equals_iff tree sdk.address_tree_v2).0 same) r0

  new_mut-next :
      (a : sol.PublicKey) (r : DecodedAuthority sol)
      (next : LightAccount sol → Result VrfError (Chain sol sdk)) {c' : Chain sol sdk}
      → (sdk.new_mut a r >>= next) ≡ ok c'
      → next (replaced a (vrf_authority r) (vrf_authority r)) ≡ ok c'
  new_mut-next a r next {c'} e =
      let (handle, e0, r0) = >>=-eq-ok (sdk.new_mut a r) next e in
      subst (λ h. next h ≡ ok c') (is_light.new_mut-eq-ok a r e0) r0

  new_read_only-next :
      (a : sol.PublicKey) (r : DecodedAuthority sol) (keys : List sol.PublicKey)
      (next : LightAccount sol → Result VrfError (Chain sol sdk)) {c' : Chain sol sdk}
      → (sdk.new_read_only a r keys >>= next) ≡ ok c'
      → next (read_only a (vrf_authority r)) ≡ ok c'
  new_read_only-next a r keys next {c'} e =
      let (handle, e0, r0) = >>=-eq-ok (sdk.new_read_only a r keys) next e in
      subst (λ h. next h ≡ ok c') (is_light.new_read_only-eq-ok a r keys e0) r0

  submit-eq-ok :
      (c : Chain sol sdk) (ctx : Context sol sdk) (proof : Bytes)
      (handles : List (LightAccount sol)) (fresh : List sdk.NewAddress) {c' : Chain sol sdk}
      → submit sol sdk c ctx proof handles fresh ≡ ok c'
      → All (IsAccepted sol (row_at sol sdk c)) handles
        × ((x : sol.PublicKey)
            → row_at sol sdk c' x ≡ write_accounts sol handles (row_at sol sdk c) x)
        × (c'.events ≡ c.events)
  unfolding submit
  submit-eq-ok c ctx proof handles fresh {c'} e =
      let (t, e0, r0) =
        >>=-eq-ok (sdk.invoke c.tree proof handles fresh ctx.remaining_accounts) _ e in
      let made = ok_injective r0 in
      (
        is_light.invoke_accepts c.tree proof handles fresh ctx.remaining_accounts e0,
        (λ x.
            sym (ap (λ d. row_at sol sdk d x) made)
            ∙ is_light.invoke_writes c.tree proof handles fresh ctx.remaining_accounts x e0),
        sym (ap (λ d. d.events) made),
      )

  not-eq-true : (b : Bool) → not b ≡ true → b ≡ false
  not-eq-true false e = refl
  not-eq-true true e = cc

  key_is : (a b : sol.PublicKey) → sol.equals a b ≡ true → a ≡ b
  key_is a b = (is_platform.equals_iff a b).0

  init_authority_handler-Transition :
      (c : Chain sol sdk) (ctx : Context sol sdk) (proof : Bytes) (info : PackedAddressTreeInfo sol)
      (output : ℕ) (pk : Bytes) (suite : ℕ) (label : Bytes) {c' : Chain sol sdk}
      → init_authority_handler sol sdk c ctx proof info output pk suite label ≡ ok c'
      → Transition sol sdk ctx.owner c c'
  unfolding init_authority_handler authority_address
  init_authority_handler-Transition c ctx proof info output pk suite label {c'} e =
      let (es, r0) = guard-eq-ok (suite == supported_suite) _ _ e in
      let (slot, e2, r2) = >>=-eq-ok ctx.clock _ (check_address_tree-next ctx info _ r0) in
      let (accepted, writes, events) = submit-eq-ok c ctx proof _ _ r2 in
      initialised pk label slot accepted.0
        (subst
          (λ n.
            Writes sol sdk c c' (authority_place sol sdk ctx.owner label)
              (vrf_authority (record (fresh_authority sol ctx.owner pk label slot) { suite = n })))
          ((==_iff suite supported_suite).0 es) writes)
        events

  freeze_authority_handler-Transition :
      (c : Chain sol sdk) (ctx : Context sol sdk) (proof : Bytes) (r : DecodedAuthority sol)
      (a : sol.PublicKey) {c' : Chain sol sdk}
      → freeze_authority_handler sol sdk c ctx proof r a ≡ ok c'
      → Transition sol sdk ctx.owner c c'
  unfolding freeze_authority_handler
  freeze_authority_handler-Transition c ctx proof r a e =
      let (owned, r0) = guard-eq-ok (sol.equals r.owner ctx.owner) _ _ e in
      let (open_, r1) = guard-eq-ok (not r.frozen) _ _ r0 in
      let (accepted, writes, events) = submit-eq-ok c ctx proof _ _ (new_mut-next a r _ r1) in
      updated a r (set_frozen sol r) accepted.0
        (freeze (key_is _ _ owned) (not-eq-true r.frozen open_) refl) writes events

  revoke_authority_handler-Transition :
      (c : Chain sol sdk) (ctx : Context sol sdk) (proof : Bytes) (r : DecodedAuthority sol)
      (a : sol.PublicKey) {c' : Chain sol sdk}
      → revoke_authority_handler sol sdk c ctx proof r a ≡ ok c'
      → Transition sol sdk ctx.owner c c'
  unfolding revoke_authority_handler
  revoke_authority_handler-Transition c ctx proof r a e =
      let (owned, r0) = guard-eq-ok (sol.equals r.owner ctx.owner) _ _ e in
      let (accepted, writes, events) = submit-eq-ok c ctx proof _ _ (new_mut-next a r _ r0) in
      updated a r (set_revoked sol r) accepted.0 (revoke (key_is _ _ owned) refl) writes events

  require_committer-next :
      (ctx : Context sol sdk) (r : DecodedAuthority sol) (m : Result VrfError (Chain sol sdk))
      {c' : Chain sol sdk}
      → (require_committer sol sdk ctx r >> m) ≡ ok c'
      → CanCommit sol sdk ctx.owner r × (m ≡ ok c')
  unfolding require_committer
  require_committer-next ctx r m e =
      let (u, e0, r0) = >>=-eq-ok (require_committer sol sdk ctx r) (λ u. m) e in
      let (owned, e1) = guard-eq-ok (sol.equals r.owner ctx.owner) _ _ e0 in
      let (frozen, e2) = guard-eq-ok r.frozen _ _ e1 in
      let revoked = not-eq-true r.revoked (guard_passed (not r.revoked) _ e2) in
      (record { owned = key_is _ _ owned; frozen = frozen; not_revoked = revoked }, r0)

  -- A handler that creates a commit row.
  pub commit_row_handler-eq-ok :
      (c : Chain sol sdk) (ctx : Context sol sdk) (proof : Bytes) (a : sol.PublicKey)
      (r : DecodedAuthority sol) (info : PackedAddressTreeInfo sol) (mh : Bytes) (row : ℕ → Row sol)
      {c' : Chain sol sdk}
      → commit_row_handler sol sdk c ctx proof a r info mh row ≡ ok c'
      → CanCommit sol sdk ctx.owner r
        × (row_at sol sdk c a ≡ some (vrf_authority r))
        × (row_at sol sdk c (commit_place sol sdk a mh) ≡ none)
        × (slot : ℕ) × (ctx.clock ≡ ok slot)
        × Writes sol sdk c c' (commit_place sol sdk a mh) (row slot)
        × (c'.events ≡ c.events)
  unfolding commit_row_handler commit_address
  commit_row_handler-eq-ok c ctx proof a r info mh row e =
      let (can, r0) = require_committer-next ctx r _ e in
      let (keys, e1, r1) =
        >>=-eq-ok (or_invalid (sdk.tree_pubkeys ctx.remaining_accounts)) _
          (check_address_tree-next ctx info _ r0) in
      let (slot, e2, r2) = >>=-eq-ok ctx.clock _ (new_read_only-next a r keys _ r1) in
      let (accepted, writes, events) = submit-eq-ok c ctx proof _ _ r2 in
      (can, accepted.0, accepted.1.0, slot, e2, writes, events)

  -- The handler that logs an event.
  pub commit_proof_event_handler-eq-ok :
      (c : Chain sol sdk) (ctx : Context sol sdk) (proof : Bytes) (a : sol.PublicKey)
      (r : DecodedAuthority sol) (label mh ph ah : Bytes) {c' : Chain sol sdk}
      → commit_proof_event_handler sol sdk c ctx proof a r label mh ph ah ≡ ok c'
      → CanCommit sol sdk ctx.owner r
        × (row_at sol sdk c a ≡ some (vrf_authority r))
        × (a ≡ authority_place sol sdk ctx.owner label)
        × (r.label ≡ label)
        × (slot : ℕ) × ((x : sol.PublicKey) → row_at sol sdk c' x ≡ row_at sol sdk c x)
        × (c'.events ≡ c.events ++ committed_event sol sdk ctx label mh ph ah slot ∷ [])
  unfolding commit_proof_event_handler emit_event
  commit_proof_event_handler-eq-ok c ctx proof a r label mh ph ah {c'} e =
      let (owned, r0) = guard-eq-ok (sol.equals r.owner ctx.owner) _ _ e in
      let (same_label, r1) = guard-eq-ok (bytes_equal r.label label) _ _ r0 in
      let (frozen, r2) = guard-eq-ok r.frozen _ _ r1 in
      let (not_revoked, r3) = guard-eq-ok (not r.revoked) _ _ r2 in
      let (placed, r4) =
        guard-eq-ok (sol.equals a (authority_place sol sdk ctx.owner label)) _ _ r3 in
      let (keys, e5, r5) = >>=-eq-ok (or_invalid (sdk.tree_pubkeys ctx.remaining_accounts)) _ r4 in
      let (called, e6, r6) =
        >>=-eq-ok (submit sol sdk c ctx proof (read_only a (vrf_authority r) ∷ []) [])
          (emit_event sol sdk ctx label mh ph ah) (new_read_only-next a r keys _ r5) in
      let (accepted, writes, events) = submit-eq-ok c ctx proof _ _ e6 in
      let (slot, e7, r7) = >>=-eq-ok ctx.clock _ r6 in
      let made = ok_injective r7 in
      let event = committed_event sol sdk ctx label mh ph ah slot in
      let can : CanCommit sol sdk ctx.owner r = record {
        owned = key_is _ _ owned;
        frozen = frozen;
        not_revoked = not-eq-true r.revoked not_revoked;
      } in
      (
        can,
        accepted.0,
        key_is _ _ placed,
        (bytes_equal_iff r.label label).0 same_label,
        slot,
        (λ x. sym (ap (λ d. row_at sol sdk d x) made) ∙ writes x),
        sym (ap (λ d. d.events) made) ∙ ap (λ es. es ++ event ∷ []) events,
      )

  -- Over a platform and a Light SDK with their documented behaviour: a call that the program
  -- accepts is one of its signer's transitions. It creates an unfrozen authority at the unused
  -- address of signer and label; or freezes or revokes an authority of the signer's, and changes
  -- nothing else; or creates a row at the unused address of authority and memo, or logs an event,
  -- under an authority of the signer's that is frozen and not revoked.
  pub dispatch-Transition :
      (c : Chain sol sdk) (ctx : Context sol sdk) (call : Call sol) {c' : Chain sol sdk}
      → dispatch sol sdk c ctx call ≡ ok c'
      → Transition sol sdk ctx.owner c c'
  unfolding dispatch commit_proof_handler commit_proof_with_beta_handler commit_proof_row
      commit_proof_with_beta_row
  dispatch-Transition c ctx (init_authority proof info output pk suite label) e =
      init_authority_handler-Transition c ctx proof info output pk suite label e
  dispatch-Transition c ctx (freeze_authority proof r a) e =
      freeze_authority_handler-Transition c ctx proof r a e
  dispatch-Transition c ctx (revoke_authority proof r a) e =
      revoke_authority_handler-Transition c ctx proof r a e
  dispatch-Transition c ctx (commit_proof proof a r info output mh ph ah) e =
      let (can, stored, free, slot, clock, writes, events) =
        commit_row_handler-eq-ok c ctx proof a r info mh _ e in
      committed a r mh _ stored can refl free writes events
  dispatch-Transition c ctx (commit_proof_event proof a r label mh ph ah) e =
      let (can, stored, placed, same_label, slot, unchanged, events) =
        commit_proof_event_handler-eq-ok c ctx proof a r label mh ph ah e in
      logged r _ refl (subst (λ k. row_at sol sdk c k ≡ some (vrf_authority r)) placed stored) can
        same_label unchanged events
  dispatch-Transition c ctx (commit_proof_with_beta proof a r info output mh ph ah lo hi) e =
      let (can, stored, free, slot, clock, writes, events) =
        commit_row_handler-eq-ok c ctx proof a r info mh _ e in
      committed a r mh _ stored can refl free writes events
