-- ===== src/Demo/Commands.antt =====
-- apps/dice-demo/src/commands.ts: the commands on one roll. What they print is what they return.
use cc_vrf.Common.{ℕ, List, [], ◌∷◌, Option, none, some, Result, ok, err, length, map, ltb}
use cc_vrf.Client.Addresses.{suite_edwards25519_sha512_tai}
use cc_vrf.Client.Events.{fetch_proof_commit_events}
use cc_vrf.Client.Operations.{
  Instruction, fetch_authority, fetch_proof_commit, fetch_proof_commit_with_beta,
  build_init_authority_ix, build_freeze_authority_ix, build_revoke_authority_ix,
  build_commit_proof_ix, build_commit_proof_with_beta_ix, build_commit_proof_event_ix,
  FetchedAuthority,
}
use cc_vrf.Client.Platform.{Platform, string, ClientError}
use cc_vrf.Client.Verify.{
  VerifyAuthorityCommitEndToEndResult, verify_authority_commit_end_to_end, pick_canonical_commit,
}
use cc_vrf.Demo.Draw.{
  Draw, target_memo, stored_roll, secret_key, is_none, is_some, or_missing, push_roll, make_draw,
  commit_input, roll_record, check_input,
}
use cc_vrf.Demo.Host.{
  DemoError, already_initialised, not_initialised, authority_missing, commit_missing, no_events,
  exited, client, Mode, pda_beta, event, Roll, DemoState, Host, bind, ◌>>=◌, ◌>>◌, return, require,
  reading, drawing, from_client, from_vrf, given, load_state, save_state,
}
use cc_vrf.Ecvrf.Curve.{Curve}
use cc_vrf.Ecvrf.Encoding.{hex_to_bytes, bytes_to_hex}
use cc_vrf.Ecvrf.Keypair.{generate_key_pair}

-- "dice-", "dice-beta-", "dice-evt-"
abbrev pub dice : List ℕ
dice = b'd' ∷ b'i' ∷ b'c' ∷ b'e' ∷ b'-' ∷ []

abbrev pub dice_beta : List ℕ
dice_beta = b'd' ∷ b'i' ∷ b'c' ∷ b'e' ∷ b'-' ∷ b'b' ∷ b'e' ∷ b't' ∷ b'a' ∷ b'-' ∷ []

abbrev pub dice_evt : List ℕ
dice_evt = b'd' ∷ b'i' ∷ b'c' ∷ b'e' ∷ b'-' ∷ b'e' ∷ b'v' ∷ b't' ∷ b'-' ∷ []

-- "(event-mode — no PDA address)", with the dash as its code unit
abbrev pub event_mode_address : List ℕ
event_mode_address =
    b'(' ∷ b'e' ∷ b'v' ∷ b'e' ∷ b'n' ∷ b't' ∷ b'-' ∷ b'm' ∷ b'o' ∷ b'd' ∷ b'e' ∷ b' ' ∷ 0x2014
    ∷ b' ' ∷ b'n' ∷ b'o' ∷ b' ' ∷ b'P' ∷ b'D' ∷ b'A' ∷ b' ' ∷ b'a' ∷ b'd' ∷ b'd' ∷ b'r' ∷ b'e'
    ∷ b's' ∷ b's' ∷ b')' ∷ []

module _ (sol : Platform) (ed : Curve) (h : Host sol) where
  abbrev pub Command : Type 0 → Type 0
  Command A = h.World → Result DemoError A × h.World

  abbrev pub lift : {A : Type 0} → Result DemoError A → Command A
  lift r w = (r, w)

  -- Builds an instruction on what the RPC answers now, and sends it.
  unfoldable pub build_and_send :
      {A : Type 0}
      → ((w : h.World) → Result ClientError (Instruction sol (h.rpc w) × A))
      → Command (List ℕ × A)
  build_and_send build w = elim (build w) [
    | err e ↦ (err (client e), w)
    | ok (ix, a) ↦ bind (h.send_and_confirm w ix) (λ signature. return (signature, a))
  ]

  -- The same for a builder that returns the instruction alone.
  abbrev pub alone :
      {w : h.World}
      → Result ClientError (Instruction sol (h.rpc w))
      → Result ClientError (Instruction sol (h.rpc w) × Unit {0})
  alone (ok ix) = ok (ix, tt)
  alone (err e) = err e

  unfoldable pub cmd_init : Command sol.PublicKey
  cmd_init = do
    state ← reading (λ w. ok (load_state h w))
    require (is_none (given state.vrf_sk)) already_initialised
    seed ← drawing h.random_seed
    (sk, pk) ← lift (from_vrf (generate_key_pair ed seed))
    payer ← reading h.load_payer
    (signature, authority_address) ← build_and_send (λ w.
        build_init_authority_ix sol (h.rpc w) h.program (record {
          owner = payer;
          pk = pk;
          suite = suite_edwards25519_sha512_tai;
          label = string state.label;
        }))
    save_state h (record state {
      vrf_sk = some (bytes_to_hex sk);
      vrf_pk = some (bytes_to_hex pk);
      owner_pubkey_base58 = some (h.to_base58 payer);
      program_id_base58 = some (h.to_base58 sol.cc_vrf_program_id);
    })
    return authority_address

  unfoldable pub cmd_freeze : Command (List ℕ)
  cmd_freeze = do
    state ← reading (λ w. ok (load_state h w))
    require (is_some (given state.vrf_sk)) not_initialised
    payer ← reading h.load_payer
    (signature, u) ← build_and_send (λ w. alone (
        build_freeze_authority_ix sol (h.rpc w) h.program
          (record { owner = payer; label = string state.label })))
    return signature

  unfoldable pub cmd_revoke : Command (List ℕ)
  cmd_revoke = do
    state ← reading (λ w. ok (load_state h w))
    require (is_some (given state.vrf_sk)) not_initialised
    payer ← reading h.load_payer
    (signature, u) ← build_and_send (λ w. alone (
        build_revoke_authority_ix sol (h.rpc w) h.program
          (record { owner = payer; label = string state.label })))
    return signature

  -- `memo || ...`
  unfoldable pub draw_memo : List ℕ → Option (List ℕ) → Command (List ℕ)
  draw_memo prefix memo = elim (given memo) [
    | some m ↦ return m
    | none ↦ drawing (h.fresh_memo prefix)
  ]

  -- What the three roll commands do first.
  unfoldable pub prepare_roll :
      List ℕ → Option (List ℕ) → Command (DemoState × sol.PublicKey × Draw)
  prepare_roll prefix memo = do
    state ← reading (λ w. ok (load_state h w))
    key ← lift (secret_key state)
    sk ← lift (from_vrf (hex_to_bytes key))
    payer ← reading h.load_payer
    memo_str ← draw_memo prefix memo
    d ← lift (make_draw sol ed sk memo_str)
    return (state, payer, d)

  -- What they do last: `committedAtIso`, `state.rolls.push(..)` and `saveState(state)`.
  unfoldable pub record_roll :
      DemoState → Draw → List ℕ → Option Mode → Option (List ℕ) → Command Roll
  record_roll state d commit_address mode signature = do
    time ← drawing h.iso_time
    let r = roll_record d commit_address time mode signature
    save_state h (push_roll state r)
    return r

  unfoldable pub cmd_roll : Option (List ℕ) → Command Roll
  cmd_roll memo = do
    (state, payer, d) ← prepare_roll dice memo
    (signature, commit_address) ← build_and_send (λ w.
        build_commit_proof_ix sol (h.rpc w) h.program ed (commit_input sol payer state.label d))
    record_roll state d (h.to_base58 commit_address) none none

  unfoldable pub cmd_roll_with_beta : Option (List ℕ) → Command Roll
  cmd_roll_with_beta memo = do
    (state, payer, d) ← prepare_roll dice_beta memo
    (signature, commit_address) ← build_and_send (λ w.
        build_commit_proof_with_beta_ix sol (h.rpc w) h.program ed
          (commit_input sol payer state.label d) d.beta)
    record_roll state d (h.to_base58 commit_address) (some pda_beta) (some signature)

  unfoldable pub cmd_roll_event : Option (List ℕ) → Command Roll
  cmd_roll_event memo = do
    (state, payer, d) ← prepare_roll dice_evt memo
    (signature, u) ← build_and_send (λ w. alone (
        build_commit_proof_event_ix sol (h.rpc w) h.program ed
          (commit_input sol payer state.label d)))
    record_roll state d event_mode_address (some event) (some signature)

  -- `fetchAuthority` on what the RPC answers now, and its test.
  unfoldable pub find_authority : sol.PublicKey → DemoState → Command (FetchedAuthority sol)
  find_authority payer state = do
    found ←
        reading
          (λ w. from_client (fetch_authority sol (h.rpc w) h.program payer (string state.label)))
    lift (or_missing authority_missing found)

  unfoldable pub cmd_verify : Option (List ℕ) → Command VerifyAuthorityCommitEndToEndResult
  cmd_verify memo = do
    state ← reading (λ w. ok (load_state h w))
    target ← lift (target_memo state memo)
    stored ← lift (stored_roll state target)
    payer ← reading h.load_payer
    auth ← find_authority payer state
    found ← reading (λ w.
        from_client
          (fetch_proof_commit sol (h.rpc w) h.program auth.authority_address (string target)))
    commit ← lift (or_missing commit_missing found)
    input ← lift (check_input sol auth payer state stored target commit.on_chain_commit none)
    lift (from_client (verify_authority_commit_end_to_end sol ed input))

  unfoldable pub cmd_verify_with_beta :
      Option (List ℕ) → Command VerifyAuthorityCommitEndToEndResult
  cmd_verify_with_beta memo = do
    state ← reading (λ w. ok (load_state h w))
    target ← lift (target_memo state memo)
    stored ← lift (stored_roll state target)
    payer ← reading h.load_payer
    auth ← find_authority payer state
    found ← reading (λ w. from_client (
        fetch_proof_commit_with_beta sol (h.rpc w) h.program auth.authority_address
          (string target)))
    commit ← lift (or_missing commit_missing found)
    input ←
        lift
          (check_input sol auth payer state stored target commit.on_chain_commit (some commit.beta))
    lift (from_client (verify_authority_commit_end_to_end sol ed input))

  unfoldable pub cmd_verify_event : Option (List ℕ) → Command VerifyAuthorityCommitEndToEndResult
  cmd_verify_event memo = do
    state ← reading (λ w. ok (load_state h w))
    target ← lift (target_memo state memo)
    stored ← lift (stored_roll state target)
    payer ← reading h.load_payer
    auth ← find_authority payer state
    events ← reading (λ w. from_client (
        fetch_proof_commit_events sol h.program (h.connection w) payer (string state.label)
          (string target) (record { signature = none; limit = none })))
    require (ltb 0 (length events)) no_events
    proof ← lift (from_vrf (hex_to_bytes stored.proof))
    let picked = pick_canonical_commit sol (map (λ e. e.on_chain_commit) events) proof
    row ← lift (or_missing exited picked.canonical)
    input ← lift (check_input sol auth payer state stored target row none)
    lift (from_client (verify_authority_commit_end_to_end sol ed input))
