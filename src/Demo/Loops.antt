-- ===== src/Demo/Loops.antt =====
-- apps/dice-demo/src/commands.ts: the commands that repeat, for a whole number of rounds, and the
-- one that prints the state. A number that is not finite is none.
use cc_vrf.Common.{
  ℕ, zero, suc, List, [], ◌∷◌, Bytes, Bool, true, false, Option, none, some, ◌==◌, ltb, Result, ok,
  err, if◌then◌else◌, ◌&&◌,
}
use cc_vrf.Common.{ℤ, sub_ℕ}
use cc_vrf.Client.Operations.{
  CommitProofInput, build_commit_proof_ix, build_commit_proof_with_beta_ix,
  build_commit_proof_event_ix,
}
use cc_vrf.Client.Platform.{Platform, string}
use cc_vrf.Demo.Commands.{
  build_and_send, alone, cmd_roll, cmd_verify, cmd_roll_event, cmd_verify_event,
}
use cc_vrf.Demo.Draw.{secret_key}
use cc_vrf.Demo.Host.{
  DemoError, bad_count, bad_price, exited, DemoState, Roll, Host, ◌>>=◌, ◌>>◌, return, require,
  reading, drawing, from_vrf, load_state,
}
use cc_vrf.Ecvrf.Curve.{Curve}
use cc_vrf.Ecvrf.Encoding.{hex_to_bytes}
use cc_vrf.Ecvrf.Prove.{prove_vrf}
use cc_vrf.Ecvrf.Verify.{vrf_proof_to_hash}

-- "sim-" and so on
abbrev pub sim : List ℕ
sim = b's' ∷ b'i' ∷ b'm' ∷ b'-' ∷ []

abbrev sim_evt : List ℕ
sim_evt = b's' ∷ b'i' ∷ b'm' ∷ b'-' ∷ b'e' ∷ b'v' ∷ b't' ∷ b'-' ∷ []

abbrev cost_pda : List ℕ
cost_pda = b'c' ∷ b'o' ∷ b's' ∷ b't' ∷ b'-' ∷ b'p' ∷ b'd' ∷ b'a' ∷ b'-' ∷ []

abbrev cost_beta : List ℕ
cost_beta = b'c' ∷ b'o' ∷ b's' ∷ b't' ∷ b'-' ∷ b'b' ∷ b'e' ∷ b't' ∷ b'a' ∷ b'-' ∷ []

abbrev cost_evt : List ℕ
cost_evt = b'c' ∷ b'o' ∷ b's' ∷ b't' ∷ b'-' ∷ b'e' ∷ b'v' ∷ b't' ∷ b'-' ∷ []

-- `!Number.isFinite(n) || n < 1`, negated
abbrev pub is_count : Option ℕ → Bool
is_count none = false
is_count (some n) = ltb 0 n

abbrev pub rounds_of : Option ℕ → ℕ
rounds_of none = 0
rounds_of (some n) = n

pub record Tally : Type 0 where
  pub passed : ℕ
  pub failed : ℕ

unfoldable pub count_round : Bool → Tally → Tally
count_round good t =
    if good then record t { passed = suc t.passed } else record t { failed = suc t.failed }

-- What `cmdCost` measures of a mode: the rounds, and the lamports that were spent.
pub record ModeCost : Type 0 where
  pub tally : Tally
  pub spent : ℤ

module _ (sol : Platform) (ed : Curve) (h : Host sol) where
  abbrev pub Command : Type 0 → Type 0
  Command A = h.World → Result DemoError A × h.World

  abbrev pub lift : {A : Type 0} → Result DemoError A → Command A
  lift r w = (r, w)

  -- `try { ..; true } catch { false }`
  abbrev pub caught : {A : Type 0} → Result DemoError A × h.World → Result DemoError Bool × h.World
  caught (ok a, w) = (ok true, w)
  caught (err exited, w) = (err exited, w)
  caught (err e, w) = (ok false, w)

  unfoldable pub attempt : {A : Type 0} → Command A → Command Bool
  attempt command w = caught (command w)

  -- `for (let i = 0; i < n; i++)` over a round that tells whether it was good.
  unfoldable pub repeat : (ℕ → Command Bool) → ℕ → ℕ → Tally → Command Tally
  repeat round zero i t = return t
  repeat round (suc k) i t = do good ← round i; repeat round k (suc i) (count_round good t)

  abbrev start : Tally
  start = record { passed = 0; failed = 0 }

  unfoldable pub simulate_round : ℕ → Command Bool
  simulate_round i = do
    memo ← drawing (h.numbered_memo sim i)
    attempt (do r ← cmd_roll sol ed h (some memo); cmd_verify sol ed h (some memo))

  unfoldable pub cmd_simulate : Option ℕ → Command Tally
  cmd_simulate n = do
    require (is_count n) bad_count
    t ← repeat simulate_round (rounds_of n) 0 start
    require (t.failed == 0) exited
    return t

  unfoldable pub simulate_event_round : ℕ → Command Bool
  simulate_event_round i = do
    memo ← drawing (h.numbered_memo sim_evt i)
    attempt (do r ← cmd_roll_event sol ed h (some memo); cmd_verify_event sol ed h (some memo))

  unfoldable pub cmd_simulate_event : Option ℕ → Command Tally
  cmd_simulate_event n = do
    require (is_count n) bad_count
    t ← repeat simulate_event_round (rounds_of n) 0 start
    require (t.failed == 0) exited
    return t

  -- `sha256` of the memo and `proveVRF`, which stand before the `try`.
  unfoldable pub cost_input :
      DemoState → Bytes → sol.PublicKey → List ℕ → Result DemoError (CommitProofInput sol)
  cost_input state sk payer memo =
      let alpha = sol.sha256 (sol.utf8 memo) in
      elim (from_vrf (prove_vrf ed sk alpha)) [
        | ok (proof, gamma) ↦ ok (record {
          owner = payer;
          label = string state.label;
          memo = string memo;
          alpha = alpha;
          proof = proof;
        })
        | err e ↦ err e
      ]

  unfoldable pub cost_round_pda : DemoState → Bytes → sol.PublicKey → ℕ → Command Bool
  cost_round_pda state sk payer i = do
    memo ← drawing (h.numbered_memo cost_pda i)
    input ← lift (cost_input state sk payer memo)
    attempt (build_and_send sol ed h (λ w. build_commit_proof_ix sol (h.rpc w) h.program ed input))

  unfoldable pub cost_round_beta : DemoState → Bytes → sol.PublicKey → ℕ → Command Bool
  cost_round_beta state sk payer i = do
    memo ← drawing (h.numbered_memo cost_beta i)
    input ← lift (cost_input state sk payer memo)
    beta ← lift (from_vrf (vrf_proof_to_hash ed input.proof))
    attempt (
        build_and_send sol ed h
          (λ w. build_commit_proof_with_beta_ix sol (h.rpc w) h.program ed input beta))

  unfoldable pub cost_round_event : DemoState → Bytes → sol.PublicKey → ℕ → Command Bool
  cost_round_event state sk payer i = do
    memo ← drawing (h.numbered_memo cost_evt i)
    input ← lift (cost_input state sk payer memo)
    attempt (
        build_and_send sol ed h
          (λ w. alone sol ed h (build_commit_proof_event_ix sol (h.rpc w) h.program ed input)))

  -- The rounds of a mode, between two readings of the balance.
  unfoldable pub measure : sol.PublicKey → (ℕ → Command Bool) → ℕ → Command ModeCost
  measure payer round n = do
    before ← reading (λ w. h.get_balance w payer)
    t ← repeat round n 0 start
    after ← reading (λ w. h.get_balance w payer)
    return (record { tally = t; spent = sub_ℕ before after })

  -- The three modes, one after another.
  unfoldable pub measure_modes :
      DemoState → Bytes → sol.PublicKey → ℕ → Command (ModeCost × ModeCost × ModeCost)
  measure_modes state sk payer n = do
    plain ← measure payer (cost_round_pda state sk payer) n
    beta ← measure payer (cost_round_beta state sk payer) n
    logged ← measure payer (cost_round_event state sk payer) n
    return (plain, beta, logged)

  -- The end of `cmdCost`.
  unfoldable pub report_costs : ModeCost → ModeCost → ModeCost → Command (List ModeCost)
  report_costs plain beta logged = do
    require (plain.tally.failed == 0 && (beta.tally.failed == 0 && logged.tally.failed == 0)) exited
    return (plain ∷ beta ∷ logged ∷ [])

  -- `positive_price` is `Number.isFinite(solUsd) && solUsd > 0`.
  unfoldable pub cmd_cost : Option ℕ → Bool → Command (List ModeCost)
  cmd_cost n positive_price = do
    require (is_count n) bad_count
    require positive_price bad_price
    state ← reading (λ w. ok (load_state h w))
    key ← lift (secret_key state)
    sk ← lift (from_vrf (hex_to_bytes key))
    payer ← reading h.load_payer
    balance ← reading (λ w. h.get_balance w payer)
    (plain, beta, logged) ← measure_modes state sk payer (rounds_of n)
    report_costs plain beta logged

  -- What `status` prints of the last roll.
  abbrev last_roll : List Roll → Option Roll
  last_roll [] = none
  last_roll (r ∷ []) = some r
  last_roll (r ∷ s ∷ rolls) = last_roll (s ∷ rolls)

  unfoldable pub cmd_status : Command (DemoState × Option Roll)
  cmd_status w = (ok (load_state h w, last_roll (load_state h w).rolls), w)
