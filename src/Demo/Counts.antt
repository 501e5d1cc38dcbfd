-- ===== src/Demo/Counts.antt =====
-- What the commands that repeat report.
use cc_vrf.Common.{
  ℕ, zero, suc, ◌+◌, ◌<◌, ◌≡◌, refl, sym, ap, subst, ◌∙◌, List, Bytes, [], ◌∷◌, All, length, Bool,
  true, false, Option, none, some, ◌==◌, ==_iff, ◌&&◌, &&-eq-true, ◌↔◌, Result, ok, err, arith,
}
use cc_vrf.Client.Platform.{Platform}
use cc_vrf.Client.Verify.{VerifyAuthorityCommitEndToEndResult}
use cc_vrf.Demo.Commands.{cmd_roll, cmd_verify}
use cc_vrf.Demo.Draw.{secret_key}
use cc_vrf.Demo.Host.{
  DemoError, DemoState, Roll, Host, bind, ◌>>=◌, ◌>>◌, return, require, already_initialised,
  not_initialised, no_memo, unknown_memo, authority_missing, commit_missing, no_events,
  bad_hex_number, client, ecvrf, host, exited, bad_count, bad_price, from_vrf, load_state,
}
use cc_vrf.Demo.Loops.{
  Tally, ModeCost, count_round, repeat, Command, simulate_round, simulate_event_round, cmd_simulate,
  cmd_simulate_event, attempt, is_count, rounds_of, measure, cmd_cost, sim, caught, measure_modes,
  report_costs, cost_round_pda, cost_round_beta, cost_round_event,
}
use cc_vrf.Demo.Steps.{err_not_ok, bind-eq-ok, lift-eq-ok, ok_and_world, require-eq-ok}
use cc_vrf.Ecvrf.Curve.{Curve}
use cc_vrf.Ecvrf.Encoding.{hex_to_bytes}

module _ (sol : Platform) (ed : Curve) (h : Host sol) where
  abbrev total : Tally → ℕ
  total t = t.passed + t.failed

  total-count_round : (good : Bool) (t : Tally) → total (count_round good t) ≡ suc (total t)
  unfolding count_round
  total-count_round true t = omega arith
  total-count_round false t = omega arith

  total-repeat :
      (round : ℕ → Command sol ed h Bool) (n i : ℕ) (t : Tally) (w : h.World) {t' : Tally}
      {w' : h.World}
      → repeat sol ed h round n i t w ≡ (ok t', w')
      → total t' ≡ total t + n
  unfolding repeat
  total-repeat round zero i t w e =
      let (is, at) = ok_and_world e in omega (arith, ap total (sym is))
  total-repeat round (suc n) i t w e =
      let (good, v, e1, r1) = bind-eq-ok (round i w) _ e in
      omega
        (arith, total-repeat round n (suc i) (count_round good t) v r1, total-count_round good t)

  -- The body of both simulations.
  abbrev simulation : (ℕ → Command sol ed h Bool) → Option ℕ → Command sol ed h Tally
  simulation round n = do
    require (is_count n) bad_count
    t ← repeat sol ed h round (rounds_of n) 0 (record { passed = 0; failed = 0 })
    require (t.failed == 0) exited
    return t

  simulation_counts :
      (round : ℕ → Command sol ed h Bool) (n : Option ℕ) (w : h.World) {t : Tally} {w' : h.World}
      → simulation round n w ≡ (ok t, w')
      → (0 < rounds_of n) × (t.passed ≡ rounds_of n) × (t.failed ≡ 0)
  simulation_counts round n w {t} e =
      let (u, w1, e1, r1) = bind-eq-ok (require (is_count n) bad_count w) _ e in
      let (valid, at1) = require-eq-ok (is_count n) bad_count w e1 in
      let (t', w2, e2, r2) = bind-eq-ok (repeat sol ed h round (rounds_of n) 0 _ w1) _ r1 in
      let (u', w3, e3, r3) = bind-eq-ok (require (t'.failed == 0) exited w2) _ r2 in
      let (none_failed, at3) = require-eq-ok (t'.failed == 0) exited w2 e3 in
      let (is, at) = ok_and_world r3 in
      let counted = total-repeat round (rounds_of n) 0 _ w1 e2 in
      let no_failure = (==_iff t'.failed 0).0 none_failed in
      (
        positive n valid,
        sym (ap (λ x. x.passed) is) ∙ omega (arith, counted, no_failure),
        sym (ap (λ x. x.failed) is) ∙ no_failure,
      )
    where
      positive : (n : Option ℕ) → is_count n ≡ true → 0 < rounds_of n
      positive none e = cc
      positive (some n) e = ground arith

  -- A simulation of either kind that returns.
  pub data Simulates (n : Option ℕ) (w w' : h.World) (t : Tally) : Type 0 where
    by_row : cmd_simulate sol ed h n w ≡ (ok t, w') → Simulates n w w' t
    by_event : cmd_simulate_event sol ed h n w ≡ (ok t, w') → Simulates n w w' t

  -- A simulation, with cmd_simulate or with cmd_simulate_event, that ends with success has been
  -- asked for at least one round, and has counted every round as passed and none as failed.
  pub cmd_simulate_counts :
      (n : Option ℕ) (w w' : h.World) (t : Tally)
      → Simulates n w w' t
      → (0 < rounds_of n) × (t.passed ≡ rounds_of n) × (t.failed ≡ 0)
  unfolding cmd_simulate cmd_simulate_event
  cmd_simulate_counts n w w' t (by_row e) = simulation_counts (simulate_round sol ed h) n w e
  cmd_simulate_counts n w w' t (by_event e) =
      simulation_counts (simulate_event_round sol ed h) n w e

  false_not_true : ¬ Path (Result DemoError Bool) (ok false) (ok true)
  false_not_true e = cc

  -- No error counts as passed.
  caught_fails :
      (A : Type 0) (x : DemoError) (w : h.World) {w' : h.World}
      → ¬ (caught sol ed h {A = A} (err x, w) ≡ (ok true, w'))
  caught_fails A exited w e = err_not_ok (ap (λ q. q.0) e)
  caught_fails A already_initialised w e = false_not_true (ap (λ q. q.0) e)
  caught_fails A not_initialised w e = false_not_true (ap (λ q. q.0) e)
  caught_fails A no_memo w e = false_not_true (ap (λ q. q.0) e)
  caught_fails A unknown_memo w e = false_not_true (ap (λ q. q.0) e)
  caught_fails A authority_missing w e = false_not_true (ap (λ q. q.0) e)
  caught_fails A commit_missing w e = false_not_true (ap (λ q. q.0) e)
  caught_fails A no_events w e = false_not_true (ap (λ q. q.0) e)
  caught_fails A bad_count w e = false_not_true (ap (λ q. q.0) e)
  caught_fails A bad_price w e = false_not_true (ap (λ q. q.0) e)
  caught_fails A bad_hex_number w e = false_not_true (ap (λ q. q.0) e)
  caught_fails A (client x) w e = false_not_true (ap (λ q. q.0) e)
  caught_fails A (ecvrf x) w e = false_not_true (ap (λ q. q.0) e)
  caught_fails A (host n) w e = false_not_true (ap (λ q. q.0) e)

  caught-eq-true :
      {A : Type 0} (p : Result DemoError A × h.World) {w' : h.World}
      → caught sol ed h p ≡ (ok true, w')
      → (a : A) × (p ≡ (ok a, w'))
  caught-eq-true (ok a, w) e = (a, ap (λ (x : h.World). (ok a, x)) (ap (λ q. q.1) e))
  caught-eq-true {A} (err x, w) e = absurd (caught_fails A x w e)

  -- A round of cmd_simulate counts as passed exactly when its roll succeeds and its verification then
  -- returns a result, whatever the result is; it does not matter whether it is valid.
  pub simulate_round_passed_iff :
      (i : ℕ) (w w' : h.World)
      → let (memo, w1) = h.numbered_memo sim i w in
        (simulate_round sol ed h i w ≡ (ok true, w')) ↔ (
          (r : Roll) × (v : h.World) × (result : VerifyAuthorityCommitEndToEndResult) × (cmd_roll
              sol ed h
              (some memo)
              w1
            ≡ (ok r, v))
          × (cmd_verify sol ed h (some memo) v ≡ (ok result, w')))
  unfolding simulate_round attempt
  simulate_round_passed_iff i w w' =
      let (memo, w1) = h.numbered_memo sim i w in
      let verify = λ (r : Roll). cmd_verify sol ed h (some memo) in
      let rolled = cmd_roll sol ed h (some memo) w1 in
      (
        (λ e.
            let (result, both) = caught-eq-true (bind rolled verify) e in
            let (r, v, e1, e2) = bind-eq-ok rolled verify both in (r, v, result, e1, e2)),
        (λ (r, v, result, e1, e2).
            ap (λ p. caught sol ed h (bind p verify)) e1 ∙ ap (caught sol ed h) e2),
      )

  measure_counts :
      (payer : sol.PublicKey) (round : ℕ → Command sol ed h Bool) (n : ℕ) (w : h.World)
      {m : ModeCost} {w' : h.World}
      → measure sol ed h payer round n w ≡ (ok m, w')
      → total m.tally ≡ n
  unfolding measure
  measure_counts payer round n w e =
      let (before, e1, r1) = lift-eq-ok (h.get_balance w payer) w _ e in
      let (t, v, e2, r2) = bind-eq-ok (repeat sol ed h round n 0 _ w) _ r1 in
      let (after, e3, r3) = lift-eq-ok (h.get_balance v payer) v _ r2 in
      let (is, at) = ok_and_world r3 in
      omega (arith, total-repeat round n 0 _ w e2, ap (λ m. total m.tally) (sym is))

  abbrev pub Complete : ℕ → ModeCost → Type 0
  Complete n m = (m.tally.passed ≡ n) × (m.tally.failed ≡ 0)

  measure_modes_counts :
      (state : DemoState) (sk : Bytes) (payer : sol.PublicKey) (n : ℕ) (w : h.World)
      {plain beta logged : ModeCost} {w' : h.World}
      → measure_modes sol ed h state sk payer n w ≡ (ok (plain, beta, logged), w')
      → (total plain.tally ≡ n) × (total beta.tally ≡ n) × (total logged.tally ≡ n)
  unfolding measure_modes
  measure_modes_counts state sk payer n w e =
      let round1 = cost_round_pda sol ed h state sk payer in
      let round2 = cost_round_beta sol ed h state sk payer in
      let round3 = cost_round_event sol ed h state sk payer in
      let (a, w1, e1, r1) = bind-eq-ok (measure sol ed h payer round1 n w) _ e in
      let (b, w2, e2, r2) = bind-eq-ok (measure sol ed h payer round2 n w1) _ r1 in
      let (c, w3, e3, r3) = bind-eq-ok (measure sol ed h payer round3 n w2) _ r2 in
      let (is, at) = ok_and_world r3 in
      (
        ap (λ t. total t.0.tally) (sym is) ∙ measure_counts payer round1 n w e1,
        ap (λ t. total t.1.tally) (sym is) ∙ measure_counts payer round2 n w1 e2,
        ap (λ t. total t.2.tally) (sym is) ∙ measure_counts payer round3 n w2 e3,
      )

  complete :
      (n : ℕ) (m : ModeCost) → total m.tally ≡ n → (m.tally.failed == 0) ≡ true → Complete n m
  complete n m counted good =
      let no_failure = (==_iff m.tally.failed 0).0 good in
      (omega (arith, counted, no_failure), no_failure)

  report_costs_counts :
      (n : ℕ) (plain beta logged : ModeCost) (w : h.World) {costs : List ModeCost} {w' : h.World}
      → total plain.tally ≡ n
      → total beta.tally ≡ n
      → total logged.tally ≡ n
      → report_costs sol ed h plain beta logged w ≡ (ok costs, w')
      → All (Complete n) costs × (length costs ≡ 3)
  unfolding report_costs
  report_costs_counts n plain beta logged w counted1 counted2 counted3 e =
      let first = plain.tally.failed == 0 in
      let second = beta.tally.failed == 0 in
      let third = logged.tally.failed == 0 in
      let costs' = plain ∷ beta ∷ logged ∷ [] in
      let (u, w1, e1, r1) = bind-eq-ok (require (first && (second && third)) exited w) _ e in
      let (good, at) = require-eq-ok (first && (second && third)) exited w e1 in
      let (good1, good23) = &&-eq-true first (second && third) good in
      let (good2, good3) = &&-eq-true second third good23 in
      let (is, at') = ok_and_world {a = costs'} r1 in
      subst (λ cs. All (Complete n) cs × (length cs ≡ 3)) is
        (
          (
            complete n plain counted1 good1,
            (complete n beta counted2 good2, (complete n logged counted3 good3, tt)),
          ),
          refl,
        )

  -- A cost measurement that ends with success reports three modes, and for each of them every round
  -- as passed and none as failed.
  pub cmd_cost_counts :
      (n : Option ℕ) (positive_price : Bool) (w : h.World) {costs : List ModeCost} {w' : h.World}
      → cmd_cost sol ed h n positive_price w ≡ (ok costs, w')
      → All (Complete (rounds_of n)) costs × (length costs ≡ 3)
  unfolding cmd_cost
  cmd_cost_counts n positive_price w e =
      let (u, w1, e1, r1) = bind-eq-ok (require (is_count n) bad_count w) _ e in
      let (u2, w2, e2, r2) = bind-eq-ok (require positive_price bad_price w1) _ r1 in
      let (key, e3, r3) = lift-eq-ok (secret_key (load_state h w2)) w2 _ r2 in
      let (sk, e4, r4) = lift-eq-ok (from_vrf (hex_to_bytes key)) w2 _ r3 in
      let (payer, e5, r5) = lift-eq-ok (h.load_payer w2) w2 _ r4 in
      let (balance, e6, r6) = lift-eq-ok (h.get_balance w2 payer) w2 _ r5 in
      let ((plain, beta, logged), w7, e7, r7) =
        bind-eq-ok (measure_modes sol ed h (load_state h w2) sk payer (rounds_of n) w2) _ r6 in
      let (counted1, counted2, counted3) =
        measure_modes_counts (load_state h w2) sk payer (rounds_of n) w2 e7 in
      report_costs_counts (rounds_of n) plain beta logged w7 counted1 counted2 counted3 r7
