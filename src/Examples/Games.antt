-- ===== src/Examples/Games.antt =====
-- The theorems on the dice demo, on the toy host.
use cc_vrf.Common.{ℕ, Bytes, ◌≡◌, ◌≤◌, ◌<◌, ◌+◌, ◌%◌, ◌↔◌, take, true, some, ok, replicate}
use cc_vrf.Demo.Counts.{cmd_simulate_counts, by_row, simulate_round_passed_iff}
use cc_vrf.Demo.Draw.{roll_value, push_roll}
use cc_vrf.Demo.History.{HoldsKey, IsRecorded, Rolls-IsRecorded, plain}
use cc_vrf.Demo.Commands.{cmd_roll, cmd_verify}
use cc_vrf.Client.Verify.{VerifyAuthorityCommitEndToEndResult}
use cc_vrf.Demo.Host.{Roll, load_state}
use cc_vrf.Demo.Life.{here, next, roll, Keeps, Reach-Keeps}
use cc_vrf.Demo.Loops.{simulate_round}
use cc_vrf.Demo.Value.{roll_value_lem}
use cc_vrf.Ecvrf.Encoding.{bytes_to_big_int_be}
use cc_vrf.Examples.Dice.{
  host, is_host, sha256-IsByte, memo, world0, rolled, World, round_memo, round_verified, simulated,
}
use cc_vrf.Examples.Network.{sol}
use cc_vrf.Examples.Toy.{toy, toy_noble, ones, ones-IsByte}

roll_value_lem_example :
    (roll_value ones ≡ ok (bytes_to_big_int_be (take 8 ones) % 100 + 1))
    × ((v : ℕ) → roll_value ones ≡ ok v → (1 ≤ v) × (v ≤ 100))
roll_value_lem_example = roll_value_lem 1 (replicate 63 1) ones-IsByte

Rolls-IsRecorded_example :
    (load_state host rolled.1 ≡ push_roll (load_state host world0) rolled.0)
    × (sk : Bytes) × HoldsKey sol toy (load_state host world0) sk
    × IsRecorded sol toy sk rolled.0
Rolls-IsRecorded_example =
    Rolls-IsRecorded sol toy toy_noble sha256-IsByte host is_host world0 rolled.1 rolled.0
      (plain (some memo) rolled.2)

Reach-Keeps_example :
    Keeps sol toy toy_noble sha256-IsByte host is_host
      (load_state host world0)
      (load_state host rolled.1)
Reach-Keeps_example =
    Reach-Keeps sol toy toy_noble sha256-IsByte host is_host world0 rolled.1
      (next here (roll rolled.0 (plain (some memo) rolled.2)))

cmd_simulate_counts_example : (0 < 1) × (simulated.0.passed ≡ 1) × (simulated.0.failed ≡ 0)
cmd_simulate_counts_example =
    cmd_simulate_counts sol toy host (some 1) world0 simulated.1 simulated.0 (by_row simulated.2)

simulate_round_passed_iff_example :
    (simulate_round sol toy host 0 world0 ≡ (ok true, round_verified.1)) ↔ (
      (r : Roll) × (v : World) × (result : VerifyAuthorityCommitEndToEndResult) × (cmd_roll sol toy
          host
          (some round_memo)
          world0
        ≡ (ok r, v))
      × (cmd_verify sol toy host (some round_memo) v ≡ (ok result, round_verified.1)))
simulate_round_passed_iff_example = simulate_round_passed_iff sol toy host 0 world0 round_verified.1
