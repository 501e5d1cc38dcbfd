-- ===== src/Examples/Dice.antt =====
-- The dice demo on a toy host, whose world is the parsed state file.
use cc_vrf.Common.{
  ℕ, zero, suc, length, ◌≡◌, refl, sym, ap, ◌+◌, ◌%◌, List, [], ◌∷◌, Bytes, IsByte, All, true,
  false, Option, none, some, ok, err, replicate, arith,
}
use cc_vrf.Client.Addresses.{
  derive_proof_commit_with_beta_address, derive_authority_address, derive_proof_commit_address,
  encode_label, label_bytes, memo_hash, proof_hash, alpha_hash,
}
use cc_vrf.Client.Light.{build_commit_proof_context, build_read_only_authority_context}
use cc_vrf.Client.Operations.{
  bytes_equal_early, Program, authority_of_account, fetch_authority, fetch_proof_commit,
  assert_authority_can_commit, assert_proof_matches_authority, build_commit_proof_ix,
  build_commit_proof_with_beta_ix, build_commit_proof_event_ix,
}
use cc_vrf.Client.Platform.{authority_not_found}
use cc_vrf.Demo.Commands.{
  build_and_send, draw_memo, prepare_roll, record_roll, cmd_roll, cmd_verify, find_authority,
}
use cc_vrf.Demo.Loops.{
  Tally, ModeCost, cmd_simulate, simulate_round, attempt, repeat, count_round, cmd_cost,
  measure_modes, report_costs, measure, cost_round_pda, cost_round_beta, cost_round_event,
  cost_input,
}
use cc_vrf.Client.Verify.{
  VerifyAuthorityCommitEndToEndResult, verify_end_to_end, verify_authority_commit_end_to_end,
}
use cc_vrf.Demo.Draw.{
  roll_value, secret_key, make_draw, target_memo, stored_roll, find_roll, check_input,
}
use cc_vrf.Demo.Host.{Roll, DemoState, ParsedState, Host, restore, load_state, save_state}
use cc_vrf.Demo.History.{IsHost, written}
use cc_vrf.Ecvrf.Encoding.{
  bytes_equal, diff_loop, bytes_to_big_int_le, bytes_to_hex, hex_to_bytes, is_hex_digit,
  digit_value, concat_bytes, big_int_to_bytes_le,
}
use cc_vrf.Ecvrf.HashToCurve.{encode_to_curve_tai, try_counters, candidate}
use cc_vrf.Ecvrf.Keypair.{clamp, derive_scalar, generate_nonce}
use cc_vrf.Ecvrf.Prove.{prove_vrf, prove_with_nonce}
use cc_vrf.Ecvrf.Prove.Challenge.{challenge_generation}
use cc_vrf.Ecvrf.Verify.{verify_vrf, check_equations, multiply_or_zero, vrf_proof_to_hash}
use cc_vrf.Examples.Network.{sol, rpc, decoded, label}
use cc_vrf.Examples.Proofs.{x}
use cc_vrf.Examples.Toy.{toy, toy_point, toy_bytes}

abbrev pub World : Type 0
World = Option ParsedState

-- The secret key's 32 bytes are 7; every key of the toy curve has the same scalar.
abbrev sk_hex : List ℕ
sk_hex = bytes_to_hex (replicate 32 7)

abbrev pub state0 : DemoState
state0 = record {
  vrf_sk = some sk_hex;
  vrf_pk = some (b'0' ∷ []);
  label = label;
  program_id_base58 = none;
  owner_pubkey_base58 = none;
  rolls = [];
}

abbrev program : Program sol
program = record {
  program_id = 9;
  decode_authority = λ bytes. ok (record decoded { pk = toy_bytes x });
  decode_proof_commit = λ bytes. ok (record {
    authority = 100;
    memo_hash = [];
    proof_hash = [];
    alpha_hash = [];
    committed_slot = 8;
  });
  decode_proof_commit_with_beta = λ bytes. err authority_not_found;
}

abbrev pub host : Host sol
host = record {
  World = World;
  read_state = λ w. w;
  write_state = λ s w. (ok tt, some (written s));
  load_payer = λ w. ok 1;
  program = program;
  rpc = λ w. rpc;
  connection = λ w. record {
    get_transaction = λ s. ok none;
    get_signatures_for_address = λ a n b. ok [];
    parse_logs = λ logs. [];
  };
  send_and_confirm = λ w ix. (ok (b's' ∷ []), w);
  get_balance = λ w a. ok 1000;
  to_base58 = λ a. a ∷ [];
  random_seed = λ w. (replicate 32 7, w);
  fresh_memo = λ prefix w. (prefix, w);
  numbered_memo = λ prefix i w. ((i + b'0') ∷ prefix, w);
  iso_time = λ w. (b't' ∷ [], w);
}

pub is_host : IsHost host
is_host = record {
  write_stores = λ s w e. sym (ap (λ p. p.1) e);
  send_keeps = λ w ix. refl;
  random_seed_keeps = λ w. refl;
  fresh_memo_keeps = λ prefix w. refl;
  iso_time_keeps = λ w. refl;
}

abbrev pub memo : List ℕ
memo = b'm' ∷ []

pub sha256-IsByte : (m : Bytes) → All IsByte (sol.sha256 m)
sha256-IsByte m = run 32
  where
    run : (n : ℕ) → All IsByte (replicate n (length m % 256))
    run zero = tt
    run (suc n) = (omega arith, run n)

abbrev pub world0 : World
world0 = some (written state0)

pub rolled : (r : Roll) × (w : World) × (cmd_roll sol toy host (some memo) world0 ≡ (ok r, w))
unfolding cmd_roll prepare_roll record_roll build_and_send draw_memo secret_key load_state
    save_state restore hex_to_bytes is_hex_digit digit_value make_draw prove_vrf derive_scalar clamp
    encode_to_curve_tai try_counters toy_point toy_bytes candidate bytes_to_big_int_le
    generate_nonce prove_with_nonce challenge_generation big_int_to_bytes_le concat_bytes
    vrf_proof_to_hash roll_value bytes_to_hex build_commit_proof_ix fetch_authority
    authority_of_account label_bytes encode_label derive_authority_address
    assert_authority_can_commit assert_proof_matches_authority verify_vrf check_equations
    multiply_or_zero derive_proof_commit_address build_commit_proof_context memo_hash
rolled = (_, _, refl)

abbrev pub round_memo : List ℕ
round_memo = b'0' ∷ b's' ∷ b'i' ∷ b'm' ∷ b'-' ∷ []

pub round_rolled :
    (r : Roll) × (w : World) × (cmd_roll sol toy host (some round_memo) world0 ≡ (ok r, w))
unfolding cmd_roll prepare_roll record_roll build_and_send draw_memo secret_key load_state
    save_state restore hex_to_bytes is_hex_digit digit_value make_draw prove_vrf derive_scalar clamp
    encode_to_curve_tai try_counters toy_point toy_bytes candidate bytes_to_big_int_le
    generate_nonce prove_with_nonce challenge_generation big_int_to_bytes_le concat_bytes
    vrf_proof_to_hash roll_value bytes_to_hex build_commit_proof_ix fetch_authority
    authority_of_account label_bytes encode_label derive_authority_address
    assert_authority_can_commit assert_proof_matches_authority verify_vrf check_equations
    multiply_or_zero derive_proof_commit_address build_commit_proof_context memo_hash
round_rolled = (_, _, refl)

pub round_verified :
    (result : VerifyAuthorityCommitEndToEndResult) × (w : World) × (cmd_verify sol toy host
        (some round_memo)
        round_rolled.1
      ≡ (ok result, w))
unfolding round_rolled cmd_roll cmd_verify find_authority target_memo stored_roll find_roll
    check_input fetch_proof_commit verify_authority_commit_end_to_end verify_end_to_end prepare_roll
    record_roll build_and_send draw_memo secret_key load_state save_state restore hex_to_bytes
    is_hex_digit digit_value make_draw prove_vrf derive_scalar clamp encode_to_curve_tai
    try_counters toy_point toy_bytes candidate bytes_to_big_int_le generate_nonce prove_with_nonce
    challenge_generation big_int_to_bytes_le concat_bytes vrf_proof_to_hash roll_value bytes_to_hex
    build_commit_proof_ix fetch_authority authority_of_account label_bytes encode_label
    derive_authority_address assert_authority_can_commit assert_proof_matches_authority verify_vrf
    check_equations multiply_or_zero derive_proof_commit_address build_commit_proof_context
    memo_hash
round_verified = (_, _, refl)

-- The row that the toy RPC has does not match the roll.
round_invalid : round_verified.0.valid ≡ false
unfolding round_verified round_rolled bytes_equal diff_loop proof_hash alpha_hash cmd_roll
    cmd_verify find_authority target_memo stored_roll find_roll check_input fetch_proof_commit
    verify_authority_commit_end_to_end verify_end_to_end prepare_roll record_roll build_and_send
    draw_memo secret_key load_state save_state restore hex_to_bytes is_hex_digit digit_value
    make_draw prove_vrf derive_scalar clamp encode_to_curve_tai try_counters toy_point toy_bytes
    candidate bytes_to_big_int_le generate_nonce prove_with_nonce challenge_generation
    big_int_to_bytes_le concat_bytes vrf_proof_to_hash roll_value bytes_to_hex build_commit_proof_ix
    fetch_authority authority_of_account label_bytes encode_label derive_authority_address
    assert_authority_can_commit assert_proof_matches_authority verify_vrf check_equations
    multiply_or_zero derive_proof_commit_address build_commit_proof_context memo_hash
round_invalid = refl

pub simulated : (t : Tally) × (w : World) × (cmd_simulate sol toy host (some 1) world0 ≡ (ok t, w))
unfolding cmd_simulate simulate_round attempt repeat count_round cmd_roll cmd_verify find_authority
    target_memo stored_roll find_roll check_input fetch_proof_commit
    verify_authority_commit_end_to_end verify_end_to_end prepare_roll record_roll build_and_send
    draw_memo secret_key load_state save_state restore hex_to_bytes is_hex_digit digit_value
    make_draw prove_vrf derive_scalar clamp encode_to_curve_tai try_counters toy_point toy_bytes
    candidate bytes_to_big_int_le generate_nonce prove_with_nonce challenge_generation
    big_int_to_bytes_le concat_bytes vrf_proof_to_hash roll_value bytes_to_hex build_commit_proof_ix
    fetch_authority authority_of_account label_bytes encode_label derive_authority_address
    assert_authority_can_commit assert_proof_matches_authority verify_vrf check_equations
    multiply_or_zero derive_proof_commit_address build_commit_proof_context memo_hash
simulated = (_, _, refl)

pub measured :
    (costs : List ModeCost) × (w : World) × (cmd_cost sol toy host (some 1) true world0
      ≡ (ok costs, w))
unfolding cmd_cost measure_modes report_costs measure cost_round_pda cost_round_beta
    cost_round_event cost_input build_commit_proof_with_beta_ix build_commit_proof_event_ix attempt
    repeat count_round prepare_roll record_roll build_and_send draw_memo secret_key load_state
    save_state restore hex_to_bytes is_hex_digit digit_value make_draw prove_vrf derive_scalar clamp
    encode_to_curve_tai try_counters toy_point toy_bytes candidate bytes_to_big_int_le
    generate_nonce prove_with_nonce challenge_generation big_int_to_bytes_le concat_bytes
    vrf_proof_to_hash roll_value bytes_to_hex build_commit_proof_ix fetch_authority
    authority_of_account label_bytes encode_label derive_authority_address
    assert_authority_can_commit assert_proof_matches_authority verify_vrf check_equations
    multiply_or_zero derive_proof_commit_address build_commit_proof_context memo_hash
    bytes_equal_early derive_proof_commit_with_beta_address build_read_only_authority_context
measured = (_, _, refl)
