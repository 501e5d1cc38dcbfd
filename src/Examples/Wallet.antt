-- ===== src/Examples/Wallet.antt =====
-- The wallet demo of the website on the toy host.
use cc_vrf.Common.{◌≡◌, refl, [], ◌∷◌, true, false, none, some, ok, err, replicate}
use cc_vrf.Client.Addresses.{
  derive_authority_address, derive_proof_commit_address, encode_label, label_bytes, memo_hash,
  proof_hash, alpha_hash,
}
use cc_vrf.Client.Light.{build_commit_proof_context}
use cc_vrf.Client.Operations.{
  Program, authority_of_account, fetch_authority, fetch_proof_commit, assert_authority_can_commit,
  assert_proof_matches_authority, build_commit_proof_ix,
}
use cc_vrf.Client.Platform.{authority_not_found}
use cc_vrf.Client.Verify.{verify_end_to_end, verify_authority_commit_end_to_end}
use cc_vrf.Demo.Commands.{build_and_send}
use cc_vrf.Demo.Draw.{Draw, roll_value, make_draw}
use cc_vrf.Demo.Host.{Host}
use cc_vrf.Ecvrf.Encoding.{
  bytes_equal, diff_loop, bytes_to_big_int_le, bytes_to_hex, digit_value, concat_bytes,
  big_int_to_bytes_le,
}
use cc_vrf.Ecvrf.HashToCurve.{encode_to_curve_tai, try_counters, candidate}
use cc_vrf.Ecvrf.Keypair.{clamp, derive_scalar, generate_nonce}
use cc_vrf.Ecvrf.Prove.{prove_vrf, prove_with_nonce}
use cc_vrf.Ecvrf.Prove.Challenge.{challenge_generation}
use cc_vrf.Ecvrf.Verify.{verify_vrf, check_equations, multiply_or_zero, vrf_proof_to_hash}
use cc_vrf.Examples.Dice.{World, world0, host}
use cc_vrf.Examples.Network.{sol, is_platform, decoded, label}
use cc_vrf.Examples.Proofs.{x}
use cc_vrf.Examples.Toy.{toy, toy_point, toy_bytes}
use cc_vrf.Website.WalletDemo.{WalletRoll, WalletPage, roll_and_check, set_rolled, roll_once}
use cc_vrf.Website.WalletDemo.Check.{check_commit, check_found, check_fetched, read_and_check}
use cc_vrf.Website.WalletDemo.Sound.{IsConfirmed, roll_once-IsConfirmed}

-- The record that the RPC answers with is the commit of the memo "web-".
abbrev program : Program sol
program = record {
  program_id = 9;
  decode_authority = λ bytes. ok (record decoded { pk = toy_bytes x });
  decode_proof_commit = λ bytes. ok (record {
    authority = 100;
    memo_hash = replicate 32 4;
    proof_hash = replicate 32 80;
    alpha_hash = replicate 32 32;
    committed_slot = 8;
  });
  decode_proof_commit_with_beta = λ bytes. err authority_not_found;
}

abbrev wallet : Host sol
wallet = record host { program = program }

abbrev page : WalletPage
page = record {
  sk = replicate 32 7;
  pk = toy_bytes x;
  label = label;
  authority_exists = some true;
  busy = false;
  error = none;
  rolls = [];
}

rolled :
    (r : WalletRoll) × (after : WalletPage) × (w : World) × (roll_once sol toy wallet
        (some 1)
        page
        world0
      ≡ (after, w))
    × (after.rolls ≡ r ∷ [])
    × (r.verify_valid ≡ true)
unfolding roll_once set_rolled roll_and_check read_and_check check_fetched check_found check_commit
    build_and_send make_draw prove_vrf derive_scalar clamp encode_to_curve_tai try_counters
    toy_point toy_bytes candidate bytes_to_big_int_le generate_nonce prove_with_nonce
    challenge_generation big_int_to_bytes_le concat_bytes vrf_proof_to_hash roll_value bytes_to_hex
    digit_value build_commit_proof_ix fetch_authority authority_of_account label_bytes encode_label
    derive_authority_address assert_authority_can_commit assert_proof_matches_authority verify_vrf
    check_equations multiply_or_zero derive_proof_commit_address build_commit_proof_context
    memo_hash proof_hash alpha_hash fetch_proof_commit verify_authority_commit_end_to_end
    verify_end_to_end bytes_equal diff_loop
rolled = (_, _, _, refl, refl, refl)

roll_once-IsConfirmed_example :
    (rolled.1.error ≡ none)
    × (rolled.1.busy ≡ false)
    × ((d : Draw) × (make_draw sol toy page.sk rolled.0.memo ≡ ok d)
        × (rolled.0.roll_value ≡ d.value)
        × IsConfirmed sol is_platform toy (wallet.rpc rolled.2) program 1 label d)
roll_once-IsConfirmed_example =
    roll_once-IsConfirmed sol is_platform toy wallet 1 page rolled.1 world0 rolled.2 rolled.0
      rolled.3 rolled.4 rolled.5
