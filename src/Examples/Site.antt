-- ===== src/Examples/Site.antt =====
-- The pages of the website on the toy platform and the toy curve.
use cc_vrf.Common.{
  sym, ap, ◌∙◌, get_or, some_injective, ℕ, ◌≡◌, refl, List, [], ◌∷◌, Bytes, true, false, Option,
  none, some, ok, replicate, arith,
}
use cc_vrf.Client.Addresses.{
  memo_hash, proof_hash, alpha_hash, derive_proof_commit_address, derive_authority_address,
  encode_label, label_bytes,
}
use cc_vrf.Client.Operations.{
  Program, fetch_proof_commit, FetchedAuthority, fetch_authority, authority_of_account,
}
use cc_vrf.Client.Events.{Connection}
use cc_vrf.Client.Platform.{string}
use cc_vrf.Client.Verify.{
  VerifyAuthorityCommitEndToEndInput, VerifyAuthorityCommitEndToEndResult,
  verify_authority_commit_end_to_end,
}
use cc_vrf.Client.Verify.Checks.{verify_end_to_end_valid}
use cc_vrf.Client.Verify.Authority.{authority_made}
use cc_vrf.Examples.Proofs.{proof, alpha}
use cc_vrf.Website.Soundness.{IsVerified, run_verify-IsVerified}
use cc_vrf.Ecvrf.Encoding.{
  hex_to_bytes, is_hex_digit, digit_value, bytes_to_hex, bytes_to_big_int_le,
}
use cc_vrf.Ecvrf.HashToCurve.{encode_to_curve_tai, try_counters, candidate}
use cc_vrf.Ecvrf.Keypair.{clamp, derive_scalar, generate_key_pair, generate_nonce}
use cc_vrf.Examples.Network.{
  sol, is_platform, rpc, program, input, check, base_check, checked, accepted, auth, decoded, label,
}
use cc_vrf.Examples.Toy.{toy, toy_noble, toy_edwards, toy_point}
use cc_vrf.Website.ClientDemo.{ShownRoll, DemoPage, open_page, do_roll}
use cc_vrf.Website.ClientDemo.Fair.{IsFair}
use cc_vrf.Website.ClientDemo.Life.{
  here, next, roll, IsFairPage, rolled, Reach-IsFairPage, do_roll_makes,
}
use cc_vrf.Website.Lookup.{
  AuthorityRow, lookup, try_lookup, set_lookup, authority_row_of, label_text, label_end,
}
use cc_vrf.Website.Lookup.Label.{HonestFor, EndsNonzero, lookup-label_text}
use cc_vrf.Website.Verify.{
  Form, registry, PageState, VerifyOutcome, run_verify, try_verify, parse_form, find_commit, show,
  check_of, FoundCommit, Request, hex_or_null, trim, trim_start, is_space,
}

abbrev seed : Bytes
seed = replicate 32 7

abbrev secret : ℕ
secret = 0x4101010101010101010101010101010101010101010101010101010101010100

abbrev page : DemoPage
page = record {
  sk = seed;
  pk = toy.to_bytes secret;
  memo = b'm' ∷ [];
  latest = none;
  history = [];
  running = false;
}

opened : open_page sol toy seed (b'm' ∷ []) ≡ ok page
unfolding open_page generate_key_pair derive_scalar clamp bytes_to_big_int_le
opened = refl

fair_page : IsFairPage sol toy toy_noble toy_edwards page
fair_page = Reach-IsFairPage sol toy toy_noble toy_edwards seed (b'm' ∷ []) page page opened here

abbrev hashed : ℕ
hashed = 0x0808080808080808080808080808080808080808080808080808080808080808

hashes : encode_to_curve_tai toy page.pk (sol.sha256 (sol.utf8 page.memo)) ≡ ok hashed
unfolding encode_to_curve_tai try_counters toy_point candidate bytes_to_big_int_le
hashes = refl

abbrev nonce : ℕ
nonce = 0x0101010101010101010101010101010101010101010101010101010101010101

made_nonce : generate_nonce toy page.sk (toy.to_bytes hashed) ≡ ok nonce
unfolding generate_nonce bytes_to_big_int_le
made_nonce = refl

abbrev after : DemoPage
after = do_roll sol toy (b'n' ∷ []) page

Reach-IsFairPage_example : IsFairPage sol toy toy_noble toy_edwards after
Reach-IsFairPage_example =
    Reach-IsFairPage sol toy toy_noble toy_edwards seed (b'm' ∷ []) page after opened
      (next here (roll (b'n' ∷ []) refl (λ e. cc)))

do_roll_makes_example :
    (r : ShownRoll) × IsFair sol toy toy_noble toy_edwards page.pk r
    × (r.memo ≡ page.memo)
    × (do_roll sol toy (b'n' ∷ []) page ≡ rolled sol toy toy_noble toy_edwards (b'n' ∷ []) page r)
do_roll_makes_example =
    do_roll_makes sol toy toy_noble toy_edwards (b'n' ∷ []) page hashed nonce fair_page hashes
      made_nonce (omega arith)

abbrev parse_key : List ℕ → Option ℕ
parse_key text = some 1

abbrev decode : Bytes → List ℕ
decode bytes = bytes

abbrev row : AuthorityRow sol parse_key decode
row = record {
  authority_address = 100;
  owner = 1;
  pk_hex = bytes_to_hex decoded.pk;
  suite = 3;
  frozen = true;
  revoked = false;
  label = label;
  label_hex = bytes_to_hex label;
}

looked_up : (lookup sol parse_key decode rpc program (b'k' ∷ []) label).result ≡ some row
unfolding lookup set_lookup try_lookup authority_row_of label_text label_end trim trim_start
    is_space fetch_authority authority_of_account label_bytes encode_label derive_authority_address
looked_up = refl

found : fetch_authority sol rpc program 1 (string label) ≡ ok (some auth)
unfolding fetch_authority authority_of_account label_bytes encode_label derive_authority_address
found = refl

honest_label : HonestFor sol parse_key decode rpc program (b'k' ∷ []) label
honest_label owner_pk a is e =
    let one : 1 ≡ owner_pk = some_injective is in
    let same : auth ≡ a = same_record owner_pk a one e in
    (ap (λ b. b.decoded.owner) (sym same) ∙ one, rw (← same) padded)
  where
    padded : label_bytes sol (string label) ≡ ok label
    padded = unfold label_bytes encode_label in refl

    same_record :
        (k : ℕ) (a : FetchedAuthority sol)
        → 1 ≡ k
        → fetch_authority sol rpc program k (string label) ≡ ok (some a)
        → auth ≡ a
    same_record k a one e = cc (found, e)

ends : EndsNonzero (sol.utf8 label)
ends n e =
    let last : 31 ≡ n = omega arith in
    λ zero. omega (arith, zero, ap (λ (m : ℕ). get_or label m 0) last)

lookup-label_text_example : (parse_key (trim (b'k' ∷ [])) ≡ some 1) × (row.label ≡ sol.utf8 label)
lookup-label_text_example =
    lookup-label_text sol parse_key decode rpc program (b'k' ∷ []) label row honest_label ends
      looked_up

abbrev storing : Program sol
storing = record program {
  decode_proof_commit = λ bytes. ok (record {
    authority = 100;
    memo_hash = memo_hash sol input.memo;
    proof_hash = proof_hash sol input.proof;
    alpha_hash = alpha_hash sol input.alpha;
    committed_slot = 77;
  });
}

abbrev no_events_found : Connection sol
no_events_found = record {
  get_transaction = λ s. ok none;
  get_signatures_for_address = λ a n b. ok [];
  parse_logs = λ logs. [];
}

abbrev form : Form
form = record {
  owner = b'k' ∷ [];
  label = label;
  memo = b'm' ∷ [];
  proof_hex = bytes_to_hex proof;
  alpha_hex = bytes_to_hex alpha;
  mode = registry;
}

abbrev request : Request sol
request = record { owner = 1; proof = proof; alpha = alpha }

abbrev read_commit : FoundCommit sol
read_commit = record {
  on_chain_commit = check.on_chain_commit;
  on_chain_beta = none;
  duplicate_memo_events = none;
  candidate_count = none;
}

abbrev site_check : VerifyAuthorityCommitEndToEndInput sol
site_check = check_of sol parse_key rpc storing no_events_found form request auth read_commit

site_result :
    (r : VerifyAuthorityCommitEndToEndResult) × (verify_authority_commit_end_to_end sol toy
        site_check
      ≡ ok r)
    × (r.valid ≡ true)
unfolding derive_authority_address
site_result = (_, authority_made sol toy site_check accepted.1 refl, rw base_valid refl)
  where
    base_valid : accepted.0.valid ≡ true
    base_valid = (verify_end_to_end_valid sol toy base_check accepted.0 accepted.1).0.1 checked

parsed : parse_form sol parse_key form ≡ ok request
unfolding parse_form trim trim_start is_space hex_to_bytes is_hex_digit digit_value bytes_to_hex
parsed = refl

read :
    find_commit sol parse_key rpc storing no_events_found form request auth registry
    ≡ ok read_commit
unfolding find_commit fetch_proof_commit derive_proof_commit_address memo_hash
read = refl

abbrev outcome : VerifyOutcome sol
outcome = record {
  result = site_result.0;
  authority_address = 100;
  pk_hex = bytes_to_hex decoded.pk;
  beta_hex = hex_or_null site_result.0.base.beta;
  mode = registry;
  duplicate_memo_events = none;
  candidate_count = none;
}

fetched : fetch_authority sol rpc storing 1 (string label) ≡ ok (some auth)
unfolding fetch_authority authority_of_account label_bytes encode_label derive_authority_address
fetched = refl

verified_form : try_verify sol parse_key rpc storing no_events_found toy form ≡ ok outcome
unfolding try_verify
verified_form = rw (parsed, fetched, read, site_result.1) refl

abbrev idle : PageState sol
idle = record { loading = false; error = none; outcome = none }

abbrev shown : PageState sol
shown = run_verify sol parse_key rpc storing no_events_found toy form idle

is_shown : shown.outcome ≡ some outcome
unfolding run_verify show
is_shown = ap (λ answer. (show sol answer idle).outcome) verified_form

run_verify-IsVerified_example :
    (shown.error ≡ none)
    × (shown.loading ≡ false)
    × IsVerified sol parse_key rpc storing no_events_found is_platform toy form outcome
run_verify-IsVerified_example =
    run_verify-IsVerified sol parse_key rpc storing no_events_found is_platform toy form idle
      outcome is_shown site_result.2
