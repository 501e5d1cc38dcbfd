-- ===== src/Website/Verify.antt =====
-- apps/website/src/pages/VerifyPage.tsx: `runVerify`. `new PublicKey(text)` is `parse_key`, none where
-- it throws; the program, the RPC and the connection are those of `buildReadOnlyProgram`.
use cc_vrf.Common.{
  ℕ, List, [], ◌∷◌, Bytes, Bool, true, false, not, ◌&&◌, ◌||◌, leb, Option, none, some, length, map,
  ◌==◌, if◌then◌else◌, Result, ok, err, guard, ◌>>=◌, ◌>>◌,
}
use cc_vrf.Client.Events.{Connection, fetch_proof_commit_events}
use cc_vrf.Client.Light.{Rpc}
use cc_vrf.Client.Operations.{
  Program, FetchedAuthority, fetch_authority, fetch_proof_commit, fetch_proof_commit_with_beta,
}
use cc_vrf.Client.Platform.{Platform, ClientError, string}
use cc_vrf.Client.Verify.{
  OnChainCommit, VerifyAuthorityCommitEndToEndInput, VerifyAuthorityCommitEndToEndResult,
  verify_authority_commit_end_to_end, pick_canonical_commit,
}
use cc_vrf.Ecvrf.Curve.{Curve}
use cc_vrf.Ecvrf.Encoding.{hex_to_bytes, bytes_to_hex}
use mathlib.Core.List.{reverse}

pub data PageMode : Type 0 where
  registry registry_beta event : PageMode

-- What the form holds.
pub record Form : Type 0 where
  pub owner : List ℕ
  pub label : List ℕ
  pub memo : List ℕ
  pub proof_hex : List ℕ
  pub alpha_hex : List ℕ
  pub mode : PageMode

pub data PageError : Type 0 where
  invalid_owner label_required memo_required proof_not_hex alpha_required alpha_not_hex : PageError
  proof_not_80 : ℕ → PageError
  authority_not_found no_commit no_commit_with_beta no_events : PageError
  no_match : ℕ → PageError
  thrown : ClientError → PageError

-- White space and line ends, as `String.prototype.trim` takes them.
unfoldable pub is_space : ℕ → Bool
is_space c =
    (leb 9 c && leb c 13)
    || c == 0x20
    || c == 0xa0
    || c == 0x1680
    || (leb 0x2000 c && leb c 0x200a)
    || c == 0x2028
    || c == 0x2029
    || c == 0x202f
    || c == 0x205f
    || c == 0x3000
    || c == 0xfeff

unfoldable pub trim_start : List ℕ → List ℕ
trim_start [] = []
trim_start (c ∷ cs) = let rest = trim_start cs in if is_space c then rest else c ∷ cs

unfoldable pub trim : List ℕ → List ℕ
trim text = reverse (trim_start (reverse (trim_start text)))

abbrev pub is_given : List ℕ → Bool
is_given [] = false
is_given (c ∷ cs) = true

-- `catch { throw new Error(..) }`, and what a call of the client throws
abbrev pub or_error {ℓ κ} : {A : Type ℓ} {E : Type κ} → PageError → Result E A → Result PageError A
or_error e (ok a) = ok a
or_error e (err x) = err e

abbrev pub called {ℓ} : {A : Type ℓ} → Result ClientError A → Result PageError A
called (ok a) = ok a
called (err x) = err (thrown x)

abbrev pub or_absent {ℓ} : {A : Type ℓ} → PageError → Option A → Result PageError A
or_absent e none = err e
or_absent e (some a) = ok a

-- `result.beta ? bytesToHex(result.beta) : null`
abbrev pub hex_or_null : Option Bytes → Option (List ℕ)
hex_or_null none = none
hex_or_null (some beta) = some (bytes_to_hex beta)

module _ (sol : Platform) where
  pub record VerifyOutcome : Type 0 where
    pub result : VerifyAuthorityCommitEndToEndResult
    pub authority_address : sol.PublicKey
    pub pk_hex : List ℕ
    pub beta_hex : Option (List ℕ)
    pub mode : PageMode
    pub duplicate_memo_events : Option Bool
    pub candidate_count : Option ℕ

  -- The variables that the branches on the mode fill.
  pub record FoundCommit : Type 0 where
    pub on_chain_commit : OnChainCommit sol
    pub on_chain_beta : Option Bytes
    pub duplicate_memo_events : Option Bool
    pub candidate_count : Option ℕ

  -- The fields of the form, once parsed.
  pub record Request : Type 0 where
    pub owner : sol.PublicKey
    pub proof : Bytes
    pub alpha : Bytes

  module _ (parse_key : List ℕ → Option sol.PublicKey) where
    unfoldable pub parse_form : Form → Result PageError Request
    parse_form form = do
      owner ← or_absent invalid_owner (parse_key (trim form.owner))
      guard (is_given (trim form.label)) label_required
      guard (is_given form.memo) memo_required
      proof ← or_error proof_not_hex (hex_to_bytes (trim form.proof_hex))
      guard (length proof == 80) (proof_not_80 (length proof))
      guard (is_given (trim form.alpha_hex)) alpha_required
      alpha ← or_error alpha_not_hex (hex_to_bytes (trim form.alpha_hex))
      ok (record { owner = owner; proof = proof; alpha = alpha })

    module _ (rpc : Rpc sol) (program : Program sol) (connection : Connection sol) where
      unfoldable pub find_commit :
          Form → Request → FetchedAuthority sol → PageMode → Result PageError FoundCommit
      find_commit form request auth registry = do
        found ←
            called (fetch_proof_commit sol rpc program auth.authority_address (string form.memo))
        c ← or_absent no_commit found
        ok (record {
          on_chain_commit = c.on_chain_commit;
          on_chain_beta = none;
          duplicate_memo_events = none;
          candidate_count = none;
        })
      find_commit form request auth registry_beta = do
        found ←
            called (
              fetch_proof_commit_with_beta sol rpc program auth.authority_address
                (string form.memo))
        c ← or_absent no_commit_with_beta found
        ok (record {
          on_chain_commit = c.on_chain_commit;
          on_chain_beta = some c.beta;
          duplicate_memo_events = none;
          candidate_count = none;
        })
      find_commit form request auth event = do
        events ← called (
            fetch_proof_commit_events sol program connection request.owner (string form.label)
              (string form.memo) (record { signature = none; limit = none }))
        guard (not (length events == 0)) no_events
        let picked = pick_canonical_commit sol (map (λ e. e.on_chain_commit) events) request.proof
        c ← or_absent (no_match (length events)) picked.canonical
        ok (record {
          on_chain_commit = c;
          on_chain_beta = none;
          duplicate_memo_events = some picked.duplicate_memo_events;
          candidate_count = some (length events);
        })

      abbrev pub check_of :
          Form
          → Request
          → FetchedAuthority sol
          → FoundCommit
          → VerifyAuthorityCommitEndToEndInput sol
      check_of form request auth found = record {
        alpha = request.alpha;
        proof = request.proof;
        on_chain_commit = found.on_chain_commit;
        memo = string form.memo;
        authority = auth.on_chain_authority;
        expected_owner = some request.owner;
        expected_label = none;
        expected_authority_address = none;
        program_id = none;
        on_chain_beta = found.on_chain_beta;
      }

      module _ (ed : Curve) where
        -- The body of the `try` block.
        unfoldable pub try_verify : Form → Result PageError VerifyOutcome
        try_verify form = do
          request ← parse_form form
          fetched ← called (fetch_authority sol rpc program request.owner (string form.label))
          auth ← or_absent authority_not_found fetched
          found ← find_commit form request auth form.mode
          result ←
              called (verify_authority_commit_end_to_end sol ed (check_of form request auth found))
          ok (record {
            result = result;
            authority_address = auth.authority_address;
            pk_hex = bytes_to_hex auth.decoded.pk;
            beta_hex = hex_or_null result.base.beta;
            mode = form.mode;
            duplicate_memo_events = found.duplicate_memo_events;
            candidate_count = found.candidate_count;
          })

  -- The three variables of the page that `runVerify` sets.
  pub record PageState : Type 0 where
    pub loading : Bool
    pub error : Option PageError
    pub outcome : Option VerifyOutcome

  unfoldable pub show : Result PageError VerifyOutcome → PageState → PageState
  show (ok outcome) page = record page { error = none; outcome = some outcome; loading = false }
  show (err e) page = record page { error = some e; outcome = none; loading = false }

  unfoldable pub run_verify :
      (List ℕ → Option sol.PublicKey)
      → Rpc sol
      → Program sol
      → Connection sol
      → Curve
      → Form
      → PageState
      → PageState
  run_verify parse_key rpc program connection ed form page =
      show (try_verify parse_key rpc program connection ed form) page
