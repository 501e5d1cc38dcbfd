-- ===== src/Demo/Draw.antt =====
-- apps/dice-demo/src/commands.ts: what the commands on one roll compute, without the world.
use cc_vrf.Common.{
  ℕ, ◌+◌, ◌*◌, ◌%◌, List, [], ◌∷◌, ◌++◌, take, Bytes, Bool, true, false, Option, none, some, ◌==◌,
  Result, ok, err, if◌then◌else◌, ◌>>=◌,
}
use cc_vrf.Client.Addresses.{encode_label}
use cc_vrf.Client.Operations.{CommitProofInput, FetchedAuthority}
use cc_vrf.Client.Platform.{Platform, string}
use cc_vrf.Client.Verify.{OnChainCommit, VerifyAuthorityCommitEndToEndInput}
use cc_vrf.Demo.Host.{
  DemoError, not_initialised, no_memo, unknown_memo, bad_hex_number, Mode, Roll, DemoState,
  from_client, from_vrf, given,
}
use cc_vrf.Ecvrf.Curve.{Curve}
use cc_vrf.Ecvrf.Encoding.{digit_value, hex_to_bytes, bytes_to_hex}
use cc_vrf.Ecvrf.Prove.{prove_vrf}
use cc_vrf.Ecvrf.Verify.{vrf_proof_to_hash}

-- `BigInt("0x" + digits)`, which throws on no digits.
abbrev pub hex_value : ℕ → List ℕ → ℕ
hex_value n [] = n
hex_value n (c ∷ digits) = hex_value (n * 16 + digit_value c) digits

abbrev pub big_int_of_hex : List ℕ → Result DemoError ℕ
big_int_of_hex [] = err bad_hex_number
big_int_of_hex (c ∷ digits) = ok (hex_value 0 (c ∷ digits))

-- `Number(BigInt("0x" + bytesToHex(beta).slice(0, 16)) % 100n) + 1`
unfoldable pub roll_value : Bytes → Result DemoError ℕ
roll_value beta = do n ← big_int_of_hex (take 16 (bytes_to_hex beta)); ok (n % 100 + 1)

abbrev pub same_text : List ℕ → List ℕ → Bool
same_text [] [] = true
same_text (x ∷ a) (y ∷ b) = let rest = same_text a b in if x == y then rest else false
same_text _ _ = false

-- `rolls.find((r) => r.memo === memo)`
unfoldable pub find_roll : List ℕ → List Roll → Option Roll
find_roll memo [] = none
find_roll memo (r ∷ rolls) =
    let rest = find_roll memo rolls in if same_text r.memo memo then some r else rest

-- `rolls[rolls.length - 1]?.memo`
abbrev pub last_memo : List Roll → Option (List ℕ)
last_memo [] = none
last_memo (r ∷ []) = some r.memo
last_memo (r ∷ s ∷ rolls) = last_memo (s ∷ rolls)

-- `memo || state.rolls[state.rolls.length - 1]?.memo`
unfoldable pub target_memo : DemoState → Option (List ℕ) → Result DemoError (List ℕ)
target_memo state memo = elim (given memo) [
  | some m ↦ ok m
  | none ↦ elim (given (last_memo state.rolls)) [ some m ↦ ok m | none ↦ err no_memo ]
]

unfoldable pub stored_roll : DemoState → List ℕ → Result DemoError Roll
stored_roll state memo = elim (find_roll memo state.rolls) [
  | some r ↦ ok r
  | none ↦ err unknown_memo
]

-- `if (!state.vrfSk || !state.vrfPk) throw new Error("run `init` first")`, for the secret key.
unfoldable pub secret_key : DemoState → Result DemoError (List ℕ)
secret_key state = elim (given state.vrf_sk) [
  | none ↦ err not_initialised
  | some sk ↦ elim (given state.vrf_pk) [ none ↦ err not_initialised | some pk ↦ ok sk ]
]

abbrev pub is_none {ℓ} : {A : Type ℓ} → Option A → Bool
is_none none = true
is_none (some a) = false

abbrev pub is_some {ℓ} : {A : Type ℓ} → Option A → Bool
is_some none = false
is_some (some a) = true

-- `if (!auth) throw`, `if (!commit) throw`
abbrev pub or_missing {ℓ} : {A : Type ℓ} → DemoError → Option A → Result DemoError A
or_missing e none = err e
or_missing e (some a) = ok a

-- The four values that a roll computes from its memo.
pub record Draw : Type 0 where
  pub memo : List ℕ
  pub alpha : Bytes
  pub proof : Bytes
  pub beta : Bytes
  pub value : ℕ

-- `state.rolls.push(..)`
abbrev pub push_roll : DemoState → Roll → DemoState
push_roll state r = record state { rolls = state.rolls ++ r ∷ [] }

abbrev pub roll_record : Draw → List ℕ → List ℕ → Option Mode → Option (List ℕ) → Roll
roll_record d commit_address time mode signature = record {
  memo = d.memo;
  alpha = bytes_to_hex d.alpha;
  proof = bytes_to_hex d.proof;
  beta = bytes_to_hex d.beta;
  roll_value = d.value;
  commit_address_base58 = commit_address;
  committed_at_iso = time;
  mode = mode;
  tx_signature = signature;
}

module _ (sol : Platform) where
  abbrev pub commit_input : sol.PublicKey → List ℕ → Draw → CommitProofInput sol
  commit_input payer label d = record {
    owner = payer;
    label = string label;
    memo = string d.memo;
    alpha = d.alpha;
    proof = d.proof;
  }

  -- The argument of the three verify commands, in the order in which its fields are computed.
  unfoldable pub check_input :
      FetchedAuthority sol
      → sol.PublicKey
      → DemoState
      → Roll
      → List ℕ
      → OnChainCommit sol
      → Option Bytes
      → Result DemoError (VerifyAuthorityCommitEndToEndInput sol)
  check_input auth payer state stored memo row beta = do
    label ← from_client (encode_label sol state.label)
    alpha ← from_vrf (hex_to_bytes stored.alpha)
    proof ← from_vrf (hex_to_bytes stored.proof)
    ok (record {
      alpha = alpha;
      proof = proof;
      on_chain_commit = row;
      memo = string memo;
      authority = auth.on_chain_authority;
      expected_owner = some payer;
      expected_label = some label;
      expected_authority_address = some auth.authority_address;
      program_id = none;
      on_chain_beta = beta;
    })

  module _ (ed : Curve) where
    unfoldable pub make_draw : Bytes → List ℕ → Result DemoError Draw
    make_draw sk memo = do
      let alpha = sol.sha256 (sol.utf8 memo)
      (proof, gamma) ← from_vrf (prove_vrf ed sk alpha)
      beta ← from_vrf (vrf_proof_to_hash ed proof)
      value ← roll_value beta
      ok (record { memo = memo; alpha = alpha; proof = proof; beta = beta; value = value })
