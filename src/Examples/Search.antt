-- ===== src/Examples/Search.antt =====
-- The search for events over a toy connection with one transaction.
use cc_vrf.Common.{ℕ, ◌≡◌, refl, [], ◌∷◌, All, Bytes, true, false, none, some, ok, replicate}
use cc_vrf.Ecvrf.Encoding.{bytes_equal}
use cc_vrf.Client.Platform.{raw}
use cc_vrf.Client.Addresses.{derive_authority_address, label_bytes, memo_hash}
use cc_vrf.Client.Operations.{bytes_equal_early}
use cc_vrf.Client.Events.{
  ParsedEvent, ProofCommitEvent, ProofCommitEventQuery, ProofCommitEventResult, FetchedTx,
  Connection, event_name, is_wanted, event_row, search, find_proof_commit_events,
}
use cc_vrf.Client.Events.Matching.{IsAnswer, find_proof_commit_events-IsAnswer}
use cc_vrf.Client.Events.Paging.{search_same_transaction}
use cc_vrf.Examples.Network.{sol, is_platform, program, label}

abbrev target : Bytes
target = replicate 32 1

abbrev event : ℕ → ParsedEvent sol
event slot = record {
  name = event_name;
  owner = 1;
  label = label;
  memo_hash = target;
  proof_hash = [];
  alpha_hash = [];
  committed_slot = slot;
}

abbrev tx : FetchedTx sol
tx = record { log_messages = some []; slot = 70 }

abbrev connection : Connection sol
connection = record {
  get_transaction = λ s. ok (some tx);
  get_signatures_for_address = λ o n b. ok (record { signature = 5 ∷ []; failed = false } ∷ []);
  parse_logs = λ logs. event 70 ∷ event 71 ∷ [];
}

abbrev row : ℕ → ProofCommitEvent sol
row slot = record {
  owner = 1;
  label = label;
  tx_signature = 5 ∷ [];
  slot = 70;
  on_chain_commit = record {
    authority = some 100;
    memo_hash = target;
    proof_hash = [];
    alpha_hash = [];
    committed_slot = slot;
  };
}

wanted : (slot : ℕ) → is_wanted sol program connection 1 label target (event slot) ≡ true
unfolding is_wanted bytes_equal bytes_equal_early
wanted slot = refl

made :
    (slot : ℕ)
    → event_row sol program connection 1 label target (5 ∷ []) 70 (event slot) ≡ ok (row slot)
unfolding event_row derive_authority_address
made slot = refl

search_same_transaction_example :
    search sol program connection 1 label target (some (5 ∷ [])) none
    ≡ ok (record { events = row 71 ∷ row 70 ∷ []; truncated = false; unfetched_signatures = [] })
search_same_transaction_example =
    search_same_transaction sol program connection 1 label target 5 [] none tx [] (event 70)
      (event 71) refl refl refl (wanted 70) (wanted 71) (made 70) (made 71)

abbrev query : ProofCommitEventQuery sol
query = record { signature = some (5 ∷ []); limit = none }

abbrev result : ProofCommitEventResult sol
result = record { events = row 71 ∷ row 70 ∷ []; truncated = false; unfetched_signatures = [] }

found :
    find_proof_commit_events sol program connection 1 (raw label) (raw (0 ∷ [])) query ≡ ok result
unfolding find_proof_commit_events label_bytes memo_hash
found =
    search_same_transaction sol program connection 1 label target 5 [] none tx [] (event 70)
      (event 71) refl refl refl (wanted 70) (wanted 71) (made 70) (made 71)

find_proof_commit_events-IsAnswer_example :
    (bytes : Bytes) × (label_bytes sol (raw label) ≡ ok bytes)
    × All
        (IsAnswer sol is_platform program connection 1 bytes (memo_hash sol (raw (0 ∷ []))))
        (row 71 ∷ row 70 ∷ [])
find_proof_commit_events-IsAnswer_example =
    find_proof_commit_events-IsAnswer sol is_platform program connection 1 (raw label)
      (raw (0 ∷ [])) query found
