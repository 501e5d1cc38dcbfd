-- ===== src/Client/Events.antt =====
-- packages/vrf-client/src/operations.ts, findProofCommitEvents and fetchProofCommitEvents: the search
-- for the log events of a commit. The connection and the log parser are the interface `Connection`.
pub mod Matching
pub mod Paging
use cc_vrf.Common.{
  ℕ, zero, suc, ◌+◌, ◌-◌, min, List, [], ◌∷◌, ◌++◌, Bytes, Bool, true, false, not, ◌&&◌, ◌||◌, ltb,
  length, ◌==◌, Option, none, some, if◌then◌else◌, Result, ok, err, ◌>>=◌, ◌>>◌,
}
use cc_vrf.Ecvrf.Encoding.{bytes_equal}
use cc_vrf.Client.Platform.{Platform, Text, ClientError}
use cc_vrf.Client.Addresses.{derive_authority_address, label_bytes, memo_hash}
use cc_vrf.Client.Verify.{OnChainCommit}
use cc_vrf.Client.Operations.{Program, bytes_equal_early}
use mathlib.Core.List.{reverse}

-- "VrfProofCommitted"
abbrev pub event_name : List ℕ
event_name =
    b'V' ∷ b'r' ∷ b'f' ∷ b'P' ∷ b'r' ∷ b'o' ∷ b'o' ∷ b'f' ∷ b'C' ∷ b'o' ∷ b'm' ∷ b'm' ∷ b'i' ∷ b't'
    ∷ b't' ∷ b'e' ∷ b'd' ∷ []

-- "vrfProofCommitted"
abbrev pub event_name_camel : List ℕ
event_name_camel =
    b'v' ∷ b'r' ∷ b'f' ∷ b'P' ∷ b'r' ∷ b'o' ∷ b'o' ∷ b'f' ∷ b'C' ∷ b'o' ∷ b'm' ∷ b'm' ∷ b'i' ∷ b't'
    ∷ b't' ∷ b'e' ∷ b'd' ∷ []

module _ (sol : Platform) where
  -- An element of `parser.parseLogs`, with the fields of `ev.data` that the program reads.
  pub record ParsedEvent : Type 0 where
    pub name : List ℕ
    pub owner : sol.PublicKey
    pub label : Bytes
    pub memo_hash : Bytes
    pub proof_hash : Bytes
    pub alpha_hash : Bytes
    pub committed_slot : ℕ

  pub record ProofCommitEvent : Type 0 where
    pub owner : sol.PublicKey
    pub label : Bytes
    pub tx_signature : List ℕ
    pub slot : ℕ
    pub on_chain_commit : OnChainCommit sol

  pub record ProofCommitEventQuery : Type 0 where
    pub signature : Option (List ℕ)
    pub limit : Option ℕ

  pub record ProofCommitEventResult : Type 0 where
    pub events : List ProofCommitEvent
    pub truncated : Bool
    pub unfetched_signatures : List (List ℕ)

  pub record FetchedTx : Type 0 where
    pub log_messages : Option (List (List ℕ))  -- `tx.meta?.logMessages`
    pub slot : ℕ

  pub record SigInfo : Type 0 where
    pub signature : List ℕ
    pub failed : Bool  -- `err` is set

  pub record Connection : Type 0 where
    pub get_transaction : List ℕ → Result ClientError (Option FetchedTx)
    pub get_signatures_for_address :
        sol.PublicKey → ℕ → Option (List ℕ) → Result ClientError (List SigInfo)
    pub parse_logs : List (List ℕ) → List ParsedEvent

  -- The arrays that the closures of the search fill.
  pub record Found : Type 0 where
    pub out : List ProofCommitEvent
    pub unfetched_signatures : List (List ℕ)

  -- The signature of the page's last entry; `before` is kept on no entry.
  abbrev pub last_signature : Option (List ℕ) → List SigInfo → Option (List ℕ)
  last_signature before [] = before
  last_signature before (s ∷ infos) = last_signature (some s.signature) infos

  -- `query.limit ?? 1000`
  abbrev pub limit_or_default : Option ℕ → ℕ
  limit_or_default none = 1000
  limit_or_default (some n) = n

  module _ (program : Program sol) (connection : Connection) where
    -- `catch { return null; }`
    unfoldable pub try_get_tx : List ℕ → Option FetchedTx
    try_get_tx signature = elim (connection.get_transaction signature) [ ok tx ↦ tx | err e ↦ none ]

    module _ (owner : sol.PublicKey) (label : Bytes) (target : Bytes) where
      -- The four tests of `collectFromTx`.
      unfoldable pub is_wanted : ParsedEvent → Bool
      is_wanted ev =
          (bytes_equal ev.name event_name || bytes_equal ev.name event_name_camel)
          && sol.equals ev.owner owner
          && bytes_equal_early ev.label label
          && bytes_equal_early ev.memo_hash target

      unfoldable pub event_row : List ℕ → ℕ → ParsedEvent → Result ClientError ProofCommitEvent
      event_row signature slot ev = do
        authority ← derive_authority_address sol ev.owner ev.label program.program_id
        ok (record {
          owner = ev.owner;
          label = ev.label;
          tx_signature = signature;
          slot = slot;
          on_chain_commit = record {
            authority = some authority;
            memo_hash = ev.memo_hash;
            proof_hash = ev.proof_hash;
            alpha_hash = ev.alpha_hash;
            committed_slot = ev.committed_slot;
          };
        })

      -- One round of the loop over the parsed events.
      unfoldable pub collect_event :
          List ℕ
          → ℕ
          → ParsedEvent
          → List ProofCommitEvent
          → Result ClientError (List ProofCommitEvent)
      collect_event signature slot ev out =
          if is_wanted ev
          then event_row signature slot ev >>= (λ row. ok (out ++ row ∷ []))
          else ok out

      unfoldable pub collect_events :
          List ℕ
          → ℕ
          → List ParsedEvent
          → List ProofCommitEvent
          → Result ClientError (List ProofCommitEvent)
      collect_events signature slot [] out = ok out
      collect_events signature slot (ev ∷ evs) out = do
        next ← collect_event signature slot ev out
        collect_events signature slot evs next

      unfoldable pub collect_from_tx :
          List ℕ → FetchedTx → List ProofCommitEvent → Result ClientError (List ProofCommitEvent)
      collect_from_tx signature tx out = elim tx.log_messages [
        | none ↦ ok out
        | some logs ↦ collect_events signature tx.slot (connection.parse_logs logs) out
      ]

      -- A transaction that was or was not fetched.
      unfoldable pub collect_fetched : List ℕ → Option FetchedTx → Found → Result ClientError Found
      collect_fetched signature none found =
          ok (record found { unfetched_signatures = found.unfetched_signatures ++ signature ∷ [] })
      collect_fetched signature (some tx) found = do
        out ← collect_from_tx signature tx found.out
        ok (record found { out = out })

      -- One entry of a page.
      unfoldable pub scan_entry : SigInfo → Found → Result ClientError Found
      scan_entry info found =
          if info.failed
          then ok found
          else collect_fetched info.signature (try_get_tx info.signature) found

      unfoldable pub scan_page : List SigInfo → Found → Result ClientError Found
      scan_page [] found = ok found
      scan_page (info ∷ infos) found = do next ← scan_entry info found; scan_page infos next

      -- The `while` of the history scan, with `reachedEnd`. A page that is not empty adds to
      -- `scanned`, so `limit` rounds are enough.
      unfoldable pub scan_history :
          ℕ → ℕ → ℕ → Option (List ℕ) → Found → Result ClientError (Found × Bool)
      scan_history zero limit scanned before found = ok (found, false)
      scan_history (suc fuel) limit scanned before found =
          let page =
            connection.get_signatures_for_address owner (min 1000 (limit - scanned)) before in
          let more = λ (infos : List SigInfo). scan_page infos found >>= (λ next.
            scan_history fuel limit (scanned + length infos) (last_signature before infos) next) in
          if ltb scanned limit
          then page >>= (λ infos. if length infos == 0 then ok (found, true) else more infos)
          else ok (found, false)

      abbrev pub nothing_found : Found
      nothing_found = record { out = []; unfetched_signatures = [] }

      -- The mode of a known signature.
      unfoldable pub search_signature : List ℕ → Result ClientError ProofCommitEventResult
      search_signature signature = do
        found ← collect_fetched signature (try_get_tx signature) nothing_found
        ok (record {
          events = reverse found.out;
          truncated = false;
          unfetched_signatures = found.unfetched_signatures;
        })

      unfoldable pub search_history : ℕ → Result ClientError ProofCommitEventResult
      search_history limit = do
        (found, reached_end) ← scan_history limit limit 0 none nothing_found
        ok (record {
          events = reverse found.out;
          truncated = not reached_end;
          unfetched_signatures = found.unfetched_signatures;
        })

      -- `if (query.signature)`: an empty string counts as none.
      unfoldable pub search : Option (List ℕ) → Option ℕ → Result ClientError ProofCommitEventResult
      search none limit = search_history (limit_or_default limit)
      search (some []) limit = search_history (limit_or_default limit)
      search (some (c ∷ rest)) limit = search_signature (c ∷ rest)

    unfoldable pub find_proof_commit_events :
        sol.PublicKey
        → Text
        → Text
        → ProofCommitEventQuery
        → Result ClientError ProofCommitEventResult
    find_proof_commit_events owner label memo query = do
      bytes ← label_bytes sol label
      search owner bytes (memo_hash sol memo) query.signature query.limit

    unfoldable pub fetch_proof_commit_events :
        sol.PublicKey
        → Text
        → Text
        → ProofCommitEventQuery
        → Result ClientError (List ProofCommitEvent)
    fetch_proof_commit_events owner label memo options = do
      result ← find_proof_commit_events owner label memo options
      ok result.events
