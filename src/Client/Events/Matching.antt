-- ===== src/Client/Events/Matching.antt =====
-- Whatever the search returns is an event of the owner, the label and the memo asked for.
use cc_vrf.Common.{
  ℕ, zero, suc, ◌+◌, ◌-◌, min, ◌≡◌, refl, sym, subst, ◌∙◌, List, [], ◌∷◌, ◌++◌, All, All-append,
  Bytes, Bool, true, false, not, ◌&&◌, ◌||◌, &&-eq-true, ltb, length, ◌==◌, Option, none, some,
  if◌then◌else◌, Bool-cases, Option-cases, inl, inr, Result, ok, ◌>>=◌, >>=-eq-ok, arith,
}
use cc_vrf.Ecvrf.Encoding.{bytes_equal}
use cc_vrf.Client.Platform.{Platform, IsPlatform, Text, ClientError}
use cc_vrf.Client.Addresses.{derive_authority_address, label_bytes, memo_hash}
use cc_vrf.Client.Operations.{Program, bytes_equal_early}
use cc_vrf.Client.Operations.Guards.{bytes_equal_early_iff}
use cc_vrf.Client.Events.{
  ParsedEvent, ProofCommitEvent, ProofCommitEventQuery, ProofCommitEventResult, FetchedTx, SigInfo,
  Connection, Found, last_signature, limit_or_default, try_get_tx, is_wanted, event_row,
  collect_event, collect_events, collect_from_tx, collect_fetched, scan_entry, scan_page,
  scan_history, nothing_found, search_history, search_signature, search, find_proof_commit_events,
  event_name, event_name_camel,
}
use mathlib.Core.List.{reverse, reverse-cons}

All-reverse {ℓ κ} : {A : Type ℓ} (P : A → Type κ) (xs : List A) → All P xs → All P (reverse xs)
All-reverse P [] h = tt
All-reverse P (x ∷ xs) (h, hs) =
    rw (reverse-cons x xs) (All-append P (reverse xs) (x ∷ []) (All-reverse P xs hs) (h, tt))

module _ (sol : Platform) (is_platform : IsPlatform sol) (program : Program sol)
    (connection : Connection sol) (owner : sol.PublicKey) (label target : Bytes) where
  -- An event of the owner and the label for the hash of the memo; its commit names the authority.
  abbrev pub IsAnswer : ProofCommitEvent sol → Type 0
  IsAnswer e =
      (e.owner ≡ owner)
      × (e.label ≡ label)
      × (e.on_chain_commit.memo_hash ≡ target)
      × ((a : sol.PublicKey) × (derive_authority_address sol owner label program.program_id ≡ ok a)
          × (e.on_chain_commit.authority ≡ some a))

  found_injective : {a b : Found sol} → Path (Result ClientError (Found sol)) (ok a) (ok b) → a ≡ b
  found_injective e = cc

  pair_injective :
      {a b : Found sol} {x y : Bool}
      → Path (Result ClientError (Found sol × Bool)) (ok (a, x)) (ok (b, y))
      → (a ≡ b) × (x ≡ y)
  pair_injective e = (cc, cc)

  wanted :
      (ev : ParsedEvent sol)
      → is_wanted sol program connection owner label target ev ≡ true
      → (ev.owner ≡ owner) × (ev.label ≡ label) × (ev.memo_hash ≡ target)
  unfolding is_wanted
  wanted ev e =
      let named = bytes_equal ev.name event_name || bytes_equal ev.name event_name_camel in
      let (e1, same_memo) =
        &&-eq-true (named && sol.equals ev.owner owner && bytes_equal_early ev.label label)
          (bytes_equal_early ev.memo_hash target) e in
      let (e2, same_label) =
        &&-eq-true (named && sol.equals ev.owner owner) (bytes_equal_early ev.label label) e1 in
      let (e3, same_owner) = &&-eq-true named (sol.equals ev.owner owner) e2 in
      (
        (is_platform.equals_iff ev.owner owner).0 same_owner,
        (bytes_equal_early_iff ev.label label).0 same_label,
        (bytes_equal_early_iff ev.memo_hash target).0 same_memo,
      )

  row_answers :
      (signature : List ℕ) (slot : ℕ) (ev : ParsedEvent sol) {row : ProofCommitEvent sol}
      → is_wanted sol program connection owner label target ev ≡ true
      → event_row sol program connection owner label target signature slot ev ≡ ok row
      → IsAnswer row
  unfolding event_row
  row_answers signature slot ev {row} w e =
      let (same_owner, same_label, same_memo) = wanted ev w in
      let (a, ea, is) =
        >>=-eq-ok (derive_authority_address sol ev.owner ev.label program.program_id) _ e in
      subst IsAnswer (injective is)
        (same_owner, same_label, same_memo, (a, rw (same_owner, same_label) at ea, refl))
    where
      injective :
          {a b : ProofCommitEvent sol}
          → Path (Result ClientError (ProofCommitEvent sol)) (ok a) (ok b)
          → a ≡ b
      injective e = cc

  collect_event-answers :
      (signature : List ℕ) (slot : ℕ) (ev : ParsedEvent sol) (out : List (ProofCommitEvent sol))
      {next : List (ProofCommitEvent sol)}
      → All IsAnswer out
      → collect_event sol program connection owner label target signature slot ev out ≡ ok next
      → All IsAnswer next
  unfolding collect_event
  collect_event-answers signature slot ev out {next} h e =
      elim (Bool-cases (is_wanted sol program connection owner label target ev)) [
        | inr other ↦ subst (All IsAnswer) (injective (ground arith)) h
        | inl w ↦
            let e' : (event_row sol program connection owner label target signature slot ev
                  >>= (λ row. ok (out ++ row ∷ [])))
                ≡ ok next =
              ground arith in
            let (row, er, is) =
              >>=-eq-ok (event_row sol program connection owner label target signature slot ev) _
                e' in
            subst (All IsAnswer) (injective is)
              (All-append IsAnswer out (row ∷ []) h (row_answers signature slot ev w er, tt))
      ]
    where
      injective :
          {a b : List (ProofCommitEvent sol)}
          → Path (Result ClientError (List (ProofCommitEvent sol))) (ok a) (ok b)
          → a ≡ b
      injective e = cc

  collect_events-answers :
      (signature : List ℕ) (slot : ℕ) (evs : List (ParsedEvent sol))
      (out : List (ProofCommitEvent sol)) {next : List (ProofCommitEvent sol)}
      → All IsAnswer out
      → collect_events sol program connection owner label target signature slot evs out ≡ ok next
      → All IsAnswer next
  unfolding collect_events
  collect_events-answers signature slot [] out {next} h e = subst (All IsAnswer) (injective e) h
    where
      injective :
          {a b : List (ProofCommitEvent sol)}
          → Path (Result ClientError (List (ProofCommitEvent sol))) (ok a) (ok b)
          → a ≡ b
      injective e = cc
  collect_events-answers signature slot (ev ∷ evs) out {next} h e =
      let (mid, em, rest) =
        >>=-eq-ok (collect_event sol program connection owner label target signature slot ev out) _
          e in
      collect_events-answers signature slot evs mid
        (collect_event-answers signature slot ev out h em) rest

  collect_from_tx-answers :
      (signature : List ℕ) (tx : FetchedTx sol) (out : List (ProofCommitEvent sol))
      {next : List (ProofCommitEvent sol)}
      → All IsAnswer out
      → collect_from_tx sol program connection owner label target signature tx out ≡ ok next
      → All IsAnswer next
  unfolding collect_from_tx
  collect_from_tx-answers signature tx out {next} h e = elim (Option-cases tx.log_messages) [
    | inl no_logs ↦ subst (All IsAnswer) (injective (ground arith)) h
    | inr (logs, some_logs) ↦
        collect_events-answers signature tx.slot (connection.parse_logs logs) out h (ground arith)
  ]
    where
      injective :
          {a b : List (ProofCommitEvent sol)}
          → Path (Result ClientError (List (ProofCommitEvent sol))) (ok a) (ok b)
          → a ≡ b
      injective e = cc

  collect_fetched-answers :
      (signature : List ℕ) (tx : Option (FetchedTx sol)) (found : Found sol) {next : Found sol}
      → All IsAnswer found.out
      → collect_fetched sol program connection owner label target signature tx found ≡ ok next
      → All IsAnswer next.out
  unfolding collect_fetched
  collect_fetched-answers signature none found {next} h e =
      subst (λ (f : Found sol). All IsAnswer f.out) (found_injective e) h
  collect_fetched-answers signature (some tx) found {next} h e =
      let (out, eo, is) =
        >>=-eq-ok (collect_from_tx sol program connection owner label target signature tx found.out)
          _ e in
      subst (λ (f : Found sol). All IsAnswer f.out) (found_injective is)
        (collect_from_tx-answers signature tx found.out h eo)

  scan_entry-answers :
      (info : SigInfo sol) (found : Found sol) {next : Found sol}
      → All IsAnswer found.out
      → scan_entry sol program connection owner label target info found ≡ ok next
      → All IsAnswer next.out
  unfolding scan_entry
  scan_entry-answers info found {next} h e = elim (Bool-cases info.failed) [
    | inl failed ↦
        subst (λ (f : Found sol). All IsAnswer f.out)
          (found_injective {a = found} {b = next} (ground arith)) h
    | inr good ↦
        collect_fetched-answers info.signature (try_get_tx sol program connection info.signature)
          found {next = next} h (ground arith)
  ]

  scan_page-answers :
      (infos : List (SigInfo sol)) (found : Found sol) {next : Found sol}
      → All IsAnswer found.out
      → scan_page sol program connection owner label target infos found ≡ ok next
      → All IsAnswer next.out
  unfolding scan_page
  scan_page-answers [] found {next} h e =
      subst (λ (f : Found sol). All IsAnswer f.out) (found_injective e) h
  scan_page-answers (info ∷ infos) found {next} h e =
      let (mid, em, rest) =
        >>=-eq-ok (scan_entry sol program connection owner label target info found) _ e in
      scan_page-answers infos mid (scan_entry-answers info found h em) rest

  -- The rest of a round, from its page.
  abbrev page_rest :
      ℕ
      → ℕ
      → ℕ
      → Option (List ℕ)
      → Found sol
      → List (SigInfo sol)
      → Result ClientError (Found sol × Bool)
  page_rest fuel limit scanned before found infos =
      if length infos == 0
      then ok (found, true)
      else scan_page sol program connection owner label target infos found >>= (λ next.
        scan_history sol program connection owner label target fuel limit (scanned + length infos)
          (last_signature sol before infos) next)

  scan_round :
      (fuel limit scanned : ℕ) (before : Option (List ℕ)) (found : Found sol)
      → ltb scanned limit ≡ true
      → scan_history sol program connection owner label target (suc fuel) limit scanned before found
        ≡ (connection.get_signatures_for_address owner (min 1000 (limit - scanned)) before
            >>= page_rest fuel limit scanned before found)
  unfolding scan_history
  scan_round fuel limit scanned before found go = ground arith

  scan_history-answers :
      (fuel limit scanned : ℕ) (before : Option (List ℕ)) (found : Found sol) {next : Found sol}
      {reached_end : Bool}
      → All IsAnswer found.out
      → scan_history sol program connection owner label target fuel limit scanned before found
        ≡ ok (next, reached_end)
      → All IsAnswer next.out
  unfolding scan_history
  scan_history-answers zero limit scanned before found {next} {reached_end} h e =
      subst (λ (f : Found sol). All IsAnswer f.out) (pair_injective e).0 h
  scan_history-answers (suc fuel) limit scanned before found {next} {reached_end} h e =
      elim (Bool-cases (ltb scanned limit)) [
        | inr stop ↦
            subst (λ (f : Found sol). All IsAnswer f.out)
              (pair_injective {a = found} {b = next} {x = false} {y = reached_end} (ground arith)).0
              h
        | inl go ↦
            let (infos, ei, r) =
              >>=-eq-ok
                (connection.get_signatures_for_address owner (min 1000 (limit - scanned)) before)
                (page_rest fuel limit scanned before found)
                (sym (scan_round fuel limit scanned before found go) ∙ e) in
            elim (Bool-cases (length infos == 0)) [
              | inl empty ↦
                  subst (λ (f : Found sol). All IsAnswer f.out)
                    (pair_injective {a = found} {b = next} {x = true} {y = reached_end}
                      (ground arith)).0
                    h
              | inr full ↦
                  let (mid, em, rest) =
                    >>=-eq-ok (scan_page sol program connection owner label target infos found)
                      (λ mid.
                        scan_history sol program connection owner label target fuel limit
                          (scanned + length infos) (last_signature sol before infos) mid)
                      {result = (next, reached_end)} (ground arith) in
                  scan_history-answers fuel limit (scanned + length infos)
                    (last_signature sol before infos) mid (scan_page-answers infos found h em) rest
            ]
      ]

  result_answers :
      (found : Found sol) (truncated : Bool) {r : ProofCommitEventResult sol}
      → All IsAnswer found.out
      → Path
          (Result ClientError (ProofCommitEventResult sol))
          (ok (record {
            events = reverse found.out;
            truncated = truncated;
            unfetched_signatures = found.unfetched_signatures;
          }))
          (ok r)
      → All IsAnswer r.events
  result_answers found truncated {r} h e =
      let is : reverse found.out ≡ r.events = cc in
      subst (All IsAnswer) is (All-reverse IsAnswer found.out h)

  history_answers :
      (limit : ℕ) {r : ProofCommitEventResult sol}
      → search_history sol program connection owner label target limit ≡ ok r
      → All IsAnswer r.events
  unfolding search_history
  history_answers limit {r} e =
      let (p, ep, is) =
        >>=-eq-ok
          (scan_history sol program connection owner label target limit limit 0 none
            (nothing_found sol program connection owner label target))
          _ e in
      result_answers p.0 (not p.1)
        (scan_history-answers limit limit 0 none
          (nothing_found sol program connection owner label target) tt ep)
        is

  pub search-answers :
      (signature : Option (List ℕ)) (limit : Option ℕ) {r : ProofCommitEventResult sol}
      → search sol program connection owner label target signature limit ≡ ok r
      → All IsAnswer r.events
  unfolding search search_signature
  search-answers none limit e = history_answers (limit_or_default sol limit) e
  search-answers (some []) limit e = history_answers (limit_or_default sol limit) e
  search-answers (some (c ∷ rest)) limit e =
      let (found, ef, is) =
        >>=-eq-ok
          (collect_fetched sol program connection owner label target (c ∷ rest)
            (try_get_tx sol program connection (c ∷ rest))
            (nothing_found sol program connection owner label target))
          _ e in
      result_answers found false
        (collect_fetched-answers (c ∷ rest) (try_get_tx sol program connection (c ∷ rest))
          (nothing_found sol program connection owner label target) tt ef)
        is

module _ (sol : Platform) (is_platform : IsPlatform sol) (program : Program sol)
    (connection : Connection sol) where
  -- Over a platform with its documented behaviour, every event that find_proof_commit_events
  -- returns, in either mode, is one of the owner, the label and the hash of the memo that were
  -- asked for, and its commit names the authority address derived from them.
  pub find_proof_commit_events-IsAnswer :
      (owner : sol.PublicKey) (label memo : Text) (query : ProofCommitEventQuery sol)
      {r : ProofCommitEventResult sol}
      → find_proof_commit_events sol program connection owner label memo query ≡ ok r
      → (bytes : Bytes) × (label_bytes sol label ≡ ok bytes)
        × All
            (IsAnswer sol is_platform program connection owner bytes (memo_hash sol memo))
            r.events
  unfolding find_proof_commit_events
  find_proof_commit_events-IsAnswer owner label memo query e =
      let (bytes, eb, rest) = >>=-eq-ok (label_bytes sol label) _ e in
      (
        bytes,
        eb,
        search-answers sol is_platform program connection owner bytes (memo_hash sol memo)
            query.signature query.limit rest,
      )
