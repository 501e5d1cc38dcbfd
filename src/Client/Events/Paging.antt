-- ===== src/Client/Events/Paging.antt =====
-- The loop over the pages ends within its fuel, and the order of the events of one transaction.
use cc_vrf.Common.{
  ℕ, zero, suc, ◌+◌, ◌-◌, min, ◌≤◌, ◌≡◌, refl, sym, ap, fun_ext, ◌∙◌, List, [], ◌∷◌, ◌++◌, Bytes,
  Bool, true, false, ltb, length, ◌==◌, Option, some, if◌then◌else◌, Bool-cases, inl, inr, Result,
  ok, ◌>>=◌, arith,
}
use cc_vrf.Client.Platform.{Platform, ClientError}
use cc_vrf.Client.Operations.{Program}
use cc_vrf.Client.Events.{
  ParsedEvent, ProofCommitEvent, FetchedTx, SigInfo, Connection, Found, last_signature, try_get_tx,
  is_wanted, event_row, collect_event, collect_events, collect_from_tx, collect_fetched, scan_page,
  scan_history, search, search_signature,
}

module _ (sol : Platform) (program : Program sol) (connection : Connection sol)
    (owner : sol.PublicKey) (label target : Bytes) where
  -- The rest of a round, from its page.
  abbrev rest :
      ℕ
      → ℕ
      → ℕ
      → Option (List ℕ)
      → Found sol
      → List (SigInfo sol)
      → Result ClientError (Found sol × Bool)
  rest fuel limit scanned before found infos =
      if length infos == 0
      then ok (found, true)
      else scan_page sol program connection owner label target infos found >>= (λ next.
        scan_history sol program connection owner label target fuel limit (scanned + length infos)
          (last_signature sol before infos) next)

  stopped :
      (fuel limit scanned : ℕ) (before : Option (List ℕ)) (found : Found sol)
      → limit ≤ scanned
      → scan_history sol program connection owner label target fuel limit scanned before found
        ≡ ok (found, false)
  unfolding scan_history
  stopped zero limit scanned before found h = refl
  stopped (suc fuel) limit scanned before found h = ground arith

  round :
      (fuel limit scanned : ℕ) (before : Option (List ℕ)) (found : Found sol)
      → ltb scanned limit ≡ true
      → scan_history sol program connection owner label target (suc fuel) limit scanned before found
        ≡ (connection.get_signatures_for_address owner (min 1000 (limit - scanned)) before
            >>= rest fuel limit scanned before found)
  unfolding scan_history
  round fuel limit scanned before found go = ground arith

  rest_full :
      (fuel limit scanned : ℕ) (before : Option (List ℕ)) (found : Found sol) (info : SigInfo sol)
      (infos : List (SigInfo sol))
      → rest fuel limit scanned before found (info ∷ infos) ≡ (
          scan_page sol program connection owner label target (info ∷ infos) found >>= (λ next.
            scan_history sol program connection owner label target fuel limit
              (scanned + length (info ∷ infos))
              (last_signature sol before (info ∷ infos))
              next))
  rest_full fuel limit scanned before found info infos =
      full (length (info ∷ infos) == 0) (ground arith) _ _
    where
      full :
          (b : Bool)
          → b ≡ false
          → (x y : Result ClientError (Found sol × Bool)) → (if b then x else y) ≡ y
      full false e x y = refl
      full true e x y = absurd cc

  rest_same :
      (fuel more limit scanned : ℕ) (before : Option (List ℕ)) (found : Found sol)
      → ((k : ℕ) (b : Option (List ℕ)) (f : Found sol)
          → suc scanned ≤ k
          → scan_history sol program connection owner label target fuel limit k b f
            ≡ scan_history sol program connection owner label target more limit k b f)
      → (infos : List (SigInfo sol))
      → rest fuel limit scanned before found infos ≡ rest more limit scanned before found infos
  rest_same fuel more limit scanned before found later [] = refl
  rest_same fuel more limit scanned before found later (info ∷ infos) =
      rest_full fuel limit scanned before found info infos
      ∙ ap (λ f. scan_page sol program connection owner label target (info ∷ infos) found >>= f)
          (fun_ext (λ next.
            later (scanned + length (info ∷ infos)) (last_signature sol before (info ∷ infos)) next
              (omega arith)))
      ∙ sym (rest_full more limit scanned before found info infos)

  -- The scan of the history ends before its fuel: with any two amounts that cover the entries still to
  -- scan, however long the pages are, it returns the same.
  pub scan_history_more_fuel :
      (fuel more limit scanned : ℕ) (before : Option (List ℕ)) (found : Found sol)
      → limit - scanned ≤ fuel
      → limit - scanned ≤ more
      → scan_history sol program connection owner label target fuel limit scanned before found
        ≡ scan_history sol program connection owner label target more limit scanned before found
  scan_history_more_fuel zero more limit scanned before found h k =
      stopped zero limit scanned before found (omega arith)
      ∙ sym (stopped more limit scanned before found (omega arith))
  scan_history_more_fuel (suc fuel) zero limit scanned before found h k =
      stopped (suc fuel) limit scanned before found (omega arith)
      ∙ sym (stopped zero limit scanned before found (omega arith))
  scan_history_more_fuel (suc fuel) (suc more) limit scanned before found h k =
      elim (Bool-cases (ltb scanned limit)) [
        | inr stop ↦
            stopped (suc fuel) limit scanned before found (ground arith)
            ∙ sym (stopped (suc more) limit scanned before found (ground arith))
        | inl go ↦
            round fuel limit scanned before found go
            ∙ ap
                (λ f.
                  connection.get_signatures_for_address owner (min 1000 (limit - scanned)) before
                  >>= f)
                (fun_ext (
                  rest_same fuel more limit scanned before found (λ j b f lt.
                    scan_history_more_fuel fuel more limit j b f (omega arith) (omega arith))))
            ∙ sym (round more limit scanned before found go)
      ]

  collect_wanted :
      (signature : List ℕ) (slot : ℕ) (ev : ParsedEvent sol) (out : List (ProofCommitEvent sol))
      {row : ProofCommitEvent sol}
      → is_wanted sol program connection owner label target ev ≡ true
      → event_row sol program connection owner label target signature slot ev ≡ ok row
      → collect_event sol program connection owner label target signature slot ev out
        ≡ ok (out ++ row ∷ [])
  unfolding collect_event
  collect_wanted signature slot ev out w e = rw (w, e) refl

  -- Two commit events of one transaction come out of the search by its signature in the reverse of
  -- the order in which the transaction emitted them.
  pub search_same_transaction :
      (c : ℕ) (signature : List ℕ) (limit : Option ℕ) (tx : FetchedTx sol) (logs : List (List ℕ))
      (first second : ParsedEvent sol) {first_row second_row : ProofCommitEvent sol}
      → connection.get_transaction (c ∷ signature) ≡ ok (some tx)
      → tx.log_messages ≡ some logs
      → connection.parse_logs logs ≡ first ∷ second ∷ []
      → is_wanted sol program connection owner label target first ≡ true
      → is_wanted sol program connection owner label target second ≡ true
      → event_row sol program connection owner label target (c ∷ signature) tx.slot first
        ≡ ok first_row
      → event_row sol program connection owner label target (c ∷ signature) tx.slot second
        ≡ ok second_row
      → search sol program connection owner label target (some (c ∷ signature)) limit
        ≡ ok (record {
          events = second_row ∷ first_row ∷ [];
          truncated = false;
          unfetched_signatures = [];
        })
  unfolding search search_signature collect_fetched collect_from_tx collect_events try_get_tx
  search_same_transaction c signature limit tx logs first second {first_row} {second_row} et el ep
        w1 w2 e1 e2 =
      let f1 = collect_wanted (c ∷ signature) tx.slot first [] w1 e1 in
      let f2 = collect_wanted (c ∷ signature) tx.slot second (first_row ∷ []) w2 e2 in
      ground (arith, f1, f2)
