-- ===== src/Website/WalletDemo/Sound.antt =====
-- What a roll that `rollOnce` marks as verified stands for. The entry that `initAuthority` adds is
-- marked as verified too, but is no roll.
use cc_vrf.Common.{
  ℕ, ◌+◌, ◌≡◌, refl, sym, ap, subst, ap₂, ◌∙◌, List, ◌∷◌, length, Bytes, true, false, Option, none,
  some, Result, ok, err, >>=-eq-ok, ok_injective, arith,
}
use cc_vrf.Client.Addresses.{encode_label}
use cc_vrf.Client.Light.{Rpc}
use cc_vrf.Client.Operations.{
  Program, FetchedAuthority, FetchedCommit, fetch_authority, fetch_proof_commit,
  build_commit_proof_ix,
}
use cc_vrf.Client.Platform.{Platform, IsPlatform, ClientError, string}
use cc_vrf.Client.Verify.{verify_authority_commit_end_to_end}
use cc_vrf.Client.Verify.Authority.{IsBound, verify_authority_commit_end_to_end_valid}
use cc_vrf.Demo.Commands.{build_and_send}
use cc_vrf.Demo.Draw.{Draw, commit_input, make_draw}
use cc_vrf.Demo.Host.{DemoError, Host, from_client}
use cc_vrf.Demo.Steps.{bind-eq-ok, lift-eq-ok, ok_and_world}
use cc_vrf.Ecvrf.Curve.{Curve}
use cc_vrf.Website.WalletDemo.{WalletRoll, WalletPage, web, roll_and_check, set_rolled, roll_once}
use cc_vrf.Website.WalletDemo.Check.{
  wallet_input, check_commit, check_found, check_fetched, read_and_check,
}

from_client-eq-ok {ℓ} :
    {A : Type ℓ} (r : Result ClientError A) {a : A} → from_client r ≡ ok a → r ≡ ok a
from_client-eq-ok (ok b) e = ap ok (ok_injective e)
from_client-eq-ok (err x) e = absurd cc

module _ (sol : Platform) (is_platform : IsPlatform sol) (ed : Curve) where
  -- The commit that the RPC has for the draw passes every check.
  abbrev pub IsConfirmed : Rpc sol → Program sol → sol.PublicKey → List ℕ → Draw → Type 0
  IsConfirmed rpc program owner label d =
      (auth : FetchedAuthority sol) × (commit : FetchedCommit sol) × (label_bytes : Bytes)
      × (beta : Option Bytes) × (fetch_authority sol rpc program owner (string label)
          ≡ ok (some auth))
      × (fetch_proof_commit sol rpc program auth.authority_address (string d.memo)
          ≡ ok (some commit))
      × (encode_label sol label ≡ ok label_bytes)
      × IsBound sol is_platform ed (wallet_input sol ed rpc program owner label_bytes d auth commit)
          beta

  check_commit-IsBound :
      (rpc : Rpc sol) (program : Program sol) (owner : sol.PublicKey) (label : List ℕ) (d : Draw)
      (auth : FetchedAuthority sol) (commit : FetchedCommit sol)
      → check_commit sol ed rpc program owner label d auth commit ≡ ok true
      → (label_bytes : Bytes) × (beta : Option Bytes) × (encode_label sol label ≡ ok label_bytes)
        × IsBound sol is_platform ed
            (wallet_input sol ed rpc program owner label_bytes d auth commit)
            beta
  unfolding check_commit
  check_commit-IsBound rpc program owner label d auth commit e =
      let (label_bytes, e1, r1) = >>=-eq-ok (from_client (encode_label sol label)) _ e in
      let input = wallet_input sol ed rpc program owner label_bytes d auth commit in
      let (result, e2, r2) =
        >>=-eq-ok (from_client (verify_authority_commit_end_to_end sol ed input)) _ r1 in
      let (bound, reasons) =
        verify_authority_commit_end_to_end_valid sol is_platform ed input result
          (from_client-eq-ok _ e2) in
      (label_bytes, result.base.beta, from_client-eq-ok _ e1, bound.0 (ok_injective r2))

  check_fetched-IsConfirmed :
      (rpc : Rpc sol) (program : Program sol) (owner : sol.PublicKey) (label : List ℕ) (d : Draw)
      (fetched : Option (FetchedAuthority sol))
      → fetch_authority sol rpc program owner (string label) ≡ ok fetched
      → check_fetched sol ed rpc program owner label d fetched ≡ ok true
      → IsConfirmed rpc program owner label d
  unfolding check_fetched check_found
  check_fetched-IsConfirmed rpc program owner label d none read e = absurd cc
  check_fetched-IsConfirmed rpc program owner label d (some auth) read e =
      let (found, e1, r1) =
        >>=-eq-ok
          (from_client (fetch_proof_commit sol rpc program auth.authority_address (string d.memo)))
          _ e in
      confirmed found (from_client-eq-ok _ e1) r1
    where
      confirmed :
          (found : Option (FetchedCommit sol))
          → fetch_proof_commit sol rpc program auth.authority_address (string d.memo) ≡ ok found
          → check_found sol ed rpc program owner label d auth found ≡ ok true
          → IsConfirmed rpc program owner label d
      confirmed none stored e = absurd cc
      confirmed (some commit) stored e =
          let (label_bytes, beta, is, bound) =
            check_commit-IsBound rpc program owner label d auth commit e in
          (auth, commit, label_bytes, beta, read, stored, is, bound)

  read_and_check-IsConfirmed :
      (rpc : Rpc sol) (program : Program sol) (owner : sol.PublicKey) (label : List ℕ) (d : Draw)
      → read_and_check sol ed rpc program owner label d ≡ ok true
      → IsConfirmed rpc program owner label d
  unfolding read_and_check
  read_and_check-IsConfirmed rpc program owner label d e =
      let (fetched, e1, r1) =
        >>=-eq-ok (from_client (fetch_authority sol rpc program owner (string label))) _ e in
      check_fetched-IsConfirmed rpc program owner label d fetched (from_client-eq-ok _ e1) r1

  module _ (h : Host sol) where
    roll_and_check-IsConfirmed :
        (owner : sol.PublicKey) (sk : Bytes) (label : List ℕ) (w w' : h.World) (r : WalletRoll)
        → roll_and_check sol ed h owner sk label w ≡ (ok r, w')
        → r.verify_valid ≡ true
        → (d : Draw) × (make_draw sol ed sk r.memo ≡ ok d)
          × (r.roll_value ≡ d.value)
          × IsConfirmed (h.rpc w') h.program owner label d
    unfolding roll_and_check
    roll_and_check-IsConfirmed owner sk label w w' r e valid =
        let (memo, v) = h.fresh_memo web w in
        let (d, e1, r1) = lift-eq-ok (make_draw sol ed sk memo) v _ e in
        let ((sig, address), u, e2, r2) =
          bind-eq-ok
            (build_and_send sol ed h
              (λ w.
                build_commit_proof_ix sol (h.rpc w) h.program ed (commit_input sol owner label d))
              v)
            _ r1 in
        let (checked, e3, r3) =
          lift-eq-ok (read_and_check sol ed (h.rpc u) h.program owner label d) u _ r2 in
        let (same, world) = ok_and_world r3 in
        let is_valid : checked ≡ true = ap (λ s. s.verify_valid) same ∙ valid in
        let confirmed =
          read_and_check-IsConfirmed (h.rpc u) h.program owner label d (e3 ∙ ap ok is_valid) in
        (
          d,
          subst (λ m. make_draw sol ed sk m ≡ ok d) (ap (λ s. s.memo) same) e1,
          sym (ap (λ s. s.roll_value) same),
          subst (λ x. IsConfirmed (h.rpc x) h.program owner label d) world confirmed,
        )

    roll_once-added :
        (page : WalletPage) (answer : Result DemoError WalletRoll) (r : WalletRoll)
        → (set_rolled sol ed h answer page).rolls ≡ r ∷ page.rolls
        → (answer ≡ ok r)
          × ((set_rolled sol ed h answer page).error ≡ none)
          × ((set_rolled sol ed h answer page).busy ≡ false)
    unfolding set_rolled
    roll_once-added page (ok s) r e = (ap ok (head_injective e), refl, refl)
      where
        head_injective : {s r : WalletRoll} {rs : List WalletRoll} → s ∷ rs ≡ r ∷ rs → s ≡ r
        head_injective e = cc
    roll_once-added page (err x) r e =
        let longer : length page.rolls ≡ length page.rolls + 1 = ap length e ∙ omega arith in
        absurd (omega arith)

    -- Over a platform with its documented behaviour: when roll_once adds a roll that it marks as
    -- verified, nothing runs any more and no error shows. The roll is the draw of the session's
    -- secret key for its memo, with that draw's value; and what the RPC has after the transaction
    -- passes every check of verify_authority_commit_end_to_end: the authority of the wallet and the
    -- label, and the commit for the memo.
    pub roll_once-IsConfirmed :
        (owner : sol.PublicKey) (page page' : WalletPage) (w w' : h.World) (r : WalletRoll)
        → roll_once sol ed h (some owner) page w ≡ (page', w')
        → page'.rolls ≡ r ∷ page.rolls
        → r.verify_valid ≡ true
        → (page'.error ≡ none)
          × (page'.busy ≡ false)
          × ((d : Draw) × (make_draw sol ed page.sk r.memo ≡ ok d)
              × (r.roll_value ≡ d.value)
              × IsConfirmed (h.rpc w') h.program owner page.label d)
    unfolding roll_once
    roll_once-IsConfirmed owner page page' w w' r e added valid =
        let (answer, v) = roll_and_check sol ed h owner page.sk page.label w in
        let same_page : set_rolled sol ed h answer page ≡ page' = ap (λ p. p.0) e in
        let same_world : v ≡ w' = ap (λ p. p.1) e in
        let (made, no_error, idle) =
          roll_once-added page answer r (ap (λ p. p.rolls) same_page ∙ added) in
        let run =
          roll_and_check-IsConfirmed owner page.sk page.label w w' r (both made same_world) valid in
        (sym (ap (λ p. p.error) same_page) ∙ no_error, sym (ap (λ p. p.busy) same_page) ∙ idle, run)
      where
        both : {p : Result DemoError WalletRoll × h.World} → p.0 ≡ ok r → p.1 ≡ w' → p ≡ (ok r, w')
        both a b = ap₂ (λ (x : Result DemoError WalletRoll) (y : h.World). (x, y)) a b
