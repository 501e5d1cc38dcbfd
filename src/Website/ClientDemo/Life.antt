-- ===== src/Website/ClientDemo/Life.antt =====
-- The browser demo over every sequence of its events.
use cc_vrf.Common.{
  ℕ, ◌≤◌, ◌<◌, ◌≡◌, ◌≢◌, refl, sym, ap, subst, ◌∙◌, List, [], ◌∷◌, Bytes, All, true, false, Option,
  none, some, length, take, length-take, All-take, ok, err, inl, inr, Result-cases, >>=-eq-ok,
  >>=-ok, ok_injective, arith,
}
use cc_vrf.Client.Platform.{Platform}
use cc_vrf.Demo.Draw.{roll_value}
use cc_vrf.Demo.Host.{DemoError, from_vrf}
use cc_vrf.Ecvrf.Curve.{Curve, IsNoble, IsEdwards}
use cc_vrf.Ecvrf.Encoding.{Error}
use cc_vrf.Ecvrf.HashToCurve.{encode_to_curve_tai}
use cc_vrf.Ecvrf.Keypair.{generate_key_pair, generate_nonce}
use cc_vrf.Ecvrf.Prove.{prove_vrf}
use cc_vrf.Ecvrf.Prove.RoundTrip.{verify_vrf-prove_vrf}
use cc_vrf.Ecvrf.Prove.Shape.{prove_vrf-IsByte}
use cc_vrf.Ecvrf.Verify.{verify_vrf, vrf_proof_to_hash}
use cc_vrf.Ecvrf.Verify.Beta.{vrf_proof_to_hash-verify_vrf}
use cc_vrf.Website.ClientDemo.{
  ShownRoll, DemoPage, open_page, set_keypair, set_roll, regenerate_keypair, next_roll, do_roll,
}
use cc_vrf.Website.ClientDemo.Fair.{
  IsPair, generate_key_pair-IsPair, IsFair, next_roll-IsFair, value_made, from_vrf-ok,
}

module _ (sol : Platform) (ed : Curve) (noble : IsNoble ed) (edwards : IsEdwards ed noble) where
  -- The events of the page; the roll button is disabled while a roll runs and on an empty memo.
  pub data Step (p : DemoPage) : DemoPage → Type 0 where
    new_keypair : (seed : Bytes) → Step p (regenerate_keypair sol ed seed p)
    edit_memo : (memo : List ℕ) → Step p (record p { memo = memo })
    roll :
        (fresh_memo : List ℕ)
        → p.running ≡ false
        → p.memo ≢ []
        → Step p (do_roll sol ed fresh_memo p)

  pub data Reach (start : DemoPage) : DemoPage → Type 0 where
    here : Reach start start
    next : {p q : DemoPage} → Reach start p → Step p q → Reach start q

  abbrev head : List ShownRoll → Option ShownRoll
  head [] = none
  head (r ∷ rs) = some r

  abbrev pub IsFairPage : DemoPage → Type 0
  IsFairPage page =
      IsPair sol ed noble edwards page.sk page.pk
      × (page.running ≡ false)
      × (length page.history ≤ 5)
      × (page.latest ≡ head page.history)
      × All (IsFair sol ed noble edwards page.pk) page.history

  -- What a roll that is made leaves.
  abbrev pub rolled : List ℕ → DemoPage → ShownRoll → DemoPage
  rolled fresh_memo p r = record p {
    latest = some r;
    history = take 5 (r ∷ p.history);
    memo = fresh_memo;
    running = false;
  }

  regenerate_keypair-made :
      (seed sk pk : Bytes) (p : DemoPage)
      → generate_key_pair ed seed ≡ ok (sk, pk)
      → regenerate_keypair sol ed seed p
        ≡ record p { sk = sk; pk = pk; latest = none; history = [] }
  unfolding regenerate_keypair set_keypair
  regenerate_keypair-made seed sk pk p e = ap (λ m. set_keypair sol ed m p) e

  regenerate_keypair-thrown :
      (seed : Bytes) (p : DemoPage) (x : Error)
      → generate_key_pair ed seed ≡ err x
      → regenerate_keypair sol ed seed p ≡ p
  unfolding regenerate_keypair set_keypair
  regenerate_keypair-thrown seed p x e = ap (λ m. set_keypair sol ed m p) e

  regenerate_keypair-IsFairPage :
      (seed : Bytes) (p : DemoPage) → IsFairPage p → IsFairPage (regenerate_keypair sol ed seed p)
  regenerate_keypair-IsFairPage seed p fair = elim (Result-cases (generate_key_pair ed seed)) [
    | inl ((sk, pk), e) ↦
        let pair = generate_key_pair-IsPair sol ed noble edwards seed sk pk e in
        subst IsFairPage (sym (regenerate_keypair-made seed sk pk p e))
          (pair, fair.1, omega arith, refl, tt)
    | inr (x, e) ↦ subst IsFairPage (sym (regenerate_keypair-thrown seed p x e)) fair
  ]

  do_roll-made :
      (fresh_memo : List ℕ) (p : DemoPage) (r : ShownRoll)
      → next_roll sol ed p ≡ ok r
      → do_roll sol ed fresh_memo p ≡ rolled fresh_memo p r
  unfolding do_roll set_roll
  do_roll-made fresh_memo p r e = ap (λ m. set_roll sol ed fresh_memo m p) e

  do_roll-thrown :
      (fresh_memo : List ℕ) (p : DemoPage) (x : DemoError)
      → next_roll sol ed p ≡ err x
      → do_roll sol ed fresh_memo p ≡ record p { running = false }
  unfolding do_roll set_roll
  do_roll-thrown fresh_memo p x e = ap (λ m. set_roll sol ed fresh_memo m p) e

  do_roll-IsFairPage :
      (fresh_memo : List ℕ) (p : DemoPage) → IsFairPage p → IsFairPage (do_roll sol ed fresh_memo p)
  do_roll-IsFairPage fresh_memo p (pair, idle, len, latest, all) =
      elim (Result-cases (next_roll sol ed p)) [
        | inl (r, e) ↦
            let fair = next_roll-IsFair sol ed noble edwards p r pair e in
            subst IsFairPage (sym (do_roll-made fresh_memo p r e)) (
              pair,
              refl,
              omega (arith, length-take 5 (r ∷ p.history)),
              refl,
              All-take (IsFair sol ed noble edwards p.pk) 5 (r ∷ p.history) (fair, all),
            )
        | inr (x, e) ↦
            subst IsFairPage (sym (do_roll-thrown fresh_memo p x e)) (pair, refl, len, latest, all)
      ]

  open_page-IsFairPage :
      (seed : Bytes) (memo : List ℕ) (p : DemoPage)
      → open_page sol ed seed memo ≡ ok p
      → IsFairPage p
  unfolding open_page
  open_page-IsFairPage seed memo p e =
      let ((sk, pk), e1, r1) = >>=-eq-ok (generate_key_pair ed seed) _ e in
      subst IsFairPage (ok_injective r1)
        (generate_key_pair-IsPair sol ed noble edwards seed sk pk e1, refl, omega arith, refl, tt)

  step-IsFairPage : {p q : DemoPage} → Step p q → IsFairPage p → IsFairPage q
  step-IsFairPage {p} (new_keypair seed) fair = regenerate_keypair-IsFairPage seed p fair
  step-IsFairPage {p} (edit_memo memo) fair = fair
  step-IsFairPage {p} (roll fresh_memo idle given) fair = do_roll-IsFairPage fresh_memo p fair

  kept : {p q : DemoPage} → Reach p q → IsFairPage p → IsFairPage q
  kept here fair = fair
  kept (next r s) fair = step-IsFairPage s (kept r fair)

  -- Over a curve library with its documented behaviour and the laws of the curve's group: from the
  -- page as it opens, after any sequence of new key pairs, edits of the memo and rolls, no roll is
  -- running, at most five rolls are shown, the latest first, and every one of them is fair. That is,
  -- its proof verifies under the key on the page for the hash of its memo, its value is that of the
  -- proof's beta and lies between 1 and 100, it shows key, input, proof and beta in hex, and it is
  -- marked as valid.
  pub Reach-IsFairPage :
      (seed : Bytes) (memo : List ℕ) (start page : DemoPage)
      → open_page sol ed seed memo ≡ ok start
      → Reach start page
      → IsFairPage page
  Reach-IsFairPage seed memo start page opened reach =
      kept reach (open_page-IsFairPage seed memo start opened)

  -- Over a curve library with its documented behaviour and the laws of the curve's group: on a page
  -- with a key pair, where the input hashes to a point and the nonce is not 0, a roll is made. It
  -- is fair, has the memo of the page, is shown as the latest one and before the others, of which
  -- the last goes when there are more than five, and the memo is a new one.
  pub do_roll_makes :
      (fresh_memo : List ℕ) (page : DemoPage) (h : ed.Point) (k : ℕ)
      → IsFairPage page
      → encode_to_curve_tai ed page.pk (sol.sha256 (sol.utf8 page.memo)) ≡ ok h
      → generate_nonce ed page.sk (ed.to_bytes h) ≡ ok k
      → 0 < k
      → (r : ShownRoll) × IsFair sol ed noble edwards page.pk r
        × (r.memo ≡ page.memo)
        × (do_roll sol ed fresh_memo page ≡ rolled fresh_memo page r)
  unfolding next_roll
  do_roll_makes fresh_memo page h k fair eh ek k_pos =
      let pair = fair.0 in
      let (x, y, made, key) = pair in
      let alpha = sol.sha256 (sol.utf8 page.memo) in
      let (proof, gamma, proves, len, eg, valid) =
        verify_vrf-prove_vrf ed noble edwards page.sk alpha x k y h made (rw (← key) eh) ek k_pos in
      let (g, decodes, hashed, long) =
        vrf_proof_to_hash-verify_vrf ed noble edwards (ed.to_bytes y) alpha proof
          (prove_vrf-IsByte ed noble page.sk alpha proves) valid in
      let (v, ev) = value_made sol ed noble edwards _ long (noble.sha512-IsByte _) in
      let valid_here = subst (λ b. verify_vrf ed b alpha proof ≡ ok true) (sym key) valid in
      let e =
        >>=-ok (from_vrf (prove_vrf ed page.sk alpha)) _ (from_vrf-ok sol ed noble edwards _ proves)
        ∙ >>=-ok (from_vrf (vrf_proof_to_hash ed proof)) _
            (from_vrf-ok sol ed noble edwards _ hashed)
        ∙ >>=-ok (from_vrf (verify_vrf ed page.pk alpha proof)) _
            (from_vrf-ok sol ed noble edwards _ valid_here)
        ∙ >>=-ok (roll_value _) _ ev in
      (
        _,
        next_roll-IsFair sol ed noble edwards page _ pair e,
        refl,
        do_roll-made fresh_memo page _ e,
      )
