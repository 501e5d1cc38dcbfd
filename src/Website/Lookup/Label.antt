-- ===== src/Website/Lookup/Label.antt =====
-- The label that the lookup page shows.
use cc_vrf.Common.{
  ℕ, zero, suc, ◌+◌, ◌-◌, ◌<◌, ◌≡◌, ◌≢◌, refl, sym, ap, subst, ◌∙◌, List, [], ◌∷◌, ◌++◌, Bytes,
  Option, none, some, length, length-append, replicate, take, take-append_self, get_or, leb, Result,
  ok, err, >>=-eq-ok, guard-eq-ok, some_injective, ok_injective, arith,
}
use cc_vrf.Client.Addresses.{encode_label, label_bytes}
use cc_vrf.Client.Light.{Rpc}
use cc_vrf.Client.Operations.{Program, FetchedAuthority, fetch_authority}
use cc_vrf.Client.Platform.{Platform, label_too_long, string}
use cc_vrf.Website.Lookup.{
  label_end, label_text, AuthorityRow, authority_row_of, try_lookup, set_lookup, lookup,
}
use cc_vrf.Website.Steps.{or_absent-eq-ok, called-eq-ok}
use cc_vrf.Website.Verify.{PageError, or_absent, invalid_owner, label_required, is_given, trim}

get_or-append : (a b : Bytes) (i n : ℕ) → n ≡ length a + i → get_or (a ++ b) n 0 ≡ get_or b i 0
get_or-append [] b i n e = let same : n ≡ i = omega arith in ap (λ (m : ℕ). get_or b m 0) same
get_or-append (x ∷ a) b i zero e = absurd (omega arith)
get_or-append (x ∷ a) b i (suc n) e = get_or-append a b i n (omega arith)

get_or-zeros : (k i : ℕ) → Path ℕ (get_or (replicate k 0) i 0) 0
get_or-zeros zero i = refl
get_or-zeros (suc k) zero = refl
get_or-zeros (suc k) (suc i) = get_or-zeros k i

get_or-front : (a b : Bytes) (i : ℕ) → i < length a → get_or (a ++ b) i 0 ≡ get_or a i 0
get_or-front [] b i h = absurd (omega arith)
get_or-front (x ∷ a) b zero h = refl
get_or-front (x ∷ a) b (suc i) h = get_or-front a b i (omega arith)

label_end-skip :
    (label : Bytes) (n : ℕ) → get_or label n 0 ≡ 0 → label_end label (suc n) ≡ label_end label n
unfolding label_end
label_end-skip label n e = ground arith

label_end-stop : (label : Bytes) (n : ℕ) → get_or label n 0 ≢ 0 → label_end label (suc n) ≡ suc n
unfolding label_end
label_end-stop label n ne = ground arith

-- The zeros behind a text are skipped.
label_end-zeros :
    (text : Bytes) (z k n : ℕ)
    → n ≡ length text + k
    → label_end (text ++ replicate z 0) n ≡ label_end (text ++ replicate z 0) (length text)
label_end-zeros text z zero n e =
    let same : n ≡ length text = omega arith in
    ap (λ (m : ℕ). label_end (text ++ replicate z 0) m) same
label_end-zeros text z (suc k) zero e = absurd (omega arith)
label_end-zeros text z (suc k) (suc n) e =
    let padded = get_or-append text (replicate z 0) k n (omega arith) ∙ get_or-zeros z k in
    label_end-skip (text ++ replicate z 0) n padded ∙ label_end-zeros text z k n (omega arith)

-- A text whose last byte, if any, is not 0.
abbrev pub EndsNonzero : Bytes → Type 0
EndsNonzero text = (n : ℕ) → length text ≡ suc n → get_or text n 0 ≢ 0

label_end-text :
    (text : Bytes) (z n : ℕ)
    → EndsNonzero text
    → n ≡ length text
    → label_end (text ++ replicate z 0) n ≡ n
unfolding label_end
label_end-text text z zero ends e = refl
label_end-text text z (suc n) ends e =
    let front = get_or-front text (replicate z 0) n (omega arith) in
    label_end-stop (text ++ replicate z 0) n (λ zero_. ends n (sym e) (sym front ∙ zero_))

module _ (sol : Platform) (parse_key : List ℕ → Option sol.PublicKey)
    (decode : Bytes → List ℕ) where
  label_text-encode_label :
      (label : List ℕ) {bytes : Bytes}
      → EndsNonzero (sol.utf8 label)
      → encode_label sol label ≡ ok bytes
      → label_text sol parse_key decode bytes ≡ decode (sol.utf8 label)
  unfolding encode_label label_text
  label_text-encode_label label {bytes} ends e =
      let text = sol.utf8 label in
      let z = 32 - length text in
      let (short, made) = guard-eq-ok (leb (length text) 32) label_too_long _ e in
      let padded = text ++ replicate z 0 in
      let is : label_end padded (length padded) ≡ length text =
        label_end-zeros text z (length (replicate {A = ℕ} z 0)) (length padded)
          (length-append text (replicate z 0))
        ∙ label_end-text text z (length text) ends refl in
      ap (λ b. decode (take (label_end b (length b)) b)) (sym (ok_injective made))
      ∙ ap decode (take-append_self text (replicate z 0) is)

  module _ (rpc : Rpc sol) (program : Program sol) where
    -- The record at the address of the owner and the label is a record of that owner and label.
    abbrev pub HonestFor : List ℕ → List ℕ → Type 0
    HonestFor owner label =
        (owner_pk : sol.PublicKey) (auth : FetchedAuthority sol)
        → parse_key (trim owner) ≡ some owner_pk
        → fetch_authority sol rpc program owner_pk (string label) ≡ ok (some auth)
        → (auth.decoded.owner ≡ owner_pk) × (label_bytes sol (string label) ≡ ok auth.decoded.label)

    found-authority :
        (owner label : List ℕ) (row : AuthorityRow sol parse_key decode)
        → (lookup sol parse_key decode rpc program owner label).result ≡ some row
        → (auth : FetchedAuthority sol) × (try_lookup sol parse_key decode rpc program owner label
            ≡ ok (some auth))
          × (authority_row_of sol parse_key decode auth ≡ row)
    unfolding lookup set_lookup
    found-authority owner label row e =
        cases (try_lookup sol parse_key decode rpc program owner label) e
      where
        cases :
            (answer : Result PageError (Option (FetchedAuthority sol)))
            → (set_lookup sol parse_key decode rpc program answer).result ≡ some row
            → (auth : FetchedAuthority sol) × (answer ≡ ok (some auth))
              × (authority_row_of sol parse_key decode auth ≡ row)
        cases (ok (some auth)) e = (auth, refl, some_injective e)
        cases (ok none) e = absurd cc
        cases (err x) e = absurd cc

    -- When the record at an owner's and label's address is of that owner and label, and the label's
    -- UTF-8 does not end in a zero byte: a row that the lookup shows for the label is of the owner
    -- typed in, and its label is the decoded UTF-8 of the one typed in, without the padding.
    pub lookup-label_text :
        (owner label : List ℕ) (row : AuthorityRow sol parse_key decode)
        → HonestFor owner label
        → EndsNonzero (sol.utf8 label)
        → (lookup sol parse_key decode rpc program owner label).result ≡ some row
        → (parse_key (trim owner) ≡ some row.owner) × (row.label ≡ decode (sol.utf8 label))
    unfolding try_lookup authority_row_of label_bytes
    lookup-label_text owner label row honest ends e =
        let (auth, tried, shown) = found-authority owner label row e in
        let (owner_pk, e1, r1) =
          >>=-eq-ok (or_absent invalid_owner (parse_key (trim owner))) _ tried in
        let (given, r2) = guard-eq-ok (is_given (trim label)) label_required _ r1 in
        let (same_owner, same_label) =
          honest owner_pk auth (or_absent-eq-ok _ _ e1) (called-eq-ok _ r2) in
        subst
          (λ (s : AuthorityRow sol parse_key decode).
            (parse_key (trim owner) ≡ some s.owner) × (s.label ≡ decode (sol.utf8 label)))
          shown
          (
            or_absent-eq-ok _ _ e1 ∙ ap some (sym same_owner),
            label_text-encode_label label ends same_label,
          )
