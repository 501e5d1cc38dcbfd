-- ===== src/Client/Operations/Guards.antt =====
-- The guards of the commit operations, and the two byte comparisons of the package.
use cc_vrf.Common.{
  ◌≡◌, ◌≢◌, ◌↔◌, ◌⊎◌, refl, sym, ap₂, ◌∙◌, [], ◌∷◌, Bytes, true, false, Option, none, some, length,
  ◌==◌, ==_iff, Result, ok, err, arith, inl, inr, Bool-cases, if◌then◌else◌,
}
use cc_vrf.Ecvrf.Encoding.{bytes_equal}
use cc_vrf.Ecvrf.Encoding.Concat.{bytes_equal_iff}
use cc_vrf.Client.Platform.{
  Platform, ClientError, authority_not_found, suite_not_supported, not_frozen, is_revoked,
}
use cc_vrf.Client.Addresses.{suite_edwards25519_sha512_tai}
use cc_vrf.Client.Operations.{
  FetchedAuthority, assert_authority_can_commit, same_entries, bytes_equal_early,
}

same_entries_self : (a : Bytes) → same_entries a a ≡ true
unfolding same_entries
same_entries_self [] = refl
same_entries_self (x ∷ a) = rw ((==_iff x x).1 refl) (same_entries_self a)

same_entries-eq : (a b : Bytes) → length a ≡ length b → same_entries a b ≡ true → a ≡ b
unfolding same_entries
same_entries-eq [] [] e h = refl
same_entries-eq [] (y ∷ b) e h = absurd (omega arith)
same_entries-eq (x ∷ a) [] e h = absurd (omega arith)
same_entries-eq (x ∷ a) (y ∷ b) e h = elim (Bool-cases (x == y)) [
  | inl same ↦ ap₂ ◌∷◌ ((==_iff x y).0 same) (same_entries-eq a b (omega arith) (ground arith))
  | inr other ↦ absurd (ground arith)
]

-- The comparison that leaves its loop at the first difference answers true exactly on equal byte
-- strings.
pub bytes_equal_early_iff : (a b : Bytes) → (bytes_equal_early a b ≡ true) ↔ (a ≡ b)
unfolding bytes_equal_early
bytes_equal_early_iff a b = (sound, λ e. rw e complete)
  where
    complete : (if length b == length b then same_entries b b else false) ≡ true
    complete = rw ((==_iff (length b) (length b)).1 refl) (same_entries_self b)

    sound : (if length a == length b then same_entries a b else false) ≡ true → a ≡ b
    sound h = elim (Bool-cases (length a == length b)) [
      | inl e ↦ same_entries-eq a b ((==_iff _ _).0 e) (ground arith)
      | inr e ↦ absurd (ground arith)
    ]

-- The comparison that leaves its loop at the first difference agrees with the one that folds the
-- differences over all entries.
pub bytes_equal_early-bytes_equal : (a b : Bytes) → bytes_equal_early a b ≡ bytes_equal a b
bytes_equal_early-bytes_equal a b = elim (Bool-cases (bytes_equal a b)) [
  | inl e ↦ (bytes_equal_early_iff a b).1 ((bytes_equal_iff a b).0 e) ∙ sym e
  | inr e ↦ elim (Bool-cases (bytes_equal_early a b)) [
    | inr f ↦ f ∙ sym e
    | inl f ↦ absurd (ground (arith, (bytes_equal_iff a b).1 ((bytes_equal_early_iff a b).0 f)))
  ]
]

module _ (sol : Platform) where
  -- assert_authority_can_commit passes exactly an authority that was found, has the supported suite,
  -- is frozen and is not revoked, and returns it; the error tells the first of these that fails.
  pub assert_authority_can_commit_cases :
      (found : Option (FetchedAuthority sol))
      → ((found ≡ none) × (assert_authority_can_commit sol found ≡ err authority_not_found))
        ⊎ ((auth : FetchedAuthority sol) × (found ≡ some auth)
            × (((auth.decoded.suite ≡ suite_edwards25519_sha512_tai)
                  × (auth.decoded.frozen ≡ true)
                  × (auth.decoded.revoked ≡ false)
                  × (assert_authority_can_commit sol found ≡ ok auth))
                ⊎ ((auth.decoded.suite ≢ suite_edwards25519_sha512_tai)
                    × (assert_authority_can_commit sol found ≡ err suite_not_supported))
                ⊎ ((auth.decoded.suite ≡ suite_edwards25519_sha512_tai)
                    × (auth.decoded.frozen ≡ false)
                    × (assert_authority_can_commit sol found ≡ err not_frozen))
                ⊎ ((auth.decoded.suite ≡ suite_edwards25519_sha512_tai)
                    × (auth.decoded.frozen ≡ true)
                    × (auth.decoded.revoked ≡ true)
                    × (assert_authority_can_commit sol found ≡ err is_revoked))))
  unfolding assert_authority_can_commit
  assert_authority_can_commit_cases none = inl (refl, refl)
  assert_authority_can_commit_cases (some auth) =
      elim (Bool-cases (auth.decoded.suite == suite_edwards25519_sha512_tai)) [
        | inr e ↦ inr (auth, refl, ground arith)
        | inl e ↦ elim (Bool-cases auth.decoded.frozen) [
          | inr f ↦ inr (auth, refl, ground arith)
          | inl f ↦ elim (Bool-cases auth.decoded.revoked) [
            | inl r ↦ inr (auth, refl, ground arith)
            | inr r ↦ inr (auth, refl, ground arith)
          ]
        ]
      ]

  pub assert_authority_can_commit-eq-ok :
      (found : Option (FetchedAuthority sol)) {auth : FetchedAuthority sol}
      → assert_authority_can_commit sol found ≡ ok auth
      → (found ≡ some auth)
        × (auth.decoded.suite ≡ suite_edwards25519_sha512_tai)
        × (auth.decoded.frozen ≡ true)
        × (auth.decoded.revoked ≡ false)
  assert_authority_can_commit-eq-ok found {auth} e =
      elim (assert_authority_can_commit_cases found) [
        | inl (none_found, f) ↦ cc
        | inr (a, ef, inl (s, fr, rv, o)) ↦
            let same : a ≡ auth = injective (sym o ∙ e) in rw (← same) (ef, s, fr, rv)
        | inr (a, ef, inr (inl (s, o))) ↦ cc
        | inr (a, ef, inr (inr (inl (s, fr, o)))) ↦ cc
        | inr (a, ef, inr (inr (inr (s, fr, rv, o)))) ↦ cc
      ]
    where
      injective :
          {a b : FetchedAuthority sol}
          → Path (Result ClientError (FetchedAuthority sol)) (ok a) (ok b)
          → a ≡ b
      injective e = cc
