-- ===== src/Client/Verify/Canonical.antt =====
-- pickCanonicalCommit: the first candidate with the hash of the proof.
use cc_vrf.Common.{
  ◌≡◌, ◌≢◌, ◌⊎◌, refl, sym, ap, ◌∙◌, List, [], ◌∷◌, ◌++◌, Bytes, true, false, ltb, length, none,
  some, arith, inl, inr, Bool-cases, All,
}
use cc_vrf.Ecvrf.Encoding.{bytes_equal}
use cc_vrf.Ecvrf.Encoding.Concat.{bytes_equal_iff}
use cc_vrf.Client.Platform.{Platform}
use cc_vrf.Client.Verify.{OnChainCommit, matching_commits, first_or_null, pick_canonical_commit}

module _ (sol : Platform) where
  abbrev pub Matches : Bytes → OnChainCommit sol → Type 0
  Matches proof c = c.proof_hash ≡ sol.sha256 proof

  abbrev FirstMatch : Bytes → List (OnChainCommit sol) → Type 0
  FirstMatch proof cs =
      (front : List (OnChainCommit sol)) × (c : OnChainCommit sol) × (back : List
        (OnChainCommit sol))
      × (cs ≡ front ++ c ∷ back)
      × All (λ c. ¬ Matches proof c) front
      × Matches proof c
      × (matching_commits sol (sol.sha256 proof) cs
          ≡ c ∷ matching_commits sol (sol.sha256 proof) back)

  -- Some candidate has the hash of the proof.
  abbrev pub HasMatch : Bytes → List (OnChainCommit sol) → Type 0
  HasMatch proof cs =
      (front : List (OnChainCommit sol)) × (c : OnChainCommit sol) × (back : List
        (OnChainCommit sol))
      × (cs ≡ front ++ c ∷ back)
      × Matches proof c

  matching_skip :
      (hash : Bytes) (c : OnChainCommit sol) (cs : List (OnChainCommit sol))
      → c.proof_hash ≢ hash
      → matching_commits sol hash (c ∷ cs) ≡ matching_commits sol hash cs
  unfolding matching_commits
  matching_skip hash c cs ne = elim (Bool-cases (bytes_equal hash c.proof_hash)) [
    | inl e ↦ absurd (ne (sym ((bytes_equal_iff _ _).0 e)))
    | inr e ↦ ground arith
  ]

  matching_take :
      (hash : Bytes) (c : OnChainCommit sol) (cs : List (OnChainCommit sol))
      → c.proof_hash ≡ hash
      → matching_commits sol hash (c ∷ cs) ≡ c ∷ matching_commits sol hash cs
  unfolding matching_commits
  matching_take hash c cs same =
      let e = (bytes_equal_iff hash c.proof_hash).1 (sym same) in ground arith

  Bytes-dec : (a b : Bytes) → (a ≡ b) ⊎ (a ≢ b)
  Bytes-dec a b = elim (Bool-cases (bytes_equal a b)) [
    | inl e ↦ inl ((bytes_equal_iff a b).0 e)
    | inr e ↦ inr (λ same. absurd (ground (arith, (bytes_equal_iff a b).1 same)))
  ]

  -- Either no candidate matches, or the first one that does stands behind others that do not.
  first_cases :
      (proof : Bytes) (cs : List (OnChainCommit sol))
      → ((matching_commits sol (sol.sha256 proof) cs ≡ []) × All (λ c. ¬ Matches proof c) cs)
        ⊎ FirstMatch proof cs
  first_cases proof [] = inl (unfold matching_commits in refl, tt)
  first_cases proof (d ∷ cs) = elim (Bytes-dec d.proof_hash (sol.sha256 proof)) [
    | inl same ↦ inr ([], d, cs, refl, tt, same, matching_take (sol.sha256 proof) d cs same)
    | inr ne ↦ elim (first_cases proof cs) [
      | inl (e, all) ↦ inl (matching_skip (sol.sha256 proof) d cs ne ∙ e, (ne, all))
      | inr (front, c, back, e, all, m, f) ↦ inr (
        d ∷ front,
        c,
        back,
        ap (λ t. d ∷ t) e,
        (ne, all),
        m,
        matching_skip (sol.sha256 proof) d cs ne ∙ f,
      )
    ]
  ]

  -- pick_canonical_commit returns null exactly when no candidate has the hash of the proof; else it
  -- returns the first one that has it, and reports several exactly when another one follows it.
  pub pick_canonical_commit_cases :
      (candidates : List (OnChainCommit sol)) (proof : Bytes)
      → let r = pick_canonical_commit sol candidates proof in
        ((r.canonical ≡ none)
          × (r.multiple_verifying ≡ false)
          × All (λ c. ¬ Matches proof c) candidates)
        ⊎ ((front : List (OnChainCommit sol)) × (c : OnChainCommit sol) × (back : List
              (OnChainCommit sol))
            × (candidates ≡ front ++ c ∷ back)
            × All (λ c. ¬ Matches proof c) front
            × Matches proof c
            × (r.canonical ≡ some c)
            × (((r.multiple_verifying ≡ false) × All (λ c. ¬ Matches proof c) back)
                ⊎ ((r.multiple_verifying ≡ true) × HasMatch proof back)))
  unfolding pick_canonical_commit
  pick_canonical_commit_cases candidates proof = elim (first_cases proof candidates) [
    | inl (e, all) ↦ inl (rw e refl, rw e refl, all)
    | inr (front, c, back, e, all, m, f) ↦ inr (
      front,
      c,
      back,
      e,
      all,
      m,
      ap (λ t. first_or_null sol t) f,
      rw f (several c (first_cases proof back)),
    )
  ]
    where
      several :
          {back : List (OnChainCommit sol)} (c : OnChainCommit sol)
          → ((matching_commits sol (sol.sha256 proof) back ≡ [])
              × All (λ c. ¬ Matches proof c) back)
            ⊎ FirstMatch proof back
          → ((ltb 1 (length (c ∷ matching_commits sol (sol.sha256 proof) back)) ≡ false)
              × All (λ c. ¬ Matches proof c) back)
            ⊎ ((ltb 1 (length (c ∷ matching_commits sol (sol.sha256 proof) back)) ≡ true)
                × HasMatch proof back)
      several c (inl (e, all)) = inl (rw e refl, all)
      several c (inr (front, d, rest, e, all, m, f)) =
          inr (rw f (ground arith), (front, d, rest, e, m))
