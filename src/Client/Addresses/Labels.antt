-- ===== src/Client/Addresses/Labels.antt =====
-- Labels and the addresses derived from them.
use cc_vrf.Common.{
  ℕ, ◌-◌, ◌≤◌, ◌<◌, ◌≡◌, ◌⊎◌, refl, List, ◌++◌, Bytes, Bool, true, leb, length, replicate, ◌==◌,
  ==_iff, guard, ◌>>◌, ok, err, arith, Bool-cases, inl, inr, length-append, length-replicate, take,
  take-append_self,
}
use cc_vrf.Client.Platform.{Platform, IsPlatform, Text, label_too_long}
use cc_vrf.Client.Addresses.{
  encode_label, derive_authority_address, derive_proof_commit_address,
  derive_proof_commit_with_beta_address, memo_hash, text_bytes,
}

guarded {ℓ κ} :
    {E : Type ℓ} {A : Type κ} {b : Bool} (e : E) (a : A) → b ≡ true → (guard b e >> ok a) ≡ ok a
guarded {b} e a h = rw h refl

module _ (sol : Platform) where
  -- A label of at most 32 bytes of UTF-8 is padded to 32 bytes that begin with it, and an authority
  -- address derives from them; a longer label is refused.
  pub encode_label_cases :
      (label : List ℕ) (owner program_id : sol.PublicKey)
      → ((length (sol.utf8 label) ≤ 32)
          × ((out : Bytes) × (encode_label sol label ≡ ok out)
              × (length out ≡ 32)
              × (take (length (sol.utf8 label)) out ≡ sol.utf8 label)
              × ((a : sol.PublicKey) × (derive_authority_address sol owner out program_id ≡ ok a))))
        ⊎ ((32 < length (sol.utf8 label)) × (encode_label sol label ≡ err label_too_long))
  unfolding encode_label derive_authority_address
  encode_label_cases label owner program_id =
      let bytes = sol.utf8 label in
      let out = bytes ++ replicate (32 - length bytes) 0 in
      elim (Bool-cases (leb (length bytes) 32)) [
        | inr long ↦ inr (ground arith, ground arith)
        | inl short ↦
            let h : length bytes ≤ 32 = ground arith in
            let len : length out ≡ 32 = omega (
              arith,
              length-append bytes (replicate (32 - length bytes) 0),
              length-replicate {A = ℕ} (32 - length bytes) 0,
            ) in
            let ok_len : (length out == 32) ≡ true = (==_iff (length out) 32).1 len in
            inl
              (h, (out, ground arith, len, take-append_self bytes _ refl, (_, guarded _ _ ok_len)))
      ]

  -- Over a platform with its documented behaviour, the hash of a memo gives a commit address for
  -- every authority, and the two registry modes have the same one.
  pub derive_proof_commit_address_lem :
      (is_platform : IsPlatform sol) (authority : sol.PublicKey) (memo : Text)
      (program_id : sol.PublicKey)
      → (a : sol.PublicKey) × (derive_proof_commit_address sol authority
            (memo_hash sol memo)
            program_id
          ≡ ok a)
        × (derive_proof_commit_with_beta_address sol authority (memo_hash sol memo) program_id
            ≡ ok a)
  unfolding derive_proof_commit_address derive_proof_commit_with_beta_address memo_hash
  derive_proof_commit_address_lem is_platform authority memo program_id =
      let good : (length (sol.sha256 (text_bytes sol memo)) == 32) ≡ true =
        (==_iff _ 32).1 (is_platform.length-sha256 (text_bytes sol memo)) in
      (_, guarded _ _ good, guarded _ _ good)
