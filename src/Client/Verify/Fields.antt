-- ===== src/Client/Verify/Fields.antt =====
-- The tests of verifyAuthorityCommitEndToEnd on one field each.
use cc_vrf.Common.{◌≡◌, ◌↔◌, refl, sym, ap, ◌∙◌, Bytes, true, Option, none, some}
use cc_vrf.Ecvrf.Encoding.Concat.{bytes_equal_iff}
use cc_vrf.Client.Platform.{Platform, IsPlatform}
use cc_vrf.Client.Verify.{
  commit_authority_equals, matches_key, matches_label, expected_address_matches, compare_beta,
  is_not_false,
}

module _ (sol : Platform) (is_platform : IsPlatform sol) where
  pub matches_key_iff :
      (expected : Option sol.PublicKey) (actual : sol.PublicKey)
      → (matches_key sol expected actual ≡ true)
        ↔ ((e : sol.PublicKey) → expected ≡ some e → actual ≡ e)
  matches_key_iff none actual = (λ h e is. absurd cc, λ h. refl)
  matches_key_iff (some x) actual = (
    (λ h e is. (is_platform.equals_iff actual x).0 h ∙ some_injective is),
    (λ h. (is_platform.equals_iff actual x).1 (h x refl)),
  )
    where
      some_injective : {a b : sol.PublicKey} → some a ≡ some b → a ≡ b
      some_injective e = cc

  pub address_matches_iff :
      (expected : Option sol.PublicKey) (derived : sol.PublicKey)
      → (expected_address_matches sol expected derived ≡ true)
        ↔ ((e : sol.PublicKey) → expected ≡ some e → e ≡ derived)
  address_matches_iff none derived = (λ h e is. absurd cc, λ h. refl)
  address_matches_iff (some x) derived = (
    (λ h e is. sym (some_injective is) ∙ (is_platform.equals_iff x derived).0 h),
    (λ h. (is_platform.equals_iff x derived).1 (h x refl)),
  )
    where
      some_injective : {a b : sol.PublicKey} → some a ≡ some b → a ≡ b
      some_injective e = cc

  pub commit_authority_iff :
      (authority : Option sol.PublicKey) (derived : sol.PublicKey)
      → (commit_authority_equals sol authority derived ≡ true) ↔ (authority ≡ some derived)
  commit_authority_iff none derived = (λ h. absurd cc, λ h. absurd cc)
  commit_authority_iff (some a) derived = (
    (λ h. ap some ((is_platform.equals_iff a derived).0 h)),
    (λ h. (is_platform.equals_iff a derived).1 (some_injective h)),
  )
    where
      some_injective : {a b : sol.PublicKey} → some a ≡ some b → a ≡ b
      some_injective e = cc

pub matches_label_iff :
    (expected : Option Bytes) (actual : Bytes)
    → (matches_label expected actual ≡ true) ↔ ((e : Bytes) → expected ≡ some e → actual ≡ e)
matches_label_iff none actual = (λ h e is. absurd cc, λ h. refl)
matches_label_iff (some x) actual = (
  (λ h e is. (bytes_equal_iff actual x).0 h ∙ some_injective is),
  (λ h. (bytes_equal_iff actual x).1 (h x refl)),
)
  where
    some_injective : {a b : Bytes} → some a ≡ some b → a ≡ b
    some_injective e = cc

pub beta_matches_iff :
    (on_chain beta : Option Bytes)
    → (is_not_false (compare_beta on_chain beta) ≡ true)
      ↔ ((b : Bytes) → on_chain ≡ some b → beta ≡ some b)
beta_matches_iff none beta = (λ h b is. absurd cc, λ h. refl)
beta_matches_iff (some x) none = (λ h. absurd cc, λ h. absurd (no x (h x refl)))
  where
    no : (x : Bytes) → ¬ (none ≡ some x)
    no x e = cc
beta_matches_iff (some x) (some y) = (
  (λ h b is. ap some (sym ((bytes_equal_iff x y).0 h)) ∙ is),
  (λ h. (bytes_equal_iff x y).1 (sym (some_injective (h x refl)))),
)
  where
    some_injective : {a b : Bytes} → some a ≡ some b → a ≡ b
    some_injective e = cc
