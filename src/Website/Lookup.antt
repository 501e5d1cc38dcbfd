-- ===== src/Website/Lookup.antt =====
-- apps/website/src/pages/LookupPage.tsx: `lookup`. `new PublicKey(text)` is `parse_key` and
-- `new TextDecoder().decode` is `decode`.
pub mod Label
use cc_vrf.Common.{
  ℕ, zero, suc, List, Bytes, Bool, true, false, Option, none, some, take, length, get_or, ◌==◌,
  if◌then◌else◌, Result, ok, err, guard, ◌>>=◌, ◌>>◌,
}
use cc_vrf.Client.Light.{Rpc}
use cc_vrf.Client.Operations.{Program, FetchedAuthority, fetch_authority}
use cc_vrf.Client.Platform.{Platform, string}
use cc_vrf.Ecvrf.Encoding.{bytes_to_hex}
use cc_vrf.Website.Verify.{
  PageError, invalid_owner, label_required, trim, is_given, or_absent, called,
}

-- `let end = length; while (end > 0 && labelBytes[end - 1] === 0) end--;`
unfoldable pub label_end : Bytes → ℕ → ℕ
label_end label zero = zero
label_end label (suc end) =
    let rest = label_end label end in if get_or label end 0 == 0 then rest else suc end

module _ (sol : Platform) (parse_key : List ℕ → Option sol.PublicKey)
    (decode : Bytes → List ℕ) where
  pub record AuthorityRow : Type 0 where
    pub authority_address : sol.PublicKey
    pub owner : sol.PublicKey
    pub pk_hex : List ℕ
    pub suite : ℕ
    pub frozen : Bool
    pub revoked : Bool
    pub label : List ℕ
    pub label_hex : List ℕ

  -- The label as text, without the zeros that pad it.
  unfoldable pub label_text : Bytes → List ℕ
  label_text label = decode (take (label_end label (length label)) label)

  unfoldable pub authority_row_of : FetchedAuthority sol → AuthorityRow
  authority_row_of auth = record {
    authority_address = auth.authority_address;
    owner = auth.decoded.owner;
    pk_hex = bytes_to_hex auth.decoded.pk;
    suite = auth.decoded.suite;
    frozen = auth.decoded.frozen;
    revoked = auth.decoded.revoked;
    label = label_text auth.decoded.label;
    label_hex = bytes_to_hex auth.decoded.label;
  }

  -- The variables of the page that `lookup` sets.
  pub record LookupState : Type 0 where
    pub loading : Bool
    pub error : Option PageError
    pub result : Option AuthorityRow
    pub not_found : Bool

  module _ (rpc : Rpc sol) (program : Program sol) where
    -- The body of the `try` block, up to the test for null.
    unfoldable pub try_lookup : List ℕ → List ℕ → Result PageError (Option (FetchedAuthority sol))
    try_lookup owner label = do
      owner_pk ← or_absent invalid_owner (parse_key (trim owner))
      guard (is_given (trim label)) label_required
      called (fetch_authority sol rpc program owner_pk (string label))

    unfoldable pub set_lookup : Result PageError (Option (FetchedAuthority sol)) → LookupState
    set_lookup (ok (some auth)) = record {
      loading = false;
      error = none;
      result = some (authority_row_of auth);
      not_found = false;
    }
    set_lookup (ok none) = record { loading = false; error = none; result = none; not_found = true }
    set_lookup (err e) = record {
      loading = false;
      error = some e;
      result = none;
      not_found = false;
    }

    unfoldable pub lookup : List ℕ → List ℕ → LookupState
    lookup owner label = set_lookup (try_lookup owner label)
