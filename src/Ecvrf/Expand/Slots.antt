-- ===== src/Ecvrf/Expand/Slots.antt =====
-- An array as `shuffle` of expand.ts writes to it: `none` is undefined, and an index below 0 is the
-- name of a property.
use cc_vrf.Common.{
  ℕ, ◌-◌, List, [], ◌∷◌, ◌++◌, map, Option, none, some, length, replicate, get_elem?, set, ltb,
  ◌==◌, if◌then◌else◌, ℤ, pos, negsuc,
}

pub record Slots {ℓ} (A : Type ℓ) : Type ℓ where
  pub elements : List (Option A)
  pub stray : List (ℕ × Option A)  -- the properties "-1", "-2" and so on, by their number from 0

module _ {ℓ} {A : Type ℓ} where
  -- `arr[k]`
  abbrev pub element_at : List A → ℤ → Option A
  element_at arr (pos i) = get_elem? arr i
  element_at arr (negsuc n) = none

  abbrev pub slots_of : List A → Slots A
  slots_of arr = record { elements = map some arr; stray = [] }

  abbrev pub or_undefined : Option (Option A) → Option A
  or_undefined none = none
  or_undefined (some v) = v

  unfoldable pub find_stray : ℕ → List (ℕ × Option A) → Option A
  find_stray n [] = none
  find_stray n ((m, v) ∷ stray) = let rest = find_stray n stray in if m == n then v else rest

  unfoldable pub put_stray : ℕ → Option A → List (ℕ × Option A) → List (ℕ × Option A)
  put_stray n v [] = (n, v) ∷ []
  put_stray n v ((m, w) ∷ stray) =
      let rest = put_stray n v stray in if m == n then (n, v) ∷ stray else (m, w) ∷ rest

  -- `out[i]`
  unfoldable pub read_slot : Slots A → ℤ → Option A
  read_slot out (pos i) = or_undefined (get_elem? out.elements i)
  read_slot out (negsuc n) = find_stray n out.stray

  -- `out[i] = v`, which makes the array longer where it has no index `i`
  unfoldable pub write_slot : Slots A → ℤ → Option A → Slots A
  write_slot out (pos i) v =
      if ltb i (length out.elements)
      then record out { elements = set out.elements i v }
      else record out {
        elements = out.elements ++ replicate (i - length out.elements) none ++ v ∷ [];
      }
  write_slot out (negsuc n) v = record out { stray = put_stray n v out.stray }

  -- `const tmp = out[i]; out[i] = out[j]; out[j] = tmp;`
  unfoldable pub swap : Slots A → ℤ → ℤ → Slots A
  swap out i j = let tmp = read_slot out i in write_slot (write_slot out i (read_slot out j)) j tmp
