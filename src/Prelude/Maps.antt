-- ===== src/Prelude/Maps.antt =====
-- Go maps with string keys, as association lists: the first entry of a key counts.
use mathlib.Core.Path.{◌≡◌, refl}
use mathlib.Core.List.{List, [], ◌∷◌}
use mathlib.Core.Option.{Option, none, some}
use native.Mathlib.Omega.{arith}
use vasto.Prelude.Tests.{if◌then◌else◌}
use vasto.Prelude.ByteLists.{Bytes, bytes_eq, bytes_eq_iff}

module _ {ℓ} {A : Type ℓ} where
  unfoldable pub find : Bytes → List (Bytes × A) → Option A
  find key [] = none
  find key (entry ∷ rest) = if bytes_eq entry.0 key then some entry.1 else find key rest

  -- `m[key] = a`
  unfoldable pub assign : Bytes → A → List (Bytes × A) → List (Bytes × A)
  assign key a [] = (key, a) ∷ []
  assign key a (entry ∷ rest) =
      if bytes_eq entry.0 key then (key, a) ∷ rest else entry ∷ assign key a rest

  -- `delete(m, key)`
  unfoldable pub erase : Bytes → List (Bytes × A) → List (Bytes × A)
  erase key [] = []
  erase key (entry ∷ rest) =
      let more = erase key rest in if bytes_eq entry.0 key then more else entry ∷ more

  pub find-assign :
      (key other : Bytes) (a : A) (m : List (Bytes × A))
      → find other (assign key a m) ≡ (if bytes_eq key other then some a else find other m)
  unfolding find assign
  find-assign key other a [] = refl
  find-assign key other a (entry ∷ m) = ground (
    arith,
    find-assign key other a m,
    bytes_eq_iff entry.0 key,
    bytes_eq_iff entry.0 other,
    bytes_eq_iff key other,
  )

  pub find-erase :
      (key other : Bytes) (m : List (Bytes × A))
      → find other (erase key m) ≡ (if bytes_eq key other then none else find other m)
  unfolding find erase
  find-erase key other [] = ground arith
  find-erase key other (entry ∷ m) = ground (
    arith,
    find-erase key other m,
    bytes_eq_iff entry.0 key,
    bytes_eq_iff entry.0 other,
    bytes_eq_iff key other,
  )
