-- ===== src/Prelude/NumMaps.antt =====
-- Go maps with number keys, as association lists: the first entry of a key counts.
use Prim.Native.Nat.{ℕ, ◌≤◌, ◌<◌, ◌+◌, suc, zero}
use mathlib.Core.Path.{◌≡◌, refl, subst}
use mathlib.Core.Logic.{◌≢◌, inl, inr}
use mathlib.Core.Bool.{true}
use mathlib.Core.List.{List, [], ◌∷◌}
use mathlib.Core.Option.{Option, none, some}
use native.Mathlib.Omega.{arith}
use vasto.Prelude.Tests.{◌==◌, if◌then◌else◌, Bool-cases}
use vasto.Prelude.Lists.{All, length}

module _ {ℓ} {A : Type ℓ} where
  unfoldable pub find : ℕ → List (ℕ × A) → Option A
  find key [] = none
  find key (entry ∷ rest) = if entry.0 == key then some entry.1 else find key rest

  -- `m[key] = a`
  unfoldable pub assign : ℕ → A → List (ℕ × A) → List (ℕ × A)
  assign key a [] = (key, a) ∷ []
  assign key a (entry ∷ rest) =
      if entry.0 == key then (key, a) ∷ rest else entry ∷ assign key a rest

  -- `delete(m, key)`
  unfoldable pub erase : ℕ → List (ℕ × A) → List (ℕ × A)
  erase key [] = []
  erase key (entry ∷ rest) =
      let more = erase key rest in if entry.0 == key then more else entry ∷ more

  pub find-assign :
      (key other : ℕ) (a : A) (m : List (ℕ × A))
      → find other (assign key a m) ≡ (if key == other then some a else find other m)
  unfolding find assign
  find-assign key other a [] = refl
  find-assign key other a (entry ∷ m) = ground (arith, find-assign key other a m)

  pub find-erase :
      (key other : ℕ) (m : List (ℕ × A))
      → find other (erase key m) ≡ (if key == other then none else find other m)
  unfolding find erase
  find-erase key other [] = ground arith
  find-erase key other (entry ∷ m) = ground (arith, find-erase key other m)

  -- No two entries have the same key.
  abbrev pub IsMap : List (ℕ × A) → Type 0
  IsMap [] = Unit
  IsMap (entry ∷ rest) = All (λ other. other.0 ≢ entry.0) rest × IsMap rest

  -- All keys lie in a range of `n` numbers from `lo` on.
  abbrev pub InRange : ℕ → ℕ → List (ℕ × A) → Type 0
  InRange lo n = All (λ entry. (lo ≤ entry.0) × (entry.0 < lo + n))

  assign-ne :
      (key k : ℕ) (a : A) (m : List (ℕ × A))
      → key ≢ k
      → All (λ other. other.0 ≢ k) m
      → All (λ other. other.0 ≢ k) (assign key a m)
  unfolding assign
  assign-ne key k a [] h hs = (h, tt)
  assign-ne key k a (entry ∷ m) h hs = elim (Bool-cases (entry.0 == key)) [
    | inl e ↦ rw e (h, hs.1)
    | inr e ↦ rw e (hs.0, assign-ne key k a m h hs.1)
  ]

  same_key :
      (k l : ℕ) (m : List (ℕ × A))
      → (k == l) ≡ true
      → All (λ other. other.0 ≢ k) m
      → All (λ other. other.0 ≢ l) m
  same_key k l m e h =
      let same : k ≡ l = ground arith in subst (λ j. All (λ other. other.0 ≢ j) m) same h

  pub assign-IsMap : (key : ℕ) (a : A) (m : List (ℕ × A)) → IsMap m → IsMap (assign key a m)
  unfolding assign
  assign-IsMap key a [] v = (tt, tt)
  assign-IsMap key a (entry ∷ m) v = elim (Bool-cases (entry.0 == key)) [
    | inl e ↦ rw e (same_key entry.0 key m e v.0, v.1)
    | inr e ↦ rw e (assign-ne key entry.0 a m (ground arith) v.0, assign-IsMap key a m v.1)
  ]

  pub All-assign {κ} :
      (P : ℕ × A → Type κ) (key : ℕ) (a : A) (m : List (ℕ × A))
      → P (key, a)
      → All P m
      → All P (assign key a m)
  unfolding assign
  All-assign P key a [] h hs = (h, tt)
  All-assign P key a (entry ∷ m) h hs = elim (Bool-cases (entry.0 == key)) [
    | inl e ↦ rw e (h, hs.1)
    | inr e ↦ rw e (hs.0, All-assign P key a m h hs.1)
  ]

  pub All-erase {κ} :
      (P : ℕ × A → Type κ) (key : ℕ) (m : List (ℕ × A)) → All P m → All P (erase key m)
  unfolding erase
  All-erase P key [] hs = hs
  All-erase P key (entry ∷ m) hs = elim (Bool-cases (entry.0 == key)) [
    | inl e ↦ rw e (All-erase P key m hs.1)
    | inr e ↦ rw e (hs.0, All-erase P key m hs.1)
  ]

  pub erase-IsMap : (key : ℕ) (m : List (ℕ × A)) → IsMap m → IsMap (erase key m)
  unfolding erase
  erase-IsMap key [] v = v
  erase-IsMap key (entry ∷ m) v = elim (Bool-cases (entry.0 == key)) [
    | inl e ↦ rw e (erase-IsMap key m v.1)
    | inr e ↦ rw e (All-erase (λ other. other.0 ≢ entry.0) key m v.0, erase-IsMap key m v.1)
  ]

  erase_absent : (key : ℕ) (m : List (ℕ × A)) → All (λ other. other.0 ≢ key) m → erase key m ≡ m
  unfolding erase
  erase_absent key [] h = refl
  erase_absent key (entry ∷ m) h = ground (arith, erase_absent key m h.1)

  length-erase : (key : ℕ) (m : List (ℕ × A)) → IsMap m → length m ≤ suc (length (erase key m))
  unfolding erase
  length-erase key [] v = omega arith
  length-erase key (entry ∷ m) v = elim (Bool-cases (entry.0 == key)) [
    | inl e ↦ rw (e, erase_absent key m (same_key entry.0 key m e v.0)) (omega arith)
    | inr e ↦ rw e (omega (arith, length-erase key m v.1))
  ]

  erase_top : (lo n : ℕ) (m : List (ℕ × A)) → InRange lo (suc n) m → InRange lo n (erase (lo + n) m)
  unfolding erase
  erase_top lo n [] h = tt
  erase_top lo n (entry ∷ m) h = elim (Bool-cases (entry.0 == lo + n)) [
    | inl e ↦ rw e (erase_top lo n m h.1)
    | inr e ↦ rw e ((h.0.0, ground arith), erase_top lo n m h.1)
  ]

  -- A map whose keys lie in a range of `n` numbers has at most `n` entries.
  pub length-le-range : (lo n : ℕ) (m : List (ℕ × A)) → IsMap m → InRange lo n m → length m ≤ n
  length-le-range lo zero [] v h = omega arith
  length-le-range lo zero (entry ∷ m) v h = absurd (omega arith)
  length-le-range lo (suc n) m v h = omega (
    arith,
    length-erase (lo + n) m v,
    length-le-range lo n (erase (lo + n) m) (erase-IsMap (lo + n) m v) (erase_top lo n m h),
  )
