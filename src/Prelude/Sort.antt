-- ===== src/Prelude/Sort.antt =====
-- Insertion sort by a `less` test, which is what `sort.Slice` runs on slices of fewer than twelve
-- elements. Longer slices get another algorithm, and equal elements may then change places.
use mathlib.Core.Logic.{inl, inr}
use mathlib.Core.Bool.{Bool}
use Prim.Native.Nat.{ℕ, ◌≤◌}
use mathlib.Core.Path.{subst}
use mathlib.Core.List.{List, [], ◌∷◌, ◌++◌, Perm, perm_middle, append-nil}
use mathlib.Core.List.Perm
use native.Mathlib.Omega.{arith}
use vasto.Prelude.Tests.{leb, if◌then◌else◌, Bool-cases}
use vasto.Prelude.Lists.{All}

module _ {ℓ} {A : Type ℓ} (less : A → A → Bool) where
  -- Past the elements that are not greater.
  unfoldable pub insert_sorted : A → List A → List A
  insert_sorted x [] = x ∷ []
  insert_sorted x (y ∷ ys) = if less x y then x ∷ y ∷ ys else y ∷ insert_sorted x ys

  -- The elements come one by one from the left, into the sorted part before them.
  unfoldable pub sort_onto : List A → List A → List A
  sort_onto acc [] = acc
  sort_onto acc (x ∷ xs) = sort_onto (insert_sorted x acc) xs

  unfoldable pub sort_slice : List A → List A
  unfolding sort_onto insert_sorted
  sort_slice xs = sort_onto [] xs

  pub All-insert {κ} :
      (P : A → Type κ) (x : A) (ys : List A) → P x → All P ys → All P (insert_sorted x ys)
  unfolding insert_sorted
  All-insert P x [] h hs = (h, hs)
  All-insert P x (y ∷ ys) h hs = elim (Bool-cases (less x y)) [
    | inl e ↦ rw e (h, hs)
    | inr e ↦ rw e (hs.0, All-insert P x ys h hs.1)
  ]

  All-onto {κ} :
      (P : A → Type κ) (acc xs : List A) → All P acc → All P xs → All P (sort_onto acc xs)
  unfolding sort_onto
  All-onto P acc [] h hs = h
  All-onto P acc (x ∷ xs) h hs =
      All-onto P (insert_sorted x acc) xs (All-insert P x acc hs.0 h) hs.1

  pub All-sort {κ} : (P : A → Type κ) (xs : List A) → All P xs → All P (sort_slice xs)
  unfolding sort_slice
  All-sort P xs h = All-onto P [] xs tt h

  Perm-insert : (x : A) (ys : List A) → Perm (insert_sorted x ys) (x ∷ ys)
  unfolding insert_sorted
  Perm-insert x [] = Perm.rfl
  Perm-insert x (y ∷ ys) = elim (Bool-cases (less x y)) [
    | inl e ↦ rw e Perm.rfl
    | inr e ↦ rw e (Perm.trans (Perm.cons y (Perm-insert x ys)) (Perm.swap _ _ _))
  ]

  Perm-onto : (acc xs : List A) → Perm (sort_onto acc xs) (xs ++ acc)
  unfolding sort_onto
  Perm-onto acc [] = Perm.rfl
  Perm-onto acc (x ∷ xs) =
      Perm.trans (Perm-onto (insert_sorted x acc) xs)
        (Perm.trans (Perm.append_left xs (Perm-insert x acc)) (perm_middle xs acc))

  pub Perm-sort : (xs : List A) → Perm (sort_slice xs) xs
  unfolding sort_slice
  Perm-sort xs = subst (λ l. Perm (sort_onto [] xs) l) (append-nil xs) (Perm-onto [] xs)

-- The greater measure comes first.
module _ {ℓ} {A : Type ℓ} (measure : A → ℕ) where
  abbrev pub IsDescending : List A → Type 0
  IsDescending [] = Unit
  IsDescending (x ∷ xs) = All (λ y. measure y ≤ measure x) xs × IsDescending xs

  abbrev pub not_less : A → A → Bool
  not_less a b = leb (measure b) (measure a)

  below_trans :
      (x y : A) (ys : List A)
      → measure y ≤ measure x
      → All (λ z. measure z ≤ measure y) ys
      → All (λ z. measure z ≤ measure x) ys
  below_trans x y [] h hs = tt
  below_trans x y (z ∷ ys) h hs = (omega (arith, h, hs.0), below_trans x y ys h hs.1)

  insert-IsDescending :
      (x : A) (ys : List A) → IsDescending ys → IsDescending (insert_sorted not_less x ys)
  unfolding insert_sorted
  insert-IsDescending x [] h = (tt, tt)
  insert-IsDescending x (y ∷ ys) h = elim (Bool-cases (not_less x y)) [
    | inl e ↦
        let up : measure y ≤ measure x = ground (arith, e) in
        rw e ((up, below_trans x y ys up h.0), h)
    | inr e ↦
        let down : measure x ≤ measure y = ground (arith, e) in
        rw e (
          All-insert not_less (λ z. measure z ≤ measure y) x ys down h.0,
          insert-IsDescending x ys h.1,
        )
  ]

  onto-IsDescending :
      (acc xs : List A) → IsDescending acc → IsDescending (sort_onto not_less acc xs)
  unfolding sort_onto
  onto-IsDescending acc [] h = h
  onto-IsDescending acc (x ∷ xs) h =
      onto-IsDescending (insert_sorted not_less x acc) xs (insert-IsDescending x acc h)

  -- Sorting by "not less" leaves the greatest first.
  pub sort-IsDescending : (xs : List A) → IsDescending (sort_slice not_less xs)
  unfolding sort_slice
  sort-IsDescending xs = onto-IsDescending [] xs tt
