-- ===== src/Merge/Order.antt =====
-- The order of keys in a merge, and lists that are sorted by it.
use vasto.Prelude.{◌≡◌, refl, false, List, [], ◌∷◌, Bytes, All, arith}
use vasto.Merge.{bytes_less}

-- `a` is not after `b`.
abbrev pub IsUpTo : Bytes → Bytes → Type 0
IsUpTo a b = bytes_less b a ≡ false

pub IsUpTo-trans : (a b c : Bytes) → IsUpTo a b → IsUpTo b c → IsUpTo a c
unfolding bytes_less
IsUpTo-trans [] [] c h k = k
IsUpTo-trans [] (y ∷ b) [] h k = refl
IsUpTo-trans [] (y ∷ b) (z ∷ c) h k = refl
IsUpTo-trans (x ∷ a) [] c h k = absurd (ground arith)
IsUpTo-trans (x ∷ a) (y ∷ b) [] h k = absurd (ground arith)
IsUpTo-trans (x ∷ a) (y ∷ b) (z ∷ c) h k = ground (arith, IsUpTo-trans a b c)

pub IsUpTo-refl : (a : Bytes) → IsUpTo a a
unfolding bytes_less
IsUpTo-refl [] = refl
IsUpTo-refl (x ∷ a) = ground (arith, IsUpTo-refl a)

module _ {A : Type 0} (key : A → Bytes) where
  -- No row of the list is before `a`.
  abbrev pub IsBelow : A → List A → Type 0
  IsBelow a = All (λ b. IsUpTo (key a) (key b))

  abbrev pub IsSorted : List A → Type 0
  IsSorted [] = Unit
  IsSorted (a ∷ rest) = IsBelow a rest × IsSorted rest

  pub IsBelow-trans : (a b : A) (xs : List A) → IsUpTo (key a) (key b) → IsBelow b xs → IsBelow a xs
  IsBelow-trans a b [] h hs = tt
  IsBelow-trans a b (x ∷ xs) h hs =
      (IsUpTo-trans (key a) (key b) (key x) h hs.0, IsBelow-trans a b xs h hs.1)
