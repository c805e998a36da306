-- ===== src/Prelude/Perms.antt =====
-- Permutations, with the measures and predicates of this library.
use Prim.Native.Nat.{suc}
use mathlib.Core.Path.{◌≡◌, refl, ap, ◌∙◌}
use mathlib.Core.Logic.{∥∥₁_elim}
use mathlib.Core.List.{
  List, [], ◌∷◌, Perm, Permᴰ, Mem, mem-cons_self, mem-cons_of_mem, forall_mem-cons, not-mem-nil,
}
use mathlib.Core.List.Perm
use native.Mathlib.Nat.{ℕ_set}
use vasto.Prelude.Lists.{All, length}

module _ {A : Type 0} where
  length-Permᴰ : (xs ys : List A) → Permᴰ xs ys → length xs ≡ length ys
  length-Permᴰ _ _ Permᴰ.nil = refl
  length-Permᴰ _ _ (Permᴰ.cons _ p) = ap suc (length-Permᴰ _ _ p)
  length-Permᴰ _ _ (Permᴰ.swap _ _) = refl
  length-Permᴰ _ _ (Permᴰ.trans p q) = length-Permᴰ _ _ p ∙ length-Permᴰ _ _ q

  pub length-perm : (xs ys : List A) → Perm xs ys → length xs ≡ length ys
  length-perm xs ys p = ∥∥₁_elim p (ℕ_set (length xs) (length ys)) (length-Permᴰ xs ys)

  module _ {κ} (P : A → Type κ) (prop : (a : A) → IsProp (P a)) where
    All-mem : (xs : List A) → All P xs → (a : A) → Mem a xs → P a
    All-mem [] h a m = absurd (not-mem-nil m)
    All-mem (x ∷ xs) h a m = (forall_mem-cons prop).1 (h.0, All-mem xs h.1) a m

    mem-All : (xs : List A) → ((a : A) → Mem a xs → P a) → All P xs
    mem-All [] h = tt
    mem-All (x ∷ xs) h = (h x mem-cons_self, mem-All xs (λ a m. h a (mem-cons_of_mem x m)))

    pub All-perm : (xs ys : List A) → Perm xs ys → All P xs → All P ys
    All-perm xs ys p h = mem-All ys (λ a m. All-mem xs h a ((Perm.mem_iff p).1 m))

pub All-imp {ℓ κ μ} :
    {A : Type ℓ} {P : A → Type κ} {Q : A → Type μ}
    → ((a : A) → P a → Q a)
    → (xs : List A) → All P xs
    → All Q xs
All-imp f [] h = tt
All-imp f (x ∷ xs) h = (f x h.0, All-imp f xs h.1)
