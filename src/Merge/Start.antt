-- ===== src/Merge/Start.antt =====
-- The queue that a merge begins with.
use mathlib.Core.List.{append_assoc, perm_append_comm}
use mathlib.Core.List.Perm
use vasto.Prelude.{
  ℕ, zero, suc, ◌+◌, ◌≡◌, subst, Bool, true, List, [], ◌∷◌, ◌++◌, map, Perm, Bytes, All, Option,
  none, some, arith,
}
use vasto.Prelude.Perms.{All-perm}
use vasto.Merge.{Heap, Item, less, first_rows, all_rows}
use vasto.Merge.Channels.{channel}
use vasto.Merge.Order.{IsSorted}
use vasto.Merge.Drain.{left}
use vasto.Merge.Ordered.{IsMerging, IsUpward, HoldsOn, upward_all}

-- What the channels give: a nil channel is never read.
unfoldable pub opened : {A : Type 0} → List (Option (List A)) → List (List A)
opened [] = []
opened (none ∷ chans) = [] ∷ opened chans
opened (some c ∷ chans) = c ∷ opened chans

perm_front : {A : Type 0} → (xs ys zs : List A) → Perm (xs ++ (ys ++ zs)) (ys ++ (xs ++ zs))
perm_front xs ys zs =
    subst (λ l. Perm l (ys ++ (xs ++ zs))) (append_assoc xs ys zs)
      (subst (λ r. Perm ((xs ++ ys) ++ zs) r) (append_assoc ys xs zs)
        (Perm.append_right zs (perm_append_comm xs ys)))

module _ {A : Type 0} (key : A → Bytes) where
  pub first_rows-Perm :
      (i : ℕ) (chans : List (Option (List A)))
      → Perm
          (map (λ item. item.0) (first_rows i chans).0 ++ all_rows (first_rows i chans).1)
          (all_rows (opened chans))
  unfolding first_rows all_rows opened
  first_rows-Perm i [] = Perm.rfl
  first_rows-Perm i (none ∷ chans) = first_rows-Perm (suc i) chans
  first_rows-Perm i (some [] ∷ chans) = first_rows-Perm (suc i) chans
  first_rows-Perm i (some (a ∷ c) ∷ chans) =
      let (items, rest) = first_rows (suc i) chans in
      Perm.cons a (
        Perm.trans (perm_front (map (λ item. item.0) items) c (all_rows rest))
          (Perm.append_left c (first_rows-Perm (suc i) chans)))

  first_rows-sorted :
      (i : ℕ) (chans : List (Option (List A)))
      → All (IsSorted key) (opened chans)
      → (j : ℕ) → IsSorted key (channel j (first_rows i chans).1)
  unfolding first_rows channel opened
  first_rows-sorted i [] h j = tt
  first_rows-sorted i (none ∷ chans) h zero = tt
  first_rows-sorted i (none ∷ chans) h (suc j) = first_rows-sorted (suc i) chans h.1 j
  first_rows-sorted i (some [] ∷ chans) h zero = tt
  first_rows-sorted i (some [] ∷ chans) h (suc j) = first_rows-sorted (suc i) chans h.1 j
  first_rows-sorted i (some (a ∷ c) ∷ chans) h zero = h.0.1
  first_rows-sorted i (some (a ∷ c) ∷ chans) h (suc j) = first_rows-sorted (suc i) chans h.1 j

  first_rows-covered :
      (f : A → Bool) (i j t : ℕ) (chans : List (Option (List A)))
      → IsUpward key f
      → All (IsSorted key) (opened chans)
      → t ≡ i + j
      → HoldsOn key f t (first_rows i chans).0
      → All (λ b. f b ≡ true) (channel j (first_rows i chans).1)
  unfolding first_rows channel opened
  first_rows-covered f i j t [] up s e h = tt
  first_rows-covered f i zero t (none ∷ chans) up s e h = tt
  first_rows-covered f i (suc j) t (none ∷ chans) up s e h =
      first_rows-covered f (suc i) j t chans up s.1 (omega (arith, e)) h
  first_rows-covered f i zero t (some [] ∷ chans) up s e h = tt
  first_rows-covered f i (suc j) t (some [] ∷ chans) up s e h =
      first_rows-covered f (suc i) j t chans up s.1 (omega (arith, e)) h
  first_rows-covered f i zero t (some (a ∷ c) ∷ chans) up s e h =
      upward_all key f a c up (h.0 (omega (arith, e))) s.0.0
  first_rows-covered f i (suc j) t (some (a ∷ c) ∷ chans) up s e h =
      first_rows-covered f (suc i) j t chans up s.1 (omega (arith, e)) h.1

  module _ (heap : Heap {A = Item A} (less key)) (chans : List (Option (List A))) where
    open heap use {Queue, init, contents, contents-init}

    pub left_start :
        Perm
          (left key heap (init (first_rows 0 chans).0) (first_rows 0 chans).1)
          (all_rows (opened chans))
    left_start =
        Perm.trans
          (Perm.append_right (all_rows (first_rows 0 chans).1)
            (Perm.map (λ item. item.0) (contents-init (first_rows 0 chans).0)))
          (first_rows-Perm 0 chans)

    pub IsMerging-start :
        All (IsSorted key) (opened chans)
        → IsMerging key heap (init (first_rows 0 chans).0) (first_rows 0 chans).1
    IsMerging-start s = record {
      sorted = first_rows-sorted 0 chans s;
      covered = λ f j up h. first_rows-covered f 0 j j chans up s (omega arith) (
          All-perm (λ item. item.1 ≡ j → f item.0 ≡ true) (λ item. hlevel) _ _
            (contents-init (first_rows 0 chans).0) h);
    }
