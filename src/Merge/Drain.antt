-- ===== src/Merge/Drain.antt =====
-- The rows that are left in a queue and its channels, and the rounds that take all of them.
use mathlib.Core.List.{perm_middle}
use mathlib.Core.List.Perm
use vasto.Prelude.{
  ℕ, suc, ◌≡◌, ◌≢◌, ◌⊎◌, inl, inr, refl, List, [], ◌∷◌, ◌++◌, map, Perm, Bytes, length, none, some,
}
use vasto.Prelude.Perms.{length-perm}
use vasto.Merge.{Heap, Item, less, all_rows, queue_next, refill}
use vasto.Merge.Channels.{channel, receive-cases}

module _ {A : Type 0} (key : A → Bytes) (heap : Heap {A = Item A} (less key)) where
  open heap use {
    Queue, init, pop, push, fix_last, contents, contents-push, contents-fix_last, contents-pop,
    pop-none,
  }

  abbrev pub rows : List (Item A) → List A
  rows = map (λ item. item.0)

  -- What is left to be merged.
  abbrev pub left : Queue → List (List A) → List A
  left q chans = rows (contents q) ++ all_rows chans

  -- After a pop: the channel of the row is empty, or its next row is queued.
  abbrev pub Refilled : ℕ → Queue → List (List A) → Queue × List (List A) → Type 0
  Refilled i rest chans (q', chans') =
      ((q' ≡ rest) × (chans' ≡ chans) × (channel i chans ≡ []))
      ⊎ ((a : A) × Perm (contents q') ((a, i) ∷ contents rest)
          × (channel i chans ≡ a ∷ channel i chans')
          × ((j : ℕ) → j ≢ i → channel j chans' ≡ channel j chans)
          × Perm (all_rows chans) (a ∷ all_rows chans'))

  pub refill-cases :
      (i : ℕ) (rest : Queue) (chans : List (List A))
      → Refilled i rest chans (refill key heap i rest chans)
  unfolding refill queue_next
  refill-cases i rest chans = elim (receive-cases i chans) [
    | inl (e, empty) ↦ rw e (inl (refl, refl, empty))
    | inr (a, chans', (e, here, others, p)) ↦ rw e (
        inr (
          a,
          Perm.trans (contents-fix_last (push (a, i) rest)) (contents-push (a, i) rest),
          here,
          others,
          p,
        ))
  ]

  Perm-refilled :
      (i : ℕ) (rest : Queue) (chans : List (List A)) (r : Queue × List (List A))
      → Refilled i rest chans r
      → Perm (left rest chans) (left r.0 r.1)
  Perm-refilled i rest chans (q', chans') (inl (e, e', empty)) = rw (e, e') Perm.rfl
  Perm-refilled i rest chans (q', chans') (inr (a, q, here, others, p)) =
      Perm.trans
        (Perm.trans (Perm.append_left (rows (contents rest)) p)
          (perm_middle (rows (contents rest)) (all_rows chans')))
        (Perm.symm (Perm.append_right (all_rows chans') (Perm.map (λ item. item.0) q)))

  pub Perm-round :
      (q : Queue) (a : A) (i : ℕ) (rest : Queue) (chans : List (List A))
      → pop q ≡ some ((a, i), rest)
      → Perm
          (left q chans)
          (a ∷ left (refill key heap i rest chans).0 (refill key heap i rest chans).1)
  Perm-round q a i rest chans e =
      Perm.trans
        (Perm.append_right (all_rows chans)
          (Perm.map (λ item. item.0) (contents-pop q (a, i) rest e).0))
        (Perm.cons a
          (Perm-refilled i rest chans (refill key heap i rest chans) (refill-cases i rest chans)))

  pub length-left :
      (q : Queue) (a : A) (i : ℕ) (rest : Queue) (chans : List (List A))
      → pop q ≡ some ((a, i), rest)
      → length (left q chans)
        ≡ suc (length (left (refill key heap i rest chans).0 (refill key heap i rest chans).1))
  length-left q a i rest chans e = length-perm _ _ (Perm-round q a i rest chans e)

  pub left-none : (q : Queue) (chans : List (List A)) → pop q ≡ none → left q chans ≡ all_rows chans
  left-none q chans e = rw (pop-none q e) refl
