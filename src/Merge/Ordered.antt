-- ===== src/Merge/Ordered.antt =====
-- The invariant of the rounds of a merge.
use mathlib.Core.List.Perm
use vasto.Prelude.{
  ℕ, suc, ◌≡◌, ◌≢◌, inl, inr, refl, ap, subst, ◌∙◌, Bool, true, false, not, List, [], ◌∷◌, map,
  Bytes, All, All-append, none, some, arith, Bool-cases, ◌==◌,
}
use vasto.Prelude.Perms.{All-perm, All-imp}
use vasto.Merge.{bytes_less, Heap, Item, less, all_rows, refill}
use vasto.Merge.Channels.{channel}
use vasto.Merge.Order.{IsUpTo, IsUpTo-trans, IsUpTo-refl, IsBelow, IsSorted}
use vasto.Merge.Drain.{rows, left, Refilled, refill-cases, Perm-round, left-none}

module _ {A : Type 0} where
  all_rows_nil : (chans : List (List A)) → ((j : ℕ) → channel j chans ≡ []) → all_rows chans ≡ []
  unfolding channel all_rows
  all_rows_nil [] h = refl
  all_rows_nil (c ∷ chans) h = rw (h 0, all_rows_nil chans (λ j. h (suc j))) refl

  All-all_rows {κ} :
      (P : A → Type κ) (chans : List (List A))
      → ((j : ℕ) → All P (channel j chans))
      → All P (all_rows chans)
  unfolding channel all_rows
  All-all_rows P [] h = tt
  All-all_rows P (c ∷ chans) h =
      All-append P c (all_rows chans) (h 0) (All-all_rows P chans (λ j. h (suc j)))

  All-rows {κ} :
      (P : A → Type κ) (items : List (Item A))
      → All (λ item. P item.0) items
      → All P (map (λ item. item.0) items)
  All-rows P [] h = tt
  All-rows P (item ∷ items) h = (h.0, All-rows P items h.1)

  All-nil : (f : A → Bool) (xs : List A) → All (λ a. false ≡ true) xs → xs ≡ []
  All-nil f [] h = refl
  All-nil f (x ∷ xs) h = absurd (ground (arith, h.0))

module _ {A : Type 0} (key : A → Bytes) where
  -- A test that holds of a row holds of every row that is not before it.
  abbrev pub IsUpward : (A → Bool) → Type 0
  IsUpward f = (a b : A) → IsUpTo (key a) (key b) → f a ≡ true → f b ≡ true

  -- The test holds of the queued rows of channel `j`.
  abbrev pub HoldsOn : (A → Bool) → ℕ → List (Item A) → Type 0
  HoldsOn f j = All (λ item. item.1 ≡ j → f item.0 ≡ true)

  pub upward_all :
      (f : A → Bool) (a : A) (xs : List A)
      → IsUpward f
      → f a ≡ true
      → IsBelow key a xs
      → All (λ b. f b ≡ true) xs
  upward_all f a [] up h below = tt
  upward_all f a (x ∷ xs) up h below = (up a x below.0 h, upward_all f a xs up h below.1)

  from_on : A → A → Bool
  from_on a b = not (bytes_less (key b) (key a))

  from_on-IsUpTo : (a b : A) → from_on a b ≡ true → IsUpTo (key a) (key b)
  unfolding from_on
  from_on-IsUpTo a b h = ground (arith, h)

  from_on-IsUpward : (a : A) → IsUpward (from_on a)
  unfolding from_on
  from_on-IsUpward a b c h k =
      ap not (IsUpTo-trans (key a) (key b) (key c) (from_on-IsUpTo a b k) h)

  module _ (heap : Heap {A = Item A} (less key)) where
    open heap use {Queue, init, pop, push, fix_last, contents, contents-pop, pop-none}

    -- The channels are sorted, and each that is not empty has a row in the queue that is not after
    -- its rows: an upward test that holds of the queued rows of a channel holds of its other rows.
    pub record IsMerging (q : Queue) (chans : List (List A)) : Type 0 where
      pub sorted : (j : ℕ) → IsSorted key (channel j chans)
      pub covered :
          (f : A → Bool) (j : ℕ)
          → IsUpward f
          → HoldsOn f j (contents q)
          → All (λ b. f b ≡ true) (channel j chans)

    pub IsMerging-done :
        (q : Queue) (chans : List (List A))
        → IsMerging q chans
        → pop q ≡ none
        → left key heap q chans ≡ []
    IsMerging-done q chans v e =
        left-none key heap q chans e
        ∙ all_rows_nil chans (λ j.
          All-nil (λ a. false) (channel j chans)
            (v.covered (λ a. false) j (λ a b h k. k) (rw (pop-none q e) tt)))

    -- Before the pop, for a channel other than that of the row.
    HoldsOn-pop :
        (f : A → Bool) (j : ℕ) (q : Queue) (a : A) (i : ℕ) (rest : Queue)
        → pop q ≡ some ((a, i), rest)
        → i ≢ j
        → HoldsOn f j (contents rest)
        → HoldsOn f j (contents q)
    HoldsOn-pop f j q a i rest e ne h =
        All-perm (λ item. item.1 ≡ j → f item.0 ≡ true) (λ item. hlevel) ((a, i) ∷ contents rest)
          (contents q) (Perm.symm (contents-pop q (a, i) rest e).0) ((λ same. absurd (ne same)), h)

    Refilled-covered :
        (f : A → Bool) (j i : ℕ) (a : A) (q rest : Queue) (chans : List (List A))
        (r : Queue × List (List A))
        → IsUpward f
        → IsMerging q chans
        → pop q ≡ some ((a, i), rest)
        → Refilled key heap i rest chans r
        → HoldsOn f j (contents r.0)
        → All (λ b. f b ≡ true) (channel j r.1)
    Refilled-covered f j i a q rest chans (q', chans') up v e (inl (same, same', empty)) h =
        elim (Bool-cases (i == j)) [
          | inl here ↦
              let equal : i ≡ j = ground (arith, here) in
              subst (λ k. All (λ b. f b ≡ true) (channel k chans')) equal (rw (same', empty) tt)
          | inr other ↦ rw same' (
              v.covered f j up
                (HoldsOn-pop f j q a i rest e (λ k. ground (arith, other, k)) (rw same at h)))
        ]
    Refilled-covered f j i a q rest chans (q', chans') up v e (inr (b, p, here, others, all)) h =
        let (first, more) =
          All-perm (λ item. item.1 ≡ j → f item.0 ≡ true) (λ item. hlevel) (contents q')
            ((b, i) ∷ contents rest) p h in
        elim (Bool-cases (i == j)) [
          | inl same ↦
              let equal : i ≡ j = ground (arith, same) in
              subst (λ k. All (λ b. f b ≡ true) (channel k chans')) equal
                (upward_all f b (channel i chans') up (first equal)
                  (subst (IsSorted key) here (v.sorted i)).0)
          | inr other ↦
              rw (others j (λ k. ground (arith, other, k))) (
                v.covered f j up
                  (HoldsOn-pop f j q a i rest e (λ k. ground (arith, other, k)) more))
        ]

    Refilled-sorted :
        (i : ℕ) (rest : Queue) (chans : List (List A)) (r : Queue × List (List A))
        → ((j : ℕ) → IsSorted key (channel j chans))
        → Refilled key heap i rest chans r
        → (j : ℕ) → IsSorted key (channel j r.1)
    Refilled-sorted i rest chans (q', chans') s (inl (same, same', empty)) j = rw same' (s j)
    Refilled-sorted i rest chans (q', chans') s (inr (b, p, here, others, all)) j =
        elim (Bool-cases (i == j)) [
          | inl same ↦
              let equal : i ≡ j = ground (arith, same) in
              subst (λ k. IsSorted key (channel k chans')) equal (subst (IsSorted key) here (s i)).1
          | inr other ↦ rw (others j (λ k. ground (arith, other, k))) (s j)
        ]

    pub IsMerging-round :
        (q : Queue) (a : A) (i : ℕ) (rest : Queue) (chans : List (List A))
        → IsMerging q chans
        → pop q ≡ some ((a, i), rest)
        → IsMerging (refill key heap i rest chans).0 (refill key heap i rest chans).1
    IsMerging-round q a i rest chans v e =
        let refilled = refill-cases key heap i rest chans in
        record {
          sorted = Refilled-sorted i rest chans (refill key heap i rest chans) v.sorted refilled;
          covered = λ f j up.
              Refilled-covered f j i a q rest chans (refill key heap i rest chans) up v e refilled;
        }

    popped_least :
        (q : Queue) (a : A) (i : ℕ) (rest : Queue)
        → pop q ≡ some ((a, i), rest)
        → All (λ item. from_on a item.0 ≡ true) (contents q)
    unfolding less from_on
    popped_least q a i rest e =
        let (p, least) = contents-pop q (a, i) rest e in
        All-perm (λ item. from_on a item.0 ≡ true) (λ item. hlevel) ((a, i) ∷ contents rest)
          (contents q) (Perm.symm p)
          (ap not (IsUpTo-refl (key a)), All-imp (λ item h. ap not h) (contents rest) least)

    -- The row that is popped is not after any of those that are left.
    pub IsMerging-least :
        (q : Queue) (a : A) (i : ℕ) (rest : Queue) (chans : List (List A))
        → IsMerging q chans
        → pop q ≡ some ((a, i), rest)
        → IsBelow key a
            (left key heap (refill key heap i rest chans).0 (refill key heap i rest chans).1)
    IsMerging-least q a i rest chans v e =
        let queued = popped_least q a i rest e in
        let others =
          All-all_rows (λ b. from_on a b ≡ true) chans
            (λ j.
              v.covered (from_on a) j (from_on-IsUpward a)
                (All-imp (λ item h same. h) (contents q) queued)) in
        let all =
          All-append (λ b. from_on a b ≡ true) (rows key heap (contents q)) (all_rows chans)
            (All-rows (λ b. from_on a b ≡ true) (contents q) queued) others in
        let next =
          left key heap (refill key heap i rest chans).0 (refill key heap i rest chans).1 in
        All-imp (from_on-IsUpTo a) next
          (All-perm (λ b. from_on a b ≡ true) (λ b. hlevel) (left key heap q chans) (a ∷ next)
            (Perm-round key heap q a i rest chans e) all).1
