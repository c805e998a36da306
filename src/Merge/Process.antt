-- ===== src/Merge/Process.antt =====
-- A merge against the list of all rows in the order of their keys.
use mathlib.Core.List.Perm
use vasto.Prelude.{
  ℕ, zero, suc, ◌+◌, ◌≤◌, ◌≡◌, inl, inr, refl, sym, ap, subst, ◌&&◌, List, [], ◌∷◌, map, Perm,
  Bytes, length, take, All, Option, none, some, arith, Option-cases, Bool-cases, ltb, leb,
  if◌then◌else◌, length-append,
}
use vasto.Prelude.Perms.{All-perm, length-perm}
use vasto.Merge.{
  Heap, Item, less, first_rows, all_rows, refill, merge_rounds, limited_merge_sorted, merge_loop,
  merge_sorted,
}
use vasto.Merge.Order.{IsSorted, IsUpTo}
use vasto.Merge.Drain.{left, length-left, Perm-round}
use vasto.Merge.Start.{opened, left_start, IsMerging-start, first_rows-Perm}
use vasto.Merge.Ordered.{IsMerging, IsMerging-done, IsMerging-round, IsMerging-least}

module _ {A S : Type 0} (fn : A → S → S × Option Bytes) (limit : ℕ) where
  -- `fn` on the rows one by one, to its first error or until `limit` rows are done.
  unfoldable pub process : ℕ → List A → S → S × ℕ × Option Bytes
  process counter [] s = (s, counter, none)
  process counter (a ∷ rest) s =
      let (s', err) = fn a s in
      elim err [
        | some e ↦ (s', counter, some e)
        | none ↦
            if ltb 0 limit && leb limit (suc counter)
            then (s', suc counter, none)
            else process (suc counter) rest s'
      ]

module _ {A : Type 0} (key : A → Bytes) (heap : Heap {A = Item A} (less key)) where
  open heap use {Queue, init, pop, push, fix_last, contents, contents-init, pop-none}

  merge_rounds-none :
      (n : ℕ) (q : Queue) (chans : List (List A))
      → pop q ≡ none
      → merge_rounds key heap n q chans ≡ []
  unfolding merge_rounds
  merge_rounds-none zero q chans e = refl
  merge_rounds-none (suc n) q chans e = rw (e, merge_rounds) refl

  merge_rounds_pop :
      (n : ℕ) (q : Queue) (a : A) (i : ℕ) (rest : Queue) (chans : List (List A))
      → pop q ≡ some ((a, i), rest)
      → merge_rounds key heap (suc n) q chans
        ≡ a
          ∷ merge_rounds key heap n
              (refill key heap i rest chans).0
              (refill key heap i rest chans).1
  unfolding merge_rounds
  merge_rounds_pop n q a i rest chans e = rw (e, merge_rounds) refl

  merge_rounds_zero : (q : Queue) (chans : List (List A)) → merge_rounds key heap 0 q chans ≡ []
  unfolding merge_rounds
  merge_rounds_zero q chans = refl

  length-map : (f : Item A → A) (items : List (Item A)) → length (map f items) ≡ length items
  length-map f [] = refl
  length-map f (item ∷ items) = ap suc (length-map f items)

  nil_of_length : (xs : List A) → length xs ≤ 0 → xs ≡ []
  nil_of_length [] h = refl
  nil_of_length (x ∷ xs) h = absurd (omega arith)

  -- Enough rounds give all that is left, sorted.
  pub merge_rounds-left :
      (n : ℕ) (q : Queue) (chans : List (List A))
      → IsMerging key heap q chans
      → length (left key heap q chans) ≤ n
      → Perm (merge_rounds key heap n q chans) (left key heap q chans)
        × IsSorted key (merge_rounds key heap n q chans)
  merge_rounds-left zero q chans v h =
      rw (merge_rounds_zero q chans)
        (subst (λ xs. Perm [] xs) (sym (nil_of_length (left key heap q chans) h)) Perm.rfl, tt)
  merge_rounds-left (suc n) q chans v h = elim (Option-cases (pop q)) [
    | inl e ↦
        rw (merge_rounds-none (suc n) q chans e)
          (subst (λ xs. Perm [] xs) (sym (IsMerging-done key heap q chans v e)) Perm.rfl, tt)
    | inr (((a, i), rest), e) ↦
        let (p, sorted) =
          merge_rounds-left n (refill key heap i rest chans).0 (refill key heap i rest chans).1
            (IsMerging-round key heap q a i rest chans v e)
            (omega (arith, length-left key heap q a i rest chans e)) in
        let least = IsMerging-least key heap q a i rest chans v e in
        rw (merge_rounds_pop n q a i rest chans e) (
          Perm.trans (Perm.cons a p) (Perm.symm (Perm-round key heap q a i rest chans e)),
          (All-perm (λ b. IsUpTo (key a) (key b)) (λ b. hlevel) _ _ (Perm.symm p) least, sorted),
        )
  ]

  merge_rounds-take :
      (n m : ℕ) (q : Queue) (chans : List (List A))
      → n ≤ m
      → merge_rounds key heap n q chans ≡ take n (merge_rounds key heap m q chans)
  merge_rounds-take zero m q chans h = merge_rounds_zero q chans
  merge_rounds-take (suc n) zero q chans h = absurd (omega arith)
  merge_rounds-take (suc n) (suc m) q chans h = elim (Option-cases (pop q)) [
    | inl e ↦ rw (merge_rounds-none (suc n) q chans e, merge_rounds-none (suc m) q chans e) refl
    | inr (((a, i), rest), e) ↦
        rw (merge_rounds_pop n q a i rest chans e, merge_rounds_pop m q a i rest chans e)
          (ap (◌∷◌ a) (
            merge_rounds-take n m (refill key heap i rest chans).0 (refill key heap i rest chans).1
              (omega arith)))
  ]

  module _ {S : Type 0} (fn : A → S → S × Option Bytes) (limit : ℕ) where
    merge_loop-process :
        (fuel counter : ℕ) (q : Queue) (chans : List (List A)) (s : S)
        → merge_loop key heap fn limit fuel counter q chans s
          ≡ process fn limit counter (merge_rounds key heap fuel q chans) s
    unfolding merge_loop process
    merge_loop-process zero counter q chans s = rw (merge_rounds_zero q chans) refl
    merge_loop-process (suc fuel) counter q chans s = elim (Option-cases (pop q)) [
      | inl e ↦ rw (merge_rounds-none (suc fuel) q chans e) (rw (e, merge_loop) refl)
      | inr (((a, i), rest), e) ↦ rw (merge_rounds_pop fuel q a i rest chans e) (
          rw (e, merge_loop)
            (elim (Option-cases (fn a s).1) [
              | inr (err, failed) ↦ rw (failed, process) refl
              | inl fine ↦
                  rw (fine, process)
                    (elim (Bool-cases (ltb 0 limit && leb limit (suc counter))) [
                      | inl full ↦ rw (full, process) refl
                      | inr more ↦
                          rw (more, process)
                            (merge_loop-process fuel (suc counter) (refill key heap i rest chans).0
                              (refill key heap i rest chans).1 (fn a s).0)
                    ])
            ]))
    ]

  -- The rows of the channels in the order of their keys.
  abbrev pub IsMerged : List (Option (List A)) → List A → Type 0
  IsMerged chans out = Perm out (all_rows (opened chans)) × IsSorted key out

  merged :
      (n : ℕ) (chans : List (Option (List A)))
      → All (IsSorted key) (opened chans)
      → length (all_rows (opened chans)) ≤ n
      → IsMerged chans
          (merge_rounds key heap n (init (first_rows 0 chans).0) (first_rows 0 chans).1)
  merged n chans s h =
      let start = left_start key heap chans in
      let (p, sorted) =
        merge_rounds-left n (init (first_rows 0 chans).0) (first_rows 0 chans).1
          (IsMerging-start key heap chans s) (omega (arith, length-perm _ _ start)) in
      (Perm.trans p start, sorted)

  -- Where each channel gives rows in the order of their keys, the merge of the client gives the first
  -- `limit` rows of all channels together, in the order of their keys.
  pub limited_merge_sorted-take :
      (chans : List (Option (List A))) (limit : ℕ)
      → All (IsSorted key) (opened chans)
      → (out : List A) × IsMerged chans out
        × (limited_merge_sorted key heap chans limit ≡ take limit out)
  unfolding limited_merge_sorted
  limited_merge_sorted-take chans limit s =
      let n = length (all_rows (opened chans)) + limit in
      (
        merge_rounds key heap n (init (first_rows 0 chans).0) (first_rows 0 chans).1,
        merged n chans s (omega arith),
        merge_rounds-take limit n (init (first_rows 0 chans).0) (first_rows 0 chans).1
            (omega arith),
      )

  -- Where each channel gives rows in the order of their keys, MergeSorted calls `fn` on the rows of
  -- all channels in the order of their keys, one by one, to the first error of `fn` or until `limit`
  -- rows are done, where the limit is not 0; it comes to an end after at most as many rounds as there
  -- are rows, and answers the number of the rows that were done.
  pub merge_sorted-process :
      {S : Type 0} (fn : A → S → S × Option Bytes) (limit : ℕ) (chans : List (Option (List A)))
      (s : S)
      → All (IsSorted key) (opened chans)
      → (out : List A) × IsMerged chans out
        × (merge_sorted key heap fn limit chans s ≡ process fn limit 0 out s)
  unfolding merge_sorted
  merge_sorted-process fn limit chans s sorted =
      let (items, rest) = first_rows 0 chans in
      let fuel = length items + length (all_rows rest) in
      let enough : length (all_rows (opened chans)) ≤ fuel = omega (
        arith,
        length-perm _ _ (first_rows-Perm key 0 chans),
        length-append (map (λ item. item.0) items) (all_rows rest),
        length-map (λ item. item.0) items,
      ) in
      (
        merge_rounds key heap fuel (init items) rest,
        merged fuel chans sorted enough,
        merge_loop-process fn limit fuel 0 (init items) rest s,
      )
