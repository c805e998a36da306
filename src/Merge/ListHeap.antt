-- ===== src/Merge/ListHeap.antt =====
-- A heap that is an unordered list, whose least row is looked for.
use mathlib.Core.List.Perm
use mathlib.Core.Option.{some_inj}
use vasto.Prelude.{
  ◌≡◌, refl, subst, true, false, List, [], ◌∷◌, Perm, Bytes, if◌then◌else◌, All, Option, none, some,
  arith, Bool-cases, inl, inr,
}
use vasto.Merge.{bytes_less, Heap, Item, less}
use vasto.Merge.Order.{IsUpTo-trans, IsUpTo-refl}

less_asym : (a b : Bytes) → bytes_less a b ≡ true → bytes_less b a ≡ false
unfolding bytes_less
less_asym [] [] h = absurd (ground (arith, h))
less_asym [] (y ∷ b) h = refl
less_asym (x ∷ a) [] h = absurd (ground (arith, h))
less_asym (x ∷ a) (y ∷ b) h = ground (arith, less_asym a b)

module _ {A : Type 0} (key : A → Bytes) where
  -- The least of `x` and the list, and the others.
  unfoldable pub extract : Item A → List (Item A) → Item A × List (Item A)
  extract x [] = (x, [])
  extract x (y ∷ ys) =
      let (m, rest) = extract y ys in
      let (m', rest') = extract x ys in if less key y x then (m, x ∷ rest) else (m', y ∷ rest')

  abbrev Extracted : Item A → List (Item A) → Item A × List (Item A) → Type 0
  Extracted x ys (m, rest) =
      Perm (x ∷ ys) (m ∷ rest) × (less key x m ≡ false) × All (λ y. less key y m ≡ false) rest

  extract-Extracted : (x : Item A) (ys : List (Item A)) → Extracted x ys (extract x ys)
  unfolding extract less
  extract-Extracted x [] = (Perm.rfl, IsUpTo-refl (key x.0), tt)
  extract-Extracted x (y ∷ ys) = elim (Bool-cases (bytes_less (key y.0) (key x.0))) [
    | inl e ↦
        let (p, up, all) = extract-Extracted y ys in
        rw e (
          Perm.trans (Perm.cons x p) (Perm.swap _ _ _),
          (IsUpTo-trans (key (extract y ys).0.0) (key y.0) (key x.0) up
              (less_asym (key y.0) (key x.0) e)),
          (
            IsUpTo-trans (key (extract y ys).0.0) (key y.0) (key x.0) up
                (less_asym (key y.0) (key x.0) e),
            all,
          ),
        )
    | inr e ↦
        let (p, up, all) = extract-Extracted x ys in
        rw e (
          Perm.trans (Perm.swap _ _ _) (Perm.trans (Perm.cons y p) (Perm.swap _ _ _)),
          up,
          (IsUpTo-trans (key (extract x ys).0.0) (key x.0) (key y.0) up e, all),
        )
  ]

  unfoldable pub pop_least : List (Item A) → Option (Item A × List (Item A))
  pop_least [] = none
  pop_least (x ∷ xs) = some (extract x xs)

  pub pop_least-none : (q : List (Item A)) → pop_least q ≡ none → q ≡ []
  unfolding pop_least
  pop_least-none [] e = refl
  pop_least-none (x ∷ xs) e = absurd (ground (arith, e))

  pub pop_least-Perm :
      (q : List (Item A)) (x : Item A) (rest : List (Item A))
      → pop_least q ≡ some (x, rest)
      → Perm q (x ∷ rest) × All (λ y. less key y x ≡ false) rest
  unfolding pop_least
  pop_least-Perm [] x rest e = absurd (ground (arith, e))
  pop_least-Perm (y ∷ ys) x rest e =
      let (p, up, all) = subst (Extracted y ys) (some_inj.0 e) (extract-Extracted y ys) in (p, all)

  abbrev pub list_heap : Heap {A = Item A} (less key)
  list_heap = record {
    Queue = List (Item A);
    init = λ xs. xs;
    pop = pop_least;
    push = λ x q. x ∷ q;
    fix_last = λ q. q;
    contents = λ q. q;
    contents-init = λ xs. Perm.rfl;
    contents-push = λ x q. Perm.rfl;
    contents-fix_last = λ q. Perm.rfl;
    pop-none = pop_least-none;
    contents-pop = pop_least-Perm;
  }
