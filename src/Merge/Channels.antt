-- ===== src/Merge/Channels.antt =====
-- Receiving from the channels of a merge.
use mathlib.Core.List.{perm_middle}
use mathlib.Core.List.Perm
use vasto.Prelude.{ℕ, zero, suc, ◌≡◌, ◌≢◌, ◌⊎◌, inl, inr, refl, ap, List, [], ◌∷◌, Perm, none, some}
use vasto.Merge.{receive, all_rows}

module _ {A : Type 0} where
  -- What the channel of this index still gives.
  unfoldable pub channel : ℕ → List (List A) → List A
  channel i [] = []
  channel zero (c ∷ chans) = c
  channel (suc i) (c ∷ chans) = channel i chans

  abbrev pub Received : ℕ → List (List A) → A → List (List A) → Type 0
  Received i chans a chans' =
      (receive i chans ≡ (some a, chans'))
      × (channel i chans ≡ a ∷ channel i chans')
      × ((j : ℕ) → j ≢ i → channel j chans' ≡ channel j chans)
      × Perm (all_rows chans) (a ∷ all_rows chans')

  other_zero :
      (c c' : List A) (chans : List (List A)) (j : ℕ)
      → j ≢ 0
      → channel j (c' ∷ chans) ≡ channel j (c ∷ chans)
  unfolding channel
  other_zero c c' chans zero h = absurd (h refl)
  other_zero c c' chans (suc j) h = refl

  other_suc :
      (i : ℕ) (c : List A) (chans chans' : List (List A))
      → ((j : ℕ) → j ≢ i → channel j chans' ≡ channel j chans)
      → (j : ℕ) → j ≢ suc i
      → channel j (c ∷ chans') ≡ channel j (c ∷ chans)
  unfolding channel
  other_suc i c chans chans' others zero h = refl
  other_suc i c chans chans' others (suc j) h = others j (λ e. h (ap suc e))

  pub receive-cases :
      (i : ℕ) (chans : List (List A))
      → ((receive i chans ≡ (none, chans)) × (channel i chans ≡ []))
        ⊎ ((a : A) × (chans' : List (List A)) × Received i chans a chans')
  unfolding receive channel all_rows
  receive-cases i [] = inl (refl, refl)
  receive-cases zero ([] ∷ chans) = inl (refl, refl)
  receive-cases zero ((a ∷ rest) ∷ chans) =
      inr (a, rest ∷ chans, (refl, refl, other_zero (a ∷ rest) rest chans, Perm.rfl))
  receive-cases (suc i) (c ∷ chans) = elim (receive-cases i chans) [
    | inl (e, empty) ↦ inl (rw e refl, empty)
    | inr (a, chans', (e, here, others, p)) ↦ inr (
      a,
      c ∷ chans',
      (
        rw e refl,
        here,
        other_suc i c chans chans' others,
        Perm.trans (Perm.append_left c p) (perm_middle c (all_rows chans')),
      ),
    )
  ]
