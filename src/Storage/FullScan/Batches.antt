-- ===== src/Storage/FullScan/Batches.antt =====
-- The batches of a full scan.
use mathlib.Core.List.{append-nil, append_assoc}
use native.Mathlib.Nat.{suc-mod, mod_self, mod-eq_of_lt}
use vasto.Prelude.{
  ℕ, zero, suc, ◌+◌, ◌-◌, ◌%◌, ◌<◌, ◌≡◌, ◌⊎◌, inl, inr, refl, sym, ap, subst, ◌∙◌, true, false,
  ◌&&◌, List, [], ◌∷◌, ◌++◌, Bytes, length, take, ltb, leb, ◌==◌, if◌then◌else◌, Option, none, some,
  Run, ok, panic, ◌>>=◌, arith, Bool-cases, length-append,
}
use vasto.Storage.FullScan.{RawKeyValue, last_batch, full_batch, scan_rows}

-- `fn` on the batches one by one, to its first error.
module _ {ℓ} {S : Type ℓ} (fn : List RawKeyValue → S → Run (S × Option Bytes)) where
  unfoldable pub each_batch : List (List RawKeyValue) → S → Run (S × Option Bytes)
  each_batch [] s = ok (s, none)
  each_batch (b ∷ bs) s = do
    (s', err) ← fn b s
    elim err [ some e ↦ ok (s', some e) | none ↦ each_batch bs s' ]

unfoldable pub joined : List (List RawKeyValue) → List RawKeyValue
joined [] = []
joined (b ∷ bs) = b ++ joined bs

-- The rows that a limit leaves; 0 is no limit.
unfoldable pub limited : ℕ → List RawKeyValue → List RawKeyValue
limited limit rows = if limit == 0 then rows else take limit rows

abbrev last : List RawKeyValue → List (List RawKeyValue)
last [] = []
last (row ∷ rows) = (row ∷ rows) ∷ []

unfoldable pub batches : ℕ → ℕ → ℕ → List RawKeyValue → List RawKeyValue → List (List RawKeyValue)
batches batch_size limit row_count rows [] = last rows
batches batch_size limit row_count rows (row ∷ rest) =
    let full = (row_count + 1) % batch_size == 0 in
    let grown = rows ++ (row ∷ []) in
    let kept = if full then [] else grown in
    let more =
      if ltb 0 limit && leb limit (row_count + 1)
      then last kept
      else batches batch_size limit (row_count + 1) kept rest in
    if full then grown ∷ more else more

next_mod :
    (n b r : ℕ)
    → n % b ≡ r
    → r < b
    → (((n + 1) % b ≡ 0) × (suc r ≡ b)) ⊎ (((n + 1) % b ≡ suc r) × (suc r < b))
next_mod n b r e h =
    let one_more : suc n ≡ n + 1 = omega arith in
    let step : (n + 1) % b ≡ suc r % b =
      ap (λ k. k % b) (sym one_more) ∙ suc-mod n b ∙ ap (λ k. suc k % b) e in
    elim (Bool-cases (suc r == b)) [
      | inl full ↦
          let equal : suc r ≡ b = ground (arith, full) in
          inl (step ∙ subst (λ k. k % b ≡ 0) (sym equal) (mod_self b), equal)
      | inr room ↦ inr (step ∙ mod-eq_of_lt (ground (arith, room)), ground (arith, room))
    ]

length-snoc :
    (rows : List RawKeyValue) (row : RawKeyValue) → length (rows ++ (row ∷ [])) ≡ suc (length rows)
length-snoc rows row = omega (arith, length-append rows (row ∷ []))

-- Batches of this size, of which the last may be smaller but has a row.
abbrev pub AreBatches : ℕ → List (List RawKeyValue) → Type 0
AreBatches n [] = Unit
AreBatches n (b ∷ bs) =
    ((length b ≡ n) ⊎ ((bs ≡ []) × (0 < length b) × (length b < n))) × AreBatches n bs

last-AreBatches : (n : ℕ) (rows : List RawKeyValue) → length rows < n → AreBatches n (last rows)
last-AreBatches n [] h = tt
last-AreBatches n (row ∷ rows) h = (inr (refl, omega arith, h), tt)

pub batches-AreBatches :
    (n limit row_count : ℕ) (rows pairs : List RawKeyValue)
    → row_count % n ≡ length rows
    → length rows < n
    → AreBatches n (batches n limit row_count rows pairs)
unfolding batches
batches-AreBatches n limit row_count rows [] e h = last-AreBatches n rows h
batches-AreBatches n limit row_count rows (row ∷ rest) e h =
    elim (next_mod row_count n (length rows) e h) [
      | inl (full, equal) ↦
          let done : ((row_count + 1) % n == 0) ≡ true = ground arith in
          rw done (
            inl (length-snoc rows row ∙ equal),
            elim (Bool-cases (ltb 0 limit && leb limit (row_count + 1))) [
              | inl stop ↦ rw stop tt
              | inr more ↦
                  rw more (batches-AreBatches n limit (row_count + 1) [] rest full (omega arith))
            ],
          )
      | inr (next, room) ↦
          let waits : ((row_count + 1) % n == 0) ≡ false = ground arith in
          rw waits (elim (Bool-cases (ltb 0 limit && leb limit (row_count + 1))) [
            | inl stop ↦
                rw stop
                  (last-AreBatches n (rows ++ (row ∷ [])) (omega (arith, length-snoc rows row)))
            | inr more ↦ rw more (
                batches-AreBatches n limit (row_count + 1) (rows ++ (row ∷ [])) rest
                  (next ∙ sym (length-snoc rows row)) (omega (arith, length-snoc rows row)))
          ])
    ]

-- What is still to be seen after `row_count` rows.
abbrev pub still : ℕ → ℕ → List RawKeyValue → List RawKeyValue
still limit row_count pairs = if limit == 0 then pairs else take (limit - row_count) pairs

joined-last : (rows : List RawKeyValue) → joined (last rows) ≡ rows
unfolding joined
joined-last [] = refl
joined-last (row ∷ rows) = append-nil (row ∷ rows)

still_step :
    (limit row_count : ℕ) (row : RawKeyValue) (rest : List RawKeyValue)
    → (limit ≡ 0) ⊎ (row_count < limit)
    → still limit row_count (row ∷ rest)
      ≡ row
        ∷ (if ltb 0 limit && leb limit (row_count + 1)
            then []
            else still limit (row_count + 1) rest)
still_step limit row_count row rest (inl z) = rw z refl
still_step limit row_count row rest (inr h) =
    let limits : (limit == 0) ≡ false = ground arith in
    let positive : ltb 0 limit ≡ true = ground arith in
    let step : limit - row_count ≡ suc (limit - (row_count + 1)) = omega arith in
    elim (Bool-cases (leb limit (row_count + 1))) [
      | inl stop ↦
          let none_left : limit - (row_count + 1) ≡ 0 = ground arith in
          rw (limits, positive, stop, step, none_left) refl
      | inr more ↦ rw (limits, positive, more, step) refl
    ]

still_nil : (limit row_count : ℕ) → still limit row_count [] ≡ []
still_nil limit row_count = elim (Bool-cases (limit == 0)) [
  | inl none_set ↦ rw none_set refl
  | inr limits ↦ rw limits (take_nil (limit - row_count))
]
  where
    take_nil : (n : ℕ) → take {A = RawKeyValue} n [] ≡ []
    take_nil zero = refl
    take_nil (suc n) = refl

not_yet :
    (limit row_count : ℕ)
    → (ltb 0 limit && leb limit (row_count + 1)) ≡ false
    → (limit ≡ 0) ⊎ (row_count < limit)
    → (limit ≡ 0) ⊎ (row_count + 1 < limit)
not_yet limit row_count more (inl z) = inl z
not_yet limit row_count more (inr h) = inr (ground (arith, more, h))

pub joined-batches :
    (n limit row_count : ℕ) (rows pairs : List RawKeyValue)
    → (limit ≡ 0) ⊎ (row_count < limit)
    → joined (batches n limit row_count rows pairs) ≡ rows ++ still limit row_count pairs
unfolding batches joined
joined-batches n limit row_count rows [] h =
    joined-last rows ∙ sym (append-nil rows) ∙ ap (λ t. rows ++ t) (sym (still_nil limit row_count))
joined-batches n limit row_count rows (row ∷ rest) h =
    elim (Bool-cases (ltb 0 limit && leb limit (row_count + 1))) [
      | inl stop ↦
          rw (still_step limit row_count row rest h, stop)
            (elim (Bool-cases ((row_count + 1) % n == 0)) [
              | inl full ↦ rw full (append-nil (rows ++ (row ∷ [])))
              | inr waits ↦ rw waits (joined-last (rows ++ (row ∷ [])))
            ])
      | inr more ↦
          let later : (limit ≡ 0) ⊎ (row_count + 1 < limit) = not_yet limit row_count more h in
          rw (still_step limit row_count row rest h, more)
            (elim (Bool-cases ((row_count + 1) % n == 0)) [
              | inl full ↦ rw full (
                  ap (λ t. (rows ++ (row ∷ [])) ++ t)
                    (joined-batches n limit (row_count + 1) [] rest later)
                  ∙ append_assoc rows (row ∷ []) (still limit (row_count + 1) rest))
              | inr waits ↦ rw waits (
                  joined-batches n limit (row_count + 1) (rows ++ (row ∷ [])) rest later
                  ∙ append_assoc rows (row ∷ []) (still limit (row_count + 1) rest))
            ])
    ]

module _ {ℓ} {S : Type ℓ} (fn : List RawKeyValue → S → Run (S × Option Bytes)) where
  each_batch_one :
      (r : Run (S × Option Bytes))
      → (r >>= (λ p. elim p.1 [ some e ↦ ok (p.0, some e) | none ↦ ok (p.0, none) ])) ≡ r
  each_batch_one panic = refl
  each_batch_one (ok (s, none)) = refl
  each_batch_one (ok (s, some e)) = refl

  last_batch-last :
      (rows : List RawKeyValue) (s : S) → last_batch fn rows s ≡ each_batch fn (last rows) s
  unfolding last_batch each_batch
  last_batch-last [] s = refl
  last_batch-last (row ∷ rows) s = sym (each_batch_one (fn (row ∷ rows) s))

  after_full :
      (r : Run (S × Option Bytes)) (k : List RawKeyValue → S → Run (S × Option Bytes))
      (k' : S → Run (S × Option Bytes))
      → ((s : S) → k [] s ≡ k' s)
      → ((r >>= (λ p. ok (p.0, [], p.1))) >>= (λ (p : S × List RawKeyValue × Option Bytes).
          elim p.2 [ some e ↦ ok (p.0, some e) | none ↦ k p.1 p.0 ]))
        ≡ (r >>= (λ p. elim p.1 [ some e ↦ ok (p.0, some e) | none ↦ k' p.0 ]))
  after_full panic k k' h = refl
  after_full (ok (s, none)) k k' h = h s
  after_full (ok (s, some e)) k k' h = refl

  pub scan_rows-batches :
      (n limit row_count : ℕ) (rows pairs : List RawKeyValue) (s : S)
      → (n == 0) ≡ false
      → scan_rows fn n limit row_count rows pairs s
        ≡ each_batch fn (batches n limit row_count rows pairs) s
  unfolding scan_rows batches full_batch each_batch last_batch
  scan_rows-batches n limit row_count rows [] s h = last_batch-last rows s
  scan_rows-batches n limit row_count rows (row ∷ rest) s h =
      let grown = rows ++ (row ∷ []) in
      rw h (elim (Bool-cases ((row_count + 1) % n == 0)) [
        | inl full ↦ rw full (
            after_full (fn grown s)
              (λ kept s'.
                if ltb 0 limit && leb limit (row_count + 1)
                then last_batch fn kept s'
                else scan_rows fn n limit (row_count + 1) kept rest s')
              (λ s'.
                each_batch fn
                  (if ltb 0 limit && leb limit (row_count + 1)
                    then []
                    else batches n limit (row_count + 1) [] rest)
                  s')
              (λ s'. elim (Bool-cases (ltb 0 limit && leb limit (row_count + 1))) [
                | inl stop ↦ rw stop refl
                | inr more ↦ rw more (scan_rows-batches n limit (row_count + 1) [] rest s' h)
              ]))
        | inr waits ↦ rw waits (elim (Bool-cases (ltb 0 limit && leb limit (row_count + 1))) [
          | inl stop ↦ rw stop (last_batch-last grown s)
          | inr more ↦ rw more (scan_rows-batches n limit (row_count + 1) grown rest s h)
        ])
      ])
