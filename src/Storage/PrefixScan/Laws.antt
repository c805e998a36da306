-- ===== src/Storage/PrefixScan/Laws.antt =====
-- Which pairs a page has, and where the next page starts.
use mathlib.Core.List.{append_assoc, append-nil}
use vasto.Prelude.{
  ℕ, zero, suc, ◌-◌, ◌≡◌, length-append, take-append, All, ◌<◌, refl, ap, ◌∙◌, Bool, true, false,
  ◌&&◌, List, [], ◌∷◌, ◌++◌, Bytes, bytes_eq_refl, Bool-cases, inl, inr, length, take, ltb, ◌==◌,
  if◌then◌else◌, none, Run, ok, arith,
}
use vasto.Storage.Rocks.{MergeOperator, Engine}
use vasto.Storage.PrefixScan.{has_prefix, scan_loop, skip_seen, enumerate}

abbrev pub Pairs : Type 0
Pairs = List (Bytes × Bytes)

-- The caller that keeps every pair.
abbrev pub collect : Pairs → Bytes → Bytes → Run (Pairs × Bool)
collect s key value = ok (s ++ ((key, value) ∷ []), true)

-- The pairs in front whose keys have the prefix.
abbrev pub matching : Bytes → Pairs → Pairs
matching prefix [] = []
matching prefix ((key, value) ∷ rest) =
    let more = matching prefix rest in if has_prefix key prefix then (key, value) ∷ more else []

-- At most `limit` of them; a limit of 0 is none.
abbrev pub page : Bytes → ℕ → Pairs → Pairs
page prefix limit pairs =
    if limit == 0 then matching prefix pairs else take limit (matching prefix pairs)

abbrev page_from : Bytes → ℕ → ℕ → Pairs → Pairs
page_from prefix limit i pairs =
    if limit == 0 then matching prefix pairs else take (limit - i) (matching prefix pairs)

-- The loop's test for the end of the page.
abbrev ended : ℕ → ℕ → Bool
ended limit i = ltb 0 limit && ltb limit (suc i)

take_ended : (limit i : ℕ) → 0 < limit → ltb limit (suc i) ≡ true → limit - i ≡ 0
take_ended limit i h e = ground arith

take_more : (limit i : ℕ) → ltb limit (suc i) ≡ false → limit - i ≡ suc (limit - suc i)
take_more limit i e = ground arith

page_from-ended :
    (prefix : Bytes) (limit i : ℕ) (pairs : Pairs)
    → ended limit i ≡ true
    → page_from prefix limit i pairs ≡ []
page_from-ended prefix limit i pairs e =
    let some_limit : (limit == 0) ≡ false = ground arith in
    rw (some_limit, take_ended limit i (ground arith) (ground arith)) refl

take-nil : (n : ℕ) → take {A = Bytes × Bytes} n [] ≡ []
take-nil zero = refl
take-nil (suc n) = refl

page_from-skip :
    (prefix : Bytes) (limit i : ℕ) (key value : Bytes) (rest : Pairs)
    → has_prefix key prefix ≡ false
    → page_from prefix limit i ((key, value) ∷ rest) ≡ []
page_from-skip prefix limit i key value rest e = rw e (ground (arith, take-nil (limit - i)))

page_from-more :
    (prefix : Bytes) (limit i : ℕ) (key value : Bytes) (rest : Pairs)
    → ended limit i ≡ false
    → has_prefix key prefix ≡ true
    → page_from prefix limit i ((key, value) ∷ rest)
      ≡ (key, value) ∷ page_from prefix limit (suc i) rest
page_from-more prefix limit i key value rest e h = rw h (elim (Bool-cases (limit == 0)) [
  | inl all ↦ rw all refl
  | inr some_limit ↦ rw (some_limit, take_more limit i (ground arith)) refl
])

scan_loop-collect :
    (prefix : Bytes) (limit i : ℕ) (s pairs : Pairs)
    → scan_loop collect prefix limit i s pairs ≡ ok (s ++ page_from prefix limit i pairs)
unfolding scan_loop
scan_loop-collect prefix limit i s [] =
    let none_left : page_from prefix limit i [] ≡ [] = ground (arith, take-nil (limit - i)) in
    rw (none_left, append-nil) refl
scan_loop-collect prefix limit i s ((key, value) ∷ rest) = elim (Bool-cases (ended limit i)) [
  | inl e ↦ rw (e, page_from-ended prefix limit i ((key, value) ∷ rest) e, append-nil) refl
  | inr e ↦ elim (Bool-cases (has_prefix key prefix)) [
    | inl h ↦
        rw (page_from-more prefix limit i key value rest e h, e, h)
          (rw (scan_loop-collect prefix limit (suc i) (s ++ ((key, value) ∷ [])) rest, append_assoc)
            refl)
    | inr h ↦ rw (page_from-skip prefix limit i key value rest h, e, h, append-nil) refl
  ]
]

page_from-zero :
    (prefix : Bytes) (limit : ℕ) (pairs : Pairs)
    → page_from prefix limit 0 pairs ≡ page prefix limit pairs
page_from-zero prefix limit pairs = let all : limit - 0 ≡ limit = omega arith in rw all refl

-- All the keys have the prefix.
abbrev pub AllMatch : Bytes → Pairs → Type 0
AllMatch prefix = All (λ pair. has_prefix pair.0 prefix ≡ true)

matching-append :
    (prefix : Bytes) (front back : Pairs)
    → AllMatch prefix front
    → matching prefix (front ++ back) ≡ front ++ matching prefix back
matching-append prefix [] back h = refl
matching-append prefix ((key, value) ∷ front) back h =
    rw h.0 (ap (◌∷◌ (key, value)) (matching-append prefix front back h.1))

module _ {operator : MergeOperator} (engine : Engine operator) (db : engine.Db)
    (prefix : Bytes) where
  first_page :
      (limit : ℕ) (pairs : Pairs)
      → engine.scan prefix db ≡ (pairs, none)
      → enumerate collect engine prefix [] limit [] db ≡ ok (page prefix limit pairs, none)
  unfolding enumerate
  first_page limit pairs e =
      rw (e, enumerate)
        (rw (scan_loop-collect prefix limit 0 [] pairs, page_from-zero prefix limit pairs) refl)

  next_page :
      (limit : ℕ) (key value : Bytes) (rest : Pairs)
      → (length key == 0) ≡ false
      → engine.scan key db ≡ ((key, value) ∷ rest, none)
      → enumerate collect engine prefix key limit [] db ≡ ok (page prefix limit rest, none)
  unfolding enumerate skip_seen
  next_page limit key value rest full e =
      rw (full, e, enumerate, bytes_eq_refl key)
        (rw (scan_loop-collect prefix limit 0 [] rest, page_from-zero prefix limit rest) refl)

  -- A page that ends with a key leaves off exactly where the page that is asked for after this key
  -- goes on: a first page of as many pairs as stand up to the key has these pairs, the next page
  -- has what follows them, cut at its own limit, and a page without a limit has both. This holds
  -- where these pairs match the prefix, the key is not empty, and the iterator, started at the key,
  -- goes on with it.
  pub enumerate_pages :
      (limit : ℕ) (before rest : Pairs) (key value : Bytes)
      → (length key == 0) ≡ false
      → AllMatch prefix (before ++ ((key, value) ∷ []))
      → engine.scan prefix db ≡ ((before ++ ((key, value) ∷ [])) ++ rest, none)
      → engine.scan key db ≡ ((key, value) ∷ rest, none)
      → (enumerate collect engine prefix [] (length (before ++ ((key, value) ∷ []))) [] db
          ≡ ok (before ++ ((key, value) ∷ []), none))
        × (enumerate collect engine prefix key limit [] db ≡ ok (page prefix limit rest, none))
        × (enumerate collect engine prefix [] 0 [] db
            ≡ ok ((before ++ ((key, value) ∷ [])) ++ matching prefix rest, none))
  enumerate_pages limit before rest key value full match whole after =
      let first = before ++ ((key, value) ∷ []) in
      let counted : (length first == 0) ≡ false =
        ground (arith, length-append before ((key, value) ∷ [])) in
      (
        first_page (length first) (first ++ rest) whole
            ∙ rw
                (
                  counted,
                  matching-append prefix first rest match,
                  take-append first (matching prefix rest),
                )
                refl,
        next_page limit key value rest full after,
        first_page 0 (first ++ rest) whole ∙ rw (matching-append prefix first rest match) refl,
      )
