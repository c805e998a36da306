-- ===== src/Merge.antt =====
-- pb/priority_queue_raw_key_value.go and goclient/vs/key_value_priority_queue.go: the merge of sorted
-- channels through a priority queue, for rows of either type. A channel is the list of what it still
-- gives before it is closed; the rows that were sent are not nil.
pub mod Order
pub mod Channels
pub mod Drain
pub mod Ordered
pub mod Start
pub mod Process
pub mod ListHeap
mod Tests
use vasto.Prelude.{
  ℕ, zero, suc, ◌+◌, ◌≡◌, Bool, true, false, ◌&&◌, List, [], ◌∷◌, ◌++◌, map, Perm, Bytes, length,
  ltb, leb, ◌==◌, if◌then◌else◌, All, Option, none, some,
}

-- bytes.Compare(a, b) < 0
unfoldable pub bytes_less : Bytes → Bytes → Bool
bytes_less [] [] = false
bytes_less [] (y ∷ b) = true
bytes_less (x ∷ a) [] = false
bytes_less (x ∷ a) (y ∷ b) = let rest = bytes_less a b in if x == y then rest else ltb x y

-- container/heap over a slice with this order: Init, Pop, Push, and Fix of the last element. `none`
-- is a slice of length 0.
pub record Heap {A : Type 0} (less : A → A → Bool) : Type 1 where
  pub Queue : Type 0
  pub init : List A → Queue
  pub pop : Queue → Option (A × Queue)
  pub push : A → Queue → Queue
  pub fix_last : Queue → Queue
  pub contents : Queue → List A
  pub contents-init : (xs : List A) → Perm (contents (init xs)) xs
  pub contents-push : (x : A) (q : Queue) → Perm (contents (push x q)) (x ∷ contents q)
  pub contents-fix_last : (q : Queue) → Perm (contents (fix_last q)) (contents q)
  pub pop-none : (q : Queue) → pop q ≡ none → contents q ≡ []
  pub contents-pop :
      (q : Queue) (x : A) (rest : Queue)
      → pop q ≡ some (x, rest)
      → Perm (contents q) (x ∷ contents rest) × All (λ y. less y x ≡ false) (contents rest)

-- A row and the channel it came from.
abbrev pub Item : Type 0 → Type 0
Item A = A × ℕ

unfoldable pub less : {A : Type 0} → (A → Bytes) → Item A → Item A → Bool
less key a b = bytes_less (key a.0) (key b.0)

module _ {A : Type 0} where
  -- A receive from the channel of this index.
  unfoldable pub receive : ℕ → List (List A) → Option A × List (List A)
  receive i [] = (none, [])
  receive zero ([] ∷ chans) = (none, [] ∷ chans)
  receive zero ((a ∷ rest) ∷ chans) = (some a, rest ∷ chans)
  receive (suc i) (c ∷ chans) = let (a, others) = receive i chans in (a, c ∷ others)

  -- The first row of each channel that is not nil, with the index of its channel.
  unfoldable pub first_rows : ℕ → List (Option (List A)) → List (Item A) × List (List A)
  first_rows i [] = ([], [])
  first_rows i (none ∷ chans) = let (items, rest) = first_rows (suc i) chans in (items, [] ∷ rest)
  first_rows i (some [] ∷ chans) =
      let (items, rest) = first_rows (suc i) chans in (items, [] ∷ rest)
  first_rows i (some (a ∷ c) ∷ chans) =
      let (items, rest) = first_rows (suc i) chans in ((a, i) ∷ items, c ∷ rest)

  -- The rows of all channels.
  unfoldable pub all_rows : List (List A) → List A
  all_rows [] = []
  all_rows (c ∷ chans) = c ++ all_rows chans

module _ {A : Type 0} (key : A → Bytes) (heap : Heap {A = Item A} (less key)) where
  open heap use {Queue, init, pop, push, fix_last}

  -- The row that was received, if there was one.
  unfoldable pub queue_next : ℕ → Queue → Option A × List (List A) → Queue × List (List A)
  queue_next i q (none, others) = (q, others)
  queue_next i q (some a, others) = (fix_last (push (a, i) q), others)

  unfoldable pub refill : ℕ → Queue → List (List A) → Queue × List (List A)
  refill i q chans = queue_next i q (receive i chans)

  -- `limit` rounds of the client's loop.
  unfoldable pub merge_rounds : ℕ → Queue → List (List A) → List A
  merge_rounds zero q chans = []
  merge_rounds (suc limit) q chans = elim (pop q) [
    | none ↦ []
    | some ((a, i), rest) ↦
        let (q', chans') = refill i rest chans in a ∷ merge_rounds limit q' chans'
  ]

  unfoldable pub limited_merge_sorted : List (Option (List A)) → ℕ → List A
  limited_merge_sorted chans limit =
      let (items, rest) = first_rows 0 chans in merge_rounds limit (init items) rest

  module _ {S : Type 0} (fn : A → S → S × Option Bytes) (limit : ℕ) where
    -- On fuel; `counter` rows are done.
    unfoldable pub merge_loop : ℕ → ℕ → Queue → List (List A) → S → S × ℕ × Option Bytes
    merge_loop zero counter q chans s = (s, counter, none)
    merge_loop (suc fuel) counter q chans s = elim (pop q) [
      | none ↦ (s, counter, none)
      | some ((a, i), rest) ↦
          let (s', err) = fn a s in
          let (q', chans') = refill i rest chans in
          elim err [
            | some e ↦ (s', counter, some e)
            | none ↦
                if ltb 0 limit && leb limit (suc counter)
                then (s', suc counter, none)
                else merge_loop fuel (suc counter) q' chans' s'
          ]
    ]

    -- Each round ends with one row fewer than it began, so their number is fuel enough.
    unfoldable pub merge_sorted : List (Option (List A)) → S → S × ℕ × Option Bytes
    merge_sorted chans s =
        let (items, rest) = first_rows 0 chans in
        merge_loop (length items + length (all_rows rest)) 0 (init items) rest s
