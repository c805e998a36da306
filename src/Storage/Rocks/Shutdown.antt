-- ===== src/Storage/Rocks/Shutdown.antt =====
-- The counter of storage/rocks/rocksdb.go that keeps Close apart from the calls that are running.
use vasto.Prelude.{ℕ, ◌==◌, ◌-◌, suc, ◌+◌, ◌≡◌, ◌≤◌, Bool, true, false, if◌then◌else◌}
use vasto.Prelude.Int.{ℤ, pos, negsuc, sub_ℕ}
use vasto.Storage.Rocks.{incr, admits}

-- `atomic.AddInt32(&counter, -1)`
abbrev pub decr : ℤ → ℤ
decr (pos n) = if n == 0 then negsuc 0 else pos (n - 1)
decr (negsuc n) = negsuc (suc n)

-- The counter with the calls between their two atomic steps: those that were admitted and use the
-- database, and those that were refused.
pub record Gate : Type 0 where
  pub counter : ℤ
  pub inside : ℕ
  pub refused : ℕ
  pub closed : Bool

abbrev pub opened : Gate
opened = record { counter = pos 0; inside = 0; refused = 0; closed = false }

-- The atomic steps of the calls, and of the one call of Close that succeeds.
pub data Step : Gate → Gate → Type 0 where
  enter :
      (g : Gate)
      → admits g.counter ≡ true
      → Step g (record g { counter = incr g.counter; inside = suc g.inside })
  refuse :
      (g : Gate)
      → admits g.counter ≡ false
      → Step g (record g { counter = incr g.counter; refused = suc g.refused })
  leave :
      (g : Gate) (n : ℕ)
      → g.inside ≡ suc n
      → Step g (record g { counter = decr g.counter; inside = n })
  withdraw :
      (g : Gate) (n : ℕ)
      → g.refused ≡ suc n
      → Step g (record g { counter = decr g.counter; refused = n })
  close :
      (g : Gate)
      → g.closed ≡ false
      → g.counter ≡ pos 0
      → Step g (record g { counter = negsuc 99; closed = true })

-- What is reached from an open database with at most `limit` calls under way at a time.
pub data Reached (limit : ℕ) : Gate → Type 0 where
  start : Reached limit opened
  next : (g h : Gate) → Reached limit g → Step g h → h.inside + h.refused ≤ limit → Reached limit h

-- What Close has taken off the counter.
abbrev taken : Bool → ℕ
taken closed = if closed then 100 else 0

-- The counter is the number of calls under way, less what Close has taken off; before Close no call
-- is refused, and after it none is inside.
record IsGate (g : Gate) : Type 0 where
  counted : g.counter ≡ sub_ℕ (g.inside + g.refused) (taken g.closed)
  before : g.closed ≡ false → g.refused ≡ 0
  after : g.closed ≡ true → g.inside ≡ 0
