-- ===== src/Storage/Rocks.antt =====
-- storage/rocks/rocksdb.go: the database of one shard. RocksDB itself is a parameter.
pub mod Shutdown
pub mod Laws
pub mod Memory
use vasto.Prelude.{
  ℕ, suc, ◌+◌, ◌-◌, ◌≡◌, Bool, true, false, List, [], ◌∷◌, Bytes, bytes_eq, length, ◌==◌,
  if◌then◌else◌, codes, Option, none, some, Run, ok, panic,
}
use vasto.Prelude.Int.{ℤ, pos, negsuc, ltb_ℤ}

abbrev pub MergeOperator : Type 0
MergeOperator = Option Bytes → List Bytes → Run (Option Bytes × Bool)

-- The value that a read gives to the merge operator; RocksDB gives nil where there is none.
abbrev pub existing : Bytes → Option Bytes
existing b = if length b == 0 then none else some b

-- A RocksDB database with this merge operator, through gorocksdb. An error is its text. A missing
-- key reads as no bytes. The laws are what RocksDB documents of its reads and writes.
pub record Engine (operator : MergeOperator) : Type 1 where
  pub Db : Type 0
  pub get_bytes : Bytes → Db → Bytes × Option Bytes
  pub put : Bytes → Bytes → Db → Db × Option Bytes
  pub merge : Bytes → Bytes → Db → Db × Option Bytes
  pub delete : Bytes → Db → Db × Option Bytes
  -- The pairs of an iterator from the first key that is not below the one sought, and the error
  -- that the iterator ends with; and what an iterator that is at no pair gives as its key.
  pub scan : Bytes → Db → List (Bytes × Bytes) × Option Bytes
  pub key_past_end : Run Bytes
  pub get_bytes-put :
      (key value : Bytes) (db : Db) (other : Bytes)
      → (put key value db).1 ≡ none
      → get_bytes other (put key value db).0
        ≡ (if bytes_eq other key then (value, none) else get_bytes other db)
  pub get_bytes-delete :
      (key : Bytes) (db : Db) (other : Bytes)
      → (delete key db).1 ≡ none
      → get_bytes other (delete key db).0
        ≡ (if bytes_eq other key then ([], none) else get_bytes other db)
  pub get_bytes-merge :
      (key operand : Bytes) (db : Db) (other old new : Bytes)
      → (merge key operand db).1 ≡ none
      → get_bytes key db ≡ (old, none)
      → operator (existing old) (operand ∷ []) ≡ ok (some new, true)
      → get_bytes other (merge key operand db).0
        ≡ (if bytes_eq other key then (new, none) else get_bytes other db)

abbrev pub shutdown_in_progress : Bytes
shutdown_in_progress = codes "shutdown in progress"

-- `atomic.AddInt32(&counter, 1)`
unfoldable pub incr : ℤ → ℤ
incr (pos n) = pos (suc n)
incr (negsuc n) = if n == 0 then pos 0 else negsuc (n - 1)

-- `newClientCounter > 0`
unfoldable pub admits : ℤ → Bool
unfolding incr
admits counter = ltb_ℤ (pos 0) (incr counter)

module _ {operator : MergeOperator} (engine : Engine operator) where
  open engine use {Db}

  -- A call that has ended has taken back what it added to the counter.
  pub record Rocks : Type 0 where
    pub db : Db
    pub client_counter : ℤ

  unfoldable pub put : Bytes → Bytes → Rocks → Rocks × Option Bytes
  put key msg d =
      if admits d.client_counter
      then (let (db, err) = engine.put key msg d.db in (record d { db = db }, err))
      else (d, some shutdown_in_progress)

  unfoldable pub merge : Bytes → Bytes → Rocks → Rocks × Option Bytes
  merge key msg d =
      if admits d.client_counter
      then (let (db, err) = engine.merge key msg d.db in (record d { db = db }, err))
      else (d, some shutdown_in_progress)

  unfoldable pub get : Bytes → Rocks → Bytes × Option Bytes
  get key d =
      if admits d.client_counter then engine.get_bytes key d.db else ([], some shutdown_in_progress)

  unfoldable pub delete : Bytes → Rocks → Rocks × Option Bytes
  delete key d =
      if admits d.client_counter
      then (let (db, err) = engine.delete key d.db in (record d { db = db }, err))
      else (d, some shutdown_in_progress)
