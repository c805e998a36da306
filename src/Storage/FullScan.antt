-- ===== src/Storage/FullScan.antt =====
-- storage/rocks/rocksdb_full_scan.go: all rows of a database, in batches.
pub mod Batches
pub mod Whole
use vasto.Prelude.{
  ℕ, ◌+◌, ◌%◌, Bool, true, false, ◌&&◌, List, [], ◌∷◌, ◌++◌, Bytes, length, ltb, leb, ◌==◌,
  if◌then◌else◌, codes, Option, none, some, Run, ok, panic, ◌>>=◌,
}
use vasto.Storage.Rocks.{MergeOperator, Engine, Rocks, admits, shutdown_in_progress}

abbrev pub RawKeyValue : Type 0
RawKeyValue = Bytes × Bytes

abbrev pub scan_error : Option Bytes → Option Bytes → Option Bytes
scan_error (some err) iterator = some err
scan_error none none = none
scan_error none (some err) = some (codes "full scan iterate: " ++ err)

-- The caller's function takes its own state on, and answers an error or none.
module _ {ℓ} {S : Type ℓ} (fn : List RawKeyValue → S → Run (S × Option Bytes)) where
  -- The rows that make no full batch.
  unfoldable pub last_batch : List RawKeyValue → S → Run (S × Option Bytes)
  last_batch [] s = ok (s, none)
  last_batch (row ∷ rows) s = fn (row ∷ rows) s

  -- A full batch is passed on: the rows that are kept, and the error.
  unfoldable pub full_batch :
      Bool → List RawKeyValue → S → Run (S × List RawKeyValue × Option Bytes)
  full_batch false rows s = ok (s, rows, none)
  full_batch true rows s = do (s', err) ← fn rows s; ok (s', [], err)

  -- `row_count` rows are seen, and `rows` of them wait for the others of their batch.
  unfoldable pub scan_rows :
      ℕ → ℕ → ℕ → List RawKeyValue → List RawKeyValue → S → Run (S × Option Bytes)
  scan_rows batch_size limit row_count rows [] s = last_batch rows s
  scan_rows batch_size limit row_count rows (row ∷ rest) s = if batch_size == 0 then panic else (do
    (s', kept, err) ← full_batch ((row_count + 1) % batch_size == 0) (rows ++ (row ∷ [])) s
    elim err [
      | some e ↦ ok (s', some e)
      | none ↦
          if ltb 0 limit && leb limit (row_count + 1)
          then last_batch kept s'
          else scan_rows batch_size limit (row_count + 1) kept rest s'
    ])

  module _ {operator : MergeOperator} (engine : Engine operator) where
    unfoldable pub full_scan : ℕ → ℕ → S → Rocks engine → Run (S × Option Bytes)
    full_scan batch_size limit s d =
        if admits d.client_counter
        then (do
          (s', err) ← scan_rows batch_size limit 0 [] (engine.scan [] d.db).0 s
          ok (s', scan_error err (engine.scan [] d.db).1))
        else ok (s, some shutdown_in_progress)
