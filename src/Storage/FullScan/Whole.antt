-- ===== src/Storage/FullScan/Whole.antt =====
-- A full scan as a loop over batches.
use vasto.Prelude.{
  ℕ, ◌-◌, ◌<◌, ◌≡◌, ◌⊎◌, inl, inr, refl, ◌∙◌, true, false, List, [], Bytes, ◌==◌, Option, Run, ok,
  ◌>>=◌, arith, Bool-cases,
}
use native.Mathlib.Nat.{zero-mod}
use vasto.Storage.Rocks.{MergeOperator, Engine, Rocks, admits}
use vasto.Storage.FullScan.{RawKeyValue, scan_error, full_scan}
use vasto.Storage.FullScan.Batches.{
  each_batch, joined, limited, AreBatches, batches, batches-AreBatches, joined-batches,
  scan_rows-batches, still,
}

module _ {ℓ} {S : Type ℓ} {operator : MergeOperator} (engine : Engine operator)
    (fn : List RawKeyValue → S → Run (S × Option Bytes)) where
  zero_or : (limit : ℕ) → (limit ≡ 0) ⊎ (0 < limit)
  zero_or limit = elim (Bool-cases (limit == 0)) [
    | inl e ↦ inl (ground arith)
    | inr e ↦ inr (ground arith)
  ]

  start-limited : (limit : ℕ) (pairs : List RawKeyValue) → still limit 0 pairs ≡ limited limit pairs
  unfolding limited
  start-limited limit pairs = let all : limit - 0 ≡ limit = omega arith in rw all refl

  -- A full scan of an open database, in batches of a size that is not 0, calls `fn` on batches one
  -- by one, to its first error: together they are all rows from the first key on, or the first
  -- `limit` of them where the limit is not 0, and all have the size of a batch but the last, which
  -- may be smaller and is not empty. The answer is the error of `fn`, or else that of the iterator.
  pub full_scan-batches :
      (batch_size limit : ℕ) (s : S) (d : Rocks engine)
      → 0 < batch_size
      → admits d.client_counter ≡ true
      → (bs : List (List RawKeyValue)) × (joined bs ≡ limited limit (engine.scan [] d.db).0)
        × AreBatches batch_size bs
        × (full_scan fn engine batch_size limit s d
            ≡ (each_batch fn bs s >>= (λ r. ok (r.0, scan_error r.1 (engine.scan [] d.db).1))))
  unfolding full_scan
  full_scan-batches batch_size limit s d h opened =
      let pairs = (engine.scan [] d.db).0 in
      let some_size : (batch_size == 0) ≡ false = ground arith in
      (
        batches batch_size limit 0 [] pairs,
        joined-batches batch_size limit 0 [] pairs (zero_or limit) ∙ start-limited limit pairs,
        batches-AreBatches batch_size limit 0 [] pairs (zero-mod batch_size) h,
        rw (opened, scan_rows-batches fn batch_size limit 0 [] pairs s some_size) refl,
      )
