-- ===== src/Store/Progress/Laws.antt =====
-- Saving and loading the progress of a follower.
use vasto.Prelude.{
  ℕ, ◌<◌, ◌^◌, ◌≡◌, refl, true, false, Bytes, bytes_eq, bytes_eq_refl, Option, none, some, ok,
  arith,
}
use vasto.Util.BigEndian.{
  bytes_to_uint32, bytes_to_uint64, uint32to_bytes, uint64to_bytes, bytes_to_uint32-uint32to_bytes,
  bytes_to_uint64-uint64to_bytes,
}
use vasto.Storage.Rocks.{MergeOperator, Engine, Rocks}
use vasto.Storage.Rocks as Db
use vasto.Storage.Rocks.Laws.{get-put}
use vasto.Store.Progress.{
  segment_key, offset_key, read_number, loaded, failed, load_progress, save_offset, save_progress,
}

segment_key_ne :
    (address other : Bytes) (shard shard' : ℕ)
    → bytes_eq (segment_key address shard) (offset_key other shard') ≡ false
unfolding bytes_eq
segment_key_ne address other shard shard' = refl

read_number-uint32 :
    (v : ℕ) → v < 2 ^ 32 → read_number bytes_to_uint32 (uint32to_bytes v, none) ≡ ok (some v)
unfolding read_number uint32to_bytes
read_number-uint32 v h = rw (bytes_to_uint32-uint32to_bytes v h) refl

read_number-uint64 :
    (v : ℕ) → v < 2 ^ 64 → read_number bytes_to_uint64 (uint64to_bytes v, none) ≡ ok (some v)
unfolding read_number uint64to_bytes
read_number-uint64 v h = rw (bytes_to_uint64-uint64to_bytes v h) refl

loaded_lem :
    (segment offset : ℕ)
    → segment < 2 ^ 32
    → offset < 2 ^ 64
    → loaded (uint32to_bytes segment, none) (uint64to_bytes offset, none)
      ≡ ok (record { segment = segment; offset = offset; has_progress = true }, none)
unfolding loaded
loaded_lem segment offset h k = rw (read_number-uint32 segment h, read_number-uint64 offset k) refl

module _ {operator : MergeOperator} (engine : Engine operator) where
  two_puts :
      (key key' value value' : Bytes) (d : Rocks engine)
      → bytes_eq key key' ≡ false
      → (Db.put engine key value d).1 ≡ none
      → (Db.put engine key' value' (Db.put engine key value d).0).1 ≡ none
      → (Db.get engine key (Db.put engine key' value' (Db.put engine key value d).0).0
          ≡ (value, none))
        × (Db.get engine key' (Db.put engine key' value' (Db.put engine key value d).0).0
            ≡ (value', none))
  two_puts key key' value value' d ne e e' = (
    rw
        (
          get-put engine (Db.put engine key value d).0 key' key value' e',
          ne,
          get-put engine d key key value e,
          bytes_eq_refl key,
        )
        refl,
    rw (get-put engine (Db.put engine key value d).0 key' key' value' e', bytes_eq_refl key') refl,
  )

  failed-none :
      (key : Bytes) (segment offset : ℕ) (err : Option Bytes)
      → failed engine key segment offset err ≡ none
      → err ≡ none
  failed-none key segment offset none e = refl
  failed-none key segment offset (some err) e = absurd (ground arith)

  save_offset-none :
      (address : Bytes) (shard segment offset : ℕ) (first : Rocks engine × Option Bytes)
      → (save_offset engine address shard segment offset first).1 ≡ none
      → (first.1 ≡ none)
        × ((Db.put engine (offset_key address shard) (uint64to_bytes offset) first.0).1 ≡ none)
        × ((save_offset engine address shard segment offset first).0
            ≡ (Db.put engine (offset_key address shard) (uint64to_bytes offset) first.0).0)
  unfolding save_offset
  save_offset-none address shard segment offset (d, none) e =
      (refl, failed-none (offset_key address shard) segment offset _ e, refl)
  save_offset-none address shard segment offset (d, some err) e = absurd (ground arith)

  -- Progress that is saved without an error is loaded again, a segment below 2^32 and an offset
  -- below 2^64.
  pub load_progress-save_progress :
      (address : Bytes) (shard segment offset : ℕ) (d : Rocks engine)
      → segment < 2 ^ 32
      → offset < 2 ^ 64
      → (save_progress engine address shard segment offset d).1 ≡ none
      → load_progress engine address shard (save_progress engine address shard segment offset d).0
        ≡ ok (record { segment = segment; offset = offset; has_progress = true }, none)
  unfolding load_progress save_progress
  load_progress-save_progress address shard segment offset d h k e =
      let (first, second, last) = save_offset-none address shard segment offset _ e in
      let (s, o) =
        two_puts (segment_key address shard) (offset_key address shard) (uint32to_bytes segment)
          (uint64to_bytes offset) d (segment_key_ne address address shard shard) first second in
      rw (last, s, o) (loaded_lem segment offset h k)
