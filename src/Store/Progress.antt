-- ===== src/Store/Progress.antt =====
-- cmd/store/shard_follow_progress.go: how far a shard has followed the binlog of another one, in the
-- rows that it keeps with its data, and in memory.
pub mod Laws
use vasto.Prelude.{
  ℕ, Bool, true, false, not, ◌&&◌, List, [], ◌∷◌, ◌++◌, Bytes, bytes_eq, length, ltb, ◌==◌,
  if◌then◌else◌, codes, Option, none, some, Run, ok, panic, ◌>>=◌,
}
use vasto.Pb.Identifier.{dot, decimal}
use vasto.Util.BigEndian.{bytes_to_uint32, bytes_to_uint64, uint32to_bytes, uint64to_bytes}
use vasto.Storage.Rocks.{MergeOperator, Engine, Rocks}
use vasto.Storage.Rocks as Db

abbrev pub vasto_internal_key_prefix : Bytes
vasto_internal_key_prefix = codes "_vasto."

-- Of genSegmentOffsetKeys, the one key and the other.
abbrev pub segment_key : Bytes → ℕ → Bytes
segment_key address shard =
    vasto_internal_key_prefix ++ (codes "next.segment." ++ (address ++ (dot ∷ decimal shard)))

abbrev pub offset_key : Bytes → ℕ → Bytes
offset_key address shard =
    vasto_internal_key_prefix ++ (codes "next.offset." ++ (address ++ (dot ∷ decimal shard)))

pub record ProgressKey : Type 0 where
  pub shard_id : ℕ
  pub server_admin_address : Bytes

pub record ProgressValue : Type 0 where
  pub segment : ℕ
  pub offset : ℕ

abbrev pub same_key : ProgressKey → ProgressKey → Bool
same_key a b = a.shard_id == b.shard_id && bytes_eq a.server_admin_address b.server_admin_address

-- The map `followProgress`.
abbrev pub FollowProgress : Type 0
FollowProgress = List (ProgressKey × ProgressValue)

unfoldable pub has_progress : ProgressKey → FollowProgress → Bool
has_progress key [] = false
has_progress key (entry ∷ rest) = if same_key entry.0 key then true else has_progress key rest

unfoldable pub insert_in_memory_follow_progress :
    ProgressKey → ProgressValue → FollowProgress → FollowProgress
insert_in_memory_follow_progress key value [] = (key, value) ∷ []
insert_in_memory_follow_progress key value (entry ∷ rest) =
    if same_key entry.0 key
    then (key, value) ∷ rest
    else entry ∷ insert_in_memory_follow_progress key value rest

unfoldable pub update_in_memory_follow_progress_if_present :
    ProgressKey → ProgressValue → FollowProgress → FollowProgress × Bool
update_in_memory_follow_progress_if_present key value m =
    if has_progress key m then (insert_in_memory_follow_progress key value m, true) else (m, false)

unfoldable pub delete_in_memory_follow_progress : ProgressKey → FollowProgress → FollowProgress
delete_in_memory_follow_progress key [] = []
delete_in_memory_follow_progress key (entry ∷ rest) =
    let more = delete_in_memory_follow_progress key rest in
    if same_key entry.0 key then more else entry ∷ more

-- A row that can be read and is not empty is a number.
unfoldable pub read_number : (Bytes → Run ℕ) → Bytes × Option Bytes → Run (Option ℕ)
read_number number (t, none) = if ltb 0 (length t) then (do v ← number t; ok (some v)) else ok none
read_number number (t, some err) = ok none

abbrev pub or_zero : Option ℕ → ℕ
or_zero none = 0
or_zero (some v) = v

abbrev pub is_there : Option ℕ → Bool
is_there none = false
is_there (some v) = true

-- The next segment, the next offset and `hasProgress`.
pub record Progress : Type 0 where
  pub segment : ℕ
  pub offset : ℕ
  pub has_progress : Bool

abbrev pub progress : Option ℕ → Option ℕ → Progress
progress segment offset = record {
  segment = or_zero segment;
  offset = or_zero offset;
  has_progress = if is_there segment then true else is_there offset;
}

-- What the two rows say; the error is that of the second read.
unfoldable pub loaded : Bytes × Option Bytes → Bytes × Option Bytes → Run (Progress × Option Bytes)
unfolding read_number
loaded segment_row offset_row = do
  segment ← read_number bytes_to_uint32 segment_row
  offset ← read_number bytes_to_uint64 offset_row
  ok (progress segment offset, offset_row.1)

module _ {operator : MergeOperator} (engine : Engine operator) where
  unfoldable pub load_progress : Bytes → ℕ → Rocks engine → Run (Progress × Option Bytes)
  unfolding loaded
  load_progress address shard d =
      loaded (Db.get engine (segment_key address shard) d)
        (Db.get engine (offset_key address shard) d)

  abbrev pub failed : Bytes → ℕ → ℕ → Option Bytes → Option Bytes
  failed key segment offset none = none
  failed key segment offset (some err) = some (
      codes "setting "
      ++ (key
          ++ (codes " = "
              ++ (decimal segment ++ (codes " " ++ (decimal offset ++ (codes ": " ++ err)))))))

  -- The second row is only written when the first one is.
  unfoldable pub save_offset :
      Bytes → ℕ → ℕ → ℕ → Rocks engine × Option Bytes → Rocks engine × Option Bytes
  save_offset address shard segment offset (d, some err) =
      (d, failed (segment_key address shard) segment offset (some err))
  save_offset address shard segment offset (d, none) =
      let (d', err) = Db.put engine (offset_key address shard) (uint64to_bytes offset) d in
      (d', failed (offset_key address shard) segment offset err)

  unfoldable pub save_progress : Bytes → ℕ → ℕ → ℕ → Rocks engine → Rocks engine × Option Bytes
  unfolding save_offset
  save_progress address shard segment offset d =
      save_offset address shard segment offset
        (Db.put engine (segment_key address shard) (uint32to_bytes segment) d)

  unfoldable pub clear_progress : Bytes → ℕ → Rocks engine → Rocks engine
  clear_progress address shard d =
      (Db.delete engine (offset_key address shard)
        (Db.delete engine (segment_key address shard) d).0).0

  -- The body of the loop of EverySecond, for what the shard has saved.
  unfoldable pub save_if_new :
      ProgressKey → ProgressValue → Rocks engine → Progress × Option Bytes → Rocks engine
  unfolding save_progress
  save_if_new key value d (saved, some err) = d
  save_if_new key value d (saved, none) =
      if saved.has_progress && (saved.segment == value.segment && saved.offset == value.offset)
      then d
      else (save_progress key.server_admin_address key.shard_id value.segment value.offset d).0

  unfoldable pub every_second : FollowProgress → Rocks engine → Run (Rocks engine)
  unfolding load_progress save_if_new
  every_second [] d = ok d
  every_second (entry ∷ rest) d = do
    saved ← load_progress entry.0.server_admin_address entry.0.shard_id d
    every_second rest (save_if_new entry.0 entry.1 d saved)
