-- ===== src/Store/Process.antt =====
-- cmd/store/process_get.go, process_put.go, process_merge.go and process_delete.go: one request to a
-- shard. `now` is the time in nanoseconds.
pub mod Laws
pub mod Merging
use vasto.Prelude.{
  ℕ, Bool, true, false, List, [], ◌∷◌, Bytes, length, ◌==◌, if◌then◌else◌, codes, Option, none,
  some, Run, ok, panic, ◌>>=◌,
}
use vasto.Pb.Requests.{
  PutRequest, MergeRequest, DeleteRequest, GetRequest, KeyTypeValue, WriteResponse, GetResponse,
  LogEntry, new_put_entry, new_merge_entry,
}
use vasto.Codec.{Entry, to_bytes, from_bytes, is_expired}
use vasto.Storage.Rocks.{MergeOperator, Engine, Rocks}
use vasto.Storage.Rocks as Db
use vasto.Store.Shards.{BinLog, Shard}

-- `nowInNano`
unfoldable pub written_at : ℕ → ℕ → ℕ
written_at requested now = if requested == 0 then now else requested

abbrev pub done : WriteResponse
done = record { ok = true; status = [] }

abbrev pub refused : Bytes → WriteResponse
refused err = record { ok = false; status = err }

-- IsExpired of a pointer: a nil pointer is dereferenced.
abbrev pub expired : Option Entry → ℕ → Run Bool
expired none now = panic
expired (some e) now = ok (is_expired e now)

abbrev pub key_type_value : Bytes → Entry → KeyTypeValue
key_type_value key e = record {
  key = key;
  partition_hash = e.partition_hash;
  data_type = e.op_and_data_type;
  value = e.value;
}

abbrev pub put_log_entry : PutRequest → ℕ → LogEntry
put_log_entry p at = record { updated_at_ns = at; put = some p; delete = none; merge = none }

abbrev pub merge_log_entry : MergeRequest → ℕ → LogEntry
merge_log_entry m at = record { updated_at_ns = at; put = none; delete = none; merge = some m }

abbrev pub delete_log_entry : DeleteRequest → ℕ → LogEntry
delete_log_entry d at = record { updated_at_ns = at; put = none; delete = some d; merge = none }

-- The response for the bytes that the database has.
unfoldable pub found_response : ℕ → Bytes → Bytes → Run GetResponse
found_response now key b =
    if length b == 0
    then ok (record { ok = true; status = []; key_value = none })
    else elim (from_bytes b) [
      | none ↦ panic
      | some e ↦ ok (
          if is_expired e now
          then (record { ok = false; status = codes "expired"; key_value = none })
          else (record { ok = true; status = []; key_value = some (key_type_value key e) }))
    ]

-- The response for what the database answers.
unfoldable pub get_response : ℕ → Bytes → Bytes × Option Bytes → Run GetResponse
unfolding found_response
get_response now key (b, none) = found_response now key b
get_response now key (b, some err) = ok (record { ok = false; status = err; key_value = none })

module _ {operator : MergeOperator} (engine : Engine operator) (bin_log : BinLog) where
  unfoldable pub append_log : LogEntry → Shard engine bin_log → Shard engine bin_log
  append_log e s = elim s.lm [
    | none ↦ s
    | some log ↦ record s { lm = some (bin_log.append_entry e log) }
  ]

  -- The end of the three writes: an error is answered, and otherwise the write is logged.
  abbrev pub finish :
      Bool
      → LogEntry
      → Shard engine bin_log
      → Rocks engine × Option Bytes
      → Shard engine bin_log × WriteResponse
  finish disable_bin_log e s (db, none) =
      let written : Shard engine bin_log = record s { db = db } in
      (if disable_bin_log then written else append_log e written, done)
  finish disable_bin_log e s (db, some err) = (record s { db = db }, refused err)

  unfoldable pub process_put :
      Bool → ℕ → Shard engine bin_log → PutRequest → Shard engine bin_log × WriteResponse
  unfolding append_log written_at new_put_entry
  process_put disable_bin_log now s p =
      let at = written_at p.updated_at_ns now in
      finish disable_bin_log (put_log_entry p at) s
        (Db.put engine p.key (to_bytes (new_put_entry p at)) s.db)

  unfoldable pub process_merge :
      Bool → ℕ → Shard engine bin_log → MergeRequest → Shard engine bin_log × WriteResponse
  unfolding append_log written_at new_merge_entry
  process_merge disable_bin_log now s m =
      let at = written_at m.updated_at_ns now in
      finish disable_bin_log (merge_log_entry m at) s
        (Db.merge engine m.key (to_bytes (new_merge_entry m at)) s.db)

  unfoldable pub process_delete :
      Bool → ℕ → Shard engine bin_log → DeleteRequest → Shard engine bin_log × WriteResponse
  unfolding append_log written_at
  process_delete disable_bin_log now s d =
      finish disable_bin_log (delete_log_entry d (written_at d.updated_at_ns now)) s
        (Db.delete engine d.key s.db)

  unfoldable pub process_get : ℕ → Shard engine bin_log → GetRequest → Run GetResponse
  unfolding get_response
  process_get now s g = get_response now g.key (Db.get engine g.key s.db)
