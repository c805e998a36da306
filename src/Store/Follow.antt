-- ===== src/Store/Follow.antt =====
-- processEntry of cmd/store/shard_follow_binlog.go: one entry of another shard's binlog. The time is
-- read for the row that is there (`now`) and then for the row of the entry (`later`).
pub mod Laws
pub mod Order
use vasto.Prelude.{
  ℕ, Bool, true, false, List, [], ◌∷◌, Bytes, length, ltb, ◌==◌, if◌then◌else◌, Option, none, some,
  Run, ok, panic,
}
use vasto.Pb.Requests.{
  PutRequest, MergeRequest, DeleteRequest, LogEntry, get_key, new_put_entry, new_merge_entry,
}
use vasto.Codec.{Entry, to_bytes, from_bytes, is_expired}
use vasto.Storage.Rocks.{MergeOperator, Engine, Rocks}
use vasto.Storage.Rocks as Db

module _ {operator : MergeOperator} (engine : Engine operator) where
  -- Processing a delete, where `b` is what the database has.
  unfoldable pub follow_delete : ℕ → LogEntry → Bytes → Rocks engine → Run (Rocks engine)
  unfolding get_key
  follow_delete now e b d =
      if ltb 0 (length b)
      then elim (from_bytes b) [
        | none ↦ panic
        | some row ↦
            if is_expired row now
            then ok d
            else if ltb e.updated_at_ns row.updated_at_ns
            then ok d
            else ok (Db.delete engine (get_key e) d).0
      ]
      else ok d

  -- Processing a put.
  unfoldable pub follow_put :
      ℕ → ℕ → LogEntry → PutRequest → Bytes → Rocks engine → Run (Rocks engine)
  unfolding new_put_entry
  follow_put now later e p b d =
      let t = new_put_entry p e.updated_at_ns in
      let written = (Db.put engine p.key (to_bytes t) d).0 in
      if length b == 0 then ok written else elim (from_bytes b) [
        | none ↦ panic
        | some row ↦
            if is_expired row now
            then (if is_expired t later then ok d else ok written)
            else if ltb e.updated_at_ns row.updated_at_ns
            then ok d
            else ok written
      ]

  unfoldable pub process_entry : ℕ → ℕ → LogEntry → Rocks engine → Run (Rocks engine)
  unfolding follow_delete follow_put get_key new_merge_entry
  process_entry now later e d = elim e.merge [
    | some m ↦ ok (Db.merge engine m.key (to_bytes (new_merge_entry m e.updated_at_ns)) d).0
    | none ↦
        let (b, err) = Db.get engine (get_key e) d in
        elim err [
          | some _ ↦ ok d
          | none ↦ elim e.delete [
            | some _ ↦ follow_delete now e b d
            | none ↦ elim e.put [ some p ↦ follow_put now later e p b d | none ↦ ok d ]
          ]
        ]
  ]
