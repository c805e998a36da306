-- ===== src/Store/Process/Laws.antt =====
-- What a client that writes and then reads sees of one shard.
use vasto.Prelude.{
  ℕ, ◌≡◌, refl, Bool, true, false, [], Bytes, bytes_eq, Bool-cases, Option-cases, inl, inr, length,
  ◌==◌, if◌then◌else◌, codes, Option, none, some, ok, arith,
}
use vasto.Pb.Requests.{PutRequest, DeleteRequest, GetRequest, GetResponse, LogEntry, new_put_entry}
use vasto.Codec.{Entry, to_bytes, is_expired}
use vasto.Codec.RoundTrip.{IsRow, from_bytes_row, length-to_bytes}
use vasto.Storage.Rocks.{MergeOperator, Engine, Rocks, admits}
use vasto.Storage.Rocks as Db
use vasto.Storage.Rocks.Laws.{get-put, get-delete}
use vasto.Store.Shards.{BinLog, Shard}
use vasto.Store.Process.{
  finish, get_response, written_at, key_type_value, append_log, process_put, process_delete,
  process_get, found_response,
}

-- What a get answers when the row of the key is this entry.
abbrev pub answer : ℕ → Bytes → Entry → GetResponse
answer now key e =
    if is_expired e now
    then (record { ok = false; status = codes "expired"; key_value = none })
    else (record { ok = true; status = []; key_value = some (key_type_value key e) })

pub found_response-to_bytes :
    (now : ℕ) (key : Bytes) (e : Entry)
    → IsRow e
    → found_response now key (to_bytes e) ≡ ok (answer now key e)
unfolding found_response
found_response-to_bytes now key e r =
    let full : (length (to_bytes e) == 0) ≡ false = ground (arith, length-to_bytes e) in
    rw (full, from_bytes_row e r, found_response) refl

module _ {operator : MergeOperator} (engine : Engine operator) (bin_log : BinLog) where
  append_log-db :
      (e : LogEntry) (s : Shard engine bin_log) → (append_log engine bin_log e s).db ≡ s.db
  unfolding append_log
  append_log-db e s = elim (Option-cases s.lm) [ inl h ↦ rw h refl | inr (log, h) ↦ rw h refl ]

  -- A write that is answered with ok leaves what the database left.
  pub finish_ok :
      (disable_bin_log : Bool) (e : LogEntry) (s : Shard engine bin_log)
      (result : Rocks engine × Option Bytes)
      → (finish engine bin_log disable_bin_log e s result).1.ok ≡ true
      → ((finish engine bin_log disable_bin_log e s result).0.db ≡ result.0) × (result.1 ≡ none)
  finish_ok true e s (db, none) h = (refl, refl)
  finish_ok false e s (db, none) h = (append_log-db e (record s { db = db }), refl)
  finish_ok b e s (db, some err) h = absurd (ground arith)

  module _ (disable_bin_log : Bool) (now later : ℕ) (s : Shard engine bin_log) where
    -- A put that is answered with ok is read back, as expired if its time has passed; a get of any
    -- other key answers what it answered before. The row must fit the encoding: fields in range and
    -- a value that is not empty.
    pub process_get-process_put :
        (p : PutRequest) (g : GetRequest)
        → IsRow (new_put_entry p (written_at p.updated_at_ns now))
        → (process_put engine bin_log disable_bin_log now s p).1.ok ≡ true
        → process_get engine bin_log later (process_put engine bin_log disable_bin_log now s p).0 g
          ≡ (if bytes_eq g.key p.key
              then ok (answer later g.key (new_put_entry p (written_at p.updated_at_ns now)))
              else process_get engine bin_log later s g)
    unfolding process_get process_put get_response
    process_get-process_put p g r e =
        let entry = new_put_entry p (written_at p.updated_at_ns now) in
        let (written, fine) =
          finish_ok disable_bin_log _ s (Db.put engine p.key (to_bytes entry) s.db) e in
        rw (written, get-put engine s.db p.key g.key (to_bytes entry) fine)
          (elim (Bool-cases (bytes_eq g.key p.key)) [
            | inl same ↦ rw same (found_response-to_bytes later g.key entry r)
            | inr other ↦ rw other refl
          ])

    -- After a delete that is answered with ok a get of the key finds nothing, and a get of any other
    -- key answers what it answered before.
    pub process_get-process_delete :
        (d : DeleteRequest) (g : GetRequest)
        → (process_delete engine bin_log disable_bin_log now s d).1.ok ≡ true
        → process_get engine bin_log later
            (process_delete engine bin_log disable_bin_log now s d).0
            g
          ≡ (if bytes_eq g.key d.key
              then ok (record { ok = true; status = []; key_value = none })
              else process_get engine bin_log later s g)
    unfolding process_get process_delete get_response found_response
    process_get-process_delete d g e =
        let (written, fine) = finish_ok disable_bin_log _ s (Db.delete engine d.key s.db) e in
        rw (written, get-delete engine s.db d.key g.key fine)
          (elim (Bool-cases (bytes_eq g.key d.key)) [
            | inl same ↦ rw same refl
            | inr other ↦ rw other refl
          ])
