-- ===== src/Store/Follow/Laws.antt =====
-- What processing one entry does to the rows of a follower.
use vasto.Prelude.{
  ℕ, ◌≡◌, refl, false, [], Bytes, bytes_eq, Bool-cases, inl, inr, length, ltb, ◌==◌, if◌then◌else◌,
  Option, none, some, ok, arith, bytes_eq→eq, ◌∙◌,
}
use vasto.Pb.Requests.{PutRequest, DeleteRequest, get_key, get_write_request, new_put_entry}
use vasto.Codec.{Entry, to_bytes, is_expired}
use vasto.Codec.RoundTrip.{IsRow, from_bytes_row, length-to_bytes}
use vasto.Storage.Rocks.{MergeOperator, Engine, Rocks, admits}
use vasto.Storage.Rocks as Db
use vasto.Storage.Rocks.Laws.{get-put, client_counter-put}
use vasto.Store.Process.{put_log_entry, delete_log_entry}
use vasto.Store.Follow.{follow_put, follow_delete, process_entry}

-- The row that stays when a put arrives: a row that has expired gives way to one that has not, and
-- a row that has not expired stays only if it is newer.
abbrev pub winner : ℕ → ℕ → Option Entry → Entry → Entry
winner now later none t = t
winner now later (some row) t =
    if is_expired row now
    then (if is_expired t later then row else t)
    else if ltb t.updated_at_ns row.updated_at_ns
    then row
    else t

module _ {operator : MergeOperator} (engine : Engine operator) where
  -- The database has this row for the key, or none.
  abbrev pub HasRow : Rocks engine → Bytes → Option Entry → Type 0
  HasRow d key none = Db.get engine key d ≡ ([], none)
  HasRow d key (some row) = IsRow row × (Db.get engine key d ≡ (to_bytes row, none))

  -- The other database has this row for the key, and all else reads as in the first.
  abbrev pub Changed : Rocks engine → Bytes → Entry → Rocks engine → Type 0
  Changed d key row d' =
      (d'.client_counter ≡ d.client_counter)
      × ((j : Bytes)
          → Db.get engine j d'
            ≡ (if bytes_eq j key then (to_bytes row, none) else Db.get engine j d))

  -- A row that stays is no change.
  pub Changed-kept :
      (d : Rocks engine) (key : Bytes) (row : Entry) → HasRow d key (some row) → Changed d key row d
  Changed-kept d key row known = (
    refl,
    λ j. elim (Bool-cases (bytes_eq j key)) [
      | inl same ↦ rw (same, bytes_eq→eq j key same) known.1
      | inr other ↦ rw other refl
    ],
  )

  pub Changed-put :
      (d : Rocks engine) (key : Bytes) (row : Entry)
      → (Db.put engine key (to_bytes row) d).1 ≡ none
      → Changed d key row (Db.put engine key (to_bytes row) d).0
  Changed-put d key row stored = (
    client_counter-put engine d key (to_bytes row),
    λ j. get-put engine d key j (to_bytes row) stored,
  )

  module _ (now later at : ℕ) (d : Rocks engine) where
    follow_put_reached :
        (p : PutRequest) (b : Bytes)
        → Db.get engine p.key d ≡ (b, none)
        → process_entry engine now later (put_log_entry p at) d
          ≡ follow_put engine now later (put_log_entry p at) p b d
    unfolding process_entry get_key get_write_request
    follow_put_reached p b known = rw (known, process_entry) (rw known refl)

    follow_put_empty :
        (p : PutRequest)
        → follow_put engine now later (put_log_entry p at) p [] d
          ≡ ok (Db.put engine p.key (to_bytes (new_put_entry p at)) d).0
    unfolding follow_put
    follow_put_empty p = refl

    follow_put_row :
        (p : PutRequest) (row : Entry)
        → IsRow row
        → follow_put engine now later (put_log_entry p at) p (to_bytes row) d
          ≡ ok (
              if is_expired row now
              then (if is_expired (new_put_entry p at) later
                  then d
                  else (Db.put engine p.key (to_bytes (new_put_entry p at)) d).0)
              else if ltb at row.updated_at_ns
              then d
              else (Db.put engine p.key (to_bytes (new_put_entry p at)) d).0)
    unfolding follow_put
    follow_put_row p row r =
        let full : (length (to_bytes row) == 0) ≡ false = ground (arith, length-to_bytes row) in
        rw (full, from_bytes_row row r, follow_put)
          (elim (Bool-cases (is_expired row now)) [
            | inl gone ↦ rw gone (ground arith)
            | inr lives ↦ rw lives (ground arith)
          ])

    -- A follower that processes a put keeps the winner of the row that it has, if it has one, and the
    -- row of the put, and leaves all other keys as they are, if the database takes the write. Both
    -- rows must be such as can be decoded: their values are not empty, and their times, times to
    -- live, hashes and types are in the range of their fields.
    pub process_entry-put :
        (p : PutRequest) (old : Option Entry)
        → IsRow (new_put_entry p at)
        → HasRow d p.key old
        → (Db.put engine p.key (to_bytes (new_put_entry p at)) d).1 ≡ none
        → (d' : Rocks engine) × (process_entry engine now later (put_log_entry p at) d ≡ ok d')
          × Changed d p.key (winner now later old (new_put_entry p at)) d'
    unfolding new_put_entry
    process_entry-put p none r known stored = (
      (Db.put engine p.key (to_bytes (new_put_entry p at)) d).0,
      follow_put_reached p [] known ∙ follow_put_empty p,
      Changed-put d p.key (new_put_entry p at) stored,
    )
    process_entry-put p (some row) r known stored =
        let step = follow_put_reached p (to_bytes row) known.1 ∙ follow_put_row p row known.0 in
        let stays = Changed-kept d p.key row known in
        let put = Changed-put d p.key (new_put_entry p at) stored in
        elim (Bool-cases (is_expired row now)) [
          | inl gone ↦ elim (Bool-cases (is_expired (new_put_entry p at) later)) [
            | inl both ↦ rw (gone, both) (d, rw (gone, both) at step, stays)
            | inr fresh ↦ rw (gone, fresh) (_, rw (gone, fresh) at step, put)
          ]
          | inr lives ↦ elim (Bool-cases (ltb at row.updated_at_ns)) [
            | inl newer ↦ rw (lives, newer) (d, rw (lives, newer) at step, stays)
            | inr older ↦ rw (lives, older) (_, rw (lives, older) at step, put)
          ]
        ]

    -- A follower that processes a delete changes nothing at all, whatever key is to be deleted,
    -- unless it has a row under the empty key.
    pub process_entry-delete :
        (del : DeleteRequest)
        → Db.get engine [] d ≡ ([], none)
        → process_entry engine now later (delete_log_entry del at) d ≡ ok d
    unfolding process_entry follow_delete get_key get_write_request
    process_entry-delete del known = rw (known, process_entry) (rw known refl)
