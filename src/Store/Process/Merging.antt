-- ===== src/Store/Process/Merging.antt =====
-- A merge and a get of one shard, with Vasto's merge operator.
use mathlib.Core.List.{append-nil}
use vasto.Prelude.{
  ◌==◌, false, ℕ, ◌≡◌, refl, Bool, true, [], ◌∷◌, Bytes, bytes_eq, Bool-cases, inl, inr, length,
  if◌then◌else◌, Option, none, some, ok, arith,
}
use vasto.Util.Floats.{Float64}
use vasto.Pb.Requests.{MergeRequest, GetRequest, new_merge_entry}
use vasto.Codec.{Entry, to_bytes}
use vasto.Codec.RoundTrip.{IsRow, length-to_bytes}
use vasto.Storage.Rocks.{Engine, Rocks, existing}
use vasto.Storage.Rocks as Db
use vasto.Storage.Rocks.Laws.{get-merge}
use vasto.Store.MergeOperator.{full_merge}
use vasto.Store.MergeOperator.Laws.{
  IsBytesRow, appended, appended-IsRow, full_merge-existing, full_merge-missing,
}
use vasto.Store.Shards.{BinLog, Shard}
use vasto.Store.Process.{get_response, written_at, process_merge, process_get}
use vasto.Store.Process.Laws.{answer, finish_ok, found_response-to_bytes}

module _ (floats : Float64) (engine : Engine (full_merge floats)) (bin_log : BinLog) where
  module _ (disable_bin_log : Bool) (now later : ℕ) (s : Shard engine bin_log) (m : MergeRequest)
      (g : GetRequest) where
    abbrev operand : Entry
    operand = new_merge_entry m (written_at m.updated_at_ns now)

    merged :
        (old new : Bytes) (e : Entry)
        → IsRow e
        → new ≡ to_bytes e
        → Db.get engine m.key s.db ≡ (old, none)
        → full_merge floats (existing old) (to_bytes operand ∷ []) ≡ ok (some new, true)
        → (process_merge engine bin_log disable_bin_log now s m).1.ok ≡ true
        → process_get engine bin_log later
            (process_merge engine bin_log disable_bin_log now s m).0
            g
          ≡ (if bytes_eq g.key m.key
              then ok (answer later g.key e)
              else process_get engine bin_log later s g)
    unfolding process_get process_merge get_response
    merged old new e r same_row known result fine =
        let (written, stored) =
          finish_ok engine bin_log disable_bin_log _ s
            (Db.merge engine m.key (to_bytes operand) s.db) fine in
        rw
          (
            written,
            get-merge engine s.db m.key g.key (to_bytes operand) old new stored known result,
          )
          (elim (Bool-cases (bytes_eq g.key m.key)) [
            | inl same ↦ rw (same, same_row) (found_response-to_bytes later g.key e r)
            | inr other ↦ rw other refl
          ])

    -- The key has this row, or none.
    abbrev pub HasRow : Option Entry → Type 0
    HasRow none = Db.get engine m.key s.db ≡ ([], none)
    HasRow (some e) = IsRow e × (Db.get engine m.key s.db ≡ (to_bytes e, none))

    abbrev pub merged_row : Option Entry → Entry
    merged_row none = operand
    merged_row (some e) = appended e m.value

    -- A merge of plain bytes that is answered with ok, on a key that has a row, appends the bytes to
    -- the row's value and keeps its time and type; on a key that has none it writes the row of the
    -- request. A get of any other key answers what it answered before. The row of the request must be
    -- of the type of plain bytes, and it and the row that the key has must be such as can be decoded:
    -- their values are not empty, and their fields in range.
    pub process_get-process_merge :
        (old : Option Entry)
        → IsBytesRow operand
        → HasRow old
        → (process_merge engine bin_log disable_bin_log now s m).1.ok ≡ true
        → process_get engine bin_log later
            (process_merge engine bin_log disable_bin_log now s m).0
            g
          ≡ (if bytes_eq g.key m.key
              then ok (answer later g.key (merged_row old))
              else process_get engine bin_log later s g)
    unfolding new_merge_entry
    process_get-process_merge none r known fine =
        merged [] (to_bytes (appended operand [])) operand r.row (rw append-nil refl) known
          (full_merge-missing floats operand [] r.row tt) fine
    process_get-process_merge (some e) r (row, known) fine =
        let full : (length (to_bytes e) == 0) ≡ false = ground (arith, length-to_bytes e) in
        merged (to_bytes e) (to_bytes (appended e m.value)) (appended e m.value)
          (appended-IsRow e m.value row) refl known
          (rw full (rw append-nil at (full_merge-existing floats e operand [] row (r, tt)))) fine
