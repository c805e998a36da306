-- ===== src/Store/MergeOperator/Laws.antt =====
-- What the merge operator promises to RocksDB.
use mathlib.Core.List.{append_assoc, append-nil}
use vasto.Prelude.{
  ◌≡◌, true, List, [], ◌∷◌, ◌++◌, map, Bytes, All, none, some, ok, length-append, arith,
}
use vasto.Util.Floats.{Float64}
use vasto.Codec.{Entry, to_bytes}
use vasto.Codec.RoundTrip.{IsRow, from_bytes_row}
use vasto.Codec.Merge.{merge_value, merge_with, merge_entry, bytes_type}
use vasto.Store.MergeOperator.{full_merge_loop, full_merge}

-- The values of the operands, one after the other.
abbrev pub concat_values : List Entry → Bytes
concat_values [] = []
concat_values (e ∷ es) = e.value ++ concat_values es

-- A row of plain bytes.
pub record IsBytesRow (e : Entry) : Type 0 where
  pub row : IsRow e
  pub plain : e.op_and_data_type ≡ bytes_type

abbrev pub appended : Entry → Bytes → Entry
appended e v = record e { value = e.value ++ v }

pub appended-IsRow : (l : Entry) (v : Bytes) → IsRow l → IsRow (appended l v)
appended-IsRow l v h = record {
  entry = record {
    hash_u64 = h.entry.hash_u64;
    updated_u64 = h.entry.updated_u64;
    ttl_u32 = h.entry.ttl_u32;
    op_byte = h.entry.op_byte;
  };
  has_value = omega (arith, length-append l.value v, h.has_value);
}

module _ (floats : Float64) where
  pub merge_with-bytes :
      (e y : Entry)
      → IsBytesRow y
      → merge_with floats (some e) (some (to_bytes y)) ≡ ok (some (appended e y.value), true)
  unfolding merge_with
  merge_with-bytes e y r = rw (from_bytes_row y r.row, merge_with) (rw (r.plain, merge_value))

  full_merge_loop-bytes :
      (e : Entry) (ys : List Entry)
      → All IsBytesRow ys
      → full_merge_loop floats (some e) (map to_bytes ys)
        ≡ ok (some (to_bytes (appended e (concat_values ys))), true)
  unfolding full_merge_loop
  full_merge_loop-bytes e [] h = rw append-nil
  full_merge_loop-bytes e (y ∷ ys) h =
      rw (merge_with-bytes e y h.0, full_merge_loop)
        (rw (full_merge_loop-bytes (appended e y.value) ys h.1, append_assoc))

  -- Merging operands of plain bytes, at least one, into an existing row appends their values to the
  -- row's in order, and keeps the rest of the row.
  pub full_merge-existing :
      (e y : Entry) (ys : List Entry)
      → IsRow e
      → All IsBytesRow (y ∷ ys)
      → full_merge floats (some (to_bytes e)) (map to_bytes (y ∷ ys))
        ≡ ok (some (to_bytes (appended e (concat_values (y ∷ ys)))), true)
  unfolding full_merge merge_entry
  full_merge-existing e y ys r h =
      rw (from_bytes_row e r, merge_with-bytes e y h.0, full_merge)
        (rw (full_merge_loop-bytes (appended e y.value) ys h.1, append_assoc))

  -- Where there is no row yet, the first operand is the row.
  pub full_merge-missing :
      (y : Entry) (ys : List Entry)
      → IsRow y
      → All IsBytesRow ys
      → full_merge floats none (map to_bytes (y ∷ ys))
        ≡ ok (some (to_bytes (appended y (concat_values ys))), true)
  unfolding full_merge merge_entry
  full_merge-missing y ys r h = rw (from_bytes_row y r) (full_merge_loop-bytes y ys h)
