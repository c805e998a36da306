-- ===== src/Store/MergeOperator/Max.antt =====
-- Merging with MAX_FLOAT64.
use vasto.Prelude.{
  ◌≤◌, ◌≡◌, true, false, [], ◌∷◌, Bytes, length, take, ltb, if◌then◌else◌, Bool-cases, inl, inr,
  some, ok, arith,
}
use vasto.Util.LittleEndian.{get_uint}
use vasto.Util.Floats.{Float64, bytes_to_float64}
use vasto.Codec.{Entry, to_bytes}
use vasto.Codec.RoundTrip.{IsRow, from_bytes_row}
use vasto.Codec.Merge.{merge_value, merge_with, merge_entry, merge, max_float64_type}
use vasto.Store.MergeOperator.{full_merge_loop, full_merge, partial_merge}

-- A row that holds a double.
pub record IsFloatRow (e : Entry) : Type 0 where
  pub row : IsRow e
  pub wide : 8 ≤ length e.value

module _ (floats : Float64) where
  open floats use {Carrier, of_bits, less, is_nan, less_trans, not_less_trans}

  -- The double that a value stands for.
  abbrev pub double : Bytes → Carrier
  double v = of_bits (get_uint (take 8 v))

  abbrev pub larger : Bytes → Bytes → Bytes
  larger v w = if less (double v) (double w) then w else v

  abbrev pub raised : Entry → Bytes → Entry
  raised e w = record e { value = larger e.value w }

  double-of : (v : Bytes) → 8 ≤ length v → bytes_to_float64 floats v ≡ ok (double v)
  unfolding bytes_to_float64
  double-of v h = let wide : ltb (length v) 8 ≡ false = ground arith in rw wide

  raised-IsFloatRow : (e y : Entry) → IsFloatRow e → IsFloatRow y → IsFloatRow (raised e y.value)
  raised-IsFloatRow e y he hy = elim (Bool-cases (less (double e.value) (double y.value))) [
    | inl h ↦ rw h (record {
      row = record {
        entry = record {
          hash_u64 = he.row.entry.hash_u64;
          updated_u64 = he.row.entry.updated_u64;
          ttl_u32 = he.row.entry.ttl_u32;
          op_byte = he.row.entry.op_byte;
        };
        has_value = hy.row.has_value;
      };
      wide = hy.wide;
    })
    | inr h ↦ rw h he
  ]

  merge_with-max :
      (e y : Entry)
      → 8 ≤ length e.value
      → IsFloatRow y
      → y.op_and_data_type ≡ max_float64_type
      → merge_with floats (some e) (some (to_bytes y)) ≡ ok (some (raised e y.value), true)
  unfolding merge_with
  merge_with-max e y h r m =
      rw (from_bytes_row y r.row, merge_with)
        (rw (m, merge_value) (rw (double-of e.value h, double-of y.value r.wide)))

  larger_assoc :
      (v w x : Bytes) → is_nan (double w) ≡ false → larger (larger v w) x ≡ larger v (larger w x)
  larger_assoc v w x h = ground (
    arith,
    less_trans (double v) (double w) (double x),
    not_less_trans (double v) (double w) (double x) h,
  )

  -- For two operands of type MAX_FLOAT64 whose first is no NaN PartialMerge keeps the larger
  -- double, and the full merge of the two onto a row that holds a double is the full merge of the
  -- partial result.
  pub partial_merge-max :
      (e l r : Entry)
      → IsFloatRow e
      → IsFloatRow l
      → IsFloatRow r
      → l.op_and_data_type ≡ max_float64_type
      → r.op_and_data_type ≡ max_float64_type
      → is_nan (double l.value) ≡ false
      → (partial_merge floats (to_bytes l) (to_bytes r) ≡ ok (to_bytes (raised l r.value), true))
        × (full_merge floats (some (to_bytes e)) (to_bytes l ∷ to_bytes r ∷ [])
            ≡ full_merge floats (some (to_bytes e)) (to_bytes (raised l r.value) ∷ []))
  unfolding partial_merge merge merge_entry full_merge full_merge_loop
  partial_merge-max e l r he hl hr ml mr number = (
    rw (from_bytes_row l hl.row, merge_with-max l r hl.wide hr mr, partial_merge),
    rw (
      from_bytes_row e he.row,
      merge_with-max e l he.wide hl ml,
      full_merge,
      merge_with-max (raised e l.value) r (raised-IsFloatRow e l he hl).wide hr mr,
      merge_with-max e (raised l r.value) he.wide (raised-IsFloatRow l r hl hr) ml,
      larger_assoc e.value l.value r.value number,
    ),
  )
