-- ===== src/Store/MergeOperator/Partial.antt =====
-- Merging two operands first, and merging them one by one.
use mathlib.Core.List.{append_assoc}
use vasto.Prelude.{
  ◌≡◌, true, List, ◌∷◌, Bytes, Option-cases, inl, inr, Option, none, some, ok, panic,
}
use vasto.Util.Floats.{Float64}
use vasto.Codec.{Entry, to_bytes, from_bytes}
use vasto.Codec.RoundTrip.{from_bytes_row}
use vasto.Codec.Merge.{merge_decoded, merge_with, merge_entry, merge}
use vasto.Store.MergeOperator.{full_merge_loop, full_merge, partial_merge}
use vasto.Store.MergeOperator.Laws.{IsBytesRow, appended, appended-IsRow, merge_with-bytes}

appended-IsBytesRow : (l : Entry) (v : Bytes) → IsBytesRow l → IsBytesRow (appended l v)
appended-IsBytesRow l v h = record { row = appended-IsRow l v h.row; plain = h.plain }

module _ (floats : Float64) where
  open floats use {Carrier, of_bits, less, is_nan, less_trans, not_less_trans}

  -- A receiver that did not decode.
  merge_with-nil : (y : Entry) → IsBytesRow y → merge_with floats none (some (to_bytes y)) ≡ panic
  unfolding merge_with
  merge_with-nil y r = rw (from_bytes_row y r.row, merge_with) (rw (r.plain, merge_decoded))

  full_merge_twice :
      (existing : Option Bytes) (l r : Entry) (rest : List Bytes)
      → IsBytesRow l
      → IsBytesRow r
      → full_merge floats existing (to_bytes l ∷ to_bytes r ∷ rest)
        ≡ full_merge floats existing (to_bytes (appended l r.value) ∷ rest)
  unfolding full_merge merge_entry
  full_merge_twice none l r rest hl hr = rw (
    from_bytes_row l hl.row,
    merge_with-bytes floats l r hr,
    full_merge_loop,
    from_bytes_row (appended l r.value) (appended-IsBytesRow l r.value hl).row,
  )
  full_merge_twice (some a) l r rest hl hr =
      let both = appended-IsBytesRow l r.value hl in
      elim (Option-cases (from_bytes a)) [
        | inl e ↦ rw (e, merge_with-nil l hl, merge_with-nil (appended l r.value) both, full_merge)
        | inr (d, e) ↦ rw (
          e,
          merge_with-bytes floats d l hl,
          full_merge,
          merge_with-bytes floats (appended d l.value) r hr,
          merge_with-bytes floats d (appended l r.value) both,
          append_assoc,
        )
      ]

  -- For two operands of plain bytes that can be decoded, so that their values are not empty and
  -- their fields in range, PartialMerge appends the values, and the full merge of any
  -- operands that begin with these two, onto any existing value or none, is the full merge that
  -- has the partial result in their place.
  pub partial_merge-bytes :
      (existing : Option Bytes) (l r : Entry) (rest : List Bytes)
      → IsBytesRow l
      → IsBytesRow r
      → (partial_merge floats (to_bytes l) (to_bytes r) ≡ ok (to_bytes (appended l r.value), true))
        × (full_merge floats existing (to_bytes l ∷ to_bytes r ∷ rest)
            ≡ full_merge floats existing (to_bytes (appended l r.value) ∷ rest))
  unfolding partial_merge merge merge_entry
  partial_merge-bytes existing l r rest hl hr = (
    rw (from_bytes_row l hl.row, merge_with-bytes floats l r hr, partial_merge),
    full_merge_twice existing l r rest hl hr,
  )
