-- ===== src/Codec/Merge.antt =====
-- storage/codec/entry_merge.go: merging encoded entries.
use vasto.Prelude.{
  ℕ, Bool, true, ltb, [], ◌++◌, Bytes, ◌==◌, if◌then◌else◌, Option, none, some, Run, ok, panic,
  ◌>>=◌,
}
use vasto.Util.Floats.{Float64, bytes_to_float64, float64_to_bytes}
use vasto.Codec.{Entry, to_bytes, from_bytes}

-- pb.OpAndDataType
abbrev pub bytes_type : ℕ
bytes_type = 0

abbrev pub float64_type : ℕ
float64_type = 1

abbrev pub max_float64_type : ℕ
max_float64_type = 2

abbrev pub min_float64_type : ℕ
min_float64_type = 3

-- ToBytes of a pointer to an entry: a nil pointer is dereferenced.
abbrev pub entry_to_bytes : Option Entry → Run Bytes
entry_to_bytes none = panic
entry_to_bytes (some e) = ok (to_bytes e)

module _ (floats : Float64) where
  open floats use {Carrier, add, less}

  -- The new value, by the type of the entry that is merged in. An unknown type changes nothing.
  unfoldable pub merge_value : ℕ → Bytes → Bytes → Run Bytes
  merge_value op value operand =
      if op == bytes_type
      then ok (value ++ operand)
      else if op == float64_type
      then (do
        left ← bytes_to_float64 floats value
        right ← bytes_to_float64 floats operand
        ok (float64_to_bytes floats (add left right)))
      else if op == max_float64_type
      then (do
        left ← bytes_to_float64 floats value
        right ← bytes_to_float64 floats operand
        ok (if less left right then operand else value))
      else if op == min_float64_type
      then (do
        left ← bytes_to_float64 floats value
        right ← bytes_to_float64 floats operand
        ok (if less right left then operand else value))
      else ok value

  -- `y` in the receiver `e`. Only the four known types touch the receiver's value.
  unfoldable pub merge_decoded : Option Entry → Entry → Run (Option Entry)
  merge_decoded none y = if ltb min_float64_type y.op_and_data_type then ok none else panic
  merge_decoded (some e) y = do
    value ← merge_value y.op_and_data_type e.value y.value
    ok (some (record e { value = value }))

  -- The receiver is a pointer, nil if its bytes did not decode; so is `y`. The Boolean is `merged`.
  unfoldable pub merge_with : Option Entry → Option Bytes → Run (Option Entry × Bool)
  unfolding merge_decoded merge_value
  merge_with e none = ok (e, true)
  merge_with e (some b) = elim (from_bytes b) [
    | none ↦ panic
    | some y ↦ do e' ← merge_decoded e y; ok (e', true)
  ]

  abbrev or_empty : Option Bytes → Bytes
  or_empty none = []
  or_empty (some b) = b

  unfoldable pub merge_entry : Option Bytes → Option Bytes → Run (Option Entry × Bool)
  unfolding merge_with
  merge_entry none b = ok (from_bytes (or_empty b), true)
  merge_entry (some a) b = merge_with (from_bytes a) b

  unfoldable pub merge : Option Bytes → Option Bytes → Run (Bytes × Bool)
  unfolding merge_entry
  merge a b = do (x, merged) ← merge_entry a b; bytes ← entry_to_bytes x; ok (bytes, merged)
