-- ===== src/Store/Tests.antt =====
-- The theorems of the store at concrete inputs.
use vasto.Prelude.{◌≡◌, [], ◌∷◌, ℕ, refl, true, none, Bytes, codes, ok, arith}
use vasto.Util.Floats.{patterns}
use vasto.Codec.{Entry, to_bytes}
use vasto.Store.MergeOperator.{full_merge, partial_merge}
use vasto.Store.MergeOperator.Laws.{IsBytesRow, appended}
use vasto.Store.MergeOperator.Partial.{partial_merge-bytes}
use vasto.Store.MergeOperator.Max.{IsFloatRow}

abbrev entry : ℕ → Bytes → Entry
entry op v = record {
  partition_hash = 1000;
  updated_at_ns = 70_000;
  ttl_second = 0;
  op_and_data_type = op;
  value = v;
}

text_row : IsBytesRow (entry 0 (codes "a"))
text_row = record {
  row = record {
    entry = record {
      hash_u64 = omega arith;
      updated_u64 = omega arith;
      ttl_u32 = omega arith;
      op_byte = omega arith;
    };
    has_value = omega arith;
  };
  plain = refl;
}

abbrev a : Entry
a = entry 0 (codes "a")

partial_merge-bytes_example :
    (partial_merge patterns (to_bytes a) (to_bytes a)
      ≡ ok (to_bytes (appended a (codes "a")), true))
    × (full_merge patterns none (to_bytes a ∷ to_bytes a ∷ [])
        ≡ full_merge patterns none (to_bytes (appended a (codes "a")) ∷ []))
partial_merge-bytes_example = partial_merge-bytes patterns none a a [] text_row text_row

abbrev double_of : ℕ → Entry
double_of n = entry 2 (n ∷ 0 ∷ 0 ∷ 0 ∷ 0 ∷ 0 ∷ 0 ∷ 0 ∷ [])

double_row : (n : ℕ) → IsFloatRow (double_of n)
double_row n = record {
  row = record {
    entry = record {
      hash_u64 = omega arith;
      updated_u64 = omega arith;
      ttl_u32 = omega arith;
      op_byte = omega arith;
    };
    has_value = omega arith;
  };
  wide = omega arith;
}
