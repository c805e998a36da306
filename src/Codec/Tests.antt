-- ===== src/Codec/Tests.antt =====
-- The theorems of the entry codec at concrete inputs.
use vasto.Prelude.{
  ◌≡◌, ◌==◌, length, if◌then◌else◌, refl, true, none, some, [], ◌∷◌, Bytes, IsByte, All, codes,
  arith,
}
use vasto.Codec.{Entry, IsEntry, to_bytes, decode, from_bytes, is_expired}
use vasto.Util.LittleEndian.{get_uint}
use vasto.Codec.RoundTrip.{from_bytes-to_bytes}
use vasto.Codec.Expiry.{is_expired_early}

abbrev entry : Bytes → Entry
entry v = record {
  partition_hash = 1000;
  updated_at_ns = 70_000;
  ttl_second = 3;
  op_and_data_type = 0;
  value = v;
}

entry-IsEntry : (v : Bytes) → IsEntry (entry v)
entry-IsEntry v = record {
  hash_u64 = omega arith;
  updated_u64 = omega arith;
  ttl_u32 = omega arith;
  op_byte = omega arith;
}

-- With an empty value the entry is lost.
from_bytes-to_bytes_example :
    from_bytes (to_bytes (entry []))
    ≡ (if length (entry []).value == 0 then none else some (entry []))
from_bytes-to_bytes_example = from_bytes-to_bytes (entry []) (entry-IsEntry [])

abbrev row : Bytes
row =
    232 ∷ 3 ∷ 0 ∷ 0 ∷ 0 ∷ 0 ∷ 0 ∷ 0 ∷ 112 ∷ 17 ∷ 1 ∷ 0 ∷ 0 ∷ 0 ∷ 0 ∷ 0 ∷ 3 ∷ 0 ∷ 0 ∷ 0 ∷ 0 ∷ 97 ∷ []

row_bytes : All IsByte row
row_bytes = omega arith

row_decodes : from_bytes row ≡ some (entry (codes "a"))
unfolding from_bytes decode get_uint
row_decodes = refl

-- It is meant to live for a year.
abbrev yearly : Entry
yearly = record (entry []) { ttl_second = 31_536_000 }

is_expired_early_example : is_expired yearly 5_000_000_000 ≡ true
is_expired_early_example =
    is_expired_early yearly 5_000_000_000 (omega arith) (omega arith) (omega arith)
