-- ===== src/Codec.antt =====
-- storage/codec/entry.go: the value bytes of one row, and when a row has expired.
pub mod RoundTrip
pub mod Expiry
pub mod Merge
mod Tests
use vasto.Prelude.{
  ℕ, ◌+◌, ◌*◌, ◌%◌, ◌^◌, ◌<◌, ◌≡◌, Bool, true, false, ◌&&◌, List, [], ◌∷◌, ◌++◌, Bytes, IsByte, All,
  length, take, drop, get_or, ltb, leb, if◌then◌else◌, Option, none, some, Run, ok, panic,
}
use vasto.Util.LittleEndian.{put_uint, get_uint}

pub record Entry : Type 0 where
  pub partition_hash : ℕ
  pub updated_at_ns : ℕ
  pub ttl_second : ℕ
  pub op_and_data_type : ℕ
  pub value : Bytes

-- The fields are in the ranges of their Go types.
pub record IsEntry (e : Entry) : Type 0 where
  pub hash_u64 : e.partition_hash < 2 ^ 64
  pub updated_u64 : e.updated_at_ns < 2 ^ 64
  pub ttl_u32 : e.ttl_second < 2 ^ 32
  pub op_byte : e.op_and_data_type < 256

unfoldable pub to_bytes : Entry → Bytes
to_bytes e =
    put_uint 8 e.partition_hash
    ++ (put_uint 8 e.updated_at_ns ++ (put_uint 4 e.ttl_second ++ (e.op_and_data_type ∷ e.value)))

-- The slices of the 21 header bytes, and the rest.
unfoldable pub decode : Bytes → Entry
decode b = record {
  partition_hash = get_uint (take 8 b);
  updated_at_ns = get_uint (take 8 (drop 8 b));
  ttl_second = get_uint (take 4 (drop 16 b));
  op_and_data_type = get_or (drop 20 b) 0 0;
  value = drop 21 b;
}

-- `none` is Go's nil.
unfoldable pub from_bytes : Bytes → Option Entry
from_bytes b = if leb (length b) 21 then none else some (decode b)

-- The slice panics on fewer than eight bytes.
unfoldable pub get_partition_hash_from_bytes : Bytes → Run ℕ
get_partition_hash_from_bytes b = if ltb (length b) 8 then panic else ok (get_uint (take 8 b))

-- `now` is time.Now().UnixNano(). `e.TtlSecond*1e9` is a product of uint32s, and wraps as one.
unfoldable pub is_expired : Entry → ℕ → Bool
is_expired e now =
    ltb 0 e.ttl_second
    && ltb ((e.updated_at_ns + e.ttl_second * 1_000_000_000 % 2 ^ 32) % 2 ^ 64) now
