-- ===== src/Codec/RoundTrip.antt =====
-- Encoding and decoding an entry.
use vasto.Prelude.{
  false, Bool-cases, inl, inr, subst, ltb, ◌==◌, length-take, length-drop, drop-drop,
  take-append-drop, All-take, All-drop, ℕ, ◌+◌, ◌^◌, ◌≤◌, ◌<◌, ◌≡◌, refl, ap, [], ◌∷◌, Bytes,
  IsByte, All, length, take, drop, get_or, leb, if◌then◌else◌, none, some, ok, arith,
}
use vasto.Util.LittleEndian.{put_uint, get_uint, get_uint-put_uint, put_uint-get_uint, get_uint-lt}
use vasto.Codec.{Entry, IsEntry, to_bytes, decode, from_bytes, get_partition_hash_from_bytes}

pub length-to_bytes : (e : Entry) → length (to_bytes e) ≡ length e.value + 21
unfolding to_bytes put_uint
length-to_bytes e = omega arith

decode-to_bytes : (e : Entry) → IsEntry e → decode (to_bytes e) ≡ e
unfolding decode to_bytes put_uint
decode-to_bytes e v = λ i. record {
  partition_hash = get_uint-put_uint 8 e.partition_hash v.hash_u64 i;
  updated_at_ns = get_uint-put_uint 8 e.updated_at_ns v.updated_u64 i;
  ttl_second = get_uint-put_uint 4 e.ttl_second v.ttl_u32 i;
  op_and_data_type = e.op_and_data_type;
  value = e.value;
}

-- What ToBytes writes FromBytes reads back, except that an entry with an empty value is refused.
pub from_bytes-to_bytes :
    (e : Entry)
    → IsEntry e
    → from_bytes (to_bytes e) ≡ (if length e.value == 0 then none else some e)
unfolding from_bytes
from_bytes-to_bytes e v = rw (length-to_bytes e, decode-to_bytes e v) (ground arith)

-- The partition hash is read from the encoded entry without decoding it, also for an empty value.
pub partition_hash-to_bytes :
    (e : Entry) → IsEntry e → get_partition_hash_from_bytes (to_bytes e) ≡ ok e.partition_hash
unfolding get_partition_hash_from_bytes decode
partition_hash-to_bytes e v =
    let enough : ltb (length (to_bytes e)) 8 ≡ false = ground (arith, length-to_bytes e) in
    rw (enough, get_partition_hash_from_bytes)
      (ap ok (ap (λ (d : Entry). d.partition_hash) (decode-to_bytes e v)))

put_uint-take :
    (n : ℕ) (b : Bytes) → n ≤ length b → All IsByte b → put_uint n (get_uint (take n b)) ≡ take n b
put_uint-take n b h k =
    let size : length (take n b) ≡ n = omega (arith, length-take n b) in
    rw size at (put_uint-get_uint (take n b) (All-take IsByte n b k))

cell : (b : Bytes) → 0 < length b → get_or b 0 0 ∷ drop 1 b ≡ b
cell [] h = absurd (omega arith)
cell (x ∷ b) h = refl

to_bytes-decode : (b : Bytes) → All IsByte b → 21 ≤ length b → to_bytes (decode b) ≡ b
unfolding to_bytes decode
to_bytes-decode b h k = rw (
  put_uint-take 8 b (omega arith) h,
  put_uint-take 8 (drop 8 b) (omega (arith, length-drop 8 b)) (All-drop IsByte 8 b h),
  put_uint-take 4 (drop 16 b) (omega (arith, length-drop 16 b)) (All-drop IsByte 16 b h),
  ← drop-drop 20 1 b,
  cell (drop 20 b) (omega (arith, length-drop 20 b)),
  ← drop-drop 16 4 b,
  take-append-drop 4 (drop 16 b),
  ← drop-drop 8 8 b,
  take-append-drop 8 (drop 8 b),
  take-append-drop 8 b,
)

get_uint-take : (n : ℕ) (b : Bytes) → n ≤ length b → All IsByte b → get_uint (take n b) < 256 ^ n
get_uint-take n b h k =
    let size : length (take n b) ≡ n = omega (arith, length-take n b) in
    rw size at (get_uint-lt (take n b) (All-take IsByte n b k))

get_or-IsByte : (b : Bytes) → All IsByte b → get_or b 0 0 < 256
get_or-IsByte [] h = omega arith
get_or-IsByte (x ∷ b) h = h.0

decode-IsEntry :
    (b : Bytes) → All IsByte b → 21 < length b → IsEntry (decode b) × (0 < length (decode b).value)
unfolding decode
decode-IsEntry b h k = (
  record {
    hash_u64 = get_uint-take 8 b (omega arith) h;
    updated_u64 =
        get_uint-take 8 (drop 8 b) (omega (arith, length-drop 8 b)) (All-drop IsByte 8 b h);
    ttl_u32 =
        get_uint-take 4 (drop 16 b) (omega (arith, length-drop 16 b)) (All-drop IsByte 16 b h);
    op_byte = get_or-IsByte (drop 20 b) (All-drop IsByte 20 b h);
  },
  omega (arith, length-drop 21 b),
)

-- Bytes that FromBytes accepts are what ToBytes writes for the entry, which is in range and has a
-- value.
pub to_bytes-from_bytes :
    (b : Bytes) (e : Entry)
    → All IsByte b
    → from_bytes b ≡ some e
    → (to_bytes e ≡ b) × IsEntry e × (0 < length e.value)
unfolding from_bytes
to_bytes-from_bytes b e h p = elim (Bool-cases (leb (length b) 21)) [
  | inl short ↦ absurd (ground arith)
  | inr long ↦
      let enough : 21 < length b = ground arith in
      let found : decode b ≡ e = ground arith in
      let (valid, full) = decode-IsEntry b h enough in
      subst (λ (d : Entry). (to_bytes d ≡ b) × IsEntry d × (0 < length d.value)) found
        (to_bytes-decode b h (omega arith), valid, full)
]

-- An entry that survives the encoding.
pub record IsRow (e : Entry) : Type 0 where
  pub entry : IsEntry e
  pub has_value : 0 < length e.value

pub from_bytes_row : (e : Entry) → IsRow e → from_bytes (to_bytes e) ≡ some e
from_bytes_row e r = ground (arith, from_bytes-to_bytes e r.entry)
