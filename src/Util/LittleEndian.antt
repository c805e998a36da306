-- ===== src/Util/LittleEndian.antt =====
-- The little-endian integers of encoding/binary.
use native.Mathlib.Nat.{pow-suc}
use vasto.Prelude.{
  ℕ, zero, suc, ◌+◌, ◌*◌, ◌/◌, ◌%◌, ◌^◌, ◌<◌, ◌≡◌, refl, [], ◌∷◌, Bytes, IsByte, All, length, arith,
}

-- The `n` lowest bytes of a number, lowest first.
unfoldable pub put_uint : ℕ → ℕ → Bytes
put_uint zero v = []
put_uint (suc n) v = (v % 256) ∷ put_uint n (v / 256)

unfoldable pub get_uint : Bytes → ℕ
get_uint [] = 0
get_uint (b ∷ rest) = b + 256 * get_uint rest

pub length-put_uint : (n v : ℕ) → length (put_uint n v) ≡ n
unfolding put_uint
length-put_uint zero v = refl
length-put_uint (suc n) v = omega (arith, length-put_uint n (v / 256))

pub put_uint-IsByte : (n v : ℕ) → All IsByte (put_uint n v)
unfolding put_uint
put_uint-IsByte zero v = tt
put_uint-IsByte (suc n) v = (omega arith, put_uint-IsByte n (v / 256))

-- A number that fits `n` bytes is read back.
pub get_uint-put_uint : (n v : ℕ) → v < 256 ^ n → get_uint (put_uint n v) ≡ v
unfolding get_uint put_uint
get_uint-put_uint zero v h = omega arith
get_uint-put_uint (suc n) v h =
    omega (arith, get_uint-put_uint n (v / 256) (omega (arith, pow-suc 256 n)))

low : (b v : ℕ) → b < 256 → (b + 256 * v) % 256 ≡ b
low b v h = omega arith

high : (b v : ℕ) → b < 256 → (b + 256 * v) / 256 ≡ v
high b v h = omega arith

pub get_uint-lt : (b : Bytes) → All IsByte b → get_uint b < 256 ^ length b
unfolding get_uint
get_uint-lt [] h = omega arith
get_uint-lt (b ∷ rest) h = omega (arith, get_uint-lt rest h.1, pow-suc 256 (length rest))

-- Bytes that are read as a number are written back.
pub put_uint-get_uint : (b : Bytes) → All IsByte b → put_uint (length b) (get_uint b) ≡ b
unfolding get_uint put_uint
put_uint-get_uint [] h = refl
put_uint-get_uint (b ∷ rest) h =
    ground (arith, put_uint-get_uint rest h.1, low b (get_uint rest), high b (get_uint rest))
