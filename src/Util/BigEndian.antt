-- ===== src/Util/BigEndian.antt =====
-- util/bytes.go: unsigned integers as big-endian bytes.
use native.Mathlib.Nat.{pow-suc, mod-eq_of_lt, div-div-eq-div-mul, div-le_self, div-one, le_trans}
use Prim.Native.Nat.{suc-le-suc}
use vasto.Prelude.{
  sym, ap, ◌∙◌, ℕ, zero, suc, ◌+◌, ◌*◌, ◌/◌, ◌%◌, ◌^◌, ◌<◌, ◌≡◌, refl, [], ◌∷◌, Bytes, arith, Run,
  ok, panic,
}

-- `for i := 0; i < length-1; i++ { v += b[i]; v <<= 8 }; v += b[length-1]` in words below `m`.
-- On no bytes at all the index is out of range.
abbrev from_loop : ℕ → ℕ → Bytes → Run ℕ
from_loop m v [] = panic
from_loop m v (b ∷ []) = ok ((v + b) % m)
from_loop m v (b ∷ c ∷ rest) = from_loop m ((v + b) % m * 256 % m) (c ∷ rest)

pub bytes_to_uint64 : Bytes → Run ℕ
bytes_to_uint64 b = from_loop (2 ^ 64) 0 b

pub bytes_to_uint32 : Bytes → Run ℕ
bytes_to_uint32 b = from_loop (2 ^ 32) 0 b

-- It reads two bytes, whatever follows them.
pub bytes_to_uint16 : Bytes → Run ℕ
bytes_to_uint16 [] = panic
bytes_to_uint16 (b ∷ []) = panic
bytes_to_uint16 (b ∷ c ∷ rest) = ok (((b % 2 ^ 16) * 256 % 2 ^ 16 + c) % 2 ^ 16)

-- `b[n-1-i] = byte(v >> (i * 8))`, from the front.
abbrev to_loop : ℕ → ℕ → Bytes
to_loop zero v = []
to_loop (suc i) v = (v / 256 ^ i % 256) ∷ to_loop i v

unfoldable pub uint64to_bytes : ℕ → Bytes
uint64to_bytes v = to_loop 8 v

unfoldable pub uint32to_bytes : ℕ → Bytes
uint32to_bytes v = to_loop 4 v

pub uint16to_bytes : ℕ → Bytes
uint16to_bytes v = (v / 256 % 256) ∷ (v % 256) ∷ []

-- One round of the two loops: the bytes still to come carry `v % 256 ^ (i + 1)`.
split : (v i : ℕ) → v / 256 ^ suc i ≡ v / 256 ^ i / 256
split v i = rw (pow-suc 256 i) (sym (div-div-eq-div-mul v (256 ^ i) 256))

round :
    (m v i q : ℕ) → v < m → q ≡ v / 256 ^ suc i → (q * 256 + v / 256 ^ i % 256) % m ≡ v / 256 ^ i
round m v i q h e =
    let kept : q * 256 + v / 256 ^ i % 256 ≡ v / 256 ^ i = omega (arith, split v i) in
    rw kept (mod-eq_of_lt (le_trans (suc-le-suc (div-le_self v (256 ^ i))) h))

carry : (m v i : ℕ) → v < m → v / 256 ^ suc i * 256 % m ≡ v / 256 ^ suc i * 256
carry m v i h = mod-eq_of_lt (omega (arith, split v i, div-le_self v (256 ^ i)))

from_loop-to_loop :
    (m v i q : ℕ) → v < m → q ≡ v / 256 ^ suc i → from_loop m (q * 256) (to_loop (suc i) v) ≡ ok v
from_loop-to_loop m v zero q h e = ap ok (round m v 0 q h e ∙ div-one v)
from_loop-to_loop m v (suc i) q h e =
    rw (round m v (suc i) q h e, carry m v i h) (from_loop-to_loop m v i (v / 256 ^ suc i) h refl)

-- A uint64 that is written as eight bytes is read back.
pub bytes_to_uint64-uint64to_bytes :
    (v : ℕ) → v < 2 ^ 64 → bytes_to_uint64 (uint64to_bytes v) ≡ ok v
unfolding bytes_to_uint64 uint64to_bytes
bytes_to_uint64-uint64to_bytes v h = from_loop-to_loop (2 ^ 64) v 7 0 h (omega arith)

-- A uint32 that is written as four bytes is read back.
pub bytes_to_uint32-uint32to_bytes :
    (v : ℕ) → v < 2 ^ 32 → bytes_to_uint32 (uint32to_bytes v) ≡ ok v
unfolding bytes_to_uint32 uint32to_bytes
bytes_to_uint32-uint32to_bytes v h = from_loop-to_loop (2 ^ 32) v 3 0 h (omega arith)

-- A uint16 that is written as two bytes is read back.
pub bytes_to_uint16-uint16to_bytes :
    (v : ℕ) → v < 2 ^ 16 → bytes_to_uint16 (uint16to_bytes v) ≡ ok v
unfolding bytes_to_uint16 uint16to_bytes
bytes_to_uint16-uint16to_bytes v h = ap ok (omega arith)
