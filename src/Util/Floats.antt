-- ===== src/Util/Floats.antt =====
-- The two float conversions of util/bytes.go. The floats themselves are Go's: a parameter.
use vasto.Prelude.{
  ℕ, ◌+◌, arith, ◌≡◌, Bool, true, false, Bytes, length, take, ltb, if◌then◌else◌, Run, ok, panic,
}
use vasto.Util.LittleEndian.{put_uint, get_uint}

-- IEEE 754 doubles: the double of a bit pattern and the pattern of a double, addition, and an order
-- that is a strict weak order on what is not NaN.
pub record Float64 : Type 1 where
  pub Carrier : Type 0
  pub of_bits : ℕ → Carrier
  pub bits : Carrier → ℕ
  pub add : Carrier → Carrier → Carrier
  pub is_nan : Carrier → Bool
  pub less : Carrier → Carrier → Bool
  pub less_trans : (x y z : Carrier) → less x y ≡ true → less y z ≡ true → less x z ≡ true
  pub not_less_trans :
      (x y z : Carrier) → is_nan y ≡ false → less x y ≡ false → less y z ≡ false → less x z ≡ false

module _ (floats : Float64) where
  open floats use {Carrier, of_bits, bits}

  unfoldable pub bytes_to_float64 : Bytes → Run Carrier
  bytes_to_float64 b = if ltb (length b) 8 then panic else ok (of_bits (get_uint (take 8 b)))

  unfoldable pub float64_to_bytes : Carrier → Bytes
  float64_to_bytes f = put_uint 8 (bits f)

-- An order that the promise allows: no NaN, and the doubles ordered like their patterns.
pub pattern_trans : (x y z : ℕ) → ltb x y ≡ true → ltb y z ≡ true → ltb x z ≡ true
pattern_trans x y z h k = ground arith

pub pattern_not_trans :
    (x y z : ℕ) → false ≡ false → ltb x y ≡ false → ltb y z ≡ false → ltb x z ≡ false
pattern_not_trans x y z n h k = ground arith

abbrev pub patterns : Float64
patterns = record {
  Carrier = ℕ;
  of_bits = λ n. n;
  bits = λ n. n;
  add = ◌+◌;
  is_nan = λ n. false;
  less = ltb;
  less_trans = pattern_trans;
  not_less_trans = pattern_not_trans;
}
