-- ===== src/Binlog/Manager/Names.antt =====
-- The names of the files of a binlog.
use mathlib.Core.Path.{ap₂}
use vasto.Prelude.{
  bytes_eq_refl, inl, inr, ℕ, zero, suc, ◌+◌, ◌-◌, ◌*◌, ◌/◌, ◌%◌, ◌^◌, ◌<◌, ◌≤◌, ◌≡◌, Option-cases,
  bytes_eq→eq, take-append-drop, ◌≢◌, take, drop, refl, sym, ap, subst, ◌∙◌, true, false, [], ◌∷◌,
  ◌++◌, Bytes, length, ltb, ◌==◌, if◌then◌else◌, All, All-append, none, some, arith, Bool-cases,
  length-append, take-append, drop-append,
}
use vasto.Pb.Identifier.{decimal, decimal_loop, value_of, value_of-decimal_loop}
use vasto.Binlog.Manager.{
  base_name, parse_loop, parse_uint, trim_prefix, has_suffix, segment_text, const_log_file_prefix,
  const_log_file_suffix,
}

abbrev IsDigit : ℕ → Type 0
IsDigit c = (48 ≤ c) × (c ≤ 57)

decimal_loop-IsDigit : (fuel n : ℕ) → All IsDigit (decimal_loop fuel n)
unfolding decimal_loop
decimal_loop-IsDigit zero n = tt
decimal_loop-IsDigit (suc fuel) n = elim (Bool-cases (n / 10 == 0)) [
  | inl last ↦ rw last (omega arith)
  | inr more ↦ rw more (All-append IsDigit _ _ (decimal_loop-IsDigit fuel (n / 10)) (omega arith))
]

value_of-le : (acc : ℕ) (s : Bytes) → acc ≤ value_of acc s
value_of-le acc [] = omega arith
value_of-le acc (c ∷ s) = omega (arith, value_of-le (acc * 10 + (c - 48)) s)

parse_loop_lem :
    (acc : ℕ) (s : Bytes)
    → All IsDigit s
    → value_of acc s < 2 ^ 32
    → parse_loop acc s ≡ some (value_of acc s)
unfolding parse_loop
parse_loop_lem acc [] d h = refl
parse_loop_lem acc (c ∷ s) d h =
    ground
      (arith, parse_loop_lem (acc * 10 + (c - 48)) s d.1 h, value_of-le (acc * 10 + (c - 48)) s)

length-decimal_pos : (n : ℕ) → 0 < length (decimal n)
unfolding decimal decimal_loop
length-decimal_pos n = omega (
  arith,
  length-append (if n / 10 == 0 then [] else decimal_loop n (n / 10)) ((48 + n % 10) ∷ []),
)

pub parse_uint-decimal : (n : ℕ) → n < 2 ^ 32 → parse_uint (decimal n) ≡ some n
unfolding parse_uint decimal
parse_uint-decimal n h =
    let same = value_of-decimal_loop (suc n) n (omega arith) in
    let full = length-decimal_pos n in
    let nonempty : (length (decimal n) == 0) ≡ false = ground arith in
    rw nonempty (
      parse_loop_lem 0 (decimal_loop (suc n) n) (decimal_loop-IsDigit (suc n) n)
        (omega (arith, same))
      ∙ ap some same)

has_suffix-append : (s suffix : Bytes) → has_suffix suffix (s ++ suffix) ≡ true
unfolding has_suffix
has_suffix-append s suffix =
    let long : ltb (length (s ++ suffix)) (length suffix) ≡ false =
      ground (arith, length-append s suffix) in
    let front : length (s ++ suffix) - length suffix ≡ length s =
      omega (arith, length-append s suffix) in
    rw (long, front, drop-append s suffix) (bytes_eq_refl suffix)

pub segment_text-base_name : (n : ℕ) → segment_text (base_name n) ≡ some (decimal n)
unfolding segment_text base_name trim_prefix
segment_text-base_name n =
    let front : length (decimal n ++ const_log_file_suffix) - 4 ≡ length (decimal n) =
      omega (arith, length-append (decimal n) const_log_file_suffix) in
    rw
      (
        has_suffix-append (decimal n) const_log_file_suffix,
        front,
        take-append (decimal n) const_log_file_suffix,
      )
      refl

trim_prefix-split : (p name s : Bytes) → trim_prefix p name ≡ some s → name ≡ p ++ s
unfolding trim_prefix
trim_prefix-split [] name s e = ground arith
trim_prefix-split (x ∷ p) [] s e = cc
trim_prefix-split (x ∷ p) (c ∷ name) s e = elim (Bool-cases (c == x)) [
  | inl same ↦
      let equal : c ≡ x = ground arith in
      ap₂ ◌∷◌ equal (trim_prefix-split p name s (rw (same, trim_prefix) at e))
  | inr differ ↦ absurd (ground arith)
]

has_suffix-split :
    (suffix s : Bytes)
    → has_suffix suffix s ≡ true
    → s ≡ take (length s - length suffix) s ++ suffix
unfolding has_suffix
has_suffix-split suffix s h =
    let k = length s - length suffix in
    let end : drop k s ≡ suffix = bytes_eq→eq (drop k s) suffix (ground arith) in
    subst (λ t. s ≡ take k s ++ t) end (sym (take-append-drop k s))

-- A name that no segment's file has: no text makes it, between the prefix and the suffix.
abbrev pub IsOther : Bytes → Type 0
IsOther name = (text : Bytes) → name ≢ const_log_file_prefix ++ (text ++ const_log_file_suffix)

pub segment_text-other : (name : Bytes) → IsOther name → segment_text name ≡ none
unfolding segment_text trim_prefix
segment_text-other name other = elim (Option-cases (trim_prefix const_log_file_prefix name)) [
  | inl e ↦ rw e refl
  | inr (s, e) ↦ elim (Bool-cases (has_suffix const_log_file_suffix s)) [
    | inl h ↦ absurd (
        other (take (length s - length const_log_file_suffix) s) (
          trim_prefix-split const_log_file_prefix name s e
          ∙ ap (λ t. const_log_file_prefix ++ t) (has_suffix-split const_log_file_suffix s h)))
    | inr h ↦ rw e (rw h refl)
  ]
]
