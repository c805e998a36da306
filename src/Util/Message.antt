-- ===== src/Util/Message.antt =====
-- util/message_write.go and util/message_read.go: a message stands behind its length, which is an
-- int32 in little-endian bytes.
use mathlib.Core.List.{append_assoc}
use vasto.Prelude.{
  ℕ, ◌%◌, ◌^◌, ◌<◌, ◌≡◌, refl, [], ◌∷◌, ◌++◌, Bytes, length, take, drop, ltb, leb, ◌==◌,
  if◌then◌else◌, arith, length-append, take-append, drop-append,
}
use vasto.Util.LittleEndian.{put_uint, get_uint, get_uint-put_uint, length-put_uint}

-- How `ReadMessage` ends on a reader: with a message and what the reader has left, with io.EOF,
-- with another error, or in the panic of `make` for a negative length.
pub data ReadResult : Type 0 where
  message : Bytes → Bytes → ReadResult
  eof failed panicked : ReadResult

unfoldable pub write_message : Bytes → Bytes
write_message m = put_uint 4 (length m % 2 ^ 32) ++ m

-- The content of `size` bytes; a reader that ends early is an error.
unfoldable pub read_content : ℕ → Bytes → ReadResult
read_content size rest =
    if size == 0
    then message [] rest
    else if leb (2 ^ 31) size
    then panicked
    else if ltb (length rest) size
    then failed
    else message (take size rest) (drop size rest)

unfoldable pub read_message : Bytes → ReadResult
unfolding read_content
read_message input =
    if length input == 0
    then eof
    else if ltb (length input) 4
    then failed
    else read_content (get_uint (take 4 input)) (drop 4 input)

read_content-append :
    (m rest : Bytes) → length m < 2 ^ 31 → read_content (length m) (m ++ rest) ≡ message m rest
unfolding read_content
read_content-append [] rest h = refl
read_content-append (b ∷ m) rest h =
    ground (arith, length-append (b ∷ m) rest, take-append (b ∷ m) rest, drop-append (b ∷ m) rest)

-- The first four bytes are the length.
read_message-append :
    (p rest : Bytes) → length p ≡ 4 → read_message (p ++ rest) ≡ read_content (get_uint p) rest
unfolding read_message
read_message-append (a ∷ b ∷ c ∷ d ∷ []) rest h = ground arith
read_message-append (a ∷ b ∷ c ∷ d ∷ e ∷ p) rest h = absurd (omega arith)
read_message-append [] rest h = absurd (omega arith)
read_message-append (a ∷ []) rest h = absurd (omega arith)
read_message-append (a ∷ b ∷ []) rest h = absurd (omega arith)
read_message-append (a ∷ b ∷ c ∷ []) rest h = absurd (omega arith)

fits : (n : ℕ) → n < 2 ^ 31 → n % 2 ^ 32 ≡ n
fits n h = omega arith

-- A message of less than 2^31 bytes that is written to a stream is read back from it, and what
-- follows in the stream is left for the next call.
pub read_message-write_message :
    (m rest : Bytes) → length m < 2 ^ 31 → read_message (write_message m ++ rest) ≡ message m rest
unfolding write_message
read_message-write_message m rest h = rw (
  append_assoc (put_uint 4 (length m % 2 ^ 32)) m rest,
  read_message-append _ (m ++ rest) (length-put_uint 4 _),
  get_uint-put_uint 4 (length m % 2 ^ 32) (omega arith),
  fits (length m) h,
  read_content-append m rest h,
)
