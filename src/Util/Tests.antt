-- ===== src/Util/Tests.antt =====
-- The theorems of util at concrete inputs.
use vasto.Prelude.{◌≡◌, ◌++◌, refl, ◌∷◌, codes, arith}
use vasto.Util.LittleEndian.{put_uint}
use vasto.Util.Message.{write_message, read_message, message, read_message-write_message}

write_message_run : write_message (codes "ab") ≡ 2 ∷ 0 ∷ 0 ∷ 0 ∷ codes "ab"
unfolding write_message put_uint
write_message_run = refl

read_message-write_message_example :
    read_message (write_message (codes "ab") ++ codes "next") ≡ message (codes "ab") (codes "next")
read_message-write_message_example =
    read_message-write_message (codes "ab") (codes "next") (omega arith)
