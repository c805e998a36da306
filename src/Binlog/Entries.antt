-- ===== src/Binlog/Entries.antt =====
-- What the binlog takes from outside: the bytes of a log entry, which are those of protobuf, and what
-- the operating system answers to a write.
use vasto.Prelude.{ℕ, ◌≡◌, Bytes, ◌++◌, Option, none, some, take, drop, length, ◌+◌}
use vasto.Pb.Requests.{LogEntry}

-- proto.Marshal and proto.Unmarshal. What was marshalled without an error is unmarshalled again.
pub record Proto : Type 0 where
  pub marshal : LogEntry → Bytes × Option Bytes
  pub unmarshal : Bytes → Option LogEntry
  pub unmarshal_error : Bytes → Bytes
  pub unmarshal-marshal : (e : LogEntry) (b : Bytes) → marshal e ≡ (b, none) → unmarshal b ≡ some e

-- A write that the system refuses part of: how many bytes it has written, and the error.
pub record Fault : Type 0 where
  pub written : ℕ
  pub error : Bytes

-- The bytes of a file after a write at an offset that is not past its end.
unfoldable pub write_at : Bytes → ℕ → Bytes → Bytes
write_at b offset content = take offset content ++ (b ++ drop (offset + length b) content)

-- `WriteAt` with the fault that the system has, if any.
unfoldable pub write_with : Option Fault → Bytes → ℕ → Bytes → Bytes × Option Bytes
unfolding write_at
write_with none b offset content = (write_at b offset content, none)
write_with (some f) b offset content = (write_at (take f.written b) offset content, some f.error)
