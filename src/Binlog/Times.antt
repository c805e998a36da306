-- ===== src/Binlog/Times.antt =====
-- A marshalling of log entries that have only a time, which keeps the promise of protobuf's.
use vasto.Prelude.{
  ℕ, ◌^◌, ◌≡◌, ap, subst, [], Bytes, ltb, if◌then◌else◌, codes, Option, none, some, arith,
  Bool-cases, inl, inr,
}
use vasto.Util.LittleEndian.{put_uint, get_uint, get_uint-put_uint}
use vasto.Pb.Requests.{LogEntry, PutRequest, DeleteRequest, MergeRequest}
use vasto.Binlog.Entries.{Proto}

unfoldable pub marshal_time :
    ℕ → Option PutRequest → Option DeleteRequest → Option MergeRequest → Bytes × Option Bytes
marshal_time t none none none =
    if ltb t (256 ^ 8) then (put_uint 8 t, none) else ([], some (codes "time too large"))
marshal_time t none none (some m) = ([], some (codes "merge"))
marshal_time t none (some d) m = ([], some (codes "delete"))
marshal_time t (some p) d m = ([], some (codes "put"))

abbrev pub time_entry : ℕ → LogEntry
time_entry t = record { updated_at_ns = t; put = none; delete = none; merge = none }

pub unmarshal-marshal_time :
    (t : ℕ) (p : Option PutRequest) (d : Option DeleteRequest) (m : Option MergeRequest) (b : Bytes)
    → marshal_time t p d m ≡ (b, none)
    → some (time_entry (get_uint b))
      ≡ some (record { updated_at_ns = t; put = p; delete = d; merge = m })
unfolding marshal_time
unmarshal-marshal_time t none none none b h = elim (Bool-cases (ltb t (256 ^ 8))) [
  | inl small ↦
      let bytes : put_uint 8 t ≡ b = ground (arith, small, h) in
      ap (λ s. some (time_entry s))
        (subst (λ s. get_uint s ≡ t) bytes (get_uint-put_uint 8 t (ground arith)))
  | inr large ↦ absurd (ground (arith, large, h))
]
unmarshal-marshal_time t none none (some m) b h = absurd (ground (arith, h))
unmarshal-marshal_time t none (some d) m b h = absurd (ground (arith, h))
unmarshal-marshal_time t (some p) d m b h = absurd (ground (arith, h))

-- The marshalling of entries that have only a time.
abbrev pub times : Proto
times = record {
  marshal = λ e. marshal_time e.updated_at_ns e.put e.delete e.merge;
  unmarshal = λ b. some (time_entry (get_uint b));
  unmarshal_error = λ b. codes "bad entry";
  unmarshal-marshal = λ e b h. unmarshal-marshal_time e.updated_at_ns e.put e.delete e.merge b h;
}
