-- ===== src/Binlog/Segment/Failure.antt =====
-- What a failed append leaves.
use vasto.Prelude.{
  inl, inr, ℕ, zero, suc, ◌+◌, ◌%◌, ◌^◌, ◌≤◌, ◌≡◌, refl, sym, ap, subst, ◌∙◌, [], ◌∷◌, ◌++◌, Bytes,
  length, take, drop, Option, none, some, arith, length-append, length-take, Bool-cases,
  Option-cases,
}
use vasto.Util.LittleEndian.{put_uint}
use vasto.Pb.Requests.{LogEntry}
use vasto.Binlog.Entries.{Proto, Fault, write_at, write_with}
use vasto.Binlog.Segment.{
  LogSegmentFile, Disk, Faults, content, append_entry, append_size, append_data,
}
use vasto.Binlog.Segment.Append.{content-assign}

take_under :
    (k offset : ℕ) (c rest : Bytes)
    → k ≤ offset
    → k ≤ length c
    → take k (take offset c ++ rest) ≡ take k c
take_under zero offset c rest h l = refl
take_under (suc k) zero c rest h l = absurd (omega arith)
take_under (suc k) (suc offset) [] rest h l = absurd (omega arith)
take_under (suc k) (suc offset) (x ∷ c) rest h l =
    ap (◌∷◌ x) (take_under k offset c rest (omega arith) (omega arith))

-- The first `k` bytes are there, and are as they were.
abbrev Keeps : ℕ → Bytes → Bytes → Type 0
Keeps k old new = (take k new ≡ take k old) × (k ≤ length new)

write_at-Keeps :
    (k offset : ℕ) (b old : Bytes)
    → k ≤ offset
    → k ≤ length old
    → Keeps k old (write_at b offset old)
unfolding write_at
write_at-Keeps k offset b old h l = (
  take_under k offset old (b ++ drop (offset + length b) old) h l,
  omega (
    arith,
    length-append (take offset old) (b ++ drop (offset + length b) old),
    length-take offset old,
  ),
)

write_with-Keeps :
    (fault : Option Fault) (k offset : ℕ) (b old : Bytes)
    → k ≤ offset
    → k ≤ length old
    → Keeps k old (write_with fault b offset old).0
unfolding write_with
write_with-Keeps none k offset b old h l = write_at-Keeps k offset b old h l
write_with-Keeps (some f) k offset b old h l = write_at-Keeps k offset (take f.written b) old h l

append_size-Keeps :
    (fault : Option Fault) (m : Bytes) (f : LogSegmentFile) (disk : Disk)
    → f.offset ≤ length (content f.full_name disk)
    → Keeps f.offset (content f.full_name disk) (content f.full_name (append_size fault m f disk).0)
unfolding append_size
append_size-Keeps fault m f disk h = elim (Bool-cases f.is_open) [
  | inl opened ↦
      let kept =
        write_with-Keeps fault f.offset f.offset (put_uint 4 (length m % 2 ^ 32))
          (content f.full_name disk) (omega arith) h in
      rw (opened, append_size)
        (subst (Keeps f.offset (content f.full_name disk)) (sym (content-assign f.full_name _ disk))
          kept)
  | inr closed ↦ rw (closed, append_size) (refl, h)
]

append_data-Keeps :
    (fault : Option Fault) (m err : Bytes) (f : LogSegmentFile) (first : Disk × Option Bytes)
    → f.offset ≤ length (content f.full_name first.0)
    → (append_data fault m f first).2 ≡ some err
    → ((append_data fault m f first).0 ≡ f)
      × Keeps f.offset
          (content f.full_name first.0)
          (content f.full_name (append_data fault m f first).1)
unfolding append_data write_with
append_data-Keeps fault m err f (disk, some refusal) h e = (refl, (refl, h))
append_data-Keeps none m err f (disk, none) h e = absurd (ground arith)
append_data-Keeps (some fault) m err f (disk, none) h e = (
  refl,
  subst (Keeps f.offset (content f.full_name disk)) (sym (content-assign f.full_name _ disk)) (
      write_at-Keeps f.offset (f.offset + 4) (take fault.written m) (content f.full_name disk)
        (omega arith) h),
)

-- An append that answers an error, whether of the marshalling, of a closed file or of a write of
-- which the system did any part, leaves the file object as it was and the bytes below its offset, so
-- that the entries that were read are read again and the next append starts at the same place. The
-- offset must not be past the end of the file.
pub append_entry_failed :
    (proto : Proto) (faults : Faults) (e : LogEntry) (f : LogSegmentFile) (disk : Disk)
    (err : Bytes)
    → f.offset ≤ length (content f.full_name disk)
    → (append_entry proto faults e f disk).2 ≡ some err
    → ((append_entry proto faults e f disk).0 ≡ f)
      × (take f.offset (content f.full_name (append_entry proto faults e f disk).1)
          ≡ take f.offset (content f.full_name disk))
unfolding append_entry
append_entry_failed proto faults e f disk err h failed = elim (Option-cases (proto.marshal e).1) [
  | inr (refusal, known) ↦ rw (known, append_entry) (refl, refl)
  | inl known ↦
      let size = append_size-Keeps faults.size_fault (proto.marshal e).0 f disk h in
      let shown = rw (known, append_entry) at failed in
      let rest =
        append_data-Keeps faults.data_fault (proto.marshal e).0 err f
          (append_size faults.size_fault (proto.marshal e).0 f disk) size.1 shown in
      rw (known, append_entry) (rest.0, rest.1.0 ∙ size.0)
]
