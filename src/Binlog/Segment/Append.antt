-- ===== src/Binlog/Segment/Append.antt =====
-- Appending to a file of the binlog.
use mathlib.Core.List.{append_assoc, append-nil}
use vasto.Prelude.{
  ℕ, ◌+◌, ◌%◌, ◌^◌, ◌<◌, ◌≡◌, refl, sym, ap, subst, ◌∙◌, List, [], ◌∷◌, ◌++◌, Bytes, bytes_eq_refl,
  length, take, drop, All-append, none, arith, length-append, drop-drop, drop-append, drop-nil,
}
use vasto.Prelude.Maps.{assign, find-assign}
use vasto.Util.LittleEndian.{put_uint, length-put_uint}
use vasto.Pb.Requests.{LogEntry}
use vasto.Binlog.Entries.{Proto, write_at, write_with}
use vasto.Binlog.Segment.{
  LogSegmentFile, Disk, broadcast, sound, content, append_entry, append_size, append_data,
}
use vasto.Binlog.Segment.Frames.{frame, frames, frame_length, IsWritable, IsSegment, frames-append}
use vasto.Binlog.Segment.Refinement.{length-frames-snoc}

take_all : (b : Bytes) → take (length b) b ≡ b
take_all [] = refl
take_all (x ∷ b) = ap (◌∷◌ x) (take_all b)

drop_past : (b : Bytes) (n : ℕ) → drop (length b + n) b ≡ []
drop_past b n =
    sym (drop-drop (length b) n b)
    ∙ ap (drop n) (ap (drop (length b)) (sym (append-nil b)) ∙ drop-append b [])
    ∙ drop-nil n

write_at_end : (b content : Bytes) → write_at b (length content) content ≡ content ++ b
unfolding write_at
write_at_end b content =
    rw (take_all content, drop_past content (length b)) (ap (λ t. content ++ t) (append-nil b))

pub content-assign : (name b : Bytes) (disk : Disk) → content name (assign name b disk) ≡ b
content-assign name b disk = ground (arith, find-assign name name b disk, bytes_eq_refl name)

-- The size and then the data, each at the end.
appended :
    (m old : Bytes)
    → length m + 4 < 2 ^ 32
    → write_at m (length old + 4) (write_at (put_uint 4 (length m % 2 ^ 32)) (length old) old)
      ≡ old ++ (put_uint 4 (length m) ++ m)
appended m old short =
    let small : length m % 2 ^ 32 ≡ length m = omega arith in
    let ended : length (old ++ put_uint 4 (length m)) ≡ length old + 4 =
      omega (arith, length-append old (put_uint 4 (length m)), length-put_uint 4 (length m)) in
    rw (small, write_at_end (put_uint 4 (length m)) old)
      (subst
        (λ k. write_at m k (old ++ put_uint 4 (length m)) ≡ old ++ (put_uint 4 (length m) ++ m))
        ended
        (write_at_end m (old ++ put_uint 4 (length m))
          ∙ append_assoc old (put_uint 4 (length m)) m))

module _ (proto : Proto) where
  open proto use {marshal}

  -- The file after its size and its data are written at the end.
  pub append_sound :
      (es : List LogEntry) (e : LogEntry) (f : LogSegmentFile) (disk : Disk)
      → IsSegment proto es f disk
      → IsWritable proto e
      → (disk' : Disk) × (append_entry proto sound e f disk
          ≡ (broadcast (record f { offset = f.offset + frame_length proto e }), disk', none))
        × (content f.full_name disk' ≡ frames proto es ++ frame proto e)
  unfolding append_entry append_size append_data write_with
  append_sound es e f disk v w =
      let m = (marshal e).0 in
      let d1 =
        assign f.full_name
          (write_at (put_uint 4 (length m % 2 ^ 32)) f.offset (content f.full_name disk)) disk in
      let d2 = assign f.full_name (write_at m (f.offset + 4) (content f.full_name d1)) d1 in
      let ended : f.offset ≡ length (content f.full_name disk) =
        v.ended ∙ ap length (sym v.stored) in
      (
        d2,
        ground (arith, w.0, v.opened),
        content-assign f.full_name _ d1
            ∙ ap (write_at m (f.offset + 4)) (content-assign f.full_name _ disk)
            ∙ subst
                (λ k.
                  write_at m (k + 4)
                    (write_at (put_uint 4 (length m % 2 ^ 32)) k (content f.full_name disk))
                  ≡ frames proto es ++ frame proto e)
                (sym ended)
                (appended m (content f.full_name disk) w.1 ∙ ap (λ t. t ++ frame proto e) v.stored),
      )

  -- An append that the system does not refuse, of an entry that can be written, answers no error and
  -- leaves a file that has the entries it had and then the new one.
  pub append_entry-IsSegment :
      (es : List LogEntry) (e : LogEntry) (f : LogSegmentFile) (disk : Disk)
      → IsSegment proto es f disk
      → IsWritable proto e
      → ((append_entry proto sound e f disk).2 ≡ none)
        × IsSegment proto
            (es ++ (e ∷ []))
            (append_entry proto sound e f disk).0
            (append_entry proto sound e f disk).1
  append_entry-IsSegment es e f disk v w =
      let (disk', known, bytes) = append_sound es e f disk v w in
      rw known (
        refl,
        record {
          opened = v.opened;
          running = v.running;
          stored =
              bytes
              ∙ sym (
                  frames-append proto es (e ∷ [])
                  ∙ ap (λ t. frames proto es ++ t) (append-nil (frame proto e)));
          ended = omega (arith, v.ended, length-frames-snoc proto es e);
          writable = All-append (IsWritable proto) es (e ∷ []) v.writable (w, tt);
        },
      )
