-- ===== src/Binlog/Segment/Refinement.antt =====
-- The file of bytes against the list of its entries.
use mathlib.Core.List.{append_assoc, append-nil}
use vasto.Prelude.{
  codes, ℕ, zero, suc, ◌+◌, ◌<◌, ◌≡◌, refl, sym, ap, subst, ◌∙◌, true, false, List, [], ◌∷◌, ◌++◌,
  length, ltb, leb, ◌==◌, if◌then◌else◌, All, none, some, arith, length-append,
}
use vasto.Pb.Requests.{LogEntry}
use vasto.Binlog.Entries.{Proto}
use vasto.Binlog.Segment.{
  LogSegmentFile, Disk, eof, refused, ReadResult, read_one_entry, read_loop, read_entries,
}
use vasto.Binlog.Segment.Frames.{
  frame, frames, frame_length, IsWritable, IsSegment, frames-append, length-frame,
  read_one_entry_lem,
}

module _ (proto : Proto) where
  -- The page of at most `limit` entries that starts at an entry: it ends early, with io.EOF, after
  -- the entry that reaches the size at which the next file is begun.
  unfoldable pub page : ℕ → ℕ → ℕ → List LogEntry → ReadResult
  page max_size zero pos es = ([], pos, none)
  page max_size (suc n) pos [] = ([], pos, none)
  page max_size (suc n) pos (e ∷ es) =
      if leb max_size (pos + frame_length proto e)
      then (e ∷ [], 0, some eof)
      else (let (more, last, err) = page max_size n (pos + frame_length proto e) es in
          (e ∷ more, last, err))

  pub length-frames-snoc :
      (es : List LogEntry) (e : LogEntry)
      → length (frames proto (es ++ (e ∷ []))) ≡ length (frames proto es) + frame_length proto e
  length-frames-snoc es e =
      ap length (frames-append proto es (e ∷ []))
      ∙ omega (
        arith,
        length-append (frames proto es) (frame proto e ++ []),
        length-append (frame proto e) [],
        length-frame proto e,
      )

  read_past_end :
      (es : List LogEntry) (f : LogSegmentFile) (disk : Disk)
      → IsSegment proto es f disk
      → read_one_entry proto (length (frames proto es)) f disk
        ≡ refused (codes "read size info: EOF")
  unfolding read_one_entry
  read_past_end es f disk v =
      let short : ltb (length (frames proto es)) (length (frames proto es) + 4) ≡ true =
        ground arith in
      rw (v.opened, v.stored, short) refl

  read_loop-page :
      (n i : ℕ) (before after : List LogEntry) (f : LogSegmentFile) (disk : Disk)
      → IsSegment proto (before ++ after) f disk
      → All (IsWritable proto) after
      → 0 < i + length after
      → read_loop proto n i (length (frames proto before)) f disk
        ≡ page f.log_file_max_size n (length (frames proto before)) after
  unfolding read_loop page
  read_loop-page zero i before after f disk v w h = refl
  read_loop-page (suc n) i before [] f disk v w h =
      let here = subst (λ es. IsSegment proto es f disk) (append-nil before) v in
      let known = read_past_end before f disk here in
      let later : (i == 0) ≡ false = ground arith in rw (known, read_loop) (rw later refl)
  read_loop-page (suc n) i before (e ∷ after) f disk v w h =
      let known = read_one_entry_lem proto before after e f disk v w.0 in
      let rest =
        read_loop-page n (suc i) (before ++ (e ∷ [])) after f disk
          (subst (λ es. IsSegment proto es f disk) (sym (append_assoc before (e ∷ []) after)) v) w.1
          (omega arith) in
      let next = rw (length-frames-snoc before e) at rest in rw (known, read_loop) (rw next refl)

  All-append_right :
      (xs ys : List LogEntry) → All (IsWritable proto) (xs ++ ys) → All (IsWritable proto) ys
  All-append_right [] ys h = h
  All-append_right (x ∷ xs) ys h = All-append_right xs ys h.1

  -- Where a file has the entries `before` and then at least one more, a read from the offset after
  -- `before`, if that is below the size at which the next file is begun, answers the page of the
  -- entries that follow: the bytes of the file implement the list of its entries.
  pub read_entries-page :
      (limit : ℕ) (before : List LogEntry) (e : LogEntry) (after : List LogEntry)
      (f : LogSegmentFile) (disk : Disk)
      → IsSegment proto (before ++ (e ∷ after)) f disk
      → length (frames proto before) < f.log_file_max_size
      → read_entries proto (length (frames proto before)) limit f disk
        ≡ some (page f.log_file_max_size limit (length (frames proto before)) (e ∷ after))
  unfolding read_entries
  read_entries-page limit before e after f disk v h =
      let more : leb f.log_file_max_size (length (frames proto before)) ≡ false = ground arith in
      let written : leb f.offset (length (frames proto before)) ≡ false = ground (
        arith,
        v.ended,
        ap length (frames-append proto before (e ∷ after)),
        length-append (frames proto before) (frame proto e ++ frames proto after),
        length-append (frame proto e) (frames proto after),
        length-frame proto e,
      ) in
      ground (
        arith,
        read_loop-page limit 0 before (e ∷ after) f disk v
            (All-append_right before (e ∷ after) v.writable) (omega arith),
      )
