-- ===== src/Binlog/Segment/Woken.antt =====
-- What the readers that waited have when they are woken.
use vasto.Prelude.{
  ℕ, zero, suc, ◌+◌, ◌<◌, ◌≡◌, refl, sym, ap, ◌∙◌, false, List, [], ◌∷◌, ◌++◌, map, codes, length,
  leb, if◌then◌else◌, All, none, some, arith,
}
use vasto.Pb.Requests.{LogEntry}
use vasto.Binlog.Entries.{Proto}
use vasto.Binlog.Segment.{
  LogSegmentFile, Reader, nobody, close, failed, broadcast, Disk, sound, eof, ReadResult,
  read_entries, append_entry,
}
use vasto.Binlog.Segment.Frames.{frames, frame_length, IsWritable, IsSegment}
use vasto.Binlog.Segment.Refinement.{page, read_entries-page}
use vasto.Binlog.Segment.Append.{append_sound, append_entry-IsSegment}
use vasto.Binlog.Segment.Waiting.{run_readers, resume, run_readers-wait, run_readers-read, IsBehind}

-- The answer of a file that was closed.
abbrev pub shut_down : LogSegmentFile → ReadResult
shut_down f =
    ([], 0, some (failed (codes "log file " ++ (f.full_name ++ codes " shutdown in progress"))))

module _ (proto : Proto) where
  page_nil : (limit max_size pos : ℕ) → page proto max_size limit pos [] ≡ ([], pos, none)
  unfolding page
  page_nil zero max_size pos = refl
  page_nil (suc limit) max_size pos = refl

  -- What a reader at the end of the file is to get when this entry comes.
  abbrev pub just : LogEntry → LogSegmentFile → ReadResult
  just e f =
      if leb f.log_file_max_size (f.offset + frame_length proto e)
      then (e ∷ [], 0, some eof)
      else (e ∷ [], f.offset + frame_length proto e, none)

  page_one :
      (limit : ℕ) (e : LogEntry) (f : LogSegmentFile)
      → 0 < limit
      → page proto f.log_file_max_size limit f.offset (e ∷ []) ≡ just e f
  unfolding page
  page_one zero e f h = absurd (omega arith)
  page_one (suc limit) e f h =
      rw (page_nil limit f.log_file_max_size (f.offset + frame_length proto e)) refl

  reads_next :
      (es : List LogEntry) (e : LogEntry) (f f' : LogSegmentFile) (disk : Disk) (r : Reader)
      → IsSegment proto (es ++ (e ∷ [])) f' disk
      → f'.log_file_max_size ≡ f.log_file_max_size
      → length (frames proto es) ≡ f.offset
      → f.offset < f.log_file_max_size
      → (r.offset ≡ f.offset) × (0 < r.limit)
      → read_entries proto r.offset r.limit f' disk ≡ some (just e f)
  reads_next es e f f' disk r v size end room (here, some_wanted) =
      let read =
        read_entries-page proto r.limit es e [] f' disk v (omega (arith, size, end, room)) in
      let known = rw end at read in
      rw here (
        known
        ∙ ap (λ m. some (page proto m r.limit f.offset (e ∷ []))) size
        ∙ ap some (page_one r.limit e f some_wanted))

  All-map :
      {P Q : Reader → Type 0} (step : (r : Reader) → P r → Q r) (rs : List Reader)
      → All P rs
      → All Q rs
  All-map step [] h = tt
  All-map step (r ∷ rs) h = (step r h.0, All-map step rs h.1)

  -- Readers that call at the end of a file, which is below the size at which the next file is begun,
  -- all wait; the next append of an entry that can be written, which the system does not refuse,
  -- wakes every one of them, and when they run they all have this entry, alone, and with io.EOF if the
  -- entry reaches that size; none waits any more. No reader waits before, and none asks for zero
  -- entries. The file
  -- must be open and running, and hold the frames of its entries and no more.
  pub waiting_readers_served :
      (rs : List Reader) (es : List LogEntry) (e : LogEntry) (f : LogSegmentFile) (disk : Disk)
      → IsSegment proto es f disk
      → IsWritable proto e
      → f.offset < f.log_file_max_size
      → f.follower_cond ≡ nobody
      → All (λ r. (r.offset ≡ f.offset) × (0 < r.limit)) rs
      → ((run_readers proto rs f disk).1 ≡ [])
        × (f' : LogSegmentFile) × (disk' : Disk) × (append_entry proto sound e
              (run_readers proto rs f disk).0
              disk
            ≡ (f', disk', none))
        × (resume proto f' disk'
            ≡ (record f' { follower_cond = nobody }, map (λ r. (r, just e f)) rs))
  unfolding resume
  waiting_readers_served rs es e f disk v w room empty h =
      let waiting : LogSegmentFile = record f {
        follower_cond = record { waiting = rs; woken = [] };
      } in
      let parked : run_readers proto rs f disk ≡ (waiting, []) =
        run_readers-wait proto rs f disk v.running
          (All-map (λ r q. (omega (arith, q.0), omega (arith, q.0, room))) rs h)
        ∙ ap (λ c. (record f { follower_cond = record c { waiting = c.waiting ++ rs } }, []))
            empty in
      let v' : IsSegment proto es waiting disk = record {
        opened = v.opened;
        running = v.running;
        stored = v.stored;
        ended = v.ended;
        writable = v.writable;
      } in
      let (disk', known, bytes) = append_sound proto es e waiting disk v' w in
      let grown = rw known at (append_entry-IsSegment proto es e waiting disk v' w).1 in
      let f' : LogSegmentFile =
        broadcast (record waiting { offset = f.offset + frame_length proto e }) in
      let quiet : LogSegmentFile = record f' { follower_cond = nobody } in
      let v2 : IsSegment proto (es ++ (e ∷ [])) quiet disk' = record {
        opened = grown.opened;
        running = grown.running;
        stored = grown.stored;
        ended = grown.ended;
        writable = grown.writable;
      } in
      rw parked (
        refl,
        f',
        disk',
        known,
        run_readers-read proto (λ r. just e f) rs quiet disk'
            (All-map (λ r q. reads_next es e f quiet disk' r v2 refl (sym v.ended) room q) rs h),
      )

  -- Readers that wait in a file that is closed are all woken, and when they run they all have the error
  -- of a shutdown; none waits any more. These are the readers that called at or after the end of a
  -- running file, below the size at which the next file is begun, where no reader waits before.
  pub waiting_readers_refused :
      (rs : List Reader) (f : LogSegmentFile) (disk : Disk)
      → f.has_shutdown ≡ false
      → f.follower_cond ≡ nobody
      → All (IsBehind f) rs
      → ((run_readers proto rs f disk).1 ≡ [])
        × (resume proto (close (run_readers proto rs f disk).0) disk
            ≡ (record (close f) { follower_cond = nobody }, map (λ r. (r, shut_down f)) rs))
  unfolding resume close read_entries
  waiting_readers_refused rs f disk running empty h =
      let waiting : LogSegmentFile = record f {
        follower_cond = record { waiting = rs; woken = [] };
      } in
      let parked : run_readers proto rs f disk ≡ (waiting, []) =
        run_readers-wait proto rs f disk running h
        ∙ ap (λ c. (record f { follower_cond = record c { waiting = c.waiting ++ rs } }, []))
            empty in
      let quiet : LogSegmentFile = record (close f) { follower_cond = nobody } in
      rw parked (
        refl,
        run_readers-read proto (λ r. shut_down f) rs quiet disk
            (All-map (λ r q. ground (arith, q.1)) rs h),
      )
