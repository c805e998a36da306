-- ===== src/Store/TailBinlog/Pages.antt =====
-- What the rounds send to a follower.
use mathlib.Core.List.{append_assoc}
use vasto.Prelude.{
  ℕ, zero, suc, ◌+◌, ◌%◌, ◌^◌, ◌<◌, ◌≤◌, ◌≡◌, ◌⊎◌, inl, inr, refl, ap, ◌∙◌, false, List, [], ◌∷◌,
  ◌++◌, length, leb, none, some, ok, arith, Bool-cases, length-append,
}
use vasto.Topology.Jump.{JumpHash}
use vasto.Pb.Requests.{LogEntry}
use vasto.Binlog.Entries.{Proto}
use vasto.Binlog.Segment.{LogSegmentFile, Disk, ReadResult, eof, failed}
use vasto.Binlog.Segment.Frames.{frames, frame, frame_length, length-frame, IsSegment}
use vasto.Binlog.Segment.Refinement.{page, read_entries-page}
use vasto.Binlog.Manager.{LogManager, read_entries}
use vasto.Binlog.Manager.LeftBehind.{read_entries_found}
use vasto.Prelude.NumMaps.{find}
use vasto.Store.TailBinlog.{
  PullUpdateRequest, Round, sends, read_limit, wanted_entries, respond, answer, after_first,
  tail_round,
}

module _ (proto : Proto) where
  -- What a read took of the entries from `pos` on, and where it goes on: after what it took, or at
  -- the beginning of the next file, which is where the file is full.
  abbrev pub Taken : ℕ → ℕ → List LogEntry → ReadResult → Type 0
  Taken max_size pos es (taken, next, err) =
      (rest : List LogEntry) × (es ≡ taken ++ rest)
      × (((err ≡ none) × (next ≡ pos + length (frames proto taken)))
          ⊎ ((err ≡ some eof) × (next ≡ 0) × (max_size ≤ pos + length (frames proto taken))))

  length-frames_cons :
      (e : LogEntry) (es : List LogEntry)
      → length (frames proto (e ∷ es)) ≡ frame_length proto e + length (frames proto es)
  length-frames_cons e es =
      omega (arith, length-append (frame proto e) (frames proto es), length-frame proto e)

  page-Taken :
      (n max_size pos : ℕ) (es : List LogEntry)
      → Taken max_size pos es (page proto max_size n pos es)
  unfolding page
  page-Taken zero max_size pos es = (es, refl, inl (refl, omega arith))
  page-Taken (suc n) max_size pos [] = ([], refl, inl (refl, omega arith))
  page-Taken (suc n) max_size pos (e ∷ es) =
      elim (Bool-cases (leb max_size (pos + frame_length proto e))) [
        | inl full ↦ rw full (es, refl, inr (refl, refl, ground (arith, length-frames_cons e [])))
        | inr room ↦
            let (rest, split, next) = page-Taken n max_size (pos + frame_length proto e) es in
            let more = (page proto max_size n (pos + frame_length proto e) es).0 in
            rw room (
              rest,
              ap (◌∷◌ e) split,
              elim next [
                | inl (fine, at) ↦ inl (fine, at ∙ omega (arith, length-frames_cons e more))
                | inr (done, start, over) ↦
                    inr (done, start, omega (arith, over, length-frames_cons e more))
              ],
            )
      ]

  -- The binlog is running and has this file for the segment, with these entries.
  pub record HasFile (segment : ℕ) (f : LogSegmentFile) (es : List LogEntry) (m : LogManager)
      (disk : Disk) : Type 0 where
    pub begun : segment ≤ m.segment
    pub running : m.has_shutdown ≡ false
    pub there : find segment m.files ≡ some f
    pub stored : IsSegment proto es f disk

  read_page :
      (segment limit : ℕ) (before : List LogEntry) (e : LogEntry) (after : List LogEntry)
      (f : LogSegmentFile) (m : LogManager) (disk : Disk)
      → HasFile segment f (before ++ (e ∷ after)) m disk
      → length (frames proto before) < f.log_file_max_size
      → read_entries proto segment (length (frames proto before)) limit m disk
        ≡ ok
            (some (page proto f.log_file_max_size limit (length (frames proto before)) (e ∷ after)))
  read_page segment limit before e after f m disk v h =
      read_entries_found proto segment (length (frames proto before)) limit m disk f v.begun
        v.running v.there
      ∙ ap ok (read_entries-page proto limit before e after f disk v.stored h)

  Taken-more :
      (max_size pos : ℕ) (es more : List LogEntry) (r : ReadResult)
      → Taken max_size pos es r
      → Taken max_size pos (es ++ more) r
  Taken-more max_size pos es more (taken, next, err) (rest, split, at) =
      (rest ++ more, ap (λ t. t ++ more) split ∙ append_assoc taken rest more, at)

  module _ (jump : JumpHash) (request : PullUpdateRequest) where
    -- A response with the wanted ones of the entries that it took from `pos` on, and where to go on.
    abbrev pub Sends : ℕ → ℕ → ℕ → List LogEntry → Round → Type 0
    Sends segment max_size pos es round =
        (taken : List LogEntry) × (rest : List LogEntry) × (next_segment : ℕ) × (next_offset : ℕ)
        × (round
            ≡ sends (record {
              next_segment = next_segment;
              next_offset = next_offset;
              entries = wanted_entries jump request taken;
              out_of_sync = false;
            }))
        × (es ≡ taken ++ rest)
        × (((next_segment ≡ segment) × (next_offset ≡ pos + length (frames proto taken)))
            ⊎ ((next_segment ≡ (segment + 1) % 2 ^ 32)
                × (next_offset ≡ 0)
                × (max_size ≤ pos + length (frames proto taken))))

    answer-Sends :
        (segment max_size pos : ℕ) (es : List LogEntry) (r : ReadResult)
        → Taken max_size pos es r
        → Sends segment max_size pos es (answer jump request segment pos r)
    unfolding answer respond
    answer-Sends segment max_size pos es (taken, next, none) (rest, split, inl (fine, at)) =
        (taken, rest, segment, next, refl, split, inl (refl, at))
    answer-Sends segment max_size pos es (taken, next, none)
          (rest, split, inr (done, start, over)) =
        absurd (ground (arith, done))
    answer-Sends segment max_size pos es (taken, next, some err) (rest, split, inl (fine, at)) =
        absurd (ground (arith, fine))
    answer-Sends segment max_size pos es (taken, next, some eof)
          (rest, split, inr (done, start, over)) =
        (taken, rest, (segment + 1) % 2 ^ 32, next, refl, split, inr (refl, start, over))
    answer-Sends segment max_size pos es (taken, next, some (failed err))
          (rest, split, inr (done, start, over)) =
        absurd (ground (arith, done))

    after_first-Sends :
        (segment max_size pos : ℕ) (es more : List LogEntry) (r r' : ReadResult)
        (later : LogManager × Disk)
        → Taken max_size pos es r
        → Taken max_size pos (es ++ more) r'
        → read_entries proto segment pos (read_limit request) later.0 later.1 ≡ ok (some r')
        → (round : Round) × (after_first jump request proto segment pos later r ≡ ok (some round))
          × Sends segment max_size pos (es ++ more) round
    unfolding after_first
    after_first-Sends segment max_size pos es more (taken, next, some err) r' later t t' second = (
      answer jump request segment pos (taken, next, some err),
      refl,
      answer-Sends segment max_size pos (es ++ more) (taken, next, some err)
          (Taken-more max_size pos es more (taken, next, some err) t),
    )
    after_first-Sends segment max_size pos es more (taken, next, none) r' later t t' second =
        elim (Bool-cases (leb (length taken) 100)) [
          | inl few ↦ (
            answer jump request segment pos r',
            rw (few, second) refl,
            answer-Sends segment max_size pos (es ++ more) r' t',
          )
          | inr many ↦ (
            answer jump request segment pos (taken, next, none),
            rw many refl,
            answer-Sends segment max_size pos (es ++ more) (taken, next, none)
                (Taken-more max_size pos es more (taken, next, none) t),
          )
        ]

    -- Where the file of the segment has the entries `before` and at least one more, and may have grown
    -- by the entries `more` when the read is repeated, a round from the offset after `before` sends
    -- the wanted ones of some of the entries that follow, with none left out before the last of them,
    -- and goes on right after these, or, only if they reach the size at which a file is full, at the
    -- beginning of the next segment. The binlog is running and the offset is below that size.
    pub tail_round-Sends :
        (segment : ℕ) (before : List LogEntry) (e : LogEntry) (after more : List LogEntry)
        (f f' : LogSegmentFile) (m m' : LogManager) (disk disk' : Disk)
        → HasFile segment f (before ++ (e ∷ after)) m disk
        → HasFile segment f' (before ++ (e ∷ (after ++ more))) m' disk'
        → f'.log_file_max_size ≡ f.log_file_max_size
        → length (frames proto before) < f.log_file_max_size
        → (round : Round) × (tail_round jump request proto segment
              (length (frames proto before))
              m
              disk
              (m', disk')
            ≡ ok (some round))
          × Sends segment f.log_file_max_size
              (length (frames proto before))
              (e ∷ (after ++ more))
              round
    unfolding tail_round
    tail_round-Sends segment before e after more f f' m m' disk disk' v v' same h =
        let pos = length (frames proto before) in
        let limit = read_limit request in
        let first = read_page segment limit before e after f m disk v h in
        let second =
          rw same at (
            read_page segment limit before e (after ++ more) f' m' disk' v'
              (omega (arith, same))) in
        let (round, known, sent) =
          after_first-Sends segment f.log_file_max_size pos (e ∷ after) more
            (page proto f.log_file_max_size limit pos (e ∷ after))
            (page proto f.log_file_max_size limit pos (e ∷ (after ++ more))) (m', disk')
            (page-Taken limit f.log_file_max_size pos (e ∷ after))
            (page-Taken limit f.log_file_max_size pos (e ∷ (after ++ more))) second in
        (round, rw first known, sent)
