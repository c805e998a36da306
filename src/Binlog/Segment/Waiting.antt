-- ===== src/Binlog/Segment/Waiting.antt =====
-- The readers that wait in readEntries for the next entry.
use mathlib.Core.List.{append_assoc, append-nil}
use vasto.Prelude.{
  ◌≤◌, ◌<◌, ◌≡◌, refl, ◌∙◌, false, List, [], ◌∷◌, ◌++◌, map, All, Option, none, some, arith,
}
use vasto.Binlog.Entries.{Proto}
use vasto.Binlog.Segment.{LogSegmentFile, Reader, Disk, ReadResult, read_entries}

-- `f.followerCond.Wait()`
unfoldable pub wait : Reader → LogSegmentFile → LogSegmentFile
wait r f = record f {
  follower_cond = record f.follower_cond { waiting = f.follower_cond.waiting ++ (r ∷ []) };
}

unfoldable pub with_answer :
    Reader → Option ReadResult → List (Reader × ReadResult) → List (Reader × ReadResult)
with_answer r none answers = answers
with_answer r (some result) answers = (r, result) ∷ answers

-- A reader that the loop's condition holds back.
abbrev pub IsBehind : LogSegmentFile → Reader → Type 0
IsBehind f r = (f.offset ≤ r.offset) × (r.offset < f.log_file_max_size)

module _ (proto : Proto) where
  -- A reader that runs, for the first time or once it was woken: it tests the condition of the loop,
  -- and waits or reads.
  unfoldable pub run_reader : Reader → LogSegmentFile → Disk → LogSegmentFile × Option ReadResult
  run_reader r f disk = elim (read_entries proto r.offset r.limit f disk) [
    | none ↦ (wait r f, none)
    | some result ↦ (f, some result)
  ]

  -- Readers that run one after the other, and the results of those that do not wait.
  unfoldable pub run_readers :
      List Reader → LogSegmentFile → Disk → LogSegmentFile × List (Reader × ReadResult)
  run_readers [] f disk = (f, [])
  run_readers (r ∷ rs) f disk =
      let (f', answer) = run_reader r f disk in
      let (f'', answers) = run_readers rs f' disk in (f'', with_answer r answer answers)

  -- The woken readers run.
  unfoldable pub resume : LogSegmentFile → Disk → LogSegmentFile × List (Reader × ReadResult)
  resume f disk =
      run_readers f.follower_cond.woken
        (record f { follower_cond = record f.follower_cond { woken = [] } }) disk

  read_waits :
      (r : Reader) (f : LogSegmentFile) (disk : Disk)
      → f.has_shutdown ≡ false
      → IsBehind f r
      → read_entries proto r.offset r.limit f disk ≡ none
  unfolding read_entries
  read_waits r f disk running h = ground (arith, running)

  run_reader-wait :
      (r : Reader) (f : LogSegmentFile) (disk : Disk)
      → read_entries proto r.offset r.limit f disk ≡ none
      → run_reader r f disk ≡ (wait r f, none)
  unfolding run_reader
  run_reader-wait r f disk e = rw (e, run_reader) refl

  run_reader-read :
      (r : Reader) (f : LogSegmentFile) (disk : Disk) (result : ReadResult)
      → read_entries proto r.offset r.limit f disk ≡ some result
      → run_reader r f disk ≡ (f, some result)
  unfolding run_reader
  run_reader-read r f disk result e = rw (e, run_reader) refl

  pub run_readers-wait :
      (rs : List Reader) (f : LogSegmentFile) (disk : Disk)
      → f.has_shutdown ≡ false
      → All (IsBehind f) rs
      → run_readers rs f disk ≡ (
        record f {
          follower_cond = record f.follower_cond { waiting = f.follower_cond.waiting ++ rs };
        },
        [],
      )
  unfolding run_readers wait with_answer
  run_readers-wait [] f disk running h = rw append-nil refl
  run_readers-wait (r ∷ rs) f disk running h =
      rw (run_reader-wait r f disk (read_waits r f disk running h.0)) (
        run_readers-wait rs (wait r f) disk running h.1
        ∙ rw (append_assoc f.follower_cond.waiting (r ∷ []) rs) refl)

  pub run_readers-read :
      (g : Reader → ReadResult) (rs : List Reader) (f : LogSegmentFile) (disk : Disk)
      → All (λ r. read_entries proto r.offset r.limit f disk ≡ some (g r)) rs
      → run_readers rs f disk ≡ (f, map (λ r. (r, g r)) rs)
  unfolding run_readers with_answer
  run_readers-read g [] f disk h = refl
  run_readers-read g (r ∷ rs) f disk h =
      rw (run_reader-read r f disk (g r) h.0) (rw (run_readers-read g rs f disk h.1) refl)
