-- ===== src/Binlog/Manager/LeftBehind.antt =====
-- A reader of a file that is no longer the last one.
use vasto.Prelude.{
  ==_refl, ℕ, suc, ◌+◌, ◌^◌, ◌<◌, ◌≤◌, ◌≡◌, refl, ap, ◌∙◌, true, false, [], ◌++◌, codes, Bytes, leb,
  Option, some, arith, ok,
}
use vasto.Prelude.NumMaps.{find, find-assign}
use vasto.Pb.Requests.{LogEntry}
use vasto.Binlog.Entries.{Proto}
use vasto.Binlog.Segment.{LogSegmentFile, Disk, Faults, close, failed}
use vasto.Binlog.Segment as File
use vasto.Binlog.Manager.{LogManager, last_file, is_old, append_entry, read_entries}
use vasto.Binlog.Manager.Recent.{IsManager, find-remove_old}
use vasto.Binlog.Manager.Rotation.{between, append_entry_full}

closed_file_refuses :
    (proto : Proto) (offset limit : ℕ) (f : LogSegmentFile) (disk : Disk)
    → offset < f.log_file_max_size
    → File.read_entries proto offset limit (close f) disk
      ≡ some (
        [],
        0,
        some (failed (codes "log file " ++ (f.full_name ++ codes " shutdown in progress"))),
      )
unfolding File.read_entries close
closed_file_refuses proto offset limit f disk h = ground arith

find-between :
    (f : LogSegmentFile) (m : LogManager) (disk : Disk)
    → 0 < m.log_file_count_limit
    → m.segment + m.log_file_count_limit + 1 < 2 ^ 32
    → find m.segment (between f m disk).files ≡ some (close f)
unfolding is_old
find-between f m disk some_kept h =
    find-remove_old m.log_file_count_limit (suc m.segment) m.segment _ disk (ground arith)
    ∙ rw (find-assign m.segment m.segment (close f) m.files, ==_refl m.segment) refl

pub read_entries_found :
    (proto : Proto) (segment offset limit : ℕ) (m : LogManager) (disk : Disk) (f : LogSegmentFile)
    → segment ≤ m.segment
    → m.has_shutdown ≡ false
    → find segment m.files ≡ some f
    → read_entries proto segment offset limit m disk
      ≡ ok (File.read_entries proto offset limit f disk)
unfolding read_entries
read_entries_found proto segment offset limit m disk f h running here = ground (arith, running)

-- When an append makes a full file give way to the next one, a read of that file, from an offset below
-- its full size, that comes right after this append is refused with the error of a shutdown, although
-- the file is still kept: for a running binlog that keeps at least one old file, whose segment and
-- limit add up to less than 2^32 - 1. The files must have distinct segments, none of them ahead of the
-- current one or more than the limit behind it, and the last file is that of the current
-- segment and one of them.
pub lagging_reader_refused :
    (proto : Proto) (faults : Faults) (refusal : Option Bytes) (entry : LogEntry) (m : LogManager)
    (disk : Disk) (f : LogSegmentFile) (offset limit : ℕ)
    → IsManager m
    → last_file m ≡ some f
    → m.segment + m.log_file_count_limit + 1 < 2 ^ 32
    → 0 < m.log_file_count_limit
    → m.has_shutdown ≡ false
    → leb m.log_file_max_size f.offset ≡ true
    → offset < f.log_file_max_size
    → (r : LogManager × Disk × Option Bytes) × (append_entry proto faults refusal entry m disk
        ≡ ok r)
      × (read_entries proto m.segment offset limit r.0 r.1
          ≡ ok (
              some (
                [],
                0,
                some (failed (codes "log file " ++ (f.full_name ++ codes " shutdown in progress"))),
              )))
lagging_reader_refused proto faults refusal entry m disk f offset limit v here h kept running full
      low =
    let (r, known, (v', l, c, s, o, others)) =
      append_entry_full proto faults refusal entry m disk f v here h full in
    let found = others m.segment (omega arith) ∙ find-between f m disk kept h in
    (
      r,
      known,
      read_entries_found proto m.segment offset limit r.0 r.1 (close f) (omega (arith, c))
            (s ∙ running) found
          ∙ ap ok (closed_file_refuses proto offset limit f r.1 low),
    )
