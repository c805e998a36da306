-- ===== src/Binlog/Tests.antt =====
-- The binlog's theorems at concrete inputs.
use vasto.Prelude.{
  ◌≤◌, ℕ, ◌≢◌, ap, ◌≡◌, refl, true, false, [], ◌∷◌, map, Bytes, bytes_eq, length, List, take, codes,
  Option, none, some, arith, ok,
}
use vasto.Prelude.Maps.{find}
use vasto.Prelude.NumMaps as Numbers
use vasto.Util.LittleEndian.{put_uint}
use vasto.Pb.Requests.{LogEntry}
use vasto.Binlog.Entries.{write_with, write_at}
use vasto.Binlog.Times.{marshal_time, time_entry, times}
use vasto.Binlog.Segment.{
  nobody, Reader, close, LogSegmentFile, Disk, Faults, sound, content, failed, read_entries,
  append_entry, append_size, append_data,
}
use vasto.Binlog.Segment.Frames.{frames, IsSegment}
use vasto.Binlog.Segment.Refinement.{page, read_entries-page}
use vasto.Binlog.Segment.Append.{append_entry-IsSegment}
use vasto.Binlog.Segment.Waiting.{run_readers, resume}
use vasto.Binlog.Segment.Woken.{just, shut_down, waiting_readers_served, waiting_readers_refused}
use vasto.Binlog.Segment.Failure.{append_entry_failed}
use vasto.Binlog.Manager.{LogManager, new_log_manager, base_name, load_files_from_disk, last_file}
use vasto.Binlog.Manager as Manager
use vasto.Binlog.Manager.Names.{IsOther}
use vasto.Binlog.Manager.Leaves.{last_open}
use vasto.Binlog.Manager.Recent.{IsManager}
use vasto.Binlog.Manager.Rotation.{append_entry-IsManager}
use vasto.Binlog.Manager.LeftBehind.{lagging_reader_refused}
use vasto.Binlog.Manager.Loading.{
  HasLoaded, Listing, nothing, segment_file as listed_segment, other_file,
  load_files_from_disk-base_name,
}

abbrev stored_entry : LogEntry
stored_entry = time_entry 5

abbrev segment_file : LogSegmentFile
segment_file = record {
  full_name = codes "d/binlog-3.dat";
  segment = 3;
  is_open = true;
  offset = 12;
  follower_cond = nobody;
  log_file_max_size = 100;
  has_shutdown = false;
}

abbrev disk : Disk
disk = (codes "d/binlog-3.dat", frames times (stored_entry ∷ [])) ∷ []

segment_file-IsSegment : IsSegment times (stored_entry ∷ []) segment_file disk
unfolding find bytes_eq marshal_time put_uint
segment_file-IsSegment = record {
  opened = refl;
  running = refl;
  stored = refl;
  ended = refl;
  writable = ((refl, omega arith), tt);
}

read_entries-page_example :
    read_entries times 0 7 segment_file disk ≡ some (page times 100 7 0 (stored_entry ∷ []))
read_entries-page_example =
    read_entries-page times 7 [] stored_entry [] segment_file disk segment_file-IsSegment
      (omega arith)

append_entry-IsSegment_example :
    ((append_entry times sound (time_entry 9) segment_file disk).2 ≡ none)
    × IsSegment times
        (stored_entry ∷ time_entry 9 ∷ [])
        (append_entry times sound (time_entry 9) segment_file disk).0
        (append_entry times sound (time_entry 9) segment_file disk).1
unfolding marshal_time put_uint
append_entry-IsSegment_example =
    append_entry-IsSegment times (stored_entry ∷ []) (time_entry 9) segment_file disk
      segment_file-IsSegment (refl, omega arith)

-- Two readers with different limits.
abbrev readers : List Reader
readers = record { offset = 12; limit = 8 } ∷ record { offset = 12; limit = 1 } ∷ []

waiting_readers_served_example :
    ((run_readers times readers segment_file disk).1 ≡ [])
    × (f' : LogSegmentFile) × (disk' : Disk) × (append_entry times sound
          (time_entry 9)
          (run_readers times readers segment_file disk).0
          disk
        ≡ (f', disk', none))
    × (resume times f' disk' ≡ (
      record f' { follower_cond = nobody },
      map (λ r. (r, just times (time_entry 9) segment_file)) readers,
    ))
unfolding marshal_time put_uint
waiting_readers_served_example =
    waiting_readers_served times readers (stored_entry ∷ []) (time_entry 9) segment_file disk
      segment_file-IsSegment (refl, omega arith) (omega arith) refl (omega arith)

waiting_readers_refused_example :
    ((run_readers times readers segment_file disk).1 ≡ [])
    × (resume times (close (run_readers times readers segment_file disk).0) disk ≡ (
      record (close segment_file) { follower_cond = nobody },
      map (λ r. (r, shut_down segment_file)) readers,
    ))
waiting_readers_refused_example =
    waiting_readers_refused times readers segment_file disk refl refl (omega arith)

-- The disk is full after two bytes of the data.
abbrev disk_full : Faults
disk_full = record {
  size_fault = none;
  data_fault = some (record { written = 2; error = codes "no space left on device" });
}

append_entry_failed_example :
    ((append_entry times disk_full (time_entry 9) segment_file disk).0 ≡ segment_file)
    × (take 12 (
          content
            (codes "d/binlog-3.dat")
            (append_entry times disk_full (time_entry 9) segment_file disk).1)
        ≡ take 12 (content (codes "d/binlog-3.dat") disk))
unfolding append_entry append_size append_data write_with write_at marshal_time put_uint find
    bytes_eq
append_entry_failed_example =
    append_entry_failed times disk_full (time_entry 9) segment_file disk
      (codes "appendEntry write log entry data: no space left on device") (omega arith) refl

abbrev manager : LogManager
manager = record {
  dir = codes "d";
  log_file_max_size = 12;
  log_file_count_limit = 2;
  files = (3, record segment_file { log_file_max_size = 12 }) ∷ [];
  last_log_file = some 3;
  segment = 3;
  has_shutdown = false;
}

manager-IsManager : IsManager manager
unfolding Numbers.find
manager-IsManager = record {
  files_recent = ((tt, tt), ((omega arith, omega arith), tt));
  last_current = refl;
  last_there = (record segment_file { log_file_max_size = 12 }, refl);
}

append_entry-IsManager_example :
    (r : LogManager × Disk × Option Bytes) × (Manager.append_entry times sound none
        (time_entry 9)
        manager
        disk
      ≡ ok r)
    × IsManager r.0
    × (r.0.segment ≡ 4)
    × (last_open r.0 ≡ true)
    × (length r.0.files ≤ 3)
unfolding Numbers.find last_file
append_entry-IsManager_example =
    append_entry-IsManager times sound none (time_entry 9) manager disk
      (record segment_file { log_file_max_size = 12 }) manager-IsManager refl (omega arith)

lagging_reader_refused_example :
    (r : LogManager × Disk × Option Bytes) × (Manager.append_entry times sound none
        (time_entry 9)
        manager
        disk
      ≡ ok r)
    × (Manager.read_entries times 3 0 8 r.0 r.1
        ≡ ok (some ([], 0, some (failed (codes "log file d/binlog-3.dat shutdown in progress")))))
unfolding Numbers.find last_file
lagging_reader_refused_example =
    lagging_reader_refused times sound none (time_entry 9) manager disk
      (record segment_file { log_file_max_size = 12 }) 0 8 manager-IsManager refl (omega arith)
      (omega arith) refl refl (omega arith)

abbrev first_byte : Bytes → ℕ
first_byte [] = 0
first_byte (c ∷ rest) = c

begins_otherwise : (c : ℕ) (rest : Bytes) → c ≢ 98 → IsOther (c ∷ rest)
begins_otherwise c rest h text e = h (ap first_byte e)

-- RocksDB has its files in the same directory.
listing :
    Listing
      (codes "000004.log"
        ∷ codes "CURRENT"
        ∷ base_name 10
        ∷ base_name 12
        ∷ base_name 9
        ∷ codes "lost+found"
        ∷ [])
      (10 ∷ 12 ∷ 9 ∷ [])
listing = other_file (codes "000004.log") (begins_otherwise _ _ (omega arith)) (
    other_file (codes "CURRENT") (begins_otherwise _ _ (omega arith)) (
      listed_segment 10 (omega arith) (
        listed_segment 12 (omega arith) (
          listed_segment 9 (omega arith)
            (other_file (codes "lost+found") (begins_otherwise _ _ (omega arith)) nothing)))))

load_files_from_disk-base_name_example :
    HasLoaded (10 ∷ 12 ∷ 9 ∷ []) (new_log_manager (codes "d") 100 5) (
      load_files_from_disk
        (some (
          codes "000004.log"
          ∷ codes "CURRENT"
          ∷ base_name 10
          ∷ base_name 12
          ∷ base_name 9
          ∷ codes "lost+found"
          ∷ []))
        (new_log_manager (codes "d") 100 5))
unfolding new_log_manager
load_files_from_disk-base_name_example =
    load_files_from_disk-base_name listing (new_log_manager (codes "d") 100 5) refl refl
