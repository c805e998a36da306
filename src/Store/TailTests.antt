-- ===== src/Store/TailTests.antt =====
-- The theorem on sending a binlog at a concrete input.
use vasto.Prelude.{◌≡◌, refl, true, false, [], ◌∷◌, bytes_eq, codes, some, ok, arith, length}
use vasto.Prelude.Maps.{find}
use vasto.Prelude.NumMaps as Numbers
use vasto.Util.LittleEndian.{put_uint}
use vasto.Topology.Jump.{capped}
use vasto.Binlog.Times.{marshal_time, time_entry, times}
use vasto.Binlog.Segment.{nobody, LogSegmentFile, Disk}
use vasto.Binlog.Segment.Frames.{frames, IsSegment}
use vasto.Binlog.Manager.{LogManager}
use vasto.Store.TailBinlog.{PullUpdateRequest, Round, tail_round}
use vasto.Store.TailBinlog.Pages.{HasFile, Sends, tail_round-Sends}

abbrev segment_file : LogSegmentFile
segment_file = record {
  full_name = codes "d/binlog-3.dat";
  segment = 3;
  is_open = true;
  offset = 24;
  follower_cond = nobody;
  log_file_max_size = 100;
  has_shutdown = false;
}

abbrev disk : Disk
disk = (codes "d/binlog-3.dat", frames times (time_entry 5 ∷ time_entry 6 ∷ [])) ∷ []

segment_file-IsSegment : IsSegment times (time_entry 5 ∷ time_entry 6 ∷ []) segment_file disk
unfolding find bytes_eq marshal_time put_uint
segment_file-IsSegment = record {
  opened = refl;
  running = refl;
  stored = refl;
  ended = refl;
  writable = ((refl, omega arith), ((refl, omega arith), tt));
}

abbrev manager : LogManager
manager = record {
  dir = codes "d";
  log_file_max_size = 100;
  log_file_count_limit = 2;
  files = (3, segment_file) ∷ [];
  last_log_file = some 3;
  segment = 3;
  has_shutdown = false;
}

manager-HasFile : HasFile times 3 segment_file (time_entry 5 ∷ time_entry 6 ∷ []) manager disk
unfolding Numbers.find
manager-HasFile = record {
  begun = omega arith;
  running = refl;
  there = refl;
  stored = segment_file-IsSegment;
}

abbrev request : PullUpdateRequest
request = record {
  shard_id = 1;
  segment = 3;
  offset = 12;
  limit = 10;
  target_shard_id = 0;
  target_cluster_size = 0;
}

tail_round-Sends_example :
    (round : Round) × (tail_round capped request times 3
        (length (frames times (time_entry 5 ∷ [])))
        manager
        disk
        (manager, disk)
      ≡ ok (some round))
    × Sends times capped request 3 100
        (length (frames times (time_entry 5 ∷ [])))
        (time_entry 6 ∷ [])
        round
unfolding marshal_time put_uint
tail_round-Sends_example =
    tail_round-Sends times capped request 3 (time_entry 5 ∷ []) (time_entry 6) [] [] segment_file
      segment_file manager manager disk disk manager-HasFile manager-HasFile refl (omega arith)
