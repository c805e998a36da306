-- ===== src/Binlog/Segment.antt =====
-- storage/binlog/log_segment_file.go: one file of the binlog. `disk` is the directory of the files, by
-- their names. A read that must wait on the condition has no result here; Waiting has the readers
-- that wait.
pub mod Frames
pub mod Refinement
pub mod Append
pub mod Failure
pub mod Waiting
pub mod Woken
use vasto.Prelude.{
  ℕ, zero, suc, ◌+◌, ◌%◌, ◌^◌, Bool, true, false, not, ◌&&◌, List, [], ◌∷◌, ◌++◌, Bytes, length,
  take, drop, ltb, leb, ◌==◌, if◌then◌else◌, codes, Option, none, some,
}
use vasto.Prelude.Maps.{find, assign, erase}
use vasto.Util.LittleEndian.{put_uint, get_uint}
use vasto.Pb.Identifier.{decimal}
use vasto.Pb.Requests.{LogEntry}
use vasto.Binlog.Entries.{Proto, Fault, write_with}

-- A call of readEntries that is under way.
pub record Reader : Type 0 where
  pub offset : ℕ
  pub limit : ℕ

-- A sync.Cond: the readers that wait on it, and those that were woken and have not run since.
pub record FollowerCond : Type 0 where
  pub waiting : List Reader
  pub woken : List Reader

abbrev pub nobody : FollowerCond
nobody = record { waiting = []; woken = [] }

-- The file pointer is nil, or open on the file of this name.
pub record LogSegmentFile : Type 0 where
  pub full_name : Bytes
  pub segment : ℕ
  pub is_open : Bool
  pub offset : ℕ
  pub follower_cond : FollowerCond
  pub log_file_max_size : ℕ
  pub has_shutdown : Bool

unfoldable pub new_log_segment_file : Bytes → ℕ → ℕ → LogSegmentFile
new_log_segment_file full_name segment log_file_max_size = record {
  full_name = full_name;
  segment = segment;
  is_open = false;
  offset = 0;
  follower_cond = nobody;
  log_file_max_size = log_file_max_size;
  has_shutdown = false;
}

-- All that wait are woken.
abbrev pub broadcast : LogSegmentFile → LogSegmentFile
broadcast f = record f {
  follower_cond = record { waiting = []; woken = f.follower_cond.woken ++ f.follower_cond.waiting };
}

abbrev pub Disk : Type 0
Disk = List (Bytes × Bytes)

-- The bytes of a file, none if there is no such file.
abbrev pub content : Bytes → Disk → Bytes
content name disk = elim (find name disk) [ none ↦ [] | some b ↦ b ]

-- What an operation on the nil file pointer answers.
abbrev pub invalid_argument : Bytes
invalid_argument = codes "invalid argument"

-- Writing the size of an entry, and then its data.
pub record Faults : Type 0 where
  pub size_fault : Option Fault
  pub data_fault : Option Fault

abbrev pub sound : Faults
sound = record { size_fault = none; data_fault = none }

-- After the size is written.
unfoldable pub append_data :
    Option Fault
    → Bytes
    → LogSegmentFile
    → Disk × Option Bytes
    → LogSegmentFile × Disk × Option Bytes
append_data fault encoded f (disk, some err) =
    (f, disk, some (codes "appendEntry write log entry size: " ++ err))
append_data fault encoded f (disk, none) =
    let (written, err) = write_with fault encoded (f.offset + 4) (content f.full_name disk) in
    let disk' = assign f.full_name written disk in
    elim err [
      | some e ↦ (f, disk', some (codes "appendEntry write log entry data: " ++ e))
      | none ↦ (broadcast (record f { offset = f.offset + (length encoded + 4) }), disk', none)
    ]

unfoldable pub append_size : Option Fault → Bytes → LogSegmentFile → Disk → Disk × Option Bytes
append_size fault encoded f disk =
    if f.is_open
    then (let (written, err) =
          write_with fault (put_uint 4 (length encoded % 2 ^ 32)) f.offset
            (content f.full_name disk) in
        (assign f.full_name written disk, err))
    else (disk, some invalid_argument)

pub data ReadError : Type 0 where
  eof : ReadError
  failed : Bytes → ReadError

-- One entry and the offset after it, or the text of an error.
pub data ReadOne : Type 0 where
  entry_at : LogEntry → ℕ → ReadOne
  refused : Bytes → ReadOne

-- The entries, the offset after them and the error.
abbrev pub ReadResult : Type 0
ReadResult = List LogEntry × ℕ × Option ReadError

module _ (proto : Proto) where
  open proto use {marshal, unmarshal}

  unfoldable pub append_entry :
      Faults → LogEntry → LogSegmentFile → Disk → LogSegmentFile × Disk × Option Bytes
  append_entry faults entry f disk =
      let (encoded, err) = marshal entry in
      elim err [
        | some e ↦ (f, disk, some (codes "appendEntry marshal log entry: " ++ e))
        | none ↦
            append_data faults.data_fault encoded f (append_size faults.size_fault encoded f disk)
      ]

  -- What the data that was read says, where `size` bytes were asked for.
  unfoldable pub decode_entry : ℕ → ℕ → Bytes → ReadOne
  decode_entry offset size read =
      if length read == size
      then elim (unmarshal read) [
        | none ↦ refused (codes "readOneEntry unmarshal: " ++ proto.unmarshal_error read)
        | some e ↦ entry_at e (offset + (size + 4) % 2 ^ 32)
      ]
      else refused (
          codes "read wrong data size: "
          ++ (decimal (length read) ++ (codes ", expecting " ++ decimal size)))

  -- `ReadAt` of the size, and of as much data as there is.
  unfoldable pub read_data : ℕ → Bytes → ReadOne
  read_data offset b =
      let size = get_uint (take 4 (drop offset b)) in
      decode_entry offset size (take size (drop (offset + 4) b))

  unfoldable pub read_one_entry : ℕ → LogSegmentFile → Disk → ReadOne
  read_one_entry offset f disk =
      if f.is_open
      then (if ltb (length (content f.full_name disk)) (offset + 4)
          then refused (codes "read size info: EOF")
          else read_data offset (content f.full_name disk))
      else refused (codes "read size info: " ++ invalid_argument)

  -- The rounds that are left of the loop over `i`.
  unfoldable pub read_loop : ℕ → ℕ → ℕ → LogSegmentFile → Disk → ReadResult
  read_loop zero i next_offset f disk = ([], next_offset, none)
  read_loop (suc n) i next_offset f disk = elim (read_one_entry next_offset f disk) [
    | refused err ↦ if i == 0 then ([], 0, some (failed err)) else ([], next_offset, none)
    | entry_at e next ↦
        if leb f.log_file_max_size next
        then (e ∷ [], 0, some eof)
        else (let (more, last, err) = read_loop n (suc i) next f disk in (e ∷ more, last, err))
  ]

  unfoldable pub read_entries : ℕ → ℕ → LogSegmentFile → Disk → Option ReadResult
  read_entries offset limit f disk =
      if leb f.log_file_max_size offset
      then some ([], 0, some eof)
      else if f.has_shutdown
      then some (
        [],
        0,
        some (failed (codes "log file " ++ (f.full_name ++ codes " shutdown in progress"))),
      )
      else if leb f.offset offset
      then none
      else some (read_loop limit 0 offset f disk)

-- An open creates the file if it is not there; the error of the system, if it gives one.
unfoldable pub open_file :
    Option Bytes → LogSegmentFile → Disk → LogSegmentFile × Disk × Option Bytes
open_file (some err) f disk = (
  record f { is_open = false },
  disk,
  some (codes "open file " ++ (f.full_name ++ (codes ": " ++ err))),
)
open_file none f disk =
    let bytes = content f.full_name disk in
    (record f { is_open = true; offset = length bytes }, assign f.full_name bytes disk, none)

unfoldable pub close : LogSegmentFile → LogSegmentFile
close f = record (broadcast (record f { has_shutdown = true })) { is_open = false; offset = 0 }

unfoldable pub purge : LogSegmentFile → Disk → LogSegmentFile × Disk
unfolding close
purge f disk = (close f, erase f.full_name disk)
