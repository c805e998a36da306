-- ===== src/Binlog/Manager.antt =====
-- storage/binlog/log_manager.go: the files of a binlog. `last_log_file` points at one of the files of
-- the map, and is the number of its segment. A reader that waits has no result yet.
pub mod Recent
pub mod Leaves
pub mod Rotation
pub mod LeftBehind
pub mod Names
pub mod Loading
use vasto.Prelude.{
  ℕ, zero, suc, ◌+◌, ◌-◌, ◌*◌, ◌%◌, ◌^◌, Bool, true, false, not, ◌&&◌, List, [], ◌∷◌, ◌++◌, map,
  Bytes, bytes_eq, length, take, drop, ltb, leb, ◌==◌, if◌then◌else◌, codes, Option, none, some,
  Run, ok, panic, ◌>>=◌,
}
use vasto.Prelude.NumMaps.{find, assign}
use vasto.Pb.Identifier.{decimal}
use vasto.Pb.Requests.{LogEntry}
use vasto.Binlog.Entries.{Proto}
use vasto.Binlog.Segment.{
  LogSegmentFile, Disk, Faults, ReadResult, failed, new_log_segment_file, open_file, close, purge,
}
use vasto.Binlog.Segment as File

pub record LogManager : Type 0 where
  pub dir : Bytes
  pub log_file_max_size : ℕ
  pub log_file_count_limit : ℕ
  pub files : List (ℕ × LogSegmentFile)
  pub last_log_file : Option ℕ
  pub segment : ℕ
  pub has_shutdown : Bool

unfoldable pub new_log_manager : Bytes → ℕ → ℕ → LogManager
new_log_manager dir log_file_max_size log_file_count_limit = record {
  dir = dir;
  log_file_max_size = log_file_max_size;
  log_file_count_limit = log_file_count_limit;
  files = [];
  last_log_file = none;
  segment = 0;
  has_shutdown = false;
}

abbrev pub const_log_file_prefix : Bytes
const_log_file_prefix = codes "binlog-"

abbrev pub const_log_file_suffix : Bytes
const_log_file_suffix = codes ".dat"

-- The name in the directory.
unfoldable pub base_name : ℕ → Bytes
base_name segment = const_log_file_prefix ++ (decimal segment ++ const_log_file_suffix)

unfoldable pub get_file_name : LogManager → ℕ → Bytes
get_file_name m segment = m.dir ++ (codes "/" ++ base_name segment)

-- The file that `lastLogFile` points at.
unfoldable pub last_file : LogManager → Option LogSegmentFile
last_file m = elim m.last_log_file [ none ↦ none | some s ↦ find s m.files ]

unfoldable pub close_all : List (ℕ × LogSegmentFile) → List (ℕ × LogSegmentFile)
close_all = map (λ entry. (entry.0, close entry.1))

unfoldable pub shutdown : LogManager → LogManager
shutdown m = record m { has_shutdown = true; files = close_all m.files }

-- The numbers are uint32.
unfoldable pub is_old : ℕ → ℕ → ℕ → Bool
is_old limit current segment = ltb ((segment + limit % 2 ^ 32) % 2 ^ 32) current

unfoldable pub remove_old :
    ℕ → ℕ → List (ℕ × LogSegmentFile) → Disk → List (ℕ × LogSegmentFile) × Disk
remove_old limit current [] disk = ([], disk)
remove_old limit current (entry ∷ rest) disk =
    let (more, cleared) = remove_old limit current rest disk in
    if is_old limit current entry.0
    then (more, (purge entry.1 cleared).1)
    else (entry ∷ more, cleared)

unfoldable pub maybe_remove_old_files : LogManager → Disk → LogManager × Disk
maybe_remove_old_files m disk =
    let (files, cleared) = remove_old m.log_file_count_limit m.segment m.files disk in
    (record m { files = files }, cleared)

-- A new file where there is no last one.
unfoldable pub with_last_file : LogManager → LogManager
with_last_file m = elim m.last_log_file [
  | some s ↦ m
  | none ↦ record m {
    files =
        assign m.segment
          (new_log_segment_file (get_file_name m m.segment) m.segment m.log_file_max_size) m.files;
    last_log_file = some m.segment;
  }
]

-- A change of the last file shows in the map.
unfoldable pub put_last_file : LogSegmentFile → LogManager → LogManager
put_last_file f m = elim m.last_log_file [
  | none ↦ m
  | some s ↦ record m { files = assign s f m.files }
]

-- The error of the system on opening the file, if it gives one.
unfoldable pub maybe_prepare_current_file_for_write :
    Option Bytes → LogManager → Disk → Run (LogManager × Disk × Option Bytes)
maybe_prepare_current_file_for_write refusal m disk =
    let ready = with_last_file m in
    elim (last_file ready) [
      | none ↦ panic
      | some f ↦
          let (f', disk', err) = open_file refusal f disk in ok (put_last_file f' ready, disk', err)
    ]

-- A full file is closed, and the next one is begun.
unfoldable pub rotate :
    Option Bytes → LogSegmentFile → LogManager → Disk → Run (LogManager × Disk × Option Bytes)
rotate refusal f m disk =
    let closed = put_last_file (close f) m in
    let next = record closed { segment = (m.segment + 1) % 2 ^ 32 } in
    let (kept, cleared) = maybe_remove_old_files next disk in
    maybe_prepare_current_file_for_write refusal (record kept { last_log_file = none }) cleared

module _ (proto : Proto) where
  -- The append to the last file.
  unfoldable pub append_last :
      Faults → LogEntry → LogManager × Disk → Run (LogManager × Disk × Option Bytes)
  append_last faults entry (m, disk) = elim (last_file m) [
    | none ↦ panic
    | some f ↦
        let (f', disk', err) = File.append_entry proto faults entry f disk in
        ok (put_last_file f' m, disk', err)
  ]

  unfoldable pub append_entry :
      Faults → Option Bytes → LogEntry → LogManager → Disk → Run (LogManager × Disk × Option Bytes)
  append_entry faults refusal entry m disk = elim (last_file m) [
    | none ↦ panic
    | some f ↦
        if leb m.log_file_max_size f.offset
        then (do (m', disk', err) ← rotate refusal f m disk; append_last faults entry (m', disk'))
        else append_last faults entry (m, disk)
  ]

  -- The wait ends only while the manager is running: `!(segment <= m.segment && !m.hasShutdown)`.
  unfoldable pub read_entries : ℕ → ℕ → ℕ → LogManager → Disk → Run (Option ReadResult)
  read_entries segment offset limit m disk =
      if not (leb segment m.segment && not m.has_shutdown)
      then ok none
      else if m.has_shutdown
      then ok (some ([], 0, some (failed (m.dir ++ codes " shutdown in progress..."))))
      else elim (find segment m.files) [
        | some f ↦ ok (File.read_entries proto offset limit f disk)
        | none ↦
            if segment == m.segment
            then elim (last_file m) [
              | none ↦ panic
              | some f ↦ ok (File.read_entries proto offset limit f disk)
            ]
            else ok
                (some ([], 0, some (failed (codes "already purged segment " ++ decimal segment))))
      ]

unfoldable pub has_segment : ℕ → LogManager → Bool
has_segment segment m = elim (find segment m.files) [ none ↦ false | some f ↦ true ]

unfoldable pub segment_range : ℕ × ℕ → List (ℕ × LogSegmentFile) → ℕ × ℕ
segment_range (earliest, latest) [] = (earliest, latest)
segment_range (earliest, latest) (entry ∷ rest) =
    segment_range
      (
        if leb entry.0 earliest then entry.0 else earliest,
        if ltb latest entry.0 then entry.0 else latest,
      )
      rest

-- The earliest starts at math.MaxInt32.
unfoldable pub get_segment_range : LogManager → ℕ × ℕ
get_segment_range m = if length m.files == 0 then (0, 0) else segment_range (2 ^ 31 - 1, 0) m.files

unfoldable pub get_segment_offset : LogManager → ℕ × ℕ
get_segment_offset m = (m.segment, elim (last_file m) [ none ↦ 0 | some f ↦ f.offset ])

-- strconv.ParseUint(s, 10, 32); `none` for its error.
unfoldable pub parse_loop : ℕ → Bytes → Option ℕ
parse_loop acc [] = some acc
parse_loop acc (c ∷ rest) =
    let more = parse_loop (acc * 10 + (c - 48)) rest in
    if leb 48 c && leb c 57
    then (if ltb (acc * 10 + (c - 48)) (2 ^ 32) then more else none)
    else none

unfoldable pub parse_uint : Bytes → Option ℕ
parse_uint s = if length s == 0 then none else parse_loop 0 s

-- strings.TrimPrefix, or `none` without the prefix.
unfoldable pub trim_prefix : Bytes → Bytes → Option Bytes
trim_prefix [] s = some s
trim_prefix (p ∷ ps) [] = none
trim_prefix (p ∷ ps) (c ∷ s) = if c == p then trim_prefix ps s else none

unfoldable pub has_suffix : Bytes → Bytes → Bool
has_suffix suffix s =
    if ltb (length s) (length suffix)
    then false
    else bytes_eq (drop (length s - length suffix) s) suffix

-- The text between the prefix and the suffix of a name that has both. Both fit no name in which they
-- overlap.
unfoldable pub segment_text : Bytes → Option Bytes
segment_text name = elim (trim_prefix const_log_file_prefix name) [
  | none ↦ none
  | some s ↦
      if has_suffix const_log_file_suffix s
      then some (take (length s - length const_log_file_suffix) s)
      else none
]

-- The names that ReadDir gives, in their order; the Boolean is whether all numbers were parsed.
unfoldable pub load_names : List Bytes → ℕ → LogManager → LogManager × ℕ × Bool
load_names [] max_segment m = (m, max_segment, true)
load_names (name ∷ rest) max_segment m = elim (segment_text name) [
  | none ↦ load_names rest max_segment m
  | some text ↦ elim (parse_uint text) [
    | none ↦ (m, max_segment, false)
    | some n ↦
        let f = new_log_segment_file (get_file_name m n) n m.log_file_max_size in
        let loaded = record m { files = assign n f m.files } in
        if leb max_segment n
        then load_names rest n (record loaded { last_log_file = some n })
        else load_names rest max_segment loaded
  ]
]

-- What ReadDir answers, `none` for its error. The Boolean is false for an error, on which the
-- manager's segment is left alone.
unfoldable pub load_files_from_disk : Option (List Bytes) → LogManager → LogManager × Bool
load_files_from_disk none m = (m, false)
load_files_from_disk (some names) m =
    let (loaded, max_segment, parsed) = load_names names 0 m in
    if parsed then (record loaded { segment = max_segment }, true) else (loaded, false)

-- The error of opening the last file is dropped.
unfoldable pub initialze :
    Option Bytes → Option (List Bytes) → LogManager → Disk → Run (LogManager × Disk × Bool)
initialze refusal listing m disk =
    let (loaded, parsed) = load_files_from_disk listing m in
    if parsed
    then (do
      (ready, disk', err) ← maybe_prepare_current_file_for_write refusal loaded disk
      ok (ready, disk', true))
    else ok (loaded, disk, false)
