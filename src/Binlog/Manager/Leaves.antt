-- ===== src/Binlog/Manager/Leaves.antt =====
-- What an operation leaves of a binlog whose last file changes.
use vasto.Prelude.{
  ℕ, ◌<◌, ◌≡◌, refl, ◌∙◌, true, List, Bytes, Option, none, some, arith, Bool, false, ==_refl,
}
use vasto.Prelude.NumMaps.{find, assign, find-assign}
use vasto.Pb.Requests.{LogEntry}
use vasto.Binlog.Entries.{Proto}
use vasto.Binlog.Segment.{
  LogSegmentFile, Disk, Faults, open_file, close, purge, new_log_segment_file,
}
use vasto.Binlog.Segment as File
use vasto.Binlog.Manager.{LogManager, last_file, with_last_file, put_last_file}
use vasto.Binlog.Manager.Recent.{
  AreRecent, IsManager, put_last_file_lem, last_file_lem, put_last_file-IsManager,
  with_last_file_lem, with_last_file-IsManager,
}

-- Whether there is a last file that is open for writing.
abbrev pub last_open : LogManager → Bool
last_open m = elim (last_file m) [ none ↦ false | some f ↦ f.is_open ]

-- What the system leaves of an open.
abbrev pub grants : Option Bytes → Bool
grants none = true
grants (some err) = false

pub open_file-grants :
    (refusal : Option Bytes) (f : LogSegmentFile) (disk : Disk)
    → (open_file refusal f disk).0.is_open ≡ grants refusal
unfolding open_file
open_file-grants none f disk = refl
open_file-grants (some err) f disk = refl

pub append_entry-open :
    (proto : Proto) (faults : Faults) (entry : LogEntry) (f : LogSegmentFile) (disk : Disk)
    → (File.append_entry proto faults entry f disk).0.is_open ≡ f.is_open
unfolding File.append_entry File.append_data
append_entry-open proto faults entry f disk = ground arith

-- What an operation leaves of `m0`: the invariant, in the same segment, a last file that is open or
-- not, and the files before it.
abbrev pub Leaves : LogManager → Bool → LogManager → Type 0
Leaves m0 opened m =
    IsManager m
    × (m.log_file_count_limit ≡ m0.log_file_count_limit)
    × (m.segment ≡ m0.segment)
    × (m.has_shutdown ≡ m0.has_shutdown)
    × (last_open m ≡ opened)
    × ((k : ℕ) → k < m0.segment → find k m.files ≡ find k m0.files)

find_before :
    (key k : ℕ) (f : LogSegmentFile) (files : List (ℕ × LogSegmentFile))
    → k < key
    → find k (assign key f files) ≡ find k files
find_before key k f files h = ground (arith, find-assign key k f files)

pub was_open :
    (m : LogManager) (f : LogSegmentFile) → last_file m ≡ some f → last_open m ≡ f.is_open
was_open m f e = rw (e, last_open) refl

last_open-put_last_file :
    (f : LogSegmentFile) (m : LogManager) (s : ℕ)
    → m.last_log_file ≡ some s
    → last_open (put_last_file f m) ≡ f.is_open
last_open-put_last_file f m s e = rw (put_last_file_lem f m s e) (
    was_open (record m { files = assign s f m.files }) f
      (last_file_lem (record m { files = assign s f m.files }) s e
        ∙ rw (find-assign s s f m.files, ==_refl s) refl))

pub put_last_file-Leaves :
    (m0 : LogManager) (opened : Bool) (f : LogSegmentFile) (m : LogManager)
    → Leaves m0 opened m
    → Leaves m0 f.is_open (put_last_file f m)
put_last_file-Leaves m0 opened f m (v, l, c, s, o, others) = (
  put_last_file-IsManager f m v,
  rw (put_last_file_lem f m m.segment v.last_current) l,
  rw (put_last_file_lem f m m.segment v.last_current) c,
  rw (put_last_file_lem f m m.segment v.last_current) s,
  last_open-put_last_file f m m.segment v.last_current,
  λ k h.
      rw (put_last_file_lem f m m.segment v.last_current)
        (find_before m.segment k f m.files (omega (arith, c)) ∙ others k h),
)

pub with_last_file-Leaves :
    (m : LogManager)
    → AreRecent m.log_file_count_limit m.segment m.files
    → m.last_log_file ≡ none
    → Leaves m (last_open (with_last_file m)) (with_last_file m)
with_last_file-Leaves m recent e = (
  with_last_file-IsManager m recent e,
  rw (with_last_file_lem m e) refl,
  rw (with_last_file_lem m e) refl,
  rw (with_last_file_lem m e) refl,
  refl,
  λ k h. rw (with_last_file_lem m e) (find_before m.segment k _ m.files h),
)

pub last_file-there : (m : LogManager) → IsManager m → (f : LogSegmentFile) × (last_file m ≡ some f)
last_file-there m v = (v.last_there.0, last_file_lem m m.segment v.last_current ∙ v.last_there.1)
