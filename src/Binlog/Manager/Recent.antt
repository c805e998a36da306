-- ===== src/Binlog/Manager/Recent.antt =====
-- The segments of the files that a binlog keeps.
use vasto.Prelude.{
  ==_refl, inl, inr, ℕ, suc, ◌+◌, ◌-◌, ◌^◌, ◌<◌, ◌≤◌, ◌≡◌, ◌≢◌, refl, ap, false, List, [], ◌∷◌,
  length, ◌==◌, All, none, some, arith, Bool-cases,
}
use vasto.Prelude.NumMaps.{
  find, assign, find-assign, IsMap, InRange, assign-IsMap, All-assign, length-le-range,
}
use vasto.Binlog.Segment.{LogSegmentFile, Disk, new_log_segment_file}
use vasto.Binlog.Manager.{
  LogManager, last_file, is_old, remove_old, with_last_file, put_last_file, get_file_name,
}

-- The segment of an entry is at most the current one, and at most `limit` behind it.
abbrev pub IsRecent : ℕ → ℕ → ℕ × LogSegmentFile → Type 0
IsRecent limit current entry = (entry.0 ≤ current) × (current ≤ entry.0 + limit)

-- The segments of the files are distinct and recent.
abbrev pub AreRecent : ℕ → ℕ → List (ℕ × LogSegmentFile) → Type 0
AreRecent limit current files = IsMap files × All (IsRecent limit current) files

-- The last file is that of the current segment, and is in the map.
pub record IsManager (m : LogManager) : Type 0 where
  pub files_recent : AreRecent m.log_file_count_limit m.segment m.files
  pub last_current : m.last_log_file ≡ some m.segment
  pub last_there : (f : LogSegmentFile) × (find m.segment m.files ≡ some f)

module _ (limit current : ℕ) where
  pub remove_old-All {κ} :
      (P : ℕ × LogSegmentFile → Type κ) (files : List (ℕ × LogSegmentFile)) (disk : Disk)
      → All P files
      → All P (remove_old limit current files disk).0
  unfolding remove_old
  remove_old-All P [] disk h = h
  remove_old-All P (entry ∷ files) disk h = elim (Bool-cases (is_old limit current entry.0)) [
    | inl e ↦ rw e (remove_old-All P files disk h.1)
    | inr e ↦ rw e (h.0, remove_old-All P files disk h.1)
  ]

  pub remove_old-IsMap :
      (files : List (ℕ × LogSegmentFile)) (disk : Disk)
      → IsMap files
      → IsMap (remove_old limit current files disk).0
  unfolding remove_old
  remove_old-IsMap [] disk h = h
  remove_old-IsMap (entry ∷ files) disk h = elim (Bool-cases (is_old limit current entry.0)) [
    | inl e ↦ rw e (remove_old-IsMap files disk h.1)
    | inr e ↦ rw e (
      remove_old-All (λ other. other.0 ≢ entry.0) files disk h.0,
      remove_old-IsMap files disk h.1,
    )
  ]

  -- Of files that are recent for the segment before, those that stay are recent for this one.
  pub remove_old-IsRecent :
      (files : List (ℕ × LogSegmentFile)) (disk : Disk)
      → current + limit + 1 < 2 ^ 32
      → All (IsRecent limit current) files
      → All (IsRecent limit (suc current)) (remove_old limit (suc current) files disk).0
  unfolding remove_old is_old
  remove_old-IsRecent [] disk h r = r
  remove_old-IsRecent (entry ∷ files) disk h r =
      elim (Bool-cases (is_old limit (suc current) entry.0)) [
        | inl e ↦ rw (e, remove_old) (remove_old-IsRecent files disk h r.1)
        | inr e ↦
            rw (e, remove_old) ((omega arith, ground arith), remove_old-IsRecent files disk h r.1)
      ]

pub put_last_file_lem :
    (f : LogSegmentFile) (m : LogManager) (s : ℕ)
    → m.last_log_file ≡ some s
    → put_last_file f m ≡ record m { files = assign s f m.files }
unfolding put_last_file
put_last_file_lem f m s e = ground arith

pub last_file_lem :
    (m : LogManager) (s : ℕ) → m.last_log_file ≡ some s → last_file m ≡ find s m.files
unfolding last_file
last_file_lem m s e = ground arith

-- Writing the last file back keeps the invariant.
pub put_last_file-IsManager :
    (f : LogSegmentFile) (m : LogManager) → IsManager m → IsManager (put_last_file f m)
put_last_file-IsManager f m v = rw (put_last_file_lem f m m.segment v.last_current) (record {
  files_recent = (
    assign-IsMap m.segment f m.files v.files_recent.0,
    All-assign (IsRecent m.log_file_count_limit m.segment) m.segment f m.files (omega arith)
        v.files_recent.1,
  );
  last_current = v.last_current;
  last_there = (f, rw (find-assign m.segment m.segment f m.files, ==_refl m.segment) refl);
})

pub with_last_file_lem :
    (m : LogManager)
    → m.last_log_file ≡ none
    → with_last_file m ≡ record m {
      files =
          assign m.segment
            (new_log_segment_file (get_file_name m m.segment) m.segment m.log_file_max_size)
            m.files;
      last_log_file = some m.segment;
    }
unfolding with_last_file
with_last_file_lem m e = ground arith

pub with_last_file-IsManager :
    (m : LogManager)
    → AreRecent m.log_file_count_limit m.segment m.files
    → m.last_log_file ≡ none
    → IsManager (with_last_file m)
with_last_file-IsManager m recent e =
    let f = new_log_segment_file (get_file_name m m.segment) m.segment m.log_file_max_size in
    rw (with_last_file_lem m e) (record {
      files_recent = (
        assign-IsMap m.segment f m.files recent.0,
        All-assign (IsRecent m.log_file_count_limit m.segment) m.segment f m.files (omega arith)
            recent.1,
      );
      last_current = refl;
      last_there = (f, rw (find-assign m.segment m.segment f m.files, ==_refl m.segment) refl);
    })

IsRecent-InRange :
    (limit current : ℕ) (files : List (ℕ × LogSegmentFile))
    → All (IsRecent limit current) files
    → InRange (current - limit) (limit + 1) files
IsRecent-InRange limit current [] h = tt
IsRecent-InRange limit current (entry ∷ files) h =
    (omega arith, IsRecent-InRange limit current files h.1)

pub length-le-limit : (m : LogManager) → IsManager m → length m.files ≤ m.log_file_count_limit + 1
length-le-limit m v =
    length-le-range (m.segment - m.log_file_count_limit) (m.log_file_count_limit + 1) m.files
      v.files_recent.0 (IsRecent-InRange m.log_file_count_limit m.segment m.files v.files_recent.1)

pub find-remove_old :
    (limit current k : ℕ) (files : List (ℕ × LogSegmentFile)) (disk : Disk)
    → is_old limit current k ≡ false
    → find k (remove_old limit current files disk).0 ≡ find k files
unfolding find remove_old
find-remove_old limit current k [] disk h = refl
find-remove_old limit current k (entry ∷ files) disk h =
    elim (Bool-cases (is_old limit current entry.0)) [
      | inl old ↦
          let differs : (entry.0 == k) ≡ false = ground (arith, ap (is_old limit current)) in
          rw (old, differs) (find-remove_old limit current k files disk h)
      | inr young ↦ rw young (ground (arith, find-remove_old limit current k files disk h))
    ]
