-- ===== src/Binlog/Manager/Rotation.antt =====
-- A binlog that goes on to its next file.
use vasto.Prelude.{
  inl, inr, suc, ◌+◌, ◌%◌, ◌^◌, ◌<◌, ◌≤◌, ◌≡◌, refl, ◌∙◌, true, Bytes, length, leb, if◌then◌else◌,
  Option, none, some, arith, Bool-cases, ok, ◌>>=◌, Bool, sym, subst,
}
use vasto.Prelude.NumMaps.{assign, assign-IsMap, All-assign}
use vasto.Pb.Requests.{LogEntry}
use vasto.Binlog.Entries.{Proto}
use vasto.Binlog.Segment.{
  LogSegmentFile, Disk, Faults, open_file, close, purge, new_log_segment_file,
}
use vasto.Binlog.Segment as File
use vasto.Binlog.Manager.{
  LogManager, last_file, remove_old, maybe_remove_old_files, with_last_file, put_last_file,
  maybe_prepare_current_file_for_write, rotate, append_last, append_entry,
}
use vasto.Binlog.Manager.Recent.{
  IsRecent, AreRecent, IsManager, remove_old-IsMap, remove_old-IsRecent, put_last_file_lem,
  with_last_file-IsManager, length-le-limit,
}
use vasto.Binlog.Manager.Leaves.{
  last_open, grants, open_file-grants, append_entry-open, Leaves, was_open, put_last_file-Leaves,
  with_last_file-Leaves, last_file-there,
}

-- With recent files and no last one, a new file is begun.
prepare_new :
    (refusal : Option Bytes) (m : LogManager) (disk : Disk)
    → AreRecent m.log_file_count_limit m.segment m.files
    → m.last_log_file ≡ none
    → (r : LogManager × Disk × Option Bytes) × (maybe_prepare_current_file_for_write refusal m disk
        ≡ ok r)
      × Leaves m (grants refusal) r.0
unfolding maybe_prepare_current_file_for_write
prepare_new refusal m disk recent e =
    let v = with_last_file-IsManager m recent e in
    let (f, there) = last_file-there (with_last_file m) v in
    let (f', disk', err) = open_file refusal f disk in
    (
      (put_last_file f' (with_last_file m), disk', err),
      rw (there, maybe_prepare_current_file_for_write) refl,
      subst (λ b. Leaves m b (put_last_file f' (with_last_file m)))
          (open_file-grants refusal f disk)
          (put_last_file-Leaves m (last_open (with_last_file m)) f' (with_last_file m)
            (with_last_file-Leaves m recent e)),
    )

-- The manager between the files: the old ones are removed, and the next one is not there yet.
abbrev pub between : LogSegmentFile → LogManager → Disk → LogManager
between f m disk = record m {
  files =
      (remove_old m.log_file_count_limit (suc m.segment) (assign m.segment (close f) m.files)
        disk).0;
  segment = suc m.segment;
  last_log_file = none;
}

rotate-between :
    (refusal : Option Bytes) (f : LogSegmentFile) (m : LogManager) (disk : Disk)
    → m.last_log_file ≡ some m.segment
    → m.segment + 1 < 2 ^ 32
    → rotate refusal f m disk
      ≡ maybe_prepare_current_file_for_write refusal
          (between f m disk)
          (remove_old m.log_file_count_limit
            (suc m.segment)
            (assign m.segment (close f) m.files)
            disk).1
unfolding rotate maybe_remove_old_files
rotate-between refusal f m disk last h =
    let wrap : (m.segment + 1) % 2 ^ 32 ≡ suc m.segment = omega arith in
    rw (put_last_file_lem (close f) m m.segment last, wrap) refl

between-AreRecent :
    (f : LogSegmentFile) (m : LogManager) (disk : Disk)
    → IsManager m
    → m.segment + m.log_file_count_limit + 1 < 2 ^ 32
    → AreRecent m.log_file_count_limit (suc m.segment) (between f m disk).files
between-AreRecent f m disk v h =
    let old = assign m.segment (close f) m.files in
    (
      remove_old-IsMap m.log_file_count_limit (suc m.segment) old disk
          (assign-IsMap m.segment (close f) m.files v.files_recent.0),
      remove_old-IsRecent m.log_file_count_limit m.segment old disk h (
          All-assign (IsRecent m.log_file_count_limit m.segment) m.segment (close f) m.files
            (omega arith) v.files_recent.1),
    )

rotate_lem :
    (refusal : Option Bytes) (f : LogSegmentFile) (m : LogManager) (disk : Disk)
    → IsManager m
    → m.segment + m.log_file_count_limit + 1 < 2 ^ 32
    → (r : LogManager × Disk × Option Bytes) × (rotate refusal f m disk ≡ ok r)
      × Leaves (between f m disk) (grants refusal) r.0
rotate_lem refusal f m disk v h =
    let (r, known, left) =
      prepare_new refusal (between f m disk) _ (between-AreRecent f m disk v h) refl in
    (r, rotate-between refusal f m disk v.last_current (omega arith) ∙ known, left)

module _ (proto : Proto) where
  append_last_lem :
      (faults : Faults) (entry : LogEntry) (m0 m : LogManager) (opened : Bool) (disk : Disk)
      → Leaves m0 opened m
      → (r : LogManager × Disk × Option Bytes) × (append_last proto faults entry (m, disk) ≡ ok r)
        × Leaves m0 opened r.0
  unfolding append_last
  append_last_lem faults entry m0 m opened disk v =
      let (f, there) = last_file-there m v.0 in
      let (f', disk', err) = File.append_entry proto faults entry f disk in
      (
        (put_last_file f' m, disk', err),
        rw (there, append_last) refl,
        subst (λ b. Leaves m0 b (put_last_file f' m))
            (append_entry-open proto faults entry f disk ∙ sym (was_open m f there) ∙ v.4)
            (put_last_file-Leaves m0 opened f' m v),
      )

  -- An append to a full file: what is left besides the new file.
  pub append_entry_full :
      (faults : Faults) (refusal : Option Bytes) (entry : LogEntry) (m : LogManager) (disk : Disk)
      (f : LogSegmentFile)
      → IsManager m
      → last_file m ≡ some f
      → m.segment + m.log_file_count_limit + 1 < 2 ^ 32
      → leb m.log_file_max_size f.offset ≡ true
      → (r : LogManager × Disk × Option Bytes) × (append_entry proto faults refusal entry m disk
          ≡ ok r)
        × Leaves (between f m disk) (grants refusal) r.0
  unfolding append_entry
  append_entry_full faults refusal entry m disk f v here h full =
      let ((m', disk', err), turned, left) = rotate_lem refusal f m disk v h in
      let (r, known, after) =
        append_last_lem faults entry (between f m disk) m' (grants refusal) disk' left in
      (r, rw (here, append_entry) (rw full (rw (turned, ◌>>=◌) known)), after)

  -- AppendEntry never panics where the files of a binlog have distinct segments, none of them more
  -- than the count limit behind the current one or ahead of it, and the last file is that of the
  -- current segment and one of them. It keeps this whatever the system refuses; the last file
  -- afterwards is open for writing as it was before, or, where it goes on to the next segment, if the
  -- system opens the file of that segment. It goes on to the next segment exactly when the last file has
  -- reached its size, and there are never more than limit + 1 files. The segment and the limit must
  -- add up to less than 2^32 - 1.
  pub append_entry-IsManager :
      (faults : Faults) (refusal : Option Bytes) (entry : LogEntry) (m : LogManager) (disk : Disk)
      (f : LogSegmentFile)
      → IsManager m
      → last_file m ≡ some f
      → m.segment + m.log_file_count_limit + 1 < 2 ^ 32
      → (r : LogManager × Disk × Option Bytes) × (append_entry proto faults refusal entry m disk
          ≡ ok r)
        × IsManager r.0
        × (r.0.segment ≡ (if leb m.log_file_max_size f.offset then suc m.segment else m.segment))
        × (last_open r.0 ≡ (if leb m.log_file_max_size f.offset then grants refusal else f.is_open))
        × (length r.0.files ≤ m.log_file_count_limit + 1)
  unfolding append_entry
  append_entry-IsManager faults refusal entry m disk f v here h =
      elim (Bool-cases (leb m.log_file_max_size f.offset)) [
        | inl full ↦
            let (r, known, (v', l, c, s, o, others)) =
              append_entry_full faults refusal entry m disk f v here h full in
            (r, known, v', rw full c, rw full o, rw l at (length-le-limit r.0 v'))
        | inr room ↦
            let (r, known, (v', l, c, s, o, others)) =
              append_last_lem faults entry m m f.is_open disk
                (v, refl, refl, refl, was_open m f here, λ k h'. refl) in
            (
              r,
              rw (here, append_entry) (rw room known),
              v',
              rw room c,
              rw room o,
              rw l at (length-le-limit r.0 v'),
            )
      ]
