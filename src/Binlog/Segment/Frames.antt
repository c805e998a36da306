-- ===== src/Binlog/Segment/Frames.antt =====
-- A file of the binlog as the list of its entries.
use mathlib.Core.List.{append_assoc}
use vasto.Prelude.{
  ==_refl, ℕ, ◌+◌, ◌^◌, ◌<◌, ◌≡◌, refl, sym, ap, ◌∙◌, true, false, List, [], ◌∷◌, ◌++◌, Bytes,
  length, take, drop, leb, All, none, arith, length-append, take-append, drop-append, drop-drop,
}
use vasto.Util.LittleEndian.{put_uint, get_uint, length-put_uint, get_uint-put_uint}
use vasto.Pb.Requests.{LogEntry}
use vasto.Binlog.Entries.{Proto}
use vasto.Binlog.Segment.{
  LogSegmentFile, Disk, content, entry_at, decode_entry, read_data, read_one_entry,
}

take_put : (v : ℕ) (after : Bytes) → take 4 (put_uint 4 v ++ after) ≡ put_uint 4 v
take_put v after = rw (length-put_uint 4 v) at (take-append (put_uint 4 v) after)

drop_put : (v : ℕ) (after : Bytes) → drop 4 (put_uint 4 v ++ after) ≡ after
drop_put v after = rw (length-put_uint 4 v) at (drop-append (put_uint 4 v) after)

-- A frame after other bytes: its size is read, and then its data.
read_frame :
    (m before after : Bytes)
    → length m + 4 < 2 ^ 32
    → (get_uint (take 4 (drop (length before) (before ++ ((put_uint 4 (length m) ++ m) ++ after))))
        ≡ length m)
      × (take
            (length m)
            (drop (length before + 4) (before ++ ((put_uint 4 (length m) ++ m) ++ after)))
          ≡ m)
read_frame m before after short = (
  rw
      (
        drop-append before ((put_uint 4 (length m) ++ m) ++ after),
        append_assoc (put_uint 4 (length m)) m after,
        take_put (length m) (m ++ after),
      )
      (get_uint-put_uint 4 (length m) (omega arith)),
  rw
      (
        ← drop-drop (length before) 4 (before ++ ((put_uint 4 (length m) ++ m) ++ after)),
        drop-append before ((put_uint 4 (length m) ++ m) ++ after),
        append_assoc (put_uint 4 (length m)) m after,
        drop_put (length m) (m ++ after),
      )
      (take-append m after),
)

module _ (proto : Proto) where
  open proto use {marshal, unmarshal}

  -- The bytes of one entry, with its size in front.
  abbrev pub frame : LogEntry → Bytes
  frame e = put_uint 4 (length (marshal e).0) ++ (marshal e).0

  abbrev pub frames : List LogEntry → Bytes
  frames [] = []
  frames (e ∷ es) = frame e ++ frames es

  -- An entry that can be written: it is marshalled, in less than 2^32 - 4 bytes.
  abbrev pub IsWritable : LogEntry → Type 0
  IsWritable e = ((marshal e).1 ≡ none) × (length (marshal e).0 + 4 < 2 ^ 32)

  -- The file is open and has the frames of these entries, and no more.
  pub record IsSegment (es : List LogEntry) (f : LogSegmentFile) (disk : Disk) : Type 0 where
    pub opened : f.is_open ≡ true
    pub running : f.has_shutdown ≡ false
    pub stored : content f.full_name disk ≡ frames es
    pub ended : f.offset ≡ length (frames es)
    pub writable : All IsWritable es

  abbrev pub frame_length : LogEntry → ℕ
  frame_length e = length (marshal e).0 + 4

  pub frames-append : (xs ys : List LogEntry) → frames (xs ++ ys) ≡ frames xs ++ frames ys
  frames-append [] ys = refl
  frames-append (x ∷ xs) ys =
      ap (λ t. frame x ++ t) (frames-append xs ys)
      ∙ sym (append_assoc (frame x) (frames xs) (frames ys))

  pub length-frame : (e : LogEntry) → length (frame e) ≡ frame_length e
  length-frame e = omega (
    arith,
    length-append (put_uint 4 (length (marshal e).0)) (marshal e).0,
    length-put_uint 4 (length (marshal e).0),
  )

  decode_entry_lem :
      (offset : ℕ) (e : LogEntry)
      → IsWritable e
      → decode_entry proto offset (length (marshal e).0) (marshal e).0
        ≡ entry_at e (offset + frame_length e)
  unfolding decode_entry
  decode_entry_lem offset e (fine, short) =
      rw
        (
          ==_refl (length (marshal e).0),
          proto.unmarshal-marshal e (marshal e).0 (λ i. ((marshal e).0, fine i)),
        )
        (ap (λ n. entry_at e (offset + n)) (omega arith))

  read_data_lem :
      (e : LogEntry) (before after : Bytes)
      → IsWritable e
      → read_data proto (length before) (before ++ (frame e ++ after))
        ≡ entry_at e (length before + frame_length e)
  unfolding read_data
  read_data_lem e before after w =
      let (size, read) = read_frame (marshal e).0 before after w.1 in
      rw (size, read) (decode_entry_lem (length before) e w)

  pub read_one_entry_lem :
      (before after : List LogEntry) (e : LogEntry) (f : LogSegmentFile) (disk : Disk)
      → IsSegment (before ++ (e ∷ after)) f disk
      → IsWritable e
      → read_one_entry proto (length (frames before)) f disk
        ≡ entry_at e (length (frames before) + frame_length e)
  unfolding read_one_entry
  read_one_entry_lem before after e f disk v w =
      let shown : content f.full_name disk ≡ frames before ++ (frame e ++ frames after) =
        v.stored ∙ frames-append before (e ∷ after) in
      let long : leb (length (frames before) + 4)
            (length (frames before ++ (frame e ++ frames after)))
          ≡ true =
        ground (
          arith,
          length-append (frames before) (frame e ++ frames after),
          length-append (frame e) (frames after),
          length-append (put_uint 4 (length (marshal e).0)) (marshal e).0,
          length-put_uint 4 (length (marshal e).0),
        ) in
      rw (v.opened, shown) (ground (arith, read_data_lem e (frames before) (frames after) w))
