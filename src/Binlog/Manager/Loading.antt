-- ===== src/Binlog/Manager/Loading.antt =====
-- Loading the files of a directory.
use vasto.Prelude.{
  inl, inr, ℕ, ◌^◌, ◌<◌, ◌≡◌, ◌⊎◌, refl, sym, ap, subst, ◌∙◌, Bool, true, false, List, [], ◌∷◌,
  Bytes, leb, ◌==◌, if◌then◌else◌, Option, none, some, arith, Bool-cases,
}
use vasto.Prelude.NumMaps.{find, assign, find-assign}
use vasto.Binlog.Segment.{LogSegmentFile, new_log_segment_file}
use vasto.Binlog.Manager.{LogManager, get_file_name, base_name, load_names, load_files_from_disk}
use vasto.Binlog.Manager.Names.{
  parse_uint-decimal, segment_text-base_name, segment_text-other, IsOther,
}

-- The names in a directory, and the segments whose files are among them.
pub data Listing : List Bytes → List ℕ → Type 0 where
  nothing : Listing [] []
  segment_file :
      {names : List Bytes} {ns : List ℕ} (n : ℕ)
      → n < 2 ^ 32
      → Listing names ns
      → Listing (base_name n ∷ names) (n ∷ ns)
  other_file :
      {names : List Bytes} {ns : List ℕ} (name : Bytes)
      → IsOther name
      → Listing names ns
      → Listing (name ∷ names) ns

-- The greatest of the numbers and `top`.
pub greatest : ℕ → List ℕ → ℕ
greatest top [] = top
greatest top (n ∷ ns) = greatest (if leb top n then n else top) ns

pub contains : ℕ → List ℕ → Bool
contains k [] = false
contains k (n ∷ ns) = if n == k then true else contains k ns

-- The last file where there was `last` and these numbers are found.
pub latest : Option ℕ → ℕ → List ℕ → Option ℕ
latest last top [] = last
latest last top (n ∷ ns) = some (greatest top (n ∷ ns))

latest-some : (top : ℕ) (ns : List ℕ) → latest (some top) top ns ≡ some (greatest top ns)
unfolding latest greatest
latest-some top [] = refl
latest-some top (n ∷ ns) = refl

abbrev pub file_of : LogManager → ℕ → LogSegmentFile
file_of m n = new_log_segment_file (get_file_name m n) n m.log_file_max_size

-- What is loaded: the numbers are parsed, the greatest is known and is the last file, and the
-- directory's files are in the map.
abbrev Loads : ℕ → List ℕ → LogManager → LogManager × ℕ × Bool → Type 0
Loads top ns m (m', top', parsed) =
    (parsed ≡ true)
    × (top' ≡ greatest top ns)
    × (m'.last_log_file ≡ latest m.last_log_file top ns)
    × ((k : ℕ) → find k m'.files ≡ (if contains k ns then some (file_of m k) else find k m.files))

load_one :
    (top n top' : ℕ) (ns : List ℕ) (m : LogManager) (r : LogManager × ℕ × Bool)
    → (if leb top n then n else top) ≡ top'
    → Loads top' ns
        (record m { files = assign n (file_of m n) m.files; last_log_file = some top' })
        r
    → Loads top (n ∷ ns) m r
unfolding greatest contains get_file_name latest
load_one top n top' ns m r e (parsed, best, current, found) = (
  parsed,
  best ∙ ap (λ t. greatest t ns) (sym e),
  current ∙ latest-some top' ns ∙ ap (λ t. some (greatest t ns)) (sym e),
  λ k. found k ∙ ground (arith, find-assign n k (file_of m n) m.files),
)

load_names_step :
    (top n : ℕ) (rest : List Bytes) (m : LogManager)
    → n < 2 ^ 32
    → load_names (base_name n ∷ rest) top m ≡ (
        if leb top n
        then load_names rest n
            (record m { files = assign n (file_of m n) m.files; last_log_file = some n })
        else load_names rest top (record m { files = assign n (file_of m n) m.files }))
unfolding load_names
load_names_step top n rest m h =
    rw (segment_text-base_name n, load_names) (rw (parse_uint-decimal n h, load_names) refl)

load_names_other :
    (top : ℕ) (name : Bytes) (rest : List Bytes) (m : LogManager)
    → IsOther name
    → load_names (name ∷ rest) top m ≡ load_names rest top m
unfolding load_names
load_names_other top name rest m other = rw (segment_text-other name other, load_names) refl

-- Where the last file is that of `top`, if `top` is not zero, the greatest number is found.
load_names_lem :
    {names : List Bytes} {ns : List ℕ}
    → Listing names ns
    → (top : ℕ) (m : LogManager) → (m.last_log_file ≡ some top) ⊎ (top ≡ 0)
    → Loads top ns m (load_names names top m)
unfolding load_names greatest contains latest
load_names_lem nothing top m start = (refl, refl, refl, λ k. refl)
load_names_lem (other_file {names} {ns} name other l) top m start =
    subst (Loads top ns m) (sym (load_names_other top name names m other))
      (load_names_lem l top m start)
load_names_lem (segment_file {names} {ns} n h l) top m start = elim (Bool-cases (leb top n)) [
  | inl greater ↦
      let m' = record m { files = assign n (file_of m n) m.files; last_log_file = some n } in
      let same : load_names (base_name n ∷ names) top m ≡ load_names names n m' =
        load_names_step top n names m h ∙ rw greater refl in
      subst (Loads top (n ∷ ns) m) (sym same) (
        load_one top n n ns m (load_names names n m') (rw greater refl)
          (load_names_lem l n m' (inl refl)))
  | inr smaller ↦
      let last : m.last_log_file ≡ some top = ground arith in
      let m' = record m { files = assign n (file_of m n) m.files; last_log_file = some top } in
      let same : load_names (base_name n ∷ names) top m ≡ load_names names top m' =
        load_names_step top n names m h
        ∙ rw smaller (
            ap
              (λ t.
                load_names names top
                  (record m { files = assign n (file_of m n) m.files; last_log_file = t }))
              last) in
      subst (Loads top (n ∷ ns) m) (sym same) (
        load_one top n top ns m (load_names names top m') (rw smaller refl)
          (load_names_lem l top m' (inl refl)))
]

-- A manager that has loaded these segments.
abbrev pub HasLoaded : List ℕ → LogManager → LogManager × Bool → Type 0
HasLoaded ns m (m', loaded) =
    (loaded ≡ true)
    × (m'.segment ≡ greatest 0 ns)
    × (m'.last_log_file ≡ latest none 0 ns)
    × ((k : ℕ) → find k m'.files ≡ (if contains k ns then some (file_of m k) else none))

Loads-HasLoaded :
    (ns : List ℕ) (m : LogManager) (r : LogManager × ℕ × Bool)
    → m.files ≡ []
    → m.last_log_file ≡ none
    → Loads 0 ns m r
    → HasLoaded ns m (if r.2 then (record r.0 { segment = r.1 }, true) else (r.0, false))
unfolding find
Loads-HasLoaded ns m (m', top, true) fresh first (parsed, best, current, found) = (
  refl,
  best,
  current ∙ ap (λ t. latest t 0 ns) first,
  λ k.
      subst
        (λ files. find k m'.files ≡ (if contains k ns then some (file_of m k) else find k files))
        fresh (found k),
)
Loads-HasLoaded ns m (m', top, false) fresh first (parsed, best, current, found) = cc

-- Where a directory has the files of some segments, all below 2^32, in any order and among any other
-- files whose names have no text between the prefix and the suffix of a binlog file, a manager that
-- has no files and no last file yet loads the files of those segments and no others: each number has
-- its file, the greatest is the current segment, and its file is the last one. If there is no such file, the
-- segment is 0 and there is no last file.
pub load_files_from_disk-base_name :
    {names : List Bytes} {ns : List ℕ}
    → Listing names ns
    → (m : LogManager) → m.files ≡ []
    → m.last_log_file ≡ none
    → HasLoaded ns m (load_files_from_disk (some names) m)
unfolding load_files_from_disk
load_files_from_disk-base_name {names} {ns} l m fresh first =
    Loads-HasLoaded ns m (load_names names 0 m) fresh first (load_names_lem l 0 m (inr refl))
