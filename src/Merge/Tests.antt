-- ===== src/Merge/Tests.antt =====
-- The merge's theorems at concrete inputs.
use vasto.Prelude.{◌≡◌, refl, List, [], ◌∷◌, Bytes, codes, take, All, Option, none, some}
use vasto.Merge.{bytes_less, limited_merge_sorted, merge_sorted}
use vasto.Merge.Order.{IsSorted}
use vasto.Merge.Start.{opened}
use vasto.Merge.ListHeap.{list_heap}
use vasto.Merge.Process.{IsMerged, process, limited_merge_sorted-take, merge_sorted-process}

-- A row is its key; one channel is nil and one has no rows.
abbrev key : Bytes → Bytes
key row = row

abbrev chans : List (Option (List Bytes))
chans =
    some (codes "a" ∷ codes "d" ∷ [])
    ∷ none
    ∷ some []
    ∷ some (codes "b" ∷ codes "c" ∷ codes "e" ∷ [])
    ∷ []

chans-IsSorted : All (IsSorted key) (opened chans)
unfolding opened bytes_less
chans-IsSorted =
    (((refl, tt), (tt, tt)), (tt, (tt, (((refl, (refl, tt)), ((refl, tt), (tt, tt))), tt))))

limited_merge_sorted-take_example :
    (out : List Bytes) × IsMerged key (list_heap key) chans out
    × (limited_merge_sorted key (list_heap key) chans 2 ≡ take 2 out)
limited_merge_sorted-take_example =
    limited_merge_sorted-take key (list_heap key) chans 2 chans-IsSorted

-- Writes the rows down.
abbrev write_down : Bytes → List Bytes → List Bytes × Option Bytes
write_down row written = (row ∷ written, none)

merge_sorted-process_example :
    (out : List Bytes) × IsMerged key (list_heap key) chans out
    × (merge_sorted key (list_heap key) write_down 0 chans [] ≡ process write_down 0 0 out [])
merge_sorted-process_example =
    merge_sorted-process key (list_heap key) write_down 0 chans [] chans-IsSorted
