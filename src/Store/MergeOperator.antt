-- ===== src/Store/MergeOperator.antt =====
-- cmd/store/shard_merge_operator.go: what RocksDB calls to merge the operands of a key.
pub mod Laws
pub mod Max
pub mod Partial
use vasto.Prelude.{
  Bool, true, false, List, [], ◌∷◌, Bytes, if◌then◌else◌, Option, none, some, Run, ok, panic, ◌>>=◌,
}
use vasto.Util.Floats.{Float64}
use vasto.Codec.{Entry}
use vasto.Codec.Merge.{merge_with, merge_entry, merge, entry_to_bytes}

module _ (floats : Float64) where
  abbrev finish : Option Entry → Run (Option Bytes × Bool)
  finish entry = do b ← entry_to_bytes entry; ok (some b, true)

  -- The rounds after the first. The result is nil when an operand is not merged.
  full_merge_loop : Option Entry → List Bytes → Run (Option Bytes × Bool)
  full_merge_loop entry [] = finish entry
  full_merge_loop entry (operand ∷ rest) = do
    (entry', merged) ← merge_with floats entry (some operand)
    let more = full_merge_loop entry' rest
    if merged then more else ok (none, false)

  pub full_merge : Option Bytes → List Bytes → Run (Option Bytes × Bool)
  unfolding full_merge_loop
  full_merge existing [] = finish none
  full_merge existing (operand ∷ rest) = do
    (entry, merged) ← merge_entry floats existing (some operand)
    if merged then full_merge_loop entry rest else ok (none, false)

  pub partial_merge : Bytes → Bytes → Run (Bytes × Bool)
  partial_merge left right = merge floats (some left) (some right)
