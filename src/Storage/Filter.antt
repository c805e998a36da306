-- ===== src/Storage/Filter.antt =====
-- storage/rocks/rocksdb_shard.go: which rows a compaction purges. The jump hash is a parameter, and
-- `now` is time.Now().Unix().
pub mod Safety
use vasto.Prelude.{
  ℕ, ◌+◌, ◌/◌, ◌%◌, ◌^◌, Bool, true, false, not, ◌&&◌, Bytes, ltb, ◌==◌, if◌then◌else◌, none, some,
}
use vasto.Codec.{Entry, from_bytes}
use vasto.Topology.Jump.{JumpHash}

pub record ShardingCompactionFilter : Type 0 where
  pub shard_id : ℕ
  pub shard_count : ℕ
  pub is_resizing : Bool

unfoldable pub set_compaction_for_shard :
    ℕ → ℕ → ShardingCompactionFilter → ShardingCompactionFilter
set_compaction_for_shard shard_id shard_count m = record m {
  shard_id = shard_id;
  shard_count = shard_count;
}

unfoldable pub prepare_for_cluster_resize : ShardingCompactionFilter → ShardingCompactionFilter
prepare_for_cluster_resize m = record m { is_resizing = true }

unfoldable pub complete_cluster_resize : ShardingCompactionFilter → ShardingCompactionFilter
complete_cluster_resize m = record m { is_resizing = false }

-- The time is in milliseconds on the one side and in seconds on the other.
unfoldable pub is_purged_late : ℕ → Entry → Bool
is_purged_late now e =
    if e.ttl_second == 0
    then false
    else ltb ((e.updated_at_ns / 1_000_000 + e.ttl_second) % 2 ^ 64) now

module _ (jump : JumpHash) where
  unfoldable pub is_purged : ShardingCompactionFilter → ℕ → Entry → Bool
  unfolding is_purged_late
  is_purged m now e =
      if not m.is_resizing && not (m.shard_id == jump.hash e.partition_hash m.shard_count)
      then true
      else is_purged_late now e

  -- The first result of Filter; the second is always nil.
  unfoldable pub filter : ShardingCompactionFilter → ℕ → Bytes → Bool
  unfolding is_purged
  filter m now value = elim (from_bytes value) [ none ↦ false | some e ↦ is_purged m now e ]
