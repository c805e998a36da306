-- ===== src/Topology/Ring/Replicas.antt =====
-- How many replicas a partition has.
use vasto.Prelude.{ℕ, zero, suc, ◌+◌, ◌≤◌, ◌<◌, min, ◌≡◌, refl, List, [], ◌∷◌, false, length, arith}
use vasto.Topology.Ring.{
  ClusterShard, server_at, partition_loop, partition_shards, shard_list_contains,
}
use vasto.Topology.Ring.Placement.{contains-partition_loop, distance-server_at}

-- No entry is listed twice.
abbrev pub IsDistinct : List ClusterShard → Type 0
IsDistinct [] = Unit
IsDistinct (s ∷ rest) = (shard_list_contains rest s ≡ false) × IsDistinct rest

length-partition_loop : (size shard n i : ℕ) → length (partition_loop size shard n i) ≡ n
unfolding partition_loop
length-partition_loop size shard zero i = refl
length-partition_loop size shard (suc n) i =
    omega (arith, length-partition_loop size shard n (suc i))

partition_loop-IsDistinct :
    (size shard n i : ℕ) → shard < size → i + n ≤ size → IsDistinct (partition_loop size shard n i)
unfolding partition_loop
partition_loop-IsDistinct size shard zero i hs h = tt
partition_loop-IsDistinct size shard (suc n) i hs h = (
  ground (
    arith,
    contains-partition_loop size shard (server_at size shard i) n (suc i),
    distance-server_at size shard i,
  ),
  partition_loop-IsDistinct size shard n (suc i) hs (omega arith),
)

-- A shard of the cluster has min(replicationFactor, clusterSize) replicas, on distinct servers.
pub partition_shards_replicas :
    (self shard size replication : ℕ)
    → shard < size
    → (length (partition_shards self shard size replication) ≡ min replication size)
      × IsDistinct (partition_shards self shard size replication)
unfolding partition_shards
partition_shards_replicas self shard size replication h = ground (
  arith,
  length-partition_loop size shard (min replication size) 0,
  partition_loop-IsDistinct size shard (min replication size) 0,
)
