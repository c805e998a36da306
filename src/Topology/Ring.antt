-- ===== src/Topology/Ring.antt =====
-- topology/cluster_shard_follow.go: which server holds which shard.
pub mod Placement
pub mod Replicas
use vasto.Prelude.{
  ℕ, zero, suc, ◌+◌, ◌-◌, min, List, [], ◌∷◌, Bool, true, false, ◌&&◌, ltb, leb, ◌==◌,
  if◌then◌else◌,
}

pub record ClusterShard : Type 0 where
  pub shard_id : ℕ
  pub server_id : ℕ

-- `serverId := selfShardId + i`, wrapped once.
unfoldable pub server_at : ℕ → ℕ → ℕ → ℕ
server_at size shard i = if leb size (shard + i) then shard + i - size else shard + i

-- `shardId := selfServerId - i`, wrapped once.
unfoldable pub shard_at : ℕ → ℕ → ℕ → ℕ
shard_at size server i = if ltb server i then server + size - i else server - i

-- The loops over `i`, with the rounds that are left: `i < replicationFactor && i < clusterSize`
-- holds for the first `min replicationFactor clusterSize` rounds.
pub peer_loop : ℕ → ℕ → ℕ → ℕ → ℕ → List ClusterShard
peer_loop self size shard zero i = []
peer_loop self size shard (suc n) i =
    let rest = peer_loop self size shard n (suc i) in
    if server_at size shard i == self
    then rest
    else record { shard_id = shard; server_id = server_at size shard i } ∷ rest

unfoldable pub partition_loop : ℕ → ℕ → ℕ → ℕ → List ClusterShard
partition_loop size shard zero i = []
partition_loop size shard (suc n) i =
    record { shard_id = shard; server_id = server_at size shard i }
    ∷ partition_loop size shard n (suc i)

unfoldable pub local_loop : ℕ → ℕ → ℕ → ℕ → List ClusterShard
local_loop size server zero i = []
local_loop size server (suc n) i =
    record { shard_id = shard_at size server i; server_id = server }
    ∷ local_loop size server n (suc i)

pub peer_shards : ℕ → ℕ → ℕ → ℕ → List ClusterShard
peer_shards server shard size replication =
    if leb size shard then [] else peer_loop server size shard (min replication size) 0

unfoldable pub partition_shards : ℕ → ℕ → ℕ → ℕ → List ClusterShard
partition_shards server shard size replication =
    if leb size shard then [] else partition_loop size shard (min replication size) 0

unfoldable pub local_shards : ℕ → ℕ → ℕ → List ClusterShard
local_shards server size replication =
    if leb size server then [] else local_loop size server (min replication size) 0

unfoldable pub has_shard_id : ℕ → List ClusterShard → Bool
has_shard_id shard [] = false
has_shard_id shard (s ∷ rest) = if shard == s.shard_id then true else has_shard_id shard rest

unfoldable pub is_shard_in_local : ℕ → ℕ → ℕ → ℕ → Bool
is_shard_in_local shard server size replication =
    has_shard_id shard (local_shards server size replication)

unfoldable pub shard_list_contains : List ClusterShard → ClusterShard → Bool
shard_list_contains [] t = false
shard_list_contains (s ∷ rest) t =
    if s.shard_id == t.shard_id && s.server_id == t.server_id
    then true
    else shard_list_contains rest t
