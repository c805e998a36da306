-- ===== src/Topology/Bootstrap.antt =====
-- topology/cluster_shard_bootstrap.go: what a shard copies and follows when the cluster changes.
pub mod Coverage
use vasto.Prelude.{
  ℕ, zero, suc, ◌+◌, ◌-◌, List, [], ◌∷◌, Bool, true, false, not, ltb, leb, ◌==◌, if◌then◌else◌,
}
use vasto.Topology.Ring.{ClusterShard, partition_shards, is_shard_in_local}

pub record BootstrapRequest : Type 0 where
  pub server_id : ℕ
  pub shard_id : ℕ
  pub from_cluster_size : ℕ
  pub to_cluster_size : ℕ
  pub replication_factor : ℕ

pub record BootstrapPlan : Type 0 where
  pub bootstrap_source : List ClusterShard
  pub pick_best_bootstrap_source : Bool
  pub transitional_follow_source : List ClusterShard
  pub from_cluster_size : ℕ
  pub to_cluster_size : ℕ

-- `for i := lo; i < lo + n; i++` appends the primary copy of shard `i`.
pub primaries : ℕ → ℕ → List ClusterShard
primaries zero lo = []
primaries (suc n) lo = record { shard_id = lo; server_id = lo } ∷ primaries n (suc lo)

module _ (req : BootstrapRequest) where
  open req use {server_id, shard_id, from_cluster_size, to_cluster_size, replication_factor}

  abbrev empty_plan : BootstrapPlan
  empty_plan = record {
    bootstrap_source = [];
    pick_best_bootstrap_source = false;
    transitional_follow_source = [];
    from_cluster_size = from_cluster_size;
    to_cluster_size = to_cluster_size;
  }

  abbrev pub local_before : Bool
  local_before = is_shard_in_local shard_id server_id from_cluster_size replication_factor

  abbrev pub local_after : Bool
  local_after = is_shard_in_local shard_id server_id to_cluster_size replication_factor

  -- `req.FromClusterSize == req.ToClusterSize`
  unfoldable pub replace_plan : BootstrapPlan
  replace_plan = record empty_plan {
    bootstrap_source = partition_shards server_id shard_id to_cluster_size replication_factor;
    pick_best_bootstrap_source = true;
    transitional_follow_source = record { shard_id = shard_id; server_id = server_id } ∷ [];
  }

  unfoldable pub growing_plan : BootstrapPlan
  growing_plan =
      if leb from_cluster_size shard_id
      then (record empty_plan {
        bootstrap_source = primaries from_cluster_size 0;
        transitional_follow_source = primaries from_cluster_size 0;
      })
      else if local_after
      then (if local_before then empty_plan else (record empty_plan {
        bootstrap_source = partition_shards server_id shard_id from_cluster_size replication_factor;
        pick_best_bootstrap_source = true;
      }))
      else empty_plan

  unfoldable pub shrinking_plan : BootstrapPlan
  shrinking_plan =
      if leb to_cluster_size server_id
      then empty_plan
      else if leb to_cluster_size shard_id
      then empty_plan
      else if local_after
      then (if not local_before
          then (record empty_plan {
            bootstrap_source =
                partition_shards server_id shard_id from_cluster_size replication_factor;
            pick_best_bootstrap_source = true;
            transitional_follow_source =
                primaries (from_cluster_size - to_cluster_size) to_cluster_size;
          })
          else (record empty_plan {
            bootstrap_source = primaries (from_cluster_size - to_cluster_size) to_cluster_size;
            transitional_follow_source =
                primaries (from_cluster_size - to_cluster_size) to_cluster_size;
          }))
      else empty_plan

  pub bootstrap_plan_with_topo_change : BootstrapPlan
  unfolding replace_plan growing_plan shrinking_plan
  bootstrap_plan_with_topo_change =
      if from_cluster_size == to_cluster_size
      then replace_plan
      else if ltb from_cluster_size to_cluster_size
      then growing_plan
      else shrinking_plan
