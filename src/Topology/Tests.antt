-- ===== src/Topology/Tests.antt =====
-- Runs of the topology's operations, and its theorems at concrete inputs.
use native.Mathlib.Omega.{arith}
use vasto.Prelude.{
  zero, suc, Bytes, bytes_eq, ℕ, ◌≡◌, ◌≢◌, not, ◌≤◌, ◌⊎◌, inl, refl, true, false, ◌&&◌, [], ◌∷◌,
  ◌==◌, if◌then◌else◌, codes, none, some,
}
use vasto.Pb.{StoreResource, ready, ShardInfo, ClusterNode}
use vasto.Topology.Jump.{capped}
use vasto.Topology.Ring.{
  partition_shards, partition_loop, server_at, shard_at, local_shards, local_loop, has_shard_id,
  is_shard_in_local, shard_list_contains,
}
use vasto.Topology.Ring.Placement.{partition_shards-local}
use vasto.Topology.Bootstrap.{
  BootstrapRequest, bootstrap_plan_with_topo_change, local_before, local_after,
}
use vasto.Topology.Bootstrap.Coverage.{
  growing_plan_covers, shrinking_plan_covers, IsCopied, primary, old_shard,
}
use vasto.Topology.Groups.{group_at, in_group}
use vasto.Topology.Groups.Laws.{IsOfShard, IsDistinct as IsDistinctGroup}
use vasto.Topology.Groups.Updates.{same_address}
use vasto.Topology.Cluster.{Layout, Cluster, set_shard, remove_shard, remove_store}
use vasto.Topology.Cluster.Valid.{IsValid}
use vasto.Topology.Cluster.SetShard.{set_shard-IsValid, lookup-set_shard, lookup}
use vasto.Topology.Cluster.Removal.{IsUnused}
use vasto.Topology.Cluster.RemoveShard.{lookup-remove_shard}
use vasto.Topology.Cluster.RemoveStore.{lookup-remove_store}

partition_shards_run : partition_shards 4 3 5 3 ≡ (
    record { shard_id = 3; server_id = 3 }
    ∷ record { shard_id = 3; server_id = 4 }
    ∷ record { shard_id = 3; server_id = 0 }
    ∷ [])
unfolding partition_shards partition_loop server_at
partition_shards_run = refl

partition_shards-local_example :
    shard_list_contains (partition_shards 2 2 3 2) (record { shard_id = 2; server_id = 0 })
    ≡ is_shard_in_local 2 0 3 2
partition_shards-local_example = partition_shards-local 2 2 0 3 2

-- A cluster of two grows to three: the new server 2 takes shard 2.
abbrev growing : BootstrapRequest
growing = record {
  server_id = 2;
  shard_id = 2;
  from_cluster_size = 2;
  to_cluster_size = 3;
  replication_factor = 1;
}

growing_after : local_after growing ≡ true
unfolding is_shard_in_local local_shards local_loop shard_at has_shard_id
growing_after = refl

growing_plan_covers_example :
    ((local_before growing ≡ true) × (old_shard capped growing 7 ≡ 2))
    ⊎ IsCopied (bootstrap_plan_with_topo_change growing) 1
growing_plan_covers_example =
    growing_plan_covers capped growing 7 (omega arith) (omega arith) growing_after refl

-- A cluster of three shrinks to two: server 1 gets the keys of shard 2.
abbrev shrinking : BootstrapRequest
shrinking = record {
  server_id = 1;
  shard_id = 1;
  from_cluster_size = 3;
  to_cluster_size = 2;
  replication_factor = 1;
}

shrinking_after : local_after shrinking ≡ true
unfolding is_shard_in_local local_shards local_loop shard_at has_shard_id
shrinking_after = refl

shrinking_plan_covers_example :
    ((local_before shrinking ≡ true) × (old_shard capped shrinking 7 ≡ 1))
    ⊎ ((local_before shrinking ≡ not (old_shard capped shrinking 7 == 1))
        × IsCopied (bootstrap_plan_with_topo_change shrinking) 2)
    ⊎ ((local_before shrinking ≡ false)
        × (old_shard capped shrinking 7 ≢ 1)
        × (2 ≤ old_shard capped shrinking 7)
        × ((server : ℕ)
            → shard_list_contains
                (bootstrap_plan_with_topo_change shrinking).bootstrap_source
                (record { shard_id = 2; server_id = server })
              ≡ false)
        × (shard_list_contains
              (bootstrap_plan_with_topo_change shrinking).transitional_follow_source
              (primary 2)
            ≡ true))
shrinking_plan_covers_example =
    shrinking_plan_covers capped shrinking 7 (omega arith) (omega arith) shrinking_after refl

abbrev store_at : Bytes → StoreResource
store_at address = record {
  network = codes "tcp";
  address = address;
  admin_address = address;
  tags = [];
  disk_size_gb = 10;
  allocated_size_gb = 1;
}

abbrev shard_on : ℕ → ℕ → ShardInfo
shard_on server shard = record {
  keyspace_name = codes "ks";
  server_id = server;
  shard_id = shard;
  cluster_size = 2;
  replication_factor = 2;
  status = ready;
  is_candidate = false;
  is_permanent_delete = false;
}

abbrev pub node_on : Bytes → ℕ → ℕ → ClusterNode
node_on address server shard = record {
  store_resource = store_at address;
  shard_info = shard_on server shard;
}

-- Two stores with two shards: shard 0 on both, shard 1 on the second.
abbrev pub two_stores : Layout
two_stores = record {
  keyspace = codes "ks";
  data_center = [];
  logical_shards =
      (node_on (codes "a") 0 0 ∷ node_on (codes "b") 1 0 ∷ [])
      ∷ (node_on (codes "b") 1 1 ∷ [])
      ∷ [];
  expected_size = 2;
  replication_factor = 2;
}

placed : (i : ℕ) → IsOfShard i (group_at two_stores.logical_shards i)
placed zero = (refl, (refl, tt))
placed (suc zero) = (refl, tt)
placed (suc (suc i)) = tt

distinct : (i : ℕ) → IsDistinctGroup (group_at two_stores.logical_shards i)
unfolding in_group bytes_eq
distinct zero = (refl, (refl, tt))
distinct (suc zero) = (refl, tt)
distinct (suc (suc i)) = tt

pub valid : IsValid two_stores
valid = record { placed = placed; distinct = distinct }

abbrev pub cluster : Cluster
cluster = record { layout = two_stores; next_cluster = none }

set_shard-IsValid_example : IsValid (set_shard two_stores (store_at (codes "a")) (shard_on 0 1)).0
set_shard-IsValid_example = set_shard-IsValid two_stores (store_at (codes "a")) (shard_on 0 1) valid

lookup-set_shard_example :
    (lookup (set_shard two_stores (store_at (codes "a")) (shard_on 0 1)).0 1 (store_at (codes "b"))
      ≡ (if 1 == 1 && same_address (store_at (codes "b")) (store_at (codes "a"))
          then some (shard_on 0 1)
          else lookup two_stores 1 (store_at (codes "b"))))
    × ((set_shard two_stores (store_at (codes "a")) (shard_on 0 1)).1
        ≡ lookup two_stores 1 (store_at (codes "a")))
lookup-set_shard_example =
    lookup-set_shard two_stores (store_at (codes "a")) (shard_on 0 1) valid 1 (store_at (codes "b"))
      (inl refl)

lookup-remove_shard_example :
    (lookup
        (remove_shard cluster (store_at (codes "b")) (shard_on 1 0)).0.layout
        0
        (store_at (codes "a"))
      ≡ (if 0 == 0 && same_address (store_at (codes "a")) (store_at (codes "b"))
          then none
          else lookup two_stores 0 (store_at (codes "a"))))
    × ((remove_shard cluster (store_at (codes "b")) (shard_on 1 0)).0.next_cluster ≡ none)
lookup-remove_shard_example =
    lookup-remove_shard cluster (store_at (codes "b")) (shard_on 1 0) valid 0 (store_at (codes "a"))

lookup-remove_store_example :
    IsValid (remove_store two_stores (store_at (codes "b"))).0
    × IsUnused
        (store_at (codes "b"))
        (remove_store two_stores (store_at (codes "b"))).0.logical_shards
    × ((i : ℕ) (other : StoreResource)
        → lookup (remove_store two_stores (store_at (codes "b"))).0 i other
          ≡ (if same_address other (store_at (codes "b")) then none else lookup two_stores i other))
lookup-remove_store_example = lookup-remove_store two_stores (store_at (codes "b")) valid
