-- ===== src/Topology/Cluster.antt =====
-- topology/cluster.go: the shards of one cluster and the stores that hold them.
pub mod Valid
pub mod Size
pub mod Removal
pub mod RemoveShard
pub mod RemoveStore
pub mod SetShard
use vasto.Prelude.{
  ℕ, zero, suc, ◌+◌, ◌-◌, Bool, true, false, not, ◌&&◌, List, [], ◌∷◌, ◌++◌, map, Bytes, bytes_eq,
  length, get_or, set, take, replicate, ltb, leb, ◌==◌, if◌then◌else◌, Option, none, some,
  get_elem?,
}
use vasto.Prelude.{
  ℕ, zero, suc, ◌+◌, ◌-◌, Bool, true, false, not, ◌&&◌, List, [], ◌∷◌, ◌++◌, map, Bytes, length,
  get_elem?, set, take, replicate, ltb, leb, ◌==◌, if◌then◌else◌, Option, none, some,
}
use vasto.Pb.{StoreResource, ShardInfo, ClusterNode}
use vasto.Topology.Jump.{JumpHash}
use vasto.Topology.Groups.{
  LogicalShardGroup, group_at, sorted_shards, find_info, update_info, replace_node, remove_node,
  in_groups, keep_others, infos_on_groups,
}

-- The fields of Cluster but for `nextCluster`.
pub record Layout : Type 0 where
  pub keyspace : Bytes
  pub data_center : Bytes
  pub logical_shards : List LogicalShardGroup
  pub expected_size : ℕ
  pub replication_factor : ℕ

-- A next cluster never gets a next cluster of its own.
pub record Cluster : Type 0 where
  pub layout : Layout
  pub next_cluster : Option Layout

-- `make` of the longer slice and `copy` of the old one.
unfoldable pub grow_to : ℕ → List LogicalShardGroup → List LogicalShardGroup
grow_to n shards =
    if ltb (length shards) n then shards ++ replicate (n - length shards) [] else shards

unfoldable pub set_expected_size : ℕ → Layout → Layout
set_expected_size n c =
    if ltb 0 n
    then (record c {
      expected_size = n;
      logical_shards =
          if length c.logical_shards == 0
          then replicate n []
          else if ltb n (length c.logical_shards)
          then take n c.logical_shards
          else c.logical_shards;
    })
    else c

unfoldable pub set_replication_factor : ℕ → Layout → Layout
set_replication_factor n c = if ltb 0 n then (record c { replication_factor = n }) else c

-- The sizes that a new shard reports.
unfoldable pub adopt_sizes : ShardInfo → Layout → Layout
unfolding set_expected_size set_replication_factor
adopt_sizes info c =
    let sized =
      if c.expected_size == info.cluster_size then c else set_expected_size info.cluster_size c in
    if sized.replication_factor == info.replication_factor
    then sized
    else set_replication_factor info.replication_factor sized

unfoldable pub set_shard : Layout → StoreResource → ShardInfo → Layout × Option ShardInfo
unfolding grow_to find_info update_info sorted_shards adopt_sizes
set_shard c store info =
    let shards = grow_to (info.shard_id + 1) c.logical_shards in
    let group = group_at shards info.shard_id in
    elim (find_info store info.shard_id group) [
      | some old ↦ (
        record c { logical_shards = set shards info.shard_id (update_info store info group) },
        some old,
      )
      | none ↦
          let node : ClusterNode = record { store_resource = store; shard_info = info } in
          let sorted = sorted_shards (group ++ (node ∷ [])) (length shards) in
          (adopt_sizes info (record c { logical_shards = set shards info.shard_id sorted }), none)
    ]

unfoldable pub replace_shard : Layout → StoreResource → ShardInfo → Layout × Bool
unfolding grow_to replace_node
replace_shard c store info =
    let shards = grow_to (info.shard_id + 1) c.logical_shards in
    elim (replace_node store info (group_at shards info.shard_id)) [
      | some group ↦ (record c { logical_shards = set shards info.shard_id group }, true)
      | none ↦ (record c { logical_shards = shards }, false)
    ]

-- `for i := len; i > 0; i--`, down to the first group that is not empty.
unfoldable pub size_loop : List LogicalShardGroup → ℕ → ℕ
size_loop shards zero = 0
size_loop shards (suc i) =
    let less = size_loop shards i in if length (group_at shards i) == 0 then less else suc i

unfoldable pub current_size : Layout → ℕ
unfolding size_loop
current_size c = size_loop c.logical_shards (length c.logical_shards)

-- The receiver may be a nil pointer.
unfoldable pub is_store_in_use : Option Layout → StoreResource → Bool
unfolding in_groups
is_store_in_use none store = false
is_store_in_use (some c) store = in_groups store c.logical_shards

-- The layout after the shard is taken out.
unfoldable pub drop_shard : Layout → StoreResource → ShardInfo → Layout
unfolding remove_node sorted_shards
drop_shard c store info =
    elim (remove_node store info.shard_id (group_at c.logical_shards info.shard_id)) [
      | some group ↦ record c {
        logical_shards =
            set c.logical_shards info.shard_id (sorted_shards group (length c.logical_shards));
      }
      | none ↦ c
    ]

-- A cluster with no shards gets size 0.
unfoldable pub reset_if_empty : Layout → Layout
unfolding current_size
reset_if_empty c =
    if current_size c == 0 then (record c { expected_size = 0; logical_shards = [] }) else c

unfoldable pub remove_shard : Cluster → StoreResource → ShardInfo → Cluster × Bool
unfolding drop_shard reset_if_empty is_store_in_use
remove_shard c store info =
    if leb (length c.layout.logical_shards) info.shard_id
    then (c, false)
    else (let layout = reset_if_empty (drop_shard c.layout store info) in
        (
          record c { layout = layout },
          if in_groups store layout.logical_shards
              then false
              else not (is_store_in_use (some layout) store)
                && not (is_store_in_use c.next_cluster store),
        ))

unfoldable pub remove_store : Layout → StoreResource → Layout × List ShardInfo
unfolding keep_others infos_on_groups sorted_shards
remove_store c store = (
  record c {
    logical_shards =
        map (λ g. sorted_shards (keep_others store g) (length c.logical_shards)) c.logical_shards;
  },
  infos_on_groups store c.logical_shards,
)

unfoldable pub get_node : Layout → ℕ → ℕ → Option ClusterNode
get_node c shard replica = get_elem? (group_at c.logical_shards shard) replica

pub find_shard_id : JumpHash → Layout → ℕ → ℕ
find_shard_id jump c key_hash = jump.hash key_hash c.expected_size

unfoldable pub new_layout : Bytes → ℕ → ℕ → Layout
new_layout keyspace expected_size replication_factor = record {
  keyspace = keyspace;
  data_center = [];
  logical_shards = replicate expected_size [];
  expected_size = expected_size;
  replication_factor = replication_factor;
}

unfoldable pub new_cluster : Bytes → ℕ → ℕ → Cluster
unfolding new_layout
new_cluster keyspace expected_size replication_factor = record {
  layout = new_layout keyspace expected_size replication_factor;
  next_cluster = none;
}

unfoldable pub set_next_cluster : ℕ → ℕ → Cluster → Cluster
unfolding new_layout
set_next_cluster expected_size replication_factor c = record c {
  next_cluster = some (new_layout c.layout.keyspace expected_size replication_factor);
}

unfoldable pub remove_next_cluster : Cluster → Cluster
remove_next_cluster c = record c { next_cluster = none }
