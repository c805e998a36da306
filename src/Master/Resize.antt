-- ===== src/Master/Resize.antt =====
-- adjustAndBroadcastUpcomingShardStatuses of cmd/master/master_server_for_admin_cluster_resize.go:
-- what the master does to a cluster after the stores have committed its new size. What the clients
-- are told is listed in its order. A shard info that is changed in place is changed in its group.
pub mod Adjusted
pub mod Kept
use vasto.Prelude.{
  ℕ, zero, suc, ◌+◌, ◌-◌, Bool, true, false, List, [], ◌∷◌, ◌++◌, map, Bytes, ◌==◌, if◌then◌else◌,
  Option, none, some,
}
use vasto.Pb.{StoreResource, ShardInfo, ClusterNode}
use vasto.Topology.Groups.{LogicalShardGroup}
use vasto.Topology.Ring.{is_shard_in_local}
use vasto.Topology.Cluster.{
  Layout, Cluster, set_shard, remove_shard, remove_store, get_node, remove_next_cluster,
}
use vasto.Master.Stores.{Notification, node_of, notify_update, notify_deletion}

abbrev pub notify_promotion : ShardInfo → StoreResource → Notification
notify_promotion info store = record (notify_update info store) { is_promotion = true }

pub data Told : Type 0 where
  update : Notification → Told
  resize : Bytes → ℕ → ℕ → Told

unfoldable pub all_nodes : List LogicalShardGroup → List ClusterNode
all_nodes [] = []
all_nodes (g ∷ groups) = g ++ all_nodes groups

abbrev pub promoted : ShardInfo → ShardInfo
promoted info = record info { is_candidate = false }

-- The nodes of the next cluster, one by one.
unfoldable pub promote_nodes : List ClusterNode → Layout → Layout × List Told
promote_nodes [] c = (c, [])
promote_nodes (node ∷ nodes) c =
    let info = promoted node.shard_info in
    let (c', told) = promote_nodes nodes (set_shard c node.store_resource info).0 in
    (c', update (notify_promotion info node.store_resource) ∷ told)

unfoldable pub promote : Cluster → Cluster × List Told
promote c = elim c.next_cluster [
  | none ↦ (remove_next_cluster c, [])
  | some next ↦
      let (layout, told) = promote_nodes (all_nodes next.logical_shards) c.layout in
      (remove_next_cluster (record c { layout = layout }), told)
]

module _ (new_cluster_size replication_factor : ℕ) where
  unfoldable pub stays : ClusterNode → Bool
  stays node =
      is_shard_in_local node.shard_info.shard_id node.shard_info.server_id new_cluster_size
        replication_factor

  unfoldable pub adjust_node : ClusterNode → ClusterNode
  adjust_node node =
      if stays node
      then (record node { shard_info = record node.shard_info { cluster_size = new_cluster_size } })
      else node

  -- Only a change is told.
  unfoldable pub adjust_told : List ClusterNode → List Told
  adjust_told [] = []
  adjust_told (node ∷ nodes) =
      let rest = adjust_told nodes in
      if stays node
      then (if node.shard_info.cluster_size == new_cluster_size
          then rest
          else update (notify_update (adjust_node node).shard_info node.store_resource) ∷ rest)
      else rest

  unfoldable pub to_be_removed : List ClusterNode → List ClusterNode
  to_be_removed [] = []
  to_be_removed (node ∷ nodes) =
      let rest = to_be_removed nodes in if stays node then rest else node ∷ rest

  unfoldable pub adjust_layout : Layout → Layout
  adjust_layout c = record c { logical_shards = map (map adjust_node) c.logical_shards }

abbrev pub deleted : ShardInfo → ShardInfo
deleted info = record info { is_permanent_delete = true }

unfoldable pub remove_nodes : List ClusterNode → Cluster → Cluster × List Told
remove_nodes [] c = (c, [])
remove_nodes (node ∷ nodes) c =
    let (c', told) = remove_nodes nodes (remove_shard c node.store_resource node.shard_info).0 in
    (c', update (notify_deletion (deleted node.shard_info) node.store_resource) ∷ told)

-- The rounds that are left of the loop over the retired sizes from `i` on.
unfoldable pub remove_stores : ℕ → ℕ → Layout → Layout × List Told
remove_stores zero i c = (c, [])
remove_stores (suc n) i c = elim (get_node c i 0) [
  | none ↦ remove_stores n (suc i) c
  | some node ↦
      let (left, infos) = remove_store c node.store_resource in
      let (c', told) = remove_stores n (suc i) left in
      (c', map (λ info. update (notify_deletion (deleted info) node.store_resource)) infos ++ told)
]

unfoldable pub adjust_and_broadcast : Bytes → ℕ → Cluster → Cluster × List Told
adjust_and_broadcast keyspace new_cluster_size c =
    let old_cluster_size = c.layout.expected_size in
    let replication_factor = c.layout.replication_factor in
    let (promoted_cluster, told_promotions) = promote c in
    let nodes = all_nodes promoted_cluster.layout.logical_shards in
    let adjusted = record promoted_cluster {
      layout = adjust_layout new_cluster_size replication_factor promoted_cluster.layout;
    } in
    let (kept, told_deletions) =
      remove_nodes (to_be_removed new_cluster_size replication_factor nodes) adjusted in
    let (layout, told_stores) =
      remove_stores (old_cluster_size - new_cluster_size) new_cluster_size kept.layout in
    (
      record kept { layout = layout },
      told_promotions
          ++ (adjust_told new_cluster_size replication_factor nodes
              ++ (resize keyspace old_cluster_size new_cluster_size
                  ∷ (told_deletions ++ told_stores))),
    )
