-- ===== src/Topology/Listener.antt =====
-- topology/clusterlistener: the clusters that a client or a store follows. A cluster is a shared
-- object: a change of it shows in the map that holds it. A connection pool is a parameter; the open
-- pools are the addresses that the map has.
pub mod Laws
pub mod Messages
pub mod Invariant
use vasto.Prelude.{
  ℕ, ◌+◌, Bool, true, false, not, ◌&&◌, List, [], ◌∷◌, Bytes, bytes_eq, ltb, leb, ◌==◌,
  if◌then◌else◌, Option, none, some,
}
use vasto.Pb.{StoreResource, ShardInfo, ClusterNode}
use vasto.Topology.Cluster.{
  Layout, Cluster, set_shard, replace_shard, remove_shard, current_size, set_expected_size,
  set_replication_factor, set_next_cluster, remove_next_cluster, new_cluster, get_node,
  find_shard_id,
}

-- The cluster that stands for the next one, which has no next cluster.
abbrev pub alone : Layout → Cluster
alone layout = record { layout = layout; next_cluster = none }

-- A candidate goes to the next cluster, which is made if there is none.
unfoldable pub ensure_next : ShardInfo → Cluster → Cluster
ensure_next info c = elim c.next_cluster [
  | none ↦ set_next_cluster info.cluster_size info.replication_factor c
  | some _ ↦ c
]

-- What the node is done to: the layout of the cluster, or of its next one.
unfoldable pub next_layout : Cluster → Layout
next_layout c = elim c.next_cluster [ none ↦ c.layout | some next ↦ next ]

-- The Boolean is `n.ShardInfo.IsCandidate`.
unfoldable pub add_to : Bool → Cluster → ClusterNode → Cluster × Option ShardInfo
add_to true c n =
    let ready = ensure_next n.shard_info c in
    let (next, old) = set_shard (next_layout ready) n.store_resource n.shard_info in
    (record ready { next_cluster = some next }, old)
add_to false c n =
    let (layout, old) = set_shard c.layout n.store_resource n.shard_info in
    (record c { layout = layout }, old)

unfoldable pub add_node : Cluster → ClusterNode → Cluster × Option ShardInfo
unfolding add_to
add_node c n = add_to n.shard_info.is_candidate c n

-- The Boolean of the result is `isStoreDeleted`, on which the pool of the store is closed.
unfoldable pub remove_from : Bool → Cluster → ClusterNode → Cluster × Bool
remove_from true c n =
    let ready = ensure_next n.shard_info c in
    let (next, deleted) = remove_shard (alone (next_layout ready)) n.store_resource n.shard_info in
    (record ready { next_cluster = some next.layout }, deleted)
remove_from false c n = remove_shard c n.store_resource n.shard_info

unfoldable pub remove_node : Cluster → ClusterNode → Cluster × Bool
unfolding remove_from
remove_node c n = remove_from n.shard_info.is_candidate c n

-- The node leaves the next cluster, and replaces the node of its identifier in the cluster.
unfoldable pub promote_node : Cluster → ClusterNode → Cluster
promote_node c n = elim c.next_cluster [
  | none ↦ c
  | some next ↦
      let left = (remove_shard (alone next) n.store_resource n.shard_info).0.layout in
      let trimmed = if current_size left == 0 then none else some left in
      let (layout, replaced) = replace_shard c.layout n.store_resource n.shard_info in
      record {
        layout = if replaced then layout else (set_shard layout n.store_resource n.shard_info).0;
        next_cluster = trimmed;
      }
]

abbrev pub Clusters : Type 0
Clusters = List (Bytes × Cluster)

unfoldable pub get_cluster : Bytes → Clusters → Option Cluster
get_cluster keyspace [] = none
get_cluster keyspace (entry ∷ rest) =
    if bytes_eq entry.0 keyspace then some entry.1 else get_cluster keyspace rest

unfoldable pub put_cluster : Bytes → Cluster → Clusters → Clusters
put_cluster keyspace c [] = (keyspace, c) ∷ []
put_cluster keyspace c (entry ∷ rest) =
    if bytes_eq entry.0 keyspace then (keyspace, c) ∷ rest else entry ∷ put_cluster keyspace c rest

unfoldable pub add_existing_keyspace : Bytes → ℕ → ℕ → Clusters → Clusters
add_existing_keyspace keyspace size replication m =
    put_cluster keyspace (new_cluster keyspace size replication) m

-- Sizes that are not zero are taken over.
unfoldable pub resized : ℕ → ℕ → Cluster → Cluster
resized size replication c =
    let sized = if ltb 0 size then set_expected_size size c.layout else c.layout in
    record c {
      layout = if ltb 0 replication then set_replication_factor replication sized else sized;
    }

-- The cluster of the keyspace, made if there is none, with the sizes that are given.
unfoldable pub get_or_set_cluster : Bytes → ℕ → ℕ → Clusters → Clusters × Cluster
get_or_set_cluster keyspace size replication m =
    let found : Cluster = elim (get_cluster keyspace m) [
      | none ↦ new_cluster keyspace size replication
      | some c ↦ c
    ] in
    let c = resized size replication found in (put_cluster keyspace c m, c)

unfoldable pub has_connected_keyspace : Bytes → Clusters → Bool
has_connected_keyspace keyspace m = elim (get_cluster keyspace m) [
  | none ↦ false
  | some c ↦
      if leb (current_size c.layout) 0
      then false
      else if not (current_size c.layout == c.layout.expected_size)
      then false
      else true
]
