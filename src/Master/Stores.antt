-- ===== src/Master/Stores.antt =====
-- cmd/master/master_grpc_server_for_store.go: the shards that a store reports while it is connected.
-- What the clients are told is the list of notifications.
pub mod Clusters
pub mod Disconnect
use vasto.Prelude.{
  ℕ, Bool, true, false, List, [], ◌∷◌, ◌++◌, Bytes, if◌then◌else◌, Option, none, some,
}
use vasto.Prelude.Maps.{find, assign, erase}
use vasto.Pb.{StoreResource, ShardInfo, ClusterNode, is_deleted}
use vasto.Pb.Identifier.{identifier_on_this_server}
use vasto.Topology.Cluster.{Layout, Cluster}
use vasto.Topology.Listener.{add_node, remove_node}
use vasto.Master.Topology.{Keyspaces, get_or_create_keyspace, get_or_create_cluster}

pub record Notification : Type 0 where
  pub keyspace : Bytes
  pub node : ClusterNode
  pub is_delete : Bool
  pub is_promotion : Bool

abbrev pub node_of : ShardInfo → StoreResource → ClusterNode
node_of info store = record { store_resource = store; shard_info = info }

abbrev pub notify_update : ShardInfo → StoreResource → Notification
notify_update info store = record {
  keyspace = info.keyspace_name;
  node = node_of info store;
  is_delete = false;
  is_promotion = false;
}

abbrev pub notify_deletion : ShardInfo → StoreResource → Notification
notify_deletion info store = record {
  keyspace = info.keyspace_name;
  node = node_of info store;
  is_delete = true;
  is_promotion = false;
}

-- The shards of one connection, by their identifiers.
abbrev pub Seen : Type 0
Seen = List (Bytes × ShardInfo)

unfoldable pub process_shard_info :
    Keyspaces → Seen → StoreResource → ShardInfo → Keyspaces × Seen × Notification
process_shard_info m seen store info =
    let (m', k) = get_or_create_keyspace info.keyspace_name m in
    let c = get_or_create_cluster info.keyspace_name k info.cluster_size info.replication_factor in
    if is_deleted info.status
    then (
      assign info.keyspace_name (some (remove_node c (node_of info store)).0) m',
      erase (identifier_on_this_server info) seen,
      notify_deletion info store,
    )
    else (
      assign info.keyspace_name (some (add_node c (node_of info store)).0) m',
      assign (identifier_on_this_server info) info seen,
      notify_update info store,
    )

-- A candidate of a cluster without a next cluster is passed over.
unfoldable pub unless_skipped {ℓ} : {A : Type ℓ} → Bool → Option Layout → A → A → A
unless_skipped true none kept gone = kept
unless_skipped true (some next) kept gone = gone
unless_skipped false next kept gone = gone

unfoldable pub unregister_from :
    Keyspaces → StoreResource → ShardInfo → Cluster → Keyspaces × List Notification
unfolding unless_skipped
unregister_from m store info c =
    unless_skipped info.is_candidate c.next_cluster (m, [])
      (
        assign info.keyspace_name (some (remove_node c (node_of info store)).0) m,
        notify_deletion info store ∷ [],
      )

unfoldable pub unregister_shard :
    Keyspaces → StoreResource → ShardInfo → Keyspaces × List Notification
unregister_shard m store info =
    let (m', k) = get_or_create_keyspace info.keyspace_name m in
    elim k [ none ↦ (m', []) | some c ↦ unregister_from m' store info c ]

unfoldable pub unregister_shards : Keyspaces → StoreResource → Seen → Keyspaces × List Notification
unregister_shards m store [] = (m, [])
unregister_shards m store (entry ∷ rest) =
    let (m', told) = unregister_shard m store entry.1 in
    let (last, more) = unregister_shards m' store rest in (last, told ++ more)
