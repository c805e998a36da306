-- ===== src/Topology/Listener/Messages.antt =====
-- processClientMessage of topology/clusterlistener/cluster_listener.go and the event processors of
-- cluster_event_processor.go. A processor is known by its number; what the processors are told is
-- the list of their calls.
use vasto.Prelude.{
  ℕ, Bool, true, false, List, [], ◌∷◌, ◌++◌, map, Bytes, ◌==◌, if◌then◌else◌, Option, none, some,
}
use vasto.Pb.{ShardInfo, ClusterNode}
use vasto.Topology.Cluster.{Cluster, set_expected_size}
use vasto.Topology.Listener.{
  Clusters, add_node, remove_node, promote_node, get_cluster, put_cluster, get_or_set_cluster,
}

-- The cluster is passed to the processors as it is after the change.
pub data Event : Type 0 where
  created : Cluster → ClusterNode → Event
  updated : Cluster → ClusterNode → ShardInfo → Event
  removed : Cluster → ClusterNode → Event
  promoted : Cluster → ClusterNode → Event

-- pb.Cluster
pub record ClusterMessage : Type 0 where
  pub keyspace : Bytes
  pub nodes : List ClusterNode
  pub expected_cluster_size : ℕ
  pub replication_factor : ℕ

pub record StoreResourceUpdate : Type 0 where
  pub nodes : List ClusterNode
  pub is_delete : Bool
  pub keyspace : Bytes
  pub is_promotion : Bool

pub record Resize : Type 0 where
  pub current_cluster_size : ℕ
  pub target_cluster_size : ℕ
  pub keyspace : Bytes

pub record ClientMessage : Type 0 where
  pub cluster : Option ClusterMessage
  pub updates : Option StoreResourceUpdate
  pub resize : Option Resize

abbrev pub Calls : Type 0
Calls = List (ℕ × Event)

-- Every processor is told.
abbrev pub tell : List ℕ → Event → Calls
tell processors e = map (λ p. (p, e)) processors

unfoldable pub add_nodes : List ℕ → Cluster → List ClusterNode → Cluster × Calls
add_nodes processors c [] = (c, [])
add_nodes processors c (n ∷ rest) =
    let c' = (add_node c n).0 in
    let (last, calls) = add_nodes processors c' rest in
    (last, tell processors (created c' n) ++ calls)

-- `oldShardInfo.Status.String() != node.ShardInfo.String()` compares the name of a status with the
-- text of a whole message, and always holds.
unfoldable pub update_node : Bool → Bool → Cluster → ClusterNode → Cluster × Event
update_node is_promotion is_delete c n =
    if is_promotion
    then (let c' = promote_node c n in (c', promoted c' n))
    else if is_delete
    then (let c' = (remove_node c n).0 in (c', removed c' n))
    else (let (c', old) = add_node c n in
        (c', elim old [ none ↦ created c' n | some info ↦ updated c' n info ]))

unfoldable pub update_nodes :
    List ℕ → StoreResourceUpdate → Cluster → List ClusterNode → Cluster × Calls
update_nodes processors u c [] = (c, [])
update_nodes processors u c (n ∷ rest) =
    let (c', e) = update_node u.is_promotion u.is_delete c n in
    let (last, calls) = update_nodes processors u c' rest in (last, tell processors e ++ calls)

unfoldable pub process_cluster : List ℕ → Clusters → ClusterMessage → Clusters × Calls
process_cluster processors m cm =
    let (m', c) = get_or_set_cluster cm.keyspace cm.expected_cluster_size cm.replication_factor m in
    let (c', calls) = add_nodes processors c cm.nodes in (put_cluster cm.keyspace c' m', calls)

unfoldable pub process_updates : List ℕ → Clusters → StoreResourceUpdate → Clusters × Calls
process_updates processors m u = elim (get_cluster u.keyspace m) [
  | none ↦ (m, [])
  | some c ↦
      let (c', calls) = update_nodes processors u c u.nodes in (put_cluster u.keyspace c' m, calls)
]

unfoldable pub process_resize : Clusters → Resize → Clusters
process_resize m r = elim (get_cluster r.keyspace m) [
  | none ↦ m
  | some c ↦
      put_cluster r.keyspace
        (record c { layout = set_expected_size r.target_cluster_size c.layout }) m
]

unfoldable pub process_client_message : List ℕ → Clusters → ClientMessage → Clusters × Calls
unfolding process_cluster process_updates process_resize
process_client_message processors m msg = elim msg.cluster [
  | some cm ↦ process_cluster processors m cm
  | none ↦ elim msg.updates [
    | some u ↦ process_updates processors m u
    | none ↦ elim msg.resize [ some r ↦ (process_resize m r, []) | none ↦ (m, []) ]
  ]
]

-- A processor that is registered already is not registered twice.
unfoldable pub is_registered : ℕ → List ℕ → Bool
is_registered p [] = false
is_registered p (q ∷ rest) = if q == p then true else is_registered p rest

unfoldable pub register_shard_event_processor : ℕ → List ℕ → List ℕ
unfolding is_registered
register_shard_event_processor p processors =
    if is_registered p processors then processors else processors ++ (p ∷ [])

-- Without the last one that is equal.
unfoldable pub unregister_shard_event_processor : ℕ → List ℕ → List ℕ
unfolding is_registered
unregister_shard_event_processor p [] = []
unregister_shard_event_processor p (q ∷ rest) =
    let more = unregister_shard_event_processor p rest in
    if is_registered p rest then q ∷ more else if q == p then rest else q ∷ more
