-- ===== src/Topology/Listener/Invariant.antt =====
-- The invariant of the clusters that a listener follows.
use vasto.Prelude.{
  ℕ, ◌≡◌, sym, subst, Bool, true, false, List, [], ◌∷◌, Bytes, bytes_eq, Bool-cases, Option-cases,
  inl, inr, ltb, some, arith,
}
use vasto.Pb.{ClusterNode}
use vasto.Topology.Cluster.{Cluster, new_layout, new_cluster, set_replication_factor}
use vasto.Topology.Cluster.Valid.{replicate-IsValid}
use vasto.Topology.Cluster.SetShard.{set_expected_size-IsValid}
use vasto.Topology.Listener.Messages.{
  ClientMessage, ClusterMessage, Resize, process_cluster, process_updates, process_resize,
  StoreResourceUpdate, add_nodes, update_node, update_nodes, process_client_message,
}
use vasto.Topology.Listener.{
  get_or_set_cluster, resized, add_node, Clusters, get_cluster, put_cluster,
}
use vasto.Topology.Listener.Laws.{
  IsValidCluster, add_node-IsValid, remove_node-IsValid, get_cluster-put_cluster,
}

-- What an update or a listing of nodes keeps.
abbrev pub AllValid : Clusters → Type 0
AllValid m = (keyspace : Bytes) (c : Cluster) → get_cluster keyspace m ≡ some c → IsValidCluster c

put_cluster-AllValid :
    (keyspace : Bytes) (c : Cluster) (m : Clusters)
    → IsValidCluster c
    → AllValid m
    → AllValid (put_cluster keyspace c m)
put_cluster-AllValid keyspace c m v all other d e = elim (Bool-cases (bytes_eq keyspace other)) [
  | inl same ↦
      let shown = rw (get_cluster-put_cluster keyspace other c m, same) at e in
      let here : c ≡ d = ground arith in subst IsValidCluster here v
  | inr differ ↦ all other d (rw (get_cluster-put_cluster keyspace other c m, differ) at e)
]

resized-IsValid :
    (size replication : ℕ) (c : Cluster)
    → IsValidCluster c
    → IsValidCluster (resized size replication c)
unfolding resized set_replication_factor
resized-IsValid size replication c v = (
  elim (Bool-cases (ltb 0 size)) [
    | inl e ↦ rw e (elim (Bool-cases (ltb 0 replication)) [
      | inl e' ↦ rw e' (set_expected_size-IsValid size c.layout v.0)
      | inr e' ↦ rw e' (set_expected_size-IsValid size c.layout v.0)
    ])
    | inr e ↦
        rw e (elim (Bool-cases (ltb 0 replication)) [ inl e' ↦ rw e' v.0 | inr e' ↦ rw e' v.0 ])
  ],
  v.1,
)

get_or_set-IsValid :
    (keyspace : Bytes) (size replication : ℕ) (m : Clusters)
    → AllValid m
    → IsValidCluster (get_or_set_cluster keyspace size replication m).1
unfolding get_or_set_cluster new_cluster new_layout
get_or_set-IsValid keyspace size replication m all = elim (Option-cases (get_cluster keyspace m)) [
  | inl e ↦
      rw (e, get_or_set_cluster)
        (resized-IsValid size replication (new_cluster keyspace size replication)
          (replicate-IsValid size, tt))
  | inr (c, e) ↦ rw (e, get_or_set_cluster) (resized-IsValid size replication c (all keyspace c e))
]

add_nodes-IsValid :
    (processors : List ℕ) (c : Cluster) (nodes : List ClusterNode)
    → IsValidCluster c
    → IsValidCluster (add_nodes processors c nodes).0
unfolding add_nodes
add_nodes-IsValid processors c [] v = v
add_nodes-IsValid processors c (n ∷ nodes) v =
    add_nodes-IsValid processors (add_node c n).0 nodes (add_node-IsValid c n v)

update_node-IsValid :
    (is_delete : Bool) (c : Cluster) (n : ClusterNode)
    → IsValidCluster c
    → IsValidCluster (update_node false is_delete c n).0
unfolding update_node
update_node-IsValid true c n v = remove_node-IsValid c n v
update_node-IsValid false c n v = add_node-IsValid c n v

update_nodes-IsValid :
    (processors : List ℕ) (u : StoreResourceUpdate) (c : Cluster) (nodes : List ClusterNode)
    → u.is_promotion ≡ false
    → IsValidCluster c
    → IsValidCluster (update_nodes processors u c nodes).0
unfolding update_nodes
update_nodes-IsValid processors u c [] p v = v
update_nodes-IsValid processors u c (n ∷ nodes) p v =
    let step =
      subst (λ b. IsValidCluster (update_node b u.is_delete c n).0) (sym p)
        (update_node-IsValid u.is_delete c n v) in
    update_nodes-IsValid processors u (update_node u.is_promotion u.is_delete c n).0 nodes p step

-- The message promotes no node.
abbrev pub IsPlain : ClientMessage → Type 0
IsPlain msg = (u : StoreResourceUpdate) → msg.updates ≡ some u → u.is_promotion ≡ false

process_cluster-AllValid :
    (processors : List ℕ) (m : Clusters) (cm : ClusterMessage)
    → AllValid m
    → AllValid (process_cluster processors m cm).0
unfolding process_cluster get_or_set_cluster
process_cluster-AllValid processors m cm all =
    let found =
      get_or_set-IsValid cm.keyspace cm.expected_cluster_size cm.replication_factor m all in
    put_cluster-AllValid cm.keyspace _ _ (add_nodes-IsValid processors _ cm.nodes found)
      (put_cluster-AllValid cm.keyspace _ m found all)

process_updates-AllValid :
    (processors : List ℕ) (m : Clusters) (u : StoreResourceUpdate)
    → u.is_promotion ≡ false
    → AllValid m
    → AllValid (process_updates processors m u).0
unfolding process_updates
process_updates-AllValid processors m u p all = elim (Option-cases (get_cluster u.keyspace m)) [
  | inl gone ↦ rw (gone, process_updates) all
  | inr (c, here) ↦
      rw (here, process_updates)
        (put_cluster-AllValid u.keyspace _ m
          (update_nodes-IsValid processors u c u.nodes p (all u.keyspace c here)) all)
]

process_resize-AllValid : (m : Clusters) (r : Resize) → AllValid m → AllValid (process_resize m r)
unfolding process_resize
process_resize-AllValid m r all = elim (Option-cases (get_cluster r.keyspace m)) [
  | inl gone ↦ rw (gone, process_resize) all
  | inr (c, here) ↦
      let v = all r.keyspace c here in
      rw (here, process_resize)
        (put_cluster-AllValid r.keyspace _ m
          (set_expected_size-IsValid r.target_cluster_size c.layout v.0, v.1) all)
]

-- If every cluster that a listener follows, and every next cluster, has each node in the group of
-- its shard and each store at most once in a group, then this is so after any message from the
-- master that is not a promotion, and for any event processors.
pub process_client_message-AllValid :
    (processors : List ℕ) (m : Clusters) (msg : ClientMessage)
    → IsPlain msg
    → AllValid m
    → AllValid (process_client_message processors m msg).0
unfolding process_client_message
process_client_message-AllValid processors m msg plain all = elim (Option-cases msg.cluster) [
  | inr (cm, e) ↦ rw (e, process_client_message) (process_cluster-AllValid processors m cm all)
  | inl e ↦ elim (Option-cases msg.updates) [
    | inr (u, e') ↦
        rw (e, e', process_client_message)
          (process_updates-AllValid processors m u (plain u e') all)
    | inl e' ↦ elim (Option-cases msg.resize) [
      | inr (r, e'') ↦ rw (e, e', e'', process_client_message) (process_resize-AllValid m r all)
      | inl e'' ↦ rw (e, e', e'', process_client_message) all
    ]
  ]
]
