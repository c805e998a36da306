-- ===== src/Topology/Listener/Laws.antt =====
-- What following a keyspace keeps.
use vasto.Prelude.{
  ℕ, suc, ◌≡◌, ◌≢◌, ◌≤◌, ◌<◌, refl, subst, Bool, true, false, [], ◌∷◌, Bytes, bytes_eq,
  bytes_eq_iff, Option-cases, inl, inr, length, if◌then◌else◌, Option, none, some, arith,
}
use vasto.Pb.{ShardInfo, ClusterNode}
use vasto.Topology.Groups.{group_at}
use vasto.Topology.Cluster.{Layout, Cluster, set_next_cluster, current_size, new_layout}
use vasto.Topology.Cluster.Valid.{IsValid, replicate-IsValid}
use vasto.Topology.Cluster.SetShard.{set_shard-IsValid}
use vasto.Topology.Cluster.RemoveShard.{remove_shard-IsValid, lookup-remove_shard}
use vasto.Topology.Cluster.Size.{current_size_lem}
use vasto.Topology.Listener.{
  ensure_next, next_layout, add_to, add_node, remove_from, remove_node, Clusters, get_cluster,
  put_cluster, has_connected_keyspace,
}

abbrev pub IsValidNext : Option Layout → Type 0
IsValidNext none = Unit
IsValidNext (some next) = IsValid next

-- The cluster and its next one keep the invariant of layouts.
abbrev pub IsValidCluster : Cluster → Type 0
IsValidCluster c = IsValid c.layout × IsValidNext c.next_cluster

next_layout-IsValid : (c : Cluster) → IsValidCluster c → IsValid (next_layout c)
unfolding next_layout
next_layout-IsValid c (v, w) = elim (Option-cases c.next_cluster) [
  | inl e ↦ rw (e, next_layout) v
  | inr (next, e) ↦ rw (e, next_layout) (subst IsValidNext e w)
]

ensure_next-IsValid :
    (info : ShardInfo) (c : Cluster) → IsValidCluster c → IsValidCluster (ensure_next info c)
unfolding ensure_next set_next_cluster new_layout
ensure_next-IsValid info c v = elim (Option-cases c.next_cluster) [
  | inl e ↦ rw (e, ensure_next) (v.0, replicate-IsValid info.cluster_size)
  | inr (next, e) ↦ rw (e, ensure_next) v
]

add_to-IsValid :
    (candidate : Bool) (c : Cluster) (n : ClusterNode)
    → IsValidCluster c
    → IsValidCluster (add_to candidate c n).0
unfolding add_to
add_to-IsValid true c n v =
    let ready = ensure_next-IsValid n.shard_info c v in
    (ready.0, set_shard-IsValid _ n.store_resource n.shard_info (next_layout-IsValid _ ready))
add_to-IsValid false c n v = (set_shard-IsValid c.layout n.store_resource n.shard_info v.0, v.1)

pub remove_from-IsValid :
    (candidate : Bool) (c : Cluster) (n : ClusterNode)
    → IsValidCluster c
    → IsValidCluster (remove_from candidate c n).0
unfolding remove_from
remove_from-IsValid true c n v =
    let ready = ensure_next-IsValid n.shard_info c v in
    (ready.0, remove_shard-IsValid _ n.store_resource n.shard_info (next_layout-IsValid _ ready))
remove_from-IsValid false c n v = (
  remove_shard-IsValid c n.store_resource n.shard_info v.0,
  rw (lookup-remove_shard c n.store_resource n.shard_info v.0 0 n.store_resource).1 v.1,
)

-- Adding and removing nodes keep the invariant of a cluster and its next one.
pub add_node-IsValid :
    (c : Cluster) (n : ClusterNode) → IsValidCluster c → IsValidCluster (add_node c n).0
unfolding add_node
add_node-IsValid c n = add_to-IsValid n.shard_info.is_candidate c n

pub remove_node-IsValid :
    (c : Cluster) (n : ClusterNode) → IsValidCluster c → IsValidCluster (remove_node c n).0
unfolding remove_node
remove_node-IsValid c n = remove_from-IsValid n.shard_info.is_candidate c n

pub get_cluster-put_cluster :
    (keyspace other : Bytes) (c : Cluster) (m : Clusters)
    → get_cluster other (put_cluster keyspace c m)
      ≡ (if bytes_eq keyspace other then some c else get_cluster other m)
unfolding get_cluster put_cluster
get_cluster-put_cluster keyspace other c [] = refl
get_cluster-put_cluster keyspace other c (entry ∷ m) = ground (
  arith,
  get_cluster-put_cluster keyspace other c m,
  bytes_eq_iff entry.0 keyspace,
  bytes_eq_iff entry.0 other,
  bytes_eq_iff keyspace other,
)

-- A keyspace that counts as connected has a cluster in which the last of the expected shards has a
-- node, and no shard past the expected ones has any.
pub has_connected_keyspace_lem :
    (keyspace : Bytes) (m : Clusters) (c : Cluster)
    → get_cluster keyspace m ≡ some c
    → has_connected_keyspace keyspace m ≡ true
    → ((last : ℕ) × (c.layout.expected_size ≡ suc last)
        × (length (group_at c.layout.logical_shards last) ≢ 0))
      × ((i : ℕ) → c.layout.expected_size ≤ i → group_at c.layout.logical_shards i ≡ [])
unfolding has_connected_keyspace
has_connected_keyspace_lem keyspace m c here e =
    let tested = rw (here, has_connected_keyspace) at e in
    let same : current_size c.layout ≡ c.layout.expected_size = ground arith in
    let full : 0 < current_size c.layout = ground arith in
    let (size, above) = current_size_lem c.layout in
    let top : (last : ℕ) × (current_size c.layout ≡ suc last)
        × (length (group_at c.layout.logical_shards last) ≢ 0) =
      elim size [ inl none_at_all ↦ absurd (omega arith) | inr found ↦ found ] in
    (rw same at top, rw same at above)
