-- ===== src/Master/Stores/Disconnect.antt =====
-- What is left of a store's shards when it disconnects.
use vasto.Prelude.{
  ℕ, ◌≡◌, refl, sym, ap, subst, Bool, true, false, [], ◌∷◌, Bytes, bytes_eq, bytes_eq_refl, ==_refl,
  All, Option-cases, inl, inr, none, arith,
}
use vasto.Pb.{StoreResource, ShardInfo, ClusterNode}
use vasto.Topology.Cluster.{Cluster, set_next_cluster}
use vasto.Topology.Cluster.SetShard.{lookup}
use vasto.Topology.Cluster.RemoveShard.{lookup-remove_shard}
use vasto.Topology.Listener.{ensure_next, remove_from, remove_node}
use vasto.Topology.Listener.Laws.{IsValidCluster, remove_from-IsValid, remove_node-IsValid}
use vasto.Master.Topology.{Keyspaces}
use vasto.Master.Stores.{Seen, node_of, unregister_shard, unregister_shards}
use vasto.Master.Stores.Clusters.{AllClusters, unregister_shard-AllClusters}

-- Removing a node brings no knowledge back.
lookup-remove_from :
    (candidate : Bool) (c : Cluster) (n : ClusterNode) (shard : ℕ) (store : StoreResource)
    → IsValidCluster c
    → lookup c.layout shard store ≡ none
    → lookup (remove_from candidate c n).0.layout shard store ≡ none
unfolding remove_from ensure_next set_next_cluster
lookup-remove_from true c n shard store v e = elim (Option-cases c.next_cluster) [
  | inl absent ↦ rw (absent, ensure_next) e
  | inr (next, here) ↦ rw (here, ensure_next) e
]
lookup-remove_from false c n shard store v e =
    rw ((lookup-remove_shard c n.store_resource n.shard_info v.0 shard store).0, e) (ground arith)

lookup-remove_node :
    (c : Cluster) (n : ClusterNode)
    → IsValidCluster c
    → n.shard_info.is_candidate ≡ false
    → lookup (remove_node c n).0.layout n.shard_info.shard_id n.store_resource ≡ none
unfolding remove_node remove_from
lookup-remove_node c n v e =
    subst (λ b. lookup (remove_from b c n).0.layout n.shard_info.shard_id n.store_resource ≡ none)
      (sym e)
      (rw
        (
          (lookup-remove_shard c n.store_resource n.shard_info v.0 n.shard_info.shard_id
              n.store_resource).0,
          ==_refl n.shard_info.shard_id,
          bytes_eq_refl n.store_resource.address,
        )
        refl)

-- The master's clusters keep the invariant, and a keyspace's cluster knows nothing of the shard on
-- the store.
abbrev pub IsGone : StoreResource → ShardInfo → Bytes → Cluster → Type 0
IsGone store info ks c =
    IsValidCluster c × (ks ≡ info.keyspace_name → lookup c.layout info.shard_id store ≡ none)

module _ (store : StoreResource) where
  IsGone-kept :
      (info other : ShardInfo) (m : Keyspaces)
      → AllClusters (IsGone store other) m
      → AllClusters (IsGone store other) (unregister_shard m store info).0
  unfolding remove_node
  IsGone-kept info other m =
      unregister_shard-AllClusters store info (IsGone store other) (IsGone store other) m
        (λ ks c ne g. g)
        (λ c g. (
          remove_from-IsValid info.is_candidate c (node_of info store) g.0,
          λ same.
              lookup-remove_from info.is_candidate c (node_of info store) other.shard_id store g.0
                (g.1 same),
        ))
        (λ c candidate g. g)

  IsGone-at_once :
      (info : ShardInfo) (m : Keyspaces)
      → info.is_candidate ≡ false
      → AllClusters (λ ks c. IsValidCluster c) m
      → AllClusters (IsGone store info) (unregister_shard m store info).0
  IsGone-at_once info m actual =
      unregister_shard-AllClusters store info (λ ks c. IsValidCluster c) (IsGone store info) m
        (λ ks c ne v. (
          v,
          λ same. absurd (
              ground
                (arith, bytes_eq_refl info.keyspace_name, ap (bytes_eq info.keyspace_name) same)),
        ))
        (λ c v. (
          remove_node-IsValid c (node_of info store) v,
          λ same. lookup-remove_node c (node_of info store) v actual,
        ))
        (λ c candidate v. absurd (ground arith))

  IsGone-kept_all :
      (other : ShardInfo) (m : Keyspaces) (seen : Seen)
      → AllClusters (IsGone store other) m
      → AllClusters (IsGone store other) (unregister_shards m store seen).0
  unfolding unregister_shards
  IsGone-kept_all other m [] all = all
  IsGone-kept_all other m (entry ∷ rest) all =
      IsGone-kept_all other (unregister_shard m store entry.1).0 rest
        (IsGone-kept entry.1 other m all)

  valid_kept :
      (info : ShardInfo) (m : Keyspaces)
      → AllClusters (λ ks c. IsValidCluster c) m
      → AllClusters (λ ks c. IsValidCluster c) (unregister_shard m store info).0
  valid_kept info m =
      unregister_shard-AllClusters store info (λ ks c. IsValidCluster c) (λ ks c. IsValidCluster c)
        m (λ ks c ne v. v) (λ c v. remove_node-IsValid c (node_of info store) v)
        (λ c candidate v. v)

  -- When a store disconnects that has reported no candidate shards, the cluster of each reported
  -- shard's keyspace knows nothing of that shard on the store afterwards. Every cluster of the
  -- master must have each node in the group of its shard and each store at most once in a group,
  -- and keeps this.
  pub unregister_shards-IsGone :
      (m : Keyspaces) (seen : Seen)
      → AllClusters (λ ks c. IsValidCluster c) m
      → All (λ entry. entry.1.is_candidate ≡ false) seen
      → All (λ entry. AllClusters (IsGone store entry.1) (unregister_shards m store seen).0) seen
  unfolding unregister_shards
  unregister_shards-IsGone m [] valid actual = tt
  unregister_shards-IsGone m (entry ∷ rest) valid actual = (
    IsGone-kept_all entry.1 (unregister_shard m store entry.1).0 rest
        (IsGone-at_once entry.1 m actual.0 valid),
    unregister_shards-IsGone (unregister_shard m store entry.1).0 rest (valid_kept entry.1 m valid)
        actual.1,
  )
