-- ===== src/Master/Resize/Kept.antt =====
-- A resize from its promotions to its last removal.
use vasto.Prelude.{
  ℕ, zero, suc, ◌-◌, ◌≡◌, ◌⊎◌, inl, inr, refl, sym, ◌∙◌, Bool, true, false, ◌&&◌, ◌||◌, List, [],
  ◌∷◌, map, Bytes, bytes_eq, bytes_eq_iff, ◌==◌, if◌then◌else◌, Option, none, some, arith,
  Bool-cases, Option-cases,
}
use vasto.Pb.{StoreResource, ShardInfo, ClusterNode}
use vasto.Topology.Groups.{LogicalShardGroup, matches, in_group, group_at}
use vasto.Topology.Groups.Laws.{IsOfShard, IsDistinct}
use vasto.Topology.Cluster.{
  Layout, Cluster, set_shard, remove_shard, remove_store, get_node, remove_next_cluster,
}
use vasto.Topology.Cluster.Valid.{IsValid}
use vasto.Topology.Cluster.SetShard.{lookup, set_shard-IsValid}
use vasto.Topology.Cluster.RemoveShard.{lookup-remove_shard, remove_shard-IsValid}
use vasto.Topology.Cluster.RemoveStore.{lookup-remove_store, group_at-map}
use vasto.Master.Resize.{
  all_nodes, promote_nodes, promote, promoted, stays, adjust_node, to_be_removed, adjust_layout,
  remove_nodes, remove_stores, adjust_and_broadcast,
}
use vasto.Master.Resize.Adjusted.{listed, IsAdjusted, adjust_layout-lookup}

promote_nodes-IsValid :
    (nodes : List ClusterNode) (c : Layout) → IsValid c → IsValid (promote_nodes nodes c).0
unfolding promote_nodes
promote_nodes-IsValid [] c v = v
promote_nodes-IsValid (n ∷ nodes) c v =
    promote_nodes-IsValid nodes (set_shard c n.store_resource (promoted n.shard_info)).0
      (set_shard-IsValid c n.store_resource (promoted n.shard_info) v)

promote-IsValid :
    (c : Cluster)
    → IsValid c.layout
    → IsValid (promote c).0.layout × ((promote c).0.next_cluster ≡ none)
unfolding promote remove_next_cluster
promote-IsValid c v = elim (Option-cases c.next_cluster) [
  | inl e ↦ rw (e, promote) (v, refl)
  | inr (next, e) ↦
      rw (e, promote) (promote_nodes-IsValid (all_nodes next.logical_shards) c.layout v, refl)
]

module _ (size factor : ℕ) where
  adjust-IsOfShard :
      (k : ℕ) (g : LogicalShardGroup)
      → IsOfShard k g
      → IsOfShard k (map (adjust_node size factor) g)
  unfolding adjust_node
  adjust-IsOfShard k [] h = tt
  adjust-IsOfShard k (n ∷ g) h = elim (Bool-cases (stays size factor n)) [
    | inl e ↦ rw e (h.0, adjust-IsOfShard k g h.1)
    | inr e ↦ rw e (h.0, adjust-IsOfShard k g h.1)
  ]

  adjust-store : (n : ClusterNode) → (adjust_node size factor n).store_resource ≡ n.store_resource
  unfolding adjust_node
  adjust-store n = elim (Bool-cases (stays size factor n)) [ inl e ↦ rw e refl | inr e ↦ rw e refl ]

  in_group-adjust :
      (store : StoreResource) (g : LogicalShardGroup)
      → in_group store (map (adjust_node size factor) g) ≡ in_group store g
  unfolding in_group
  in_group-adjust store [] = refl
  in_group-adjust store (n ∷ g) = rw (adjust-store n, in_group-adjust store g) refl

  adjust-IsDistinct :
      (g : LogicalShardGroup) → IsDistinct g → IsDistinct (map (adjust_node size factor) g)
  adjust-IsDistinct [] h = tt
  adjust-IsDistinct (n ∷ g) h =
      (rw (adjust-store n, in_group-adjust n.store_resource g) h.0, adjust-IsDistinct g h.1)

  adjust-group :
      (c : Layout) (i : ℕ)
      → group_at (map (map (adjust_node size factor)) c.logical_shards) i
        ≡ map (adjust_node size factor) (group_at c.logical_shards i)
  adjust-group c i = group_at-map (map (adjust_node size factor)) c.logical_shards i refl

  adjust_layout-IsValid : (c : Layout) → IsValid c → IsValid (adjust_layout size factor c)
  unfolding adjust_layout
  adjust_layout-IsValid c v = record {
    placed =
        λ i. rw (adjust-group c i) (adjust-IsOfShard i (group_at c.logical_shards i) (v.placed i));
    distinct =
        λ i. rw (adjust-group c i) (adjust-IsDistinct (group_at c.logical_shards i) (v.distinct i));
  }

-- The second cluster keeps the invariant, has no next one if the first has none, and knows nothing
-- more than the first.
abbrev Shrinks : Layout → Layout → Type 0
Shrinks c c' =
    IsValid c'
    × ((i : ℕ) (store : StoreResource) (info : ShardInfo)
        → lookup c' i store ≡ some info
        → lookup c i store ≡ some info)

none_else :
    (b : Bool) (o : Option ShardInfo) (info : ShardInfo)
    → (if b then none else o) ≡ some info
    → (b ≡ false) × (o ≡ some info)
none_else true o info h = absurd (ground (arith, h))
none_else false o info h = (refl, h)

remove_stores-Shrinks : (n i : ℕ) (c : Layout) → IsValid c → Shrinks c (remove_stores n i c).0
unfolding remove_stores
remove_stores-Shrinks zero i c v = (v, λ j store info h. h)
remove_stores-Shrinks (suc n) i c v = elim (Option-cases (get_node c i 0)) [
  | inl e ↦ rw (e, remove_stores) (remove_stores-Shrinks n (suc i) c v)
  | inr (node, e) ↦
      let (v', unused, found) = lookup-remove_store c node.store_resource v in
      let (last, less) =
        remove_stores-Shrinks n (suc i) (remove_store c node.store_resource).0 v' in
      rw (e, remove_stores)
        (
          last,
          λ j store info h.
              (none_else _ (lookup c j store) info (sym (found j store) ∙ less j store info h)).1,
        )
]

neither : (a b : Bool) → a ≡ false → b ≡ false → (a || b) ≡ false
neither a b h k = ground (arith, h, k)

not_matching :
    (store : StoreResource) (i : ℕ) (n : ClusterNode)
    → (n.shard_info.shard_id == i && bytes_eq store.address n.store_resource.address) ≡ false
    → matches store i n ≡ false
not_matching store i n h = ground (
  arith,
  h,
  bytes_eq_iff store.address n.store_resource.address,
  bytes_eq_iff n.store_resource.address store.address,
)

-- What is known after a node is removed is of another one, and was known before.
after_removal :
    (n : ClusterNode) (c : Cluster) (v : IsValid c.layout) (i : ℕ) (store : StoreResource)
    (info : ShardInfo)
    → lookup (remove_shard c n.store_resource n.shard_info).0.layout i store ≡ some info
    → (matches store i n ≡ false) × (lookup c.layout i store ≡ some info)
after_removal n c v i store info h =
    let (other, known) =
      none_else _ (lookup c.layout i store) info
        (sym (lookup-remove_shard c n.store_resource n.shard_info v i store).0 ∙ h) in
    (not_matching store i n other, known)

remove_nodes-Shrinks :
    (nodes : List ClusterNode) (c : Cluster)
    → IsValid c.layout
    → Shrinks c.layout (remove_nodes nodes c).0.layout
      × ((remove_nodes nodes c).0.next_cluster ≡ c.next_cluster)
      × ((i : ℕ) (store : StoreResource) (info : ShardInfo)
          → lookup (remove_nodes nodes c).0.layout i store ≡ some info
          → listed store i nodes ≡ false)
unfolding remove_nodes listed
remove_nodes-Shrinks [] c v = ((v, λ i store info h. h), refl, λ i store info h. refl)
remove_nodes-Shrinks (n ∷ nodes) c v =
    let c' = (remove_shard c n.store_resource n.shard_info).0 in
    let v' = remove_shard-IsValid c n.store_resource n.shard_info v in
    let ((last, less), next, rest) = remove_nodes-Shrinks nodes c' v' in
    (
      (last, λ i store info h. (after_removal n c v i store info (less i store info h)).1),
      next ∙ (lookup-remove_shard c n.store_resource n.shard_info v 0 n.store_resource).1,
      λ i store info h.
          neither (matches store i n) (listed store i nodes)
            (after_removal n c v i store info (less i store info h)).0 (rest i store info h),
    )

-- What a resize leaves: a cluster with the invariant and without a next cluster, in which the ring of
-- the new size places every shard on its server, and every shard info has the new size.
abbrev pub IsResized : ℕ → ℕ → Cluster → Type 0
IsResized size factor c =
    IsValid c.layout
    × (c.next_cluster ≡ none)
    × ((i : ℕ) (store : StoreResource) (info : ShardInfo)
        → lookup c.layout i store ≡ some info
        → IsAdjusted size factor info)

not_gone :
    (info : ShardInfo) (size factor : ℕ) (b : Bool)
    → IsAdjusted size factor info ⊎ (b ≡ true)
    → b ≡ false
    → IsAdjusted size factor info
not_gone info size factor b (inl fine) h = fine
not_gone info size factor b (inr gone) h = absurd (ground (arith, gone, h))

-- After the master has adjusted a cluster to a new size, and told the clients, the cluster has no next
-- cluster, it knows of no shard on a server on which the ring of the new size does not place it, and
-- every shard it knows has the new size. The cluster has the invariant, and keeps it.
pub adjust_and_broadcast-IsResized :
    (keyspace : Bytes) (size : ℕ) (c : Cluster)
    → IsValid c.layout
    → IsResized size c.layout.replication_factor (adjust_and_broadcast keyspace size c).0
unfolding adjust_and_broadcast
adjust_and_broadcast-IsResized keyspace size c v =
    let factor = c.layout.replication_factor in
    let (promoted_valid, no_next) = promote-IsValid c v in
    let layout = (promote c).0.layout in
    let adjusted : Cluster = record (promote c).0 { layout = adjust_layout size factor layout } in
    let nodes = to_be_removed size factor (all_nodes layout.logical_shards) in
    let ((kept, less), next, gone) =
      remove_nodes-Shrinks nodes adjusted
        (adjust_layout-IsValid size factor layout promoted_valid) in
    let (last, fewer) =
      remove_stores-Shrinks (c.layout.expected_size - size) size
        (remove_nodes nodes adjusted).0.layout kept in
    (
      last,
      next ∙ no_next,
      λ i store info h.
          let before = fewer i store info h in
          not_gone info size factor (listed store i nodes)
            (adjust_layout-lookup size factor layout i store info (less i store info before))
            (gone i store info before),
    )
