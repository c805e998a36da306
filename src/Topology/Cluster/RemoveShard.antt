-- ===== src/Topology/Cluster/RemoveShard.antt =====
-- RemoveShard and isStoreInUse.
use vasto.Prelude.{
  ℕ, zero, suc, ◌≤◌, ◌<◌, ◌≡◌, ◌↔◌, refl, true, false, not, ◌&&◌, List, [], ◌∷◌, length, leb, ◌==◌,
  if◌then◌else◌, Bool-cases, inl, inr, Option, none, some, arith,
}
use vasto.Pb.{StoreResource, ShardInfo}
use vasto.Topology.Groups.{LogicalShardGroup, in_group, in_groups}
use vasto.Topology.Groups.Updates.{same_address}
use vasto.Topology.Cluster.{
  Layout, Cluster, drop_shard, reset_if_empty, is_store_in_use, remove_shard,
}
use vasto.Topology.Cluster.Valid.{IsValid}
use vasto.Topology.Cluster.SetShard.{lookup}
use vasto.Topology.Cluster.Size.{group_at-past}
use vasto.Topology.Cluster.Removal.{
  drop_shard-IsValid, absent-Removed, lookup-drop_shard, reset_if_empty-IsValid,
  group_at-reset_if_empty, IsUnused,
}

in_groups→IsUnused :
    (store : StoreResource) (shards : List LogicalShardGroup)
    → in_groups store shards ≡ false
    → IsUnused store shards
unfolding in_groups in_group
in_groups→IsUnused store [] h i = refl
in_groups→IsUnused store (g ∷ shards) h zero = ground arith
in_groups→IsUnused store (g ∷ shards) h (suc i) = in_groups→IsUnused store shards (ground arith) i

IsUnused→in_groups :
    (store : StoreResource) (shards : List LogicalShardGroup)
    → IsUnused store shards
    → in_groups store shards ≡ false
unfolding in_groups
IsUnused→in_groups store [] h = refl
IsUnused→in_groups store (g ∷ shards) h =
    ground (arith, h 0, IsUnused→in_groups store shards (λ i. h (suc i)))

abbrev pub IsUnusedNext : StoreResource → Option Layout → Type 0
IsUnusedNext store none = Unit
IsUnusedNext store (some next) = IsUnused store next.logical_shards

module _ (c : Cluster) (store : StoreResource) (info : ShardInfo) where
  abbrev after : Layout
  after = reset_if_empty (drop_shard c.layout store info)

  remove_shard_in :
      info.shard_id < length c.layout.logical_shards
      → remove_shard c store info ≡ (
        record c { layout = after },
        if in_groups store after.logical_shards
            then false
            else not (is_store_in_use (some after) store)
              && not (is_store_in_use c.next_cluster store),
      )
  unfolding remove_shard
  remove_shard_in h = ground arith

  remove_shard_out :
      length c.layout.logical_shards ≤ info.shard_id → remove_shard c store info ≡ (c, false)
  unfolding remove_shard
  remove_shard_out h = ground arith

  IsUnused-to :
      (next : Option Layout)
      → (if in_groups store after.logical_shards
          then false
          else not (is_store_in_use (some after) store) && not (is_store_in_use next store))
        ≡ true
      → IsUnused store after.logical_shards × IsUnusedNext store next
  unfolding is_store_in_use
  IsUnused-to none e = (in_groups→IsUnused store after.logical_shards (ground arith), tt)
  IsUnused-to (some next) e = (
    in_groups→IsUnused store after.logical_shards (ground arith),
    in_groups→IsUnused store next.logical_shards (ground arith),
  )

  IsUnused-from :
      (next : Option Layout)
      → IsUnused store after.logical_shards × IsUnusedNext store next
      → (if in_groups store after.logical_shards
          then false
          else not (is_store_in_use (some after) store) && not (is_store_in_use next store))
        ≡ true
  unfolding is_store_in_use
  IsUnused-from none u = ground (arith, IsUnused→in_groups store after.logical_shards u.0)
  IsUnused-from (some next) u = ground (
    arith,
    IsUnused→in_groups store after.logical_shards u.0,
    IsUnused→in_groups store next.logical_shards u.1,
  )

  -- RemoveShard of a shard that the cluster has room for answers that the store may be disconnected
  -- exactly when no shard of the cluster it leaves, and none of the next cluster, is on the store.
  pub remove_shard-IsUnused :
      info.shard_id < length c.layout.logical_shards
      → ((remove_shard c store info).1 ≡ true) ↔ (
          IsUnused store (remove_shard c store info).0.layout.logical_shards
          × IsUnusedNext store (remove_shard c store info).0.next_cluster)
  remove_shard-IsUnused h =
      rw (remove_shard_in h) (IsUnused-to c.next_cluster, IsUnused-from c.next_cluster)

  module _ (v : IsValid c.layout) where
    -- RemoveShard keeps every node in the group of its shard, and every store at most once in a group.
    pub remove_shard-IsValid : IsValid (remove_shard c store info).0.layout
    remove_shard-IsValid = elim (Bool-cases (leb (length c.layout.logical_shards) info.shard_id)) [
      | inl e ↦ rw (remove_shard_out (ground arith)) v
      | inr e ↦
          let h : info.shard_id < length c.layout.logical_shards = ground arith in
          rw (remove_shard_in h)
            (reset_if_empty-IsValid _ (drop_shard-IsValid c.layout store info v h))
    ]

    -- After RemoveShard the cluster knows nothing of the shard on the store, and knows of any other
    -- shard or store what it knew; the next cluster stays. Before the call every node must be in the
    -- group of its shard, and every store at most once in a group.
    pub lookup-remove_shard :
        (i : ℕ) (other : StoreResource)
        → (lookup (remove_shard c store info).0.layout i other ≡ (
            if info.shard_id == i && same_address other store
            then none
            else lookup c.layout i other))
          × ((remove_shard c store info).0.next_cluster ≡ c.next_cluster)
    unfolding in_group
    lookup-remove_shard i other =
        elim (Bool-cases (leb (length c.layout.logical_shards) info.shard_id)) [
          | inl e ↦
              let h : length c.layout.logical_shards ≤ info.shard_id = ground arith in
              rw (remove_shard_out h) (
                absent-Removed c.layout store info v i other
                    (rw (group_at-past c.layout.logical_shards info.shard_id h) refl),
                refl,
              )
          | inr e ↦
              let h : info.shard_id < length c.layout.logical_shards = ground arith in
              rw (remove_shard_in h) (
                rw (group_at-reset_if_empty (drop_shard c.layout store info) i)
                    (lookup-drop_shard c.layout store info v h i other),
                refl,
              )
        ]
