-- ===== src/Topology/Cluster/SetShard.antt =====
-- SetShard, SetExpectedSize and SetReplicationFactor.
use native.Mathlib.Decide.{ℕ_discrete}
use vasto.Prelude.{
  subst, All-append, length-set, ==_refl, get_or-set_self, get_or-set_ne, ℕ, ◌+◌, ◌<◌, ◌≡◌, ◌⊎◌,
  refl, sym, false, ◌&&◌, List, [], ◌∷◌, ◌++◌, length, set, ◌==◌, if◌then◌else◌, Option-cases, inl,
  inr, Option, none, some, arith,
}
use vasto.Pb.{StoreResource, ShardInfo, ClusterNode}
use vasto.Topology.Groups.{LogicalShardGroup, group_at, find_info, update_info, sorted_shards}
use vasto.Topology.Groups.Laws.{
  IsDistinct, sorted_shards-IsOfShard, sorted_shards-IsDistinct, find_info-sorted_shards,
}
use vasto.Topology.Groups.Updates.{
  same_address, update_info-IsOfShard, update_info-IsDistinct, find_info-update_info,
  in_group-find_info, append-IsDistinct, find_info-append,
}
use vasto.Topology.Cluster.{Layout, grow_to, set_expected_size, adopt_sizes, set_shard}
use vasto.Topology.Cluster.Valid.{
  IsValid, IsValidShards, group_at-grow_to, length-grow_to, group_at-take, set-IsValid,
  grow_to-IsValid, take-IsValid, replicate-IsValid,
}

-- SetExpectedSize keeps the invariant.
pub set_expected_size-IsValid : (n : ℕ) (c : Layout) → IsValid c → IsValid (set_expected_size n c)
unfolding set_expected_size
set_expected_size-IsValid n c v =
    ground (arith, replicate-IsValid n, take-IsValid n c.logical_shards v)

adopt_sizes-IsValid : (info : ShardInfo) (c : Layout) → IsValid c → IsValid (adopt_sizes info c)
unfolding adopt_sizes
adopt_sizes-IsValid info c v =
    ground (
      arith,
      replicate-IsValid info.cluster_size,
      take-IsValid info.cluster_size c.logical_shards v,
    )

-- The shards that the new sizes do not cut off stay.
adopt_sizes-groups :
    (info : ShardInfo) (c : Layout) (i : ℕ)
    → 0 < length c.logical_shards
    → (c.expected_size ≡ info.cluster_size) ⊎ (i < info.cluster_size)
    → group_at (adopt_sizes info c).logical_shards i ≡ group_at c.logical_shards i
unfolding adopt_sizes
adopt_sizes-groups info c i h k = ground (arith, group_at-take info.cluster_size c.logical_shards i)

-- What the cluster knows of a shard on a store.
abbrev pub lookup : Layout → ℕ → StoreResource → Option ShardInfo
lookup c shard store = find_info store shard (group_at c.logical_shards shard)

module _ (c : Layout) (store : StoreResource) (info : ShardInfo) where
  abbrev grown : List LogicalShardGroup
  grown = grow_to (info.shard_id + 1) c.logical_shards

  abbrev group : LogicalShardGroup
  group = group_at grown info.shard_id

  abbrev node : ClusterNode
  node = record { store_resource = store; shard_info = info }

  abbrev sorted : LogicalShardGroup
  sorted = sorted_shards (group ++ (node ∷ [])) (length grown)

  long_enough : info.shard_id < length grown
  long_enough = omega (arith, length-grow_to (info.shard_id + 1) c.logical_shards)

  set_shard_found :
      {old : ShardInfo}
      → find_info store info.shard_id group ≡ some old
      → set_shard c store info ≡ (
        record c { logical_shards = set grown info.shard_id (update_info store info group) },
        some old,
      )
  unfolding set_shard
  set_shard_found e = rw (e, set_shard)

  set_shard_new :
      find_info store info.shard_id group ≡ none
      → set_shard c store info
        ≡ (adopt_sizes info (record c { logical_shards = set grown info.shard_id sorted }), none)
  unfolding set_shard
  set_shard_new e = rw (e, set_shard)

  module _ (v : IsValid c) where
    grown_valid : IsValidShards grown
    grown_valid = grow_to-IsValid (info.shard_id + 1) c.logical_shards v

    absent : find_info store info.shard_id group ≡ none → IsDistinct (group ++ (node ∷ []))
    absent e =
        append-IsDistinct group node (grown_valid.distinct info.shard_id)
          (in_group-find_info store info.shard_id group (grown_valid.placed info.shard_id) e)

    -- SetShard keeps every node in the group of its shard, and every store at most once in a group.
    pub set_shard-IsValid : IsValid (set_shard c store info).0
    set_shard-IsValid = elim (Option-cases (find_info store info.shard_id group)) [
      | inl e ↦ rw (set_shard_new e) (
          adopt_sizes-IsValid info _ (
            set-IsValid grown info.shard_id sorted long_enough grown_valid
              (sorted_shards-IsOfShard info.shard_id (length grown) (group ++ (node ∷ []))
                (All-append _ group (node ∷ []) (grown_valid.placed info.shard_id) (refl, tt)))
              (sorted_shards-IsDistinct (length grown) (group ++ (node ∷ [])) (absent e))))
      | inr (old, e) ↦ rw (set_shard_found e) (
          set-IsValid grown info.shard_id (update_info store info group) long_enough grown_valid
            (update_info-IsOfShard store info group (grown_valid.placed info.shard_id))
            (update_info-IsDistinct store info group (grown_valid.distinct info.shard_id)))
    ]

    -- What a group that is put in its place knows.
    lookup_put :
        (g : LogicalShardGroup) (i : ℕ) (other : StoreResource)
        → find_info other info.shard_id g
          ≡ (if same_address other store then some info else find_info other info.shard_id group)
        → find_info other i (group_at (set grown info.shard_id g) i)
          ≡ (if info.shard_id == i && same_address other store then some info else lookup c i other)
    lookup_put g i other e = elim (ℕ_discrete info.shard_id i) [
      | yes same ↦
          subst
            (λ j. find_info other j (group_at (set grown info.shard_id g) j) ≡ (
              if info.shard_id == j && same_address other store
              then some info
              else lookup c j other))
            same
            (rw
              (
                ==_refl info.shard_id,
                get_or-set_self grown info.shard_id g [] long_enough,
                ← group_at-grow_to (info.shard_id + 1) c.logical_shards info.shard_id,
              )
              e)
      | no differ ↦
          let other_id : (info.shard_id == i) ≡ false = ground arith in
          rw (
            other_id,
            get_or-set_ne grown info.shard_id i g [] differ,
            group_at-grow_to (info.shard_id + 1) c.logical_shards i,
          )
    ]

    some_groups : 0 < length (set grown info.shard_id sorted)
    some_groups = omega (arith, long_enough, length-set grown info.shard_id sorted)

    -- After SetShard the cluster knows the new shard info for the shard on the store, and knows of
    -- any other shard or store what it knew; the call returns what it knew of this one. This holds
    -- for the shards below the cluster size that the shard reports, and for all shards if that is
    -- the size that the cluster expects already. Before the call every node must be in the group of
    -- its shard, and every store at most once in a group.
    pub lookup-set_shard :
        (i : ℕ) (other : StoreResource)
        → (c.expected_size ≡ info.cluster_size) ⊎ (i < info.cluster_size)
        → (lookup (set_shard c store info).0 i other ≡ (
            if info.shard_id == i && same_address other store then some info else lookup c i other))
          × ((set_shard c store info).1 ≡ lookup c info.shard_id store)
    lookup-set_shard i other k =
        let same_group = group_at-grow_to (info.shard_id + 1) c.logical_shards info.shard_id in
        elim (Option-cases (find_info store info.shard_id group)) [
          | inl e ↦ rw (set_shard_new e) (
            rw
                (adopt_sizes-groups info
                  (record c { logical_shards = set grown info.shard_id sorted }) i some_groups k)
                (lookup_put sorted i other (
                  rw (find_info-sorted_shards other info.shard_id (length grown) _ (absent e))
                    (find_info-append other group node e))),
            rw same_group at (sym e),
          )
          | inr (old, e) ↦ rw (set_shard_found e) (
            lookup_put (update_info store info group) i other (
                find_info-update_info other store info old group
                  (grown_valid.distinct info.shard_id) e),
            rw same_group at (sym e),
          )
        ]
