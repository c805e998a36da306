-- ===== src/Topology/Cluster/Removal.antt =====
-- Taking the nodes of a store out of a layout: what RemoveShard and RemoveStore share.
use vasto.Prelude.{
  ℕ, ◌<◌, ◌≡◌, refl, subst, Bool, true, false, ◌&&◌, List, [], ◌∷◌, length, set, ◌==◌,
  if◌then◌else◌, Bool-cases, inl, inr, none, arith, get_or-set_self, get_or-set_ne, ==_refl,
  bytes_eq_iff,
}
use native.Mathlib.Decide.{ℕ_discrete}
use vasto.Pb.{StoreResource, ShardInfo}
use vasto.Topology.Groups.{
  LogicalShardGroup, group_at, find_info, sorted_shards, in_group, keep_others,
}
use vasto.Topology.Groups.Laws.{
  IsOfShard, IsDistinct, sorted_shards-IsOfShard, sorted_shards-IsDistinct, find_info-sorted_shards,
}
use vasto.Topology.Groups.Updates.{same_address}
use vasto.Topology.Groups.Removal.{
  keep_others-IsOfShard, keep_others-IsDistinct, find_info-keep_others, remove_node-keep_others,
}
use vasto.Topology.Cluster.{Layout, current_size, drop_shard, reset_if_empty}
use vasto.Topology.Cluster.Valid.{IsValid, set-IsValid, replicate-IsValid}
use vasto.Topology.Cluster.SetShard.{lookup}
use vasto.Topology.Cluster.Size.{current_size_lem}

abbrev pub is_at : ℕ → StoreResource → ℕ → StoreResource → Bool
is_at shard store i other = shard == i && same_address other store

-- A group that a store is not in knows nothing of it.
pub find_info-absent :
    (s store : StoreResource) (k : ℕ) (g : LogicalShardGroup)
    → same_address s store ≡ true
    → in_group store g ≡ false
    → find_info s k g ≡ none
unfolding find_info in_group
find_info-absent s store k [] a h = refl
find_info-absent s store k (n ∷ g) a h = ground (
  arith,
  find_info-absent s store k g,
  bytes_eq_iff s.address store.address,
  bytes_eq_iff n.store_resource.address store.address,
  bytes_eq_iff n.store_resource.address s.address,
)

-- The group of a layout with the others of a store left.
module _ (store : StoreResource) (k size : ℕ) (g : LogicalShardGroup) (p : IsOfShard k g)
    (d : IsDistinct g) where
  abbrev pub kept : LogicalShardGroup
  kept = sorted_shards (keep_others store g) size

  pub kept-IsOfShard : IsOfShard k kept
  kept-IsOfShard = sorted_shards-IsOfShard k size _ (keep_others-IsOfShard store k g p)

  pub kept-IsDistinct : IsDistinct kept
  kept-IsDistinct = sorted_shards-IsDistinct size _ (keep_others-IsDistinct store g d)

  pub kept_info :
      (s : StoreResource)
      → find_info s k kept ≡ (if same_address s store then none else find_info s k g)
  kept_info s =
      rw
        (
          find_info-sorted_shards s k size (keep_others store g) (keep_others-IsDistinct store g d),
          find_info-keep_others s store k g,
        )
        refl

module _ (c : Layout) (store : StoreResource) (info : ShardInfo) (v : IsValid c) where
  abbrev group : LogicalShardGroup
  group = group_at c.logical_shards info.shard_id

  abbrev size : ℕ
  size = length c.logical_shards

  abbrev rest : LogicalShardGroup
  rest = kept store info.shard_id size group (v.placed info.shard_id) (v.distinct info.shard_id)

  drop_shard_found :
      in_group store group ≡ true
      → drop_shard c store info
        ≡ record c { logical_shards = set c.logical_shards info.shard_id rest }
  unfolding drop_shard
  drop_shard_found e =
      rw
        (
          remove_node-keep_others store info.shard_id group (v.placed info.shard_id)
              (v.distinct info.shard_id),
          e,
          drop_shard,
        )
        refl

  drop_shard_absent : in_group store group ≡ false → drop_shard c store info ≡ c
  unfolding drop_shard
  drop_shard_absent e =
      rw
        (
          remove_node-keep_others store info.shard_id group (v.placed info.shard_id)
              (v.distinct info.shard_id),
          e,
          drop_shard,
        )
        refl

  pub drop_shard-IsValid : info.shard_id < size → IsValid (drop_shard c store info)
  drop_shard-IsValid h = elim (Bool-cases (in_group store group)) [
    | inl e ↦ rw (drop_shard_found e) (
        set-IsValid c.logical_shards info.shard_id rest h v
          (kept-IsOfShard store info.shard_id size group (v.placed info.shard_id)
            (v.distinct info.shard_id))
          (kept-IsDistinct store info.shard_id size group (v.placed info.shard_id)
            (v.distinct info.shard_id)))
    | inr e ↦ rw (drop_shard_absent e) v
  ]

  abbrev pub Removed : Layout → ℕ → StoreResource → Type 0
  Removed after i other =
      lookup after i other ≡ (if is_at info.shard_id store i other then none else lookup c i other)

  pub absent-Removed :
      (i : ℕ) (other : StoreResource) → in_group store group ≡ false → Removed c i other
  absent-Removed i other e = elim (ℕ_discrete info.shard_id i) [
    | yes same ↦
        subst (λ j. Removed c j other) same
          (rw (==_refl info.shard_id)
            (ground (arith, find_info-absent other store info.shard_id group)))
    | no differ ↦ ground arith
  ]

  pub lookup-drop_shard :
      info.shard_id < size
      → (i : ℕ) (other : StoreResource) → Removed (drop_shard c store info) i other
  lookup-drop_shard h i other = elim (Bool-cases (in_group store group)) [
    | inl e ↦ rw (drop_shard_found e) (elim (ℕ_discrete info.shard_id i) [
      | yes same ↦
          subst
            (λ j.
              Removed (record c { logical_shards = set c.logical_shards info.shard_id rest }) j
                other)
            same
            (rw (==_refl info.shard_id, get_or-set_self c.logical_shards info.shard_id rest [] h)
              (kept_info store info.shard_id size group (v.placed info.shard_id)
                (v.distinct info.shard_id) other))
      | no differ ↦
          let other_id : (info.shard_id == i) ≡ false = ground arith in
          rw (other_id, get_or-set_ne c.logical_shards info.shard_id i rest [] differ) refl
    ])
    | inr e ↦ rw (drop_shard_absent e) (absent-Removed i other e)
  ]

size_zero : (c : Layout) → (current_size c == 0) ≡ true → (i : ℕ) → group_at c.logical_shards i ≡ []
size_zero c e i = (current_size_lem c).1 i (ground arith)

pub reset_if_empty-IsValid : (c : Layout) → IsValid c → IsValid (reset_if_empty c)
unfolding reset_if_empty
reset_if_empty-IsValid c v = ground (arith, replicate-IsValid 0)

-- A reset forgets nothing: there is nothing to forget.
pub group_at-reset_if_empty :
    (c : Layout) (i : ℕ)
    → group_at (reset_if_empty c).logical_shards i ≡ group_at c.logical_shards i
unfolding reset_if_empty
group_at-reset_if_empty c i = elim (Bool-cases (current_size c == 0)) [
  | inl e ↦ rw (e, size_zero c e i) refl
  | inr e ↦ rw e refl
]

-- No group has a node of the store.
abbrev pub IsUnused : StoreResource → List LogicalShardGroup → Type 0
IsUnused store shards = (i : ℕ) → in_group store (group_at shards i) ≡ false
