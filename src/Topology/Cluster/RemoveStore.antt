-- ===== src/Topology/Cluster/RemoveStore.antt =====
-- RemoveStore.
use vasto.Prelude.{
  ℕ, zero, suc, ◌≡◌, refl, sym, List, [], ◌∷◌, map, length, if◌then◌else◌, none, bytes_eq_refl,
}
use vasto.Pb.{StoreResource}
use vasto.Topology.Groups.{LogicalShardGroup, group_at, sorted_shards, keep_others}
use vasto.Topology.Groups.Laws.{in_group-sorted_shards}
use vasto.Topology.Groups.Updates.{same_address}
use vasto.Topology.Groups.Removal.{in_group-keep_others}
use vasto.Topology.Cluster.{Layout, remove_store}
use vasto.Topology.Cluster.Valid.{IsValid}
use vasto.Topology.Cluster.SetShard.{lookup}
use vasto.Prelude.Sort.{sort_slice}
use vasto.Topology.Cluster.Removal.{kept-IsOfShard, kept-IsDistinct, kept_info, IsUnused}

pub group_at-map :
    (f : LogicalShardGroup → LogicalShardGroup) (shards : List LogicalShardGroup) (i : ℕ)
    → f [] ≡ []
    → group_at (map f shards) i ≡ f (group_at shards i)
group_at-map f [] i e = sym e
group_at-map f (g ∷ shards) zero e = refl
group_at-map f (g ∷ shards) (suc i) e = group_at-map f shards i e

module _ (c : Layout) (store : StoreResource) where
  abbrev clean : LogicalShardGroup → LogicalShardGroup
  clean g = sorted_shards (keep_others store g) (length c.logical_shards)

  clean-nil : clean [] ≡ []
  unfolding keep_others sorted_shards sort_slice
  clean-nil = refl

  group_at-remove_store :
      (i : ℕ)
      → group_at (remove_store c store).0.logical_shards i ≡ clean (group_at c.logical_shards i)
  unfolding remove_store
  group_at-remove_store i = group_at-map clean c.logical_shards i clean-nil

  -- After RemoveStore no shard of the cluster is on the store; what the cluster knows of the other
  -- stores stays, and it keeps the invariant.
  pub lookup-remove_store :
      IsValid c
      → IsValid (remove_store c store).0
        × IsUnused store (remove_store c store).0.logical_shards
        × ((i : ℕ) (other : StoreResource)
            → lookup (remove_store c store).0 i other
              ≡ (if same_address other store then none else lookup c i other))
  lookup-remove_store v = (
    record {
      placed = λ i.
          rw (group_at-remove_store i)
            (kept-IsOfShard store i (length c.logical_shards) _ (v.placed i) (v.distinct i));
      distinct = λ i.
          rw (group_at-remove_store i)
            (kept-IsDistinct store i (length c.logical_shards) _ (v.placed i) (v.distinct i));
    },
    λ i.
        rw
          (
            group_at-remove_store i,
            in_group-sorted_shards store (length c.logical_shards)
                (keep_others store (group_at c.logical_shards i)),
            in_group-keep_others store store (group_at c.logical_shards i),
            bytes_eq_refl store.address,
          )
          refl,
    λ i other.
        rw (group_at-remove_store i)
          (kept_info store i (length c.logical_shards) _ (v.placed i) (v.distinct i) other),
  )
