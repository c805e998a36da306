-- ===== src/Topology/Groups/Removal.antt =====
-- Taking nodes out of a group.
use vasto.Prelude.{
  ℕ, ◌≡◌, refl, false, not, ◌&&◌, [], ◌∷◌, bytes_eq_iff, if◌then◌else◌, none, some, arith,
}
use vasto.Pb.{StoreResource}
use vasto.Topology.Groups.{LogicalShardGroup, find_info, remove_node, in_group, keep_others}
use vasto.Topology.Groups.Laws.{IsOfShard, IsDistinct}
use vasto.Topology.Groups.Updates.{same_address}

-- Keeping the nodes of the other stores.
pub keep_others-IsOfShard :
    (store : StoreResource) (k : ℕ) (g : LogicalShardGroup)
    → IsOfShard k g
    → IsOfShard k (keep_others store g)
unfolding keep_others
keep_others-IsOfShard store k [] h = tt
keep_others-IsOfShard store k (n ∷ g) h = ground (arith, keep_others-IsOfShard store k g)

pub in_group-keep_others :
    (s store : StoreResource) (g : LogicalShardGroup)
    → in_group s (keep_others store g) ≡ (not (same_address s store) && in_group s g)
unfolding keep_others in_group
in_group-keep_others s store [] = ground arith
in_group-keep_others s store (n ∷ g) = ground (
  arith,
  in_group-keep_others s store g,
  bytes_eq_iff s.address store.address,
  bytes_eq_iff n.store_resource.address store.address,
  bytes_eq_iff n.store_resource.address s.address,
)

pub keep_others-IsDistinct :
    (store : StoreResource) (g : LogicalShardGroup)
    → IsDistinct g
    → IsDistinct (keep_others store g)
unfolding keep_others
keep_others-IsDistinct store [] d = tt
keep_others-IsDistinct store (n ∷ g) d =
    ground (arith, in_group-keep_others n.store_resource store g, keep_others-IsDistinct store g)

pub find_info-keep_others :
    (s store : StoreResource) (k : ℕ) (g : LogicalShardGroup)
    → find_info s k (keep_others store g) ≡ (if same_address s store then none else find_info s k g)
unfolding keep_others find_info
find_info-keep_others s store k [] = ground arith
find_info-keep_others s store k (n ∷ g) = ground (
  arith,
  find_info-keep_others s store k g,
  bytes_eq_iff s.address store.address,
  bytes_eq_iff n.store_resource.address store.address,
  bytes_eq_iff n.store_resource.address s.address,
)

-- Nothing of a store that is not in the group is kept out.
keep_others-absent :
    (store : StoreResource) (g : LogicalShardGroup)
    → in_group store g ≡ false
    → keep_others store g ≡ g
unfolding keep_others in_group
keep_others-absent store [] h = refl
keep_others-absent store (n ∷ g) h = ground (arith, keep_others-absent store g)

-- In a group of the shard with distinct stores, removing the first node that matches keeps the
-- nodes of the other stores.
pub remove_node-keep_others :
    (store : StoreResource) (k : ℕ) (g : LogicalShardGroup)
    → IsOfShard k g
    → IsDistinct g
    → remove_node store k g ≡ (if in_group store g then some (keep_others store g) else none)
unfolding remove_node in_group keep_others
remove_node-keep_others store k [] h d = refl
remove_node-keep_others store k (n ∷ g) h d = ground (
  arith,
  remove_node-keep_others store k g,
  keep_others-absent store g,
  bytes_eq_iff n.store_resource.address store.address,
)
