-- ===== src/Topology/Groups/Updates.antt =====
-- Adding, updating and removing the nodes of a group.
use vasto.Prelude.{
  ℕ, ◌≡◌, refl, Bool, false, ◌||◌, [], ◌∷◌, ◌++◌, bytes_eq, bytes_eq_iff, if◌then◌else◌, none, some,
  arith,
}
use vasto.Pb.{StoreResource, ShardInfo, ClusterNode}
use vasto.Topology.Groups.{LogicalShardGroup, find_info, update_info, in_group}
use vasto.Topology.Groups.Laws.{IsOfShard, IsDistinct}

abbrev pub same_address : StoreResource → StoreResource → Bool
same_address s t = bytes_eq s.address t.address

-- Updating the shard info in place.
pub update_info-IsOfShard :
    (store : StoreResource) (info : ShardInfo) (g : LogicalShardGroup)
    → IsOfShard info.shard_id g
    → IsOfShard info.shard_id (update_info store info g)
unfolding update_info
update_info-IsOfShard store info [] h = tt
update_info-IsOfShard store info (n ∷ g) h = ground (arith, update_info-IsOfShard store info g)

in_group-update_info :
    (s store : StoreResource) (info : ShardInfo) (g : LogicalShardGroup)
    → in_group s (update_info store info g) ≡ in_group s g
unfolding update_info in_group
in_group-update_info s store info [] = refl
in_group-update_info s store info (n ∷ g) = ground (arith, in_group-update_info s store info g)

pub update_info-IsDistinct :
    (store : StoreResource) (info : ShardInfo) (g : LogicalShardGroup)
    → IsDistinct g
    → IsDistinct (update_info store info g)
unfolding update_info
update_info-IsDistinct store info [] d = tt
update_info-IsDistinct store info (n ∷ g) d =
    ground (
      arith,
      in_group-update_info n.store_resource store info g,
      update_info-IsDistinct store info g,
    )

pub find_info-update_info :
    (s store : StoreResource) (info old : ShardInfo) (g : LogicalShardGroup)
    → IsDistinct g
    → find_info store info.shard_id g ≡ some old
    → find_info s info.shard_id (update_info store info g)
      ≡ (if same_address s store then some info else find_info s info.shard_id g)
unfolding update_info find_info
find_info-update_info s store info old [] d h = cc
find_info-update_info s store info old (n ∷ g) d h = ground (
  arith,
  find_info-update_info s store info old g,
  bytes_eq_iff s.address store.address,
  bytes_eq_iff n.store_resource.address store.address,
  bytes_eq_iff n.store_resource.address s.address,
)

-- Appending a node.
in_group-append :
    (s : StoreResource) (g : LogicalShardGroup) (n : ClusterNode)
    → in_group s (g ++ (n ∷ [])) ≡ (in_group s g || same_address n.store_resource s)
unfolding in_group
in_group-append s [] n = ground arith
in_group-append s (m ∷ g) n = ground (arith, in_group-append s g n)

-- A store that a group of the shard knows nothing of is not in it.
pub in_group-find_info :
    (store : StoreResource) (k : ℕ) (g : LogicalShardGroup)
    → IsOfShard k g
    → find_info store k g ≡ none
    → in_group store g ≡ false
unfolding in_group find_info
in_group-find_info store k [] h e = refl
in_group-find_info store k (n ∷ g) h e = ground (arith, in_group-find_info store k g)

pub append-IsDistinct :
    (g : LogicalShardGroup) (n : ClusterNode)
    → IsDistinct g
    → in_group n.store_resource g ≡ false
    → IsDistinct (g ++ (n ∷ []))
unfolding in_group
append-IsDistinct [] n d h = (refl, tt)
append-IsDistinct (m ∷ g) n d h = ground (
  arith,
  in_group-append m.store_resource g n,
  append-IsDistinct g n,
  bytes_eq_iff m.store_resource.address n.store_resource.address,
  bytes_eq_iff n.store_resource.address m.store_resource.address,
)

pub find_info-append :
    (s : StoreResource) (g : LogicalShardGroup) (n : ClusterNode)
    → find_info n.store_resource n.shard_info.shard_id g ≡ none
    → find_info s n.shard_info.shard_id (g ++ (n ∷ [])) ≡ (
        if same_address s n.store_resource
        then some n.shard_info
        else find_info s n.shard_info.shard_id g)
unfolding find_info
find_info-append s [] n h = ground (
  arith,
  bytes_eq_iff s.address n.store_resource.address,
  bytes_eq_iff n.store_resource.address s.address,
)
find_info-append s (m ∷ g) n h = ground (
  arith,
  find_info-append s g n,
  bytes_eq_iff s.address n.store_resource.address,
  bytes_eq_iff m.store_resource.address s.address,
  bytes_eq_iff m.store_resource.address n.store_resource.address,
)
