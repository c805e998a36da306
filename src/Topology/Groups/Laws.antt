-- ===== src/Topology/Groups/Laws.antt =====
-- What the operations on a group keep.
use vasto.Prelude.{
  ℕ, ◌≡◌, refl, Bool, true, false, ◌||◌, [], ◌∷◌, Bytes, bytes_eq, bytes_eq_iff, All, if◌then◌else◌,
  Option, none, some, arith,
}
use vasto.Prelude.Sort.{insert_sorted, sort_onto, sort_slice, All-sort}
use vasto.Pb.{StoreResource, ClusterNode}
use vasto.Topology.Groups.{
  LogicalShardGroup, less_rank, sorted_shards, matches, find_info, in_group,
}

-- Every node is of this shard.
abbrev pub IsOfShard : ℕ → LogicalShardGroup → Type 0
IsOfShard k = All (λ n. n.shard_info.shard_id ≡ k)

-- No two nodes are on the same store.
abbrev pub IsDistinct : LogicalShardGroup → Type 0
IsDistinct [] = Unit
IsDistinct (n ∷ rest) = (in_group n.store_resource rest ≡ false) × IsDistinct rest

abbrev same_store : StoreResource → ClusterNode → Bool
same_store store n = bytes_eq n.store_resource.address store.address

bytes_eq_sym : (a b : Bytes) → bytes_eq a b ≡ bytes_eq b a
bytes_eq_sym a b = ground (arith, bytes_eq_iff a b, bytes_eq_iff b a)

-- The first answer, or else the second.
abbrev or_else {ℓ} : {A : Type ℓ} → Option A → Option A → Option A
or_else none b = b
or_else (some a) b = some a

find_info-apart :
    (store : StoreResource) (k : ℕ) (x : ClusterNode) (g : LogicalShardGroup)
    → in_group x.store_resource g ≡ false
    → matches store k x ≡ true
    → find_info store k g ≡ none
unfolding find_info in_group
find_info-apart store k x [] h m = refl
find_info-apart store k x (n ∷ g) h m = ground (
  arith,
  find_info-apart store k x g,
  bytes_eq_iff x.store_resource.address store.address,
  bytes_eq_iff n.store_resource.address store.address,
  bytes_eq_iff n.store_resource.address x.store_resource.address,
)

module _ (less : ClusterNode → ClusterNode → Bool) where
  in_group-insert :
      (store : StoreResource) (x : ClusterNode) (g : LogicalShardGroup)
      → in_group store (insert_sorted less x g) ≡ (same_store store x || in_group store g)
  unfolding in_group insert_sorted
  in_group-insert store x [] = ground arith
  in_group-insert store x (n ∷ g) = ground (arith, in_group-insert store x g)

  IsDistinct-insert :
      (x : ClusterNode) (g : LogicalShardGroup)
      → in_group x.store_resource g ≡ false
      → IsDistinct g
      → IsDistinct (insert_sorted less x g)
  unfolding insert_sorted in_group
  IsDistinct-insert x [] h d = (refl, tt)
  IsDistinct-insert x (n ∷ g) h d = ground (
    arith,
    in_group-insert n.store_resource x g,
    bytes_eq_sym x.store_resource.address n.store_resource.address,
    IsDistinct-insert x g,
  )

  in_group-onto :
      (store : StoreResource) (acc g : LogicalShardGroup)
      → in_group store (sort_onto less acc g) ≡ (in_group store acc || in_group store g)
  unfolding in_group sort_onto
  in_group-onto store acc [] = ground arith
  in_group-onto store acc (n ∷ g) =
      ground (arith, in_group-onto store (insert_sorted less n acc) g, in_group-insert store n acc)

  -- No store of the one list is in the other.
  abbrev Apart : LogicalShardGroup → LogicalShardGroup → Type 0
  Apart acc g = All (λ n. in_group n.store_resource acc ≡ false) g

  Apart-insert :
      (n : ClusterNode) (acc g : LogicalShardGroup)
      → in_group n.store_resource g ≡ false
      → Apart acc g
      → Apart (insert_sorted less n acc) g
  unfolding in_group
  Apart-insert n acc [] h a = tt
  Apart-insert n acc (m ∷ g) h a = (
    ground (
      arith,
      in_group-insert m.store_resource n acc,
      bytes_eq_sym n.store_resource.address m.store_resource.address,
    ),
    Apart-insert n acc g (ground arith) a.1,
  )

  IsDistinct-onto :
      (acc g : LogicalShardGroup)
      → IsDistinct acc
      → IsDistinct g
      → Apart acc g
      → IsDistinct (sort_onto less acc g)
  unfolding sort_onto
  IsDistinct-onto acc [] d e a = d
  IsDistinct-onto acc (n ∷ g) d e a =
      IsDistinct-onto (insert_sorted less n acc) g (IsDistinct-insert n acc a.0 d) e.1
        (Apart-insert n acc g e.0 a.1)

  find_info-insert :
      (store : StoreResource) (k : ℕ) (x : ClusterNode) (g : LogicalShardGroup)
      → in_group x.store_resource g ≡ false
      → find_info store k (insert_sorted less x g)
        ≡ (if matches store k x then some x.shard_info else find_info store k g)
  unfolding find_info insert_sorted in_group
  find_info-insert store k x [] h = refl
  find_info-insert store k x (n ∷ g) h = ground (
    arith,
    find_info-insert store k x g,
    bytes_eq_iff x.store_resource.address store.address,
    bytes_eq_iff n.store_resource.address store.address,
    bytes_eq_iff n.store_resource.address x.store_resource.address,
  )

  find_info-onto :
      (store : StoreResource) (k : ℕ) (acc g : LogicalShardGroup)
      → IsDistinct g
      → Apart acc g
      → find_info store k (sort_onto less acc g)
        ≡ or_else (find_info store k acc) (find_info store k g)
  unfolding sort_onto find_info
  find_info-onto store k acc [] d a = ground arith
  find_info-onto store k acc (n ∷ g) d a =
      rw
        (
          find_info-onto store k (insert_sorted less n acc) g d.1 (Apart-insert n acc g d.0 a.1),
          find_info-insert store k n acc a.0,
        )
        (ground (arith, find_info-apart store k n acc a.0))

-- Sorting a group keeps its shard, its distinctness, its stores, and what it knows of each store.
pub sorted_shards-IsOfShard :
    (k size : ℕ) (g : LogicalShardGroup) → IsOfShard k g → IsOfShard k (sorted_shards g size)
unfolding sorted_shards
sorted_shards-IsOfShard k size g h = All-sort (less_rank size) _ g h

Apart-nil : (g : LogicalShardGroup) → All (λ n. in_group n.store_resource [] ≡ false) g
unfolding in_group
Apart-nil [] = tt
Apart-nil (n ∷ g) = (refl, Apart-nil g)

pub sorted_shards-IsDistinct :
    (size : ℕ) (g : LogicalShardGroup) → IsDistinct g → IsDistinct (sorted_shards g size)
unfolding sorted_shards sort_slice
sorted_shards-IsDistinct size g d = IsDistinct-onto (less_rank size) [] g tt d (Apart-nil g)

pub in_group-sorted_shards :
    (store : StoreResource) (size : ℕ) (g : LogicalShardGroup)
    → in_group store (sorted_shards g size) ≡ in_group store g
unfolding sorted_shards sort_slice in_group
in_group-sorted_shards store size g = in_group-onto (less_rank size) store [] g

pub find_info-sorted_shards :
    (store : StoreResource) (k size : ℕ) (g : LogicalShardGroup)
    → IsDistinct g
    → find_info store k (sorted_shards g size) ≡ find_info store k g
unfolding sorted_shards sort_slice find_info
find_info-sorted_shards store k size g d =
    find_info-onto (less_rank size) store k [] g d (Apart-nil g)
