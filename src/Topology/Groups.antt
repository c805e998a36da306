-- ===== src/Topology/Groups.antt =====
-- topology/cluster.go: one logical shard group, the nodes that hold the same shard.
pub mod Laws
pub mod Removal
pub mod Updates
use mathlib.Core.Option
use vasto.Prelude.{
  ℕ, zero, suc, ◌+◌, Bool, true, false, ◌&&◌, List, [], ◌∷◌, ◌++◌, bytes_eq, get_or, ◌==◌,
  if◌then◌else◌, Option, none, some,
}
use vasto.Prelude.Int.{ℤ, pos, pos_part, neg_part, sub_ℕ, ltb_ℤ}
use vasto.Prelude.Sort.{sort_slice}
use vasto.Pb.{StoreResource, ShardInfo, ClusterNode}
use vasto.Pb.Identifier.{identifier_on_this_server}

abbrev pub LogicalShardGroup : Type 0
LogicalShardGroup = List ClusterNode

-- The group of a shard, nil past the end.
abbrev pub group_at : List LogicalShardGroup → ℕ → LogicalShardGroup
group_at shards i = get_or shards i []

-- `x := ServerId - ShardId; if x < 0 { x += clusterSize }`
unfoldable pub rank : ℕ → ClusterNode → ℤ
rank size n =
    let x = sub_ℕ n.shard_info.server_id n.shard_info.shard_id in
    if ltb_ℤ x (pos 0) then sub_ℕ (pos_part x + size) (neg_part x) else x

abbrev pub less_rank : ℕ → ClusterNode → ClusterNode → Bool
less_rank size a b = ltb_ℤ (rank size a) (rank size b)

unfoldable pub sorted_shards : LogicalShardGroup → ℕ → LogicalShardGroup
sorted_shards group size = sort_slice (less_rank size) group

-- The node stands for this shard on this store.
abbrev pub matches : StoreResource → ℕ → ClusterNode → Bool
matches store shard n =
    bytes_eq n.store_resource.address store.address && n.shard_info.shard_id == shard

-- The shard info of the first node that matches.
unfoldable pub find_info : StoreResource → ℕ → LogicalShardGroup → Option ShardInfo
find_info store shard [] = none
find_info store shard (n ∷ rest) =
    if matches store shard n then some n.shard_info else find_info store shard rest

-- The first node that matches gets new shard info.
unfoldable pub update_info : StoreResource → ShardInfo → LogicalShardGroup → LogicalShardGroup
update_info store info [] = []
update_info store info (n ∷ rest) =
    if matches store info.shard_id n
    then (record n { shard_info = info }) ∷ rest
    else n ∷ update_info store info rest

-- The first node of the same identifier gets the new store and shard info.
unfoldable pub replace_node :
    StoreResource → ShardInfo → LogicalShardGroup → Option LogicalShardGroup
replace_node store info [] = none
replace_node store info (n ∷ rest) =
    if bytes_eq (identifier_on_this_server n.shard_info) (identifier_on_this_server info)
    then some (record { store_resource = store; shard_info = info } ∷ rest)
    else Option.map (λ more. n ∷ more) (replace_node store info rest)

-- Without the first node that matches; `none` if there is none.
unfoldable pub remove_node : StoreResource → ℕ → LogicalShardGroup → Option LogicalShardGroup
remove_node store shard [] = none
remove_node store shard (n ∷ rest) =
    if matches store shard n
    then some rest
    else Option.map (λ more. n ∷ more) (remove_node store shard rest)

unfoldable pub in_group : StoreResource → LogicalShardGroup → Bool
in_group store [] = false
in_group store (n ∷ rest) =
    if bytes_eq n.store_resource.address store.address then true else in_group store rest

unfoldable pub in_groups : StoreResource → List LogicalShardGroup → Bool
unfolding in_group
in_groups store [] = false
in_groups store (g ∷ gs) = if in_group store g then true else in_groups store gs

-- The nodes of a group that stand on other stores, and the shard infos of those on this one.
unfoldable pub keep_others : StoreResource → LogicalShardGroup → LogicalShardGroup
keep_others store [] = []
keep_others store (n ∷ rest) =
    let more = keep_others store rest in
    if bytes_eq n.store_resource.address store.address then more else n ∷ more

unfoldable pub infos_on : StoreResource → LogicalShardGroup → List ShardInfo
infos_on store [] = []
infos_on store (n ∷ rest) =
    let more = infos_on store rest in
    if bytes_eq n.store_resource.address store.address then n.shard_info ∷ more else more

unfoldable pub infos_on_groups : StoreResource → List LogicalShardGroup → List ShardInfo
unfolding infos_on
infos_on_groups store [] = []
infos_on_groups store (g ∷ gs) = infos_on store g ++ infos_on_groups store gs
