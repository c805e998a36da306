-- ===== src/Master/Allocation.antt =====
-- allocateServers and meetRequirement of cmd/master/master_topology_allocation.go, and the filter by
-- which cmd/master/master_server_for_admin_cluster_resize.go looks for new servers. The servers are
-- those of the data center in any order. The size that each server must have free, which the code
-- computes by a division of float64s, is an argument. The sort is the insertion sort that sort.Slice
-- runs on fewer than twelve elements: where twelve servers or more fit, the library may order those
-- with the same free space otherwise, and as ">=" is no strict order, it promises nothing of them.
pub mod Laws
use vasto.Prelude.{
  ℕ, zero, suc, ◌+◌, ◌-◌, ◌%◌, ◌^◌, Bool, true, false, not, ◌&&◌, List, [], ◌∷◌, ◌++◌, Bytes,
  bytes_eq, length, take, ltb, leb, if◌then◌else◌, codes, Option, none, some,
}
use vasto.Prelude.Sort.{sort_slice}
use vasto.Pb.{StoreResource, ClusterNode}
use vasto.Pb.Identifier.{decimal}
use vasto.Topology.Cluster.{Layout, get_node}

-- The numbers are uint32.
unfoldable pub free_gb : StoreResource → ℕ
free_gb server = (server.disk_size_gb + 2 ^ 32 - server.allocated_size_gb % 2 ^ 32) % 2 ^ 32

-- More free space comes first; servers with the same are each before the other.
unfoldable pub has_more : StoreResource → StoreResource → Bool
has_more a b = leb (free_gb b) (free_gb a)

module _ (filter : StoreResource → Bool) (each_required_gb : ℕ) where
  unfoldable pub fits : StoreResource → Bool
  fits server = filter server && ltb each_required_gb (free_gb server)

  unfoldable pub selected : List StoreResource → List StoreResource
  selected [] = []
  selected (server ∷ servers) =
      let rest = selected servers in if fits server then server ∷ rest else rest

  unfoldable pub allocate_servers : ℕ → List StoreResource → List StoreResource × Option Bytes
  allocate_servers n servers =
      let found = selected servers in
      if ltb (length found) n
      then (
        [],
        some (
            codes "only has " ++ (decimal (length found) ++ codes " servers meet the requirement")),
      )
      else (take n (sort_slice has_more found), none)

unfoldable pub has_tag : List Bytes → Bytes → Bool
has_tag [] tag = false
has_tag (existing ∷ tags) tag = if bytes_eq existing tag then true else has_tag tags tag

unfoldable pub meet_requirement : List Bytes → List Bytes → Bool
meet_requirement existing_tags [] = true
meet_requirement existing_tags (tag ∷ required_tags) =
    if has_tag existing_tags tag then meet_requirement existing_tags required_tags else false

-- The rounds that are left of the loop over `i`.
unfoldable pub serves_none : ℕ → ℕ → Layout → StoreResource → Bool
serves_none zero i c resource = true
serves_none (suc n) i c resource =
    let rest = serves_none n (suc i) c resource in
    elim (get_node c i 0) [
      | none ↦ rest
      | some node ↦ if bytes_eq node.store_resource.address resource.address then false else rest
    ]

-- For shards of 1 GB, divided by the number of servers and rounded up.
unfoldable pub allocate_new_servers :
    Layout → ℕ → List StoreResource → List StoreResource × Option Bytes
allocate_new_servers c n servers = allocate_servers (serves_none c.expected_size 0 c) 1 n servers
