-- ===== src/Master/Tests.antt =====
-- The master's theorems at concrete inputs.
use vasto.Prelude.{
  List, true, none, ◌⊎◌, ◌<◌, ◌++◌, length, ◌≡◌, refl, subst, false, [], ◌∷◌, bytes_eq, All, codes,
  some, arith, Bool-cases, inl, inr,
}
use vasto.Prelude.Maps.{find}
use vasto.Pb.{StoreResource, ready, ShardInfo}
use vasto.Topology.Cluster.{Cluster, new_cluster, new_layout}
use vasto.Topology.Cluster.Valid.{replicate-IsValid}
use vasto.Topology.Listener.Laws.{IsValidCluster, add_node-IsValid}
use vasto.Topology.Listener.{add_node}
use vasto.Pb.Identifier.{decimal}
use vasto.Master.Allocation.{allocate_servers, selected, allocate_new_servers}
use vasto.Master.Allocation.Laws.{
  AreBest, allocate_servers-AreBest, IsNew, allocate_new_servers-IsNew,
}
use vasto.Master.Resize.{adjust_and_broadcast}
use vasto.Master.Resize.Kept.{IsResized, adjust_and_broadcast-IsResized}
use vasto.Master.Topology.{Keyspaces}
use vasto.Master.Stores.{Seen, node_of, unregister_shards}
use vasto.Master.Stores.Clusters.{AllClusters}
use vasto.Master.Stores.Disconnect.{IsGone, unregister_shards-IsGone}

abbrev store : StoreResource
store = record {
  network = codes "tcp";
  address = codes "a";
  admin_address = codes "b";
  tags = [];
  disk_size_gb = 10;
  allocated_size_gb = 1;
}

abbrev info : ShardInfo
info = record {
  keyspace_name = codes "ks";
  server_id = 0;
  shard_id = 1;
  cluster_size = 2;
  replication_factor = 1;
  status = ready;
  is_candidate = false;
  is_permanent_delete = false;
}

-- A keyspace of two shards, of which the store has reported shard 1.
abbrev reported : Cluster
reported = (add_node (new_cluster (codes "ks") 2 1) (node_of info store)).0

abbrev keyspaces : Keyspaces
keyspaces = (codes "ks", some reported) ∷ []

abbrev seen : Seen
seen = (codes "ks.1", info) ∷ []

reported-IsValid : IsValidCluster reported
unfolding new_cluster new_layout
reported-IsValid =
    add_node-IsValid (new_cluster (codes "ks") 2 1) (node_of info store) (replicate-IsValid 2, tt)

keyspaces-IsValid : AllClusters (λ ks c. IsValidCluster c) keyspaces
unfolding find
keyspaces-IsValid ks c e = elim (Bool-cases (bytes_eq (codes "ks") ks)) [
  | inl same ↦
      let shown = rw same at e in
      let here : reported ≡ c = ground arith in subst IsValidCluster here reported-IsValid
  | inr differ ↦ let shown = rw differ at e in absurd (ground arith)
]

unregister_shards-IsGone_example :
    All
      (λ entry. AllClusters (IsGone store entry.1) (unregister_shards keyspaces store seen).0)
      seen
unregister_shards-IsGone_example =
    unregister_shards-IsGone store keyspaces seen keyspaces-IsValid (refl, tt)

abbrev big_store : StoreResource
big_store = record store { address = codes "c"; disk_size_gb = 50 }

abbrev servers : List StoreResource
servers = store ∷ big_store ∷ []

allocate_servers-AreBest_example :
    (((allocate_servers (λ s. true) 3 1 servers).1 ≡ none)
      × AreBest (λ s. true) 3 1 servers (allocate_servers (λ s. true) 3 1 servers).0)
    ⊎ ((length (selected (λ s. true) 3 servers) < 1)
        × (allocate_servers (λ s. true) 3 1 servers ≡ (
          [],
          some (
              codes "only has "
              ++ (decimal (length (selected (λ s. true) 3 servers))
                  ++ codes " servers meet the requirement")),
        )))
allocate_servers-AreBest_example = allocate_servers-AreBest (λ s. true) 3 1 servers

allocate_new_servers-IsNew_example :
    All
      (IsNew (new_layout (codes "ks") 3 1))
      (allocate_new_servers (new_layout (codes "ks") 3 1) 1 servers).0
allocate_new_servers-IsNew_example =
    allocate_new_servers-IsNew (new_layout (codes "ks") 3 1) 1 servers

adjust_and_broadcast-IsResized_example :
    IsResized 3 1 (adjust_and_broadcast (codes "ks") 3 (new_cluster (codes "ks") 2 1)).0
unfolding new_cluster new_layout
adjust_and_broadcast-IsResized_example =
    adjust_and_broadcast-IsResized (codes "ks") 3 (new_cluster (codes "ks") 2 1)
      (replicate-IsValid 2)
