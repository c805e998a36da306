-- ===== src/Master/Topology.antt =====
-- cmd/master/master_topology.go: the keyspaces and the stores that the master knows.
use vasto.Prelude.{ℕ, Bool, true, false, List, Bytes, Option, none, some}
use vasto.Prelude.Maps.{find, assign, erase}
use vasto.Pb.{StoreResource}
use vasto.Topology.Cluster.{Cluster, new_cluster, set_expected_size, set_replication_factor}

-- A keyspace has a cluster, or a nil pointer.
abbrev pub Keyspaces : Type 0
Keyspaces = List (Bytes × Option Cluster)

abbrev pub DataCenter : Type 0
DataCenter = List (Bytes × StoreResource)

unfoldable pub get_or_create_keyspace : Bytes → Keyspaces → Keyspaces × Option Cluster
get_or_create_keyspace name m = elim (find name m) [
  | none ↦ (assign name none m, none)
  | some c ↦ (m, c)
]

unfoldable pub get_keyspace : Bytes → Keyspaces → Option (Option Cluster)
get_keyspace name m = find name m

unfoldable pub remove_keyspace : Bytes → Keyspaces → Keyspaces
remove_keyspace name m = erase name m

-- The Boolean is `isNew`.
unfoldable pub do_get_or_create_cluster : Bytes → Option Cluster → ℕ → ℕ → Cluster × Bool
do_get_or_create_cluster name (some c) size replication = (c, false)
do_get_or_create_cluster name none size replication = (new_cluster name size replication, true)

unfoldable pub get_or_create_cluster : Bytes → Option Cluster → ℕ → ℕ → Cluster
get_or_create_cluster name k size replication =
    let c = (do_get_or_create_cluster name k size replication).0 in
    record c { layout = set_replication_factor replication (set_expected_size size c.layout) }

-- The resource that was there, if there was one; it stays.
unfoldable pub upsert_server : StoreResource → DataCenter → DataCenter × Option StoreResource
upsert_server s dc = elim (find s.address dc) [
  | none ↦ (assign s.address s dc, none)
  | some existing ↦ (dc, some existing)
]

unfoldable pub delete_server : StoreResource → DataCenter → DataCenter × Option StoreResource
delete_server s dc = elim (find s.address dc) [
  | none ↦ (dc, none)
  | some existing ↦ (erase s.address dc, some existing)
]
