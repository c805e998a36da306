-- ===== src/Topology/Ring/Placement.antt =====
-- The placement of replicas around the ring, seen from the shard and from the server.
use vasto.Prelude.{
  ℕ, zero, suc, ◌+◌, ◌-◌, ◌≤◌, ◌<◌, min, ◌≡◌, ◌≢◌, refl, Bool, true, false, ◌&&◌, not, ltb, leb,
  ◌==◌, if◌then◌else◌, arith, Bool-cases, ltb→lt, ==_refl, inl, inr,
}
use vasto.Topology.Ring.{
  ClusterShard, server_at, shard_at, peer_loop, partition_loop, local_loop, peer_shards,
  partition_shards, local_shards, has_shard_id, is_shard_in_local, shard_list_contains,
}

-- How far a server stands behind the primary of a shard, on a ring of `size` servers.
abbrev pub distance : ℕ → ℕ → ℕ → ℕ
distance size shard server = if leb shard server then server - shard else server + size - shard

-- The server is one of the replicas of the shard.
abbrev pub holds : ℕ → ℕ → ℕ → ℕ → Bool
holds shard server size replication =
    ltb shard size && (ltb server size && ltb (distance size shard server) (min replication size))

-- A window of rounds, from `i` on.
abbrev in_window : ℕ → ℕ → ℕ → Bool
in_window n i d = leb i d && ltb d (i + n)

in_window_step :
    (n i d : ℕ) → in_window (suc n) i d ≡ (if i == d then true else in_window n (suc i) d)
in_window_step n i d = ground arith

pub distance-server_at :
    (size shard i : ℕ)
    → shard < size
    → i < size
    → (distance size shard (server_at size shard i) ≡ i) × (server_at size shard i < size)
unfolding server_at
distance-server_at size shard i hs hi = ground arith

module _ (size shard server : ℕ) where
  server_at-distance :
      (i : ℕ)
      → shard < size
      → i < size
      → server < size
      → (server_at size shard i == server) ≡ (i == distance size shard server)
  unfolding server_at
  server_at-distance i hs hi hv = ground arith

  pub server_at-in_range :
      (i : ℕ) → shard < size → i < size → size ≤ server → (server_at size shard i == server) ≡ false
  unfolding server_at
  server_at-in_range i hs hi hv = ground arith

  shard_at-distance :
      (i : ℕ)
      → server < size
      → i < size
      → shard < size
      → (shard == shard_at size server i) ≡ (i == distance size shard server)
  unfolding shard_at
  shard_at-distance i hs hi hv = ground arith

  shard_at-in_range :
      (i : ℕ) → server < size → i < size → size ≤ shard → (shard == shard_at size server i) ≡ false
  unfolding shard_at
  shard_at-in_range i hs hi hv = ground arith

  pub contains-partition_ne :
      (other n i : ℕ)
      → other ≢ shard
      → shard_list_contains
          (partition_loop size shard n i)
          (record { shard_id = other; server_id = server })
        ≡ false
  unfolding shard_list_contains partition_loop
  contains-partition_ne other zero i h = refl
  contains-partition_ne other (suc n) i h = ground (arith, contains-partition_ne other n (suc i))

  pub contains-partition_loop :
      (n i : ℕ)
      → shard < size
      → i + n ≤ size
      → shard_list_contains
          (partition_loop size shard n i)
          (record { shard_id = shard; server_id = server })
        ≡ (ltb server size && in_window n i (distance size shard server))
  unfolding shard_list_contains partition_loop
  contains-partition_loop zero i hs h = ground arith
  contains-partition_loop (suc n) i hs h = elim (Bool-cases (ltb server size)) [
    | inl e ↦ rw (
      e,
      ==_refl shard,
      server_at-distance i hs (omega arith) (ltb→lt _ _ e),
      in_window_step n i,
      contains-partition_loop n (suc i) hs (omega arith),
      e,
    )
    | inr e ↦ rw (
      e,
      ==_refl shard,
      server_at-in_range i hs (omega arith) (ground arith),
      contains-partition_loop n (suc i) hs (omega arith),
      e,
    )
  ]

  has-local_loop :
      (n i : ℕ)
      → server < size
      → i + n ≤ size
      → has_shard_id shard (local_loop size server n i)
        ≡ (ltb shard size && in_window n i (distance size shard server))
  unfolding has_shard_id local_loop
  has-local_loop zero i hs h = ground arith
  has-local_loop (suc n) i hs h = elim (Bool-cases (ltb shard size)) [
    | inl e ↦ rw (
      e,
      shard_at-distance i hs (omega arith) (ltb→lt _ _ e),
      in_window_step n i,
      has-local_loop n (suc i) hs (omega arith),
      e,
    )
    | inr e ↦ rw (
      e,
      shard_at-in_range i hs (omega arith) (ground arith),
      has-local_loop n (suc i) hs (omega arith),
      e,
    )
  ]

contains-peer_loop :
    (self size shard n i : ℕ) (t : ClusterShard)
    → shard_list_contains (peer_loop self size shard n i) t
      ≡ (not (t.server_id == self) && shard_list_contains (partition_loop size shard n i) t)
unfolding shard_list_contains peer_loop partition_loop
contains-peer_loop self size shard zero i t = ground arith
contains-peer_loop self size shard (suc n) i t =
    ground (arith, contains-peer_loop self size shard n (suc i) t)

-- A server has a shard among its local shards exactly when it stands less than
-- min(replicationFactor, clusterSize) places behind the shard's primary, both ids being in range.
pub is_shard_in_local-holds :
    (shard server size replication : ℕ)
    → is_shard_in_local shard server size replication ≡ holds shard server size replication
unfolding is_shard_in_local local_shards has_shard_id
is_shard_in_local-holds shard server size replication =
    ground (arith, has-local_loop size shard server (min replication size) 0)

-- A partition lists a server for a shard exactly when the server holds the shard; so the list that
-- a shard has of its replicas and the list that a server has of its shards agree.
pub partition_shards-local :
    (self shard server size replication : ℕ)
    → shard_list_contains
        (partition_shards self shard size replication)
        (record { shard_id = shard; server_id = server })
      ≡ is_shard_in_local shard server size replication
unfolding partition_shards shard_list_contains
partition_shards-local self shard server size replication = ground (
  arith,
  is_shard_in_local-holds shard server size replication,
  contains-partition_loop size shard server (min replication size) 0,
)

-- The peers of a server for a shard are the shard's partition without the server itself.
pub peer_shards-partition :
    (self shard size replication : ℕ) (t : ClusterShard)
    → shard_list_contains (peer_shards self shard size replication) t ≡ (
        not (t.server_id == self)
        && shard_list_contains (partition_shards self shard size replication) t)
unfolding partition_shards peer_shards shard_list_contains
peer_shards-partition self shard size replication t =
    ground (arith, contains-peer_loop self size shard (min replication size) 0 t)
