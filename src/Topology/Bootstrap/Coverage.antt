-- ===== src/Topology/Bootstrap/Coverage.antt =====
-- Every key that a shard owns after a topology change reaches the shard.
use native.Mathlib.Decide.{ℕ_discrete}
use vasto.Prelude.{
  ℕ, zero, suc, ◌+◌, ◌-◌, ◌≤◌, ◌<◌, min, ◌≡◌, ◌≢◌, ◌⊎◌, true, false, not, ◌==◌, Bool-cases, inl,
  inr, refl, ◌∙◌, ◌&&◌, ltb, leb, arith,
}
use vasto.Topology.Jump.{JumpHash, hash_between}
use vasto.Topology.Ring.{ClusterShard, partition_shards, is_shard_in_local, shard_list_contains}
use vasto.Topology.Ring.Placement.{
  partition_shards-local, is_shard_in_local-holds, contains-partition_ne,
}
use vasto.Topology.Bootstrap.{
  BootstrapRequest, BootstrapPlan, primaries, bootstrap_plan_with_topo_change, local_before,
  local_after,
}

abbrev pub primary : ℕ → ClusterShard
primary shard = record { shard_id = shard; server_id = shard }

contains-primaries :
    (n lo i : ℕ) → shard_list_contains (primaries n lo) (primary i) ≡ (leb lo i && ltb i (lo + n))
unfolding shard_list_contains primaries
contains-primaries zero lo i = ground arith
contains-primaries (suc n) lo i = ground (arith, contains-primaries n (suc lo) i)

-- A partition with a replica has its primary.
contains-partition_primary :
    (self shard size replication : ℕ)
    → shard < size
    → 0 < replication
    → shard_list_contains (partition_shards self shard size replication) (primary shard) ≡ true
contains-partition_primary self shard size replication h r = ground (
  arith,
  partition_shards-local self shard shard size replication,
  is_shard_in_local-holds shard shard size replication,
)

-- A shard that some server holds has a replica.
local-replicated :
    (shard server size replication : ℕ)
    → is_shard_in_local shard server size replication ≡ true
    → 0 < replication
local-replicated shard server size replication h =
    ground (arith, is_shard_in_local-holds shard server size replication)

-- A partition lists no other shard, on any server.
partition_shards-other :
    (self shard size replication : ℕ) (s : ClusterShard)
    → s.shard_id ≢ shard
    → shard_list_contains (partition_shards self shard size replication) s ≡ false
unfolding partition_shards shard_list_contains
partition_shards-other self shard size replication s h =
    ground (arith, contains-partition_ne size shard s.server_id s.shard_id (min replication size) 0)

-- The same as a test.
partition_shards-only :
    (self shard size replication : ℕ) (s : ClusterShard)
    → (shard_list_contains (partition_shards self shard size replication) s
        && not (s.shard_id == shard))
      ≡ false
partition_shards-only self shard size replication s = elim (ℕ_discrete s.shard_id shard) [
  | yes same ↦ ground arith
  | no differ ↦ rw (partition_shards-other self shard size replication s differ) refl
]

-- What the plan copies has the rows of this shard: its primary is a source, and if only one of the
-- sources is to be picked, none of them is another shard.
abbrev pub IsCopied : BootstrapPlan → ℕ → Type 0
IsCopied plan shard =
    (shard_list_contains plan.bootstrap_source (primary shard) ≡ true)
    × ((s : ClusterShard)
        → (plan.pick_best_bootstrap_source
            && (shard_list_contains plan.bootstrap_source s && not (s.shard_id == shard)))
          ≡ false)

IsCopied-picked :
    (p : BootstrapPlan) (self shard size replication : ℕ)
    → p.bootstrap_source ≡ partition_shards self shard size replication
    → shard < size
    → 0 < replication
    → IsCopied p shard
IsCopied-picked p self shard size replication e h r = rw e (
  contains-partition_primary self shard size replication h r,
  λ s. ground (arith, partition_shards-only self shard size replication s),
)

IsCopied-all :
    (p : BootstrapPlan) (n lo shard : ℕ)
    → p.bootstrap_source ≡ primaries n lo
    → p.pick_best_bootstrap_source ≡ false
    → lo ≤ shard
    → shard < lo + n
    → IsCopied p shard
IsCopied-all p n lo shard e every low high =
    rw (e, every) (contains-primaries n lo shard ∙ ground arith, λ s. refl)

module _ (jump : JumpHash) (req : BootstrapRequest) (key : ℕ) where
  open req use {server_id, shard_id, from_cluster_size, to_cluster_size, replication_factor}
  open jump use {hash, hash_lt}

  abbrev pub plan : BootstrapPlan
  plan = bootstrap_plan_with_topo_change req

  -- The shard that has the key before the change.
  abbrev pub old_shard : ℕ
  old_shard = hash key from_cluster_size

  -- When the cluster grows or keeps its size, a server that holds a shard afterwards either held
  -- the shard before, and the shard had the key already, or its plan copies the shard that had the
  -- key: the primary of that shard is a source, and where the plan reads only one of its sources, the
  -- best one, they are all copies of that shard. This is so for every key that the shard owns
  -- afterwards; the size before the change must not be zero.
  pub growing_plan_covers :
      0 < from_cluster_size
      → from_cluster_size ≤ to_cluster_size
      → local_after req ≡ true
      → hash key to_cluster_size ≡ shard_id
      → ((local_before req ≡ true) × (old_shard ≡ shard_id)) ⊎ IsCopied plan old_shard
  unfolding bootstrap_plan_with_topo_change shard_list_contains
  growing_plan_covers pos le after owns =
      let was = hash_lt key from_cluster_size pos in
      let moved = hash_between jump key from_cluster_size to_cluster_size pos le in
      let copies = local-replicated shard_id server_id to_cluster_size replication_factor after in
      elim (Bool-cases (leb from_cluster_size shard_id && ltb from_cluster_size to_cluster_size)) [
        | inl new ↦ inr (
            IsCopied-all plan from_cluster_size 0 old_shard (ground arith) (ground arith)
              (omega arith) (omega (arith, was)))
        | inr old ↦
            let kept : old_shard ≡ shard_id = ground arith in
            elim (Bool-cases (local_before req)) [
              | inl before ↦ inl (before, kept)
              | inr absent ↦ inr (
                  IsCopied-picked plan server_id old_shard from_cluster_size replication_factor
                    (ground arith) was copies)
            ]
      ]

  -- When the cluster shrinks to a size that is not zero, there are three cases for a server that
  -- holds a shard afterwards and a key that the shard owns afterwards. If the server held the shard
  -- before and the shard had the key, nothing is needed. If it held the shard and another one had the
  -- key, or did not hold it and it had the key, the plan copies the shard that had the key: the
  -- primary of that shard is a source, and where only one source is read, the best one, all are
  -- copies of that shard. If it did not hold the shard and another one had the key, that one retires,
  -- and the plan copies from none of its copies and only follows its primary.
  pub shrinking_plan_covers :
      0 < to_cluster_size
      → to_cluster_size < from_cluster_size
      → local_after req ≡ true
      → hash key to_cluster_size ≡ shard_id
      → ((local_before req ≡ true) × (old_shard ≡ shard_id))
        ⊎ ((local_before req ≡ not (old_shard == shard_id)) × IsCopied plan old_shard)
        ⊎ ((local_before req ≡ false)
            × (old_shard ≢ shard_id)
            × (to_cluster_size ≤ old_shard)
            × ((server : ℕ)
                → shard_list_contains plan.bootstrap_source
                    (record { shard_id = old_shard; server_id = server })
                  ≡ false)
            × (shard_list_contains plan.transitional_follow_source (primary old_shard) ≡ true))
  unfolding bootstrap_plan_with_topo_change shard_list_contains
  shrinking_plan_covers pos lt after owns =
      let was = hash_lt key from_cluster_size (omega arith) in
      let moved = hash_between jump key to_cluster_size from_cluster_size pos (omega arith) in
      let copies = local-replicated shard_id server_id to_cluster_size replication_factor after in
      let holds = is_shard_in_local-holds shard_id server_id to_cluster_size replication_factor in
      elim (Bool-cases (local_before req)) [
        | inl before ↦ elim (Bool-cases (old_shard == shard_id)) [
          | inl same ↦ inl (before, ground arith)
          | inr other ↦ inr (
              inl (
                ground arith,
                IsCopied-all plan (from_cluster_size - to_cluster_size) to_cluster_size old_shard
                    (ground arith) (ground arith) (ground arith) (omega arith),
              ))
        ]
        | inr absent ↦ elim (Bool-cases (old_shard == shard_id)) [
          | inl same ↦ inr (
              inl (
                ground arith,
                IsCopied-picked plan server_id old_shard from_cluster_size replication_factor
                    (ground arith) was copies,
              ))
          | inr other ↦ inr (
              inr (
                absent,
                ground arith,
                ground arith,
                λ server. ground (
                  arith,
                  partition_shards-other server_id shard_id from_cluster_size replication_factor
                      (record { shard_id = old_shard; server_id = server }),
                ),
                ground (
                  arith,
                  contains-primaries (from_cluster_size - to_cluster_size) to_cluster_size
                      old_shard,
                ),
              ))
        ]
      ]
