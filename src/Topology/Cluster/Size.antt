-- ===== src/Topology/Cluster/Size.antt =====
-- CurrentSize.
use vasto.Prelude.{
  ℕ, zero, suc, ◌≤◌, ◌<◌, ◌≡◌, ◌≢◌, ◌⊎◌, inl, inr, refl, Bool-cases, List, [], ◌∷◌, length, ◌==◌,
  arith,
}
use vasto.Topology.Groups.{LogicalShardGroup, group_at}
use vasto.Topology.Cluster.{Layout, size_loop, current_size}

-- The last group that is not empty stands just below the size, if there is one.
abbrev IsSizeOf : List LogicalShardGroup → ℕ → Type 0
IsSizeOf shards n = (n ≡ 0) ⊎ ((last : ℕ) × (n ≡ suc last) × (length (group_at shards last) ≢ 0))

size_loop_last : (shards : List LogicalShardGroup) (n : ℕ) → IsSizeOf shards (size_loop shards n)
unfolding size_loop
size_loop_last shards zero = inl refl
size_loop_last shards (suc n) = elim (Bool-cases (length (group_at shards n) == 0)) [
  | inl e ↦ rw e (size_loop_last shards n)
  | inr e ↦ rw e (inr (n, refl, λ h. ground (arith, e, h)))
]

length-nil : (g : LogicalShardGroup) → length g ≡ 0 → g ≡ []
length-nil [] h = refl
length-nil (n ∷ g) h = absurd (omega arith)

-- Every group from the size on is empty.
size_loop_above :
    (shards : List LogicalShardGroup) (n i : ℕ)
    → size_loop shards n ≤ i
    → i < n
    → group_at shards i ≡ []
unfolding size_loop
size_loop_above shards zero i h k = absurd (omega arith)
size_loop_above shards (suc n) i h k =
    ground (arith, size_loop_above shards n i, length-nil (group_at shards i))

pub group_at-past :
    (shards : List LogicalShardGroup) (i : ℕ) → length shards ≤ i → group_at shards i ≡ []
group_at-past [] i h = refl
group_at-past (g ∷ shards) zero h = absurd (omega arith)
group_at-past (g ∷ shards) (suc i) h = group_at-past shards i (omega arith)

pub group_at-size_loop :
    (shards : List LogicalShardGroup) (i : ℕ)
    → size_loop shards (length shards) ≤ i
    → group_at shards i ≡ []
group_at-size_loop shards i h =
    ground (arith, size_loop_above shards (length shards) i, group_at-past shards i)

-- CurrentSize is 0, or one more than the number of a shard that has a node; and no shard from
-- there on has one.
pub current_size_lem :
    (c : Layout)
    → IsSizeOf c.logical_shards (current_size c)
      × ((i : ℕ) → current_size c ≤ i → group_at c.logical_shards i ≡ [])
unfolding current_size
current_size_lem c = (
  size_loop_last c.logical_shards (length c.logical_shards),
  λ i. group_at-size_loop c.logical_shards i,
)
