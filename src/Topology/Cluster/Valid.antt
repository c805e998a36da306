-- ===== src/Topology/Cluster/Valid.antt =====
-- The invariant of a layout: every node stands in the group of its shard, and no store holds a
-- shard twice.
use vasto.Prelude.{
  subst, ℕ, zero, suc, ◌-◌, ◌≤◌, ◌<◌, ◌≡◌, refl, List, [], ◌∷◌, ◌++◌, length, set, take, replicate,
  ltb, ◌==◌, if◌then◌else◌, get_or-set_self, get_or-set_ne, arith, length-append, length-replicate,
}
use native.Mathlib.Decide.{ℕ_discrete}
use vasto.Topology.Groups.{LogicalShardGroup, group_at}
use vasto.Topology.Groups.Laws.{IsOfShard, IsDistinct}
use vasto.Topology.Cluster.{Layout, grow_to}

abbrev pub AllGroups : (ℕ → LogicalShardGroup → Type 0) → List LogicalShardGroup → Type 0
AllGroups P shards = (i : ℕ) → P i (group_at shards i)

pub record IsValidShards (shards : List LogicalShardGroup) : Type 0 where
  pub placed : (i : ℕ) → IsOfShard i (group_at shards i)
  pub distinct : (i : ℕ) → IsDistinct (group_at shards i)

abbrev pub IsValid : Layout → Type 0
IsValid c = IsValidShards c.logical_shards

group_at-replicate : (n i : ℕ) → group_at (replicate n []) i ≡ []
group_at-replicate zero i = refl
group_at-replicate (suc n) zero = refl
group_at-replicate (suc n) (suc i) = group_at-replicate n i

group_at-append_nil :
    (shards : List LogicalShardGroup) (n i : ℕ)
    → group_at (shards ++ replicate n []) i ≡ group_at shards i
group_at-append_nil [] n i = group_at-replicate n i
group_at-append_nil (g ∷ shards) n zero = refl
group_at-append_nil (g ∷ shards) n (suc i) = group_at-append_nil shards n i

pub group_at-grow_to :
    (n : ℕ) (shards : List LogicalShardGroup) (i : ℕ)
    → group_at (grow_to n shards) i ≡ group_at shards i
unfolding grow_to
group_at-grow_to n shards i = ground (arith, group_at-append_nil shards (n - length shards) i)

pub length-grow_to : (n : ℕ) (shards : List LogicalShardGroup) → n ≤ length (grow_to n shards)
unfolding grow_to
length-grow_to n shards = ground (
  arith,
  length-append shards (replicate (n - length shards) []),
  length-replicate {A = LogicalShardGroup} (n - length shards) [],
)

pub group_at-take :
    (n : ℕ) (shards : List LogicalShardGroup) (i : ℕ)
    → group_at (take n shards) i ≡ (if ltb i n then group_at shards i else [])
group_at-take zero shards i = ground arith
group_at-take (suc n) [] i = ground arith
group_at-take (suc n) (g ∷ shards) zero = ground arith
group_at-take (suc n) (g ∷ shards) (suc i) = ground (arith, group_at-take n shards i)

pub group_at-set :
    (shards : List LogicalShardGroup) (k : ℕ) (g : LogicalShardGroup) (i : ℕ)
    → k < length shards
    → group_at (set shards k g) i ≡ (if k == i then g else group_at shards i)
group_at-set [] k g i h = absurd (omega arith)
group_at-set (x ∷ shards) zero g zero h = refl
group_at-set (x ∷ shards) zero g (suc i) h = ground arith
group_at-set (x ∷ shards) (suc k) g zero h = ground arith
group_at-set (x ∷ shards) (suc k) g (suc i) h = ground (arith, group_at-set shards k g i)

-- A property of every group is kept by a group that has it.
set-groups :
    (P : ℕ → LogicalShardGroup → Type 0) (shards : List LogicalShardGroup) (k : ℕ)
    (g : LogicalShardGroup)
    → k < length shards
    → AllGroups P shards
    → P k g
    → AllGroups P (set shards k g)
set-groups P shards k g h all p i = elim (ℕ_discrete k i) [
  | yes e ↦
      subst (λ j. P j (group_at (set shards k g) j)) e (rw (get_or-set_self shards k g [] h) p)
  | no e ↦ rw (get_or-set_ne shards k i g [] e) (all i)
]

-- A group that is valid may be put in its place.
pub set-IsValid :
    (shards : List LogicalShardGroup) (k : ℕ) (g : LogicalShardGroup)
    → k < length shards
    → IsValidShards shards
    → IsOfShard k g
    → IsDistinct g
    → IsValidShards (set shards k g)
set-IsValid shards k g h v p d = record {
  placed = set-groups IsOfShard shards k g h v.placed p;
  distinct = set-groups (λ _. IsDistinct) shards k g h v.distinct d;
}

pub grow_to-IsValid :
    (n : ℕ) (shards : List LogicalShardGroup)
    → IsValidShards shards
    → IsValidShards (grow_to n shards)
grow_to-IsValid n shards v = record {
  placed = λ i. rw (group_at-grow_to n shards i) (v.placed i);
  distinct = λ i. rw (group_at-grow_to n shards i) (v.distinct i);
}

pub take-IsValid :
    (n : ℕ) (shards : List LogicalShardGroup) → IsValidShards shards → IsValidShards (take n shards)
take-IsValid n shards v = record {
  placed = λ i. ground (arith, group_at-take n shards i, v.placed i);
  distinct = λ i. ground (arith, group_at-take n shards i, v.distinct i);
}

pub replicate-IsValid : (n : ℕ) → IsValidShards (replicate n [])
replicate-IsValid n = record {
  placed = λ i. rw (group_at-replicate n i) tt;
  distinct = λ i. rw (group_at-replicate n i) tt;
}
