-- ===== src/Master/Resize/Adjusted.antt =====
-- The cluster after a resize.
use mathlib.Core.Option.{some_inj}
use vasto.Prelude.{
  ℕ, zero, suc, ◌≡◌, ◌⊎◌, inl, inr, refl, sym, ap, subst, ◌∙◌, Bool, true, false, ◌||◌, List, [],
  ◌∷◌, ◌++◌, map, if◌then◌else◌, some, arith, Bool-cases,
}
use vasto.Pb.{StoreResource, ShardInfo, ClusterNode}
use vasto.Topology.Groups.{LogicalShardGroup, find_info, matches, group_at}
use vasto.Topology.Ring.{is_shard_in_local}
use vasto.Topology.Cluster.{Layout}
use vasto.Topology.Cluster.SetShard.{lookup}
use vasto.Topology.Cluster.RemoveStore.{group_at-map}
use vasto.Master.Resize.{all_nodes, stays, adjust_node, to_be_removed, adjust_layout}

unfoldable pub listed : StoreResource → ℕ → List ClusterNode → Bool
listed store i [] = false
listed store i (n ∷ nodes) = matches store i n || listed store i nodes

listed-append :
    (store : StoreResource) (i : ℕ) (xs ys : List ClusterNode)
    → listed store i (xs ++ ys) ≡ (listed store i xs || listed store i ys)
unfolding listed
listed-append store i [] ys = refl
listed-append store i (x ∷ xs) ys = ground (arith, listed-append store i xs ys)

not_found :
    (store : StoreResource) (i : ℕ) (info : ShardInfo) → find_info store i [] ≡ some info → ⊥
unfolding find_info
not_found store i info h = ground (arith, h)

module _ (size factor : ℕ) where
  to_be_removed-append :
      (xs ys : List ClusterNode)
      → to_be_removed size factor (xs ++ ys)
        ≡ to_be_removed size factor xs ++ to_be_removed size factor ys
  unfolding to_be_removed
  to_be_removed-append [] ys = refl
  to_be_removed-append (x ∷ xs) ys = elim (Bool-cases (stays size factor x)) [
    | inl e ↦ rw e (to_be_removed-append xs ys)
    | inr e ↦ rw e (ap (◌∷◌ x) (to_be_removed-append xs ys))
  ]

  listed-groups :
      (store : StoreResource) (k i : ℕ) (groups : List LogicalShardGroup)
      → listed store k (to_be_removed size factor (group_at groups i)) ≡ true
      → listed store k (to_be_removed size factor (all_nodes groups)) ≡ true
  unfolding all_nodes
  listed-groups store k i [] h = h
  listed-groups store k zero (g ∷ groups) h =
      rw
        (
          to_be_removed-append g (all_nodes groups),
          listed-append store k (to_be_removed size factor g)
              (to_be_removed size factor (all_nodes groups)),
          h,
        )
        refl
  listed-groups store k (suc i) (g ∷ groups) h =
      let later = listed-groups store k i groups h in
      rw
        (
          to_be_removed-append g (all_nodes groups),
          listed-append store k (to_be_removed size factor g)
              (to_be_removed size factor (all_nodes groups)),
          later,
        )
        (ground arith)

  -- The ring of the new size places the shard on the server, and the new size is known.
  abbrev pub IsAdjusted : ShardInfo → Type 0
  IsAdjusted info =
      (is_shard_in_local info.shard_id info.server_id size factor ≡ true)
      × (info.cluster_size ≡ size)

  matches-adjust_node :
      (store : StoreResource) (i : ℕ) (n : ClusterNode)
      → matches store i (adjust_node size factor n) ≡ matches store i n
  unfolding adjust_node
  matches-adjust_node store i n = elim (Bool-cases (stays size factor n)) [
    | inl e ↦ rw e refl
    | inr e ↦ rw e refl
  ]

  stays_local :
      (n : ClusterNode)
      → stays size factor n ≡ true
      → is_shard_in_local n.shard_info.shard_id n.shard_info.server_id size factor ≡ true
  unfolding stays
  stays_local n e = e

  adjust_node-IsAdjusted :
      (n : ClusterNode)
      → stays size factor n ≡ true
      → IsAdjusted (adjust_node size factor n).shard_info
  unfolding adjust_node
  adjust_node-IsAdjusted n e = rw e (stays_local n e, refl)

  listed-removed :
      (store : StoreResource) (i : ℕ) (n : ClusterNode) (g : List ClusterNode)
      → listed store i (to_be_removed size factor (n ∷ g)) ≡ (
          (if stays size factor n then false else matches store i n)
          || listed store i (to_be_removed size factor g))
  unfolding listed to_be_removed
  listed-removed store i n g = elim (Bool-cases (stays size factor n)) [
    | inl e ↦ rw e refl
    | inr e ↦ rw e refl
  ]

  find_cons :
      (store : StoreResource) (i : ℕ) (info : ShardInfo) (n : ClusterNode) (g : LogicalShardGroup)
      → find_info store i (n ∷ g) ≡ some info
      → ((matches store i n ≡ true) × (n.shard_info ≡ info)) ⊎ (find_info store i g ≡ some info)
  unfolding find_info
  find_cons store i info n g h = elim (Bool-cases (matches store i n)) [
    | inl e ↦ inl (e, some_inj.0 (rw e at h))
    | inr e ↦ inr (rw e at h)
  ]

  find_info-IsAdjusted :
      (store : StoreResource) (i : ℕ) (info : ShardInfo) (g : LogicalShardGroup)
      → find_info store i (map (adjust_node size factor) g) ≡ some info
      → IsAdjusted info ⊎ (listed store i (to_be_removed size factor g) ≡ true)
  find_info-IsAdjusted store i info [] h = absurd (not_found store i info h)
  find_info-IsAdjusted store i info (n ∷ g) h =
      elim (find_cons store i info (adjust_node size factor n) (map (adjust_node size factor) g)
        h) [
          | inl (here, e) ↦ elim (Bool-cases (stays size factor n)) [
            | inl local ↦ inl (subst IsAdjusted e (adjust_node-IsAdjusted n local))
            | inr gone ↦ inr (
                rw (listed-removed store i n g, gone)
                  (rw (sym (matches-adjust_node store i n) ∙ here) refl))
          ]
          | inr rest ↦ elim (find_info-IsAdjusted store i info g rest) [
            | inl fine ↦ inl fine
            | inr more ↦ inr (rw (listed-removed store i n g, more) (ground arith))
          ]
        ]

  pub adjust_layout-lookup :
      (c : Layout) (i : ℕ) (store : StoreResource) (info : ShardInfo)
      → lookup (adjust_layout size factor c) i store ≡ some info
      → IsAdjusted info
        ⊎ (listed store i (to_be_removed size factor (all_nodes c.logical_shards)) ≡ true)
  unfolding adjust_layout
  adjust_layout-lookup c i store info h =
      let here = rw (group_at-map (map (adjust_node size factor)) c.logical_shards i refl) at h in
      elim (find_info-IsAdjusted store i info (group_at c.logical_shards i) here) [
        | inl fine ↦ inl fine
        | inr gone ↦ inr (listed-groups store i i c.logical_shards gone)
      ]
