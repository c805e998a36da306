-- ===== src/Master/Allocation/Laws.antt =====
-- Which servers are allocated.
use mathlib.Core.List.Perm
use vasto.Prelude.{
  ℕ, zero, suc, ◌+◌, ◌≤◌, ◌<◌, ◌≡◌, ◌⊎◌, inl, inr, refl, sym, subst, ◌∙◌, Bool, true, false, List,
  [], ◌∷◌, ◌++◌, Perm, bytes_eq, length, take, drop, ltb, ◌==◌, codes, All, none, some, arith,
  Bool-cases, length-take, take-append-drop,
}
use vasto.Prelude.Sort.{sort_slice, Perm-sort, sort-IsDescending, IsDescending, not_less}
use vasto.Prelude.Perms.{All-perm, All-imp, length-perm}
use vasto.Pb.{StoreResource, ClusterNode}
use vasto.Pb.Identifier.{decimal}
use vasto.Topology.Cluster.{Layout, get_node}
use vasto.Master.Allocation.{
  free_gb, fits, selected, has_more, allocate_servers, serves_none, allocate_new_servers,
}

module _ (filter : StoreResource → Bool) (required : ℕ) where
  selected-All :
      (servers : List StoreResource)
      → All (λ s. fits filter required s ≡ true) (selected filter required servers)
  unfolding selected
  selected-All [] = tt
  selected-All (s ∷ servers) = elim (Bool-cases (fits filter required s)) [
    | inl e ↦ rw e (e, selected-All servers)
    | inr e ↦ rw e (selected-All servers)
  ]

  -- The servers are `n` ones that pass the filter and have the space, and of those that do, the
  -- others have no more space than any of these.
  abbrev pub AreBest : ℕ → List StoreResource → List StoreResource → Type 0
  AreBest n servers chosen =
      (length chosen ≡ n)
      × All (λ s. (filter s ≡ true) × (required < free_gb s)) chosen
      × ((others : List StoreResource) × Perm (chosen ++ others) (selected filter required servers)
          × IsDescending free_gb (chosen ++ others))

  fits_both :
      (s : StoreResource)
      → fits filter required s ≡ true
      → (filter s ≡ true) × (required < free_gb s)
  unfolding fits
  fits_both s h = ground (arith, h)

  All-front {κ} :
      (P : StoreResource → Type κ) (xs ys : List StoreResource) → All P (xs ++ ys) → All P xs
  All-front P [] ys h = tt
  All-front P (x ∷ xs) ys h = (h.0, All-front P xs ys h.1)

  -- The allocation of `n` servers answers those that have most space among the servers that pass the
  -- filter and have more space than is required, the greatest first; if there are fewer than `n`, it
  -- answers none and an error.
  pub allocate_servers-AreBest :
      (n : ℕ) (servers : List StoreResource)
      → (((allocate_servers filter required n servers).1 ≡ none)
          × AreBest n servers (allocate_servers filter required n servers).0)
        ⊎ ((length (selected filter required servers) < n)
            × (allocate_servers filter required n servers ≡ (
              [],
              some (
                  codes "only has "
                  ++ (decimal (length (selected filter required servers))
                      ++ codes " servers meet the requirement")),
            )))
  unfolding allocate_servers has_more
  allocate_servers-AreBest n servers =
      let found = selected filter required servers in
      let sorted = sort_slice (not_less free_gb) found in
      elim (Bool-cases (ltb (length found) n)) [
        | inl few ↦ inr (ground (arith, few), rw few refl)
        | inr enough ↦
            let p = Perm-sort (not_less free_gb) found in
            let whole = take-append-drop n sorted in
            let fit =
              All-perm (λ s. fits filter required s ≡ true) (λ s. hlevel) found sorted (Perm.symm p)
                (selected-All servers) in
            inl (
              rw enough (
                refl,
                (
                  length-take n sorted ∙ ground (arith, enough, length-perm _ _ p),
                  All-imp fits_both (take n sorted) (
                      All-front (λ s. fits filter required s ≡ true) (take n sorted) (drop n sorted)
                        (subst (All (λ s. fits filter required s ≡ true)) (sym whole) fit)),
                  (
                    drop n sorted,
                    subst (λ l. Perm l found) (sym whole) p,
                    subst (IsDescending free_gb) (sym whole) (sort-IsDescending free_gb found),
                  ),
                ),
              ))
      ]

-- No node that is the first one of a shard below the expected size has the address of the server.
abbrev pub IsNew : Layout → StoreResource → Type 0
IsNew c server =
    (i : ℕ) (node : ClusterNode)
    → i < c.expected_size
    → get_node c i 0 ≡ some node
    → bytes_eq node.store_resource.address server.address ≡ false

serves_none_first :
    (n i : ℕ) (c : Layout) (server : StoreResource) (node : ClusterNode)
    → serves_none (suc n) i c server ≡ true
    → get_node c i 0 ≡ some node
    → bytes_eq node.store_resource.address server.address ≡ false
unfolding serves_none
serves_none_first n i c server node h found = ground (arith, found, h)

serves_none_rest :
    (n i : ℕ) (c : Layout) (server : StoreResource)
    → serves_none (suc n) i c server ≡ true
    → serves_none n (suc i) c server ≡ true
unfolding serves_none
serves_none_rest n i c server h = ground (arith, h)

serves_none-IsNew :
    (n i : ℕ) (c : Layout) (server : StoreResource)
    → serves_none n i c server ≡ true
    → (j : ℕ) (node : ClusterNode) → i ≤ j
    → j < i + n
    → get_node c j 0 ≡ some node
    → bytes_eq node.store_resource.address server.address ≡ false
serves_none-IsNew zero i c server h j node le lt known = absurd (omega arith)
serves_none-IsNew (suc n) i c server h j node le lt known = elim (Bool-cases (i == j)) [
  | inl here ↦
      let equal : j ≡ i = ground (arith, here) in
      serves_none_first n i c server node h (subst (λ k. get_node c k 0 ≡ some node) equal known)
  | inr later ↦
      serves_none-IsNew n (suc i) c server (serves_none_rest n i c server h) j node
        (ground (arith, later, le)) (omega (arith, lt)) known
]

-- The servers that are allocated for a resize, where there are any, are not those of the first
-- copies of the cluster's shards.
pub allocate_new_servers-IsNew :
    (c : Layout) (n : ℕ) (servers : List StoreResource)
    → All (IsNew c) (allocate_new_servers c n servers).0
unfolding allocate_new_servers
allocate_new_servers-IsNew c n servers =
    elim (allocate_servers-AreBest (serves_none c.expected_size 0 c) 1 n servers) [
      | inl (fine, (size, fit, best)) ↦
          All-imp
            (λ server h i node lt known.
              serves_none-IsNew c.expected_size 0 c server h.0 i node (omega arith)
                (omega (arith, lt)) known)
            _ fit
      | inr (few, none_found) ↦ rw none_found tt
    ]
