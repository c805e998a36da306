-- ===== src/Master/Stores/Clusters.antt =====
-- What a property of all clusters of the master needs to outlast the removal of a reported shard.
use vasto.Prelude.{
  ◌≡◌, refl, sym, ◌∙◌, subst, Bool, true, false, List, [], Bytes, bytes_eq, bytes_eq→eq, Bool-cases,
  Option-cases, inl, inr, Option, none, some, arith,
}
use vasto.Prelude.Maps.{find, assign, find-assign}
use vasto.Pb.{StoreResource, ShardInfo}
use vasto.Topology.Cluster.{Cluster, Layout}
use vasto.Topology.Listener.{remove_node}
use vasto.Master.Topology.{Keyspaces, get_or_create_keyspace}
use vasto.Master.Stores.{Notification, node_of, unless_skipped, unregister_from, unregister_shard}

-- A property of the cluster of every keyspace.
abbrev pub AllClusters : (Bytes → Cluster → Type 0) → Keyspaces → Type 0
AllClusters P m = (ks : Bytes) (c : Cluster) → find ks m ≡ some (some c) → P ks c

assign-AllClusters :
    (P Q : Bytes → Cluster → Type 0) (name : Bytes) (k : Option Cluster) (m : Keyspaces)
    → ((ks : Bytes) (c : Cluster) → bytes_eq name ks ≡ false → P ks c → Q ks c)
    → ((c : Cluster) → k ≡ some c → Q name c)
    → AllClusters P m
    → AllClusters Q (assign name k m)
assign-AllClusters P Q name k m keeps new all ks c e = elim (Bool-cases (bytes_eq name ks)) [
  | inl same ↦
      let shown = rw (find-assign name ks k m, same) at e in
      let here : k ≡ some c = ground arith in
      subst (λ j. Q j c) (bytes_eq→eq name ks same) (new c here)
  | inr differ ↦ keeps ks c differ (all ks c (rw (find-assign name ks k m, differ) at e))
]

module _ (store : StoreResource) (info : ShardInfo) (P Q : Bytes → Cluster → Type 0) where
  abbrev pub Keeps : Type 0
  Keeps = (ks : Bytes) (c : Cluster) → bytes_eq info.keyspace_name ks ≡ false → P ks c → Q ks c

  abbrev pub Removes : Type 0
  Removes =
      (c : Cluster)
      → P info.keyspace_name c
      → Q info.keyspace_name (remove_node c (node_of info store)).0

  -- A candidate may be passed over.
  abbrev pub Skips : Type 0
  Skips = (c : Cluster) → info.is_candidate ≡ true → P info.keyspace_name c → Q info.keyspace_name c

  skipped :
      (m : Keyspaces) (c : Cluster)
      → Keeps
      → Skips
      → info.is_candidate ≡ true
      → find info.keyspace_name m ≡ some (some c)
      → AllClusters P m
      → AllClusters Q m
  skipped m c keeps skips candidate here all ks d e =
      elim (Bool-cases (bytes_eq info.keyspace_name ks)) [
        | inl same ↦
            let name = bytes_eq→eq info.keyspace_name ks same in
            subst (λ j. Q j d) name
              (skips d candidate
                (all info.keyspace_name d (subst (λ j. find j m ≡ some (some d)) (sym name) e)))
        | inr differ ↦ keeps ks d differ (all ks d e)
      ]

  unless_skipped_lem :
      (candidate : Bool) (next : Option Layout) (m : Keyspaces)
      (gone : Keyspaces × List Notification)
      → (candidate ≡ true → AllClusters Q m)
      → AllClusters Q gone.0
      → AllClusters Q (unless_skipped candidate next (m, []) gone).0
  unfolding unless_skipped
  unless_skipped_lem true none m gone kept removed = kept refl
  unless_skipped_lem true (some next) m gone kept removed = removed
  unless_skipped_lem false next m gone kept removed = removed

  unregister_absent :
      (m : Keyspaces)
      → find info.keyspace_name m ≡ none
      → unregister_shard m store info ≡ (assign info.keyspace_name none m, [])
  unfolding unregister_shard get_or_create_keyspace
  unregister_absent m e = rw (e, unregister_shard) (rw (e, get_or_create_keyspace) refl)

  unregister_nil :
      (m : Keyspaces)
      → find info.keyspace_name m ≡ some none
      → unregister_shard m store info ≡ (m, [])
  unfolding unregister_shard get_or_create_keyspace
  unregister_nil m e = rw (e, unregister_shard) (rw (e, get_or_create_keyspace) refl)

  unregister_some :
      (m : Keyspaces) (c : Cluster)
      → find info.keyspace_name m ≡ some (some c)
      → unregister_shard m store info ≡ unregister_from m store info c
  unfolding unregister_shard get_or_create_keyspace
  unregister_some m c e = rw (e, unregister_shard) (rw (e, get_or_create_keyspace) refl)

  unregister_from-AllClusters :
      (m : Keyspaces) (c : Cluster)
      → Keeps
      → Removes
      → Skips
      → find info.keyspace_name m ≡ some (some c)
      → AllClusters P m
      → AllClusters Q (unregister_from m store info c).0
  unfolding unregister_from
  unregister_from-AllClusters m c keeps removes skips here all =
      let removed =
        assign-AllClusters P Q info.keyspace_name (some (remove_node c (node_of info store)).0) m
          keeps
          (λ d e.
            let same : (remove_node c (node_of info store)).0 ≡ d = ground arith in
            subst (Q info.keyspace_name) same (removes c (all info.keyspace_name c here)))
          all in
      unless_skipped_lem info.is_candidate c.next_cluster m _
        (λ candidate. skipped m c keeps skips candidate here all) removed

  pub unregister_shard-AllClusters :
      (m : Keyspaces)
      → Keeps
      → Removes
      → Skips
      → AllClusters P m
      → AllClusters Q (unregister_shard m store info).0
  unregister_shard-AllClusters m keeps removes skips all =
      elim (Option-cases (find info.keyspace_name m)) [
        | inl absent ↦ rw (unregister_absent m absent) (
            assign-AllClusters P Q info.keyspace_name none m keeps (λ c e. absurd (ground arith))
              all)
        | inr (none, here) ↦ rw (unregister_nil m here) (λ ks c e.
            elim (Bool-cases (bytes_eq info.keyspace_name ks)) [
              | inl same ↦
                  let name = bytes_eq→eq info.keyspace_name ks same in
                  let shown = sym here ∙ subst (λ j. find j m ≡ some (some c)) (sym name) e in
                  absurd (ground arith)
              | inr differ ↦ keeps ks c differ (all ks c e)
            ])
        | inr (some c, here) ↦
            rw (unregister_some m c here)
              (unregister_from-AllClusters m c keeps removes skips here all)
      ]
