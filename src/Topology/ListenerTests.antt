-- ===== src/Topology/ListenerTests.antt =====
-- The listener's theorems at concrete inputs.
use vasto.Prelude.{
  ◌≡◌, ap, sym, refl, subst, true, false, [], ◌∷◌, bytes_eq, Bool-cases, codes, none, some, arith,
  inl, inr,
}
use vasto.Topology.Cluster.{current_size, size_loop}
use vasto.Topology.Listener.{Clusters, get_cluster, has_connected_keyspace}
use vasto.Topology.Listener.Laws.{IsValidCluster}
use vasto.Topology.Listener.Messages.{ClientMessage, StoreResourceUpdate, process_client_message}
use vasto.Topology.Listener.Invariant.{IsPlain, AllValid, process_client_message-AllValid}
use vasto.Topology.Tests.{cluster, valid, node_on}

abbrev followed : Clusters
followed = (codes "ks", cluster) ∷ []

followed-AllValid : AllValid followed
unfolding get_cluster
followed-AllValid ks c e = elim (Bool-cases (bytes_eq (codes "ks") ks)) [
  | inl same ↦
      let shown = rw same at e in
      let here : cluster ≡ c = ground arith in subst IsValidCluster here (valid, tt)
  | inr differ ↦ let shown = rw differ at e in absurd (ground arith)
]

-- The second store leaves shard 0.
abbrev leaving : ClientMessage
leaving = record {
  cluster = none;
  updates = some record {
    nodes = node_on (codes "b") 1 0 ∷ [];
    is_delete = true;
    keyspace = codes "ks";
    is_promotion = false;
  };
  resize = none;
}

leaving-IsPlain : IsPlain leaving
leaving-IsPlain u e =
    ap (λ o. elim o [ none ↦ false | some update ↦ StoreResourceUpdate.is_promotion update ])
      (sym e)

process_client_message-AllValid_example :
    AllValid (process_client_message (7 ∷ []) followed leaving).0
process_client_message-AllValid_example =
    process_client_message-AllValid (7 ∷ []) followed leaving leaving-IsPlain followed-AllValid

followed_here : get_cluster (codes "ks") followed ≡ some cluster
unfolding get_cluster bytes_eq
followed_here = refl

followed_connected : has_connected_keyspace (codes "ks") followed ≡ true
unfolding has_connected_keyspace get_cluster bytes_eq current_size size_loop
followed_connected = refl
