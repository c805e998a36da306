-- ===== src/Store/Shards.antt =====
-- cmd/store/keyspace_shards.go, and the fields of cmd/store/shard.go that serve requests.
use vasto.Prelude.{
  ℕ, ◌+◌, not, List, [], ◌∷◌, ◌++◌, Bytes, bytes_eq, length, ◌==◌, if◌then◌else◌, Option, none,
  some,
}
use vasto.Prelude.Int.{ℤ, pos, pos_part, neg_part, sub_ℕ, ltb_ℤ}
use vasto.Prelude.Sort.{sort_slice}
use vasto.Pb.Requests.{LogEntry}
use vasto.Storage.Rocks.{MergeOperator, Engine, Rocks}

-- What a shard needs of the binlog. AppendEntry's error is only printed.
pub record BinLog : Type 1 where
  pub Log : Type 0
  pub append_entry : LogEntry → Log → Log

module _ {operator : MergeOperator} (engine : Engine operator) (bin_log : BinLog) where
  open bin_log use {Log}

  -- `lm` may be a nil pointer.
  pub record Shard : Type 0 where
    pub keyspace : Bytes
    pub id : ℕ
    pub server_id : ℕ
    pub db : Rocks engine
    pub lm : Option Log

  -- The map from keyspaces to their shards.
  abbrev pub KeyspaceShards : Type 0
  KeyspaceShards = List (Bytes × List Shard)

  unfoldable pub get_shards : Bytes → KeyspaceShards → Option (List Shard)
  get_shards ks [] = none
  get_shards ks (entry ∷ rest) = if bytes_eq entry.0 ks then some entry.1 else get_shards ks rest

  unfoldable pub find_shard : ℕ → List Shard → Option Shard
  find_shard id [] = none
  find_shard id (s ∷ rest) = if s.id == id then some s else find_shard id rest

  unfoldable pub get_shard : Bytes → ℕ → KeyspaceShards → Option Shard
  unfolding get_shards find_shard
  get_shard ks id m = elim (get_shards ks m) [ none ↦ none | some shards ↦ find_shard id shards ]

  -- The assignment to a key of the map.
  unfoldable pub put_shards : Bytes → List Shard → KeyspaceShards → KeyspaceShards
  put_shards ks shards [] = (ks, shards) ∷ []
  put_shards ks shards (entry ∷ rest) =
      if bytes_eq entry.0 ks then (ks, shards) ∷ rest else entry ∷ put_shards ks shards rest

  -- `x := serverId - id; if x < 0 { x += len(shards) }`
  abbrev place : ℕ → Shard → ℤ
  place size s =
      let x = sub_ℕ s.server_id s.id in
      if ltb_ℤ x (pos 0) then sub_ℕ (pos_part x + size) (neg_part x) else x

  unfoldable pub add_shards : Bytes → List Shard → KeyspaceShards → KeyspaceShards
  unfolding get_shards put_shards
  add_shards ks nodes m =
      let shards : List Shard = elim (get_shards ks m) [ none ↦ nodes | some old ↦ old ++ nodes ] in
      put_shards ks
        (sort_slice (λ a b. ltb_ℤ (place (length shards) a) (place (length shards) b)) shards) m

  unfoldable pub delete_keyspace : Bytes → KeyspaceShards → KeyspaceShards
  delete_keyspace ks [] = []
  delete_keyspace ks (entry ∷ rest) =
      let more = delete_keyspace ks rest in if bytes_eq entry.0 ks then more else entry ∷ more

  unfoldable pub without_id : ℕ → List Shard → List Shard
  without_id id [] = []
  without_id id (s ∷ rest) =
      let more = without_id id rest in if not (s.id == id) then s ∷ more else more

  unfoldable pub remove_shard : Shard → KeyspaceShards → KeyspaceShards
  unfolding get_shards put_shards without_id
  remove_shard node m =
      let shards : List Shard = elim (get_shards node.keyspace m) [ none ↦ [] | some old ↦ old ] in
      put_shards node.keyspace (without_id node.id shards) m
  -- A shard is a shared object: a change of it shows in the list that holds it.
