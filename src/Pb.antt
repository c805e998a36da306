-- ===== src/Pb.antt =====
-- pb/vasto.pb.go, pb/shard_info.go: the messages that the parts exchange, and the identifier of a shard.
pub mod Identifier
pub mod Requests
mod Tests
use vasto.Prelude.{ℕ, Bool, true, false, List, Bytes}

pub record StoreResource : Type 0 where
  pub network : Bytes
  pub address : Bytes
  pub admin_address : Bytes
  pub tags : List Bytes
  pub disk_size_gb : ℕ
  pub allocated_size_gb : ℕ

pub data Status : Type 0 where
  empty bootstrap ready deleted : Status

pub record ShardInfo : Type 0 where
  pub keyspace_name : Bytes
  pub server_id : ℕ
  pub shard_id : ℕ
  pub cluster_size : ℕ
  pub replication_factor : ℕ
  pub status : Status
  pub is_candidate : Bool
  pub is_permanent_delete : Bool

pub record ClusterNode : Type 0 where
  pub store_resource : StoreResource
  pub shard_info : ShardInfo

abbrev pub is_deleted : Status → Bool
is_deleted deleted = true
is_deleted other = false
