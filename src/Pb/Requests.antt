-- ===== src/Pb/Requests.antt =====
-- pb/vasto.pb.go, pb/log_entry.go and storage/codec/request_to_entry.go: the requests to a store, its
-- responses, the entries of the binlog, and the rows that requests ask for.
use vasto.Prelude.{ℕ, ◌%◌, Bool, List, [], Bytes, Option, none, some}
use vasto.Codec.{Entry}

pub record PutRequest : Type 0 where
  pub key : Bytes
  pub partition_hash : ℕ
  pub updated_at_ns : ℕ
  pub ttl_second : ℕ
  pub op_and_data_type : ℕ
  pub value : Bytes

pub record MergeRequest : Type 0 where
  pub key : Bytes
  pub partition_hash : ℕ
  pub updated_at_ns : ℕ
  pub op_and_data_type : ℕ
  pub value : Bytes

pub record DeleteRequest : Type 0 where
  pub key : Bytes
  pub partition_hash : ℕ
  pub updated_at_ns : ℕ

pub record GetRequest : Type 0 where
  pub key : Bytes
  pub partition_hash : ℕ

pub record GetByPrefixRequest : Type 0 where
  pub prefix : Bytes
  pub limit : ℕ
  pub last_seen_key : Bytes

pub record KeyTypeValue : Type 0 where
  pub key : Bytes
  pub partition_hash : ℕ
  pub data_type : ℕ
  pub value : Bytes

pub record WriteResponse : Type 0 where
  pub ok : Bool
  pub status : Bytes

pub record GetResponse : Type 0 where
  pub ok : Bool
  pub status : Bytes
  pub key_value : Option KeyTypeValue

pub record GetByPrefixResponse : Type 0 where
  pub ok : Bool
  pub status : Bytes
  pub key_values : List KeyTypeValue

pub record Request : Type 0 where
  pub shard_id : ℕ
  pub put : Option PutRequest
  pub get : Option GetRequest
  pub get_by_prefix : Option GetByPrefixRequest
  pub delete : Option DeleteRequest
  pub merge : Option MergeRequest

pub record Response : Type 0 where
  pub write : Option WriteResponse
  pub get : Option GetResponse
  pub get_by_prefix : Option GetByPrefixResponse

pub record LogEntry : Type 0 where
  pub updated_at_ns : ℕ
  pub put : Option PutRequest
  pub delete : Option DeleteRequest
  pub merge : Option MergeRequest

-- `request = entry.GetPut()` makes an interface value that is never nil, also around a nil pointer;
-- so the delete request is never looked at, and the getters of a nil request answer zero values.
unfoldable pub get_write_request : LogEntry → Option PutRequest
get_write_request e = e.put

unfoldable pub get_key : LogEntry → Bytes
unfolding get_write_request
get_key e = elim (get_write_request e) [ some p ↦ p.key | none ↦ [] ]

unfoldable pub get_partition_hash : LogEntry → ℕ
unfolding get_write_request
get_partition_hash e = elim (get_write_request e) [ some p ↦ p.partition_hash | none ↦ 0 ]

-- The conversion of the enum to a byte keeps the low eight bits.
unfoldable pub new_put_entry : PutRequest → ℕ → Entry
new_put_entry p updated_at_ns = record {
  partition_hash = p.partition_hash;
  updated_at_ns = updated_at_ns;
  ttl_second = p.ttl_second;
  op_and_data_type = p.op_and_data_type % 256;
  value = p.value;
}

unfoldable pub new_merge_entry : MergeRequest → ℕ → Entry
new_merge_entry m updated_at_ns = record {
  partition_hash = m.partition_hash;
  updated_at_ns = updated_at_ns;
  ttl_second = 0;
  op_and_data_type = m.op_and_data_type % 256;
  value = m.value;
}
