-- ===== src/Store/ShardTests.antt =====
-- The theorems on the requests to shards at concrete inputs.
use vasto.Prelude.{
  ℕ, ◌≡◌, ◌<◌, refl, true, false, List, [], ◌∷◌, Bytes, bytes_eq, if◌then◌else◌, codes, none, some,
  ok, arith, ◌>>=◌,
}
use vasto.Prelude.Int.{pos}
use vasto.Util.Floats.{patterns}
use vasto.Pb.Requests.{
  PutRequest, GetRequest, MergeRequest, DeleteRequest, LogEntry, Request, new_put_entry,
  new_merge_entry,
}
use vasto.Codec.{to_bytes}
use vasto.Codec.RoundTrip.{IsRow}
use vasto.Storage.Rocks.{MergeOperator, Engine, Rocks, put, merge, delete, get, admits, incr}
use vasto.Storage.Rocks as Db
use vasto.Storage.Rocks.Memory.{memory}
use vasto.Store.MergeOperator.{full_merge}
use vasto.Store.MergeOperator.Laws.{IsBytesRow}
use vasto.Store.Shards.{BinLog, Shard, KeyspaceShards, get_shard, get_shards, find_shard}
use vasto.Store.Process.{
  process_put, process_delete, process_merge, process_get, written_at, put_log_entry,
  delete_log_entry,
}
use vasto.Store.Process.Laws.{answer, process_get-process_put, process_get-process_delete}
use vasto.Store.Process.Merging.{process_get-process_merge}
use vasto.Store.Follow.{process_entry}
use vasto.Store.Follow.Laws.{winner, Changed, process_entry-put, process_entry-delete}
use vasto.Store.Follow.Order.{process_entry_comm}
use vasto.Store.Requests.{process_request, shard_response, written}

-- A shard over a database in memory, whose log is the list of its entries.
abbrev engine : Engine (full_merge patterns)
engine = memory (full_merge patterns) []

abbrev log : BinLog
log = record { Log = List LogEntry; append_entry = λ e l. e ∷ l }

abbrev shard : Shard engine log
shard = record {
  keyspace = codes "ks";
  id = 1;
  server_id = 1;
  db = record { db = λ key. []; client_counter = pos 0 };
  lm = some [];
}

abbrev put_a : PutRequest
put_a = record {
  key = codes "k";
  partition_hash = 7;
  updated_at_ns = 9;
  ttl_second = 0;
  op_and_data_type = 0;
  value = codes "a";
}

abbrev put_b : PutRequest
put_b = record put_a { updated_at_ns = 10; value = codes "b" }

abbrev get_k : GetRequest
get_k = record { key = codes "k"; partition_hash = 7 }

row_of : (at : ℕ) → at < 100 → IsRow (new_put_entry put_a at)
unfolding new_put_entry
row_of at h = record {
  entry = record {
    hash_u64 = omega arith;
    updated_u64 = omega arith;
    ttl_u32 = omega arith;
    op_byte = omega arith;
  };
  has_value = omega arith;
}

put_a-ok : (process_put engine log false 50 shard put_a).1.ok ≡ true
unfolding process_put put admits incr
put_a-ok = refl

written_at_run : written_at 9 50 ≡ 9
unfolding written_at
written_at_run = refl

process_get-process_put_example :
    process_get engine log 60 (process_put engine log false 50 shard put_a).0 get_k ≡ (
      if bytes_eq (codes "k") (codes "k")
      then ok (answer 60 (codes "k") (new_put_entry put_a (written_at 9 50)))
      else process_get engine log 60 shard get_k)
process_get-process_put_example =
    process_get-process_put engine log false 50 60 shard put_a get_k
      (row_of (written_at 9 50) (omega (arith, written_at_run))) put_a-ok

abbrev delete_k : DeleteRequest
delete_k = record { key = codes "k"; partition_hash = 7; updated_at_ns = 0 }

delete_k-ok : (process_delete engine log false 50 shard delete_k).1.ok ≡ true
unfolding process_delete delete admits incr
delete_k-ok = refl

process_get-process_delete_example :
    process_get engine log 60 (process_delete engine log false 50 shard delete_k).0 get_k ≡ (
      if bytes_eq (codes "k") (codes "k")
      then ok (record { ok = true; status = []; key_value = none })
      else process_get engine log 60 shard get_k)
process_get-process_delete_example =
    process_get-process_delete engine log false 50 60 shard delete_k get_k delete_k-ok

abbrev merge_k : MergeRequest
merge_k = record {
  key = codes "k";
  partition_hash = 7;
  updated_at_ns = 9;
  op_and_data_type = 0;
  value = codes "a";
}

merge_row : IsBytesRow (new_merge_entry merge_k (written_at 9 50))
unfolding new_merge_entry written_at
merge_row = record {
  row = record {
    entry = record {
      hash_u64 = omega arith;
      updated_u64 = omega arith;
      ttl_u32 = omega arith;
      op_byte = omega arith;
    };
    has_value = omega arith;
  };
  plain = refl;
}

merge_k-ok : (process_merge engine log false 50 shard merge_k).1.ok ≡ true
unfolding process_merge merge admits incr
merge_k-ok = refl

nothing_there : Db.get engine (codes "k") shard.db ≡ ([], none)
unfolding get admits incr
nothing_there = refl

process_get-process_merge_example :
    process_get engine log 60 (process_merge engine log false 50 shard merge_k).0 get_k ≡ (
      if bytes_eq (codes "k") (codes "k")
      then ok (answer 60 (codes "k") (new_merge_entry merge_k (written_at 9 50)))
      else process_get engine log 60 shard get_k)
process_get-process_merge_example =
    process_get-process_merge patterns engine log false 50 60 shard merge_k get_k none merge_row
      nothing_there merge_k-ok

taken : (Db.put engine (codes "k") (to_bytes (new_put_entry put_a 9)) shard.db).1 ≡ none
unfolding put admits incr
taken = refl

process_entry-put_example :
    (d' : Rocks engine) × (process_entry engine 50 51 (put_log_entry put_a 9) shard.db ≡ ok d')
    × Changed engine shard.db (codes "k") (winner 50 51 none (new_put_entry put_a 9)) d'
process_entry-put_example =
    process_entry-put engine 50 51 9 shard.db put_a none (row_of 9 (omega arith)) nothing_there
      taken

nothing_empty : Db.get engine [] shard.db ≡ ([], none)
unfolding get admits incr
nothing_empty = refl

process_entry-delete_example :
    process_entry engine 50 51 (delete_log_entry delete_k 9) shard.db ≡ ok shard.db
process_entry-delete_example = process_entry-delete engine 50 51 9 shard.db delete_k nothing_empty

row_b : IsRow (new_put_entry put_b 10)
unfolding new_put_entry
row_b = record {
  entry = record {
    hash_u64 = omega arith;
    updated_u64 = omega arith;
    ttl_u32 = omega arith;
    op_byte = omega arith;
  };
  has_value = omega arith;
}

open_gate : admits shard.db.client_counter ≡ true
unfolding admits incr
open_gate = refl

process_entry_comm_example :
    (first : Rocks engine) × (second : Rocks engine) × ((process_entry engine 50 51
          (put_log_entry put_a 9)
          shard.db
        >>= process_entry engine 52 53 (put_log_entry put_b 10))
      ≡ ok first)
    × ((process_entry engine 54 55 (put_log_entry put_b 10) shard.db
          >>= process_entry engine 56 57 (put_log_entry put_a 9))
        ≡ ok second)
    × ((j : Bytes) → Db.get engine j first ≡ Db.get engine j second)
process_entry_comm_example =
    process_entry_comm engine shard.db put_a put_b none 50 51 52 53 54 55 56 57 9 10
      (λ e. absurd (omega (arith, e))) refl (row_of 9 (omega arith), refl, λ db. refl)
      (row_b, refl, λ db. refl) open_gate tt nothing_there

abbrev shards : KeyspaceShards engine log
shards = (codes "ks", shard ∷ record shard { id = 2 } ∷ []) ∷ []

abbrev request : Request
request = record {
  shard_id = 1;
  put = some put_a;
  get = none;
  get_by_prefix = none;
  delete = none;
  merge = none;
}

request_run :
    process_request engine log false 50 shards (codes "ks") request
    ≡ ok (
      some (process_put engine log false 50 shard put_a).0,
      written (process_put engine log false 50 shard put_a).1,
    )
unfolding process_request get_shard get_shards find_shard shard_response bytes_eq
request_run = refl
