-- ===== src/Store/BootstrapTests.antt =====
-- The theorems on bootstrapping a shard at concrete inputs.
use vasto.Prelude.{
  ℕ, ◌≡◌, refl, true, List, [], ◌∷◌, Bytes, bytes_eq, codes, Option, none, some, ok, Run, arith,
  All, inl, inr, ◌>>=◌,
}
use vasto.Prelude.Int.{pos}
use vasto.Topology.Jump.{capped}
use vasto.Util.LittleEndian.{put_uint}
use vasto.Codec.{Entry, to_bytes}
use vasto.Storage.Rocks.{MergeOperator, Engine, Rocks, admits, incr}
use vasto.Storage.Rocks.Memory.{memory}
use vasto.Storage.PrefixScan.{has_prefix}
use vasto.Storage.FullScan.{RawKeyValue, scan_error, full_scan}
use vasto.Storage.FullScan.Batches.{each_batch, joined, limited, AreBatches}
use vasto.Storage.FullScan.Whole.{full_scan-batches}
use vasto.Store.Shards.{BinLog, Shard, KeyspaceShards, get_shard, get_shards, find_shard}
use vasto.Store.Bootstrap.{BootstrapCopyRequest, BootstrapCopyResponse, bootstrap_copy, received}
use vasto.Store.Bootstrap.Copied.{collect, IsHashed, belonging, received-bootstrap_copy}

abbrev keep : MergeOperator
keep old operands = ok (old, true)

abbrev row_of : ℕ → Entry
row_of at = record {
  partition_hash = 3;
  updated_at_ns = at;
  ttl_second = 0;
  op_and_data_type = 0;
  value = codes "v";
}

-- Two rows of clients, and the progress of following another shard.
abbrev rows : List RawKeyValue
rows =
    (codes "_vasto.next.segment.a.1", 0 ∷ 0 ∷ 0 ∷ 5 ∷ [])
    ∷ (codes "k1", to_bytes (row_of 9))
    ∷ (codes "k2", to_bytes (row_of 10))
    ∷ []

abbrev engine : Engine keep
engine = memory keep rows

abbrev db : Rocks engine
db = record { db = λ key. []; client_counter = pos 0 }

abbrev count_rows : List RawKeyValue → ℕ → Run (ℕ × Option Bytes)
count_rows batch n = ok (n, none)

db-open : admits (pos 0) ≡ true
unfolding admits incr
db-open = refl

full_scan-batches_example :
    (bs : List (List RawKeyValue)) × (joined bs ≡ limited 0 rows)
    × AreBatches 2 bs
    × (full_scan count_rows engine 2 0 7 db
        ≡ (each_batch count_rows bs 7 >>= (λ r. ok (r.0, scan_error r.1 none))))
full_scan-batches_example = full_scan-batches engine count_rows 2 0 7 db (omega arith) db-open

-- The log has two numbers, its segment and offset.
abbrev log : BinLog
log = record { Log = ℕ × ℕ; append_entry = λ e l. l }

abbrev shard : Shard engine log
shard = record { keyspace = codes "ks"; id = 1; server_id = 1; db = db; lm = some (2, 40) }

abbrev request : BootstrapCopyRequest
request = record {
  keyspace = codes "ks";
  shard_id = 1;
  cluster_size = 2;
  target_shard_id = 2;
  target_cluster_size = 3;
  limit = 0;
}

abbrev shards : KeyspaceShards engine log
shards = (codes "ks", shard ∷ []) ∷ []

rows-IsHashed : All IsHashed (limited 0 rows)
unfolding limited has_prefix to_bytes put_uint
rows-IsHashed = (inl refl, (inr (omega arith), (inr (omega arith), tt)))

shard-there : get_shard engine log (codes "ks") 1 shards ≡ some shard
unfolding get_shard get_shards find_shard bytes_eq
shard-there = refl

received-bootstrap_copy_example :
    (responses : List BootstrapCopyResponse) × (bootstrap_copy engine log
        (λ l. l)
        capped
        request
        collect
        shards
        []
      ≡ ok (responses, none))
    × (received responses (0, 0) ≡ (belonging capped request 1 (limited 0 rows), (2, 40)))
received-bootstrap_copy_example =
    received-bootstrap_copy engine log (λ l. l) capped request shards shard (2, 40) shard-there refl
      db-open refl rows-IsHashed

abbrev old_db : Rocks engine
old_db = record { db = λ key. to_bytes (row_of 9); client_counter = pos 0 }
