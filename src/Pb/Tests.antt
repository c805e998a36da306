-- ===== src/Pb/Tests.antt =====
-- The messages' theorems at concrete inputs.
use vasto.Prelude.{◌≡◌, ℕ, Bytes, false, refl, codes}
use vasto.Pb.{ShardInfo, ready}
use vasto.Pb.Identifier.{decimal, decimal_loop, identifier_on_this_server}

abbrev shard : Bytes → ℕ → ℕ → ShardInfo
shard keyspace server id = record {
  keyspace_name = keyspace;
  server_id = server;
  shard_id = id;
  cluster_size = 20;
  replication_factor = 1;
  status = ready;
  is_candidate = false;
  is_permanent_delete = false;
}

identifier_run : identifier_on_this_server (shard (codes "ks") 12 3) ≡ codes "ks.12.3"
unfolding identifier_on_this_server decimal decimal_loop
identifier_run = refl
