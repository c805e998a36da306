-- ===== src/Lib.antt =====
-- Vasto is a key-value store over RocksDB, spread over servers. A master (cmd/master) knows which
-- store has which shard of each keyspace, and tells the clients and the stores; they follow it with
-- a cluster listener (topology/clusterlistener). A store (cmd/store) serves the requests to its
-- shards, writes rows in the encoding of storage/codec to its databases (storage/rocks), logs each
-- write in a binlog, and follows the binlogs of the other replicas.
--
-- Files and code:
-- Prelude: lists, byte strings, maps, integers, insertion sort, and the outcome of a call that may
--   panic (Run).
-- Topology/Ring, Topology/Bootstrap: topology/cluster_shard_follow.go and
--   cluster_shard_bootstrap.go, which server holds which shard and what it copies when the size
--   changes. Topology/Jump is the jump hash, a parameter with its two documented laws.
-- Topology/Groups, Topology/Cluster: topology/cluster.go. A Cluster is a Layout, the fields of
--   the Go type, with an optional next layout, since a next cluster has none of its own. A call that
--   changes its receiver returns the new one.
-- Topology/Listener: topology/clusterlistener, with processClientMessage in Messages. The calls of
--   the event processors are listed in their order.
-- Pb: the messages of pb/vasto.pb.go that these parts exchange, pb/shard_info.go and
--   pb/log_entry.go.
-- Util: util/bytes.go, message_read.go and message_write.go.
-- Codec: storage/codec/entry.go and entry_merge.go; request_to_entry.go is in Pb/Requests.
-- Storage/Filter: storage/rocks/rocksdb_shard.go, the compaction filter.
-- Storage/Rocks: storage/rocks/rocksdb.go. Shutdown has the counter of the calls under way as a step
--   relation against Close. Storage/PrefixScan: rocksdb_prefix_scan.go.
-- Store/MergeOperator: cmd/store/shard_merge_operator.go. Store/Shards: keyspace_shards.go and the
--   fields of shard.go. Store/Process and Store/Requests: process_get.go, process_put.go,
--   process_merge.go, process_delete.go, process_prefix.go and processRequest of
--   store_tcp_server.go. Store/Follow: processEntry of shard_follow_binlog.go.
--   Store/Progress: shard_follow_progress.go.
-- Binlog: storage/binlog, with log_segment_file.go in Segment and log_manager.go in Manager.
--   Segment/Waiting runs the readers that wait on followerCond. Entries has the marshalling of protobuf
--   and the faults of the system.
-- Merge: pb/priority_queue_raw_key_value.go and goclient/vs/key_value_priority_queue.go. Heap is what
--   they use of container/heap, and ListHeap is such a heap.
-- Storage/FullScan: storage/rocks/rocksdb_full_scan.go. Store/Bootstrap: BootstrapCopy of
--   cmd/store/store_grpc_server_bootstrap.go, and of shard_bootstrap.go the loop over its responses
--   and the rows that are inserted one by one.
-- Store/TailBinlog: TailBinlog of cmd/store/store_grpc_server_binlog.go, on the files of Binlog.
-- Master/Allocation: allocateServers and meetRequirement of cmd/master/master_topology_allocation.go,
--   and the filter in master_server_for_admin_cluster_resize.go. Master/Resize:
--   adjustAndBroadcastUpcomingShardStatuses of the same file.
-- Master/Topology, Master/Stores: cmd/master/master_topology.go and
--   master_grpc_server_for_store.go.
--
-- Loops over slices are recursion on the list, and counted loops on the rounds that are left, so
-- every function is total. The loops of the ring run min(replicationFactor, clusterSize) rounds, which
-- is when their conditions end them. Printing a number has one more unit of fuel than the number,
-- which has fewer digits than that. Go integers of a fixed width wrap where the code relies on it or
-- suffers from it; sizes and ids are natural numbers.
--
-- Insertion sort stands for sort.Slice, which runs it on fewer than twelve elements.
--
-- Parameters: RocksDB (Engine, with what its reads give after its writes), the jump hash, float64,
-- the marshalling of protobuf, the refusals of the operating system, and the binlog of a shard.
-- Storage/Rocks/Memory is an engine that has these laws.
--
-- Not modelled: the choice of the peer to bootstrap from, the administration of
-- clusters by the master and the stores, the client, the gateway and the command lines. Locks are left
-- out: an operation under a lock is one step.
pub mod Prelude
pub mod Topology
pub mod Pb
pub mod Util
pub mod Codec
pub mod Storage
pub mod Store
pub mod Binlog
pub mod Merge
pub mod Master
