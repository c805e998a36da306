-- ===== src/Store/Bootstrap.antt =====
-- cmd/store/store_grpc_server_bootstrap.go, and the loops over its stream in
-- cmd/store/shard_bootstrap.go. The stream of the server is a state that takes responses, or refuses
-- one with an error; that of the client gives responses and then ends, with an error or without.
pub mod Copied
pub mod Insert
use vasto.Prelude.{
  ℕ, ◌*◌, Bool, true, false, not, ◌&&◌, List, [], ◌∷◌, ◌++◌, Bytes, ltb, ◌==◌, if◌then◌else◌, codes,
  Option, none, some, Run, ok, panic, ◌>>=◌, length,
}
use vasto.Topology.Jump.{JumpHash}
use vasto.Codec.{get_partition_hash_from_bytes, from_bytes, is_expired}
use vasto.Pb.Identifier.{decimal}
use vasto.Storage.Rocks.{MergeOperator, Engine, Rocks}
use vasto.Storage.Rocks as Db
use vasto.Storage.PrefixScan.{has_prefix}
use vasto.Storage.FullScan.{RawKeyValue, full_scan}
use vasto.Store.Progress.{vasto_internal_key_prefix, save_progress}
use vasto.Store.Shards.{BinLog, Shard, KeyspaceShards, get_shard}

pub record BootstrapCopyRequest : Type 0 where
  pub keyspace : Bytes
  pub shard_id : ℕ
  pub cluster_size : ℕ
  pub target_shard_id : ℕ
  pub target_cluster_size : ℕ
  pub limit : ℕ

pub record BootstrapCopyResponse : Type 0 where
  pub key_values : List RawKeyValue
  pub binlog_tail_progress : Option (ℕ × ℕ)

abbrev pub rows_response : List RawKeyValue → BootstrapCopyResponse
rows_response rows = record { key_values = rows; binlog_tail_progress = none }

abbrev pub progress_response : ℕ × ℕ → BootstrapCopyResponse
progress_response progress = record { key_values = []; binlog_tail_progress = some progress }

abbrev pub const_bootstrap_copy_batch_size : ℕ
const_bootstrap_copy_batch_size = 1024

unfoldable pub batch_size : BootstrapCopyRequest → ℕ
batch_size request =
    if ltb 0 request.target_cluster_size && not (request.target_shard_id == request.shard_id)
    then const_bootstrap_copy_batch_size * request.target_cluster_size
    else const_bootstrap_copy_batch_size

abbrev pub full_copy_error : Option Bytes → Option Bytes
full_copy_error none = none
full_copy_error (some err) = some (codes "full copy: " ++ err)

module _ (jump : JumpHash) (request : BootstrapCopyRequest) (current_shard_id : ℕ) where
  open jump use {hash}

  -- Whether a row is sent.
  unfoldable pub is_sent : RawKeyValue → Run Bool
  is_sent row = if has_prefix row.0 vasto_internal_key_prefix then ok false else (do
    partition_hash ← get_partition_hash_from_bytes row.1
    ok (
        if not (hash partition_hash request.cluster_size == current_shard_id)
        then false
        else if ltb 0 request.target_cluster_size
        then hash partition_hash request.target_cluster_size == request.target_shard_id
        else true))

  unfoldable pub filtered_rows : List RawKeyValue → Run (List RawKeyValue)
  filtered_rows [] = ok []
  filtered_rows (row ∷ rows) = do
    sent ← is_sent row
    rest ← filtered_rows rows
    ok (if sent then row ∷ rest else rest)

  module _ {S : Type 0} (send : BootstrapCopyResponse → S → S × Option Bytes) where
    unfoldable pub send_rows : List RawKeyValue → S → Run (S × Option Bytes)
    send_rows rows s = do
      filtered ← filtered_rows rows
      ok ((send (rows_response filtered) s).0, full_copy_error (send (rows_response filtered) s).1)

module _ {operator : MergeOperator} (engine : Engine operator) (bin_log : BinLog)
    (get_segment_offset : bin_log.Log → ℕ × ℕ) (jump : JumpHash) (request : BootstrapCopyRequest)
    {S : Type 0} (send : BootstrapCopyResponse → S → S × Option Bytes) where
  -- The progress is sent also after an error of the scan.
  unfoldable pub copy_shard : Shard engine bin_log → S → Run (S × Option Bytes)
  copy_shard shard s = elim shard.lm [
    | none ↦ panic
    | some log ↦ do
      (s', err) ←
          full_scan (send_rows jump request shard.id send) engine (batch_size request) request.limit
            s shard.db
      elim (send (progress_response (get_segment_offset log)) s').1 [
        | some refusal ↦ ok ((send (progress_response (get_segment_offset log)) s').0, some refusal)
        | none ↦ ok ((send (progress_response (get_segment_offset log)) s').0, err)
      ]
  ]

  unfoldable pub bootstrap_copy : KeyspaceShards engine bin_log → S → Run (S × Option Bytes)
  bootstrap_copy m s = elim (get_shard engine bin_log request.keyspace request.shard_id m) [
    | none ↦ ok (
      s,
      some (
          codes "BootstrapCopy: "
          ++ (request.keyspace
              ++ (codes " shard " ++ (decimal request.shard_id ++ codes " not found")))),
    )
    | some shard ↦ copy_shard shard s
  ]

-- The rows of the responses, and the last progress.
unfoldable pub received : List BootstrapCopyResponse → ℕ × ℕ → List RawKeyValue × (ℕ × ℕ)
received [] progress = ([], progress)
received (response ∷ responses) progress =
    let next : ℕ × ℕ = elim response.binlog_tail_progress [ none ↦ progress | some p ↦ p ] in
    let (rows, last) = received responses next in (response.key_values ++ rows, last)

module _ {operator : MergeOperator} (engine : Engine operator) where
  -- The rows go to the channel of the source; an error of the stream leaves the progress alone.
  unfoldable pub do_bootstrap_copy2 :
      List BootstrapCopyResponse × Option Bytes
      → Bytes
      → ℕ
      → Rocks engine
      → List RawKeyValue × Rocks engine × Option Bytes
  do_bootstrap_copy2 (responses, some err) address shard_id d =
      ((received responses (0, 0)).0, d, some (codes "bootstrap copy: " ++ err))
  do_bootstrap_copy2 (responses, none) address shard_id d =
      let (rows, (segment, offset)) = received responses (0, 0) in
      (rows, (save_progress engine address shard_id segment offset d).0, none)

  -- Over the bytes that the database has.
  unfoldable pub insert_over :
      ℕ → RawKeyValue → Bytes → Rocks engine → Run (Rocks engine × Option Bytes)
  insert_over now row b d =
      let written = Db.put engine row.0 row.1 d in
      if length b == 0 then ok written else elim (from_bytes b) [
        | none ↦ panic
        | some existing_row ↦
            if is_expired existing_row now then ok written else elim (from_bytes row.1) [
              | none ↦ panic
              | some incoming_row ↦
                  if ltb existing_row.updated_at_ns incoming_row.updated_at_ns
                  then ok written
                  else ok (d, none)
            ]
      ]

  -- One row in the slow way to backfill. `now` is the time.
  unfoldable pub insert_row : ℕ → RawKeyValue → Rocks engine → Run (Rocks engine × Option Bytes)
  insert_row now row d =
      let (b, err) = Db.get engine row.0 d in
      elim err [ some _ ↦ ok (Db.put engine row.0 row.1 d) | none ↦ insert_over now row b d ]
