-- ===== src/Store/Bootstrap/Copied.antt =====
-- What a bootstrap copy brings from a shard to another.
use mathlib.Core.List.{append_assoc, append-nil}
use vasto.Prelude.{
  ℕ, ◌<◌, ◌≤◌, ◌≡◌, ◌⊎◌, inl, inr, refl, sym, ap, ◌∙◌, subst, Bool, true, false, not, ◌&&◌, ◌||◌,
  List, [], ◌∷◌, ◌++◌, map, Bytes, length, take, ltb, ◌==◌, if◌then◌else◌, All, Option, none, some,
  ok, arith, Bool-cases,
}
use vasto.Util.LittleEndian.{get_uint}
use vasto.Topology.Jump.{JumpHash}
use vasto.Codec.{get_partition_hash_from_bytes}
use vasto.Storage.Rocks.{MergeOperator, Engine, admits}
use vasto.Storage.PrefixScan.{has_prefix}
use vasto.Storage.FullScan.{RawKeyValue}
use vasto.Storage.FullScan.Batches.{each_batch, joined, limited}
use vasto.Storage.FullScan.Whole.{full_scan-batches}
use vasto.Store.Progress.{vasto_internal_key_prefix}
use vasto.Store.Shards.{BinLog, Shard, KeyspaceShards, get_shard}
use vasto.Store.Bootstrap.{
  BootstrapCopyRequest, BootstrapCopyResponse, rows_response, progress_response, batch_size,
  is_sent, filtered_rows, send_rows, copy_shard, bootstrap_copy, received,
}

-- A stream that takes every response.
abbrev pub collect :
    BootstrapCopyResponse → List BootstrapCopyResponse → List BootstrapCopyResponse × Option Bytes
collect response responses = (responses ++ (response ∷ []), none)

-- A row that has a partition hash, or is the store's own.
abbrev pub IsHashed : RawKeyValue → Type 0
IsHashed row = (has_prefix row.0 vasto_internal_key_prefix ≡ true) ⊎ (8 ≤ length row.1)

All-append_split :
    (xs ys : List RawKeyValue) → All IsHashed (xs ++ ys) → All IsHashed xs × All IsHashed ys
All-append_split [] ys h = (tt, h)
All-append_split (x ∷ xs) ys h =
    let (front, back) = All-append_split xs ys h.1 in ((h.0, front), back)

module _ (jump : JumpHash) (request : BootstrapCopyRequest) (shard_id : ℕ) where
  open jump use {hash}

  -- The row is a client's, it belongs to the shard in the cluster of now, and it belongs to the
  -- target in the cluster that is to be, if there is one.
  unfoldable pub belongs : RawKeyValue → Bool
  belongs row =
      let h = get_uint (take 8 row.1) in
      not (has_prefix row.0 vasto_internal_key_prefix)
      && (hash h request.cluster_size == shard_id
          && (request.target_cluster_size == 0
              || hash h request.target_cluster_size == request.target_shard_id))

  unfoldable pub belonging : List RawKeyValue → List RawKeyValue
  belonging [] = []
  belonging (row ∷ rows) = if belongs row then row ∷ belonging rows else belonging rows

  is_sent-belongs :
      (row : RawKeyValue) → IsHashed row → is_sent jump request shard_id row ≡ ok (belongs row)
  unfolding is_sent belongs get_partition_hash_from_bytes
  is_sent-belongs row (inl own) = rw own refl
  is_sent-belongs row (inr long) = elim (Bool-cases (has_prefix row.0 vasto_internal_key_prefix)) [
    | inl own ↦ rw own refl
    | inr client ↦
        let full : ltb (length row.1) 8 ≡ false = ground arith in rw (client, full) (ground arith)
  ]

  filtered_rows-belonging :
      (rows : List RawKeyValue)
      → All IsHashed rows
      → filtered_rows jump request shard_id rows ≡ ok (belonging rows)
  unfolding filtered_rows belonging
  filtered_rows-belonging [] h = refl
  filtered_rows-belonging (row ∷ rows) h =
      rw (is_sent-belongs row h.0, filtered_rows-belonging rows h.1) refl

  belonging-append :
      (xs ys : List RawKeyValue) → belonging (xs ++ ys) ≡ belonging xs ++ belonging ys
  unfolding belonging
  belonging-append [] ys = refl
  belonging-append (x ∷ xs) ys = elim (Bool-cases (belongs x)) [
    | inl e ↦ rw e (ap (◌∷◌ x) (belonging-append xs ys))
    | inr e ↦ rw e (belonging-append xs ys)
  ]

  send_rows-collect :
      (rows : List RawKeyValue) (responses : List BootstrapCopyResponse)
      → All IsHashed rows
      → send_rows jump request shard_id collect rows responses
        ≡ ok (responses ++ (rows_response (belonging rows) ∷ []), none)
  unfolding send_rows
  send_rows-collect rows responses h = rw (filtered_rows-belonging rows h) refl

  abbrev batch_responses : List (List RawKeyValue) → List BootstrapCopyResponse
  batch_responses = map (λ b. rows_response (belonging b))

  each_batch-collect :
      (bs : List (List RawKeyValue)) (responses : List BootstrapCopyResponse)
      → All IsHashed (joined bs)
      → each_batch (send_rows jump request shard_id collect) bs responses
        ≡ ok (responses ++ batch_responses bs, none)
  unfolding each_batch joined
  each_batch-collect [] responses h = ap (λ t. ok (t, none)) (sym (append-nil responses))
  each_batch-collect (b ∷ bs) responses h =
      let (here, later) = All-append_split b (joined bs) h in
      rw (send_rows-collect b responses here) (
        each_batch-collect bs (responses ++ (rows_response (belonging b) ∷ [])) later
        ∙ ap (λ t. ok (t, none))
            (append_assoc responses (rows_response (belonging b) ∷ []) (batch_responses bs)))

  received-batches :
      (bs : List (List RawKeyValue)) (progress last : ℕ × ℕ)
      → received (batch_responses bs ++ (progress_response last ∷ [])) progress
        ≡ (belonging (joined bs), last)
  unfolding received joined belonging
  received-batches [] progress last = refl
  received-batches (b ∷ bs) progress last =
      rw (received-batches bs progress last, belonging-append b (joined bs)) refl

module _ {operator : MergeOperator} (engine : Engine operator) (bin_log : BinLog)
    (get_segment_offset : bin_log.Log → ℕ × ℕ) (jump : JumpHash)
    (request : BootstrapCopyRequest) where
  batch_size_pos : 0 < batch_size request
  unfolding batch_size
  batch_size_pos = ground arith

  -- A client that reads all responses to a bootstrap copy of a shard has the client rows of the
  -- shard, in their order, that belong to it in a cluster of the present size and to the target in a
  -- cluster of the target size, if that is not 0, and no others; and the segment and offset at which
  -- the binlog stood before the scan. The stream takes all responses, the database is open and its
  -- iterator ends without an error, and the rows that are read, which are the first `limit` ones
  -- where the limit is not 0, have a hash unless they are the store's own.
  pub received-bootstrap_copy :
      (m : KeyspaceShards engine bin_log) (shard : Shard engine bin_log) (log : bin_log.Log)
      → get_shard engine bin_log request.keyspace request.shard_id m ≡ some shard
      → shard.lm ≡ some log
      → admits shard.db.client_counter ≡ true
      → (engine.scan [] shard.db.db).1 ≡ none
      → All IsHashed (limited request.limit (engine.scan [] shard.db.db).0)
      → (responses : List BootstrapCopyResponse) × (bootstrap_copy engine bin_log get_segment_offset
            jump request collect m []
          ≡ ok (responses, none))
        × (received responses (0, 0) ≡ (
          belonging jump request shard.id (limited request.limit (engine.scan [] shard.db.db).0),
          get_segment_offset log,
        ))
  unfolding bootstrap_copy copy_shard
  received-bootstrap_copy m shard log found logs opened fine hashed =
      let (bs, whole, sizes, scanned) =
        full_scan-batches engine (send_rows jump request shard.id collect) (batch_size request)
          request.limit [] shard.db batch_size_pos opened in
      let sent =
        each_batch-collect jump request shard.id bs [] (subst (All IsHashed) (sym whole) hashed) in
      (
        batch_responses jump request shard.id bs
            ++ (progress_response (get_segment_offset log) ∷ []),
        rw (found, bootstrap_copy) (rw (logs, copy_shard) (rw scanned (rw (sent, fine) refl))),
        received-batches jump request shard.id bs (0, 0) (get_segment_offset log)
            ∙ ap (λ rows. (belonging jump request shard.id rows, get_segment_offset log)) whole,
      )
