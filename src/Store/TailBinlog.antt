-- ===== src/Store/TailBinlog.antt =====
-- cmd/store/store_grpc_server_binlog.go: one round of the loop by which a shard sends its binlog to a
-- follower. Between the two reads of a round the binlog may grow: `m` and `disk` are what the first
-- read meets, and `later` what the second does. A read that waits has no result yet.
pub mod Pages
use vasto.Prelude.{
  ℕ, ◌+◌, ◌*◌, ◌%◌, ◌^◌, Bool, true, false, not, ◌&&◌, List, [], ◌∷◌, ◌++◌, Bytes, length, ltb, leb,
  ◌==◌, if◌then◌else◌, codes, Option, none, some, Run, ok, panic, ◌>>=◌,
}
use vasto.Topology.Jump.{JumpHash}
use vasto.Pb.Identifier.{decimal}
use vasto.Pb.Requests.{LogEntry, get_partition_hash}
use vasto.Binlog.Entries.{Proto}
use vasto.Binlog.Segment.{Disk, ReadResult, ReadError, eof, failed}
use vasto.Binlog.Manager.{LogManager, read_entries, has_segment, get_segment_range}

pub record PullUpdateRequest : Type 0 where
  pub shard_id : ℕ
  pub segment : ℕ
  pub offset : ℕ
  pub limit : ℕ
  pub target_shard_id : ℕ
  pub target_cluster_size : ℕ

pub record PullUpdateResponse : Type 0 where
  pub next_segment : ℕ
  pub next_offset : ℕ
  pub entries : List LogEntry
  pub out_of_sync : Bool

-- The response of a round, or the error that ends the loop.
pub data Round : Type 0 where
  sends : PullUpdateResponse → Round
  stops : Bytes → Round

unfoldable pub read_failed : ℕ → ℕ → Bytes → Bytes
read_failed segment offset err =
    codes "failed to read segment "
    ++ (decimal segment ++ (codes " offset " ++ (decimal offset ++ (codes ": " ++ err))))

-- What is answered before the loop for a segment that is gone, and the error after it.
unfoldable pub out_of_sync : PullUpdateRequest → LogManager → Option (PullUpdateResponse × Bytes)
out_of_sync request m =
    if has_segment request.segment m
    then none
    else (let (start, stop) = get_segment_range m in
        some (
          record { next_segment = 0; next_offset = 0; entries = []; out_of_sync = true },
          codes "out of sync client reads segment "
              ++ (decimal request.segment
                  ++ (codes " offset "
                      ++ (decimal request.offset
                          ++ (codes ", only has segment ["
                              ++ (decimal start ++ (codes "," ++ (decimal stop ++ codes "]"))))))),
        ))

unfoldable pub read_limit : PullUpdateRequest → ℕ
read_limit request =
    if ltb 0 request.target_cluster_size && not (request.target_shard_id == request.shard_id)
    then request.limit * request.target_cluster_size
    else request.limit

module _ (jump : JumpHash) (request : PullUpdateRequest) where
  open jump use {hash}

  unfoldable pub wanted : LogEntry → Bool
  wanted entry = not (
      ltb 0 request.target_cluster_size
      && not
          (hash (get_partition_hash entry) request.target_cluster_size == request.target_shard_id))

  unfoldable pub wanted_entries : List LogEntry → List LogEntry
  wanted_entries [] = []
  wanted_entries (e ∷ es) = let rest = wanted_entries es in if wanted e then e ∷ rest else rest

  unfoldable pub respond : ℕ → List LogEntry → ℕ → Round
  respond segment entries next_offset = sends (record {
    next_segment = segment;
    next_offset = next_offset;
    entries = wanted_entries entries;
    out_of_sync = false;
  })

  -- After a read that is not repeated.
  unfoldable pub answer : ℕ → ℕ → ReadResult → Round
  answer segment offset (entries, next_offset, none) = respond segment entries next_offset
  answer segment offset (entries, next_offset, some eof) =
      respond ((segment + 1) % 2 ^ 32) entries next_offset
  answer segment offset (entries, next_offset, some (failed err)) =
      stops (read_failed segment offset err)

  abbrev pub answered : ℕ → ℕ → Option ReadResult → Option Round
  answered segment offset none = none
  answered segment offset (some r) = some (answer segment offset r)

  module _ (proto : Proto) where
    -- The read of a few entries is repeated, a tenth of a second later.
    unfoldable pub after_first : ℕ → ℕ → LogManager × Disk → ReadResult → Run (Option Round)
    after_first segment offset (later, later_disk) (entries, next_offset, some err) =
        ok (some (answer segment offset (entries, next_offset, some err)))
    after_first segment offset (later, later_disk) (entries, next_offset, none) =
        if leb (length entries) 100
        then (do
          second ← read_entries proto segment offset (read_limit request) later later_disk
          ok (answered segment offset second))
        else ok (some (answer segment offset (entries, next_offset, none)))

    unfoldable pub tail_round : ℕ → ℕ → LogManager → Disk → LogManager × Disk → Run (Option Round)
    tail_round segment offset m disk later = do
      first ← read_entries proto segment offset (read_limit request) m disk
      elim first [ none ↦ ok none | some r ↦ after_first segment offset later r ]
