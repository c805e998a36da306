-- ===== src/Storage/Filter/Safety.antt =====
-- What a compaction leaves alone.
use vasto.Prelude.{ℕ, ◌+◌, ◌*◌, ◌<◌, ◌≡◌, ◌≢◌, ◌⊎◌, ◌↔◌, true, false, arith}
use vasto.Codec.{Entry, IsEntry, to_bytes}
use vasto.Codec.RoundTrip.{IsRow, from_bytes_row}
use vasto.Topology.Jump.{JumpHash}
use vasto.Storage.Filter.{ShardingCompactionFilter, filter, is_purged, is_purged_late}

-- The row has outlived its time to live at `now`, in seconds.
abbrev pub IsOver : Entry → ℕ → Type 0
IsOver e now =
    (0 < e.ttl_second) × (e.updated_at_ns + e.ttl_second * 1_000_000_000 < now * 1_000_000_000)

purged_late_lem : (now : ℕ) (e : Entry) → IsEntry e → is_purged_late now e ≡ true → IsOver e now
unfolding is_purged_late
purged_late_lem now e v p =
    (ground (arith, v.updated_u64, v.ttl_u32), ground (arith, v.updated_u64, v.ttl_u32))

module _ (jump : JumpHash) (m : ShardingCompactionFilter) where
  -- The jump hash sends the row to another shard, and the shard is not resizing.
  abbrev pub IsForeign : Entry → Type 0
  IsForeign e = (m.is_resizing ≡ false) × (m.shard_id ≢ jump.hash e.partition_hash m.shard_count)

  is_purged_lem :
      (now : ℕ) (e : Entry) → IsEntry e → is_purged jump m now e ≡ true → IsForeign e ⊎ IsOver e now
  unfolding is_purged
  is_purged_lem now e v p = ground (arith, purged_late_lem now e v)

  -- A compaction purges a row, in range and with a value, only if its time to live is over, or if it
  -- belongs to another shard while no resize is under way.
  pub filter-IsOver :
      (now : ℕ) (e : Entry)
      → IsRow e
      → filter jump m now (to_bytes e) ≡ true
      → IsForeign e ⊎ IsOver e now
  unfolding filter
  filter-IsOver now e row p = is_purged_lem now e row.entry (rw (from_bytes_row e row, filter) at p)

  is_purged_forever :
      (now : ℕ) (e : Entry) → e.ttl_second ≡ 0 → (is_purged jump m now e ≡ true) ↔ IsForeign e
  unfolding is_purged is_purged_late
  is_purged_forever now e forever = (λ p. ground arith, λ f. ground arith)

  -- A row, in range and with a value, that has no time to live is purged exactly if it belongs to
  -- another shard while no resize is under way.
  pub filter_forever :
      (now : ℕ) (e : Entry)
      → IsRow e
      → e.ttl_second ≡ 0
      → (filter jump m now (to_bytes e) ≡ true) ↔ IsForeign e
  unfolding filter
  filter_forever now e row forever =
      rw (from_bytes_row e row, filter) (is_purged_forever now e forever)
