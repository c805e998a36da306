-- ===== src/Storage/FilterTests.antt =====
-- The theorems on the compaction filter at concrete inputs.
use vasto.Prelude.{◌≡◌, ◌⊎◌, refl, true, false, codes, arith}
use vasto.Codec.{Entry, to_bytes}
use vasto.Codec.RoundTrip.{IsRow, from_bytes_row}
use vasto.Topology.Jump.{capped}
use vasto.Storage.Filter.{ShardingCompactionFilter, filter, is_purged, is_purged_late}
use vasto.Storage.Filter.Safety.{IsOver, IsForeign, filter-IsOver}

-- A cluster of two, of which this is shard 1.
abbrev shard_1 : ShardingCompactionFilter
shard_1 = record { shard_id = 1; shard_count = 2; is_resizing = false }

-- Updated at half a second, for one second; the key stands on shard 1.
abbrev brief : Entry
brief = record {
  partition_hash = 7;
  updated_at_ns = 500_000_000;
  ttl_second = 1;
  op_and_data_type = 0;
  value = codes "v";
}

brief-IsRow : IsRow brief
brief-IsRow = record {
  entry = record {
    hash_u64 = omega arith;
    updated_u64 = omega arith;
    ttl_u32 = omega arith;
    op_byte = omega arith;
  };
  has_value = omega arith;
}

brief_purged : filter capped shard_1 502 (to_bytes brief) ≡ true
unfolding filter is_purged is_purged_late
brief_purged = rw (from_bytes_row brief brief-IsRow, filter) refl

filter-IsOver_example : IsForeign capped shard_1 brief ⊎ IsOver brief 502
filter-IsOver_example = filter-IsOver capped shard_1 502 brief brief-IsRow brief_purged

-- A row of shard 0 that lives forever.
abbrev lasting : Entry
lasting = record {
  partition_hash = 0;
  updated_at_ns = 500_000_000;
  ttl_second = 0;
  op_and_data_type = 0;
  value = codes "v";
}

lasting-IsRow : IsRow lasting
lasting-IsRow = record {
  entry = record {
    hash_u64 = omega arith;
    updated_u64 = omega arith;
    ttl_u32 = omega arith;
    op_byte = omega arith;
  };
  has_value = omega arith;
}
