-- ===== src/Codec/Expiry.antt =====
-- When an entry counts as expired.
use vasto.Prelude.{ℕ, ◌+◌, ◌*◌, ◌^◌, ◌≤◌, ◌<◌, ◌≡◌, true, ◌&&◌, ltb, arith}
use vasto.Codec.{Entry, is_expired}

-- An entry with time to live zero never expires, and one that lives for at most four seconds has
-- expired exactly when the time is later than its update by more than that, while the sum fits
-- 64 bits.
pub is_expired_short :
    (e : Entry) (now : ℕ)
    → e.ttl_second ≤ 4
    → e.updated_at_ns + 4_000_000_000 < 2 ^ 64
    → is_expired e now
      ≡ (ltb 0 e.ttl_second && ltb (e.updated_at_ns + e.ttl_second * 1_000_000_000) now)
unfolding is_expired
is_expired_short e now h k = ground arith

-- An entry with any time to live but zero has expired 2^32 nanoseconds after its update, also one
-- that is meant to live for five seconds or for a year.
pub is_expired_early :
    (e : Entry) (now : ℕ)
    → 0 < e.ttl_second
    → now < 2 ^ 64
    → e.updated_at_ns + 2 ^ 32 ≤ now
    → is_expired e now ≡ true
unfolding is_expired
is_expired_early e now h k late = ground arith
