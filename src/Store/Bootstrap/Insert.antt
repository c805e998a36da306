-- ===== src/Store/Bootstrap/Insert.antt =====
-- The rows of a bootstrap that are inserted one by one.
use vasto.Prelude.{ℕ, ltb, if◌then◌else◌, Option, none, some}
use vasto.Codec.{Entry, is_expired}
use vasto.Storage.Rocks.{Rocks}
use vasto.Storage.Rocks as Db

-- The row that stays when a row comes in: one that has not expired, if the other is not newer.
abbrev pub latest : ℕ → Option Entry → Entry → Entry
latest now none t = t
latest now (some row) t =
    if is_expired row now then t else if ltb row.updated_at_ns t.updated_at_ns then t else row
