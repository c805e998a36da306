-- ===== src/Store/Requests.antt =====
-- cmd/store/process_prefix.go, and processRequest of cmd/store/store_tcp_server.go: one request to a
-- store. The map of the keyspaces points at its shards, so that a request changes the shard that it
-- finds, and not the map.
use vasto.Prelude.{
  ℕ, Bool, true, false, List, [], ◌∷◌, ◌++◌, Bytes, if◌then◌else◌, codes, Option, none, some, Run,
  ok, panic, ◌>>=◌,
}
use vasto.Pb.Requests.{
  GetByPrefixRequest, KeyTypeValue, WriteResponse, GetResponse, GetByPrefixResponse, Request,
  Response,
}
use vasto.Codec.{from_bytes, is_expired}
use vasto.Storage.Rocks.{MergeOperator, Engine}
use vasto.Storage.PrefixScan.{prefix_scan}
use vasto.Store.Shards.{BinLog, Shard, KeyspaceShards, get_shard}
use vasto.Store.Process.{
  done, refused, key_type_value, process_put, process_merge, process_delete, process_get,
}

-- A row that has not expired is listed; one that does not decode is a nil pointer.
unfoldable pub list_row : ℕ → List KeyTypeValue → Bytes → Bytes → Run (List KeyTypeValue × Bool)
list_row now listed key value = elim (from_bytes value) [
  | none ↦ panic
  | some e ↦ ok (if is_expired e now then listed else listed ++ (key_type_value key e ∷ []), true)
]

unfoldable pub prefix_response : List KeyTypeValue × Option Bytes → GetByPrefixResponse
prefix_response (listed, none) = record { ok = true; status = []; key_values = listed }
prefix_response (listed, some err) = record { ok = false; status = err; key_values = [] }

abbrev pub written : WriteResponse → Response
written w = record { write = some w; get = none; get_by_prefix = none }

abbrev pub got : GetResponse → Response
got g = record { write = none; get = some g; get_by_prefix = none }

abbrev pub listed : GetByPrefixResponse → Response
listed l = record { write = none; get = none; get_by_prefix = some l }

abbrev pub not_found : Bytes → Bytes
not_found keyspace = codes "keyspace " ++ (keyspace ++ codes " not found")

-- The answer where the shard is not on this store; a request that asks for nothing is fine.
unfoldable pub missing_response : Bytes → Request → Response
missing_response keyspace r =
    let no = written (refused (not_found keyspace)) in
    elim r.get [
      | some _ ↦ got (record { ok = false; status = not_found keyspace; key_value = none })
      | none ↦ elim r.put [
        | some _ ↦ no
        | none ↦ elim r.merge [
          | some _ ↦ no
          | none ↦ elim r.delete [
            | some _ ↦ no
            | none ↦ elim r.get_by_prefix [
              | some _ ↦
                  listed (record { ok = false; status = not_found keyspace; key_values = [] })
              | none ↦ written done
            ]
          ]
        ]
      ]
    ]

module _ {operator : MergeOperator} (engine : Engine operator) (bin_log : BinLog) where
  unfoldable pub process_prefix :
      ℕ → Shard engine bin_log → GetByPrefixRequest → Run GetByPrefixResponse
  unfolding list_row prefix_response
  process_prefix now s q = do
    result ← prefix_scan (list_row now) engine q.prefix q.last_seen_key q.limit [] s.db
    ok (prefix_response result)

  -- What the shard answers, and what becomes of it.
  unfoldable pub shard_response :
      Bool → ℕ → Shard engine bin_log → Request → Run (Shard engine bin_log × Response)
  unfolding process_get process_put process_merge process_delete process_prefix
  shard_response disable_bin_log now s r = elim r.get [
    | some g ↦ do answer ← process_get engine bin_log now s g; ok (s, got answer)
    | none ↦ elim r.put [
      | some p ↦
          (let (s', w) = process_put engine bin_log disable_bin_log now s p in ok (s', written w))
      | none ↦ elim r.merge [
        | some m ↦
            (let (s', w) = process_merge engine bin_log disable_bin_log now s m in
              ok (s', written w))
        | none ↦ elim r.delete [
          | some d ↦
              (let (s', w) = process_delete engine bin_log disable_bin_log now s d in
                ok (s', written w))
          | none ↦ elim r.get_by_prefix [
            | some q ↦ do answer ← process_prefix now s q; ok (s, listed answer)
            | none ↦ ok (s, written done)
          ]
        ]
      ]
    ]
  ]

  -- The answer, and the shard that was found and changed in its place, if there is one.
  unfoldable pub process_request :
      Bool
      → ℕ
      → KeyspaceShards engine bin_log
      → Bytes
      → Request
      → Run (Option (Shard engine bin_log) × Response)
  unfolding missing_response shard_response get_shard
  process_request disable_bin_log now m keyspace r =
      elim (get_shard engine bin_log keyspace r.shard_id m) [
        | none ↦ ok (none, missing_response keyspace r)
        | some s ↦ do (s', answer) ← shard_response disable_bin_log now s r; ok (some s', answer)
      ]
