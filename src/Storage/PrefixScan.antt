-- ===== src/Storage/PrefixScan.antt =====
-- storage/rocks/rocksdb_prefix_scan.go: one page of the pairs whose keys have a prefix.
pub mod Laws
use vasto.Prelude.{
  ℕ, suc, ◌+◌, Bool, true, false, not, ◌&&◌, List, [], ◌∷◌, ◌++◌, Bytes, bytes_eq, length, ltb,
  ◌==◌, if◌then◌else◌, codes, Option, none, some, Run, ok, panic, ◌>>=◌,
}
use vasto.Storage.Rocks.{MergeOperator, Engine, Rocks, admits, shutdown_in_progress}

-- `bytes.HasPrefix(key, prefix)`
unfoldable pub has_prefix : Bytes → Bytes → Bool
has_prefix key [] = true
has_prefix [] (p ∷ prefix) = false
has_prefix (k ∷ key) (p ∷ prefix) = k == p && has_prefix key prefix

-- The caller's function takes its own state on, and answers whether to go on.
module _ {ℓ} {S : Type ℓ} (fn : S → Bytes → Bytes → Run (S × Bool)) where
  -- `i` counts the pairs seen.
  unfoldable pub scan_loop : Bytes → ℕ → ℕ → S → List (Bytes × Bytes) → Run S
  unfolding has_prefix
  scan_loop prefix limit i s [] = ok s
  scan_loop prefix limit i s ((key, value) ∷ rest) =
      if ltb 0 limit && ltb limit (suc i)
      then ok s
      else if not (has_prefix key prefix)
      then ok s
      else (do
        (s', more) ← fn s key value
        let others = scan_loop prefix limit (suc i) s' rest
        if more then others else ok s')

  module _ {operator : MergeOperator} (engine : Engine operator) where
    -- Past the last key that the caller has seen, if it is still there.
    unfoldable pub skip_seen : Bytes → List (Bytes × Bytes) → Run (List (Bytes × Bytes))
    skip_seen last_key [] = do key ← engine.key_past_end; ok []
    skip_seen last_key ((key, value) ∷ rest) =
        ok (if bytes_eq key last_key then rest else (key, value) ∷ rest)

    abbrev pub iterator_error : Option Bytes → Option Bytes
    iterator_error none = none
    iterator_error (some err) = some (codes "prefix scan iterator: " ++ err)

    unfoldable pub enumerate : Bytes → Bytes → ℕ → S → engine.Db → Run (S × Option Bytes)
    unfolding skip_seen scan_loop
    enumerate prefix last_key limit s db =
        let (pairs, err) = engine.scan (if length last_key == 0 then prefix else last_key) db in
        do
          left ← if length last_key == 0 then ok pairs else skip_seen last_key pairs
          s' ← scan_loop prefix limit 0 s left
          ok (s', iterator_error err)

    unfoldable pub prefix_scan : Bytes → Bytes → ℕ → S → Rocks engine → Run (S × Option Bytes)
    prefix_scan prefix last_key limit s d =
        if admits d.client_counter
        then enumerate prefix last_key limit s d.db
        else ok (s, some shutdown_in_progress)
