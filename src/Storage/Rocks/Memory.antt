-- ===== src/Storage/Rocks/Memory.antt =====
-- A database in memory, which keeps the promises that RocksDB makes.
use vasto.Prelude.{
  ◌≡◌, refl, Bool, true, false, List, [], ◌∷◌, Bytes, bytes_eq, Bool-cases, inl, inr, if◌then◌else◌,
  Option, none, some, Run, ok, panic, ltb, ◌==◌,
}
use vasto.Storage.Rocks.{MergeOperator, Engine, existing}

abbrev pub stored : Bytes → Bytes → (Bytes → Bytes) → Bytes → Bytes
stored key value db other = if bytes_eq other key then value else db other

pub stored_lem :
    (key value : Bytes) (db : Bytes → Bytes) (other : Bytes)
    → ◌≡◌ {A = Bytes × Option Bytes}
        (stored key value db other, none)
        (if bytes_eq other key then (value, none) else (db other, none))
stored_lem key value db other = elim (Bool-cases (bytes_eq other key)) [
  | inl e ↦ rw e refl
  | inr e ↦ rw e refl
]

-- What a merge stores; a merge that fails stores nothing.
abbrev pub merge_result : Bytes → Run (Option Bytes × Bool) → Bytes
merge_result old (ok (some new, true)) = new
merge_result old (ok (some new, false)) = old
merge_result old (ok (none, merged)) = old
merge_result old panic = old

-- The order of keys, byte by byte.
abbrev pub is_below : Bytes → Bytes → Bool
is_below xs [] = false
is_below [] (y ∷ ys) = true
is_below (x ∷ xs) (y ∷ ys) =
    let rest = is_below xs ys in if ltb x y then true else if x == y then rest else false

-- The pairs from the key on, in a list that is sorted by key.
abbrev pub pairs_from : Bytes → List (Bytes × Bytes) → List (Bytes × Bytes)
pairs_from key [] = []
pairs_from key ((k, v) ∷ rest) =
    let later = pairs_from key rest in if is_below k key then later else (k, v) ∷ rest

module _ (operator : MergeOperator) (pairs : List (Bytes × Bytes)) where
  pub merged_lem :
      (key operand : Bytes) (db : Bytes → Bytes) (other old new : Bytes)
      → ◌≡◌ {A = Option Bytes} none none
      → ◌≡◌ {A = Bytes × Option Bytes} (db key, none) (old, none)
      → operator (existing old) (operand ∷ []) ≡ ok (some new, true)
      → ◌≡◌ {A = Bytes × Option Bytes}
          (
            stored key
                (merge_result (db key) (operator (existing (db key)) (operand ∷ [])))
                db
                other,
            none,
          )
          (if bytes_eq other key then (new, none) else (db other, none))
  merged_lem key operand db other old new _ e r =
      let here : db key ≡ old = cc in rw (here, r) (stored_lem key new db other)

  abbrev pub memory : Engine operator
  memory = record {
    Db = Bytes → Bytes;
    get_bytes = λ key db. (db key, none);
    put = λ key value db. (stored key value db, none);
    merge = λ key operand db.
        (stored key (merge_result (db key) (operator (existing (db key)) (operand ∷ []))) db, none);
    delete = λ key db. (stored key [] db, none);
    scan = λ key db. (pairs_from key pairs, none);
    key_past_end = ok [];
    get_bytes-put = λ key value db other e. stored_lem key value db other;
    get_bytes-delete = λ key db other e. stored_lem key [] db other;
    get_bytes-merge = merged_lem;
  }
