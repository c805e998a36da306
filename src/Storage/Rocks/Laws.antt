-- ===== src/Storage/Rocks/Laws.antt =====
-- Reads after writes, through the counter.
use vasto.Prelude.{
  ◌≡◌, refl, true, [], ◌∷◌, Bytes, bytes_eq, Bool-cases, inl, inr, if◌then◌else◌, none, some, ok,
  arith,
}
use vasto.Storage.Rocks.{MergeOperator, Engine, Rocks, existing, admits, put, get, merge, delete}

module _ {operator : MergeOperator} (engine : Engine operator) (d : Rocks engine)
    (key other : Bytes) where
  pub get-put :
      (value : Bytes)
      → (put engine key value d).1 ≡ none
      → get engine other (put engine key value d).0
        ≡ (if bytes_eq other key then (value, none) else get engine other d)
  unfolding put get
  get-put value e = ground (arith, engine.get_bytes-put key value d.db other)

  pub get-delete :
      (delete engine key d).1 ≡ none
      → get engine other (delete engine key d).0
        ≡ (if bytes_eq other key then ([], none) else get engine other d)
  unfolding delete get
  get-delete e = ground (arith, engine.get_bytes-delete key d.db other)

  pub get-merge :
      (operand old new : Bytes)
      → (merge engine key operand d).1 ≡ none
      → get engine key d ≡ (old, none)
      → operator (existing old) (operand ∷ []) ≡ ok (some new, true)
      → get engine other (merge engine key operand d).0
        ≡ (if bytes_eq other key then (new, none) else get engine other d)
  unfolding merge get
  get-merge operand old new e r m =
      ground (arith, engine.get_bytes-merge key operand d.db other old new)

module _ {operator : MergeOperator} (engine : Engine operator) (d : Rocks engine)
    (key value : Bytes) where
  pub client_counter-put : (put engine key value d).0.client_counter ≡ d.client_counter
  unfolding put
  client_counter-put = elim (Bool-cases (admits d.client_counter)) [
    | inl a ↦ rw a refl
    | inr a ↦ rw a refl
  ]

  -- An open database takes a write that RocksDB takes.
  pub put_taken :
      admits d.client_counter ≡ true
      → (engine.put key value d.db).1 ≡ none
      → (put engine key value d).1 ≡ none
  unfolding put
  put_taken a e = rw a e
