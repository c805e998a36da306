-- ===== src/Store/Follow/Order.antt =====
-- Two puts that reach a follower in either order.
use vasto.Prelude.{
  subst, ℕ, ◌≡◌, ◌≢◌, refl, sym, ◌∙◌, true, Bytes, bytes_eq, bytes_eq_refl, Bool-cases, inl, inr,
  ltb, if◌then◌else◌, Option, none, some, ok, arith, ◌>>=◌,
}
use vasto.Pb.Requests.{PutRequest, new_put_entry}
use vasto.Codec.{Entry, to_bytes, is_expired}
use vasto.Codec.RoundTrip.{IsRow}
use vasto.Storage.Rocks.{MergeOperator, Engine, Rocks, admits}
use vasto.Storage.Rocks as Db
use vasto.Storage.Rocks.Laws.{put_taken}
use vasto.Store.Process.{put_log_entry}
use vasto.Store.Follow.{process_entry}
use vasto.Store.Follow.Laws.{winner, HasRow, Changed, process_entry-put}

-- A row that never expires, or none.
abbrev pub IsImmortal : Option Entry → Type 0
IsImmortal none = Unit
IsImmortal (some row) = row.ttl_second ≡ 0

-- The row of the later time, and the second of two of one time.
abbrev newest : Option Entry → Entry → Entry
newest none t = t
newest (some row) t = if ltb t.updated_at_ns row.updated_at_ns then row else t

winner-newest :
    (now later : ℕ) (old : Option Entry) (t : Entry)
    → IsImmortal old
    → winner now later old t ≡ newest old t
unfolding is_expired
winner-newest now later none t h = refl
winner-newest now later (some row) t h = ground arith

newest-IsImmortal :
    (old : Option Entry) (t : Entry)
    → IsImmortal old
    → t.ttl_second ≡ 0
    → (newest old t).ttl_second ≡ 0
newest-IsImmortal none t h e = e
newest-IsImmortal (some row) t h e = ground arith

newest_comm :
    (old : Option Entry) (t u : Entry)
    → t.updated_at_ns ≢ u.updated_at_ns
    → newest (some (newest old t)) u ≡ newest (some (newest old u)) t
newest_comm none t u ne = ground arith
newest_comm (some row) t u ne = ground arith

newest-IsRow :
    (old : Option Entry) (t : Entry)
    → elim old as (λ o. Type 0) [ none ↦ Unit | some row ↦ IsRow row ]
    → IsRow t
    → IsRow (newest old t)
newest-IsRow none t h r = r
newest-IsRow (some row) t h r = elim (Bool-cases (ltb t.updated_at_ns row.updated_at_ns)) [
  | inl e ↦ rw e h
  | inr e ↦ rw e r
]

ttl_second-new_put_entry :
    (p : PutRequest) (at : ℕ) → p.ttl_second ≡ 0 → (new_put_entry p at).ttl_second ≡ 0
unfolding new_put_entry
ttl_second-new_put_entry p at h = h

updated_at_ns-new_put_entry : (p : PutRequest) (at : ℕ) → (new_put_entry p at).updated_at_ns ≡ at
unfolding new_put_entry
updated_at_ns-new_put_entry p at = refl

module _ {operator : MergeOperator} (engine : Engine operator) where
  old-IsRow :
      (d : Rocks engine) (key : Bytes) (old : Option Entry)
      → HasRow engine d key old
      → elim old as (λ o. Type 0) [ none ↦ Unit | some row ↦ IsRow row ]
  old-IsRow d key none h = tt
  old-IsRow d key (some row) h = h.0

  -- A put that RocksDB takes, as a follower of an open database processes it.
  abbrev pub Followed : PutRequest → ℕ → Type 0
  Followed p at =
      IsRow (new_put_entry p at)
      × (p.ttl_second ≡ 0)
      × ((db : engine.Db) → (engine.put p.key (to_bytes (new_put_entry p at)) db).1 ≡ none)

  module _ (key : Bytes) where
    follow_one :
        (now later at : ℕ) (d : Rocks engine) (p : PutRequest) (old : Option Entry)
        → p.key ≡ key
        → Followed p at
        → admits d.client_counter ≡ true
        → IsImmortal old
        → HasRow engine d key old
        → (d' : Rocks engine) × (process_entry engine now later (put_log_entry p at) d ≡ ok d')
          × Changed engine d key (newest old (new_put_entry p at)) d'
    follow_one now later at d p old same (r, ttl, taken) a h =
        subst
          (λ k.
            HasRow engine d k old
            → (d' : Rocks engine) × (process_entry engine now later (put_log_entry p at) d ≡ ok d')
              × Changed engine d k (newest old (new_put_entry p at)) d')
          same
          (λ known. rw (winner-newest now later old (new_put_entry p at) h) at (
            process_entry-put engine now later at d p old r known
              (put_taken engine d p.key (to_bytes (new_put_entry p at)) a (taken d.db))))

    follow_two :
        (now later now' later' at at' : ℕ) (d : Rocks engine) (p q : PutRequest)
        (old : Option Entry)
        → p.key ≡ key
        → q.key ≡ key
        → Followed p at
        → Followed q at'
        → admits d.client_counter ≡ true
        → IsImmortal old
        → HasRow engine d key old
        → (d' : Rocks engine) × ((process_entry engine now later (put_log_entry p at) d
              >>= process_entry engine now' later' (put_log_entry q at'))
            ≡ ok d')
          × ((j : Bytes)
              → Db.get engine j d' ≡ (
                  if bytes_eq j key
                  then (
                    to_bytes
                        (newest (some (newest old (new_put_entry p at))) (new_put_entry q at')),
                    none,
                  )
                  else Db.get engine j d))
    follow_two now later now' later' at at' d p q old key_p key_q fp fq a h known =
        let between = newest old (new_put_entry p at) in
        let (d1, ran1, change1) = follow_one now later at d p old key_p fp a h known in
        let there : HasRow engine d1 key (some between) = (
          newest-IsRow old _ (old-IsRow d key old known) fp.0,
          rw (bytes_eq_refl key) at (change1.1 key),
        ) in
        let lasting = newest-IsImmortal old _ h (ttl_second-new_put_entry p at fp.1) in
        let (d2, ran2, change2) =
          follow_one now' later' at' d1 q (some between) key_q fq (rw change1.0 a) lasting there in
        (
          d2,
          rw ran1 ran2,
          λ j. change2.1 j ∙ (elim (Bool-cases (bytes_eq j key)) [
            | inl here ↦ rw here refl
            | inr else_where ↦ rw else_where (rw else_where at (change1.1 j))
          ]),
        )

  module _ (d : Rocks engine) (p q : PutRequest) (old : Option Entry) where
    -- Two puts of the same key and different times, neither with a time to live, that reach a
    -- follower in either order and at any times leave the same bytes under every key, where the
    -- database is open and takes both writes, and has no row of the key or one that never expires.
    -- Both puts, and the row if there is one, must be rows that can be decoded: their values are not
    -- empty, and their times, times to live, hashes and types are in the range of their fields.
    pub process_entry_comm :
        (now later now' later' soon sooner soon' sooner' at at' : ℕ)
        → at ≢ at'
        → q.key ≡ p.key
        → Followed p at
        → Followed q at'
        → admits d.client_counter ≡ true
        → IsImmortal old
        → HasRow engine d p.key old
        → (first : Rocks engine) × (second : Rocks engine) × ((process_entry engine now later
                (put_log_entry p at)
                d
              >>= process_entry engine now' later' (put_log_entry q at'))
            ≡ ok first)
          × ((process_entry engine soon sooner (put_log_entry q at') d
                >>= process_entry engine soon' sooner' (put_log_entry p at))
              ≡ ok second)
          × ((j : Bytes) → Db.get engine j first ≡ Db.get engine j second)
    process_entry_comm now later now' later' soon sooner soon' sooner' at at' ne same fp fq a h
          known =
        let (first, ran, reads) =
          follow_two p.key now later now' later' at at' d p q old refl same fp fq a h known in
        let (second, ran', reads') =
          follow_two p.key soon sooner soon' sooner' at' at d q p old same refl fq fp a h known in
        let apart : (new_put_entry p at).updated_at_ns ≢ (new_put_entry q at').updated_at_ns =
          rw (updated_at_ns-new_put_entry p at, updated_at_ns-new_put_entry q at') ne in
        (
          first,
          second,
          ran,
          ran',
          λ j.
              reads j
              ∙ rw (newest_comm old (new_put_entry p at) (new_put_entry q at') apart)
                  (sym (reads' j)),
        )
