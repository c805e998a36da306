-- ===== src/Pb/Identifier.antt =====
-- IdentifierOnThisServer of pb/shard_info.go, and the decimal numbers of fmt's %d.
use mathlib.Core.Path.{ap₂}
use mathlib.Core.List.{append_assoc}
use vasto.Prelude.{
  subst, Bool-cases, inl, inr, ℕ, zero, suc, ◌+◌, ◌-◌, ◌*◌, ◌/◌, ◌%◌, ◌<◌, ◌≡◌, ◌≢◌, ◌↔◌, refl, sym,
  ap, ◌∙◌, [], ◌∷◌, ◌++◌, Bytes, All, All-append, ◌==◌, if◌then◌else◌, arith,
}
use vasto.Pb.{ShardInfo}

-- Each round takes the last digit; `n + 1` rounds are enough for `n`.
unfoldable pub decimal_loop : ℕ → ℕ → Bytes
decimal_loop zero n = []
decimal_loop (suc fuel) n =
    let front = decimal_loop fuel (n / 10) in
    (if n / 10 == 0 then [] else front) ++ ((48 + n % 10) ∷ [])

unfoldable pub decimal : ℕ → Bytes
unfolding decimal_loop
decimal n = decimal_loop (suc n) n

abbrev pub dot : ℕ
dot = 46

unfoldable pub identifier_on_this_server : ShardInfo → Bytes
identifier_on_this_server s =
    s.keyspace_name ++ (dot ∷ (decimal s.server_id ++ (dot ∷ decimal s.shard_id)))

-- The number that digits stand for.
abbrev pub value_of : ℕ → Bytes → ℕ
value_of acc [] = acc
value_of acc (c ∷ rest) = value_of (acc * 10 + (c - 48)) rest

value_of-snoc :
    (acc : ℕ) (xs : Bytes) (c : ℕ) → value_of acc (xs ++ (c ∷ [])) ≡ value_of acc xs * 10 + (c - 48)
value_of-snoc acc [] c = refl
value_of-snoc acc (x ∷ xs) c = value_of-snoc (acc * 10 + (x - 48)) xs c

pub value_of-decimal_loop : (fuel n : ℕ) → n < fuel → value_of 0 (decimal_loop fuel n) ≡ n
unfolding decimal_loop
value_of-decimal_loop zero n h = absurd (omega arith)
value_of-decimal_loop (suc fuel) n h = elim (Bool-cases (n / 10 == 0)) [
  | inl last ↦ rw last (ground arith)
  | inr more ↦
      rw (more, value_of-snoc 0 (decimal_loop fuel (n / 10)) (48 + n % 10))
        (omega (arith, value_of-decimal_loop fuel (n / 10) (ground arith)))
]

decimal-injective : (a b : ℕ) → decimal a ≡ decimal b → a ≡ b
unfolding decimal
decimal-injective a b e =
    sym (value_of-decimal_loop (suc a) a (omega arith))
    ∙ ap (value_of 0) e
    ∙ value_of-decimal_loop (suc b) b (omega arith)

abbrev NoDot : Bytes → Type 0
NoDot = All (λ c. c ≢ dot)

decimal_loop-NoDot : (fuel n : ℕ) → NoDot (decimal_loop fuel n)
unfolding decimal_loop
decimal_loop-NoDot zero n = tt
decimal_loop-NoDot (suc fuel) n = elim (Bool-cases (n / 10 == 0)) [
  | inl last ↦ rw last (omega arith)
  | inr more ↦
      rw more (All-append (λ c. c ≢ dot) _ _ (decimal_loop-NoDot fuel (n / 10)) (omega arith))
]

decimal-NoDot : (n : ℕ) → NoDot (decimal n)
unfolding decimal
decimal-NoDot n = decimal_loop-NoDot (suc n) n

NoDot-inside : (xs ys : Bytes) → ¬ NoDot (xs ++ (dot ∷ ys))
NoDot-inside [] ys h = h.0 refl
NoDot-inside (x ∷ xs) ys h = NoDot-inside xs ys h.1

-- A text is split at its last dot in one way.
last_dot :
    (xs ys : Bytes) (xs' ys' : Bytes)
    → NoDot ys
    → NoDot ys'
    → xs ++ (dot ∷ ys) ≡ xs' ++ (dot ∷ ys')
    → (xs ≡ xs') × (ys ≡ ys')
last_dot [] ys [] ys' h h' e = (refl, cc)
last_dot [] ys (x ∷ xs') ys' h h' e =
    let rest : ys ≡ xs' ++ (dot ∷ ys') = cc in absurd (NoDot-inside xs' ys' (subst NoDot rest h))
last_dot (x ∷ xs) ys [] ys' h h' e =
    let rest : ys' ≡ xs ++ (dot ∷ ys) = cc in absurd (NoDot-inside xs ys (subst NoDot rest h'))
last_dot (x ∷ xs) ys (x' ∷ xs') ys' h h' e =
    let head : x ≡ x' = cc in
    let (front, back) = last_dot xs ys xs' ys' h h' (cc) in (ap₂ ◌∷◌ head front, back)

-- Two shards have the same identifier exactly when they agree in keyspace, server id and shard id,
-- although a keyspace's name may itself hold dots and digits.
pub identifier_iff :
    (s t : ShardInfo)
    → (identifier_on_this_server s ≡ identifier_on_this_server t) ↔ (
        (s.keyspace_name ≡ t.keyspace_name)
        × (s.server_id ≡ t.server_id)
        × (s.shard_id ≡ t.shard_id))
unfolding identifier_on_this_server
identifier_iff s t = (
  λ e.
      let joined =
        append_assoc s.keyspace_name (dot ∷ decimal s.server_id) (dot ∷ decimal s.shard_id)
        ∙ e
        ∙ sym
            (append_assoc t.keyspace_name (dot ∷ decimal t.server_id) (dot ∷ decimal t.shard_id)) in
      let (front, shards) = last_dot _ _ _ _ (decimal-NoDot _) (decimal-NoDot _) joined in
      let (names, servers) = last_dot _ _ _ _ (decimal-NoDot _) (decimal-NoDot _) front in
      (names, decimal-injective _ _ servers, decimal-injective _ _ shards),
  λ (names, servers, shards). rw (names, servers, shards),
)
