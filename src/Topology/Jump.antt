-- ===== src/Topology/Jump.antt =====
-- The jump consistent hash of github.com/dgryski/go-jump, which the cluster only calls, as a
-- parameter: what its documentation promises.
use native.Mathlib.Nat.{add-zero}
use vasto.Prelude.{◌-◌, min, subst, ℕ, zero, suc, ◌+◌, ◌≤◌, ◌<◌, ◌≡◌, ◌⊎◌, inl, arith}

-- `hash key n` is a bucket below `n`, and a new bucket only takes keys away from the others.
pub record JumpHash : Type 0 where
  pub hash : ℕ → ℕ → ℕ
  pub hash_lt : (key n : ℕ) → 0 < n → hash key n < n
  pub hash_grow : (key n : ℕ) → 0 < n → (hash key (n + 1) ≡ hash key n) ⊎ (hash key (n + 1) ≡ n)

add_suc : (n m : ℕ) → n + m + 1 ≡ n + suc m
add_suc n m = omega arith

module _ (jump : JumpHash) where
  open jump use {hash, hash_grow}

  hash-add : (key n m : ℕ) → 0 < n → (hash key (n + m) ≡ hash key n) ⊎ (n ≤ hash key (n + m))
  hash-add key n zero h = inl (rw add-zero)
  hash-add key n (suc m) h =
      rw (← add_suc n m) (ground (arith, hash-add key n m h, hash_grow key (n + m)))

  -- Between two sizes a key stays where it is or moves to one of the new buckets.
  pub hash_between : (key n m : ℕ) → 0 < n → n ≤ m → (hash key m ≡ hash key n) ⊎ (n ≤ hash key m)
  hash_between key n m h le =
      subst (λ k. (hash key k ≡ hash key n) ⊎ (n ≤ hash key k)) (omega arith)
        (hash-add key n (m - n) h)

pub capped_lt : (key n : ℕ) → 0 < n → min key (n - 1) < n
capped_lt key n h = omega arith

pub capped_grow :
    (key n : ℕ) → 0 < n → (min key (n + 1 - 1) ≡ min key (n - 1)) ⊎ (min key (n + 1 - 1) ≡ n)
capped_grow key n h = grind arith

-- A hash that the promise allows.
abbrev pub capped : JumpHash
capped = record { hash = λ key n. min key (n - 1); hash_lt = capped_lt; hash_grow = capped_grow }
