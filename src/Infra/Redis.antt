-- ===== src/Infra/Redis.antt =====
-- The Redis client (the package ioredis, not part of the repository) as an interface: what the
-- services read and write, with the documented laws of GET, SET … EX and DEL that they rely on.
-- Times are milliseconds; keys are texts.
pub mod Memory
pub mod Counters
pub mod CounterMemory
use convene.Common.{ℕ, ◌+◌, ◌*◌, ◌<◌, ◌≤◌, ◌≡◌, ◌≢◌, Option, none, some, List}

pub record Redis (V : Type 0) : Type 1 where
  pub Store : Type 0
  -- The value of a key at a time.
  pub get : Store → List ℕ → ℕ → Option V
  -- `set(key, value, "EX", seconds)` at a time.
  pub set_ex : Store → List ℕ → V → ℕ → ℕ → Store
  pub del : Store → List ℕ → Store
  pub get-set_ex :
      (s : Store) (k : List ℕ) (v : V) (seconds now t : ℕ)
      → t < now + seconds * 1000
      → get (set_ex s k v seconds now) k t ≡ some v
  pub get-set_ex_expired :
      (s : Store) (k : List ℕ) (v : V) (seconds now t : ℕ)
      → now + seconds * 1000 ≤ t
      → get (set_ex s k v seconds now) k t ≡ none
  pub get-set_ex_ne :
      (s : Store) (k j : List ℕ) (v : V) (seconds now t : ℕ)
      → k ≢ j
      → get (set_ex s k v seconds now) j t ≡ get s j t
  pub get-del : (s : Store) (k : List ℕ) (t : ℕ) → get (del s k) k t ≡ none
  pub get-del_ne : (s : Store) (k j : List ℕ) (t : ℕ) → k ≢ j → get (del s k) j t ≡ get s j t
