-- ===== src/RateLimit/Window.antt =====
-- The sorted sets of Redis (not part of the repository) as an interface, with the documented laws of
-- ZREMRANGEBYSCORE, ZADD and PEXPIRE that the script sliding-window.lua relies on.
use convene.Common.{
  ℕ, ◌+◌, ◌≤◌, ◌<◌, ◌≡◌, Bool, false, List, [], any, count, if◌then◌else◌, ltb, select, ◌==◌,
}

pub record Member : Type 0 where
  pub score : ℕ
  pub member : ℕ

abbrev pub has_member : ℕ → List Member → Bool
has_member id set = any (λ m. m.member == id) set

pub record SortedSets : Type 1 where
  pub Store : Type 0
  -- The members of a key at a time.
  pub zset : Store → List ℕ → ℕ → List Member
  -- `ZREMRANGEBYSCORE key -inf (now - window)` at `now`: the bound may be negative.
  pub zremrangebyscore : Store → List ℕ → ℕ → ℕ → Store
  pub zadd : Store → List ℕ → Member → ℕ → Store
  pub pexpire : Store → List ℕ → ℕ → ℕ → Store
  pub zset-zremrangebyscore :
      (s : Store) (k : List ℕ) (window now t : ℕ)
      → now ≤ t
      → zset (zremrangebyscore s k window now) k t
        ≡ select (λ m. ltb now (m.score + window)) (zset s k t)
  -- A member that is not in the set yet is one more.
  pub count-zadd :
      (s : Store) (k : List ℕ) (m : Member) (now : ℕ) (p : Member → Bool)
      → has_member m.member (zset s k now) ≡ false
      → count p (zset (zadd s k m now) k now) ≡ (if p m then 1 else 0) + count p (zset s k now)
  pub zset-pexpire :
      (s : Store) (k : List ℕ) (ms now t : ℕ)
      → now ≤ t
      → t < now + ms
      → zset (pexpire s k ms now) k t ≡ zset s k now
  pub zset-pexpire_expired :
      (s : Store) (k : List ℕ) (ms now t : ℕ) → now + ms ≤ t → zset (pexpire s k ms now) k t ≡ []
