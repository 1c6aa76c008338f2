-- ===== src/RateLimit/Memory.antt =====
-- Sorted sets kept in memory, for examples: each key has its members and the time when it expires.
use convene.Common.{
  ℕ, ◌+◌, ◌≤◌, ◌<◌, ◌≡◌, refl, Bool, false, Option, none, some, List, [], arith, ltb, if◌then◌else◌,
  count, count-insert, select, update_where, insert, ◌==◌,
}
use convene.Infra.Redis.Memory.{text_eq, text_eq_refl}
use convene.RateLimit.Window.{Member, SortedSets, has_member}

pub record Entry : Type 0 where
  pub members : List Member
  pub expires_at : Option ℕ

abbrev pub live : Entry → ℕ → List Member
live e t = elim e.expires_at [ none ↦ e.members | some x ↦ if ltb t x then e.members else [] ]

abbrev pub expiry_of : Entry → ℕ → Option ℕ
expiry_of e t = elim e.expires_at [ none ↦ none | some x ↦ if ltb t x then some x else none ]

abbrev pub Sets : Type 0
Sets = List ℕ → Entry

abbrev pub put : List ℕ → Entry → Sets → Sets
put k e s j = if text_eq k j then e else s j

unfoldable pub zset : Sets → List ℕ → ℕ → List Member
zset s k t = live (s k) t

unfoldable pub zremrangebyscore : Sets → List ℕ → ℕ → ℕ → Sets
zremrangebyscore s k window now =
    put k
      (record {
        members = select (λ m. ltb now (m.score + window)) (s k).members;
        expires_at = (s k).expires_at;
      })
      s

unfoldable pub zadd : Sets → List ℕ → Member → ℕ → Sets
zadd s k m now =
    put k
      (record {
        members =
            if has_member m.member (live (s k) now)
            then update_where (λ x. x.member == m.member) (λ _. m) (live (s k) now)
            else insert m (live (s k) now);
        expires_at = expiry_of (s k) now;
      })
      s

unfoldable pub pexpire : Sets → List ℕ → ℕ → ℕ → Sets
pexpire s k ms now = put k (record { members = live (s k) now; expires_at = some (now + ms) }) s

module _ (s : Sets) (k : List ℕ) where
  pub zset-zremrangebyscore :
      (window now t : ℕ)
      → now ≤ t
      → zset (zremrangebyscore s k window now) k t
        ≡ select (λ m. ltb now (m.score + window)) (zset s k t)
  unfolding zset zremrangebyscore
  zset-zremrangebyscore window now t le = ground (arith, text_eq_refl k)

  pub count-zadd :
      (m : Member) (now : ℕ) (p : Member → Bool)
      → has_member m.member (zset s k now) ≡ false
      → count p (zset (zadd s k m now) k now) ≡ (if p m then 1 else 0) + count p (zset s k now)
  unfolding zset zadd
  count-zadd m now p fresh = ground (arith, text_eq_refl k, count-insert p m (live (s k) now))

  pub zset-pexpire :
      (ms now t : ℕ) → now ≤ t → t < now + ms → zset (pexpire s k ms now) k t ≡ zset s k now
  unfolding zset pexpire
  zset-pexpire ms now t le lt = ground (arith, text_eq_refl k)

  pub zset-pexpire_expired : (ms now t : ℕ) → now + ms ≤ t → zset (pexpire s k ms now) k t ≡ []
  unfolding zset pexpire
  zset-pexpire_expired ms now t le = ground (arith, text_eq_refl k)

unfoldable pub memory : SortedSets
unfolding zset zremrangebyscore zadd pexpire
memory = record {
  Store = Sets;
  zset = zset;
  zremrangebyscore = zremrangebyscore;
  zadd = zadd;
  pexpire = pexpire;
  zset-zremrangebyscore = zset-zremrangebyscore;
  count-zadd = count-zadd;
  zset-pexpire = zset-pexpire;
  zset-pexpire_expired = zset-pexpire_expired;
}

unfoldable pub fresh : SortedSets.Store memory
unfolding memory
fresh k = record { members = []; expires_at = none }

pub zset-fresh : (k : List ℕ) (t : ℕ) → SortedSets.zset memory fresh k t ≡ []
unfolding memory fresh zset
zset-fresh k t = refl
