-- ===== src/Idempotency/Stores.antt =====
-- The two stores: InMemoryIdempotencyStore of
-- apps/api/src/common/interceptors/idempotency.interceptor.ts, and
-- apps/api/src/infra/redis/redis-idempotency-store.ts over the interface of Redis, whose values are the
-- stored responses that JSON keeps.
use convene.Common.{
  ℕ, ◌+◌, ◌*◌, ◌<◌, ◌≡◌, ◌≢◌, refl, ap, ◌∙◌, false, Option, none, some, List, inl, inr, ltb, arith,
  if◌then◌else◌, Bool-cases, Option-cases,
}
use convene.Infra.Redis.{Redis}
use convene.Infra.Redis.Memory.{text_eq, text_eq_refl, text_eq_ne, text_eq_sound}
use convene.Idempotency.{StoredIdempotentResponse, IdempotencyStore, idempotency_ttl_ms}

abbrev pub idempotency_ttl_seconds : ℕ
idempotency_ttl_seconds = 24 * 60 * 60

module _ {B : Type 0} (redis : Redis (StoredIdempotentResponse B)) where
  open redis use {Store, get, set_ex}

  unfoldable pub redis_get : Store → List ℕ → ℕ → Option (StoredIdempotentResponse B) × Store
  redis_get s key now = (get s key now, s)

  unfoldable pub redis_set : Store → List ℕ → StoredIdempotentResponse B → ℕ → Store
  redis_set s key value now = set_ex s key value idempotency_ttl_seconds now

  abbrev pub RedisHolds : Store → List ℕ → StoredIdempotentResponse B → ℕ → Type 0
  RedisHolds s k v until = (t : ℕ) → t < until → get s k t ≡ some v

  abbrev pub redis_idempotency_store : IdempotencyStore B
  unfolding redis_get redis_set
  redis_idempotency_store = record {
    Store = Store;
    get = redis_get;
    set = redis_set;
    Holds = RedisHolds;
    get-Holds = λ s k v until t h l. h t l;
    get-keeps = λ s k j v until t h l. h;
    set-Holds =
        λ s k v now e t l. redis.get-set_ex s k v idempotency_ttl_seconds now t (omega arith);
    set-keeps = λ s k j v w until now h n t l.
        redis.get-set_ex_ne s j k w idempotency_ttl_seconds now t n ∙ h t l;
  }

-- A Map as the function of its lookups.
abbrev pub Entries : Type 0 → Type 0
Entries B = List ℕ → Option (StoredIdempotentResponse B)

module _ {B : Type 0} where
  abbrev pub memory_write : Entries B → List ℕ → Option (StoredIdempotentResponse B) → Entries B
  memory_write entries key value j = if text_eq key j then value else entries j

  abbrev pub memory_found :
      Option (StoredIdempotentResponse B)
      → Entries B
      → List ℕ
      → ℕ
      → Option (StoredIdempotentResponse B) × Entries B
  memory_found none entries key now = (none, entries)
  memory_found (some entry) entries key now =
      if ltb entry.expires_at now
      then (none, memory_write entries key none)
      else (some entry, entries)

  unfoldable pub memory_get :
      Entries B → List ℕ → ℕ → Option (StoredIdempotentResponse B) × Entries B
  memory_get entries key now = memory_found (entries key) entries key now

  unfoldable pub memory_set : Entries B → List ℕ → StoredIdempotentResponse B → ℕ → Entries B
  memory_set entries key value now = memory_write entries key (some value)

  abbrev pub MemoryHolds : Entries B → List ℕ → StoredIdempotentResponse B → ℕ → Type 0
  MemoryHolds entries k v until = (entries k ≡ some v) × (v.expires_at ≡ until)

  pub memory_get-Holds :
      (s : Entries B) (k : List ℕ) (v : StoredIdempotentResponse B) (until t : ℕ)
      → MemoryHolds s k v until
      → t < until
      → (memory_get s k t).0 ≡ some v
  unfolding memory_get
  memory_get-Holds s k v until t h l =
      let fresh : ltb v.expires_at t ≡ false = ground (arith, h.1) in
      rw (h.0, memory_get, fresh) refl

  pub memory_get-keeps :
      (s : Entries B) (k j : List ℕ) (v : StoredIdempotentResponse B) (until t : ℕ)
      → MemoryHolds s k v until
      → t < until
      → MemoryHolds (memory_get s j t).1 k v until
  unfolding memory_get
  memory_get-keeps s k j v until t h l = elim (Bool-cases (text_eq j k)) [
    | inl same ↦
        let here : s j ≡ some v = ap s (text_eq_sound j k same) ∙ h.0 in
        let fresh : ltb v.expires_at t ≡ false = ground (arith, h.1) in
        rw (here, memory_get, fresh) h
    | inr other ↦ elim (Option-cases (s j)) [
      | inl n ↦ rw (n, memory_get) h
      | inr (a, e) ↦ elim (Bool-cases (ltb a.expires_at t)) [
        | inl old ↦ rw (e, memory_get, old, other) h
        | inr young ↦ rw (e, memory_get, young) h
      ]
    ]
  ]

  pub memory_set-Holds :
      (s : Entries B) (k : List ℕ) (v : StoredIdempotentResponse B) (now : ℕ)
      → v.expires_at ≡ now + idempotency_ttl_ms
      → MemoryHolds (memory_set s k v now) k v (now + idempotency_ttl_ms)
  unfolding memory_set
  memory_set-Holds s k v now e = (rw (text_eq_refl k) refl, e)

  pub memory_set-keeps :
      (s : Entries B) (k j : List ℕ) (v w : StoredIdempotentResponse B) (until now : ℕ)
      → MemoryHolds s k v until
      → j ≢ k
      → MemoryHolds (memory_set s j w now) k v until
  unfolding memory_set
  memory_set-keeps s k j v w until now h n = (rw (text_eq_ne j k n) h.0, h.1)

  abbrev pub in_memory_idempotency_store : IdempotencyStore B
  in_memory_idempotency_store = record {
    Store = Entries B;
    get = memory_get;
    set = memory_set;
    Holds = MemoryHolds;
    get-Holds = memory_get-Holds;
    get-keeps = memory_get-keeps;
    set-Holds = memory_set-Holds;
    set-keeps = memory_set-keeps;
  }
