-- ===== src/Idempotency.antt =====
-- apps/api/src/common/interceptors/idempotency.interceptor.ts, with its store as an interface: a POST
-- request with an Idempotency-Key is answered by the response on file. The handler of the route is an
-- argument; a response is on file when its request ends. Bodies are what JSON leaves of them.
pub mod Stores
pub mod Replay
mod Examples
use convene.Common.{
  ℕ, ◌+◌, ◌*◌, ◌<◌, ◌≡◌, ◌≢◌, Bool, true, false, Option, none, some, List, ◌==◌, if◌then◌else◌,
}
use mathlib.Core.Option
use convene.Infra.Keys.{idempotency_key}

pub record StoredIdempotentResponse (B : Type 0) : Type 0 where
  pub status_code : ℕ
  pub body : B
  pub expires_at : ℕ

abbrev pub idempotency_ttl_ms : ℕ
idempotency_ttl_ms = 24 * 60 * 60 * 1000

-- The class IdempotencyStore: `Holds s k v until` says that `k` has the value `v` before `until`.
pub record IdempotencyStore (B : Type 0) : Type 1 where
  pub Store : Type 0
  pub get : Store → List ℕ → ℕ → Option (StoredIdempotentResponse B) × Store
  -- `set` at a time.
  pub set : Store → List ℕ → StoredIdempotentResponse B → ℕ → Store
  pub Holds : Store → List ℕ → StoredIdempotentResponse B → ℕ → Type 0
  pub get-Holds :
      (s : Store) (k : List ℕ) (v : StoredIdempotentResponse B) (until t : ℕ)
      → Holds s k v until
      → t < until
      → (get s k t).0 ≡ some v
  pub get-keeps :
      (s : Store) (k j : List ℕ) (v : StoredIdempotentResponse B) (until t : ℕ)
      → Holds s k v until
      → t < until
      → Holds (get s j t).1 k v until
  pub set-Holds :
      (s : Store) (k : List ℕ) (v : StoredIdempotentResponse B) (now : ℕ)
      → v.expires_at ≡ now + idempotency_ttl_ms
      → Holds (set s k v now) k v (now + idempotency_ttl_ms)
  pub set-keeps :
      (s : Store) (k j : List ℕ) (v w : StoredIdempotentResponse B) (until now : ℕ)
      → Holds s k v until
      → j ≢ k
      → Holds (set s j w now) k v until

-- A request: `route` is `request.route?.path ?? request.url ?? "unknown"`, and `Q` what else it has.
pub record RequestLike (Q : Type 0) : Type 0 where
  pub is_post : Bool
  pub idempotency_header : Option (List ℕ)
  pub route : List ℕ
  pub rest : Q

pub record ResponseLike (B : Type 0) : Type 0 where
  pub status_code : ℕ
  pub body : B

pub data HandlerResult (B E : Type 0) : Type 0 where
  returned : ResponseLike B → HandlerResult B E
  thrown : E → HandlerResult B E

-- `response.statusCode || 200`.
abbrev pub or_ok : ℕ → ℕ
or_ok code = if code == 0 then 200 else code

abbrev pub stored_of : {B : Type 0} → ResponseLike B → ℕ → StoredIdempotentResponse B
stored_of response now = record {
  status_code = or_ok response.status_code;
  body = response.body;
  expires_at = now + idempotency_ttl_ms;
}

abbrev pub replay_of : {B : Type 0} → StoredIdempotentResponse B → ResponseLike B
replay_of cached = record { status_code = cached.status_code; body = cached.body }

-- The key of a request that is looked up.
abbrev pub cache_key : {Q : Type 0} → RequestLike Q → Option (List ℕ)
cache_key request =
    if request.is_post
    then Option.map (idempotency_key request.route) request.idempotency_header
    else none

module _ {B E Q W : Type 0} (idempotency : IdempotencyStore B)
    (handle : RequestLike Q → W → HandlerResult B E × W) where
  open idempotency use {Store, get, set}

  -- The world that the handlers write, and the store.
  pub record ServerState : Type 0 where
    pub world : W
    pub store : Store

  -- `tap`: a response is stored, an error is not.
  abbrev pub tap : List ℕ → ℕ → HandlerResult B E → Store → Store
  tap key now (returned response) store = set store key (stored_of response now) now
  tap key now (thrown e) store = store

  abbrev pub answer :
      RequestLike Q
      → List ℕ
      → ℕ
      → Option (StoredIdempotentResponse B)
      → Store
      → W
      → HandlerResult B E × ServerState
  answer request key now (some cached) store w =
      (returned (replay_of cached), record { world = w; store = store })
  answer request key now none store w =
      let handled = handle request w in
      (handled.0, record { world = handled.1; store = tap key now handled.0 store })

  unfoldable pub intercept : RequestLike Q → ℕ → ServerState → HandlerResult B E × ServerState
  intercept request now s = elim (cache_key request) [
    | none ↦
        let handled = handle request s.world in
        (handled.0, record { world = handled.1; store = s.store })
    | some key ↦ let found = get s.store key now in answer request key now found.0 found.1 s.world
  ]
