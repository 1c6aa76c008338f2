-- ===== src/Idempotency/Examples.antt =====
-- A route that counts its calls, for two users.
use convene.Common.{ℕ, ◌+◌, ◌≡◌, refl, true, none, some, List, [], ◌∷◌, arith}
use convene.Infra.Keys.{codes, idempotency_key}
use convene.Idempotency.{
  RequestLike, HandlerResult, returned, ServerState, IdempotencyStore, intercept,
}
use convene.Idempotency.Stores.{in_memory_idempotency_store, memory_get}
use convene.Idempotency.Replay.{TimedRequest, serve_all, intercept-replays}

abbrev store : IdempotencyStore ℕ
store = in_memory_idempotency_store

abbrev count_call : RequestLike ℕ → ℕ → HandlerResult ℕ ℕ × ℕ
count_call request calls = (returned (record { status_code = 201; body = calls + 1 }), calls + 1)

-- A post by a user.
abbrev post : ℕ → RequestLike ℕ
post user = record {
  is_post = true;
  idempotency_header = some (codes "abc");
  route = codes "/v1/connections";
  rest = user;
}

abbrev empty : ServerState store count_call
empty = record { world = 0; store = λ key. none }

abbrev between : List (TimedRequest ℕ)
between = record { request = post 1; at = 2000 } ∷ []

intercept-replays_example :
    let after =
      serve_all store count_call between (intercept store count_call (post 1) 1000 empty).1 in
    ((intercept store count_call (post 2) 3000 after).0
      ≡ returned (record { status_code = 201; body = 1 }))
    × ((intercept store count_call (post 2) 3000 after).1.world ≡ after.world)
unfolding memory_get idempotency_key
intercept-replays_example =
    intercept-replays store count_call (post 1) (post 2) 1000 3000 between empty
      (idempotency_key (codes "/v1/connections") (codes "abc"))
      (record { status_code = 201; body = 1 }) refl refl refl refl (omega arith, tt) (omega arith)
