-- ===== src/Idempotency/Replay.antt =====
-- What a stored response does to the requests that follow.
use convene.Common.{
  ℕ, ◌+◌, ◌<◌, ◌≡◌, ◌≢◌, refl, sym, ap, ◌∙◌, none, some, List, [], ◌∷◌, inl, inr, All, Option-cases,
}
use convene.Idempotency.{
  StoredIdempotentResponse, IdempotencyStore, RequestLike, ResponseLike, HandlerResult, returned,
  thrown, ServerState, intercept, tap, cache_key, stored_of, replay_of, idempotency_ttl_ms,
}

-- A request and when it comes.
pub record TimedRequest (Q : Type 0) : Type 0 where
  pub request : RequestLike Q
  pub at : ℕ

module _ {B E Q W : Type 0} (idempotency : IdempotencyStore B)
    (handle : RequestLike Q → W → HandlerResult B E × W) where
  unfoldable pub serve_all :
      List (TimedRequest Q) → ServerState idempotency handle → ServerState idempotency handle
  serve_all [] s = s
  serve_all (r ∷ rs) s = serve_all rs (intercept idempotency handle r.request r.at s).1

  tap-Holds :
      (result : HandlerResult B E) (now : ℕ) (key k : List ℕ) (store : idempotency.Store)
      (v : StoredIdempotentResponse B) (until : ℕ)
      → idempotency.Holds store k v until
      → key ≢ k
      → idempotency.Holds (tap idempotency handle key now result store) k v until
  tap-Holds (returned response) now key k store v until h n =
      idempotency.set-keeps store k key v (stored_of response now) until now h n
  tap-Holds (thrown e) now key k store v until h n = h

  intercept-Holds :
      (r : RequestLike Q) (now : ℕ) (s : ServerState idempotency handle) (k : List ℕ)
      (v : StoredIdempotentResponse B) (until : ℕ)
      → idempotency.Holds s.store k v until
      → now < until
      → idempotency.Holds (intercept idempotency handle r now s).1.store k v until
  unfolding intercept
  intercept-Holds r now s k v until h l = elim (Option-cases (cache_key r)) [
    | inl n ↦ rw (n, intercept) h
    | inr (key, e) ↦
        let kept = idempotency.get-keeps s.store k key v until now h l in
        elim (Option-cases (idempotency.get s.store key now).0) [
          | inr (cached, c) ↦ rw (e, intercept, c) kept
          | inl c ↦
              rw (e, intercept, c)
                (tap-Holds (handle r s.world).0 now key k (idempotency.get s.store key now).1 v
                  until kept
                  (λ q.
                    let there = idempotency.get-Holds s.store k v until now h l in
                    let both = sym c ∙ ap (λ x. (idempotency.get s.store x now).0) q ∙ there in cc))
        ]
  ]

  serve_all-Holds :
      (rs : List (TimedRequest Q)) (s : ServerState idempotency handle) (k : List ℕ)
      (v : StoredIdempotentResponse B) (until : ℕ)
      → idempotency.Holds s.store k v until
      → All (λ r. r.at < until) rs
      → idempotency.Holds (serve_all rs s).store k v until
  unfolding serve_all
  serve_all-Holds [] s k v until h l = h
  serve_all-Holds (r ∷ rs) s k v until h l =
      serve_all-Holds rs _ k v until (intercept-Holds r.request r.at s k v until h l.0) l.1

  -- A response that is stored.
  stores :
      (first : RequestLike Q) (now : ℕ) (s : ServerState idempotency handle) (key : List ℕ)
      (response : ResponseLike B)
      → cache_key first ≡ some key
      → (idempotency.get s.store key now).0 ≡ none
      → (handle first s.world).0 ≡ returned response
      → idempotency.Holds
          (intercept idempotency handle first now s).1.store
          key
          (stored_of response now)
          (now + idempotency_ttl_ms)
  unfolding intercept
  stores first now s key response e fresh ran =
      rw (e, intercept, fresh, ran)
        (idempotency.set-Holds (idempotency.get s.store key now).1 key (stored_of response now) now
          refl)

  replays :
      (again : RequestLike Q) (later until : ℕ) (s : ServerState idempotency handle) (key : List ℕ)
      (v : StoredIdempotentResponse B)
      → cache_key again ≡ some key
      → idempotency.Holds s.store key v until
      → later < until
      → ((intercept idempotency handle again later s).0 ≡ returned (replay_of v))
        × ((intercept idempotency handle again later s).1.world ≡ s.world)
  unfolding intercept
  replays again later until s key v f h m =
      let found = idempotency.get-Holds s.store key v until later h m in
      rw (f, intercept, found) (refl, refl)

  -- After a POST request whose key had no response and whose handler returned one, and any requests
  -- less than a day later than it, every request with the same cache key, less than a day later than
  -- it, whatever else is in it, is answered by that response and runs no handler.
  pub intercept-replays :
      (first again : RequestLike Q) (now later : ℕ) (rs : List (TimedRequest Q))
      (s : ServerState idempotency handle) (key : List ℕ) (response : ResponseLike B)
      → cache_key first ≡ some key
      → cache_key again ≡ some key
      → (idempotency.get s.store key now).0 ≡ none
      → (handle first s.world).0 ≡ returned response
      → All (λ r. r.at < now + idempotency_ttl_ms) rs
      → later < now + idempotency_ttl_ms
      → let after = serve_all rs (intercept idempotency handle first now s).1 in
        ((intercept idempotency handle again later after).0
          ≡ returned (replay_of (stored_of response now)))
        × ((intercept idempotency handle again later after).1.world ≡ after.world)
  intercept-replays first again now later rs s key response e f fresh ran l m =
      let v = stored_of response now in
      let until = now + idempotency_ttl_ms in
      replays again later until _ key v f
        (serve_all-Holds rs (intercept idempotency handle first now s).1 key v until
          (stores first now s key response e fresh ran) l)
        m
