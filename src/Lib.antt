-- ===== src/Lib.antt =====
-- CONVENE is a professional-networking service: an API (apps/api, NestJS over Postgres and Redis)
-- with packages it shares with its clients. This library models the parts of the API that hold its
-- rules, as functions on tables and on an interface of Redis, and proves those rules.
--
-- Errors: apps/api/src/common/errors. The codes and classes of errors, and the monad of a service
-- method: it takes the state to a value or an error, and a new state. What was written before a throw
-- stays, but inside db.transaction.
-- Common: tables as lists of rows, oldest first, with SELECT, UPDATE, INSERT and DELETE, keys, counts,
-- and the rows that ORDER BY finds first.
-- TrustSafety: apps/api/src/modules/trust-safety. Tables, enforcement ladder and repositories;
-- TrustSafety.Actions is services/moderation-actions.service.ts (apply, approve, reverse), and
-- TrustSafety.Appeals is services/appeals.service.ts (create, review), which uses the same actions.
-- Auth.Refresh: apps/api/src/modules/auth/services/refresh.service.ts, all of it but listSessions.
-- Auth.Lockout: apps/api/src/modules/auth/services/login-lockout.service.ts over Infra.Redis.
-- Auth.Otp: apps/api/src/modules/auth/services/otp.service.ts over the table of
-- packages/db/src/schema/otp-challenges.ts. The package argon2 is a record with the law that a text
-- matches its own hash.
-- Infra.Keys: apps/api/src/infra/redis/keys.ts, the keys that the modelled services use. Infra.Redis:
-- the client library as a record of GET, SET EX and DEL with their documented laws, and
-- Infra.Redis.Counters as one of INCR, PTTL and PEXPIRE; its children Memory and CounterMemory show that
-- the laws can hold.
-- Idempotency: apps/api/src/common/interceptors/idempotency.interceptor.ts over an interface of its
-- store, with the handler of the route as an argument. Idempotency.Stores makes the Map of that file and
-- apps/api/src/infra/redis/redis-idempotency-store.ts instances of it.
-- RateLimit: apps/api/src/common/rate-limit. The matrix of policies.ts; Script is sliding-window.ts
-- with its Lua script over RateLimit.Window, an interface of sorted sets; Log is the abstract view, all
-- times ever admitted; Guard is rate-limit.guard.ts with the log a process keeps while Redis fails.
-- Availability: apps/api/src/modules/availability. Tables and state machine; Repository, Service and
-- Expiry are the files of those names, the controller's two bodies and the worker's job included;
-- Schemas has the request shapes of packages/validation/src/availability.ts, and Mirrors the writes
-- to Redis and the events.
-- Extending and Sweep follow one request that extends a session and one run of the sweeper; requests,
-- the worker and the listener of expired keys meet in Availability.History.
-- Connections: apps/api/src/modules/connections. Requests is the repository, Service the accepting,
-- rejecting and withdrawing of services/connections.service.ts with services/blocks.service.ts.
-- Sending is its sendRequest: Sending.Checks runs the guards in their order, which are Cooldown, Inbound
-- (with apps/api/src/modules/intents/inbound-filters.service.ts) and Quota
-- (services/connection-quota.service.ts, the notes of a sender in Quota.Notes), and Sending.Flow inserts a
-- request or, where the other one is pending, accepts both by Mutual. Sending.Outcomes, Admission and
-- Limits say apart from the code what a request has to meet. Calls of the module meet in
-- Sending.History; Blocking follows a block and its end.
-- Messaging: apps/api/src/modules/messaging over packages/db/src/schema/messaging.ts. Repository and
-- Changes are repositories/messages.repository.ts, Service is services/messages.service.ts, both without
-- the reads of pages, the search, the pushes and the fetching of previews; Reading is markRead of
-- services/conversations.service.ts. Keeping is a rule for what every call keeps, which Sequences and
-- Replays fill; the calls meet in Messaging.History. The conversations are those that Connections makes.
-- Matching: packages/matching/src. Gates is gates.ts, Diversity is diversity.ts.
--
-- Ids and digests are numbers; texts are lists of code units; times are milliseconds. What the
-- database or a random source draws, the clock, the local date of a user, the score of two users'
-- intents and the verdict of the moderation's patterns on a text are arguments, and one request reads
-- the clock once. Methods run one after another: an
-- interleaving of two transactions is not modelled. One loop needs fuel: sendRequest calls itself
-- after a lost race, and without a call in between it never does. Every other loop runs over a list.
--
-- Not modelled: the messages of errors, reads that only serve a page, the clients, the scores of
-- candidates, the erasure of users, which clears columns such as the sender of a message, and the
-- other modules of the API (profiles, notifications and others).
pub mod Common
pub mod Errors
pub mod TrustSafety
pub mod Auth
pub mod Infra
pub mod Availability
pub mod Idempotency
pub mod Messaging
pub mod Matching
pub mod RateLimit
pub mod Connections
