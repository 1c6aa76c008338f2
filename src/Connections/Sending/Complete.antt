-- ===== src/Connections/Sending/Complete.antt =====
-- What a call of sendRequest comes to, on every branch (connections.service.ts).
use convene.Infra.Redis.{Redis}
use convene.Infra.Redis.Counters.{Counters}
