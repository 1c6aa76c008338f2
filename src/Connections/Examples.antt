-- ===== src/Connections/Examples.antt =====
-- Two users, one of whom asks to connect.
use convene.Common.{
  ◌≡◌, refl, true, false, none, any, All, ◌==◌, ◌&&◌, some, [], ◌∷◌, arith, count, find_first,
}
use convene.Connections.{
  Connection, ConversationState, Db, is_pending, is_pending_id, is_active_pair,
}
use convene.Connections.Requests.{
  CreateConnectionRequestInput, Draw, new_request, create_request, accept_request,
  find_active_connection_between, is_blocked_either_way,
}
use convene.Connections.Service.{accept, block, unblock}
use convene.Connections.Pairs.{Paired}
use convene.Connections.History.{creates, accepts, blocks_user, step, run, run-Paired}
use convene.Connections.Blocking.{unblock-block}
use convene.Connections.Answers.{accept_request-connects}

abbrev empty : Db
empty = record {
  requests = [];
  connections = [];
  conversations = [];
  participants = [];
  messages = [];
  blocks = [];
  notified = [];
}

empty-Paired : Paired empty
unfolding Paired
empty-Paired = (tt, (λ s r. ground arith), tt, (λ a b. ground arith))

abbrev ask : CreateConnectionRequestInput
ask = record {
  sender_id = 2;
  recipient_id = 1;
  intent_id = some 5;
  note = some (72 ∷ 105 ∷ []);
  match_score = some 80;
  is_queued = false;
}

abbrev draw : Draw
draw = record { request = 0; connection = 20; conversation = 30; message = 40 }

abbrev asked : Db
asked = run (creates 10 ask 1000 ∷ []) empty

asked-Paired : Paired asked
asked-Paired = run-Paired (creates 10 ask 1000 ∷ []) empty empty-Paired

run-Paired_example :
    Paired (run (creates 10 ask 1000 ∷ accepts draw 1 10 2000 ∷ blocks_user 1 2 ∷ []) empty)
run-Paired_example =
    run-Paired (creates 10 ask 1000 ∷ accepts draw 1 10 2000 ∷ blocks_user 1 2 ∷ []) empty
      empty-Paired

asked_found : find_first (is_pending_id 10) asked.requests ≡ some (new_request 10 ask 1000)
unfolding run step create_request is_pending
asked_found = refl

accept_request-connects_example :
    count (is_active_pair 1 2) (accept_request draw 10 2000 asked).1.connections ≡ 1
accept_request-connects_example =
    accept_request-connects draw 10 2000 asked (new_request 10 ask 1000) asked-Paired asked_found

abbrev connected : Db
connected = run (accepts draw 1 10 2000 ∷ []) asked

abbrev joined : Connection
joined = record {
  id = 20;
  user_a_id = 1;
  user_b_id = 2;
  requester_id = 2;
  intent_id = some 5;
  match_score = some 80;
  connected_at = 2000;
  removed_at = none;
}

joined_found : find_active_connection_between 1 2 connected ≡ some joined
unfolding run step create_request accept accept_request is_blocked_either_way is_pending
    find_active_connection_between
joined_found = refl

unblock-block_example :
    let held = (block 1 2 connected).1 in
    let freed = (unblock 1 2 held).1 in
    (is_blocked_either_way 1 2 held ≡ true)
    × (is_blocked_either_way 1 2 freed
        ≡ any (λ k. k.blocker_id == 2 && k.blocked_id == 1) connected.blocks)
    × (find_active_connection_between 1 2 freed ≡ some joined)
    × All (λ k. k.connection_id ≡ 20 → k.state ≡ ConversationState.frozen) held.conversations
    × All (λ k. k.connection_id ≡ 20 → k.state ≡ ConversationState.frozen) freed.conversations
unblock-block_example = unblock-block 1 2 connected joined (λ e. omega arith) joined_found
