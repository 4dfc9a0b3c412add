-- ===== src/Stream.antt =====
-- src/fastapi_agent_protocol/router.py, `_stream` and its generator `gen`: one SSE consumer of a
-- hub. The generator is driven by turns, between which anything may happen on the hub. `opened`
-- stands before the replay, which runs in one turn, its events being sent one a turn; the code
-- sends the first of them in the turn of the replay, so the turns here allow every interleaving
-- that the code has and some more.
mod Rising
pub mod Delivery
pub mod Following
pub mod Turning
pub mod Handoff
pub mod ExactOnce
pub mod Posted
pub mod Bounds
pub mod Encoding
pub mod Draining
pub mod Request
use fastapi_agent_protocol.Base.{
  ℕ, String, ◌<>◌, Bool, Option, none, some, List, [], ◌∷◌, ◌++◌, if◌then◌else◌,
}
use fastapi_agent_protocol.Base.Int.{ℤ}
use fastapi_agent_protocol.Base.Text.{decimal}
use fastapi_agent_protocol.Failure.{Result, ok, ◌>>=◌}
use fastapi_agent_protocol.Subscription.{Envelope, Subscription, subscription_matches}
use fastapi_agent_protocol.Hub.{
  Hub, Publication, publish, subscribe, unsubscribe, replay, find_subscription, store_subscription,
}

-- What the generator yields: `: connected`, `: heartbeat`, or the block of an envelope.
pub data Block : Type 0 where
  connected heartbeat : Block
  event : Envelope → Block

-- `sse_block`; `dumps` stands for `json.dumps` with compact separators, which raises for an envelope
-- that holds what is no JSON.
unfoldable pub sse_block : (Envelope → Result String) → Envelope → Result String
sse_block dumps e = do
  text ← dumps e
  ok ("event: " <> e.method <> "\ndata: " <> text <> "\nid: " <> decimal e.seq <> "\n\n")

-- The text that is yielded for a block.
unfoldable pub block_text : (Envelope → Result String) → Block → Result String
unfolding sse_block
block_text dumps connected = ok ": connected\n\n"
block_text dumps heartbeat = ok ": heartbeat\n\n"
block_text dumps (event e) = sse_block dumps e

pub data Phase : Type 0 where
  -- the generator has not been started; it has yielded `: connected`
  opening opened : Phase
  -- the events of the replay that are still to be sent
  replaying : List Envelope → Phase
  live closed : Phase

pub record Session : Type 0 where
  pub hub : Hub
  pub sid : ℕ
  pub phase : Phase
  pub out : List Block

-- `_stream`, behind its checks: subscribe and hand out the generator.
unfoldable pub open_stream :
    Hub → Option (List String) → Option (List (List String)) → Option ℤ → Session
open_stream h channels namespaces since =
    let (h', s) = subscribe h channels namespaces since in
    record { hub = h'; sid = s.sid; phase = opening; out = [] }

abbrev pub stored : Session → Subscription → Hub
stored s sub = record s.hub { subscribers = store_subscription sub s.hub.subscribers }

abbrev pub start_replay : Session → Option Subscription → Session
start_replay s none = s
start_replay s (some sub) =
    let (sub', matched) = replay s.hub sub in
    record s { hub = stored s sub'; phase = replaying matched }

-- `queue.get()` has returned `e`: it is sent unless the replay has sent it. That `sse_block` may
-- raise for it is in Stream/Encoding.
abbrev pub take_event : Session → Subscription → Envelope → List Envelope → Session
take_event s sub e rest =
    if subscription_matches sub e
    then record s {
      hub = stored s (record sub { queue = rest; last_seq = e.seq });
      out = s.out ++ event e ∷ [];
    }
    else record s { hub = stored s (record sub { queue = rest }) }

-- With an empty queue the generator waits.
abbrev pub take_queued : Session → Subscription → List Envelope → Session
take_queued s sub [] = s
take_queued s sub (e ∷ rest) = take_event s sub e rest

abbrev pub take_live : Session → Option Subscription → Session
take_live s none = s
take_live s (some sub) = take_queued s sub sub.queue

abbrev pub own_subscription : Session → Option Subscription
own_subscription s = find_subscription s.sid s.hub.subscribers

abbrev pub advance_in : Phase → Session → Session
advance_in opening s = record s { phase = opened; out = s.out ++ connected ∷ [] }
advance_in opened s = start_replay s (own_subscription s)
advance_in (replaying []) s = record s { phase = live }
advance_in (replaying (e ∷ es)) s = record s { phase = replaying es; out = s.out ++ event e ∷ [] }
advance_in live s = take_live s (own_subscription s)
advance_in closed s = s

-- One turn of the generator whose `sse_block` does not raise.
unfoldable pub advance : Session → Session
advance s = advance_in s.phase s

-- `wait_for` has timed out, which it does while the generator waits.
abbrev pub time_out_in : Phase → Session → Session
time_out_in live s = record s { out = s.out ++ heartbeat ∷ [] }
time_out_in _ s = s

-- The generator is closed. Its `finally` runs only if it was started.
abbrev pub close_in : Phase → Session → Session
close_in opening s = record s { phase = closed }
close_in closed s = s
close_in _ s = record s { hub = unsubscribe s.hub s.sid; phase = closed }

pub data Action : Type 0 where
  -- somebody publishes on the hub
  publishes : Publication → Action
  advances times_out disconnects : Action
  -- another consumer comes, or goes
  joins : Option (List String) → Option (List (List String)) → Option ℤ → Action
  leaves : ℕ → Action

unfoldable pub step : Session → Action → Session
unfolding advance
step s (publishes p) = record s { hub = (publish s.hub p).0 }
step s advances = advance s
step s times_out = time_out_in s.phase s
step s disconnects = close_in s.phase s
step s (joins channels namespaces since) = record s {
  hub = (subscribe s.hub channels namespaces since).0;
}
step s (leaves sid) = record s { hub = unsubscribe s.hub sid }

unfoldable pub run : Session → List Action → Session
unfolding step
run s [] = s
run s (a ∷ acts) = run (step s a) acts
