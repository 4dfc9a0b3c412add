-- ===== src/Hub.antt =====
-- src/fastapi_agent_protocol/hub.py: `ThreadEventHub`, that is sequence numbers, the bounded replay
-- buffer and the fan-out to subscribers. The hub holds each subscription under its identity, and a
-- stream reaches it there.
pub mod Retention
use fastapi_agent_protocol.Base.{
  ℕ, ◌+◌, String, ◌<>◌, Option, none, some, List, [], ◌∷◌, ◌++◌, ltb, if◌then◌else◌, ◌==◌, nat_eq,
  length, drop, keep_if,
}
use fastapi_agent_protocol.Base.Int.{ℤ, to_nat}
use fastapi_agent_protocol.Base.Text.{decimal}
use fastapi_agent_protocol.Value.{Value, text_truthy}
use fastapi_agent_protocol.Subscription.{Envelope, Subscription, subscription_matches}

abbrev pub default_replay_size : ℕ
default_replay_size = 500

-- A constant behind `abbrev` would be computed by every tactic, so this one stays shut.
unfoldable pub max_queue : ℕ
max_queue = 4096

pub record Hub : Type 0 where
  pub replay_size : ℕ
  pub seq : ℕ
  pub buffer : List Envelope
  pub subscribers : List Subscription
  -- the identity that the next subscription gets
  pub next_sid : ℕ

-- `ThreadEventHub(replay_size=…)`
abbrev pub new_hub : ℕ → Hub
new_hub replay_size = record {
  replay_size = replay_size;
  seq = 0;
  buffer = [];
  subscribers = [];
  next_sid = 0;
}

-- `append` on a `deque(maxlen=…)`: a full one drops its oldest element.
unfoldable pub deque_append : ℕ → List Envelope → Envelope → List Envelope
deque_append maxlen buffer e =
    if ltb (length buffer) maxlen then buffer ++ e ∷ [] else drop 1 (buffer ++ e ∷ [])

-- `put_nowait` on a queue of at most `max_queue`, `QueueFull` suppressed.
unfoldable pub put_nowait : Envelope → Subscription → Subscription
put_nowait e s =
    if ltb (length s.queue) max_queue then record s { queue = s.queue ++ e ∷ [] } else s

unfoldable pub deliver : Envelope → Subscription → Subscription
deliver e s = if subscription_matches s e then put_nowait e s else s

unfoldable pub fan_out : Envelope → List Subscription → List Subscription
fan_out e [] = []
fan_out e (s ∷ rest) = deliver e s ∷ fan_out e rest

-- The arguments of `publish`; `now` is what `now_ms()` returns.
pub record Publication : Type 0 where
  pub method : String
  pub payload : Value
  pub namespace : Option (List String)
  pub timestamp : Option ℕ
  pub event_id : Option String
  pub now : ℕ

abbrev stamp : Publication → ℕ
stamp p = elim p.timestamp [ none ↦ p.now | some ts ↦ ts ]

-- `event_id or f"{ts}-{seq}"`
abbrev event_id_or : Option String → String → String
event_id_or none fallback = fallback
event_id_or (some given) fallback = if text_truthy given then given else fallback

abbrev namespace_or_root : Option (List String) → List String
namespace_or_root none = []
namespace_or_root (some ns) = ns

-- The envelope that `publish` builds with sequence number `seq`.
unfoldable pub envelope_of : ℕ → Publication → Envelope
envelope_of seq p = record {
  kind = "event";
  event_id = event_id_or p.event_id (decimal (stamp p) <> "-" <> decimal seq);
  seq = seq;
  method = p.method;
  namespace = namespace_or_root p.namespace;
  timestamp = stamp p;
  payload = p.payload;
}

unfoldable pub publish : Hub → Publication → Hub × Envelope
publish h p =
    let envelope = envelope_of (h.seq + 1) p in
    (
      record h {
        seq = h.seq + 1;
        buffer = deque_append h.replay_size h.buffer envelope;
        subscribers = fan_out envelope h.subscribers;
      },
      envelope,
    )

-- `frozenset(channels) if channels else None`
abbrev channels_or_none : Option (List String) → Option (List String)
channels_or_none none = none
channels_or_none (some []) = none
channels_or_none (some (c ∷ cs)) = some (c ∷ cs)

abbrev namespaces_or_nil : Option (List (List String)) → List (List String)
namespaces_or_nil none = []
namespaces_or_nil (some ns) = ns

-- `max(since or 0, 0)`
abbrev pub cursor_of : Option ℤ → ℕ
cursor_of none = 0
cursor_of (some n) = to_nat n

unfoldable pub subscribe :
    Hub → Option (List String) → Option (List (List String)) → Option ℤ → Hub × Subscription
subscribe h channels namespaces since =
    let subscription : Subscription = record {
      sid = h.next_sid;
      queue = [];
      channels = channels_or_none channels;
      namespaces = namespaces_or_nil namespaces;
      last_seq = cursor_of since;
    } in
    (
      record h { subscribers = subscription ∷ h.subscribers; next_sid = h.next_sid + 1 },
      subscription,
    )

-- `set.discard`, by identity
unfoldable pub discard : ℕ → List Subscription → List Subscription
discard sid [] = []
discard sid (s ∷ rest) =
    let others = discard sid rest in if s.sid == sid then others else s ∷ others

unfoldable pub unsubscribe : Hub → ℕ → Hub
unsubscribe h sid = record h { subscribers = discard sid h.subscribers }

abbrev pub last_seq_of : ℕ → List Envelope → ℕ
last_seq_of cursor [] = cursor
last_seq_of cursor (e ∷ es) = last_seq_of e.seq es

-- `replay`: the subscription with its cursor moved, and the events matched.
unfoldable pub replay : Hub → Subscription → Subscription × List Envelope
replay h s =
    let matched = keep_if (subscription_matches s) h.buffer in
    (record s { last_seq = last_seq_of s.last_seq matched }, matched)

-- The subscription object with identity `sid`, and a write to it.
unfoldable pub find_subscription : ℕ → List Subscription → Option Subscription
find_subscription sid [] = none
find_subscription sid (s ∷ rest) = if s.sid == sid then some s else find_subscription sid rest

unfoldable pub store_subscription : Subscription → List Subscription → List Subscription
store_subscription s [] = []
store_subscription s (t ∷ rest) = if t.sid == s.sid then s ∷ rest else t ∷ store_subscription s rest
