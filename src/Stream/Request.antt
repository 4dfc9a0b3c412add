-- ===== src/Stream/Request.antt =====
-- router.py, `_stream` up to its generator: what a request for a stream asks for. A filter that holds
-- other values than texts is read, but no session is made of it here.
use fastapi_agent_protocol.Base.{String, ◌≡◌, ◌∙◌, Option, none, some, List, [], ◌∷◌, ltb, arith}
use fastapi_agent_protocol.Base.Int.{ℤ}
use fastapi_agent_protocol.Value.{Value, list, str, Items, nil, cons, to_list, get_or_null}
use fastapi_agent_protocol.Subscription.{
  Envelope, subscription_matches, channel_accepts, namespace_accepts,
}
use fastapi_agent_protocol.Hub.{subscribe, cursor_of}
use fastapi_agent_protocol.Hubs.{HubRegistry, hub}
use fastapi_agent_protocol.Threads.{ThreadRecord}
use fastapi_agent_protocol.Threads.Store.{ThreadStore}
use fastapi_agent_protocol.Router.{body_of, int_of}
use fastapi_agent_protocol.Stream.{Session, open_stream}

pub record StreamQuery : Type 0 where
  pub channels : Option (List Value)
  pub namespaces : Option (List (List Value))
  pub since : Option ℤ

-- `v if isinstance(v, list) else None`
abbrev pub list_or_none : Value → Option (List Value)
list_or_none (list vs) = some (to_list vs)
list_or_none _ = none

-- `[list(ns) for ns in v if isinstance(ns, list)]`
unfoldable pub lists_in : Items → List (List Value)
lists_in nil = []
lists_in (cons (list vs) rest) = to_list vs ∷ lists_in rest
lists_in (cons _ rest) = lists_in rest

abbrev pub lists_or_none : Value → Option (List (List Value))
lists_or_none (list vs) = some (lists_in vs)
lists_or_none _ = none

-- The query of a body, which is `none` if it is no JSON or does not come in time.
unfoldable pub stream_query : Option Value → StreamQuery
stream_query payload = record {
  channels = list_or_none (get_or_null "channels" (body_of payload));
  namespaces = lists_or_none (get_or_null "namespaces" (body_of payload));
  since = int_of (get_or_null "since" (body_of payload));
}

-- The texts of a list that holds nothing else.
unfoldable pub texts : List Value → Option (List String)
texts [] = some []
texts (str s ∷ vs) = elim (texts vs) [ none ↦ none | some ss ↦ some (s ∷ ss) ]
texts (v ∷ vs) = none

unfoldable pub text_lists : List (List Value) → Option (List (List String))
text_lists [] = some []
text_lists (vs ∷ rest) = elim (texts vs) [
  | none ↦ none
  | some ss ↦ elim (text_lists rest) [ none ↦ none | some others ↦ some (ss ∷ others) ]
]

abbrev optional : {A B : Type 0} → (A → Option B) → Option A → Option (Option B)
optional f none = some none
optional f (some a) = elim (f a) [ none ↦ none | some b ↦ some (some b) ]

-- A 404, a session on the thread's hub, or a query whose filters are no texts.
pub data StreamAnswer : Type 0 where
  unknown : StreamAnswer
  opens : HubRegistry → Session → StreamAnswer
  other : StreamQuery → StreamAnswer

abbrev open_on :
    HubRegistry
    → String
    → StreamQuery
    → Option (Option (List String))
    → Option (Option (List (List String)))
    → StreamAnswer
open_on hubs thread_id query (some channels) (some namespaces) =
    let (hubs', h) = hub hubs thread_id in
    opens hubs' (open_stream h channels namespaces query.since)
open_on hubs thread_id query channels namespaces = other query

abbrev open_query : HubRegistry → String → StreamQuery → StreamAnswer
open_query hubs thread_id query =
    open_on hubs thread_id query (optional texts query.channels)
      (optional text_lists query.namespaces)

-- `_stream`
unfoldable pub stream :
    {S : Type 0} → ThreadStore S → S → HubRegistry → String → Option Value → StreamAnswer
unfolding stream_query
stream store threads hubs thread_id payload = elim (store.get threads thread_id) [
  | none ↦ unknown
  | some _ ↦ open_query hubs thread_id (stream_query payload)
]

module _ {S : Type 0} (store : ThreadStore S) where
  stream-known :
      (threads : S) (hubs : HubRegistry) (thread_id : String) (payload : Option Value)
      (r : ThreadRecord)
      → store.get threads thread_id ≡ some r
      → stream store threads hubs thread_id payload
        ≡ open_query hubs thread_id (stream_query payload)
  unfolding stream
  stream-known threads hubs thread_id payload r there = ground (arith, there)

  -- A request for a stream of a thread of the store, with no filters in its body, as when it has no
  -- body or one that is no JSON, opens a stream on the thread's hub. Its subscription lets through
  -- the events whose numbers are above the `since` of the body, or above 0 if that is missing or
  -- below 0, and no others.
  pub stream_unfiltered :
      (threads : S) (hubs : HubRegistry) (thread_id : String) (payload : Option Value)
      (r : ThreadRecord) (e : Envelope)
      → store.get threads thread_id ≡ some r
      → list_or_none (get_or_null "channels" (body_of payload)) ≡ none
      → lists_or_none (get_or_null "namespaces" (body_of payload)) ≡ none
      → let since = int_of (get_or_null "since" (body_of payload)) in
        let (after, h) = hub hubs thread_id in
        (stream store threads hubs thread_id payload ≡ opens after (open_stream h none none since))
        × (subscription_matches (subscribe h none none since).1 e ≡ ltb (cursor_of since) e.seq)
  unfolding stream_query subscribe subscription_matches channel_accepts namespace_accepts
  stream_unfiltered threads hubs thread_id payload r e there open_channels open_namespaces = (
    stream-known threads hubs thread_id payload r there ∙ (λ i.
        open_on hubs thread_id (stream_query payload) (optional texts (open_channels i))
          (optional text_lists (open_namespaces i))),
    ground arith,
  )

-- `stream_canonical` and `stream_events_alias`
unfoldable pub stream_canonical :
    {S : Type 0} → ThreadStore S → S → HubRegistry → String → Option Value → StreamAnswer
stream_canonical store threads hubs thread_id payload = stream store threads hubs thread_id payload

unfoldable pub stream_events_alias :
    {S : Type 0} → ThreadStore S → S → HubRegistry → String → Option Value → StreamAnswer
stream_events_alias store threads hubs thread_id payload =
    stream store threads hubs thread_id payload
