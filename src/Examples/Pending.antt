-- ===== src/Examples/Pending.antt =====
-- runner.py and router.py: the answers that pending interrupts admit, and requests for streams.
use fastapi_agent_protocol.Base.{
  ℕ, String, ◌≡◌, refl, ◌||◌, Option, none, some, List, [], ◌∷◌, ◌==◌, string_eq, if◌then◌else◌,
  contains, ltb,
}
use fastapi_agent_protocol.Base.Int.{pos}
use fastapi_agent_protocol.Base.Dict
use fastapi_agent_protocol.Base.Dict.{Dict, keys}
use fastapi_agent_protocol.Failure.{unknown_interrupt, ok, err}
use fastapi_agent_protocol.Value.{
  Value, null, int, str, list, dict, nil, cons, end, field, get_or_null, get_field,
}
use fastapi_agent_protocol.Manager.{Manager, new_manager}
use fastapi_agent_protocol.Runner.{resolved_assistant, register_pending}
use fastapi_agent_protocol.Runner.Answerable.{register_pending-answerable}
use fastapi_agent_protocol.Threads.{ThreadRecord, MemoryStore, memory_get}
use fastapi_agent_protocol.Threads.Store.{memory}
use fastapi_agent_protocol.Subscription.{Envelope, subscription_matches}
use fastapi_agent_protocol.Hub.{subscribe, cursor_of}
use fastapi_agent_protocol.Hubs.{HubRegistry, hub}
use fastapi_agent_protocol.Router.{body_of, int_of}
use fastapi_agent_protocol.Stream.{open_stream}
use fastapi_agent_protocol.Stream.Request.{
  stream, stream_query, opens, other, texts, stream_unfiltered,
}

abbrev manager : Manager ℕ
manager = new_manager

abbrev interrupts : List (String × Value)
interrupts = ("i", str "sure?") ∷ ("j", str "really?") ∷ []

abbrev second : String
second = "j"

register_pending-answerable_example :
    resolved_assistant (register_pending manager "t" "beta" interrupts) "t" second none ≡ (
      if contains (keys interrupts) second || second == "assistant_id"
      then ok (str "beta")
      else err (unknown_interrupt "t" second))
unfolding string_eq
register_pending-answerable_example =
    register_pending-answerable manager "t" "beta" second interrupts refl refl

abbrev thread : ThreadRecord
thread = record {
  thread_id = "t";
  metadata = end;
  assistant_id = none;
  created_at = "monday";
  updated_at = "monday";
}

abbrev threads : MemoryStore
threads = ("t", thread) ∷ []

abbrev hubs : HubRegistry
hubs = record { replay_size = 500; hubs = [] }

abbrev body : Option Value
body = some (dict (field "since" (int (pos 3)) (field "channels" null end)))

abbrev tenth : Envelope
tenth = record {
  kind = "event";
  event_id = "10-10";
  seq = 10;
  method = "values";
  namespace = [];
  timestamp = 10;
  payload = null;
}

stream_unfiltered_example :
    let since = int_of (get_or_null "since" (body_of body)) in
    let (after, h) = hub hubs "t" in
    (stream memory threads hubs "t" body ≡ opens after (open_stream h none none since))
    × (subscription_matches (subscribe h none none since).1 tenth ≡ ltb (cursor_of since) 10)
unfolding memory memory_get get_or_null get_field Dict.lookup string_eq
stream_unfiltered_example =
    stream_unfiltered memory threads hubs "t" body thread tenth refl refl refl

-- A filter that is no text.
stream-other :
    stream memory threads hubs "t" (some (dict (field "channels" (list (cons null nil)) end)))
    ≡ other (stream_query (some (dict (field "channels" (list (cons null nil)) end))))
unfolding stream stream_query memory memory_get get_or_null get_field Dict.lookup string_eq int_of
    texts
stream-other = refl
