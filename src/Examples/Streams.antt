-- ===== src/Examples/Streams.antt =====
-- hub.py and router.py: publications and an event stream at concrete inputs.
use fastapi_agent_protocol.Base.{
  ℕ, ◌+◌, String, ◌≡◌, refl, true, false, Option, none, some, List, [], ◌∷◌, ◌++◌, arith, string_eq,
  nat_eq, list_eq, All, ◌⊎◌,
}
use fastapi_agent_protocol.Base.Int.{pos}
use fastapi_agent_protocol.Base.Dict
use fastapi_agent_protocol.Base.Dict.{Dict}
use fastapi_agent_protocol.Value.{null, opaque}
use fastapi_agent_protocol.Subscription.{
  Envelope, channel_accepts, namespace_accepts, any_selects, prefix_selects, channel_for_method,
  subscription_matches,
}
use fastapi_agent_protocol.Hub.{
  Hub, new_hub, max_queue, Publication, publish, subscribe, replay, find_subscription,
  store_subscription, fan_out, deliver, put_nowait, deque_append, envelope_of, unsubscribe, discard,
}
use fastapi_agent_protocol.Hub.Retention.{Tracks, published, publish_all, retention}
use native.Mathlib.Nat.{le_refl}
use fastapi_agent_protocol.Stream.Bounds.{QueuesFit, Fits, run-Fits}
use fastapi_agent_protocol.Stream.Draining.{drained}
use fastapi_agent_protocol.Failure.{raised, Result, ok, err}
use fastapi_agent_protocol.Stream.Encoding.{
  HasText, IsWhole, IsCut, encoded_step, encoded_run, encoded_run-IsCut,
}
use fastapi_agent_protocol.Stream.{
  closed, sse_block, live, Action, publishes, advances, open_stream, run, step, advance,
}
use fastapi_agent_protocol.Stream.Following.{sent}
use fastapi_agent_protocol.Stream.ExactOnce.{
  starting, due, turns, Undisturbed, exact_once, own_queue,
}

abbrev pub event_at : String → ℕ → Publication
event_at method now = record {
  method = method;
  payload = null;
  namespace = none;
  timestamp = none;
  event_id = none;
  now = now;
}

abbrev pub events : List Publication
events = event_at "lifecycle" 10 ∷ event_at "values" 11 ∷ event_at "messages" 12 ∷ []

-- A prefix selects its descendants, the empty one the root alone.
namespaces_selected :
    (namespace_accepts (("a" ∷ []) ∷ []) ("a" ∷ "b" ∷ []) ≡ true)
    × (namespace_accepts ([] ∷ []) ("a" ∷ []) ≡ false)
    × (namespace_accepts [] ("a" ∷ []) ≡ true)
unfolding namespace_accepts any_selects prefix_selects string_eq list_eq
namespaces_selected = (refl, refl, refl)

input_requested_channel : channel_for_method "input.requested" ≡ "input"
unfolding channel_for_method Dict.lookup string_eq
input_requested_channel = refl

-- Two of three events fit.
retention_example : Tracks (published (new_hub 2) events) (publish_all (new_hub 2) events)
retention_example = retention 2 events

-- A hub with a past, whose buffer has lost its first event.
abbrev pub past : Hub
past = publish_all (new_hub 2) events

abbrev channels : Option (List String)
channels = some ("values" ∷ "lifecycle" ∷ [])

-- One event is published before the replay, one after it.
abbrev before : List Publication
before = event_at "values" 13 ∷ []

abbrev later : List Action
later = advances ∷ publishes (event_at "lifecycle" 14) ∷ advances ∷ []

Undisturbed-later :
    Undisturbed (run (open_stream past channels none (some (pos 1))) (starting before)) later
unfolding run step open_stream advance publish_all publish subscribe replay find_subscription
    store_subscription fan_out deliver put_nowait deque_append envelope_of subscription_matches
    channel_accepts namespace_accepts any_selects prefix_selects channel_for_method max_queue
    Dict.lookup string_eq nat_eq list_eq
Undisturbed-later = (omega arith, tt)

QueuesFit-past : QueuesFit past.subscribers
unfolding publish_all publish fan_out
QueuesFit-past = tt

-- A `json.dumps` that raises for an object in the data.
abbrev pub dumps : Envelope → Result String
dumps e = elim (e.payload) [
  | opaque text ↦ err (raised "TypeError" "Object is not JSON serializable")
  | _ ↦ ok "{}"
]

exact_once_example :
    (rest : List Envelope) × (sent
          (encoded_run dumps
            (open_stream past channels none (some (pos 1)))
            (starting before ++ later)).out
        ++ rest
      ≡ due past channels none (some (pos 1)) before later)
unfolding publish_all publish
exact_once_example =
    exact_once past channels none (some (pos 1)) dumps before later retention_example (omega arith)
      Undisturbed-later

due-HasText : All (HasText dumps) (due past channels none (some (pos 1)) before later)
unfolding sse_block run step open_stream advance publish_all publish subscribe replay
    find_subscription store_subscription fan_out deliver put_nowait deque_append envelope_of
    subscription_matches channel_accepts namespace_accepts any_selects prefix_selects
    channel_for_method max_queue Dict.lookup string_eq nat_eq list_eq
due-HasText = (refl, (refl, tt))

drained_example :
    let after =
      encoded_run dumps
        (open_stream past channels none (some (pos 1)))
        (starting before ++ later ++ turns (past.replay_size + 1 + max_queue)) in
    (sent after.out ≡ due past channels none (some (pos 1)) before later)
    × (after.phase ≡ live)
    × (own_queue after ≡ [])
unfolding publish_all publish
drained_example =
    drained past channels none (some (pos 1)) dumps before later (past.replay_size + 1 + max_queue)
      retention_example QueuesFit-past (omega arith) Undisturbed-later (le_refl _) due-HasText

-- An event whose data holds an object ends the stream, and the event after it is not sent.
abbrev unserializable : Publication
unserializable = record (event_at "values" 13) { payload = opaque "<object>" }

abbrev failing : List Action
failing =
    advances
    ∷ advances
    ∷ advances
    ∷ publishes unserializable
    ∷ publishes (event_at "values" 14)
    ∷ advances
    ∷ advances
    ∷ advances
    ∷ []

encoded_run-IsCut_example :
    let s = open_stream past none none (some (pos 3)) in
    IsWhole dumps s failing ⊎ IsCut dumps s failing
unfolding open_stream
encoded_run-IsCut_example =
    encoded_run-IsCut dumps (open_stream past none none (some (pos 3))) failing tt

failing_ends :
    (encoded_run dumps (open_stream past none none (some (pos 3))) failing).phase ≡ closed
unfolding encoded_run encoded_step sse_block run step open_stream advance publish_all publish
    subscribe replay find_subscription store_subscription fan_out deliver put_nowait deque_append
    envelope_of subscription_matches channel_accepts namespace_accepts channel_for_method max_queue
    unsubscribe discard Dict.lookup string_eq nat_eq
failing_ends = refl

run-Fits_example : Fits 2 (run (open_stream past channels none (some (pos 1))) later)
unfolding open_stream subscribe publish_all publish fan_out deque_append
run-Fits_example =
    run-Fits 2 (open_stream past channels none (some (pos 1))) later
      ((refl, omega arith, (omega arith, tt)), omega arith)
