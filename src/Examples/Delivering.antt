-- ===== src/Examples/Delivering.antt =====
-- runner.py, hub.py and router.py: a client that is connected while a run executes, at a concrete
-- input.
use native.Mathlib.Nat.{le_refl}
use fastapi_agent_protocol.Base.{
  ℕ, ◌+◌, ◌≡◌, refl, none, some, List, [], ◌∷◌, ◌++◌, map, arith, keep_if, All, string_eq, nat_eq,
}
use fastapi_agent_protocol.Base.Dict
use fastapi_agent_protocol.Base.Int.{pos}
use fastapi_agent_protocol.Value.{int, end, field, truthy, get_or_null, get_field}
use fastapi_agent_protocol.Subscription.{
  Envelope, channel_accepts, channel_for_method, subscription_matches, namespace_accepts,
}
use fastapi_agent_protocol.Serialize.{serialize_entry, serialize_values, to_jsonable}
use fastapi_agent_protocol.Interrupts.{interrupts_from_snapshot, interrupt_pairs, iterate}
use fastapi_agent_protocol.Translation.{finish_all, finish_open}
use fastapi_agent_protocol.Hub.{
  max_queue, Publication, publish, subscribe, replay, find_subscription, store_subscription,
  fan_out, deliver, put_nowait, deque_append, envelope_of,
}
use fastapi_agent_protocol.Hub.Retention.{publish_all, retention}
use fastapi_agent_protocol.Stream.{
  sse_block, Action, publishes, advances, open_stream, run, step, advance,
}
use fastapi_agent_protocol.Stream.Following.{sent}
use fastapi_agent_protocol.Stream.ExactOnce.{
  Undisturbed, starting, turns, wanted, asked, hub_at_replay, due,
}
use fastapi_agent_protocol.Stream.Posted.{envelopes_from}
use fastapi_agent_protocol.Stream.Encoding.{HasText, encoded_run}
use fastapi_agent_protocol.Stream.Bounds.{QueuesFit}
use fastapi_agent_protocol.Execution.{
  StreamItem, values, exhausted, Output, lifecycle, state, execute, take_items, take_item,
  result_of, begun, conclude, lifecycle_data, found_interrupts, translated,
}
use fastapi_agent_protocol.Execution.Publishing.{output_event, publication_of}
use fastapi_agent_protocol.Execution.Delivery.{event_data, execute_delivered}
use fastapi_agent_protocol.Examples.Streams.{past, events, dumps}
use fastapi_agent_protocol.Examples.Translating.{loads, repr, message_to_dict}

-- A graph that streams one state.
abbrev items : List StreamItem
items = values (field "n" (int (pos 1)) end) ∷ []

abbrev outputs : List Output
outputs =
    lifecycle (lifecycle_data "beta" "started" end)
    ∷ lifecycle (lifecycle_data "beta" "running" end)
    ∷ state (field "n" (int (pos 1)) end)
    ∷ lifecycle (lifecycle_data "beta" "completed" end)
    ∷ []

execute-outputs : outputs ≡ (execute loads repr message_to_dict "beta" items exhausted none).outputs
unfolding execute take_items take_item result_of begun conclude found_interrupts translated
    serialize_values serialize_entry to_jsonable interrupts_from_snapshot finish_all finish_open
    truthy get_or_null get_field string_eq iterate interrupt_pairs Dict.lookup
execute-outputs = refl

abbrev first : ℕ × Output
first = (20, lifecycle (lifecycle_data "beta" "started" end))

abbrev second : ℕ × Output
second = (21, lifecycle (lifecycle_data "beta" "running" end))

abbrev third : ℕ × Output
third = (22, state (field "n" (int (pos 1)) end))

abbrev last : ℕ × Output
last = (23, lifecycle (lifecycle_data "beta" "completed" end))

-- The run has begun when the replay is made.
abbrev before : List Publication
before = publication_of first ∷ []

abbrev later : List Action
later =
    publishes (publication_of second)
    ∷ advances
    ∷ publishes (publication_of third)
    ∷ publishes (publication_of last)
    ∷ []

Undisturbed-later :
    Undisturbed (run (open_stream past none none (some (pos 2))) (starting before)) later
unfolding run step open_stream advance publish_all publish subscribe replay find_subscription
    store_subscription fan_out deliver put_nowait deque_append envelope_of subscription_matches
    channel_accepts namespace_accepts channel_for_method max_queue publication_of output_event
    Dict.lookup string_eq nat_eq
Undisturbed-later = (omega arith, (omega arith, (omega arith, tt)))

QueuesFit-past : QueuesFit past.subscribers
unfolding publish_all publish fan_out
QueuesFit-past = tt

due-HasText : All (HasText dumps) (due past none none (some (pos 2)) before later)
unfolding sse_block run step open_stream advance publish_all publish subscribe replay
    find_subscription store_subscription fan_out deliver put_nowait deque_append envelope_of
    subscription_matches channel_accepts namespace_accepts channel_for_method max_queue
    publication_of output_event Dict.lookup string_eq nat_eq
due-HasText = (refl, (refl, (refl, (refl, (refl, tt)))))

execute_delivered_example :
    (older : List Envelope) × (events : List Envelope) × ((hub_at_replay past none none
        (some (pos 2))
        before).buffer
      ≡ older ++ envelopes_from 3 before)
    × (sent
          (encoded_run dumps
            (open_stream past none none (some (pos 2)))
            (starting before ++ later ++ turns (past.replay_size + 1 + max_queue))).out
        ≡ wanted (asked past none none (some (pos 2))) older ++ events)
    × (map event_data events
        ≡ keep_if
            (λ d. channel_accepts none d.0)
            (map output_event
              (execute loads repr message_to_dict "beta" items exhausted none).outputs))
unfolding publish_all publish
execute_delivered_example =
    execute_delivered past none (some (pos 2)) dumps loads repr message_to_dict "beta" items
      exhausted none (first ∷ second ∷ third ∷ last ∷ []) before later
      (past.replay_size + 1 + max_queue) (retention 2 events) QueuesFit-past (omega arith)
      (omega arith) Undisturbed-later (le_refl _) execute-outputs refl due-HasText
