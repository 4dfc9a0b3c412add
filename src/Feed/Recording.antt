-- ===== src/Feed/Recording.antt =====
-- hub.py and runner.py: the hub of a thread has what was published for the thread.
use mathlib.Core.List.{map-append}
use fastapi_agent_protocol.Base.{
  ℕ, String, ◌≡◌, refl, sym, ap, subst, ◌∙◌, false, List, [], ◌∷◌, ◌++◌, map, drop-nil, arith, ◌==◌,
  string_eq,
}
use fastapi_agent_protocol.Base.Dict
use fastapi_agent_protocol.Base.Dict.{Dict, lookup-insert, lookup-insert_self}
use fastapi_agent_protocol.Subscription.{Envelope, Subscription}
use fastapi_agent_protocol.Hub.{Hub, publish, envelope_of}
use fastapi_agent_protocol.Hub.Retention.{Tracks, publish-Tracks}
use fastapi_agent_protocol.Hubs.{HubRegistry, hub}
use fastapi_agent_protocol.Execution.{Output}
use fastapi_agent_protocol.Execution.Publishing.{output_event, publication_of}
use fastapi_agent_protocol.Execution.Delivery.{event_data}
use fastapi_agent_protocol.Feed.{with_hub, publish_on}

-- The hub's history is the events of the outputs, in their order.
abbrev pub Records : HubRegistry → String → List Output → Type 0
Records hubs thread_id log =
    (events : List Envelope) × Tracks events (hub hubs thread_id).1
    × (map event_data events ≡ map output_event log)

hub-with_hub :
    (hubs : HubRegistry) (thread_id : String) (change : Hub → Hub)
    → (hub (with_hub hubs thread_id change) thread_id).1 ≡ change (hub hubs thread_id).1
unfolding hub with_hub
hub-with_hub hubs thread_id change = grind (arith, lookup-insert_self)

hub-with_hub_other :
    (hubs : HubRegistry) (thread_id other : String) (change : Hub → Hub)
    → (other == thread_id) ≡ false
    → (hub (with_hub hubs thread_id change) other).1 ≡ (hub hubs other).1
unfolding hub with_hub
hub-with_hub_other hubs thread_id other change apart = grind (arith, lookup-insert)

pub new_hub-Records :
    (replay_size : ℕ) (thread_id : String)
    → Records (record { replay_size = replay_size; hubs = [] }) thread_id []
unfolding hub Dict.lookup
new_hub-Records replay_size thread_id =
    ([], record { counted = refl; numbered = tt; retained = sym (drop-nil _) }, refl)

pub other-Records :
    (hubs : HubRegistry) (thread_id other : String) (change : Hub → Hub) (log : List Output)
    → (other == thread_id) ≡ false
    → Records hubs other log
    → Records (with_hub hubs thread_id change) other log
other-Records hubs thread_id other change log apart (events, t, same) = (
  events,
  subst (Tracks events) (sym (hub-with_hub_other hubs thread_id other change apart)) t,
  same,
)

pub publish_on-Records :
    (hubs : HubRegistry) (thread_id : String) (now : ℕ) (output : Output) (log : List Output)
    → Records hubs thread_id log
    → Records (publish_on hubs thread_id now output) thread_id (log ++ output ∷ [])
unfolding publish_on publish envelope_of publication_of
publish_on-Records hubs thread_id now output log (events, t, same) =
    let p = publication_of (now, output) in
    let h = (hub hubs thread_id).1 in
    (
      events ++ (publish h p).1 ∷ [],
      subst (Tracks (events ++ (publish h p).1 ∷ []))
          (sym (hub-with_hub hubs thread_id (λ k. (publish k p).0))) (publish-Tracks events h p t),
      map-append event_data events ((publish h p).1 ∷ [])
          ∙ ap (λ l. l ++ output_event output ∷ []) same
          ∙ sym (map-append output_event log (output ∷ [])),
    )

pub listens-Records :
    (hubs : HubRegistry) (thread_id : String) (subscribers : List Subscription) (next_sid : ℕ)
    (log : List Output)
    → Records hubs thread_id log
    → Records
        (with_hub hubs thread_id (λ h. record h { subscribers = subscribers; next_sid = next_sid }))
        thread_id
        log
listens-Records hubs thread_id subscribers next_sid log (events, t, same) = (
  events,
  subst (Tracks events) (sym (hub-with_hub hubs thread_id _))
      (record { counted = t.counted; numbered = t.numbered; retained = t.retained }),
  same,
)
