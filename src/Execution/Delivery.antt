-- ===== src/Execution/Delivery.antt =====
-- runner.py, hub.py and router.py together: what a client that is connected while a run executes is
-- sent of it.
use fastapi_agent_protocol.Base.{
  ℕ, ◌+◌, ◌≤◌, ◌<◌, String, ◌≡◌, refl, sym, ap, ◌∙◌, Bool, Option, none, List, [], ◌∷◌, ◌++◌, map,
  arith, length, keep_if, keep_if-append, keep_if_congr, All, All-map, append_assoc,
}
use fastapi_agent_protocol.Base.Int.{ℤ}
use fastapi_agent_protocol.Failure.{Result}
use fastapi_agent_protocol.Value.{Value, Fields}
use fastapi_agent_protocol.Subscription.{
  Envelope, Subscription, subscription_matches, channel_accepts, namespace_accepts,
}
use fastapi_agent_protocol.Hub.{Hub, Publication, envelope_of, subscribe, cursor_of, max_queue}
use fastapi_agent_protocol.Hub.Retention.{Tracks}
use fastapi_agent_protocol.Stream.{Session, Action, run, open_stream}
use fastapi_agent_protocol.Stream.Following.{sent}
use fastapi_agent_protocol.Stream.Handoff.{
  published_in_buffer, subscribe-Tracks, replay_size-subscribe,
}
use fastapi_agent_protocol.Stream.ExactOnce.{
  Undisturbed, broadcast, wanted, turns, starting, asked, hub_at_replay, due, run-starting,
}
use fastapi_agent_protocol.Stream.Posted.{
  posted, envelopes_from, published-envelopes_from, seq-publish_all, envelopes_from-append,
  seq-advance, broadcast-envelopes_from,
}
use fastapi_agent_protocol.Stream.Encoding.{HasText, encoded_run}
use fastapi_agent_protocol.Stream.Bounds.{QueuesFit}
use fastapi_agent_protocol.Stream.Draining.{drained}
use fastapi_agent_protocol.Execution.{StreamItem, Ending, Output, execute}
use fastapi_agent_protocol.Execution.Publishing.{output_event, publication_of}

-- The method and the data of an event.
abbrev pub event_data : Envelope → String × Value
event_data e = (e.method, e.payload)

keep_if-map :
    {A B : Type 0} (f : A → B) (p : B → Bool) (xs : List A)
    → map f (keep_if (λ x. p (f x)) xs) ≡ keep_if p (map f xs)
keep_if-map f p [] = refl
keep_if-map f p (x ∷ xs) = ground (arith, keep_if-map f p xs)

event_data-envelopes_from :
    (n : ℕ) (timed : List (ℕ × Output))
    → map event_data (envelopes_from n (map publication_of timed))
      ≡ map output_event (map (λ t. t.1) timed)
unfolding envelopes_from publication_of envelope_of
event_data-envelopes_from n [] = refl
event_data-envelopes_from n ((now, output) ∷ rest) =
    ap (λ r. output_event output ∷ r) (event_data-envelopes_from (n + 1) rest)

envelopes_from-above :
    (k n : ℕ) (ps : List Publication) → k ≤ n → All (λ e. k < e.seq) (envelopes_from n ps)
unfolding envelopes_from envelope_of
envelopes_from-above k n [] h = tt
envelopes_from-above k n (p ∷ ps) h =
    (omega (arith, h), envelopes_from-above k (n + 1) ps (omega (arith, h)))

module _ (h : Hub) (channels : Option (List String)) (since : Option ℤ) where
  -- A stream without namespaces lets through the new events of its channels.
  asked-new :
      (e : Envelope)
      → cursor_of since < e.seq
      → subscription_matches (asked h channels none since) e ≡ channel_accepts channels e.method
  unfolding subscription_matches subscribe namespace_accepts channel_accepts
  asked-new e new = ground (arith, new)

  wanted-new :
      (n : ℕ) (ps : List Publication)
      → cursor_of since ≤ n
      → wanted (asked h channels none since) (envelopes_from n ps)
        ≡ keep_if (λ e. channel_accepts channels e.method) (envelopes_from n ps)
  wanted-new n ps below =
      keep_if_congr _ _ (envelopes_from n ps) (
        All-map asked-new (envelopes_from n ps) (envelopes_from-above (cursor_of since) n ps below))

  seq-subscribe : (subscribe h channels none since).0.seq ≡ h.seq
  unfolding subscribe
  seq-subscribe = refl

  abbrev started_stream : List Publication → Session
  started_stream ps = run (open_stream h channels none since) (starting ps)

  seq-started_stream : (ps : List Publication) → (started_stream ps).hub.seq ≡ h.seq + length ps
  seq-started_stream ps =
      ap (λ (s : Session). s.hub.seq) (run-starting h channels none since ps)
      ∙ seq-advance _
      ∙ seq-publish_all (subscribe h channels none since).0 ps
      ∙ ap (λ n. n + length ps) seq-subscribe

  -- The envelopes published before the replay, and those after it.
  published-broadcast :
      (ps : List Publication) (acts : List Action)
      → envelopes_from h.seq ps ++ broadcast (started_stream ps) acts
        ≡ envelopes_from h.seq (ps ++ posted acts)
  published-broadcast ps acts =
      ap (λ r. envelopes_from h.seq ps ++ r)
        (broadcast-envelopes_from (started_stream ps) acts
          ∙ ap (λ n. envelopes_from n (posted acts)) (seq-started_stream ps))
      ∙ sym (envelopes_from-append h.seq ps (posted acts))

  -- What is due to such a stream: what the buffer held of before it, and what was published since.
  due-posted :
      {log : List Envelope} (ps : List Publication) (acts : List Action)
      → Tracks log h
      → length ps ≤ h.replay_size
      → cursor_of since ≤ h.seq
      → (older : List Envelope) × ((hub_at_replay h channels none since ps).buffer
          ≡ older ++ envelopes_from h.seq ps)
        × (due h channels none since ps acts
            ≡ wanted (asked h channels none since) older
              ++ keep_if
                  (λ e. channel_accepts channels e.method)
                  (envelopes_from h.seq (ps ++ posted acts)))
  due-posted ps acts t fits below =
      let (older, is) =
        published_in_buffer opening ps (subscribe-Tracks channels none since t)
          (omega (arith, fits, replay_size-subscribe h channels none since)) in
      let split : (hub_at_replay h channels none since ps).buffer
          ≡ older ++ envelopes_from h.seq ps =
        is
        ∙ ap (λ r. older ++ r)
            (published-envelopes_from opening ps ∙ ap (λ n. envelopes_from n ps) seq-subscribe) in
      (
        older,
        split,
        ap (λ b. wanted sub (b ++ broadcast (started_stream ps) acts)) split
            ∙ ap (wanted sub)
                (append_assoc older _ _ ∙ ap (λ r. older ++ r) (published-broadcast ps acts))
            ∙ keep_if-append (subscription_matches sub) older _
            ∙ ap (λ r. wanted sub older ++ r) (wanted-new h.seq (ps ++ posted acts) below),
      )
    where
      opening : Hub
      opening = (subscribe h channels none since).0

      sub : Subscription
      sub = asked h channels none since

  module _ (dumps : Envelope → Result String) (loads : String → Option Value)
      (repr : Value → String) (message_to_dict : Value → Option (Fields × Value)) where
    -- A run of a graph publishes on a hub with history `log`, each event at some time. A client
    -- opens a stream on the hub with channels or none, no namespaces and a cursor that is not ahead
    -- of the hub. Some of the run's events are published before the replay, no more of them than
    -- the buffer can hold, and the others among the steps after it, in which the client stays
    -- connected, nobody else ends its subscription, and its queue is never full at a publication.
    -- No queue of the hub was above its bound at the opening. `json.dumps` raises for none of the
    -- events that the client wants. After as many further turns as the
    -- buffer and the queue can hold and one, or more, in which nothing else happens, the client has
    -- been sent what it wants of the events that the buffer held of before the run, and then all
    -- that the run publishes on its channels, each event once, in order, with its data.
    pub execute_delivered :
        {log : List Envelope} (name : String) (items : List StreamItem) (ending : Ending)
        (snapshot : Option (Result Fields)) (timed : List (ℕ × Output)) (ps : List Publication)
        (acts : List Action) (n : ℕ)
        → Tracks log h
        → QueuesFit h.subscribers
        → length ps ≤ h.replay_size
        → cursor_of since ≤ h.seq
        → Undisturbed (started_stream ps) acts
        → h.replay_size + 1 + max_queue ≤ n
        → map (λ t. t.1) timed
          ≡ (execute loads repr message_to_dict name items ending snapshot).outputs
        → ps ++ posted acts ≡ map publication_of timed
        → All (HasText dumps) (due h channels none since ps acts)
        → (older : List Envelope) × (events : List Envelope) × ((hub_at_replay h channels none since
              ps).buffer
            ≡ older ++ envelopes_from h.seq ps)
          × (sent
                (encoded_run dumps
                  (open_stream h channels none since)
                  (starting ps ++ acts ++ turns n)).out
              ≡ wanted (asked h channels none since) older ++ events)
          × (map event_data events
              ≡ keep_if
                  (λ d. channel_accepts channels d.0)
                  (map output_event
                    (execute loads repr message_to_dict name items ending snapshot).outputs))
    execute_delivered name items ending snapshot timed ps acts n t queues fits below quiet enough
          runs all texts =
        let (done, at_live, empty) =
          drained h channels none since dumps ps acts n t queues fits quiet enough texts in
        let (older, held, split) = due-posted ps acts t fits below in
        (
          older,
          _,
          held,
          done ∙ split,
          keep_if-map event_data (λ d. channel_accepts channels d.0) _
              ∙ ap (keep_if (λ d. channel_accepts channels d.0)) (
                  ap (λ r. map event_data (envelopes_from h.seq r)) all
                  ∙ event_data-envelopes_from h.seq timed
                  ∙ ap (map output_event) runs),
        )
