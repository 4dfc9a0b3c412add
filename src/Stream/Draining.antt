-- ===== src/Stream/Draining.antt =====
-- router.py, `gen`: how many turns it takes until the generator waits.
use fastapi_agent_protocol.Base.{
  ℕ, zero, suc, ◌+◌, ◌-◌, ◌≤◌, String, ◌≡◌, refl, subst, sym, ap, ◌∙◌, Option, List, [], ◌∷◌, ◌++◌,
  All, arith, length, length-drop,
}
use fastapi_agent_protocol.Base.Int.{ℤ}
use fastapi_agent_protocol.Failure.{Result}
use fastapi_agent_protocol.Subscription.{Envelope, Subscription}
use fastapi_agent_protocol.Hub.{Hub, Publication, max_queue}
use fastapi_agent_protocol.Hub.Retention.{Tracks}
use fastapi_agent_protocol.Stream.{
  Session, Phase, opening, opened, replaying, live, closed, Action, advances, step, run,
  open_stream,
}
use fastapi_agent_protocol.Stream.Delivery.{mark}
use fastapi_agent_protocol.Stream.Following.{Follows, Within, IsStarted, load, remaining, sent}
use fastapi_agent_protocol.Stream.Turning.{advanced-Within}
use fastapi_agent_protocol.Stream.ExactOnce.{
  own_queue, own_queue_lem, unloaded, Undisturbed, turns, starting, due, run-Following_from,
  run-append,
}
use fastapi_agent_protocol.Stream.Encoding.{HasText, encoded_run, encoded_run_whole}
use fastapi_agent_protocol.Stream.Bounds.{
  QueuesFit, HubFits, Fits, find-fits, subscribe-HubFits, run-Fits,
}

turns-Within :
    {sub : Subscription} {due : List Envelope} (n : ℕ) (s : Session)
    → Within sub due s n
    → Within sub due (run s (turns n)) 0
unfolding run
turns-Within zero s w = w
turns-Within (suc n) s (q, c, f, b) =
    let (q', c', g, b') = advanced-Within f in
    turns-Within n (step s advances) (q', c', g, omega (arith, b, b'))

-- With nothing to go the generator waits for its queue.
waits : (ph : Phase) (q : List Envelope) → IsStarted ph → load ph q ≤ 0 → (ph ≡ live) × (q ≡ [])
waits (replaying es) q started b = absurd (omega (arith, b))
waits live [] started b = (refl, refl)
waits live (e ∷ q) started b = absurd (omega (arith, b))
waits opening q started b = absurd started
waits opened q started b = absurd started
waits closed q started b = absurd started

load-remaining : (ph : Phase) (q : List Envelope) → load ph q ≤ length (remaining ph) + 1 + length q
load-remaining (replaying es) q = omega arith
load-remaining live q = omega arith
load-remaining opening q = omega arith
load-remaining opened q = omega arith
load-remaining closed q = omega arith

buffer-fits : {log : List Envelope} {h : Hub} → Tracks log h → length h.buffer ≤ h.replay_size
buffer-fits {log} {h} t = omega (
  arith,
  ap (λ (b : List Envelope). length b) t.retained,
  length-drop (length log - h.replay_size) log,
)

load-Fits :
    {sub : Subscription} {due : List Envelope} {s : Session} {q : List Envelope} {c : ℕ} (k : ℕ)
    → Follows sub due s q c
    → Fits k s
    → load s.phase q ≤ k + 1 + max_queue
load-Fits {sub} {s} {q} {c} k f ((size, room, fits), to_go) = omega (
  arith,
  load-remaining s.phase q,
  to_go,
  find-fits sub.sid s.hub.subscribers (mark sub q c) fits f.reads.found,
)

module _ (h : Hub) (channels : Option (List String)) (namespaces : Option (List (List String)))
    (since : Option ℤ) where
  open-Fits : HubFits h.replay_size h → Fits h.replay_size (open_stream h channels namespaces since)
  unfolding open_stream
  open-Fits f = (subscribe-HubFits h.replay_size h channels namespaces since f, omega arith)

  drained_run :
      {log : List Envelope} (ps : List Publication) (acts : List Action) (n : ℕ)
      → Tracks log h
      → QueuesFit h.subscribers
      → length ps ≤ h.replay_size
      → Undisturbed (run (open_stream h channels namespaces since) (starting ps)) acts
      → h.replay_size + 1 + max_queue ≤ n
      → let after =
          run (run (run (open_stream h channels namespaces since) (starting ps)) acts) (turns n) in
        (sent after.out ≡ due h channels namespaces since ps acts)
        × (after.phase ≡ live)
        × (own_queue after ≡ [])
  drained_run ps acts n t queues fits quiet enough =
      let (q, c, f) = run-Following_from h channels namespaces since ps acts t fits quiet in
      let k = h.replay_size in
      let start : Session = open_stream h channels namespaces since in
      let within : Fits k (run (run start (starting ps)) acts) =
        run-Fits k _ acts
          (run-Fits k start (starting ps) (open-Fits (refl, buffer-fits t, queues))) in
      let (q', c', g, none_left) =
        turns-Within n _ (q, c, f, omega (arith, load-Fits k f within, enough)) in
      let (at_live, empty) = waits _ q' g.started none_left in
      (unloaded g none_left, at_live, own_queue_lem g ∙ empty)

  -- A stream opens on a hub with history `log`, with no queue above its bound, the events `ps`
  -- being published before its replay, no more of them than the buffer can hold. Then `acts` happen,
  -- in which the consumer stays connected, nobody else ends its subscription, and its queue is never
  -- full at a publication. `json.dumps` raises for no event of `due`. After as many further turns as
  -- the buffer and the queue can hold and one, or more, in which nothing else happens, the generator
  -- has sent exactly `due`, and it waits: the replay is over and the queue is empty.
  pub drained :
      {log : List Envelope} (dumps : Envelope → Result String) (ps : List Publication)
      (acts : List Action) (n : ℕ)
      → Tracks log h
      → QueuesFit h.subscribers
      → length ps ≤ h.replay_size
      → Undisturbed (run (open_stream h channels namespaces since) (starting ps)) acts
      → h.replay_size + 1 + max_queue ≤ n
      → All (HasText dumps) (due h channels namespaces since ps acts)
      → let after =
          encoded_run dumps
            (open_stream h channels namespaces since)
            (starting ps ++ acts ++ turns n) in
        (sent after.out ≡ due h channels namespaces since ps acts)
        × (after.phase ≡ live)
        × (own_queue after ≡ [])
  unfolding open_stream
  drained dumps ps acts n t queues fits quiet enough texts =
      let done = drained_run ps acts n t queues fits quiet enough in
      let opening : Session = open_stream h channels namespaces since in
      let steps : List Action = starting ps ++ acts ++ turns n in
      let split : run opening steps ≡ run (run (run opening (starting ps)) acts) (turns n) =
        run-append opening (starting ps ++ acts) (turns n)
        ∙ ap (λ (s : Session). run s (turns n)) (run-append opening (starting ps) acts) in
      let sends : sent (run opening steps).out ≡ due h channels namespaces since ps acts =
        ap (λ (s : Session). sent s.out) split ∙ done.0 in
      let whole =
        encoded_run_whole dumps opening steps refl
          (subst (All (HasText dumps)) (sym sends) texts) in
      subst
        (λ (s : Session).
          (sent s.out ≡ due h channels namespaces since ps acts)
          × (s.phase ≡ live)
          × (own_queue s ≡ []))
        (sym (whole ∙ split)) done
