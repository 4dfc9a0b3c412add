-- ===== src/Stream/ExactOnce.antt =====
-- router.py, `gen`: a stream from its opening, and the events that its consumer is sent.
use native.Mathlib.Nat.{le_refl}
use fastapi_agent_protocol.Base.{
  String, ℕ, zero, suc, ◌≤◌, ◌<◌, ◌≡◌, refl, sym, ap, ◌∙◌, ◌≢◌, Option, none, some, subst, List, [],
  ◌∷◌, ◌++◌, map, append-nil, append_assoc, arith, length, keep_if, keep_if-append,
}
use fastapi_agent_protocol.Base.Int.{ℤ}
use fastapi_agent_protocol.Failure.{Result}
use fastapi_agent_protocol.Stream.Encoding.{encoded_run, encoded_run-sent}
use fastapi_agent_protocol.Subscription.{Envelope, Subscription, subscription_matches}
use fastapi_agent_protocol.Hub.{Hub, Publication, publish, subscribe, max_queue, find_subscription}
use fastapi_agent_protocol.Hub.Retention.{Tracks, publish_all}
use fastapi_agent_protocol.Stream.{
  Session, Phase, opening, opened, replaying, live, closed, Action, publishes, advances, times_out,
  disconnects, joins, leaves, advance, step, run, open_stream, own_subscription,
}
use fastapi_agent_protocol.Stream.Following.{
  Follows, Following, Within, IsStarted, load, remaining, passes, sent,
}
use fastapi_agent_protocol.Stream.Turning.{
  advanced-Within, publish-Following, advanced-Following, timed_out-Following, joined-Following,
  left-Following,
}
use fastapi_agent_protocol.Stream.Handoff.{held, ready, handoff-Following}

abbrev pub own_queue : Session → List Envelope
own_queue s = elim (own_subscription s) [ none ↦ [] | some sub ↦ sub.queue ]

-- The consumer stays connected, nobody else ends its subscription, and its queue is never full
-- when something is published.
abbrev pub Undisturbed : Session → List Action → Type 0
Undisturbed s [] = Unit
Undisturbed s (publishes p ∷ acts) =
    (length (own_queue s) < max_queue) × Undisturbed (step s (publishes p)) acts
Undisturbed s (advances ∷ acts) = Undisturbed (step s advances) acts
Undisturbed s (times_out ∷ acts) = Undisturbed (step s times_out) acts
Undisturbed s (disconnects ∷ acts) = ⊥
Undisturbed s (joins channels namespaces since ∷ acts) =
    Undisturbed (step s (joins channels namespaces since)) acts
Undisturbed s (leaves sid ∷ acts) = (sid ≢ s.sid) × Undisturbed (step s (leaves sid)) acts

-- The envelopes that the steps publish.
abbrev pub broadcast : Session → List Action → List Envelope
broadcast s [] = []
broadcast s (publishes p ∷ acts) = (publish s.hub p).1 ∷ broadcast (step s (publishes p)) acts
broadcast s (a ∷ acts) = broadcast (step s a) acts

abbrev pub wanted : Subscription → List Envelope → List Envelope
wanted sub = keep_if (subscription_matches sub)

pub own_queue_lem :
    {sub : Subscription} {due : List Envelope} {s : Session} {q : List Envelope} {c : ℕ}
    → Follows sub due s q c
    → own_queue s ≡ q
own_queue_lem {s} f =
    ap (λ o. elim o [ none ↦ [] | some t ↦ t.queue ])
      (ap (λ i. find_subscription i s.hub.subscribers) f.own ∙ f.reads.found)

run-Following :
    {sub : Subscription} (s : Session) (acts : List Action) (due : List Envelope)
    → Following sub due s
    → Undisturbed s acts
    → Following sub (due ++ wanted sub (broadcast s acts)) (run s acts)
unfolding run
run-Following s [] due f u = rw append-nil f
run-Following {sub} s (publishes p ∷ acts) due (q, c, f) u =
    let e = (publish s.hub p).1 in
    let rest = broadcast (step s (publishes p)) acts in
    subst (λ d. Following sub d (run (step s (publishes p)) acts))
      (append_assoc due (wanted sub (e ∷ [])) (wanted sub rest)
        ∙ ap (λ (r : List Envelope). due ++ r)
            (sym (keep_if-append (subscription_matches sub) (e ∷ []) rest)))
      (run-Following (step s (publishes p)) acts (due ++ wanted sub (e ∷ []))
        (publish-Following f p (rw (← own_queue_lem f) u.0)) u.1)
run-Following s (advances ∷ acts) due (q, c, f) u =
    run-Following (step s advances) acts due (advanced-Following f) u
run-Following s (times_out ∷ acts) due (q, c, f) u =
    run-Following (step s times_out) acts due (timed_out-Following f) u
run-Following s (disconnects ∷ acts) due (q, c, f) u = absurd u
run-Following s (joins channels namespaces since ∷ acts) due (q, c, f) u =
    run-Following (step s (joins channels namespaces since)) acts due
      (joined-Following f channels namespaces since) u
run-Following s (leaves sid ∷ acts) due (q, c, f) u =
    run-Following (step s (leaves sid)) acts due (left-Following f sid u.0) u.1

-- The generator is given `n` turns.
abbrev pub turns : ℕ → List Action
turns zero = []
turns (suc n) = advances ∷ turns n

pub unloaded :
    {sub : Subscription} {due : List Envelope} {s : Session} {q : List Envelope} {c : ℕ}
    → Follows sub due s q c
    → load s.phase q ≤ 0
    → sent s.out ≡ due
unloaded {sub} {s} {q} {c} f h =
    sym (append-nil (sent s.out))
    ∙ ap (λ (r : List Envelope). sent s.out ++ r) (sym (go s.phase q f.started h))
    ∙ f.settled
  where
    go :
        (ph : Phase) (q' : List Envelope)
        → IsStarted ph
        → load ph q' ≤ 0
        → remaining ph ++ keep_if (passes sub c) q' ≡ []
    go (replaying es) q' n b = absurd (omega arith)
    go live [] n b = refl
    go live (d ∷ q') n b = absurd (omega arith)
    go opening q' n b = absurd n
    go opened q' n b = absurd n
    go closed q' n b = absurd n

sent-turns :
    {sub : Subscription} {due : List Envelope} (n : ℕ) (s : Session)
    → Within sub due s n
    → sent (run s (turns n)).out ≡ due
unfolding run
sent-turns zero s (q, c, f, b) = unloaded f b
sent-turns (suc n) s (q, c, f, b) =
    let (q', c', g, b') = advanced-Within f in
    sent-turns n (step s advances) (q', c', g, omega (arith, b, b'))

-- The stream's steps up to and with the replay, `ps` being published meanwhile.
abbrev pub starting : List Publication → List Action
starting ps = advances ∷ (map publishes ps ++ advances ∷ [])

pub run-append : (s : Session) (xs ys : List Action) → run s (xs ++ ys) ≡ run (run s xs) ys
unfolding run
run-append s [] ys = refl
run-append s (x ∷ xs) ys = run-append (step s x) xs ys

run-publishes :
    (s : Session) (ps : List Publication)
    → run s (map publishes ps) ≡ record s { hub = publish_all s.hub ps }
unfolding run publish_all
run-publishes s [] = refl
run-publishes s (p ∷ ps) = run-publishes (step s (publishes p)) ps

module _ (h : Hub) (channels : Option (List String)) (namespaces : Option (List (List String)))
    (since : Option ℤ) where
  -- What the stream lets through.
  abbrev pub asked : Subscription
  asked = (subscribe h channels namespaces since).1

  abbrev pub hub_at_replay : List Publication → Hub
  hub_at_replay ps = publish_all (subscribe h channels namespaces since).0 ps

  pub run-starting :
      (ps : List Publication)
      → run (open_stream h channels namespaces since) (starting ps)
        ≡ advance (ready asked (hub_at_replay ps))
  unfolding run open_stream
  run-starting ps =
      run-append _ (map publishes ps) (advances ∷ []) ∙ ap advance (run-publishes _ ps)

  -- What the stream is to send in all, the steps `acts` following its start.
  abbrev pub due : List Publication → List Action → List Envelope
  due ps acts = wanted asked (
      (hub_at_replay ps).buffer
      ++ broadcast (run (open_stream h channels namespaces since) (starting ps)) acts)

  pub run-Following_from :
      {log : List Envelope} (ps : List Publication) (acts : List Action)
      → Tracks log h
      → length ps ≤ h.replay_size
      → Undisturbed (run (open_stream h channels namespaces since) (starting ps)) acts
      → Following asked
          (due ps acts)
          (run (run (open_stream h channels namespaces since) (starting ps)) acts)
  run-Following_from ps acts t fits quiet =
      subst (λ d. Following asked d (run s acts))
        (sym (
          keep_if-append (subscription_matches asked) (hub_at_replay ps).buffer (broadcast s acts)))
        (run-Following s acts (held asked (hub_at_replay ps))
          (subst (Following asked (held asked (hub_at_replay ps))) (sym (run-starting ps))
            (handoff-Following channels namespaces since ps t fits))
          quiet)
    where
      s : Session
      s = run (open_stream h channels namespaces since) (starting ps)

  -- A stream opens on a hub with history `log`, the events `ps` being published before its replay,
  -- no more of them than the buffer can hold. Then `acts` happen, in which the consumer stays
  -- connected, nobody else ends its subscription, and its queue is never full at a publication.
  -- What it was sent is the beginning of `due`: of the buffer at the replay and of what was
  -- published after it, the events that the subscription lets through, each once and in order. That
  -- holds for every `json.dumps`, also one that raises.
  pub exact_once :
      {log : List Envelope} (dumps : Envelope → Result String) (ps : List Publication)
      (acts : List Action)
      → Tracks log h
      → length ps ≤ h.replay_size
      → Undisturbed (run (open_stream h channels namespaces since) (starting ps)) acts
      → (rest : List Envelope) × (sent
              (encoded_run dumps
                (open_stream h channels namespaces since)
                (starting ps ++ acts)).out
            ++ rest
          ≡ due ps acts)
  unfolding open_stream
  exact_once dumps ps acts t fits quiet =
      let opening : Session = open_stream h channels namespaces since in
      let (q, c, f) = run-Following_from ps acts t fits quiet in
      let after : Session = run (run opening (starting ps)) acts in
      let more : List Envelope = remaining after.phase ++ keep_if (passes asked c) q in
      let (cut, is) = encoded_run-sent dumps opening (starting ps ++ acts) refl in
      (
        cut ++ more,
        sym (append_assoc _ cut more)
            ∙ ap (λ es. es ++ more)
                (is ∙ ap (λ (s : Session). sent s.out) (run-append opening (starting ps) acts))
            ∙ f.settled,
      )

  -- A stream opens on a hub with history `log`, the events `ps` being published before its replay,
  -- no more of them than the buffer can hold. Then `acts` happen, in which the consumer stays
  -- connected, nobody else ends its subscription, and its queue is never full at a publication.
  -- Given enough further turns, in which nothing else happens, the generator has sent exactly `due`.
  pub all_sent :
      {log : List Envelope} (ps : List Publication) (acts : List Action)
      → Tracks log h
      → length ps ≤ h.replay_size
      → Undisturbed (run (open_stream h channels namespaces since) (starting ps)) acts
      → (n : ℕ) × (sent
            (run
              (run (run (open_stream h channels namespaces since) (starting ps)) acts)
              (turns n)).out
          ≡ due ps acts)
  all_sent ps acts t fits quiet =
      let (q, c, f) = run-Following_from ps acts t fits quiet in
      (_, sent-turns _ _ (q, c, f, le_refl _))
