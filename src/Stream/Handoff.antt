-- ===== src/Stream/Handoff.antt =====
-- hub.py, `replay`, and router.py, `gen`: the turn that replays the buffer. What is in the queue by
-- then is in the buffer too, unless the buffer has dropped it.
use fastapi_agent_protocol.Base.{
  Option, String, All-drop, All-of, All-both, subst, true, ℕ, ◌-◌, ◌≤◌, ◌≡◌, refl, sym, ◌∙◌, ◌⊎◌,
  inl, List, [], ◌∷◌, ◌++◌, append-nil, arith, length, length-append, drop, drop-append, keep_if,
  keep_if_none, All, All-map,
}
use fastapi_agent_protocol.Base.Int.{ℤ}
use fastapi_agent_protocol.Subscription.{Envelope, Subscription, subscription_matches}
use fastapi_agent_protocol.Hub.{
  Hub, find_subscription, Publication, publish, subscribe, replay, last_seq_of,
}
use fastapi_agent_protocol.Hub.Retention.{Tracks, publish_all, published, publish_all-Tracks}
use fastapi_agent_protocol.Stream.{Session, connected, opened, advance, start_replay}
use fastapi_agent_protocol.Stream.Rising.{
  Rising, last_bounds, last_max, All-keep_if, keep_if-All, keep_if-Rising, All-suffix,
  Numbered-Rising, Numbered-bounded, drop-Rising,
}
use fastapi_agent_protocol.Stream.Delivery.{Reads, store-Reads, publish_all-Reads}
use fastapi_agent_protocol.Stream.Following.{Following, passes}

pub subscribe-Tracks :
    {log : List Envelope} {h : Hub} (channels : Option (List String))
    (namespaces : Option (List (List String))) (since : Option ℤ)
    → Tracks log h
    → Tracks log (subscribe h channels namespaces since).0
unfolding subscribe
subscribe-Tracks channels namespaces since t = record {
  counted = t.counted;
  numbered = t.numbered;
  retained = t.retained;
}

pub replay_size-subscribe :
    (h : Hub) (channels : Option (List String)) (namespaces : Option (List (List String)))
    (since : Option ℤ)
    → (subscribe h channels namespaces since).0.replay_size ≡ h.replay_size
unfolding subscribe
replay_size-subscribe h channels namespaces since = refl

-- A fresh subscription has an empty queue, and the cursor that the client asked for.
subscribe-Reads_self :
    (h : Hub) (channels : Option (List String)) (namespaces : Option (List (List String)))
    (since : Option ℤ)
    → let sub = (subscribe h channels namespaces since).1 in
      Reads sub (subscribe h channels namespaces since).0 [] sub.last_seq
unfolding subscribe find_subscription
subscribe-Reads_self h channels namespaces since = record {
  found = ground arith;
  known = omega arith;
  rising = tt;
  bounded = tt;
  cursor = inl refl;
}

length-published : (h : Hub) (ps : List Publication) → length (published h ps) ≡ length ps
unfolding published
length-published h [] = refl
length-published h (p ∷ ps) = omega (arith, length-published (publish h p).0 ps)

replay_size-publish_all :
    (h : Hub) (ps : List Publication) → (publish_all h ps).replay_size ≡ h.replay_size
unfolding publish_all publish
replay_size-publish_all h [] = refl
replay_size-publish_all h (p ∷ ps) = replay_size-publish_all (publish h p).0 ps

-- The buffer ends in what was published last, if that is no more than it can hold.
pub published_in_buffer :
    {log : List Envelope} (h : Hub) (ps : List Publication)
    → Tracks log h
    → length ps ≤ h.replay_size
    → (older : List Envelope) × ((publish_all h ps).buffer ≡ older ++ published h ps)
published_in_buffer {log} h ps t fits = (
  drop k log,
  t'.retained
      ∙ drop-append k log (published h ps) (
          omega (
            arith,
            length-append log (published h ps),
            length-published h ps,
            replay_size-publish_all h ps,
          )),
)
  where
    t' : Tracks (log ++ published h ps) (publish_all h ps)
    t' = publish_all-Tracks log h ps t

    k : ℕ
    k = length (log ++ published h ps) - (publish_all h ps).replay_size

buffer-Rising :
    {log : List Envelope} {h : Hub}
    → Tracks log h
    → Rising h.buffer × All (λ e. e.seq ≤ h.seq) h.buffer
buffer-Rising {log} {h} t = rw t.retained (
  drop-Rising _ log (Numbered-Rising 0 log t.numbered).1,
  All-drop _ _ log
      (All-map (λ e b. omega (arith, t.counted)) log (Numbered-bounded 0 log t.numbered)),
)

-- What the buffer holds for `sub`, and the cursor that a replay leaves.
abbrev pub held : Subscription → Hub → List Envelope
held sub h = keep_if (subscription_matches sub) h.buffer

abbrev moved : Subscription → Hub → ℕ
moved sub h = last_seq_of sub.last_seq (held sub h)

abbrev pub ready : Subscription → Hub → Session
ready sub h = record { hub = h; sid = sub.sid; phase = opened; out = connected ∷ [] }

held-above : (sub : Subscription) (h : Hub) → All (λ e. sub.last_seq ≤ e.seq) (held sub h)
unfolding subscription_matches
held-above sub h =
    keep_if-All (λ e. sub.last_seq ≤ e.seq) (subscription_matches sub) h.buffer
      (All-of (λ e m. ground arith) h.buffer)

moved-bounds :
    {log : List Envelope} (sub : Subscription) (h : Hub)
    → Tracks log h
    → (moved sub h ≡ sub.last_seq) ⊎ ((sub.last_seq ≤ moved sub h) × (moved sub h ≤ h.seq))
moved-bounds sub h t = last_bounds sub.last_seq h.seq sub.last_seq (held sub h) (
    All-both _ _ (held sub h) (held-above sub h) (
      keep_if-All (λ e. e.seq ≤ h.seq) (subscription_matches sub) h.buffer
        (All-map (λ e b _. b) h.buffer (buffer-Rising t).1)))

-- If the cursor that the replay leaves has passed all that the queue holds, nothing of the queue
-- is due any more.
replay-Following :
    {log : List Envelope} {sub : Subscription} {h : Hub} {q : List Envelope}
    → Tracks log h
    → Reads sub h q sub.last_seq
    → All (λ e. e.seq ≤ moved sub h) q
    → Following sub (held sub h) (advance (ready sub h))
unfolding advance replay subscription_matches
replay-Following {sub} {h} {q} t r passed =
    subst (λ o. Following sub (held sub h) (start_replay (ready sub h) o)) (sym r.found)
      (
        q,
        moved sub h,
        record {
          reads = store-Reads r r.rising r.bounded (moved-bounds sub h t);
          own = refl;
          started = tt;
          settled =
              rw
                (keep_if_none (passes sub (moved sub h)) q (All-map (λ e b. ground arith) q passed))
                (append-nil (held sub h));
        },
      )

-- A stream that subscribes on a hub, during whose start no more is published than the buffer can
-- hold, is due exactly what the buffer holds for it at the replay.
pub handoff-Following :
    {log : List Envelope} {h : Hub} (channels : Option (List String))
    (namespaces : Option (List (List String))) (since : Option ℤ) (ps : List Publication)
    → Tracks log h
    → length ps ≤ h.replay_size
    → let sub = (subscribe h channels namespaces since).1 in
      let h' = publish_all (subscribe h channels namespaces since).0 ps in
      Following sub (held sub h') (advance (ready sub h'))
handoff-Following {h} channels namespaces since ps t fits =
    let h₁ = (subscribe h channels namespaces since).0 in
    let sub = (subscribe h channels namespaces since).1 in
    let h' = publish_all h₁ ps in
    let t₁ = subscribe-Tracks channels namespaces since t in
    let t' = publish_all-Tracks _ h₁ ps t₁ in
    let (older, ends) =
      published_in_buffer h₁ ps t₁ (rw (replay_size-subscribe h channels namespaces since) fits) in
    let newest =
      All-keep_if (λ e. e.seq ≤ moved sub h') (subscription_matches sub) h'.buffer
        (last_max sub.last_seq (held sub h') (keep_if-Rising _ h'.buffer (buffer-Rising t').0)) in
    let (q, r, passed) =
      publish_all-Reads (λ e. e.seq ≤ moved sub h') ps
        (subscribe-Reads_self h channels namespaces since) tt
        (All-suffix _ older (published h₁ ps) (
          subst (All (λ e. subscription_matches sub e ≡ true → e.seq ≤ moved sub h')) ends
            newest)) in
    replay-Following t' r passed
