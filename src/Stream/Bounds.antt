-- ===== src/Stream/Bounds.antt =====
-- hub.py and router.py: what a hub and a stream hold at most, whatever happens.
use fastapi_agent_protocol.Base.{
  ℕ, ◌≤◌, String, ◌≡◌, refl, sym, subst, ap, Bool, Option, none, some, List, [], ◌∷◌, ◌++◌, arith,
  length, length-append, length-drop, keep_if, All, Bool-cases, ◌==◌, inl, inr, nat_eq,
}
use fastapi_agent_protocol.Base.Int.{ℤ}
use fastapi_agent_protocol.Subscription.{Envelope, Subscription, subscription_matches}
use fastapi_agent_protocol.Hub.{
  Hub, Publication, publish, subscribe, unsubscribe, replay, deque_append, max_queue, put_nowait,
  deliver, fan_out, discard, find_subscription, store_subscription,
}
use fastapi_agent_protocol.Stream.{
  Session, Phase, opening, opened, replaying, live, closed, Action, publishes, advances, times_out,
  disconnects, joins, leaves, advance, step, run, advance_in, start_replay, take_live, take_queued,
  own_subscription, time_out_in, close_in,
}
use fastapi_agent_protocol.Stream.Following.{remaining}

-- Every queue is within `max_queue`.
abbrev pub QueuesFit : List Subscription → Type 0
QueuesFit = All (λ s. length s.queue ≤ max_queue)

abbrev pub HubFits : ℕ → Hub → Type 0
HubFits k h = (h.replay_size ≡ k) × (length h.buffer ≤ k) × QueuesFit h.subscribers

-- And the replay has no more to send than the buffer can hold.
abbrev pub Fits : ℕ → Session → Type 0
Fits k s = HubFits k s.hub × (length (remaining s.phase) ≤ k)

deliver-fits :
    (e : Envelope) (s : Subscription)
    → length s.queue ≤ max_queue
    → length (deliver e s).queue ≤ max_queue
unfolding deliver put_nowait
deliver-fits e s h = ground (arith, length-append s.queue (e ∷ []))

fan_out-QueuesFit :
    (e : Envelope) (subs : List Subscription) → QueuesFit subs → QueuesFit (fan_out e subs)
unfolding fan_out
fan_out-QueuesFit e [] h = tt
fan_out-QueuesFit e (s ∷ subs) h = (deliver-fits e s h.0, fan_out-QueuesFit e subs h.1)

discard-QueuesFit :
    (sid : ℕ) (subs : List Subscription) → QueuesFit subs → QueuesFit (discard sid subs)
unfolding discard
discard-QueuesFit sid [] h = tt
discard-QueuesFit sid (s ∷ subs) h = elim (Bool-cases (s.sid == sid)) [
  | inl own ↦ rw own (discard-QueuesFit sid subs h.1)
  | inr other ↦ rw other (h.0, discard-QueuesFit sid subs h.1)
]

store-QueuesFit :
    (s : Subscription) (subs : List Subscription)
    → length s.queue ≤ max_queue
    → QueuesFit subs
    → QueuesFit (store_subscription s subs)
unfolding store_subscription
store-QueuesFit s [] fits h = tt
store-QueuesFit s (t ∷ subs) fits h = elim (Bool-cases (t.sid == s.sid)) [
  | inl own ↦ rw own (fits, h.1)
  | inr other ↦ rw other (h.0, store-QueuesFit s subs fits h.1)
]

pub find-fits :
    (sid : ℕ) (subs : List Subscription) (s : Subscription)
    → QueuesFit subs
    → find_subscription sid subs ≡ some s
    → length s.queue ≤ max_queue
unfolding find_subscription
find-fits sid [] s h found = absurd (ground arith)
find-fits sid (t ∷ subs) s h found = elim (Bool-cases (t.sid == sid)) [
  | inl own ↦ ground (arith, own, found, h.0)
  | inr other ↦ find-fits sid subs s h.1 (ground (arith, other, found))
]

deque_append-fits :
    (k : ℕ) (buffer : List Envelope) (e : Envelope)
    → length buffer ≤ k
    → length (deque_append k buffer e) ≤ k
unfolding deque_append
deque_append-fits k buffer e h =
    ground (arith, length-append buffer (e ∷ []), length-drop 1 (buffer ++ e ∷ []))

length-keep_if : {A : Type 0} (p : A → Bool) (xs : List A) → length (keep_if p xs) ≤ length xs
length-keep_if p [] = omega arith
length-keep_if p (x ∷ xs) = ground (arith, length-keep_if p xs)

publish-HubFits : (k : ℕ) (h : Hub) (p : Publication) → HubFits k h → HubFits k (publish h p).0
unfolding publish
publish-HubFits k h p (size, room, fits) = (
  size,
  subst (λ n. length (deque_append n h.buffer (publish h p).1) ≤ k) (sym size)
      (deque_append-fits k h.buffer (publish h p).1 room),
  fan_out-QueuesFit _ h.subscribers fits,
)

take_queued-Fits :
    (k : ℕ) (s : Session) (sub : Subscription) (q : List Envelope)
    → Fits k s
    → length q ≤ max_queue
    → Fits k (take_queued s sub q)
take_queued-Fits k s sub [] f h = f
take_queued-Fits k s sub (e ∷ rest) ((size, room, fits), to_go) h =
    elim (Bool-cases (subscription_matches sub e)) [
      | inl matched ↦
          rw matched
            ((size, room, store-QueuesFit _ s.hub.subscribers (omega (arith, h)) fits), to_go)
      | inr unmatched ↦
          rw unmatched
            ((size, room, store-QueuesFit _ s.hub.subscribers (omega (arith, h)) fits), to_go)
    ]

own-Fits :
    (k : ℕ) (s : Session) (o : Option Subscription)
    → own_subscription s ≡ o
    → Fits k s
    → Fits k (take_live s o) × Fits k (start_replay s o)
unfolding replay
own-Fits k s none h f = (f, f)
own-Fits k s (some sub) h ((size, room, fits), to_go) =
    let short = find-fits s.sid s.hub.subscribers sub fits h in
    (
      take_queued-Fits k s sub sub.queue ((size, room, fits), to_go) short,
      (
        (size, room, store-QueuesFit _ s.hub.subscribers short fits),
        omega (arith, room, length-keep_if (subscription_matches sub) s.hub.buffer),
      ),
    )

advance-Fits : (k : ℕ) (s : Session) → Fits k s → Fits k (advance s)
unfolding advance
advance-Fits k s f = turn s.phase refl
  where
    turn : (ph : Phase) → s.phase ≡ ph → Fits k (advance_in ph s)
    turn opening e = (f.0, omega arith)
    turn opened e = (own-Fits k s (own_subscription s) refl f).1
    turn (replaying []) e = (f.0, omega arith)
    turn (replaying (d ∷ es)) e = (f.0, omega (arith, ap (λ ph. length (remaining ph)) e, f.1))
    turn live e = (own-Fits k s (own_subscription s) refl f).0
    turn closed e = f

time_out-Fits : (k : ℕ) (s : Session) (ph : Phase) → Fits k s → Fits k (time_out_in ph s)
time_out-Fits k s opening f = f
time_out-Fits k s opened f = f
time_out-Fits k s (replaying es) f = f
time_out-Fits k s live f = f
time_out-Fits k s closed f = f

unsubscribe-HubFits : (k : ℕ) (h : Hub) (sid : ℕ) → HubFits k h → HubFits k (unsubscribe h sid)
unfolding unsubscribe
unsubscribe-HubFits k h sid (size, room, fits) =
    (size, room, discard-QueuesFit sid h.subscribers fits)

close-Fits : (k : ℕ) (s : Session) (ph : Phase) → Fits k s → Fits k (close_in ph s)
close-Fits k s opening f = (f.0, omega arith)
close-Fits k s opened f = (unsubscribe-HubFits k s.hub s.sid f.0, omega arith)
close-Fits k s (replaying es) f = (unsubscribe-HubFits k s.hub s.sid f.0, omega arith)
close-Fits k s live f = (unsubscribe-HubFits k s.hub s.sid f.0, omega arith)
close-Fits k s closed f = f

pub subscribe-HubFits :
    (k : ℕ) (h : Hub) (channels : Option (List String)) (namespaces : Option (List (List String)))
    (since : Option ℤ)
    → HubFits k h
    → HubFits k (subscribe h channels namespaces since).0
unfolding subscribe
subscribe-HubFits k h channels namespaces since (size, room, fits) =
    (size, room, (omega arith, fits))

step-Fits : (k : ℕ) (s : Session) (a : Action) → Fits k s → Fits k (step s a)
unfolding step
step-Fits k s (publishes p) f = (publish-HubFits k s.hub p f.0, f.1)
step-Fits k s advances f = advance-Fits k s f
step-Fits k s times_out f = time_out-Fits k s s.phase f
step-Fits k s disconnects f = close-Fits k s s.phase f
step-Fits k s (joins channels namespaces since) f =
    (subscribe-HubFits k s.hub channels namespaces since f.0, f.1)
step-Fits k s (leaves sid) f = (unsubscribe-HubFits k s.hub sid f.0, f.1)

-- Whatever the steps, publications, turns, timeouts, disconnection and other consumers among them:
-- on a hub whose buffer and queues are within their bounds, the buffer keeps to its size, every
-- queue to `max_queue`, and the replay of the stream has no more to send than the buffer can hold.
pub run-Fits : (k : ℕ) (s : Session) (acts : List Action) → Fits k s → Fits k (run s acts)
unfolding run
run-Fits k s [] f = f
run-Fits k s (a ∷ acts) f = run-Fits k (step s a) acts (step-Fits k s a f)
