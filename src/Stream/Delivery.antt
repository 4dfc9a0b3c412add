-- ===== src/Stream/Delivery.antt =====
-- hub.py: what the hub's operations do to one subscription, found under its identity.
use fastapi_agent_protocol.Base.{
  true, Option, String, ℕ, ◌+◌, ◌≤◌, ◌<◌, ◌≡◌, refl, ap, ◌∙◌, ◌≢◌, ◌⊎◌, inl, inr, some, List, [],
  ◌∷◌, ◌++◌, arith, ltb, nat_eq, length, All, All-append, All-map, if◌then◌else◌, Bool-cases,
}
use fastapi_agent_protocol.Base.Int.{ℤ}
use fastapi_agent_protocol.Subscription.{Envelope, Subscription, subscription_matches}
use fastapi_agent_protocol.Stream.Rising.{Rising, Rising-append}
use fastapi_agent_protocol.Hub.Retention.{publish_all, published}
use fastapi_agent_protocol.Hub.{
  subscribe, unsubscribe, Hub, Publication, publish, envelope_of, deliver, put_nowait, fan_out,
  max_queue, discard, find_subscription, store_subscription,
}

sid-deliver : (e : Envelope) (s : Subscription) → (deliver e s).sid ≡ s.sid
unfolding deliver put_nowait
sid-deliver e s = ground arith

find-fan_out :
    (sid : ℕ) (e : Envelope) (subs : List Subscription) {s : Subscription}
    → find_subscription sid subs ≡ some s
    → find_subscription sid (fan_out e subs) ≡ some (deliver e s)
unfolding find_subscription fan_out
find-fan_out sid e [] h = cc
find-fan_out sid e (t ∷ subs) {s} h =
    ground (arith, sid-deliver e t, find-fan_out sid e subs {s = s})

find-store :
    (sid : ℕ) (s : Subscription) (subs : List Subscription) {t : Subscription}
    → find_subscription sid subs ≡ some t
    → s.sid ≡ sid
    → find_subscription sid (store_subscription s subs) ≡ some s
unfolding find_subscription store_subscription
find-store sid s [] h p = cc
find-store sid s (x ∷ subs) {t} h p = ground (arith, find-store sid s subs {t = t})

find-discard :
    (sid other : ℕ) (subs : List Subscription)
    → other ≢ sid
    → find_subscription sid (discard other subs) ≡ find_subscription sid subs
unfolding find_subscription discard
find-discard sid other [] h = refl
find-discard sid other (x ∷ subs) h = ground (arith, find-discard sid other subs h)

-- The subscription `sub` with the queue `q` and the cursor `c`.
abbrev pub mark : Subscription → List Envelope → ℕ → Subscription
mark sub q c = record sub { queue = q; last_seq = c }

-- `sub` stands in the hub with the queue `q` and the cursor `c`.
pub record Reads (sub : Subscription) (h : Hub) (q : List Envelope) (c : ℕ) : Type 0 where
  pub found : find_subscription sub.sid h.subscribers ≡ some (mark sub q c)
  pub known : sub.sid < h.next_sid
  pub rising : Rising q
  pub bounded : All (λ e. e.seq ≤ h.seq) q
  -- the cursor is still the client's, or has been moved to an event of the past
  pub cursor : (c ≡ sub.last_seq) ⊎ ((sub.last_seq ≤ c) × (c ≤ h.seq))

-- What a publication does to the queue.
abbrev pub queued : Subscription → List Envelope → ℕ → Envelope → List Envelope
queued sub q c e =
    if subscription_matches (mark sub q c) e
    then if ltb (length q) max_queue then q ++ e ∷ [] else q
    else q

deliver-mark :
    (sub : Subscription) (q : List Envelope) (c : ℕ) (e : Envelope)
    → deliver e (mark sub q c) ≡ mark sub (queued sub q c e) c
unfolding deliver put_nowait
deliver-mark sub q c e = ground arith

queued-cases :
    (P : List Envelope → Type 0) (sub : Subscription) (q : List Envelope) (c : ℕ) (e : Envelope)
    → P q
    → (subscription_matches (mark sub q c) e ≡ true → P (q ++ e ∷ []))
    → P (queued sub q c e)
queued-cases P sub q c e same more = elim (Bool-cases (subscription_matches (mark sub q c) e)) [
  | inl fits ↦ elim (Bool-cases (ltb (length q) max_queue)) [
    | inl room ↦ rw (fits, room) (more fits)
    | inr full ↦ rw (fits, full) same
  ]
  | inr differs ↦ rw differs same
]

pub publish-Reads :
    {sub : Subscription} {h : Hub} {q : List Envelope} {c : ℕ} (p : Publication)
    → Reads sub h q c
    → Reads sub (publish h p).0 (queued sub q c (publish h p).1) c
unfolding publish envelope_of
publish-Reads {sub} {h} {q} {c} p r = record {
  found =
      find-fan_out sub.sid (publish h p).1 h.subscribers r.found
      ∙ ap some (deliver-mark sub q c (publish h p).1);
  known = r.known;
  rising =
      queued-cases Rising sub q c _ r.rising
        (λ _. Rising-append q _ r.rising (All-map (λ e b. omega arith) q r.bounded));
  bounded =
      queued-cases (All (λ e. e.seq ≤ h.seq + 1)) sub q c _
        (All-map (λ e b. omega arith) q r.bounded)
        (λ _. All-append _ q (_ ∷ []) (All-map (λ e b. omega arith) q r.bounded) (omega arith, tt));
  cursor = ground (arith, r.cursor);
}

-- A new event passes the moved cursor exactly when it passes the client's.
pub matches-mark :
    {sub : Subscription} {h : Hub} {q : List Envelope} {c : ℕ} (e : Envelope)
    → Reads sub h q c
    → h.seq < e.seq
    → subscription_matches (mark sub [] c) e ≡ subscription_matches sub e
unfolding subscription_matches
matches-mark e r new = ground (arith, r.cursor)

pub subscribe-Reads :
    {sub : Subscription} {h : Hub} {q : List Envelope} {c : ℕ} (channels : Option (List String))
    (namespaces : Option (List (List String))) (since : Option ℤ)
    → Reads sub h q c
    → Reads sub (subscribe h channels namespaces since).0 q c
unfolding subscribe find_subscription
subscribe-Reads {sub} {h} channels namespaces since r = record {
  found = ground (arith, r.found, r.known);
  known = omega (arith, r.known);
  rising = r.rising;
  bounded = r.bounded;
  cursor = r.cursor;
}

pub unsubscribe-Reads :
    {sub : Subscription} {h : Hub} {q : List Envelope} {c : ℕ} (other : ℕ)
    → other ≢ sub.sid
    → Reads sub h q c
    → Reads sub (unsubscribe h other) q c
unfolding unsubscribe
unsubscribe-Reads {sub} {h} other ne r = record {
  found = find-discard sub.sid other h.subscribers ne ∙ r.found;
  known = r.known;
  rising = r.rising;
  bounded = r.bounded;
  cursor = r.cursor;
}

-- The consumer has written its subscription back with a shorter queue and a cursor moved on.
pub store-Reads :
    {sub : Subscription} {h : Hub} {q q' : List Envelope} {c c' : ℕ}
    → Reads sub h q c
    → Rising q'
    → All (λ e. e.seq ≤ h.seq) q'
    → (c' ≡ sub.last_seq) ⊎ ((sub.last_seq ≤ c') × (c' ≤ h.seq))
    → Reads sub (record h { subscribers = store_subscription (mark sub q' c') h.subscribers }) q' c'
store-Reads {sub} {h} {q'} {c'} r rises bound moved = record {
  found = find-store sub.sid (mark sub q' c') h.subscribers r.found refl;
  known = r.known;
  rising = rises;
  bounded = bound;
  cursor = moved;
}

-- The queue after some publications: it holds only what passes.
pub publish_all-Reads :
    (P : Envelope → Type 0) {sub : Subscription} {h : Hub} {q : List Envelope}
    (ps : List Publication)
    → Reads sub h q sub.last_seq
    → All P q
    → All (λ e. subscription_matches sub e ≡ true → P e) (published h ps)
    → (q' : List Envelope) × Reads sub (publish_all h ps) q' sub.last_seq × All P q'
unfolding publish_all published subscription_matches
publish_all-Reads P {q} [] r a b = (q, r, a)
publish_all-Reads P {sub} {h} {q} (p ∷ ps) r a b =
    publish_all-Reads P {h = (publish h p).0} {q = queued sub q sub.last_seq (publish h p).1} ps
      (publish-Reads p r)
      (queued-cases (All P) sub q sub.last_seq _ a
        (λ fits. All-append P q (_ ∷ []) a (b.0 fits, tt)))
      b.1
