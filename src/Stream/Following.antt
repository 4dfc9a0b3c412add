-- ===== src/Stream/Following.antt =====
-- router.py, `gen`: after the replay, what was sent, what the replay still holds and what the queue
-- will yield make up what the consumer is due.
use mathlib.Core.List.{append-nil}
use fastapi_agent_protocol.Base.{
  ℕ, ◌+◌, ◌≤◌, ◌<◌, ◌≡◌, refl, sym, ap, inl, inr, Bool, true, List, [], ◌∷◌, ◌++◌, append_assoc,
  arith, length, keep_if, keep_if-append, keep_if_congr, All, All-map, Bool-cases, lt→ltb,
}
use fastapi_agent_protocol.Subscription.{Envelope, Subscription, subscription_matches}
use fastapi_agent_protocol.Hub.{Hub, Publication, publish, max_queue, envelope_of}
use fastapi_agent_protocol.Stream.{
  Session, Block, connected, heartbeat, event, Phase, replaying, live, take_event,
}
use fastapi_agent_protocol.Stream.Delivery.{Reads, mark, queued, store-Reads}

-- The events among the blocks that were sent.
abbrev pub sent : List Block → List Envelope
sent [] = []
sent (event e ∷ bs) = e ∷ sent bs
sent (connected ∷ bs) = sent bs
sent (heartbeat ∷ bs) = sent bs

pub sent-append : (xs ys : List Block) → sent (xs ++ ys) ≡ sent xs ++ sent ys
sent-append [] ys = refl
sent-append (event e ∷ xs) ys = ap (λ (r : List Envelope). e ∷ r) (sent-append xs ys)
sent-append (connected ∷ xs) ys = sent-append xs ys
sent-append (heartbeat ∷ xs) ys = sent-append xs ys

-- What `sub` lets through once its cursor stands at `c`.
abbrev pub passes : Subscription → ℕ → Envelope → Bool
passes sub c = subscription_matches (mark sub [] c)

abbrev pub remaining : Phase → List Envelope
remaining (replaying es) = es
remaining _ = []

abbrev pub IsStarted : Phase → Type 0
IsStarted (replaying es) = Unit
IsStarted live = Unit
IsStarted _ = ⊥

-- `due` is what has been sent, what the replay still holds, and what the queue will yield.
pub record Follows (sub : Subscription) (due : List Envelope) (s : Session) (q : List Envelope)
    (c : ℕ) : Type 0 where
  pub reads : Reads sub s.hub q c
  pub own : s.sid ≡ sub.sid
  pub started : IsStarted s.phase
  pub settled : sent s.out ++ (remaining s.phase ++ keep_if (passes sub c) q) ≡ due

abbrev pub Following : Subscription → List Envelope → Session → Type 0
Following sub due s = (q : List Envelope) × (c : ℕ) × Follows sub due s q c

-- How many turns it takes to send all that is due.
abbrev pub load : Phase → List Envelope → ℕ
load (replaying es) q = length es + 1 + length q
load _ q = length q

-- As `Following`, with at most `n` turns to go.
abbrev pub Within : Subscription → List Envelope → Session → ℕ → Type 0
Within sub due s n = (q : List Envelope) × (c : ℕ) × Follows sub due s q c × (load s.phase q ≤ n)

pub queued-pending :
    (sub : Subscription) (q : List Envelope) (c : ℕ) (e : Envelope)
    → length q < max_queue
    → keep_if (passes sub c) (queued sub q c e)
      ≡ keep_if (passes sub c) q ++ keep_if (passes sub c) (e ∷ [])
unfolding subscription_matches
queued-pending sub q c e room = elim (Bool-cases (passes sub c e)) [
  | inl fits ↦ rw (fits, lt→ltb _ _ room, keep_if-append (passes sub c) q (e ∷ []), fits)
  | inr differs ↦ rw differs (sym (append-nil _))
]

-- Once the cursor stands at an event of a rising queue, the filter of the rest is what it was.
passes-later :
    (sub : Subscription) (c : ℕ) (e : Envelope) (q : List Envelope)
    → passes sub c e ≡ true
    → All (λ d. e.seq < d.seq) q
    → keep_if (passes sub e.seq) q ≡ keep_if (passes sub c) q
unfolding subscription_matches
passes-later sub c e q fits later = keep_if_congr _ _ q (All-map (λ d h. ground arith) q later)

pub numbered : (h : Hub) (p : Publication) → h.seq < (publish h p).1.seq
unfolding publish envelope_of
numbered h p = omega arith

passes-lt : (sub : Subscription) (c : ℕ) (e : Envelope) → passes sub c e ≡ true → c < e.seq
unfolding subscription_matches
passes-lt sub c e h = ground arith

-- The queue's head is taken: it is sent if it passes, and the rest of the queue stays due.
pub taken_head :
    {sub : Subscription} {due : List Envelope} {s : Session} (e : Envelope) (q : List Envelope)
    {c : ℕ}
    → s.phase ≡ live
    → Follows sub due s (e ∷ q) c
    → Within sub due (take_event s (mark sub (e ∷ q) c) e q) (length q)
unfolding subscription_matches
taken_head {sub} {due} {s} e q {c} at_live f = elim (Bool-cases (passes sub c e)) [
  | inl fits ↦ rw fits (
    q,
    e.seq,
    record {
      reads =
          store-Reads f.reads f.reads.rising.1 f.reads.bounded.1
            (inr (ground (arith, passes-lt sub c e fits, f.reads.cursor), f.reads.bounded.0));
      own = f.own;
      started = f.started;
      settled =
          rw
            (
              none_left,
              sent-append s.out (event e ∷ []),
              append_assoc (sent s.out),
              passes-later sub c e q fits f.reads.rising.0,
            )
            (rw (none_left, fits) at f.settled);
    },
    unloaded,
  )
  | inr differs ↦ rw differs (
    q,
    c,
    record {
      reads = store-Reads f.reads f.reads.rising.1 f.reads.bounded.1 f.reads.cursor;
      own = f.own;
      started = f.started;
      settled = rw differs at f.settled;
    },
    unloaded,
  )
]
  where
    none_left : remaining s.phase ≡ []
    none_left = ap remaining at_live

    unloaded : load s.phase q ≤ length q
    unloaded = omega (arith, ap (λ ph. load ph q) at_live)
