-- ===== src/Stream/Turning.antt =====
-- router.py, `gen`: every turn, and every other step after the replay, keeps what the consumer is due.
use mathlib.Core.List.{append-nil}
use fastapi_agent_protocol.Base.{
  String, ℕ, ◌-◌, ◌<◌, ◌≡◌, refl, sym, ap, subst, ◌∙◌, ◌≢◌, Option, List, [], ◌∷◌, ◌++◌,
  append_assoc, arith, length, keep_if, if◌then◌else◌,
}
use fastapi_agent_protocol.Base.Int.{ℤ}
use fastapi_agent_protocol.Subscription.{Envelope, Subscription, subscription_matches}
use fastapi_agent_protocol.Hub.{
  Publication, publish, subscribe, unsubscribe, max_queue, find_subscription,
}
use fastapi_agent_protocol.Stream.{
  Session, heartbeat, event, Phase, opening, opened, replaying, live, closed, advance, advance_in,
  take_live, take_queued, time_out_in,
}
use fastapi_agent_protocol.Stream.Delivery.{
  mark, queued, publish-Reads, matches-mark, subscribe-Reads, unsubscribe-Reads,
}
use fastapi_agent_protocol.Stream.Following.{
  sent, sent-append, passes, remaining, IsStarted, Follows, Following, load, Within, queued-pending,
  numbered, taken_head,
}

module _ {sub : Subscription} {due : List Envelope} {s : Session} {q : List Envelope} {c : ℕ}
    (f : Follows sub due s q c) where
  pub publish-Following :
      (p : Publication)
      → length q < max_queue
      → Following sub
          (due ++ keep_if (subscription_matches sub) ((publish s.hub p).1 ∷ []))
          (record s { hub = (publish s.hub p).0 })
  publish-Following p room = (
    queued sub q c e,
    c,
    record {
      reads = publish-Reads p f.reads;
      own = f.own;
      started = f.started;
      settled =
          rw
            (
              queued-pending sub q c e room,
              ← append_assoc (remaining s.phase) (keep_if (passes sub c) q) _,
              ← append_assoc (sent s.out) _ (keep_if (passes sub c) (e ∷ [])),
              f.settled,
            )
            (ap (λ b. due ++ (if b then e ∷ [] else []))
              (matches-mark e f.reads (numbered s.hub p)));
    },
  )
    where
      e : Envelope
      e = (publish s.hub p).1

  replayed-Within :
      (es : List Envelope)
      → s.phase ≡ replaying es
      → Within sub due (advance_in (replaying es) s) (load s.phase q - 1)
  replayed-Within [] e = (
    q,
    c,
    record {
      reads = f.reads;
      own = f.own;
      started = tt;
      settled =
          ap (λ ph. sent s.out ++ (remaining ph ++ keep_if (passes sub c) q)) (sym e) ∙ f.settled;
    },
    omega (arith, ap (λ ph. load ph q) e),
  )
  replayed-Within (d ∷ es) e = (
    q,
    c,
    record {
      reads = f.reads;
      own = f.own;
      started = tt;
      settled =
          rw (sent-append s.out (event d ∷ []), append_assoc)
            (ap (λ ph. sent s.out ++ (remaining ph ++ keep_if (passes sub c) q)) (sym e)
              ∙ f.settled);
    },
    omega (arith, ap (λ ph. load ph q) e),
  )

  pub timed_out-Following : Following sub due (time_out_in s.phase s)
  timed_out-Following = go s.phase refl
    where
      go : (ph : Phase) → s.phase ≡ ph → Following sub due (time_out_in ph s)
      go live e = (
        q,
        c,
        record {
          reads = f.reads;
          own = f.own;
          started = f.started;
          settled = rw (sent-append s.out (heartbeat ∷ []), append-nil) f.settled;
        },
      )
      go opening e = (q, c, f)
      go opened e = (q, c, f)
      go (replaying es) e = (q, c, f)
      go closed e = (q, c, f)

  pub joined-Following :
      (channels : Option (List String)) (namespaces : Option (List (List String)))
      (since : Option ℤ)
      → Following sub due (record s { hub = (subscribe s.hub channels namespaces since).0 })
  joined-Following channels namespaces since = (
    q,
    c,
    record {
      reads = subscribe-Reads channels namespaces since f.reads;
      own = f.own;
      started = f.started;
      settled = f.settled;
    },
  )

  pub left-Following :
      (other : ℕ) → other ≢ s.sid → Following sub due (record s { hub = unsubscribe s.hub other })
  left-Following other h = (
    q,
    c,
    record {
      reads = unsubscribe-Reads other (rw (← f.own) h) f.reads;
      own = f.own;
      started = f.started;
      settled = f.settled;
    },
  )

  taken-Within : s.phase ≡ live → Within sub due (advance_in live s) (load s.phase q - 1)
  taken-Within e =
      subst (λ o. Within sub due (take_live s o) (load s.phase q - 1))
        (sym (ap (λ i. find_subscription i s.hub.subscribers) f.own ∙ f.reads.found))
        (rw (ap (λ ph. load ph q) e) (go q f))
    where
      go :
          (q' : List Envelope)
          → Follows sub due s q' c
          → Within sub due (take_queued s (mark sub q' c) q') (length q' - 1)
      go [] g = ([], c, g, omega (arith, ap (λ ph. load ph []) e))
      go (d ∷ r) g = let (q', c', g', b) = taken_head d r e g in (q', c', g', omega (arith, b))

  pub advanced-Within : Within sub due (advance s) (load s.phase q - 1)
  unfolding advance
  advanced-Within = go s.phase refl f.started
    where
      go :
          (ph : Phase)
          → s.phase ≡ ph
          → IsStarted ph
          → Within sub due (advance_in ph s) (load s.phase q - 1)
      go opening e n = elim n [ ]
      go opened e n = elim n [ ]
      go (replaying es) e n = replayed-Within es e
      go live e n = taken-Within e
      go closed e n = elim n [ ]

  pub advanced-Following : Following sub due (advance s)
  advanced-Following = let (q', c', g, _) = advanced-Within in (q', c', g)
