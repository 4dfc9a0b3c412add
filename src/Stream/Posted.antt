-- ===== src/Stream/Posted.antt =====
-- hub.py and router.py: the envelopes that the steps of a stream publish, by their numbers.
use fastapi_agent_protocol.Base.{ℕ, ◌+◌, ◌≡◌, refl, ap, ◌∙◌, List, [], ◌∷◌, ◌++◌, arith, length}
use fastapi_agent_protocol.Subscription.{Envelope}
use fastapi_agent_protocol.Hub.{Hub, Publication, publish, envelope_of, subscribe, unsubscribe}
use fastapi_agent_protocol.Hub.Retention.{publish_all, published}
use fastapi_agent_protocol.Stream.{
  Session, Phase, opening, opened, replaying, live, closed, Action, publishes, advances, times_out,
  disconnects, joins, leaves, advance, step, advance_in, time_out_in, close_in,
}
use fastapi_agent_protocol.Stream.ExactOnce.{broadcast}

-- The publications among the steps of a stream.
abbrev pub posted : List Action → List Publication
posted [] = []
posted (publishes p ∷ acts) = p ∷ posted acts
posted (a ∷ acts) = posted acts

-- The envelopes of publications on a hub whose last number is `n`.
unfoldable pub envelopes_from : ℕ → List Publication → List Envelope
envelopes_from n [] = []
envelopes_from n (p ∷ ps) = envelope_of (n + 1) p ∷ envelopes_from (n + 1) ps

pub published-envelopes_from :
    (h : Hub) (ps : List Publication) → published h ps ≡ envelopes_from h.seq ps
unfolding published envelopes_from publish
published-envelopes_from h [] = refl
published-envelopes_from h (p ∷ ps) =
    ap (λ r. envelope_of (h.seq + 1) p ∷ r) (published-envelopes_from (publish h p).0 ps)

pub seq-publish_all : (h : Hub) (ps : List Publication) → (publish_all h ps).seq ≡ h.seq + length ps
unfolding publish_all publish
seq-publish_all h [] = omega arith
seq-publish_all h (p ∷ ps) = omega (arith, seq-publish_all (publish h p).0 ps)

pub envelopes_from-append :
    (n : ℕ) (xs ys : List Publication)
    → envelopes_from n (xs ++ ys) ≡ envelopes_from n xs ++ envelopes_from (n + length xs) ys
unfolding envelopes_from
envelopes_from-append n [] ys = ap (λ k. envelopes_from k ys) (omega arith)
envelopes_from-append n (x ∷ xs) ys =
    ap (λ r. envelope_of (n + 1) x ∷ r)
      (envelopes_from-append (n + 1) xs ys
        ∙ ap (λ k. envelopes_from (n + 1) xs ++ envelopes_from k ys) (omega arith))

-- No turn of the generator publishes anything.
pub seq-advance : (s : Session) → (advance s).hub.seq ≡ s.hub.seq
unfolding advance
seq-advance s = turn s.phase
  where
    turn : (ph : Phase) → (advance_in ph s).hub.seq ≡ s.hub.seq
    turn opening = refl
    turn opened = ground arith
    turn (replaying []) = refl
    turn (replaying (e ∷ es)) = refl
    turn live = ground arith
    turn closed = refl

seq-time_out : (s : Session) → (time_out_in s.phase s).hub.seq ≡ s.hub.seq
seq-time_out s = ground arith

seq-close : (s : Session) → (close_in s.phase s).hub.seq ≡ s.hub.seq
unfolding unsubscribe
seq-close s = ground arith

pub broadcast-envelopes_from :
    (s : Session) (acts : List Action) → broadcast s acts ≡ envelopes_from s.hub.seq (posted acts)
unfolding envelopes_from publish step subscribe unsubscribe
broadcast-envelopes_from s [] = refl
broadcast-envelopes_from s (publishes p ∷ acts) =
    ap (λ r. envelope_of (s.hub.seq + 1) p ∷ r)
      (broadcast-envelopes_from (step s (publishes p)) acts)
broadcast-envelopes_from s (advances ∷ acts) =
    broadcast-envelopes_from (step s advances) acts
    ∙ ap (λ n. envelopes_from n (posted acts)) (seq-advance s)
broadcast-envelopes_from s (times_out ∷ acts) =
    broadcast-envelopes_from (step s times_out) acts
    ∙ ap (λ n. envelopes_from n (posted acts)) (seq-time_out s)
broadcast-envelopes_from s (disconnects ∷ acts) =
    broadcast-envelopes_from (step s disconnects) acts
    ∙ ap (λ n. envelopes_from n (posted acts)) (seq-close s)
broadcast-envelopes_from s (joins channels namespaces since ∷ acts) =
    broadcast-envelopes_from (step s (joins channels namespaces since)) acts
broadcast-envelopes_from s (leaves sid ∷ acts) = broadcast-envelopes_from (step s (leaves sid)) acts
