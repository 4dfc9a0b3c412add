-- ===== src/Stream/Encoding.antt =====
-- router.py, `gen`: the events that it hands to `sse_block`, and its end when that raises.
use fastapi_agent_protocol.Base.{
  String, ◌≡◌, ◌≢◌, refl, subst, sym, ap, ◌∙◌, ◌⊎◌, inl, inr, Bool, true, false, Bool-cases, Option,
  none, some, List, [], ◌∷◌, ◌++◌, if◌then◌else◌, append_assoc, All, All-append, arith,
}
use mathlib.Core.List.{append-nil}
use fastapi_agent_protocol.Failure.{Result, is_ok}
use fastapi_agent_protocol.Subscription.{Envelope, Subscription, subscription_matches}
use fastapi_agent_protocol.Stream.{
  Session, Block, connected, heartbeat, event, Phase, opening, opened, replaying, live, closed,
  Action, publishes, advances, times_out, disconnects, joins, leaves, sse_block, advance, step, run,
  own_subscription, close_in, take_queued, take_live, start_replay, advance_in, time_out_in,
}
use fastapi_agent_protocol.Stream.Following.{sent, sent-append}

abbrev first_wanted : Subscription → List Envelope → Option Envelope
first_wanted sub [] = none
first_wanted sub (e ∷ rest) = if subscription_matches sub e then some e else none

abbrev queued_event : Option Subscription → Option Envelope
queued_event none = none
queued_event (some sub) = first_wanted sub sub.queue

abbrev event_in : Phase → Session → Option Envelope
event_in (replaying (e ∷ es)) s = some e
event_in live s = queued_event (own_subscription s)
event_in _ s = none

-- The event that the generator hands to `sse_block` in a step.
abbrev pub handed : Session → Action → Option Envelope
handed s advances = event_in s.phase s
handed s _ = none

abbrev pub has_text : (Envelope → Result String) → Envelope → Bool
has_text dumps e = is_ok (sse_block dumps e)

abbrev pub is_encoded : (Envelope → Result String) → Option Envelope → Bool
is_encoded dumps none = true
is_encoded dumps (some e) = has_text dumps e

-- A step of the generator: what `sse_block` raises goes through its `finally` and ends it, with
-- nothing sent.
unfoldable pub encoded_step : (Envelope → Result String) → Session → Action → Session
encoded_step dumps s a = if is_encoded dumps (handed s a) then step s a else close_in s.phase s

unfoldable pub encoded_run : (Envelope → Result String) → Session → List Action → Session
unfolding encoded_step
encoded_run dumps s [] = s
encoded_run dumps s (a ∷ acts) = encoded_run dumps (encoded_step dumps s a) acts

abbrev event_list : Option Envelope → List Envelope
event_list none = []
event_list (some e) = e ∷ []

sent-snoc : (bs : List Block) (b : Block) → sent (bs ++ b ∷ []) ≡ sent bs ++ sent (b ∷ [])
sent-snoc bs b = sent-append bs (b ∷ [])

taken-sent :
    (s : Session) (sub : Subscription) (q : List Envelope)
    → sent (take_queued s sub q).out ≡ sent s.out ++ event_list (first_wanted sub q)
taken-sent s sub [] = sym (append-nil (sent s.out))
taken-sent s sub (e ∷ rest) = elim (Bool-cases (subscription_matches sub e)) [
  | inl fits ↦ rw fits (sent-snoc s.out (event e))
  | inr differs ↦ rw differs (sym (append-nil (sent s.out)))
]

live-sent :
    (s : Session) (found : Option Subscription)
    → sent (take_live s found).out ≡ sent s.out ++ event_list (queued_event found)
live-sent s none = sym (append-nil (sent s.out))
live-sent s (some sub) = taken-sent s sub sub.queue

replay-sent :
    (s : Session) (found : Option Subscription) → sent (start_replay s found).out ≡ sent s.out ++ []
replay-sent s none = sym (append-nil (sent s.out))
replay-sent s (some sub) = sym (append-nil (sent s.out))

turn-sent :
    (ph : Phase) (s : Session)
    → sent (advance_in ph s).out ≡ sent s.out ++ event_list (event_in ph s)
turn-sent opening s = sent-snoc s.out connected
turn-sent opened s = replay-sent s (own_subscription s)
turn-sent (replaying []) s = sym (append-nil (sent s.out))
turn-sent (replaying (e ∷ es)) s = sent-snoc s.out (event e)
turn-sent live s = live-sent s (own_subscription s)
turn-sent closed s = sym (append-nil (sent s.out))

timeout-sent : (ph : Phase) (s : Session) → sent (time_out_in ph s).out ≡ sent s.out ++ []
timeout-sent live s = sent-snoc s.out heartbeat
timeout-sent opening s = sym (append-nil (sent s.out))
timeout-sent opened s = sym (append-nil (sent s.out))
timeout-sent (replaying es) s = sym (append-nil (sent s.out))
timeout-sent closed s = sym (append-nil (sent s.out))

close-out : (ph : Phase) (s : Session) → (close_in ph s).out ≡ s.out
close-out opening s = refl
close-out opened s = refl
close-out (replaying es) s = refl
close-out live s = refl
close-out closed s = refl

-- A step sends the event that it hands to `sse_block`, and no other.
step-sent : (s : Session) (a : Action) → sent (step s a).out ≡ sent s.out ++ event_list (handed s a)
unfolding step advance
step-sent s advances = turn-sent s.phase s
step-sent s times_out = timeout-sent s.phase s
step-sent s disconnects = ap sent (close-out s.phase s) ∙ sym (append-nil (sent s.out))
step-sent s (publishes p) = sym (append-nil (sent s.out))
step-sent s (joins channels namespaces since) = sym (append-nil (sent s.out))
step-sent s (leaves sid) = sym (append-nil (sent s.out))

run-sent :
    (s : Session) (acts : List Action)
    → (more : List Envelope) × (sent (run s acts).out ≡ sent s.out ++ more)
unfolding run
run-sent s [] = ([], sym (append-nil (sent s.out)))
run-sent s (a ∷ acts) =
    let (more, is) = run-sent (step s a) acts in
    (
      event_list (handed s a) ++ more,
      is
          ∙ ap (λ es. es ++ more) (step-sent s a)
          ∙ append_assoc (sent s.out) (event_list (handed s a)) more,
    )

-- The generator has ended, and `before` is what was sent until then.
abbrev pub HasEnded : List Envelope → Session → Type 0
HasEnded before s = (s.phase ≡ closed) × (sent s.out ≡ before)

close-HasEnded : (ph : Phase) (s : Session) → s.phase ≡ ph → HasEnded (sent s.out) (close_in ph s)
close-HasEnded opening s at = (refl, refl)
close-HasEnded opened s at = (refl, refl)
close-HasEnded (replaying es) s at = (refl, refl)
close-HasEnded live s at = (refl, refl)
close-HasEnded closed s at = (at, refl)

module _ (dumps : Envelope → Result String) where
  encoded_step_fine :
      (s : Session) (a : Action)
      → is_encoded dumps (handed s a) ≡ true
      → encoded_step dumps s a ≡ step s a
  unfolding encoded_step
  encoded_step_fine s a fine = rw fine refl

  encoded_step_fails :
      (s : Session) (a : Action)
      → is_encoded dumps (handed s a) ≡ false
      → encoded_step dumps s a ≡ close_in s.phase s
  unfolding encoded_step
  encoded_step_fails s a fails = rw fails refl

  ended_step :
      (s : Session) (a : Action) → s.phase ≡ closed → HasEnded (sent s.out) (encoded_step dumps s a)
  unfolding encoded_step step advance
  ended_step s advances ended = rw ended (refl, refl)
  ended_step s times_out ended = rw ended (refl, refl)
  ended_step s disconnects ended = rw ended (refl, refl)
  ended_step s (publishes p) ended = (ended, refl)
  ended_step s (joins channels namespaces since) ended = (ended, refl)
  ended_step s (leaves sid) ended = (ended, refl)

  ended_run :
      (before : List Envelope) (s : Session) (acts : List Action)
      → HasEnded before s
      → HasEnded before (encoded_run dumps s acts)
  unfolding encoded_run
  ended_run before s [] h = h
  ended_run before s (a ∷ acts) (ended, same) =
      let (still, kept) = ended_step s a ended in
      ended_run before (encoded_step dumps s a) acts (still, kept ∙ same)

  abbrev pub HasText : Envelope → Type 0
  HasText e = has_text dumps e ≡ true

  -- Every event that `gen` hands to `sse_block` has a text.
  abbrev pub IsWhole : Session → List Action → Type 0
  IsWhole s acts = (encoded_run dumps s acts ≡ run s acts) × All HasText (sent (run s acts).out)

  -- The first event without a text ends `gen`.
  abbrev pub IsCut : Session → List Action → Type 0
  IsCut s acts =
      (before : List Envelope) × (e : Envelope) × (rest : List Envelope) × (sent (run s acts).out
        ≡ before ++ e ∷ rest)
      × All HasText before
      × (has_text dumps e ≡ false)
      × HasEnded before (encoded_run dumps s acts)

  handed-IsCut :
      (s : Session) (a : Action) (acts : List Action) (found : Option Envelope)
      → All HasText (sent s.out)
      → handed s a ≡ found
      → is_encoded dumps found ≡ false
      → IsCut s (a ∷ acts)
  unfolding encoded_run run
  handed-IsCut s a acts none texts h never = absurd (ground arith)
  handed-IsCut s a acts (some e) texts h fails =
      let (more, is) = run-sent (step s a) acts in
      (
        sent s.out,
        e,
        more,
        is
            ∙ ap (λ es. es ++ more) (step-sent s a ∙ ap (λ o. sent s.out ++ event_list o) h)
            ∙ append_assoc (sent s.out) (e ∷ []) more,
        texts,
        fails,
        subst (λ t. HasEnded (sent s.out) (encoded_run dumps t acts))
            (sym (encoded_step_fails s a (ap (is_encoded dumps) h ∙ fails)))
            (ended_run (sent s.out) (close_in s.phase s) acts (close-HasEnded s.phase s refl)),
      )

  handed-HasText :
      (found : Option Envelope) → is_encoded dumps found ≡ true → All HasText (event_list found)
  handed-HasText none h = tt
  handed-HasText (some e) h = (h, tt)

  -- What `sse_block` may raise decides how a stream goes, for every `json.dumps`. Either each event
  -- that the steps hand to it has a text, and they run as if it could not raise; or the steps send
  -- the events before the first one without a text, all with their texts, and the generator ends
  -- there and sends nothing more, whatever was to follow. The events sent before the steps had texts.
  pub encoded_run-IsCut :
      (s : Session) (acts : List Action) → All HasText (sent s.out) → IsWhole s acts ⊎ IsCut s acts
  unfolding encoded_run run
  encoded_run-IsCut s [] texts = inl (refl, texts)
  encoded_run-IsCut s (a ∷ acts) texts = elim (Bool-cases (is_encoded dumps (handed s a))) [
    | inr fails ↦ inr (handed-IsCut s a acts (handed s a) texts refl fails)
    | inl fine ↦
        let same = sym (encoded_step_fine s a fine) in
        let more = handed-HasText (handed s a) fine in
        elim (encoded_run-IsCut (step s a) acts (
          subst (All HasText) (sym (step-sent s a))
            (All-append HasText (sent s.out) (event_list (handed s a)) texts more))) [
              | inl (is, all) ↦ inl (ap (λ t. encoded_run dumps t acts) (sym same) ∙ is, all)
              | inr (before, e, rest, is, had, fails, ended) ↦ inr (
                before,
                e,
                rest,
                is,
                had,
                fails,
                subst (λ t. HasEnded before (encoded_run dumps t acts)) same ended,
              )
            ]
  ]

  failing_is_no_text :
      (before : List Envelope) (e : Envelope) (rest : List Envelope)
      → All HasText (before ++ e ∷ rest)
      → has_text dumps e ≢ false
  failing_is_no_text [] e rest (h, hs) fails = absurd (ground arith)
  failing_is_no_text (d ∷ before) e rest (h, hs) fails = failing_is_no_text before e rest hs fails

  -- Where each event that the steps would send has a text, nothing is raised.
  pub encoded_run_whole :
      (s : Session) (acts : List Action)
      → sent s.out ≡ []
      → All HasText (sent (run s acts).out)
      → encoded_run dumps s acts ≡ run s acts
  encoded_run_whole s acts new texts =
      elim (encoded_run-IsCut s acts (subst (All HasText) (sym new) tt)) [
        | inl (same, all) ↦ same
        | inr (before, e, rest, is, had, fails, ended) ↦
            absurd (failing_is_no_text before e rest (subst (All HasText) is texts) fails)
      ]

  -- What is sent is the beginning of what would be sent if nothing were raised.
  pub encoded_run-sent :
      (s : Session) (acts : List Action)
      → sent s.out ≡ []
      → (rest : List Envelope) × (sent (encoded_run dumps s acts).out ++ rest
          ≡ sent (run s acts).out)
  encoded_run-sent s acts new = elim (encoded_run-IsCut s acts (subst (All HasText) (sym new) tt)) [
    | inl (same, all) ↦ ([], append-nil _ ∙ ap (λ (t : Session). sent t.out) same)
    | inr (before, e, rest, is, had, fails, (ended, kept)) ↦
        (e ∷ rest, ap (λ b. b ++ e ∷ rest) kept ∙ sym is)
  ]
