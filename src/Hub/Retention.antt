-- ===== src/Hub/Retention.antt =====
-- hub.py, `publish`: the sequence numbers and the replay buffer over a thread's history.
use fastapi_agent_protocol.Base.{
  ℕ, suc, ◌+◌, ◌-◌, ◌≡◌, refl, sym, ap, List, [], ◌∷◌, ◌++◌, append-nil, append_assoc, arith, ltb,
  ltb→lt, ltb-false→le, length, length-append, length-drop, drop, drop-append, drop-suc, drop-nil,
  inl, inr, Bool-cases,
}
use fastapi_agent_protocol.Subscription.{Envelope}
use fastapi_agent_protocol.Hub.{Hub, new_hub, Publication, publish, envelope_of, deque_append}

-- The events have the numbers k + 1, k + 2, and so on.
abbrev pub Numbered : ℕ → List Envelope → Type 0
Numbered k [] = Unit
Numbered k (e ∷ es) = (e.seq ≡ suc k) × Numbered (suc k) es

-- `log` is everything that was published on the hub so far.
pub record Tracks (log : List Envelope) (h : Hub) : Type 0 where
  pub counted : h.seq ≡ length log
  pub numbered : Numbered 0 log
  pub retained : h.buffer ≡ drop (length log - h.replay_size) log

pub Numbered-append :
    (k : ℕ) (xs : List Envelope) (e : Envelope)
    → Numbered k xs
    → e.seq ≡ suc (k + length xs)
    → Numbered k (xs ++ e ∷ [])
Numbered-append k [] e h p = (omega arith, tt)
Numbered-append k (x ∷ xs) e h p = (h.0, Numbered-append (suc k) xs e h.1 (omega arith))

-- What a full or a growing deque keeps is the last `maxlen` elements.
deque_append-drop :
    (maxlen : ℕ) (log : List Envelope) (e : Envelope)
    → deque_append maxlen (drop (length log - maxlen) log) e
      ≡ drop (length (log ++ e ∷ []) - maxlen) (log ++ e ∷ [])
unfolding deque_append
deque_append-drop maxlen log e = elim (Bool-cases (ltb (length kept) maxlen)) [
  | inl room ↦
      let none_gone : length log - maxlen ≡ 0 = omega (arith, len, ltb→lt _ _ room) in
      let none_goes : length (log ++ e ∷ []) - maxlen ≡ 0 =
        omega (arith, len, ltb→lt _ _ room, grown) in
      rw (room, none_goes, none_gone)
  | inr full ↦
      let one_goes : length (log ++ e ∷ []) - maxlen ≡ suc (length log - maxlen) =
        omega (arith, len, ltb-false→le _ _ full, grown) in
      rw (full, one_goes, drop-suc (length log - maxlen) (log ++ e ∷ []))
        (ap (drop 1) (sym (drop-append (length log - maxlen) log (e ∷ []) (omega arith))))
]
  where
    kept : List Envelope
    kept = drop (length log - maxlen) log

    len : length kept ≡ length log - (length log - maxlen)
    len = length-drop (length log - maxlen) log

    grown : length (log ++ e ∷ []) ≡ length log + 1
    grown = length-append log (e ∷ [])

-- One publication extends the history by the envelope returned and keeps the hub in step with it.
pub publish-Tracks :
    (log : List Envelope) (h : Hub) (p : Publication)
    → Tracks log h
    → Tracks (log ++ (publish h p).1 ∷ []) (publish h p).0
unfolding publish envelope_of
publish-Tracks log h p t = record {
  counted = omega (arith, t.counted, length-append log ((publish h p).1 ∷ []));
  numbered = Numbered-append 0 log _ t.numbered (omega (arith, t.counted));
  retained = rw t.retained (deque_append-drop h.replay_size log (publish h p).1);
}

-- A hub after a list of publications, and the envelopes that they returned.
unfoldable pub publish_all : Hub → List Publication → Hub
publish_all h [] = h
publish_all h (p ∷ ps) = publish_all (publish h p).0 ps

unfoldable pub published : Hub → List Publication → List Envelope
published h [] = []
published h (p ∷ ps) = (publish h p).1 ∷ published (publish h p).0 ps

pub publish_all-Tracks :
    (log : List Envelope) (h : Hub) (ps : List Publication)
    → Tracks log h
    → Tracks (log ++ published h ps) (publish_all h ps)
unfolding publish_all published
publish_all-Tracks log h [] t = rw append-nil t
publish_all-Tracks log h (p ∷ ps) t =
    rw (← append_assoc log ((publish h p).1 ∷ []) (published (publish h p).0 ps)) (
      publish_all-Tracks (log ++ (publish h p).1 ∷ []) (publish h p).0 ps
        (publish-Tracks log h p t))

-- After any publications on a fresh hub, the events are numbered 1, 2, 3, … in the order of
-- publication, `current_seq` is their number, and the buffer holds exactly the last `replay_size`.
pub retention :
    (replay_size : ℕ) (ps : List Publication)
    → Tracks (published (new_hub replay_size) ps) (publish_all (new_hub replay_size) ps)
retention replay_size ps = publish_all-Tracks [] (new_hub replay_size) ps (record {
  counted = refl;
  numbered = tt;
  retained = sym (drop-nil {A = Envelope} (0 - replay_size));
})
