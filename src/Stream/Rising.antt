-- ===== src/Stream/Rising.antt =====
-- Lists of envelopes whose numbers rise.
use fastapi_agent_protocol.Base.{
  true, ℕ, zero, suc, Bool-cases, ◌+◌, ◌≤◌, ◌<◌, ◌≡◌, refl, ◌⊎◌, inl, inr, List, [], ◌∷◌, ◌++◌,
  arith, length, drop, keep_if, All, All-map, All-append, Bool,
}
use fastapi_agent_protocol.Subscription.{Envelope}
use fastapi_agent_protocol.Hub.{last_seq_of}
use fastapi_agent_protocol.Hub.Retention.{Numbered}

-- The numbers rise along the list.
abbrev pub Rising : List Envelope → Type 0
Rising [] = Unit
Rising (e ∷ es) = All (λ d. e.seq < d.seq) es × Rising es

pub Rising-append :
    (es : List Envelope) (e : Envelope)
    → Rising es
    → All (λ d. d.seq < e.seq) es
    → Rising (es ++ e ∷ [])
Rising-append [] e r b = (tt, tt)
Rising-append (d ∷ es) e r b = (All-append _ es (e ∷ []) r.0 (b.0, tt), Rising-append es e r.1 b.1)

pub last_bounds :
    (lo n c : ℕ) (es : List Envelope)
    → All (λ e. (lo ≤ e.seq) × (e.seq ≤ n)) es
    → (last_seq_of c es ≡ c) ⊎ ((lo ≤ last_seq_of c es) × (last_seq_of c es ≤ n))
last_bounds lo n c [] h = inl refl
last_bounds lo n c (e ∷ es) h = ground (arith, last_bounds lo n e.seq es h.1)

last-le : (k : ℕ) (es : List Envelope) → Rising es → All (λ e. k < e.seq) es → k ≤ last_seq_of k es
last-le k [] r h = omega arith
last-le k (e ∷ es) r h = omega (arith, last-le e.seq es r.1 r.0)

-- The last number of a rising list is the greatest.
pub last_max : (c : ℕ) (es : List Envelope) → Rising es → All (λ e. e.seq ≤ last_seq_of c es) es
last_max c [] r = tt
last_max c (e ∷ es) r = (last-le e.seq es r.1 r.0, last_max e.seq es r.1)

pub All-keep_if :
    (P : Envelope → Type 0) (p : Envelope → Bool) (es : List Envelope)
    → All P (keep_if p es)
    → All (λ e. p e ≡ true → P e) es
All-keep_if P p [] h = tt
All-keep_if P p (e ∷ es) h = elim (Bool-cases (p e)) [
  | inl fits ↦
      let both : All P (e ∷ keep_if p es) = rw fits at h in
      ((λ _. both.0), All-keep_if P p es both.1)
  | inr differs ↦
      let others : All P (keep_if p es) = rw differs at h in
      ((λ fits. cc), All-keep_if P p es others)
]

pub keep_if-All :
    (P : Envelope → Type 0) (p : Envelope → Bool) (es : List Envelope)
    → All (λ e. p e ≡ true → P e) es
    → All P (keep_if p es)
keep_if-All P p [] h = tt
keep_if-All P p (e ∷ es) h = elim (Bool-cases (p e)) [
  | inl fits ↦ rw fits (h.0 fits, keep_if-All P p es h.1)
  | inr differs ↦ rw differs (keep_if-All P p es h.1)
]

pub keep_if-Rising : (p : Envelope → Bool) (es : List Envelope) → Rising es → Rising (keep_if p es)
keep_if-Rising p [] r = tt
keep_if-Rising p (e ∷ es) r = elim (Bool-cases (p e)) [
  | inl fits ↦
      rw fits (
        keep_if-All (λ d. e.seq < d.seq) p es (All-map (λ d h _. h) es r.0),
        keep_if-Rising p es r.1,
      )
  | inr differs ↦ rw differs (keep_if-Rising p es r.1)
]

pub All-suffix : (P : Envelope → Type 0) (xs ys : List Envelope) → All P (xs ++ ys) → All P ys
All-suffix P [] ys h = h
All-suffix P (x ∷ xs) ys h = All-suffix P xs ys h.1

pub Numbered-Rising :
    (k : ℕ) (es : List Envelope) → Numbered k es → All (λ e. k < e.seq) es × Rising es
Numbered-Rising k [] h = (tt, tt)
Numbered-Rising k (e ∷ es) h =
    let (above, rises) = Numbered-Rising (suc k) es h.1 in
    (
      (omega arith, All-map (λ d b. omega arith) es above),
      (All-map (λ d b. omega arith) es above, rises),
    )

pub Numbered-bounded :
    (k : ℕ) (es : List Envelope) → Numbered k es → All (λ e. e.seq ≤ k + length es) es
Numbered-bounded k [] h = tt
Numbered-bounded k (e ∷ es) h =
    (omega arith, All-map (λ d b. omega arith) es (Numbered-bounded (suc k) es h.1))

pub drop-Rising : (n : ℕ) (es : List Envelope) → Rising es → Rising (drop n es)
drop-Rising zero es r = r
drop-Rising (suc n) [] r = tt
drop-Rising (suc n) (e ∷ es) r = drop-Rising n es r.1
