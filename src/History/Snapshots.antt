-- ===== src/History/Snapshots.antt =====
-- state.py, `read_thread_history`: the entry of each checkpoint in a page of the history.
use fastapi_agent_protocol.Base.{
  ℕ, zero, suc, length-append, String, ◌≡◌, refl, sym, ap, subst, ◌∙◌, Option, some, List, [], ◌∷◌,
  ◌++◌, map, append_assoc, length, get_elem?, arith,
}
use mathlib.Core.Path.{fun_ext}
use mathlib.Core.List.{reverse, reverse-cons, reverse-append}
use fastapi_agent_protocol.Base.Dict.{Dict}
use fastapi_agent_protocol.Failure.{Result, ok, err, ◌>>=◌}
use fastapi_agent_protocol.Value.{Value, Fields}
use fastapi_agent_protocol.History.{
  PendingWrite, CheckpointTuple, Snapshot, apply_write, apply_writes, snapshot_of, reconstruct,
  entry_of, history_of,
}

-- All writes of some checkpoints, in their order.
abbrev pub all_writes : List CheckpointTuple → List PendingWrite
all_writes [] = []
all_writes (t ∷ ts) = t.pending_writes ++ all_writes ts

-- The parts of a chain that has succeeded.
pub >>=-ok {ℓ κ} :
    {A : Type ℓ} {B : Type κ} {last : B} (first : Result A) (next : A → Result B)
    → (first >>= next) ≡ ok last
    → (reached : A) × (first ≡ ok reached) × (next reached ≡ ok last)
>>=-ok (ok reached) next done = (reached, refl, done)
>>=-ok (err e) next done = cc

>>=_assoc {ℓ κ μ} :
    {A : Type ℓ} {B : Type κ} {C : Type μ} (m : Result A) (f : A → Result B) (g : B → Result C)
    → ((m >>= f) >>= g) ≡ (m >>= λ a. f a >>= g)
>>=_assoc (ok a) f g = refl
>>=_assoc (err e) f g = refl

pub apply_writes-append :
    (d : Dict String Value) (xs ys : List PendingWrite)
    → apply_writes d (xs ++ ys) ≡ (apply_writes d xs >>= λ next. apply_writes next ys)
unfolding apply_writes
apply_writes-append d [] ys = refl
apply_writes-append d (x ∷ xs) ys =
    ap (λ f. apply_write d x >>= f) (fun_ext λ next. apply_writes-append next xs ys)
    ∙ sym
        (>>=_assoc (apply_write d x) (λ next. apply_writes next xs) (λ next. apply_writes next ys))

-- The last checkpoint of a walk: its snapshot comes last, with the values of all writes.
reconstruct-snoc :
    (d : Dict String Value) (ts : List CheckpointTuple) (t : CheckpointTuple) {all : List Snapshot}
    → reconstruct d (ts ++ t ∷ []) ≡ ok all
    → (before : List Snapshot) × (values : Dict String Value) × (reconstruct d ts ≡ ok before)
      × (apply_writes d (all_writes ts ++ t.pending_writes) ≡ ok values)
      × (all ≡ before ++ snapshot_of t values ∷ [])
unfolding reconstruct
reconstruct-snoc d [] t h =
    let (next, a, b) = >>=-ok (apply_writes d t.pending_writes) _ h in ([], next, refl, a, cc)
reconstruct-snoc d (u ∷ us) t h =
    let (next, a, b) = >>=-ok (apply_writes d u.pending_writes) _ h in
    let (rest, c, e) = >>=-ok (reconstruct next (us ++ t ∷ [])) _ b in
    let (before, values, p, q, r) = reconstruct-snoc next us t c in
    let walked : apply_writes d ((u.pending_writes ++ all_writes us) ++ t.pending_writes)
        ≡ ok values =
      ap (apply_writes d) (append_assoc u.pending_writes (all_writes us) t.pending_writes)
      ∙ apply_writes-append d u.pending_writes (all_writes us ++ t.pending_writes)
      ∙ ap (λ m. m >>= λ n. apply_writes n (all_writes us ++ t.pending_writes)) a
      ∙ q in
    (
      snapshot_of u next ∷ before,
      values,
      ap (λ m. m >>= λ n. reconstruct n us >>= λ q. ok (snapshot_of u n ∷ q)) a
          ∙ ap (λ m. m >>= λ q. ok (snapshot_of u next ∷ q)) p,
      walked,
      cc,
    )

reverse-snoc {ℓ} : {A : Type ℓ} (xs : List A) (x : A) → reverse (xs ++ x ∷ []) ≡ x ∷ reverse xs
reverse-snoc xs x = reverse-append xs (x ∷ [])

length-reverse {ℓ} : {A : Type ℓ} (xs : List A) → length (reverse xs) ≡ length xs
length-reverse [] = refl
length-reverse (x ∷ xs) =
    rw (reverse-cons x xs) (omega (arith, length-append (reverse xs) (x ∷ []), length-reverse xs))

length-reconstruct :
    (d : Dict String Value) (ts : List CheckpointTuple) {all : List Snapshot}
    → reconstruct d ts ≡ ok all
    → length all ≡ length ts
unfolding reconstruct
length-reconstruct d [] h = ground arith
length-reconstruct d (u ∷ us) h =
    let (next, a, b) = >>=-ok (apply_writes d u.pending_writes) _ h in
    let (rest, c, e) = >>=-ok (reconstruct next us) _ b in
    ground (arith, e, length-reconstruct next us c)

-- The snapshots of the newest checkpoints come first, and then the one of `t`.
reconstruct-newest :
    (newer older : List CheckpointTuple) (t : CheckpointTuple) (all : List Snapshot)
    → reconstruct [] (reverse (newer ++ t ∷ older)) ≡ ok all
    → (values : Dict String Value) × (apply_writes []
          (all_writes (reverse older) ++ t.pending_writes)
        ≡ ok values)
      × (get_elem? (reverse all) (length newer) ≡ some (snapshot_of t values))
reconstruct-newest [] older t all h =
    let (before, values, p, q, r) =
      reconstruct-snoc [] (reverse older) t
        (subst (λ ts. reconstruct [] ts ≡ ok all) (reverse-cons t older) h) in
    let first = ap reverse r ∙ reverse-snoc before (snapshot_of t values) in
    (values, q, ap (λ l. get_elem? l 0) first)
reconstruct-newest (n ∷ newer) older t all h =
    let (before, values, p, q, r) =
      reconstruct-snoc [] (reverse (newer ++ t ∷ older)) n
        (subst (λ ts. reconstruct [] ts ≡ ok all) (reverse-cons n (newer ++ t ∷ older)) h) in
    let (v, a, b) = reconstruct-newest newer older t before p in
    let first = ap reverse r ∙ reverse-snoc before (snapshot_of n values) in
    (v, a, ap (λ l. get_elem? l (suc (length newer))) first ∙ b)

get_elem?-map {ℓ κ} :
    {A : Type ℓ} {B : Type κ} (f : A → B) (xs : List A) (i : ℕ) {x : A}
    → get_elem? xs i ≡ some x
    → get_elem? (map f xs) i ≡ some (f x)
get_elem?-map f [] i h = cc
get_elem?-map f (y ∷ xs) zero h = cc
get_elem?-map f (y ∷ xs) (suc i) h = get_elem?-map f xs i h

length-map {ℓ κ} :
    {A : Type ℓ} {B : Type κ} (f : A → B) (xs : List A) → length (map f xs) ≡ length xs
length-map f [] = refl
length-map f (x ∷ xs) = omega (arith, length-map f xs)

module _ (message_to_dict : Value → Option (Fields × Value)) (repr : Value → String) where
  pub length-history_of :
      (tuples : List CheckpointTuple) (entries : List Fields)
      → history_of message_to_dict repr tuples ≡ ok entries
      → length entries ≡ length tuples
  unfolding history_of
  length-history_of tuples entries h =
      let (all, a, b) = >>=-ok (reconstruct [] (reverse tuples)) _ h in
      let made : map (entry_of message_to_dict repr) (reverse all) ≡ entries = cc in
      omega (
        arith,
        ap length made,
        length-map (entry_of message_to_dict repr) (reverse all),
        length-reverse all,
        length-reverse tuples,
        length-reconstruct [] (reverse tuples) a,
      )

  -- If a page of checkpoints is read without an error, it has one entry for each, in the order of
  -- the page, newest first. The entry of `t` has its id, its metadata, and the values that its own
  -- pending writes and those of the older checkpoints of the page add up to, the oldest first.
  pub history_of-entry :
      (newer older : List CheckpointTuple) (t : CheckpointTuple) (entries : List Fields)
      → history_of message_to_dict repr (newer ++ t ∷ older) ≡ ok entries
      → (values : Dict String Value) × (apply_writes []
            (all_writes (reverse older) ++ t.pending_writes)
          ≡ ok values)
        × (get_elem? entries (length newer)
            ≡ some (entry_of message_to_dict repr (snapshot_of t values)))
        × (length entries ≡ length (newer ++ t ∷ older))
  unfolding history_of
  history_of-entry newer older t entries h =
      let (all, a, b) = >>=-ok (reconstruct [] (reverse (newer ++ t ∷ older))) _ h in
      let (values, p, q) = reconstruct-newest newer older t all a in
      let made : map (entry_of message_to_dict repr) (reverse all) ≡ entries = cc in
      (
        values,
        p,
        subst
            (λ es.
              get_elem? es (length newer)
              ≡ some (entry_of message_to_dict repr (snapshot_of t values)))
            made (get_elem?-map (entry_of message_to_dict repr) (reverse all) (length newer) q),
        length-history_of (newer ++ t ∷ older) entries h,
      )
