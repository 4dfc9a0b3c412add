-- ===== src/History/Channels.antt =====
-- state.py, `read_thread_history`: one channel among the pending writes of a walk.
use fastapi_agent_protocol.Base.{
  String, ◌≡◌, refl, sym, ap, subst, ◌∙◌, Bool, true, false, Option, some, List, [], ◌∷◌, ◌++◌, map,
  arith, if◌then◌else◌, ◌==◌, string_eq, Bool-cases, inl, inr,
}
use mathlib.Core.List.{reverse}
use fastapi_agent_protocol.Base.Dict
use fastapi_agent_protocol.Base.Dict.{Dict, lookup-insert}
use fastapi_agent_protocol.Failure.{Failure, Result, ok, err, raised, ◌>>=◌}
use fastapi_agent_protocol.Value.{
  Value, null, bool, int, float, str, list, tuple, set, dict, object, opaque, Items, Fields, keyed,
  slotted,
}
use fastapi_agent_protocol.History.Snapshots.{all_writes, >>=-ok, apply_writes-append}
use fastapi_agent_protocol.History.{
  PendingWrite, CheckpointTuple, snapshot_of, reconstruct, entry_of, history_of, is_reserved,
  extended, written, store, apply_write, apply_writes,
}

-- The values written to channel `c`, in order.
abbrev pub values_for : String → List PendingWrite → List Value
values_for c [] = []
values_for c (w ∷ ws) =
    let rest = values_for c ws in if c == w.channel then w.value ∷ rest else rest

abbrev pub is_list : Value → Bool
is_list (list vs) = true
is_list _ = false

-- A channel on its own: a list extends it, any other value takes its place.
abbrev pub channel_after : Option Value → List Value → Result (Option Value)
channel_after old [] = ok old
channel_after old (v ∷ vs) = written old v >>= λ now. channel_after (some now) vs

store-ok :
    (d : Dict String Value) (channel : String) (m : Result Value) (next : Dict String Value)
    → store d channel m ≡ ok next
    → (v : Value) × (m ≡ ok v) × (Dict.insert channel v d ≡ next)
store-ok d channel (ok v) next h = (v, refl, ground arith)
store-ok d channel (err e) next h = cc

==-eq : (s t : String) → (s == t) ≡ true → s ≡ t
==-eq s t h = ground arith

-- A write to a reserved channel changes nothing.
apply_write-reserved :
    (d : Dict String Value) (w : PendingWrite) (next : Dict String Value)
    → apply_write d w ≡ ok next
    → is_reserved w.channel ≡ true
    → d ≡ next
unfolding apply_write
apply_write-reserved d w next h kept = ground (arith, kept)

-- Any other write that succeeds puts a value into its channel.
apply_write-open :
    (d : Dict String Value) (w : PendingWrite) (next : Dict String Value)
    → apply_write d w ≡ ok next
    → is_reserved w.channel ≡ false
    → (v : Value) × (written (Dict.lookup w.channel d) w.value ≡ ok v)
      × (Dict.insert w.channel v d ≡ next)
unfolding apply_write
apply_write-open d w next h opened =
    store-ok d w.channel (written (Dict.lookup w.channel d) w.value) next (simp opened at h)

lookup-apply_write_reserved :
    (c : String) (d : Dict String Value) (w : PendingWrite) (next : Dict String Value)
    → apply_write d w ≡ ok next
    → is_reserved c ≡ true
    → Dict.lookup c next ≡ Dict.lookup c d
lookup-apply_write_reserved c d w next h held = elim (Bool-cases (is_reserved w.channel)) [
  | inl kept ↦ ap (Dict.lookup c) (sym (apply_write-reserved d w next h kept))
  | inr opened ↦
      let (v, a, b) = apply_write-open d w next h opened in
      ap (Dict.lookup c) (sym b) ∙ grind (arith, lookup-insert c w.channel v d, held, opened)
]

lookup-apply_write_other :
    (c : String) (d : Dict String Value) (w : PendingWrite) (next : Dict String Value)
    → apply_write d w ≡ ok next
    → (c == w.channel) ≡ false
    → Dict.lookup c next ≡ Dict.lookup c d
lookup-apply_write_other c d w next h differ = elim (Bool-cases (is_reserved w.channel)) [
  | inl kept ↦ ap (Dict.lookup c) (sym (apply_write-reserved d w next h kept))
  | inr opened ↦
      let (v, a, b) = apply_write-open d w next h opened in
      ap (Dict.lookup c) (sym b) ∙ grind (arith, lookup-insert c w.channel v d, differ)
]

lookup-apply_write_own :
    (c : String) (d : Dict String Value) (w : PendingWrite) (next : Dict String Value)
    → apply_write d w ≡ ok next
    → c ≡ w.channel
    → is_reserved c ≡ false
    → (v : Value) × (written (Dict.lookup c d) w.value ≡ ok v) × (Dict.lookup c next ≡ some v)
lookup-apply_write_own c d w next h own free =
    let (v, a, b) = apply_write-open d w next h (subst (λ k. is_reserved k ≡ false) own free) in
    (
      v,
      subst (λ k. written (Dict.lookup k d) w.value ≡ ok v) (sym own) a,
      ap (Dict.lookup c) (sym b) ∙ grind (arith, lookup-insert c w.channel v d, own),
    )

-- The channel `c`, which is not reserved.
lookup-walk :
    (c : String) (d after : Dict String Value) (ws : List PendingWrite)
    → is_reserved c ≡ false
    → apply_writes d ws ≡ ok after
    → channel_after (Dict.lookup c d) (values_for c ws) ≡ ok (Dict.lookup c after)
unfolding apply_writes
lookup-walk c d after [] free h = ground arith
lookup-walk c d after (w ∷ ws) free h =
    let (next, a, b) = >>=-ok (apply_write d w) _ h in
    let rest = lookup-walk c next after ws free b in
    elim (Bool-cases (c == w.channel)) [
      | inl same ↦
          let (v, p, q) = lookup-apply_write_own c d w next a (==-eq c w.channel same) free in
          rw same (
            ap (λ m. m >>= λ now. channel_after (some now) (values_for c ws)) p
            ∙ ap (λ o. channel_after o (values_for c ws)) (sym q)
            ∙ rest)
      | inr differ ↦ rw differ (
          ap (λ o. channel_after o (values_for c ws))
            (sym (lookup-apply_write_other c d w next a differ))
          ∙ rest)
    ]

lookup-walk_reserved :
    (c : String) (d after : Dict String Value) (ws : List PendingWrite)
    → is_reserved c ≡ true
    → apply_writes d ws ≡ ok after
    → Dict.lookup c d ≡ Dict.lookup c after
unfolding apply_writes
lookup-walk_reserved c d after [] held h = ground arith
lookup-walk_reserved c d after (w ∷ ws) held h =
    let (next, a, b) = >>=-ok (apply_write d w) _ h in
    sym (lookup-apply_write_reserved c d w next a held)
    ∙ lookup-walk_reserved c next after ws held b

-- A walk over writes treats each channel on its own: the value of channel `c` afterwards comes from
-- its value before and the writes to it alone, in their order. A reserved channel stays as it was.
pub lookup-apply_writes :
    (c : String) (d after : Dict String Value) (ws : List PendingWrite)
    → apply_writes d ws ≡ ok after
    → (if is_reserved c
        then ok (Dict.lookup c d)
        else channel_after (Dict.lookup c d) (values_for c ws))
      ≡ ok (Dict.lookup c after)
lookup-apply_writes c d after ws h = elim (Bool-cases (is_reserved c)) [
  | inl held ↦ rw held (ap ok (lookup-walk_reserved c d after ws held h))
  | inr free ↦ rw free (lookup-walk c d after ws free h)
]

abbrev pub no_extend : Failure
no_extend = raised "AttributeError" "object has no attribute 'extend'"

extended-scalar :
    (old : Value) (vs : Items) → is_list old ≡ false → extended (some old) vs ≡ err no_extend
extended-scalar (list ws) vs h = cc
extended-scalar null vs h = refl
extended-scalar (bool b) vs h = refl
extended-scalar (int n) vs h = refl
extended-scalar (float s) vs h = refl
extended-scalar (str s) vs h = refl
extended-scalar (tuple ws) vs h = refl
extended-scalar (set ws) vs h = refl
extended-scalar (dict fs) vs h = refl
extended-scalar (object name fs) vs h = refl
extended-scalar (keyed ps) vs h = refl
extended-scalar (slotted s fs) vs h = refl
extended-scalar (opaque s) vs h = refl

apply_write-scalar :
    (d : Dict String Value) (channel : String) (old : Value) (vs : Items)
    → is_reserved channel ≡ false
    → Dict.lookup channel d ≡ some old
    → is_list old ≡ false
    → apply_write d (record { channel = channel; value = list vs }) ≡ err no_extend
unfolding apply_write
apply_write-scalar d channel old vs free found scalar =
    rw (free, found) (ap (store d channel) (extended-scalar old vs scalar))

-- A chain that fails later fails, if each of its continuations does.
>>=-fails {ℓ κ μ} :
    {A : Type ℓ} {B : Type κ} {C : Type μ} (m : Result A) (f : A → Result B) (g : A → Result C)
    (e : Failure)
    → ((a : A) → f a ≡ err e → g a ≡ err e)
    → (m >>= f) ≡ err e
    → (m >>= g) ≡ err e
>>=-fails (ok a) f g e k h = k a h
>>=-fails (err e') f g e k h = cc

reconstruct-fails :
    (d : Dict String Value) (ts : List CheckpointTuple) (e : Failure)
    → apply_writes d (all_writes ts) ≡ err e
    → reconstruct d ts ≡ err e
unfolding reconstruct apply_writes
reconstruct-fails d [] e h = cc
reconstruct-fails d (t ∷ ts) e h =
    >>=-fails (apply_writes d t.pending_writes) (λ next. apply_writes next (all_writes ts))
      (λ next. reconstruct next ts >>= λ r. ok (snapshot_of t next ∷ r)) e
      (λ next k. ap (λ q. q >>= λ r. ok (snapshot_of t next ∷ r)) (reconstruct-fails next ts e k))
      (sym (apply_writes-append d t.pending_writes (all_writes ts)) ∙ h)

module _ (message_to_dict : Value → Option (Fields × Value)) (repr : Value → String) where
  -- A page of the history in which, the oldest write first, a list is written to a channel whose
  -- value by then is no list cannot be read: the whole request ends with an `AttributeError`,
  -- whatever else is in the page.
  pub history_of-mixed :
      (tuples : List CheckpointTuple) (reached : Dict String Value)
      (before rest : List PendingWrite) (channel : String) (old : Value) (vs : Items)
      → all_writes (reverse tuples) ≡ before ++ record { channel = channel; value = list vs } ∷ rest
      → apply_writes [] before ≡ ok reached
      → is_reserved channel ≡ false
      → Dict.lookup channel reached ≡ some old
      → is_list old ≡ false
      → history_of message_to_dict repr tuples ≡ err no_extend
  unfolding history_of apply_writes
  history_of-mixed tuples reached before rest channel old vs same walked free found scalar =
      let w : PendingWrite = record { channel = channel; value = list vs } in
      let fails : apply_writes [] (all_writes (reverse tuples)) ≡ err no_extend =
        ap (apply_writes []) same
        ∙ apply_writes-append [] before (w ∷ rest)
        ∙ ap (λ m. m >>= λ next. apply_writes next (w ∷ rest)) walked
        ∙ ap (λ m. m >>= λ next. apply_writes next rest)
            (apply_write-scalar reached channel old vs free found scalar) in
      ap (λ m. m >>= λ q. ok (map (entry_of message_to_dict repr) (reverse q)))
        (reconstruct-fails [] (reverse tuples) no_extend fails)
