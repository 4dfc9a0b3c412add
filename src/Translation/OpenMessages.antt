-- ===== src/Translation/OpenMessages.antt =====
-- translation.py: the dict of emitters and the message among them that is open.
use fastapi_agent_protocol.Base.{
  String, ◌≡◌, refl, sym, ap, ◌∙◌, true, false, Option, some, [], ◌∷◌, append-nil, arith,
  if◌then◌else◌, ◌==◌, nat_eq, string_eq, Bool-cases, inl, inr,
}
use fastapi_agent_protocol.Base.Dict
use fastapi_agent_protocol.Base.Dict.{
  Dict, keys, keys-insert_known, keys-insert_new, contains-keys, lookup-insert_self,
}
use fastapi_agent_protocol.Value.{Value, null}
use fastapi_agent_protocol.Emitter.{Emitter}
use fastapi_agent_protocol.Translation.{Translator, finish_emitter, finish_open, finish_all}
use fastapi_agent_protocol.Translation.Grammar.{
  Reading, idle, streaming, read, read-append, read-finish_emitter,
}

-- Where the stream stands, by the one message that is not finished.
abbrev pub open_reading : Dict String Emitter → Reading
open_reading [] = idle
open_reading ((id, e) ∷ d) = if e.finished then open_reading d else streaming (keys e.blocks)

abbrev pub AllFinished : Dict String Emitter → Type 0
AllFinished [] = Unit
AllFinished ((id, e) ∷ d) = (e.finished ≡ true) × AllFinished d

-- At most one message is not finished, and it has been started.
abbrev pub Single : Dict String Emitter → Type 0
Single [] = Unit
Single ((id, e) ∷ d) = (e.started ≡ true) × (e.finished ≡ false → AllFinished d) × Single d

pub record IsFramed (start : Reading) (t : Translator) : Type 0 where
  pub single : Single t.opened
  pub placed : read start t.frames ≡ open_reading t.opened

pub AllFinished-idle : (d : Dict String Emitter) → AllFinished d → open_reading d ≡ idle
AllFinished-idle [] h = refl
AllFinished-idle ((id, e) ∷ d) h = ground (arith, AllFinished-idle d h.1)

module _ (loads : String → Option Value) where
  finish_open-nil : (d : Dict String Emitter) → AllFinished d → (finish_open loads d).1 ≡ []
  unfolding finish_open
  finish_open-nil [] h = refl
  finish_open-nil ((id, e) ∷ d) h = rw h.0 (finish_open-nil d h.1)

  finish_open-AllFinished : (d : Dict String Emitter) → AllFinished (finish_open loads d).0
  unfolding finish_open finish_emitter
  finish_open-AllFinished [] = tt
  finish_open-AllFinished ((id, e) ∷ d) = elim (Bool-cases e.finished) [
    | inl done ↦ simp done (refl, finish_open-AllFinished d)
    | inr more ↦ simp more (refl, finish_open-AllFinished d)
  ]

  finish_open-Single : (d : Dict String Emitter) → Single d → Single (finish_open loads d).0
  unfolding finish_open finish_emitter
  finish_open-Single [] h = tt
  finish_open-Single ((id, e) ∷ d) h = elim (Bool-cases e.finished) [
    | inl done ↦ simp done (h.0, (λ b. cc), finish_open-Single d h.2)
    | inr more ↦ simp more (h.0, (λ b. cc), finish_open-Single d h.2)
  ]

  read-finish_open :
      (d : Dict String Emitter) → Single d → read (open_reading d) (finish_open loads d).1 ≡ idle
  unfolding finish_open
  read-finish_open [] h = refl
  read-finish_open ((id, e) ∷ d) h = elim (Bool-cases e.finished) [
    | inl done ↦ simp done (read-finish_open d h.2)
    | inr more ↦
        simp more (rw (finish_open-nil d (h.1 more), append-nil) (read-finish_emitter loads null e))
  ]

  pub finish_all-IsFramed :
      (start : Reading) (t : Translator) → IsFramed start t → IsFramed start (finish_all loads t)
  unfolding finish_all
  finish_all-IsFramed start t f = record {
    single = finish_open-Single t.opened f.single;
    placed =
        read-append start t.frames (finish_open loads t.opened).1
        ∙ ap (λ r. read r (finish_open loads t.opened).1) f.placed
        ∙ read-finish_open t.opened f.single
        ∙ sym (AllFinished-idle _ (finish_open-AllFinished t.opened));
  }

  pub finish_all-AllFinished : (t : Translator) → AllFinished (finish_all loads t).opened
  unfolding finish_all
  finish_all-AllFinished t = finish_open-AllFinished t.opened

-- A dict that holds an open emitter is not finished.
finished_in :
    (id : String) (old : Emitter) (d : Dict String Emitter)
    → Dict.lookup id d ≡ some old
    → old.finished ≡ false
    → ¬ AllFinished d
unfolding Dict.lookup
finished_in id old [] known was h = cc
finished_in id old ((j, x) ∷ d) known was h = elim (Bool-cases (id == j)) [
  | inl here ↦ let same : x ≡ old = ground arith in ground (arith, h.0)
  | inr later ↦ finished_in id old d (rw later at known) was h.1
]

not_open : (e : Emitter) {P : Type 0} → (e.finished ≡ false → P) → ¬ P → e.finished ≡ true
not_open e f n = elim (Bool-cases e.finished) [ inl done ↦ done | inr more ↦ absurd (n (f more)) ]

-- A write to the dict of an emitter, in a dict where all others are finished.
pub insert-open :
    (id : String) (e : Emitter) (d : Dict String Emitter)
    → AllFinished d
    → Single d
    → e.started ≡ true
    → e.finished ≡ false
    → Single (Dict.insert id e d) × (open_reading (Dict.insert id e d) ≡ streaming (keys e.blocks))
unfolding Dict.insert
insert-open id e [] h n begun more = ((begun, (λ b. tt), tt), rw more)
insert-open id e ((j, x) ∷ d) h n begun more = elim (Bool-cases (id == j)) [
  | inl here ↦ rw here ((begun, (λ b. h.1), n.2), simp more)
  | inr later ↦
      let (single, placed) = insert-open id e d h.1 n.2 begun more in
      rw later ((n.0, (λ b. cc), single), simp h.0 placed)
]

-- The same where the emitter replaces the open one.
pub replace-open :
    (id : String) (old e : Emitter) (d : Dict String Emitter)
    → Single d
    → Dict.lookup id d ≡ some old
    → old.finished ≡ false
    → e.started ≡ true
    → e.finished ≡ false
    → Single (Dict.insert id e d) × (open_reading (Dict.insert id e d) ≡ streaming (keys e.blocks))
unfolding Dict.insert Dict.lookup
replace-open id old e [] n known was begun more = cc
replace-open id old e ((j, x) ∷ d) n known was begun more = elim (Bool-cases (id == j)) [
  | inl here ↦
      let same : x ≡ old = ground arith in
      rw here ((begun, (λ b. n.1 (ap (λ (y : Emitter). y.finished) same ∙ was)), n.2), simp more)
  | inr later ↦
      let known' : Dict.lookup id d ≡ some old = rw later at known in
      let done : x.finished ≡ true = not_open x n.1 (finished_in id old d known' was) in
      let (single, placed) = replace-open id old e d n.2 known' was begun more in
      rw later ((n.0, (λ b. cc), single), simp done placed)
]

-- The open emitter is where the stream stands.
pub open_reading-open :
    (id : String) (old : Emitter) (d : Dict String Emitter)
    → Single d
    → Dict.lookup id d ≡ some old
    → old.finished ≡ false
    → (open_reading d ≡ streaming (keys old.blocks)) × (old.started ≡ true)
unfolding Dict.lookup
open_reading-open id old [] n known was = cc
open_reading-open id old ((j, x) ∷ d) n known was = elim (Bool-cases (id == j)) [
  | inl here ↦ let same : x ≡ old = ground arith in ground (arith, n.0)
  | inr later ↦
      let known' : Dict.lookup id d ≡ some old = rw later at known in
      let done : x.finished ≡ true = not_open x n.1 (finished_in id old d known' was) in
      simp done (open_reading-open id old d n.2 known' was)
]

-- And where it is replaced by a finished one, no message is open.
pub replace-finished :
    (id : String) (old e : Emitter) (d : Dict String Emitter)
    → Single d
    → Dict.lookup id d ≡ some old
    → old.finished ≡ false
    → e.started ≡ true
    → e.finished ≡ true
    → Single (Dict.insert id e d) × (open_reading (Dict.insert id e d) ≡ idle)
unfolding Dict.insert Dict.lookup
replace-finished id old e [] n known was begun done = cc
replace-finished id old e ((j, x) ∷ d) n known was begun done = elim (Bool-cases (id == j)) [
  | inl here ↦
      let same : x ≡ old = ground arith in
      let others : AllFinished d = n.1 (ap (λ (y : Emitter). y.finished) same ∙ was) in
      rw here ((begun, (λ b. others), n.2), simp done (AllFinished-idle d others))
  | inr later ↦
      let known' : Dict.lookup id d ≡ some old = rw later at known in
      let gone : x.finished ≡ true = not_open x n.1 (finished_in id old d known' was) in
      let (single, placed) = replace-finished id old e d n.2 known' was begun done in
      rw later ((n.0, (λ b. cc), single), simp gone placed)
]
