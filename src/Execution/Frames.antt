-- ===== src/Execution/Frames.antt =====
-- runner.py, `_execute`, with translation.py: the message frames that a run publishes.
use fastapi_agent_protocol.Base.{
  ℕ, String, ◌≡◌, ◌⊎◌, inl, inr, refl, ap, ◌∙◌, Option, some, List, [], ◌∷◌, ◌++◌, map, Bool-cases,
  append-nil, string_eq,
}
use fastapi_agent_protocol.Base.Dict.{Dict}
use fastapi_agent_protocol.Failure.{is_exception, Result, ok, err}
use fastapi_agent_protocol.Value.{Value, Fields, truthy}
use fastapi_agent_protocol.Emitter.{Frame, Emitter}
use fastapi_agent_protocol.Translation.{Translator, feed, finish_chunk, finish_all}
use fastapi_agent_protocol.Translation.Grammar.{Reading, idle, streaming, read, read-append}
use fastapi_agent_protocol.Translation.OpenMessages.{
  Single, open_reading, IsFramed, AllFinished-idle, finish_all-IsFramed, finish_all-AllFinished,
}
use fastapi_agent_protocol.Translation.Framing.{feed-IsFramed, finish_chunk-IsFramed}
use fastapi_agent_protocol.Execution.{
  StreamItem, Ending, Output, lifecycle, message, state, requested, Progress, Outcome, translated,
  take_item, take_items, conclude, finish_messages, requests, begun, execute, messages, values,
  other_mode,
}

-- The frames among what is published.
abbrev pub frames_in : List Output → List Frame
frames_in [] = []
frames_in (message f ∷ outputs) = f ∷ frames_in outputs
frames_in (lifecycle fs ∷ outputs) = frames_in outputs
frames_in (state fs ∷ outputs) = frames_in outputs
frames_in (requested id payload ∷ outputs) = frames_in outputs

frames_in-append : (xs ys : List Output) → frames_in (xs ++ ys) ≡ frames_in xs ++ frames_in ys
frames_in-append [] ys = refl
frames_in-append (message f ∷ xs) ys = ap (λ (fs : List Frame). f ∷ fs) (frames_in-append xs ys)
frames_in-append (lifecycle fs ∷ xs) ys = frames_in-append xs ys
frames_in-append (state fs ∷ xs) ys = frames_in-append xs ys
frames_in-append (requested id payload ∷ xs) ys = frames_in-append xs ys

frames_in-message : (fs : List Frame) → frames_in (map message fs) ≡ fs
frames_in-message [] = refl
frames_in-message (f ∷ fs) = ap (λ (gs : List Frame). f ∷ gs) (frames_in-message fs)

abbrev pub reached : List Output → Reading
reached outputs = read idle (frames_in outputs)

-- What is published is read up to the state of the open messages.
record IsPublished (p : Progress) : Type 0 where
  single : Single p.translator.opened
  placed : reached p.outputs ≡ open_reading p.translator.opened
  empty : p.translator.frames ≡ []

IsPublished-IsFramed : (p : Progress) → IsPublished p → IsFramed (reached p.outputs) p.translator
IsPublished-IsFramed p h = record {
  single = h.single;
  placed = ap (read (reached p.outputs)) h.empty ∙ h.placed;
}

translated-IsPublished :
    (p : Progress) (t : Translator) → IsFramed (reached p.outputs) t → IsPublished (translated p t)
unfolding translated
translated-IsPublished p t f = record {
  single = f.single;
  placed =
      ap (read idle) (
        frames_in-append p.outputs (map message t.frames)
        ∙ ap (λ q. frames_in p.outputs ++ q) (frames_in-message t.frames))
      ∙ read-append idle (frames_in p.outputs) t.frames
      ∙ f.placed;
  empty = refl;
}

open_reading-cases :
    (d : Dict String Emitter)
    → (open_reading d ≡ idle) ⊎ ((blocks : List ℕ) × (open_reading d ≡ streaming blocks))
open_reading-cases [] = inl refl
open_reading-cases ((id, e) ∷ d) = elim (Bool-cases e.finished) [
  | inl done ↦ rw done (open_reading-cases d)
  | inr more ↦ rw more (inr (_, refl))
]

-- Something else is published.
reached-append : (xs ys : List Output) → frames_in ys ≡ [] → reached (xs ++ ys) ≡ reached xs
reached-append xs ys none_in =
    ap (read idle)
      (frames_in-append xs ys ∙ ap (λ q. frames_in xs ++ q) none_in ∙ append-nil (frames_in xs))

requests-frames : (is : List (String × Value)) → frames_in (requests is) ≡ []
requests-frames [] = refl
requests-frames ((id, payload) ∷ is) = requests-frames is

module _ (loads : String → Option Value) (repr : Value → String)
    (message_to_dict : Value → Option (Fields × Value)) where
  take_item-IsPublished :
      (p : Progress) (item : StreamItem)
      → IsPublished p
      → IsPublished (take_item loads repr message_to_dict p item)
  unfolding take_item
  take_item-IsPublished p (messages chunk) h =
      let fed = translated-IsPublished p (feed loads repr p.translator chunk) (
        feed-IsFramed (reached p.outputs) loads repr p.translator chunk
          (IsPublished-IsFramed p h)) in
      let q = translated p (feed loads repr p.translator chunk) in
      elim (Bool-cases (truthy chunk.usage_metadata)) [
        | inl counted ↦ rw counted (
            translated-IsPublished q (finish_chunk loads q.translator chunk) (
              finish_chunk-IsFramed (reached q.outputs) loads repr q.translator chunk
                (IsPublished-IsFramed q fed)))
        | inr uncounted ↦ rw uncounted fed
      ]
  take_item-IsPublished p (values fs) h = record {
    single = h.single;
    placed = reached-append p.outputs _ refl ∙ h.placed;
    empty = h.empty;
  }
  take_item-IsPublished p other_mode h = h

  take_items-IsPublished :
      (p : Progress) (items : List StreamItem)
      → IsPublished p
      → IsPublished (take_items loads repr message_to_dict p items)
  unfolding take_items
  take_items-IsPublished p [] h = h
  take_items-IsPublished p (item ∷ items) h =
      take_items-IsPublished (take_item loads repr message_to_dict p item) items
        (take_item-IsPublished p item h)

  finish_messages-idle :
      (p : Progress) (output : Output)
      → IsPublished p
      → frames_in (output ∷ []) ≡ []
      → reached ((finish_messages loads repr message_to_dict p).outputs ++ output ∷ []) ≡ idle
  unfolding translated
  finish_messages-idle p output h plain =
      let t = finish_all loads p.translator in
      let f =
        finish_all-IsFramed loads (reached p.outputs) p.translator (IsPublished-IsFramed p h) in
      reached-append (translated p t).outputs (output ∷ []) plain
      ∙ (translated-IsPublished p t f).placed
      ∙ AllFinished-idle t.opened (finish_all-AllFinished loads p.translator)

  -- What is published of the messages at the end of a run: whole ones, or, if the run has stopped at
  -- interrupts, whole ones and perhaps the beginning of another.
  abbrev pub HasFramed : Outcome → Type 0
  HasFramed out =
      (reached out.outputs ≡ idle)
      ⊎ (((interrupts : List (String × Value)) × (out.pending ≡ some interrupts))
          × ((blocks : List ℕ) × (reached out.outputs ≡ streaming blocks)))

  conclude-HasFramed :
      (name : String) (p : Progress) (result : Result (List (String × Value)))
      → IsPublished p
      → HasFramed (conclude loads repr message_to_dict name p result)
  unfolding conclude
  conclude-HasFramed name p (ok []) h = inl (finish_messages-idle p _ h refl)
  conclude-HasFramed name p (ok ((id, payload) ∷ more)) h =
      let same =
        reached-append p.outputs (lifecycle _ ∷ requests ((id, payload) ∷ more))
          (requests-frames more)
        ∙ h.placed in
      elim (open_reading-cases p.translator.opened) [
        | inl closed ↦ inl (same ∙ closed)
        | inr (blocks, open_one) ↦ inr ((_, refl), (blocks, same ∙ open_one))
      ]
  conclude-HasFramed name p (err e) h = elim (Bool-cases (is_exception e)) [
    | inl caught ↦ rw caught (inl (finish_messages-idle p _ h refl))
    | inr passed ↦ rw passed (inl (finish_messages-idle p _ h refl))
  ]

  -- The message frames that a run publishes obey the grammar from its beginning to its end, whatever
  -- the graph streams and however the stream ends, with no message left open, unless the run stops at
  -- interrupts: then one message may be left open.
  pub execute-HasFramed :
      (name : String) (items : List StreamItem) (ending : Ending)
      (snapshot : Option (Result Fields))
      → HasFramed (execute loads repr message_to_dict name items ending snapshot)
  unfolding execute begun
  execute-HasFramed name items ending snapshot = conclude-HasFramed name _ _ (
      take_items-IsPublished (begun loads repr message_to_dict name) items
        (record { single = tt; placed = refl; empty = refl }))
