-- ===== src/Translation/Framing.antt =====
-- translation.py: `feed` and `finish`, in any order, and the reader of the frames.
use fastapi_agent_protocol.Base.{
  String, ◌≡◌, refl, sym, ap, ◌∙◌, false, Option, none, some, List, [], ◌∷◌, nat_eq, string_eq,
  Bool-cases, inl, inr, Option-cases,
}
use fastapi_agent_protocol.Base.Dict
use fastapi_agent_protocol.Base.Dict.{Dict, keys, keys-insert_known, keys-insert_new, insert-insert}
use fastapi_agent_protocol.Value.{Value, text_truthy}
use fastapi_agent_protocol.Emitter.{Chunk, role, Emitter, new_emitter}
use fastapi_agent_protocol.Translation.{
  Translator, new_translator, finish_emitter, finish_all, finish_chunk, finish_id, finish_one,
  feed_role, feed, feed_emitter, message_id,
}
use fastapi_agent_protocol.Translation.Grammar.{
  Reading, idle, read, read-append, read-finish_emitter,
}
use fastapi_agent_protocol.Translation.Emitting.{IsReady, emit_chunk-Runs}
use fastapi_agent_protocol.Translation.OpenMessages.{
  AllFinished, IsFramed, AllFinished-idle, finish_all-IsFramed, finish_all-AllFinished, insert-open,
  replace-open, open_reading-open, replace-finished,
}

module _ (start : Reading) (loads : String → Option Value) (repr : Value → String) where
  -- The emitter of an open message is ready for a chunk.
  IsReady-of_open :
      (t : Translator) (id : String) (e : Emitter)
      → IsFramed start t
      → Dict.lookup id t.opened ≡ some e
      → e.finished ≡ false
      → IsReady start (record { emitter = e; frames = t.frames })
  IsReady-of_open t id e f known was =
      let (placed, begun) = open_reading-open id e t.opened f.single known was in
      inl (record { unfinished = was; begun = begun; placed = f.placed ∙ placed })

  feed_known-IsFramed :
      (t : Translator) (id : String) (e : Emitter) (chunk : Chunk)
      → IsFramed start t
      → Dict.lookup id t.opened ≡ some e
      → IsFramed start (feed_emitter loads repr t id e chunk)
  unfolding feed_emitter
  feed_known-IsFramed t id e chunk f known = elim (Bool-cases e.finished) [
    | inl done ↦ simp done f
    | inr more ↦
        let r = emit_chunk-Runs start loads repr chunk _ (IsReady-of_open t id e f known more) in
        let (single, placed) =
          replace-open id e _ t.opened f.single known more r.begun r.unfinished in
        simp more (record { single = single; placed = r.placed ∙ sym placed })
  ]

  feed_new-IsFramed :
      (t : Translator) (id : String) (e : Emitter) (chunk : Chunk)
      → IsFramed start t
      → AllFinished t.opened
      → e.finished ≡ false
      → e.started ≡ false
      → e.blocks ≡ []
      → IsFramed start
          (feed_emitter loads repr (record t { opened = Dict.insert id e t.opened }) id e chunk)
  unfolding feed_emitter
  feed_new-IsFramed t id e chunk f done more new empty =
      let r =
        emit_chunk-Runs start loads repr chunk (record { emitter = e; frames = t.frames })
          (inr (more, new, empty, f.placed ∙ AllFinished-idle t.opened done)) in
      let (single, placed) = insert-open id _ t.opened done f.single r.begun r.unfinished in
      simp more (record {
        single = rw insert-insert single;
        placed = rw insert-insert (r.placed ∙ sym placed);
      })

  pub feed-IsFramed :
      (t : Translator) (chunk : Chunk) → IsFramed start t → IsFramed start (feed loads repr t chunk)
  unfolding feed
  feed-IsFramed t chunk f = go (role chunk)
    where
      go : (r : Option String) → IsFramed start (feed_role loads repr t chunk r)
      go none = f
      go (some r) = elim (Option-cases (Dict.lookup (message_id loads chunk) t.opened)) [
        | inl new ↦
            rw (new, feed_role)
              (feed_new-IsFramed (finish_all loads t) (message_id loads chunk)
                (new_emitter (message_id loads chunk) r) chunk (finish_all-IsFramed loads start t f)
                (finish_all-AllFinished loads t) refl refl refl)
        | inr (e, known) ↦
            rw (known, feed_role) (feed_known-IsFramed t (message_id loads chunk) e chunk f known)
      ]

  finish_known-IsFramed :
      (t : Translator) (id : String) (usage : Value) (e : Emitter)
      → IsFramed start t
      → Dict.lookup id t.opened ≡ some e
      → e.finished ≡ false
      → IsFramed start (finish_one loads t id usage (some e))
  unfolding finish_emitter
  finish_known-IsFramed t id usage e f known more =
      let (placed, begun) = open_reading-open id e t.opened f.single known more in
      let (single, closed) = replace-finished id e _ t.opened f.single known more begun refl in
      simp more (record {
        single = single;
        placed =
            read-append start t.frames _
            ∙ ap (λ r. read r (finish_emitter loads usage e).1) (f.placed ∙ placed)
            ∙ read-finish_emitter loads usage e
            ∙ sym closed;
      })

  pub finish_chunk-IsFramed :
      (t : Translator) (chunk : Chunk)
      → IsFramed start t
      → IsFramed start (finish_chunk loads t chunk)
  unfolding finish_chunk
  finish_chunk-IsFramed t chunk f = go chunk.id
    where
      one :
          (id : String) (found : Option Emitter)
          → Dict.lookup id t.opened ≡ found
          → IsFramed start (finish_one loads t id chunk.usage_metadata found)
      one id none h = f
      one id (some e) h = elim (Bool-cases e.finished) [
        | inl done ↦ simp done f
        | inr more ↦ finish_known-IsFramed t id chunk.usage_metadata e f h more
      ]

      go : (id : Option String) → IsFramed start (finish_id loads t id chunk.usage_metadata)
      go none = f
      go (some id) = elim (Bool-cases (text_truthy id)) [
        | inl named ↦ rw (named, finish_id) (one id (Dict.lookup id t.opened) refl)
        | inr empty ↦ rw (empty, finish_id) f
      ]

-- What the run manager calls.
pub data Call : Type 0 where
  feeds finishes : Chunk → Call
  finishes_all : Call

module _ (loads : String → Option Value) (repr : Value → String) where
  unfoldable pub call : Translator → Call → Translator
  call t (feeds chunk) = feed loads repr t chunk
  call t (finishes chunk) = finish_chunk loads t chunk
  call t finishes_all = finish_all loads t

  unfoldable pub translate : Translator → List Call → Translator
  unfolding call
  translate t [] = t
  translate t (c ∷ cs) = translate (call t c) cs

  call-IsFramed :
      (start : Reading) (t : Translator) (c : Call) → IsFramed start t → IsFramed start (call t c)
  unfolding call
  call-IsFramed start t (feeds chunk) f = feed-IsFramed start loads repr t chunk f
  call-IsFramed start t (finishes chunk) f = finish_chunk-IsFramed start loads repr t chunk f
  call-IsFramed start t finishes_all f = finish_all-IsFramed loads start t f

  translate-IsFramed :
      (start : Reading) (t : Translator) (cs : List Call)
      → IsFramed start t
      → IsFramed start (translate t cs)
  unfolding translate
  translate-IsFramed start t [] f = f
  translate-IsFramed start t (c ∷ cs) f =
      translate-IsFramed start (call t c) cs (call-IsFramed start t c f)

  -- Whatever chunks are fed and finished, in whatever order, a last `finish(None)` leaves a stream
  -- of frames that the grammar accepts from its beginning to its end, no message being open.
  pub frames_obey_grammar :
      (cs : List Call) → read idle (finish_all loads (translate new_translator cs)).frames ≡ idle
  frames_obey_grammar cs =
      let t = translate new_translator cs in
      let f = translate-IsFramed idle new_translator cs (record { single = tt; placed = refl }) in
      (finish_all-IsFramed loads idle t f).placed
      ∙ AllFinished-idle (finish_all loads t).opened (finish_all-AllFinished loads t)
