-- ===== src/Translation/Content.antt =====
-- translation.py: the texts that the frames of a stream carry, and those of the chunks fed.
use fastapi_agent_protocol.Base.{
  ℕ, String, ◌≡◌, refl, ap, sym, ◌∙◌, Bool, true, false, not, Option, none, some, List, [], ◌∷◌,
  ◌++◌, append-nil, append_assoc, arith, if◌then◌else◌, Option-cases, inl, inr, string_eq,
}
use fastapi_agent_protocol.Base.Dict
use fastapi_agent_protocol.Base.Dict.{Dict}
use fastapi_agent_protocol.Value.{Value, null, text_truthy}
use fastapi_agent_protocol.Emitter.{
  Fragment, Chunk, role, Frame, message_start, text_delta, block_start, block_delta, message_finish,
  BlockState, Emitter, new_emitter, Work, content_text, emit_start, emit_text_delta,
  ensure_text_index, emit_fragment, emit_tool_call_chunks, open_block, fragment_index,
  add_fragment_args,
}
use fastapi_agent_protocol.Translation.{
  Translator, sort_blocks, finish_frames, finish_emitter, finish_open, finish_all, message_id,
  emit_chunk, feed_emitter, feed_role, feed,
}

abbrev text_in : Frame → List String
text_in (text_delta index text) = text ∷ []
text_in _ = []

abbrev pub texts : List Frame → List String
texts [] = []
texts (frame ∷ frames) = text_in frame ++ texts frames

texts-append : (xs ys : List Frame) → texts (xs ++ ys) ≡ texts xs ++ texts ys
texts-append [] ys = refl
texts-append (x ∷ xs) ys =
    ap (λ r. text_in x ++ r) (texts-append xs ys)
    ∙ sym (append_assoc (text_in x) (texts xs) (texts ys))

-- A frame without a text.
texts-silent :
    (xs : List Frame) (frame : Frame) → text_in frame ≡ [] → texts (xs ++ frame ∷ []) ≡ texts xs
texts-silent xs frame silent =
    texts-append xs (frame ∷ []) ∙ ap (λ r. texts xs ++ (r ++ [])) silent ∙ append-nil (texts xs)

module _ (repr : Value → String) where
  -- The text of a chunk, if it has any.
  abbrev pub pieces : Chunk → List String
  pieces chunk =
      if text_truthy (content_text repr chunk.content)
      then content_text repr chunk.content ∷ []
      else []

  texts-emit_start : (w : Work) → texts (emit_start w).frames ≡ texts w.frames
  unfolding emit_start
  texts-emit_start w =
      ground (arith, texts-silent w.frames (message_start w.emitter.role w.emitter.message_id) refl)

  texts-emit_text_delta :
      (chunk : Chunk) (w : Work)
      → texts (emit_text_delta repr chunk w).frames ≡ texts w.frames ++ pieces chunk
  unfolding emit_text_delta
  texts-emit_text_delta chunk w =
      let (e, index) = ensure_text_index w.emitter in
      ground (
        arith,
        texts-append w.frames
            (text_delta (ensure_text_index w.emitter).1 (content_text repr chunk.content) ∷ []),
        append-nil (texts w.frames),
      )

  texts-open_block :
      (w : Work) (index : ℕ) (fragment : Fragment)
      → texts (open_block w index fragment).0.frames ≡ texts w.frames
  unfolding open_block
  texts-open_block w index fragment =
      ground (arith, texts-silent w.frames (block_start index fragment.id fragment.name) refl)

  texts-add_fragment_args :
      (w : Work) (index : ℕ) (state : BlockState) (args : Option String)
      → texts (add_fragment_args w index state args).frames ≡ texts w.frames
  texts-add_fragment_args w index state none = refl
  texts-add_fragment_args w index state (some args) =
      ground (arith, texts-silent w.frames (block_delta index state.call_id state.name args) refl)

  texts-emit_fragment :
      (w : Work) (fragment : Fragment) → texts (emit_fragment w fragment).frames ≡ texts w.frames
  unfolding emit_fragment
  texts-emit_fragment w fragment =
      let (e, index) = fragment_index w.emitter fragment.index in
      texts-add_fragment_args _ _ _ fragment.args
      ∙ texts-open_block (record w { emitter = e }) index fragment

  texts-emit_tool_call_chunks :
      (w : Work) (fragments : List Fragment)
      → texts (emit_tool_call_chunks w fragments).frames ≡ texts w.frames
  unfolding emit_tool_call_chunks
  texts-emit_tool_call_chunks w [] = refl
  texts-emit_tool_call_chunks w (fragment ∷ rest) =
      texts-emit_tool_call_chunks (emit_fragment w fragment) rest ∙ texts-emit_fragment w fragment

  module _ (loads : String → Option Value) where
    texts-finish_frames :
        (d : Dict ℕ BlockState) (usage : Value)
        → texts (finish_frames loads d ++ message_finish usage ∷ []) ≡ []
    unfolding finish_frames
    texts-finish_frames [] usage = refl
    texts-finish_frames ((i, state) ∷ d) usage = texts-finish_frames d usage

    texts-finish_emitter :
        (usage : Value) (e : Emitter) → texts (finish_emitter loads usage e).1 ≡ []
    unfolding finish_emitter
    texts-finish_emitter usage e = texts-finish_frames (sort_blocks e.blocks) _

    texts-finish_open : (d : Dict String Emitter) → texts (finish_open loads d).1 ≡ []
    unfolding finish_open
    texts-finish_open [] = refl
    texts-finish_open ((id, e) ∷ rest) =
        let own : texts ((finish_emitter loads null e).1 ++ (finish_open loads rest).1) ≡ [] =
          texts-append (finish_emitter loads null e).1 (finish_open loads rest).1
          ∙ ap (λ r. r ++ texts (finish_open loads rest).1) (texts-finish_emitter null e)
          ∙ texts-finish_open rest in
        ground (arith, own, texts-finish_open rest)

    texts-finish_all : (t : Translator) → texts (finish_all loads t).frames ≡ texts t.frames
    unfolding finish_all
    texts-finish_all t =
        texts-append t.frames _
        ∙ ap (λ r. texts t.frames ++ r) (texts-finish_open t.opened)
        ∙ append-nil (texts t.frames)

    texts-emit_chunk :
        (chunk : Chunk) (w : Work)
        → texts (emit_chunk loads repr chunk w).frames ≡ texts w.frames ++ pieces chunk
    unfolding emit_chunk
    texts-emit_chunk chunk w =
        texts-emit_tool_call_chunks _ chunk.tool_call_chunks
        ∙ texts-emit_text_delta chunk (emit_start w)
        ∙ ap (λ r. r ++ pieces chunk) (texts-emit_start w)

    -- Whether `feed` passes a chunk on: it has a known role, and its message is not finished.
    abbrev pub is_open : Option Emitter → Bool
    is_open none = true
    is_open (some e) = not e.finished

    abbrev pub is_taken : Translator → Chunk → Option String → Bool
    is_taken t chunk none = false
    is_taken t chunk (some r) = is_open (Dict.lookup (message_id loads chunk) t.opened)

    texts-feed_emitter :
        (t : Translator) (id : String) (e : Emitter) (chunk : Chunk)
        → texts (feed_emitter loads repr t id e chunk).frames
          ≡ texts t.frames ++ (if e.finished then [] else pieces chunk)
    unfolding feed_emitter
    texts-feed_emitter t id e chunk = ground (
      arith,
      texts-emit_chunk chunk (record { emitter = e; frames = t.frames }),
      append-nil (texts t.frames),
    )

    texts-feed_role :
        (t : Translator) (chunk : Chunk) (r : Option String)
        → texts (feed_role loads repr t chunk r).frames
          ≡ texts t.frames ++ (if is_taken t chunk r then pieces chunk else [])
    texts-feed_role t chunk none = sym (append-nil (texts t.frames))
    texts-feed_role t chunk (some r) =
        let id = message_id loads chunk in
        elim (Option-cases (Dict.lookup (message_id loads chunk) t.opened)) [
          | inl new ↦
              let e = new_emitter id r in
              let t' = finish_all loads t in
              let fed =
                texts-feed_emitter (record t' { opened = Dict.insert id e t'.opened }) id e chunk in
              rw (new, feed_role) (fed ∙ ap (λ q. q ++ pieces chunk) (texts-finish_all t))
          | inr (e, found) ↦
              let fed = texts-feed_emitter t id e chunk in
              rw (found, feed_role) (ground (arith, fed))
        ]

    -- A chunk that is fed adds its text to the stream, once and at the end, if it has a text, a known
    -- role and a message that is not finished; otherwise no text is added. Nothing is taken away.
    pub texts-feed :
        (t : Translator) (chunk : Chunk)
        → texts (feed loads repr t chunk).frames
          ≡ texts t.frames ++ (if is_taken t chunk (role chunk) then pieces chunk else [])
    unfolding feed
    texts-feed t chunk = texts-feed_role t chunk (role chunk)
