-- ===== src/Translation/Emitting.antt =====
-- translation.py: the `_emit_…` methods and the reader of an open message.
use fastapi_agent_protocol.Base.{
  ℕ, String, ◌≡◌, refl, ◌∙◌, true, false, Option, none, some, List, [], ◌∷◌, arith, nat_eq,
  string_eq, Bool-cases, inl, inr, ◌⊎◌, Option-cases,
}
use fastapi_agent_protocol.Base.Dict
use fastapi_agent_protocol.Base.Dict.{
  Dict, keys, keys-insert_known, keys-insert_new, contains-keys, lookup-insert_self,
}
use fastapi_agent_protocol.Value.{Value, text_truthy}
use fastapi_agent_protocol.Emitter.{
  content_text, Chunk, Fragment, Emitter, BlockState, Work, emit_start, emit_text_delta,
  emit_fragment, emit_tool_call_chunks, open_block, add_fragment_args, fragment_index,
  ensure_text_index,
}
use fastapi_agent_protocol.Translation.{emit_chunk}
use fastapi_agent_protocol.Translation.Grammar.{Reading, idle, streaming, read, read-append}

-- A reader of the frames is at `start` before the first of them.
module _ (start : Reading) where
  -- An emitter whose message is open, after the frames that it has sent.
  pub record Runs (w : Work) : Type 0 where
    pub unfinished : w.emitter.finished ≡ false
    pub begun : w.emitter.started ≡ true
    pub placed : read start w.frames ≡ streaming (keys w.emitter.blocks)

  -- Before `emit_start` a message is open, or its emitter is new and no message is open.
  abbrev pub IsReady : Work → Type 0
  IsReady w =
      Runs w
      ⊎ ((w.emitter.finished ≡ false)
          × (w.emitter.started ≡ false)
          × (w.emitter.blocks ≡ [])
          × (read start w.frames ≡ idle))

  emit_start-Runs : (w : Work) → IsReady w → Runs (emit_start w)
  unfolding emit_start
  emit_start-Runs w (inl r) = simp r.begun r
  emit_start-Runs w (inr (unfinished, new, empty, clean)) = rw new (record {
    unfinished = unfinished;
    begun = refl;
    placed = rw (read-append start w.frames _, clean, empty);
  })

  kept :
      (e : Emitter)
      → ((ensure_text_index e).0.finished ≡ e.finished)
        × ((ensure_text_index e).0.started ≡ e.started)
        × ((ensure_text_index e).0.blocks ≡ e.blocks)
  unfolding ensure_text_index
  kept e = ground arith

  emit_text_delta-Runs :
      (repr : Value → String) (chunk : Chunk) (w : Work)
      → Runs w
      → Runs (emit_text_delta repr chunk w)
  unfolding emit_text_delta
  emit_text_delta-Runs repr chunk w r =
      elim (Bool-cases (text_truthy (content_text repr chunk.content))) [
        | inl some_text ↦ rw some_text (record {
          unfinished = (kept w.emitter).0 ∙ r.unfinished;
          begun = (kept w.emitter).1 ∙ r.begun;
          placed = rw (read-append start w.frames _, r.placed, (kept w.emitter).2);
        })
        | inr no_text ↦ rw no_text r
      ]

  open_block-Runs :
      (w : Work) (index : ℕ) (fragment : Fragment)
      → Runs w
      → Runs (open_block w index fragment).0
        × (Dict.lookup index (open_block w index fragment).0.emitter.blocks
            ≡ some (open_block w index fragment).1)
  unfolding open_block
  open_block-Runs w index fragment r = elim (Option-cases (Dict.lookup index w.emitter.blocks)) [
    | inl new ↦
        rw (new, open_block)
          (
            record {
              unfinished = r.unfinished;
              begun = r.begun;
              placed = rw (
                read-append start w.frames _,
                r.placed,
                contains-keys,
                new,
                keys-insert_new index _ w.emitter.blocks new,
              );
            },
            lookup-insert_self index _ _,
          )
    | inr (old, known) ↦
        rw (known, open_block)
          (
            record {
              unfinished = r.unfinished;
              begun = r.begun;
              placed = rw (keys-insert_known index _ old w.emitter.blocks known) r.placed;
            },
            lookup-insert_self index _ _,
          )
  ]

  add_args-Runs :
      (w : Work) (index : ℕ) (state : BlockState) (args : Option String)
      → Runs w
      → Dict.lookup index w.emitter.blocks ≡ some state
      → Runs (add_fragment_args w index state args)
  add_args-Runs w index state none r known = r
  add_args-Runs w index state (some args) r known = elim (Bool-cases (text_truthy args)) [
    | inl some_text ↦ rw some_text (record {
      unfinished = r.unfinished;
      begun = r.begun;
      placed = rw (
        read-append start w.frames _,
        r.placed,
        contains-keys,
        known,
        keys-insert_known index _ state w.emitter.blocks known,
      );
    })
    | inr no_text ↦ rw no_text r
  ]

  fragment_index-Runs :
      (w : Work) (index : Option ℕ)
      → Runs w
      → Runs (record w { emitter = (fragment_index w.emitter index).0 })
  unfolding fragment_index
  fragment_index-Runs w none r = record {
    unfinished = r.unfinished;
    begun = r.begun;
    placed = r.placed;
  }
  fragment_index-Runs w (some index) r = record {
    unfinished = r.unfinished;
    begun = r.begun;
    placed = r.placed;
  }

  emit_fragment-Runs : (w : Work) (fragment : Fragment) → Runs w → Runs (emit_fragment w fragment)
  unfolding emit_fragment
  emit_fragment-Runs w fragment r =
      let (e, index) = fragment_index w.emitter fragment.index in
      let (r', known) =
        open_block-Runs (record w { emitter = e }) index fragment
          (fragment_index-Runs w fragment.index r) in
      add_args-Runs (open_block (record w { emitter = e }) index fragment).0 index
        (open_block (record w { emitter = e }) index fragment).1 fragment.args r' known

  emit_tool_call_chunks-Runs :
      (w : Work) (fragments : List Fragment) → Runs w → Runs (emit_tool_call_chunks w fragments)
  unfolding emit_tool_call_chunks
  emit_tool_call_chunks-Runs w [] r = r
  emit_tool_call_chunks-Runs w (fragment ∷ rest) r =
      emit_tool_call_chunks-Runs (emit_fragment w fragment) rest (emit_fragment-Runs w fragment r)

  -- A chunk brings an open message on, or opens it.
  pub emit_chunk-Runs :
      (loads : String → Option Value) (repr : Value → String) (chunk : Chunk) (w : Work)
      → IsReady w
      → Runs (emit_chunk loads repr chunk w)
  unfolding emit_chunk
  emit_chunk-Runs loads repr chunk w r =
      emit_tool_call_chunks-Runs _ chunk.tool_call_chunks
        (emit_text_delta-Runs repr chunk (emit_start w) (emit_start-Runs w r))
