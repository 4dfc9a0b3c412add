-- ===== src/Translation.antt =====
-- src/fastapi_agent_protocol/translation.py: `MessagesTranslator` turns streamed message chunks into
-- protocol frames. `loads` stands for `json.loads`, `none` being a decoding error.
pub mod Grammar
mod Emitting
pub mod OpenMessages
pub mod Framing
pub mod Content
use fastapi_agent_protocol.Base.{
  ℕ, String, ◌<>◌, Bool, true, Option, none, some, List, [], ◌∷◌, ◌++◌, leb, if◌then◌else◌,
  string_eq,
}
use fastapi_agent_protocol.Base.Dict
use fastapi_agent_protocol.Base.Dict.{Dict}
use fastapi_agent_protocol.Base.Text.{decimal}
use fastapi_agent_protocol.Value.{Value, null, str, dict, end, field, truthy, text_truthy}
use fastapi_agent_protocol.Emitter.{
  Chunk, role, Frame, block_finish, message_finish, BlockState, Emitter, new_emitter, Work, or_text,
  emit_start, emit_text_delta, emit_tool_call_chunks,
}

pub record Translator : Type 0 where
  pub opened : Dict String Emitter
  pub frames : List Frame

abbrev pub new_translator : Translator
new_translator = record { opened = []; frames = [] }

-- `sorted(emitter.blocks)`, with the states
unfoldable pub insert_block : ℕ → BlockState → Dict ℕ BlockState → Dict ℕ BlockState
insert_block i state [] = (i, state) ∷ []
insert_block i state ((j, other) ∷ rest) =
    if leb i j then (i, state) ∷ (j, other) ∷ rest else (j, other) ∷ insert_block i state rest

unfoldable pub sort_blocks : Dict ℕ BlockState → Dict ℕ BlockState
sort_blocks [] = []
sort_blocks ((i, state) ∷ rest) = insert_block i state (sort_blocks rest)

module _ (loads : String → Option Value) where
  abbrev as_dict : Value → Value
  as_dict (dict fs) = dict fs
  as_dict v = dict (field "value" v end)

  -- `_BlockState.parse_args`
  unfoldable pub parse_args : String → Value
  parse_args args =
      let raw = if text_truthy args then args else "{}" in
      elim (loads raw) [ none ↦ dict (field "raw" (str raw) end) | some v ↦ as_dict v ]

  unfoldable pub finish_frames : Dict ℕ BlockState → List Frame
  finish_frames [] = []
  finish_frames ((index, state) ∷ blocks) =
      block_finish index state.call_id state.name (parse_args state.args) ∷ finish_frames blocks

  -- One turn of the loop of `finish`, on an emitter that is not finished.
  unfoldable pub finish_emitter : Value → Emitter → Emitter × List Frame
  finish_emitter usage e =
      let usage' = if truthy usage then usage else e.usage in
      (
        record e { usage = usage'; finished = true },
        finish_frames (sort_blocks e.blocks)
            ++ message_finish (if truthy usage' then usage' else null) ∷ [],
      )

  -- `finish(None)`: every open message, in the order in which they were opened.
  unfoldable pub finish_open : Dict String Emitter → Dict String Emitter × List Frame
  finish_open [] = ([], [])
  finish_open ((id, e) ∷ rest) =
      let (rest', frames) = finish_open rest in
      let (e', own) = finish_emitter null e in
      if e.finished then ((id, e) ∷ rest', frames) else ((id, e') ∷ rest', own ++ frames)

  unfoldable pub finish_all : Translator → Translator
  finish_all t =
      let (opened, frames) = finish_open t.opened in
      record { opened = opened; frames = t.frames ++ frames }

  abbrev pub finish_one : Translator → String → Value → Option Emitter → Translator
  finish_one t id usage none = t
  finish_one t id usage (some e) =
      let (e', frames) = finish_emitter usage e in
      if e.finished
      then t
      else record { opened = Dict.insert id e' t.opened; frames = t.frames ++ frames }

  abbrev pub finish_id : Translator → Option String → Value → Translator
  finish_id t none usage = t
  finish_id t (some id) usage =
      if text_truthy id then finish_one t id usage (Dict.lookup id t.opened) else t

  -- `finish(chunk)`
  unfoldable pub finish_chunk : Translator → Chunk → Translator
  finish_chunk t chunk = finish_id t chunk.id chunk.usage_metadata

  -- `getattr(chunk, "id", None) or f"msg-{id(chunk)}"`
  unfoldable pub message_id : Chunk → String
  message_id chunk = elim (or_text chunk.id (some ("msg-" <> decimal chunk.address))) [
    | none ↦ ""
    | some id ↦ id
  ]

  module _ (repr : Value → String) where
    -- The three `_emit_…` calls of `feed`.
    unfoldable pub emit_chunk : Chunk → Work → Work
    emit_chunk chunk w =
        emit_tool_call_chunks (emit_text_delta repr chunk (emit_start w)) chunk.tool_call_chunks

    unfoldable pub feed_emitter : Translator → String → Emitter → Chunk → Translator
    feed_emitter t id e chunk =
        let w = emit_chunk chunk (record { emitter = e; frames = t.frames }) in
        if e.finished
        then t
        else record { opened = Dict.insert id w.emitter t.opened; frames = w.frames }

    abbrev pub feed_role : Translator → Chunk → Option String → Translator
    feed_role t chunk none = t
    feed_role t chunk (some r) = elim (Dict.lookup (message_id chunk) t.opened) [
      | some e ↦ feed_emitter t (message_id chunk) e chunk
      | none ↦
          let e = new_emitter (message_id chunk) r in
          let t' = finish_all t in
          feed_emitter (record t' { opened = Dict.insert (message_id chunk) e t'.opened })
            (message_id chunk) e chunk
    ]

    unfoldable pub feed : Translator → Chunk → Translator
    feed t chunk = feed_role t chunk (role chunk)
