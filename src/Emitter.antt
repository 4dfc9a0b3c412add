-- ===== src/Emitter.antt =====
-- src/fastapi_agent_protocol/translation.py: the frames of one message, `MessageFrameEmitter` and the
-- `_emit_…` methods. The sink is the list of the frames sent so far. What the code reads of a chunk
-- by `getattr` is a field of `Chunk`.
use fastapi_agent_protocol.Base.{
  ℕ, ◌+◌, String, ◌<>◌, Bool, true, false, Option, none, some, List, [], ◌∷◌, ◌++◌, if◌then◌else◌,
  ◌||◌, ◌==◌, nat_eq, list_eq, string_eq,
}
use fastapi_agent_protocol.Base.Dict
use fastapi_agent_protocol.Base.Dict.{Dict}
use fastapi_agent_protocol.Base.Text.{join}
use fastapi_agent_protocol.PyText.{str_of, codes, lower}
use fastapi_agent_protocol.Value.{
  Value, Items, nil, cons, null, str, list, dict, truthy, text_truthy, get_or_null, keyed,
  pairs_or_null,
}

abbrev role_by_type : Dict (List ℕ) String
role_by_type =
    (codes "aimessage", "ai")
    ∷ (codes "aimessagechunk", "ai")
    ∷ (codes "humanmessage", "human")
    ∷ (codes "humanmessagechunk", "human")
    ∷ (codes "systemmessage", "system")
    ∷ (codes "systemmessagechunk", "system")
    ∷ (codes "toolmessage", "tool")
    ∷ (codes "toolmessagechunk", "tool")
    ∷ []

-- An entry of `tool_call_chunks`.
pub record Fragment : Type 0 where
  pub index : Option ℕ
  pub id : Option String
  pub name : Option String
  pub args : Option String

pub record Chunk : Type 0 where
  -- `type`, the empty text if there is none
  pub kind : String
  pub id : Option String
  -- Python's `id(chunk)`
  pub address : ℕ
  pub content : Value
  pub tool_call_chunks : List Fragment
  pub usage_metadata : Value

unfoldable pub role : Chunk → Option String
role chunk = Dict.lookup (lower chunk.kind) role_by_type

pub data Frame : Type 0 where
  message_start : String → String → Frame
  text_delta : ℕ → String → Frame
  block_start : ℕ → Option String → Option String → Frame
  block_delta : ℕ → Option String → Option String → String → Frame
  block_finish : ℕ → Option String → Option String → Value → Frame
  message_finish : Value → Frame

-- `_BlockState`; its index is its key in `blocks`.
pub record BlockState : Type 0 where
  pub call_id : Option String
  pub name : Option String
  pub args : String

-- `MessageFrameEmitter`
pub record Emitter : Type 0 where
  pub message_id : String
  pub role : String
  pub started : Bool
  pub finished : Bool
  pub text_index : Option ℕ
  pub blocks : Dict ℕ BlockState
  pub next_index : ℕ
  pub usage : Value

abbrev pub new_emitter : String → String → Emitter
new_emitter message_id role = record {
  message_id = message_id;
  role = role;
  started = false;
  finished = false;
  text_index = none;
  blocks = [];
  next_index = 0;
  usage = null;
}

-- An emitter at work, and what the sink has got.
pub record Work : Type 0 where
  pub emitter : Emitter
  pub frames : List Frame

abbrev pub send : Work → Frame → Work
send w frame = record w { frames = w.frames ++ frame ∷ [] }

-- `a or b` on texts that may be `None`
unfoldable pub or_text : Option String → Option String → Option String
or_text none b = b
or_text (some a) b = if text_truthy a then some a else b

unfoldable pub emit_start : Work → Work
emit_start w = if w.emitter.started then w else record w {
  emitter = record w.emitter { started = true };
  frames = w.frames ++ message_start w.emitter.role w.emitter.message_id ∷ [];
}

-- `_ensure_text_index`, with `allocate_index`
unfoldable pub ensure_text_index : Emitter → Emitter × ℕ
ensure_text_index e = elim e.text_index [
  | none ↦
      (record e { text_index = some e.next_index; next_index = e.next_index + 1 }, e.next_index)
  | some index ↦ (e, index)
]

abbrev is_text : Value → Bool
is_text (str s) = s == "text" || s == "text_delta"
is_text _ = false

-- A block of the content list: a text, or a dict of type `text` or `text_delta`.
unfoldable pub block_text : (Value → String) → Value → String
block_text repr (str s) = s
block_text repr (dict fs) =
    if is_text (get_or_null "type" fs)
    then (if truthy (get_or_null "text" fs) then str_of repr (get_or_null "text" fs) else "")
    else ""
block_text repr (keyed ps) =
    if is_text (pairs_or_null "type" ps)
    then (if truthy (pairs_or_null "text" ps) then str_of repr (pairs_or_null "text" ps) else "")
    else ""
block_text repr v = ""

abbrev pub block_texts : (Value → String) → Items → List String
block_texts repr nil = []
block_texts repr (cons v vs) = block_text repr v ∷ block_texts repr vs

unfoldable pub content_text : (Value → String) → Value → String
content_text repr (str s) = s
content_text repr (list vs) = join (block_texts repr vs)
content_text repr _ = ""

-- `_emit_text_delta`
unfoldable pub emit_text_delta : (Value → String) → Chunk → Work → Work
emit_text_delta repr chunk w =
    let text = content_text repr chunk.content in
    let (e, index) = ensure_text_index w.emitter in
    if text_truthy text
    then record { emitter = e; frames = w.frames ++ text_delta index text ∷ [] }
    else w

-- `index`, or a fresh one
unfoldable pub fragment_index : Emitter → Option ℕ → Emitter × ℕ
fragment_index e none = (record e { next_index = e.next_index + 1 }, e.next_index)
fragment_index e (some index) = (e, index)

abbrev pub store_block : Work → ℕ → BlockState → Work
store_block w index state = record w {
  emitter = record w.emitter { blocks = Dict.insert index state w.emitter.blocks };
}

-- The block of a fragment: a new one is announced, a known one gets the names that it lacks.
unfoldable pub open_block : Work → ℕ → Fragment → Work × BlockState
open_block w index fragment = elim (Dict.lookup index w.emitter.blocks) [
  | none ↦
      let state : BlockState = record { call_id = fragment.id; name = fragment.name; args = "" } in
      (send (store_block w index state) (block_start index fragment.id fragment.name), state)
  | some old ↦
      let state : BlockState = record old {
        call_id = or_text old.call_id fragment.id;
        name = or_text old.name fragment.name;
      } in
      (store_block w index state, state)
]

abbrev pub add_args : Work → ℕ → BlockState → String → Work
add_args w index state args =
    if text_truthy args
    then send (store_block w index (record state { args = state.args <> args }))
        (block_delta index state.call_id state.name args)
    else w

abbrev pub add_fragment_args : Work → ℕ → BlockState → Option String → Work
add_fragment_args w index state none = w
add_fragment_args w index state (some args) = add_args w index state args

-- One turn of the loop of `_emit_tool_call_chunks`.
unfoldable pub emit_fragment : Work → Fragment → Work
emit_fragment w fragment =
    let (e, index) = fragment_index w.emitter fragment.index in
    let (w', state) = open_block (record w { emitter = e }) index fragment in
    add_fragment_args w' index state fragment.args

unfoldable pub emit_tool_call_chunks : Work → List Fragment → Work
unfolding emit_fragment
emit_tool_call_chunks w [] = w
emit_tool_call_chunks w (fragment ∷ rest) = emit_tool_call_chunks (emit_fragment w fragment) rest
