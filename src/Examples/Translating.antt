-- ===== src/Examples/Translating.antt =====
-- translation.py and runner.py, `_execute`: streams of chunks and runs at concrete inputs.
use fastapi_agent_protocol.Base.{
  String, ◌≡◌, Option, none, some, List, [], ◌∷◌, string_eq, nat_eq, list_eq,
}
use fastapi_agent_protocol.Value.{Value, null, str, list, dict, cons, nil, Fields, end, field}
use fastapi_agent_protocol.Emitter.{Chunk}
use fastapi_agent_protocol.Translation.{new_translator, finish_all}
use fastapi_agent_protocol.Base.{if◌then◌else◌, ◌++◌}
use fastapi_agent_protocol.Emitter.{role}
use fastapi_agent_protocol.Translation.{feed}
use fastapi_agent_protocol.Translation.Content.{texts, pieces, is_taken, texts-feed}
use fastapi_agent_protocol.Translation.Grammar.{read, idle}
use fastapi_agent_protocol.Translation.Framing.{
  Call, feeds, finishes, translate, frames_obey_grammar,
}
use fastapi_agent_protocol.Execution.Frames.{HasFramed, execute-HasFramed}
use fastapi_agent_protocol.Execution.{
  StreamItem, messages, values, exhausted, execute, take_items, result_of, begun, lifecycle_data,
}
use fastapi_agent_protocol.Execution.Lifecycle.{
  lifecycles, requested_in, terminal, waiting, registered, execute-Concludes,
}

-- The other libraries' functions, as far as these examples need them.
abbrev pub loads : String → Option Value
loads s = none

abbrev pub repr : Value → String
repr v = "object"

abbrev pub message_to_dict : Value → Option (Fields × Value)
message_to_dict v = none

abbrev text_chunk : String → Chunk
text_chunk text = record {
  kind = "AIMessageChunk";
  id = some "m1";
  address = 7;
  content = str text;
  tool_call_chunks = [];
  usage_metadata = null;
}

-- The same message calls a tool.
abbrev tool_chunk : Chunk
tool_chunk = record (text_chunk "") {
  tool_call_chunks =
      (record { index = some 1; id = some "c1"; name = some "search"; args = some "{" }) ∷ [];
}

abbrev other_chunk : Chunk
other_chunk = record (text_chunk "again") { id = some "m2" }

abbrev calls : List Call
calls =
    feeds (text_chunk "hello")
    ∷ feeds tool_chunk
    ∷ feeds other_chunk
    ∷ finishes other_chunk
    ∷ feeds (text_chunk "late")
    ∷ []

frames_obey_grammar_example :
    read idle (finish_all loads (translate loads repr new_translator calls)).frames ≡ idle
frames_obey_grammar_example = frames_obey_grammar loads repr calls

texts-feed_example :
    texts (feed loads repr new_translator (text_chunk "hello")).frames
    ≡ []
      ++ (if is_taken repr loads new_translator (text_chunk "hello") (role (text_chunk "hello"))
          then pieces repr (text_chunk "hello")
          else [])
texts-feed_example = texts-feed repr loads new_translator (text_chunk "hello")

-- A graph that streams a message and a state with an interrupt.
abbrev interrupt : Value
interrupt = dict (field "id" (str "i") (field "value" (str "go on?") end))

abbrev stopped : Fields
stopped = field "__interrupt__" (list (cons interrupt nil)) end

abbrev items : List StreamItem
items = messages (text_chunk "hello") ∷ values stopped ∷ []

execute-Concludes_example :
    let p = take_items loads repr message_to_dict (begun loads repr message_to_dict "beta") items in
    let result = result_of loads repr message_to_dict p exhausted none in
    let o = execute loads repr message_to_dict "beta" items exhausted none in
    (lifecycles o.outputs
      ≡ lifecycle_data "beta" "started" end
        ∷ lifecycle_data "beta" "running" end
        ∷ terminal repr "beta" result
        ∷ [])
    × (requested_in o.outputs ≡ waiting result)
    × (o.pending ≡ registered (waiting result))
execute-Concludes_example = execute-Concludes loads repr message_to_dict "beta" items exhausted none

execute-HasFramed_example :
    HasFramed loads repr message_to_dict
      (execute loads repr message_to_dict "beta" items exhausted none)
execute-HasFramed_example = execute-HasFramed loads repr message_to_dict "beta" items exhausted none
