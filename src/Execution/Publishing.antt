-- ===== src/Execution/Publishing.antt =====
-- runner.py, `_execute`, and translation.py, the sinks: the events that a run publishes on its hub.
use fastapi_agent_protocol.Base.{ℕ, String, Option, none, some}
use fastapi_agent_protocol.Base.Int.{pos}
use fastapi_agent_protocol.Value.{Value, null, int, str, dict, Fields, end, field}
use fastapi_agent_protocol.Emitter.{
  Frame, message_start, text_delta, block_start, block_delta, block_finish, message_finish,
}
use fastapi_agent_protocol.Hub.{Publication}
use fastapi_agent_protocol.Execution.{Output, lifecycle, message, state, requested}

abbrev text_or_null : Option String → Value
text_or_null none = null
text_or_null (some s) = str s

abbrev index_value : ℕ → Value
index_value n = int (pos n)

-- `usage` stands in the frame only if there is some.
abbrev usage_fields : Value → Fields
usage_fields null = end
usage_fields usage = field "usage" usage end

-- The dict of a frame.
unfoldable pub frame_data : Frame → Fields
frame_data (message_start role id) =
    field "event" (str "message-start") (field "role" (str role) (field "id" (str id) end))
frame_data (text_delta index text) = field "event" (str "content-block-delta") (
    field "index" (index_value index)
      (field "delta" (dict (field "type" (str "text-delta") (field "text" (str text) end))) end))
frame_data (block_start index id name) = field "event" (str "content-block-start") (
    field "index" (index_value index) (
      field "content"
        (dict (
          field "type" (str "tool_call_chunk") (
            field "id" (text_or_null id) (
              field "name" (text_or_null name)
                (field "args" (str "") (field "index" (index_value index) end))))))
        end))
frame_data (block_delta index id name args) = field "event" (str "content-block-delta") (
    field "index" (index_value index) (
      field "delta"
        (dict (
          field "type" (str "block-delta") (
            field "fields"
              (dict (
                field "type" (str "tool_call_chunk") (
                  field "id" (text_or_null id)
                    (field "name" (text_or_null name) (field "args" (str args) end)))))
              end)))
        end))
frame_data (block_finish index id name args) = field "event" (str "content-block-finish") (
    field "index" (index_value index) (
      field "content"
        (dict (
          field "type" (str "tool_call") (
            field "id" (text_or_null id) (
              field "name" (text_or_null name)
                (field "args" args (field "index" (index_value index) end))))))
        end))
frame_data (message_finish usage) = field "event" (str "message-finish") (usage_fields usage)

-- What `hub.publish` is called with: the method and the data.
unfoldable pub output_event : Output → String × Value
unfolding frame_data
output_event (lifecycle fs) = ("lifecycle", dict fs)
output_event (message frame) = ("messages", dict (frame_data frame))
output_event (state fs) = ("values", dict fs)
output_event (requested id payload) =
    ("input.requested", dict (field "interrupt_id" (str id) (field "payload" payload end)))

-- The call, at the time `now`.
unfoldable pub publication_of : ℕ × Output → Publication
publication_of (now, output) = record {
  method = (output_event output).0;
  payload = (output_event output).1;
  namespace = none;
  timestamp = none;
  event_id = none;
  now = now;
}
