-- ===== src/Execution.antt =====
-- src/fastapi_agent_protocol/runner.py: `_execute`, the run of a graph on a thread, from the items
-- that the graph streams and how its stream ends. What is published on the thread's hub is a list
-- of outputs. `loads` is `json.loads`, `message_to_dict` is langchain_core's.
pub mod Lifecycle
pub mod Frames
pub mod Publishing
pub mod Delivery
use fastapi_agent_protocol.Base.{
  String, ◌<>◌, Bool, true, false, Option, none, some, List, [], ◌∷◌, ◌++◌, map, if◌then◌else◌,
}
use fastapi_agent_protocol.Failure.{
  Failure, run_active, unknown_interrupt, unknown_assistant, raised, cancelled, is_exception,
  Result, ok, err, ◌>>=◌, run_active_message, unknown_interrupt_message, unknown_assistant_message,
}
use fastapi_agent_protocol.Value.{Value, str, Fields, end, field, truthy}
use fastapi_agent_protocol.Emitter.{Chunk, Frame}
use fastapi_agent_protocol.Translation.{Translator, new_translator, feed, finish_chunk, finish_all}
use fastapi_agent_protocol.Serialize.{serialize_values}
use fastapi_agent_protocol.Interrupts.{interrupts_from_snapshot}

-- What the graph streams: a message chunk, a state, or a tuple of another mode.
pub data StreamItem : Type 0 where
  messages : Chunk → StreamItem
  values : Fields → StreamItem
  other_mode : StreamItem

-- The stream ends, or the graph raises, or the task is cancelled there.
pub data Ending : Type 0 where
  exhausted : Ending
  fails : Failure → Ending

-- What is published: `lifecycle`, `messages`, `values` and `input.requested` events.
pub data Output : Type 0 where
  lifecycle : Fields → Output
  message : Frame → Output
  state : Fields → Output
  requested : String → Value → Output

-- `_lifecycle`
unfoldable pub lifecycle_data : String → String → Fields → Fields
lifecycle_data graph_name status extra =
    field "event" (str status) (field "graph_name" (str graph_name) extra)

-- `f"{type(exc).__name__}: {exc}"`
abbrev pub failure_text : (Value → String) → Failure → String
failure_text repr (run_active thread_id run_id) =
    "RunActiveError: " <> run_active_message thread_id run_id
failure_text repr (unknown_interrupt thread_id interrupt_id) =
    "UnknownInterruptError: " <> unknown_interrupt_message thread_id interrupt_id
failure_text repr (unknown_assistant assistant_id known) =
    "UnknownAssistantError: " <> unknown_assistant_message repr assistant_id known
failure_text repr (raised class text) = class <> ": " <> text
failure_text repr cancelled = "CancelledError: "

-- A run in progress.
pub record Progress : Type 0 where
  pub translator : Translator
  pub last_values : Option Fields
  pub outputs : List Output

-- A run at its end: what `_register_pending` got, if it was called, and the cancellation, if it is
-- raised again.
pub record Outcome : Type 0 where
  pub outputs : List Output
  pub pending : Option (List (String × Value))
  pub reraised : Option Failure

abbrev emit : Progress → Output → Progress
emit p output = record p { outputs = p.outputs ++ output ∷ [] }

-- The frames of a translator's call are published as it makes them.
unfoldable pub translated : Progress → Translator → Progress
translated p t = record p {
  translator = record t { frames = [] };
  outputs = p.outputs ++ map message t.frames;
}

-- `_snapshot_values`: `none` is a graph without `aget_state`, otherwise its call has a result.
unfoldable pub snapshot_values : Option (Result Fields) → Result Fields
snapshot_values none = ok end
snapshot_values (some (ok fs)) = ok fs
snapshot_values (some (err e)) = if is_exception e then ok end else err e

abbrev requests : List (String × Value) → List Output
requests [] = []
requests ((id, payload) ∷ rest) = requested id payload ∷ requests rest

module _ (loads : String → Option Value) (repr : Value → String)
    (message_to_dict : Value → Option (Fields × Value)) where
  -- One turn of the `async for`.
  unfoldable pub take_item : Progress → StreamItem → Progress
  take_item p (messages chunk) =
      let fed = translated p (feed loads repr p.translator chunk) in
      if truthy chunk.usage_metadata
      then translated fed (finish_chunk loads fed.translator chunk)
      else fed
  take_item p (values fs) =
      emit (record p { last_values = some fs }) (state (serialize_values message_to_dict repr fs))
  take_item p other_mode = p

  unfoldable pub take_items : Progress → List StreamItem → Progress
  unfolding take_item
  take_items p [] = p
  take_items p (item ∷ items) = take_items (take_item p item) items

  -- The interrupts after the stream's end: of the last state streamed, or of the snapshot.
  unfoldable pub found_interrupts :
      Option Fields → Option (Result Fields) → Result (List (String × Value))
  found_interrupts none snapshot = snapshot_values snapshot >>= interrupts_from_snapshot repr
  found_interrupts (some fs) snapshot = interrupts_from_snapshot repr fs

  -- What the `try` comes to.
  unfoldable pub result_of :
      Progress → Ending → Option (Result Fields) → Result (List (String × Value))
  result_of p exhausted snapshot = found_interrupts p.last_values snapshot
  result_of p (fails e) snapshot = err e

  abbrev finish_messages : Progress → Progress
  finish_messages p = translated p (finish_all loads p.translator)

  -- The rest of the `try`, or one of the two handlers.
  unfoldable pub conclude : String → Progress → Result (List (String × Value)) → Outcome
  conclude name p (ok []) = record {
    outputs = (finish_messages p).outputs ++ lifecycle (lifecycle_data name "completed" end) ∷ [];
    pending = none;
    reraised = none;
  }
  conclude name p (ok ((id, payload) ∷ more)) = record {
    outputs =
        p.outputs
        ++ lifecycle (lifecycle_data name "interrupted" end) ∷ requests ((id, payload) ∷ more);
    pending = some ((id, payload) ∷ more);
    reraised = none;
  }
  conclude name p (err e) =
      if is_exception e
      then record {
        outputs =
            (finish_messages p).outputs
            ++ lifecycle
                (lifecycle_data name "failed" (field "error" (str (failure_text repr e)) end))
              ∷ [];
        pending = none;
        reraised = none;
      }
      else record {
        outputs =
            (finish_messages p).outputs ++ lifecycle (lifecycle_data name "interrupted" end) ∷ [];
        pending = none;
        reraised = some e;
      }

  unfoldable pub begun : String → Progress
  begun name = record {
    translator = new_translator;
    last_values = none;
    outputs =
        lifecycle (lifecycle_data name "started" end)
        ∷ lifecycle (lifecycle_data name "running" end)
        ∷ [];
  }

  unfoldable pub execute : String → List StreamItem → Ending → Option (Result Fields) → Outcome
  execute name items ending snapshot =
      let p = take_items (begun name) items in conclude name p (result_of p ending snapshot)
