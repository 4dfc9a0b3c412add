-- ===== src/Commands.antt =====
-- src/fastapi_agent_protocol/router.py: `dispatch_command`, the commands that a client sends to a
-- thread. A command runs here with nothing else run while it waits.
pub mod Envelopes
pub mod Starting
pub mod Stamping
pub mod Answering
use fastapi_agent_protocol.Base.{
  String, ◌<>◌, Bool, true, false, ◌||◌, Option, none, some, List, [], ◌∷◌, map, if◌then◌else◌,
  ◌==◌, string_eq,
}
use fastapi_agent_protocol.Base.Dict
use fastapi_agent_protocol.Failure.{
  Failure, run_active, unknown_interrupt, unknown_assistant, raised, Result, ok, err, ◌>>=◌,
  run_active_code, run_active_message, unknown_interrupt_code, unknown_interrupt_message,
  unknown_assistant_message,
}
use fastapi_agent_protocol.PyText.{str_of}
use fastapi_agent_protocol.Interrupts.{iterate}
use fastapi_agent_protocol.Params.{or_empty, fields_of, stamped_config}
use fastapi_agent_protocol.Value.{
  Value, null, str, list, dict, Items, nil, cons, Fields, end, field, to_dict, of_dict, get_or_null,
  truthy, text_truthy, hashable,
}
use fastapi_agent_protocol.Manager.{Manager, given, start_value}
use fastapi_agent_protocol.Runner.{respond, cancel}
use fastapi_agent_protocol.Threads.{ThreadRecord}
use fastapi_agent_protocol.Threads.Store.{ThreadStore}
use fastapi_agent_protocol.ThreadState.{Interrupt, StateSnapshot, empty_state}
use fastapi_agent_protocol.Router.{
  Response, json, fails, Libraries, Server, error_envelope, success_envelope, not_found,
  thread_config, assistant_of, state_graph, read_state,
}

-- `{i["id"] for i in …}`, and whether a text is in it.
unfoldable pub all_hashable_ids : List Interrupt → Bool
all_hashable_ids [] = true
all_hashable_ids (i ∷ is) = if hashable i.id then all_hashable_ids is else false

abbrev is_text : Value → String → Bool
is_text (str t) s = s == t
is_text _ s = false

unfoldable pub has_interrupt : String → List Interrupt → Bool
has_interrupt id [] = false
has_interrupt id (i ∷ is) = is_text i.id id || has_interrupt id is

-- `method == name`
abbrev pub is_method : Value → String → Bool
is_method (str s) name = s == name
is_method _ name = false

abbrev no_interrupt : Value → String → Response
no_interrupt cmd_id interrupt_id =
    error_envelope cmd_id "no_such_interrupt" ("no pending interrupt " <> interrupt_id)

-- An exception of a start, or of an answer, as the command's error.
unfoldable pub failure_response : (Value → String) → Value → Failure → Response
failure_response repr cmd_id (run_active thread_id run_id) =
    error_envelope cmd_id run_active_code (run_active_message thread_id run_id)
failure_response repr cmd_id (unknown_interrupt thread_id interrupt_id) =
    error_envelope cmd_id unknown_interrupt_code (unknown_interrupt_message thread_id interrupt_id)
failure_response repr cmd_id (unknown_assistant assistant_id known) =
    error_envelope cmd_id "unknown_command" (unknown_assistant_message repr assistant_id known)
failure_response repr cmd_id e = fails e

-- A start is not expected to meet an unknown interrupt.
unfoldable pub start_failure : (Value → String) → Value → Failure → Response
start_failure repr cmd_id (unknown_interrupt thread_id interrupt_id) =
    fails (unknown_interrupt thread_id interrupt_id)
start_failure repr cmd_id e = failure_response repr cmd_id e

abbrev pub run_envelope : Value → String → Response
run_envelope cmd_id run_id = success_envelope cmd_id (field "run_id" (str run_id) end)

-- A started run has an assistant id that is a text.
abbrev pub id_text : Value → String
id_text (str s) = s
id_text _ = ""

module _ {G S : Type 0} (store : ThreadStore S) (libraries : Libraries G) where
  abbrev pub start_outcome :
      Server G S
      → String
      → Value
      → Value
      → String
      → Result String × Manager G
      → Response × Server G S
  start_outcome server thread_id cmd_id assistant_id now (err e, manager) =
      (start_failure libraries.repr cmd_id e, record server { manager = manager })
  start_outcome server thread_id cmd_id assistant_id now (ok run_id, manager) = (
    run_envelope cmd_id run_id,
    record server {
      manager = manager;
      threads = store.set_assistant server.threads thread_id (id_text assistant_id) now;
    },
  )

  abbrev pub start_configured :
      Server G S
      → String
      → Value
      → Value
      → Fields
      → String
      → String
      → Result Fields
      → Response × Server G S
  start_configured server thread_id cmd_id assistant_id params run_id now (err e) =
      (fails e, server)
  start_configured server thread_id cmd_id assistant_id params run_id now (ok config) =
      start_outcome server thread_id cmd_id assistant_id now (
        start_value server.registry server.manager thread_id assistant_id run_id
          (given (get_or_null "input" params)) (some config) (get_or_null "metadata" params))

  -- `run.start`
  unfoldable pub start_command :
      Server G S → String → ThreadRecord → Value → Fields → String → String → Response × Server G S
  start_command server thread_id r cmd_id params run_id now =
      if truthy (get_or_null "assistant_id" params)
      then start_configured server thread_id cmd_id (get_or_null "assistant_id" params) params
          run_id now (stamped_config (get_or_null "config" params) r.metadata)
      else (error_envelope cmd_id "invalid_argument" "missing assistant_id", server)

  abbrev pub respond_outcome :
      Server G S → Value → Result String × Manager G → Response × Server G S
  respond_outcome server cmd_id (err e, manager) =
      (failure_response libraries.repr cmd_id e, record server { manager = manager })
  respond_outcome server cmd_id (ok run_id, manager) =
      (run_envelope cmd_id run_id, record server { manager = manager })

  abbrev pub respond_pending :
      Server G S → String → Value → String → Value → String → StateSnapshot → Response × Server G S
  respond_pending server thread_id cmd_id interrupt_id response run_id snapshot =
      if all_hashable_ids snapshot.interrupts
      then (if has_interrupt interrupt_id snapshot.interrupts
          then respond_outcome server cmd_id (
              respond server.registry server.manager thread_id interrupt_id run_id response
                (assistant_of store libraries (store.get server.threads thread_id)))
          else (no_interrupt cmd_id interrupt_id, server))
      else (fails (raised "TypeError" "unhashable type"), server)

  abbrev pub respond_read :
      Server G S
      → String
      → Value
      → String
      → Value
      → String
      → Result StateSnapshot
      → Response × Server G S
  respond_read server thread_id cmd_id interrupt_id response run_id (err e) = (fails e, server)
  respond_read server thread_id cmd_id interrupt_id response run_id (ok snapshot) =
      respond_pending server thread_id cmd_id interrupt_id response run_id snapshot

  -- The graph's resolution stands outside of every `try`.
  abbrev pub respond_graph :
      Server G S
      → String
      → Value
      → String
      → Value
      → String
      → Result (Option G)
      → Response × Server G S
  respond_graph server thread_id cmd_id interrupt_id response run_id (err e) = (fails e, server)
  respond_graph server thread_id cmd_id interrupt_id response run_id (ok none) =
      (no_interrupt cmd_id interrupt_id, server)
  respond_graph server thread_id cmd_id interrupt_id response run_id (ok (some graph)) =
      respond_read server thread_id cmd_id interrupt_id response run_id
        (libraries.aget_state graph (thread_config thread_id))

  -- `str(params.get("interrupt_id") or "")`
  abbrev pub interrupt_id_of : Fields → String
  interrupt_id_of params =
      if truthy (get_or_null "interrupt_id" params)
      then str_of libraries.repr (get_or_null "interrupt_id" params)
      else ""

  -- `input.respond`
  unfoldable pub respond_command :
      Server G S → String → Value → Fields → String → Response × Server G S
  respond_command server thread_id cmd_id params run_id =
      if text_truthy (interrupt_id_of params)
      then respond_graph server thread_id cmd_id (interrupt_id_of params)
          (get_or_null "response" params) run_id (state_graph store libraries server thread_id)
      else (error_envelope cmd_id "invalid_argument" "missing interrupt_id", server)

  -- `run.cancel`
  unfoldable pub cancel_command : Server G S → String → Value → Fields → Response × Server G S
  cancel_command server thread_id cmd_id params =
      let (found, manager) = cancel server.manager thread_id (get_or_null "run_id" params) in
      (success_envelope cmd_id end, record server { manager = manager })

  abbrev pub state_envelope : Value → Result Fields → Response
  state_envelope cmd_id (err e) = fails e
  state_envelope cmd_id (ok fs) = success_envelope cmd_id fs

  abbrev pub state_response : String → Value → Result (Option G) → Response
  state_response thread_id cmd_id (err (unknown_assistant _ _)) =
      error_envelope cmd_id "unknown_command"
        ("assistant for thread " <> thread_id <> " is not registered")
  state_response thread_id cmd_id (err e) = fails e
  state_response thread_id cmd_id (ok none) = success_envelope cmd_id (empty_state thread_id)
  state_response thread_id cmd_id (ok (some graph)) =
      state_envelope cmd_id (read_state store libraries graph thread_id)

  -- `state.get`
  unfoldable pub state_command : Server G S → String → Value → Response
  state_command server thread_id cmd_id =
      state_response thread_id cmd_id (state_graph store libraries server thread_id)

  -- A method that reads its params.
  abbrev pub with_params :
      Server G S → Result Fields → (Fields → Response × Server G S) → Response × Server G S
  with_params server (err e) run = (fails e, server)
  with_params server (ok params) run = run params

  abbrev pub by_method :
      Server G S
      → String
      → ThreadRecord
      → Value
      → Value
      → Result Fields
      → String
      → String
      → Response × Server G S
  by_method server thread_id r cmd_id method params run_id now =
      if is_method method "run.start"
      then with_params server params (λ ps. start_command server thread_id r cmd_id ps run_id now)
      else if is_method method "input.respond"
      then with_params server params (λ ps. respond_command server thread_id cmd_id ps run_id)
      else if is_method method "run.cancel"
      then with_params server params (λ ps. cancel_command server thread_id cmd_id ps)
      else if is_method method "state.get"
      then (state_command server thread_id cmd_id, server)
      else (
        error_envelope cmd_id "unknown_command"
            ("unsupported method: " <> str_of libraries.repr method),
        server,
      )

  abbrev pub known_thread :
      Server G S → String → ThreadRecord → Option Value → String → String → Response × Server G S
  known_thread server thread_id r none run_id now =
      (error_envelope null "invalid_argument" "invalid JSON body", server)
  known_thread server thread_id r (some (dict fs)) run_id now =
      by_method server thread_id r (get_or_null "id" fs) (get_or_null "method" fs)
        (fields_of (or_empty (get_or_null "params" fs))) run_id now
  known_thread server thread_id r (some v) run_id now =
      (error_envelope null "invalid_argument" "invalid command body", server)

  -- `dispatch_command`. `body` is none if the request is no JSON; a run that is started gets
  -- `run_id`, and the thread the time `now`.
  unfoldable pub dispatch_command :
      Server G S → String → Option Value → String → String → Response × Server G S
  unfolding start_command respond_command cancel_command state_command
  dispatch_command server thread_id body run_id now = elim (store.get server.threads thread_id) [
    | none ↦ (not_found, server)
    | some r ↦ known_thread server thread_id r body run_id now
  ]
