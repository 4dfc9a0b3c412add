-- ===== src/Router.antt =====
-- src/fastapi_agent_protocol/router.py: the routes other than the event stream and the commands. A
-- handler runs here with nothing else run while it waits. The state of the server is that of the
-- thread store and of the run manager; the registry is changed by registration only. What other
-- libraries do for a graph is an argument: see `Libraries`.
pub mod Requests
pub mod Paging
pub mod Searching
use fastapi_agent_protocol.Base.{
  ℕ, zero, suc, String, ◌<>◌, Bool, true, false, Option, none, some, List, [], ◌∷◌, map,
  if◌then◌else◌,
}
use fastapi_agent_protocol.Base.Int.{ℤ, pos, negsuc, to_nat}
use fastapi_agent_protocol.Failure.{Failure, unknown_assistant, raised, Result, ok, err, ◌>>=◌}
use fastapi_agent_protocol.Value.{
  Value, null, bool, int, str, list, dict, Fields, end, field, of_list, get_or_null, truthy,
}
use fastapi_agent_protocol.Registry.{AgentRegistry, resolve, assistant_ids}
use fastapi_agent_protocol.Manager.{Manager, active_run, ActiveRun}
use fastapi_agent_protocol.Runner.{cancel}
use fastapi_agent_protocol.Threads.{ThreadRecord}
use fastapi_agent_protocol.Threads.Store.{ThreadStore}
use fastapi_agent_protocol.History.{CheckpointTuple, read_thread_history}
use fastapi_agent_protocol.ThreadState.{StateSnapshot, empty_state, read_thread_state}

-- What an endpoint answers: a status and a body, or an exception that the framework turns into a 500.
pub data Response : Type 0 where
  json : ℕ → Value → Response
  fails : Failure → Response

-- LangGraph's part in a graph of type `G`, on a config's `configurable`, and other libraries'
-- functions on values.
pub record Libraries (G : Type 0) : Type 0 where
  pub aget_state : G → Fields → Result StateSnapshot
  pub alist : G → Option (Option Fields → ℕ → Result (List CheckpointTuple))
  pub isoformat : Value → String
  pub message_to_dict : Value → Option (Fields × Value)
  pub repr : Value → String

pub record Server (G S : Type 0) : Type 0 where
  pub registry : AgentRegistry G
  pub manager : Manager G
  pub threads : S

abbrev pub error_envelope : Value → String → String → Response
error_envelope cmd_id code message = json 200 (
    dict (
      field "type" (str "error")
        (field "id" cmd_id (field "error" (str code) (field "message" (str message) end)))))

abbrev pub success_envelope : Value → Fields → Response
success_envelope cmd_id result =
    json 200
      (dict (field "type" (str "success") (field "id" cmd_id (field "result" (dict result) end))))

abbrev pub not_found : Response
not_found = json 404 (dict (field "detail" (str "thread not found") end))

-- The `configurable` of `_thread_config`.
unfoldable pub thread_config : String → Fields
thread_config thread_id = field "thread_id" (str thread_id) (field "checkpoint_ns" (str "") end)

abbrev pub metadata_of : Value → Fields
metadata_of (dict fs) = fs
metadata_of _ = end

-- The body of a request that may be no JSON, where only an object counts.
abbrev pub body_of : Option Value → Fields
body_of (some (dict fs)) = fs
body_of _ = end

-- `isinstance(v, int)`, which a truth value meets too.
unfoldable pub int_of : Value → Option ℤ
int_of (int n) = some n
int_of (bool b) = some (if b then pos 1 else pos 0)
int_of _ = none

module _ {G S : Type 0} (store : ThreadStore S) (libraries : Libraries G) where
  abbrev thread_json : ThreadRecord → Response
  thread_json r = json 200 (
      dict (
        field "thread_id" (str r.thread_id) (
          field "created_at" (str r.created_at) (
            field "updated_at" (str r.updated_at) (
              field "state_updated_at" null (
                field "metadata" (dict r.metadata) (
                  field "status" (str "idle")
                    (field "config" (dict end) (field "values" null end)))))))))

  abbrev created : Server G S → Result (S × ThreadRecord) → Response × Server G S
  created server (err e) = (fails e, server)
  created server (ok (threads, r)) = (thread_json r, record server { threads = threads })

  -- `create_thread`, with the id and the time that it gets.
  unfoldable pub create_thread : Server G S → Option Value → String → String → Response × Server G S
  create_thread server payload thread_id now = created server (
      store.create server.threads thread_id now
        (some (metadata_of (get_or_null "metadata" (body_of payload)))))

  abbrev pub assistant_of : Option ThreadRecord → Option String
  assistant_of none = none
  assistant_of (some r) = r.assistant_id

  abbrev pub graph_of : AgentRegistry G → Option String → Result (Option G)
  graph_of registry none = ok none
  graph_of registry (some assistant) = resolve registry assistant none >>= λ graph. ok (some graph)

  -- `_state_graph`
  unfoldable pub state_graph : Server G S → String → Result (Option G)
  state_graph server thread_id =
      graph_of server.registry (assistant_of (store.get server.threads thread_id))

  -- `read_thread_state(graph, _thread_config(thread_id))`
  unfoldable pub read_state : G → String → Result Fields
  read_state graph thread_id = libraries.aget_state graph (thread_config thread_id) >>= λ snapshot.
      ok (
        read_thread_state libraries.isoformat libraries.message_to_dict libraries.repr snapshot
          (thread_config thread_id))

  abbrev pub state_json : Result Fields → Response
  state_json (err e) = fails e
  state_json (ok fs) = json 200 (dict fs)

  -- An assistant that is not registered reads as an unknown thread.
  abbrev pub graph_state : String → Result (Option G) → Response
  graph_state thread_id (err (unknown_assistant _ _)) = not_found
  graph_state thread_id (err e) = fails e
  graph_state thread_id (ok none) = json 200 (dict (empty_state thread_id))
  graph_state thread_id (ok (some graph)) = state_json (read_state graph thread_id)

  unfoldable pub get_state : Server G S → String → Response
  get_state server thread_id = elim (store.get server.threads thread_id) [
    | none ↦ not_found
    | some _ ↦ graph_state thread_id (state_graph server thread_id)
  ]

  abbrev id_in : Value → Result Value
  id_in (dict fs) = ok (get_or_null "checkpoint_id" fs)
  id_in v =
      if truthy v then err (raised "AttributeError" "object has no attribute 'get'") else ok null

  -- `before`, where a config stands for its checkpoint id.
  abbrev pub before_value : Value → Result Value
  before_value (dict fs) = id_in (get_or_null "configurable" fs)
  before_value v = ok v

  abbrev pub text_only : Value → Option String
  text_only (str s) = some s
  text_only _ = none

  abbrev pub history_json : Result (List Fields) → Response
  history_json (err e) = fails e
  history_json (ok entries) = json 200 (list (of_list (map dict entries)))

  abbrev pub graph_history : String → ℕ → Option String → Result (Option G) → Response
  graph_history thread_id limit before (err (unknown_assistant _ _)) = not_found
  graph_history thread_id limit before (err e) = fails e
  graph_history thread_id limit before (ok none) = json 200 (list (of_list []))
  graph_history thread_id limit before (ok (some graph)) = history_json (
      read_thread_history libraries.message_to_dict libraries.repr (libraries.alist graph)
        (thread_config thread_id) limit before)

  abbrev pub history_before : Server G S → String → ℕ → Result Value → Response
  history_before server thread_id limit (err e) = fails e
  history_before server thread_id limit (ok before) =
      graph_history thread_id limit (text_only before) (state_graph server thread_id)

  -- A page has one entry at least.
  abbrev pub page : Server G S → String → Value → ℕ → Response
  page server thread_id before zero =
      json 422 (dict (field "detail" (str "limit must be >= 1") end))
  page server thread_id before (suc n) =
      history_before server thread_id (suc n) (before_value before)

  -- `_history`
  unfoldable pub history : Server G S → String → ℤ → Value → Response
  history server thread_id limit before = elim (store.get server.threads thread_id) [
    | none ↦ not_found
    | some _ ↦ page server thread_id before (to_nat limit)
  ]

  abbrev limit_or_ten : Option ℤ → ℤ
  limit_or_ten none = pos 10
  limit_or_ten (some n) = n

  unfoldable pub search_history : Server G S → Option Value → String → Response
  unfolding history int_of
  search_history server payload thread_id =
      history server thread_id (limit_or_ten (int_of (get_or_null "limit" (body_of payload))))
        (get_or_null "before" (body_of payload))

  abbrev before_query : Option String → Value
  before_query none = null
  before_query (some id) = str id

  -- `get_history`, with the query parameters that the request has.
  unfoldable pub get_history : Server G S → String → Option ℤ → Option String → Response
  unfolding history
  get_history server thread_id limit before =
      history server thread_id (limit_or_ten limit) (before_query before)

  abbrev cancel_status : Option ActiveRun → String
  cancel_status none = "interrupted"
  cancel_status (some _) = "cancelling"

  -- `cancel_run`
  unfoldable pub cancel_run : Server G S → String → String → Response × Server G S
  cancel_run server thread_id run_id = elim (store.get server.threads thread_id) [
    | none ↦ (not_found, server)
    | some _ ↦
        let (found, manager) = cancel server.manager thread_id (str run_id) in
        (
          json 200 (
              dict (
                field "run_id" (str run_id)
                  (field "status" (str (cancel_status (active_run manager thread_id))) end))),
          record server { manager = manager },
        )
  ]

  -- `info`
  unfoldable pub info : Server G S → Response
  info server = json 200 (
      dict (
        field "agents"
          (list (
            of_list (
              map (λ id. dict (field "assistant_id" (str id) end))
                (assistant_ids server.registry))))
          end))
