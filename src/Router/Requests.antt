-- ===== src/Router/Requests.antt =====
-- router.py: what the routes answer on a thread, and on one that is new.
use fastapi_agent_protocol.Base.{
  ℕ, suc, String, ◌<>◌, ◌≡◌, ◌⊎◌, refl, ap, ◌∙◌, Option, none, some, string_eq, arith,
}
use fastapi_agent_protocol.Base.Int.{ℤ, pos, to_nat}
use fastapi_agent_protocol.Base.Dict.{lookup-insert_self}
use fastapi_agent_protocol.Failure.{Failure, ok}
use fastapi_agent_protocol.Value.{Value, null, list, dict, nil, Fields, get_or_null}
use fastapi_agent_protocol.Threads.{
  ThreadRecord, MemoryStore, memory_create, memory_get, new_record,
}
use fastapi_agent_protocol.Threads.Store.{ThreadStore, memory}
use fastapi_agent_protocol.ThreadState.{empty_state}
use fastapi_agent_protocol.Router.{
  Response, json, fails, Libraries, Server, error_envelope, success_envelope, not_found,
  state_graph, get_state, history, create_thread, graph_state, graph_of, graph_history, page,
  assistant_of, body_of, metadata_of,
}
use fastapi_agent_protocol.Commands.{state_command, state_response}

module _ {G S : Type 0} (store : ThreadStore S) (libraries : Libraries G) where
  -- `state.get` and `GET /threads/{id}/state` on one thread and one graph: the same state, the same
  -- exception, or, if the thread's assistant is not registered, an error and a 404.
  abbrev pub Agrees : String → Value → Response → Response → Type 0
  Agrees thread_id cmd_id command route =
      ((fs : Fields) × (command ≡ success_envelope cmd_id fs) × (route ≡ json 200 (dict fs)))
      ⊎ (((e : Failure) × (command ≡ fails e) × (route ≡ fails e))
          ⊎ ((command
                ≡ error_envelope cmd_id "unknown_command"
                    ("assistant for thread " <> thread_id <> " is not registered"))
              × (route ≡ not_found)))

  get_state-known :
      (server : Server G S) (thread_id : String) (r : ThreadRecord)
      → store.get server.threads thread_id ≡ some r
      → get_state store libraries server thread_id
        ≡ graph_state store libraries thread_id (state_graph store libraries server thread_id)
  unfolding get_state
  get_state-known server thread_id r there = ground (arith, there)

  history-known :
      (server : Server G S) (thread_id : String) (r : ThreadRecord) (limit : ℤ) (before : Value)
      → store.get server.threads thread_id ≡ some r
      → history store libraries server thread_id limit before
        ≡ page store libraries server thread_id before (to_nat limit)
  unfolding history
  history-known server thread_id r limit before there = ground (arith, there)

  state_graph-known :
      (server : Server G S) (thread_id : String) (r : ThreadRecord)
      → store.get server.threads thread_id ≡ some r
      → state_graph store libraries server thread_id
        ≡ graph_of store libraries server.registry r.assistant_id
  unfolding state_graph
  state_graph-known server thread_id r there =
      ap (λ q. graph_of store libraries server.registry (assistant_of store libraries q)) there

  -- A thread that has had no run reads as empty, over `GET` and as the command `state.get`, and a
  -- page of its history has no entries.
  pub new_thread_read :
      (server : Server G S) (thread_id : String) (r : ThreadRecord) (cmd_id : Value) (n : ℕ)
      → store.get server.threads thread_id ≡ some r
      → r.assistant_id ≡ none
      → (get_state store libraries server thread_id ≡ json 200 (dict (empty_state thread_id)))
        × (state_command store libraries server thread_id cmd_id
            ≡ success_envelope cmd_id (empty_state thread_id))
        × (history store libraries server thread_id (pos (suc n)) null ≡ json 200 (list nil))
  unfolding state_command
  new_thread_read server thread_id r cmd_id n there unassigned =
      let graph : state_graph store libraries server thread_id ≡ ok none =
        state_graph-known server thread_id r there
        ∙ ap (graph_of store libraries server.registry) unassigned in
      (
        get_state-known server thread_id r there ∙ ap (graph_state store libraries thread_id) graph,
        ap (state_response store libraries thread_id cmd_id) graph,
        history-known server thread_id r (pos (suc n)) null there
            ∙ ap (graph_history store libraries thread_id (suc n) none) graph,
      )

module _ {G : Type 0} (libraries : Libraries G) where
  -- A thread that was created over HTTP, in the store in memory, is known: its state is the empty
  -- one, over `GET` and as the command `state.get`, and a page of its history has no entries.
  pub create_thread_read :
      (server : Server G MemoryStore) (payload : Option Value) (thread_id now : String)
      (cmd_id : Value) (n : ℕ)
      → let after = (create_thread memory libraries server payload thread_id now).1 in
        (get_state memory libraries after thread_id ≡ json 200 (dict (empty_state thread_id)))
        × (state_command memory libraries after thread_id cmd_id
            ≡ success_envelope cmd_id (empty_state thread_id))
        × (history memory libraries after thread_id (pos (suc n)) null ≡ json 200 (list nil))
  unfolding create_thread memory memory_create memory_get new_record
  create_thread_read server payload thread_id now cmd_id n =
      new_thread_read memory libraries
        (create_thread memory libraries server payload thread_id now).1 thread_id
        (new_record thread_id now (some (metadata_of (get_or_null "metadata" (body_of payload)))))
        cmd_id n (lookup-insert_self thread_id _ server.threads) refl
