-- ===== src/Server/Restart.antt =====
-- router.py with runner.py and threads.py: an answer to an interrupt after the process was restarted,
-- which wipes what the run manager has of the thread.
use fastapi_agent_protocol.Base.{
  String, ◌≡◌, refl, inl, ap, ◌∙◌, subst, sym, true, none, some, arith, string_eq,
}
use fastapi_agent_protocol.Base.Dict
use fastapi_agent_protocol.Base.Dict.{Dict}
use fastapi_agent_protocol.Failure.{Result, ok, err}
use fastapi_agent_protocol.RunConfig.{run_config, base_config, unpack, merge}
use fastapi_agent_protocol.Value.{Value, null, Fields, get_or_null, get_field, truthy, text_truthy}
use fastapi_agent_protocol.Registry.{AgentRegistry, resolve}
use fastapi_agent_protocol.Manager.{
  Manager, new_manager, resume, active_run, last_assistant, reservation, reserve, start_begin,
  start_finish, start,
}
use fastapi_agent_protocol.Runner.{respond}
use fastapi_agent_protocol.Runner.Respond.{respond_named}
use fastapi_agent_protocol.Runner.Slots.{HasStarted, start_finish_launched}
use fastapi_agent_protocol.Threads.Store.{ThreadStore}
use fastapi_agent_protocol.ThreadState.{StateSnapshot}
use fastapi_agent_protocol.Router.{
  Response, Libraries, Server, state_graph, graph_of, thread_config,
}
use fastapi_agent_protocol.Commands.{
  run_envelope, all_hashable_ids, has_interrupt, interrupt_id_of, respond_command, respond_graph,
  respond_read, respond_outcome,
}
use fastapi_agent_protocol.Server.{EventLoop, assistant_in, Reachable}
use fastapi_agent_protocol.Server.Assignment.{Reachable-Bound}

-- The config of a run that is started with none.
run_config_plain :
    (thread_id : String) → (full : Dict String Value) × (run_config thread_id none null ≡ ok full)
unfolding run_config base_config unpack merge truthy get_or_null get_field Dict.lookup Dict.insert
    Dict.erase
run_config_plain thread_id = (_, refl)

module _ {G : Type 0} where
  -- On a manager that knows nothing a resumption starts, if its graph resolves.
  respond-fresh :
      (registry : AgentRegistry G) (thread_id interrupt_id assistant run_id : String)
      (response : Value) (graph : G)
      → text_truthy assistant ≡ true
      → resolve registry assistant none ≡ ok graph
      → let reserved = reservation {G = G} new_manager thread_id assistant run_id in
        respond registry new_manager thread_id interrupt_id run_id response (some assistant)
        ≡ start_finish
            (reserve new_manager reserved)
            reserved
            (ok graph)
            (resume response)
            none
            null
  unfolding start start_begin active_run Dict.lookup
  respond-fresh registry thread_id interrupt_id assistant run_id response graph named resolves =
      let reserved = reservation {G = G} new_manager thread_id assistant run_id in
      respond_named registry new_manager thread_id interrupt_id run_id response assistant named
        (inl refl)
      ∙ ap (λ g. start_finish (reserve new_manager reserved) reserved g (resume response) none null)
          resolves

  fresh_start :
      (registry : AgentRegistry G) (thread_id interrupt_id assistant run_id : String)
      (response : Value) (graph : G)
      → text_truthy assistant ≡ true
      → resolve registry assistant none ≡ ok graph
      → HasStarted
          (respond registry new_manager thread_id interrupt_id run_id response (some assistant))
          (reservation {G = G} new_manager thread_id assistant run_id)
  fresh_start registry thread_id interrupt_id assistant run_id response graph named resolves =
      let (full, built) = run_config_plain thread_id in
      let reserved = reservation {G = G} new_manager thread_id assistant run_id in
      subst (λ p. HasStarted p reserved)
        (sym (
          respond-fresh registry thread_id interrupt_id assistant run_id response graph named
            resolves))
        (start_finish_launched (reserve new_manager reserved) reserved graph (resume response) none
          null full built)

module _ {G S : Type 0} (store : ThreadStore S) (libraries : Libraries G) where
  resumed_outcome :
      (server : Server G S) (cmd_id : Value) (run_id thread_id assistant : String)
      (p : Result String × Manager G)
      → HasStarted p (reservation {G = G} new_manager thread_id assistant run_id)
      → let after = respond_outcome store libraries server cmd_id p in
        (after.0 ≡ run_envelope cmd_id run_id)
        × HasStarted
            (ok run_id, after.1.manager)
            (reservation {G = G} new_manager thread_id assistant run_id)
  resumed_outcome server cmd_id run_id thread_id assistant (err e, m) (never, run, spent, last) =
      absurd (ground arith)
  resumed_outcome server cmd_id run_id thread_id assistant (ok id, m) (same, run, spent, last) =
      let given_back : id ≡ run_id = ground arith in
      (ap (run_envelope cmd_id) given_back, (refl, run, spent, last))

  -- What the command calls the manager with, for an interrupt of the checkpoint.
  respond_command-waiting :
      (server : Server G S) (thread_id assistant run_id : String) (cmd_id : Value) (params : Fields)
      (graph : G) (snapshot : StateSnapshot)
      → assistant_in store libraries server.threads thread_id ≡ some assistant
      → resolve server.registry assistant none ≡ ok graph
      → libraries.aget_state graph (thread_config thread_id) ≡ ok snapshot
      → all_hashable_ids snapshot.interrupts ≡ true
      → text_truthy (interrupt_id_of store libraries params) ≡ true
      → has_interrupt (interrupt_id_of store libraries params) snapshot.interrupts ≡ true
      → respond_command store libraries server thread_id cmd_id params run_id
        ≡ respond_outcome store libraries server cmd_id (
            respond server.registry server.manager thread_id
              (interrupt_id_of store libraries params)
              run_id
              (get_or_null "response" params)
              (some assistant))
  unfolding respond_command state_graph
  respond_command-waiting server thread_id assistant run_id cmd_id params graph snapshot stored
        resolves reads hashable asks waits =
      let id = interrupt_id_of store libraries params in
      let response = get_or_null "response" params in
      let found : state_graph store libraries server thread_id ≡ ok (some graph) =
        ap (graph_of store libraries server.registry) stored ∙ rw resolves refl in
      rw asks refl
      ∙ ap (respond_graph store libraries server thread_id cmd_id id response run_id) found
      ∙ ap (respond_read store libraries server thread_id cmd_id id response run_id) reads
      ∙ rw (hashable, waits) refl
      ∙ ap
          (λ a.
            respond_outcome store libraries server cmd_id
              (respond server.registry server.manager thread_id id run_id response a))
          stored

  -- A thread has run in a reachable state of the event loop, and `assistant` was its last. Then the
  -- process is restarted with any registry, the thread records being kept. An `input.respond`
  -- for an interrupt that the thread's checkpoint has, read through that assistant's graph, is
  -- answered with the id of a run that is started, on that assistant. The graph has to resolve, and
  -- the ids of the checkpoint's interrupts to be hashable.
  pub restart_resumes :
      (w : EventLoop G S) (registry : AgentRegistry G) (thread_id assistant run_id : String)
      (cmd_id : Value) (params : Fields) (graph : G) (snapshot : StateSnapshot)
      → Reachable store libraries w
      → last_assistant w.server.manager thread_id ≡ some assistant
      → resolve registry assistant none ≡ ok graph
      → libraries.aget_state graph (thread_config thread_id) ≡ ok snapshot
      → all_hashable_ids snapshot.interrupts ≡ true
      → text_truthy (interrupt_id_of store libraries params) ≡ true
      → has_interrupt (interrupt_id_of store libraries params) snapshot.interrupts ≡ true
      → let server : Server G S = record {
        registry = registry;
        manager = new_manager;
        threads = w.server.threads;
      } in
        let after = respond_command store libraries server thread_id cmd_id params run_id in
        (after.0 ≡ run_envelope cmd_id run_id)
        × HasStarted
            (ok run_id, after.1.manager)
            (reservation {G = G} new_manager thread_id assistant run_id)
  restart_resumes w registry thread_id assistant run_id cmd_id params graph snapshot reached last
        resolves reads hashable asks waits =
      let (stored, named) =
        (Reachable-Bound store libraries reached).named thread_id assistant last in
      let server : Server G S = record {
        registry = registry;
        manager = new_manager;
        threads = w.server.threads;
      } in
      subst
        (λ (after : Response × Server G S).
          (after.0 ≡ run_envelope cmd_id run_id)
          × HasStarted (ok run_id, after.1.manager)
              (reservation {G = G} new_manager thread_id assistant run_id))
        (sym (
          respond_command-waiting server thread_id assistant run_id cmd_id params graph snapshot
            stored resolves reads hashable asks waits))
        (resumed_outcome server cmd_id run_id thread_id assistant _ (
          fresh_start registry thread_id (interrupt_id_of store libraries params) assistant run_id
            (get_or_null "response" params) graph named resolves))
