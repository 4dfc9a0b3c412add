-- ===== src/Commands/Answering.antt =====
-- router.py, the command `input.respond`: what an answer says of the server's state.
use fastapi_agent_protocol.Base.{
  String, ◌≡◌, ◌⊎◌, inl, inr, refl, true, Option, none, some, Bool-cases, string_eq, ap, arith,
}
use fastapi_agent_protocol.Failure.{Result, ok, err}
use fastapi_agent_protocol.Value.{Value, str, Fields, get_or_null, text_truthy}
use fastapi_agent_protocol.Manager.{Manager, reservation}
use fastapi_agent_protocol.Runner.{resolved_assistant}
use fastapi_agent_protocol.Runner.Slots.{HasStarted}
use fastapi_agent_protocol.Runner.Outcome.{HasFailed}
use fastapi_agent_protocol.Runner.Replying.{respond-Outcome}
use fastapi_agent_protocol.Threads.Store.{ThreadStore}
use fastapi_agent_protocol.ThreadState.{StateSnapshot}
use fastapi_agent_protocol.Router.{
  Response, Libraries, Server, thread_config, assistant_of, state_graph,
}
use fastapi_agent_protocol.Commands.{
  run_envelope, all_hashable_ids, has_interrupt, interrupt_id_of, respond_outcome, respond_pending,
  respond_read, respond_graph, respond_command,
}
use fastapi_agent_protocol.Commands.Starting.{failure_response-IsRefused, IsLeft, refused-IsLeft}

module _ {G S : Type 0} (store : ThreadStore S) (libraries : Libraries G) where
  -- The manager's `respond` as the command calls it: the thread's assistant is the caller's.
  abbrev pub assistant_found : Server G S → String → String → Result Value
  assistant_found server thread_id interrupt_id =
      resolved_assistant server.manager thread_id interrupt_id
        (assistant_of store libraries (store.get server.threads thread_id))

  -- A run was started on the thread with the answer, and the thread records are as before.
  abbrev pub HasResumed :
      Server G S → Response × Server G S → String → Value → String → String → Type 0
  HasResumed server after thread_id cmd_id interrupt_id run_id =
      (assistant_id : String) × (assistant_found server thread_id interrupt_id
        ≡ ok (str assistant_id))
      × (after.0 ≡ run_envelope cmd_id run_id)
      × HasStarted (ok run_id, after.1.manager)
          (reservation server.manager thread_id assistant_id run_id)
      × (after.1.threads ≡ server.threads)
      × (after.1.registry ≡ server.registry)

  -- The interrupt is one of the checkpoint's, of the graph of the thread's assistant.
  abbrev pub IsWaiting : Server G S → String → String → Type 0
  IsWaiting server thread_id interrupt_id =
      (graph : G) × (snapshot : StateSnapshot) × (state_graph store libraries server thread_id
        ≡ ok (some graph))
      × (libraries.aget_state graph (thread_config thread_id) ≡ ok snapshot)
      × (has_interrupt interrupt_id snapshot.interrupts ≡ true)

  respond_outcome_lem :
      (server : Server G S) (thread_id : String) (cmd_id : Value) (run_id : String)
      (found : Result Value) (p : Result String × Manager G)
      → ((assistant : String) × (found ≡ ok (str assistant))
          × HasStarted p (reservation server.manager thread_id assistant run_id))
        ⊎ HasFailed server.manager p thread_id
      → let after = respond_outcome store libraries server cmd_id p in
        ((assistant_id : String) × (found ≡ ok (str assistant_id))
          × (after.0 ≡ run_envelope cmd_id run_id)
          × HasStarted
              (ok run_id, after.1.manager)
              (reservation server.manager thread_id assistant_id run_id)
          × (after.1.threads ≡ server.threads)
          × (after.1.registry ≡ server.registry))
        ⊎ IsLeft store libraries server after thread_id cmd_id
  respond_outcome_lem server thread_id cmd_id run_id found (err e, m)
        (inl (a, is, (never, run, spent, last))) =
      absurd (ground arith)
  respond_outcome_lem server thread_id cmd_id run_id found (err e, m) (inr (why, p, q, kept)) =
      inr (failure_response-IsRefused libraries.repr cmd_id e, refl, refl, p, q, kept)
  respond_outcome_lem server thread_id cmd_id run_id found (ok id, m)
        (inr ((e, never), p, q, kept)) =
      absurd (ground arith)
  respond_outcome_lem server thread_id cmd_id run_id found (ok id, m)
        (inl (a, is, (same, run, spent, last))) =
      let given_back : id ≡ run_id = ground arith in
      inl (a, is, ap (run_envelope cmd_id) given_back, (refl, run, spent, last), refl, refl)

  abbrev pub IsAnswered :
      Server G S → Response × Server G S → String → Value → String → String → Type 0
  IsAnswered server after thread_id cmd_id interrupt_id run_id =
      (IsWaiting server thread_id interrupt_id
        × HasResumed server after thread_id cmd_id interrupt_id run_id)
      ⊎ IsLeft store libraries server after thread_id cmd_id

  respond_pending_lem :
      (server : Server G S) (thread_id : String) (cmd_id : Value) (id : String) (answer : Value)
      (run_id : String) (graph : G) (snapshot : StateSnapshot)
      → state_graph store libraries server thread_id ≡ ok (some graph)
      → libraries.aget_state graph (thread_config thread_id) ≡ ok snapshot
      → IsAnswered server
          (respond_pending store libraries server thread_id cmd_id id answer run_id snapshot)
          thread_id
          cmd_id
          id
          run_id
  respond_pending_lem server thread_id cmd_id id answer run_id graph snapshot g s =
      elim (Bool-cases (all_hashable_ids snapshot.interrupts)) [
        | inr unhashable ↦
            rw unhashable
              (inr (refused-IsLeft store libraries server thread_id cmd_id _ (inr (_, refl))))
        | inl hashable ↦ elim (Bool-cases (has_interrupt id snapshot.interrupts)) [
          | inr missing ↦
              rw (hashable, missing)
                (inr (refused-IsLeft store libraries server thread_id cmd_id _ (inl (_, _, refl))))
          | inl waiting ↦
              rw (hashable, waiting)
                (elim (respond_outcome_lem server thread_id cmd_id run_id
                  (assistant_found server thread_id id) _
                  (respond-Outcome server.registry server.manager thread_id id run_id answer
                    (assistant_of store libraries (store.get server.threads thread_id)))) [
                      | inl done ↦ inl ((graph, snapshot, g, s, waiting), done)
                      | inr left ↦ inr left
                    ])
        ]
      ]

  respond_read_lem :
      (server : Server G S) (thread_id : String) (cmd_id : Value) (id : String) (answer : Value)
      (run_id : String) (graph : G) (snapshot : Result StateSnapshot)
      → state_graph store libraries server thread_id ≡ ok (some graph)
      → libraries.aget_state graph (thread_config thread_id) ≡ snapshot
      → IsAnswered server
          (respond_read store libraries server thread_id cmd_id id answer run_id snapshot)
          thread_id
          cmd_id
          id
          run_id
  respond_read_lem server thread_id cmd_id id answer run_id graph (err e) g s =
      inr (refused-IsLeft store libraries server thread_id cmd_id _ (inr (e, refl)))
  respond_read_lem server thread_id cmd_id id answer run_id graph (ok snapshot) g s =
      respond_pending_lem server thread_id cmd_id id answer run_id graph snapshot g s

  respond_graph_lem :
      (server : Server G S) (thread_id : String) (cmd_id : Value) (id : String) (answer : Value)
      (run_id : String) (graph : Result (Option G))
      → state_graph store libraries server thread_id ≡ graph
      → IsAnswered server
          (respond_graph store libraries server thread_id cmd_id id answer run_id graph)
          thread_id
          cmd_id
          id
          run_id
  respond_graph_lem server thread_id cmd_id id answer run_id (err e) g =
      inr (refused-IsLeft store libraries server thread_id cmd_id _ (inr (e, refl)))
  respond_graph_lem server thread_id cmd_id id answer run_id (ok none) g =
      inr (refused-IsLeft store libraries server thread_id cmd_id _ (inl (_, _, refl)))
  respond_graph_lem server thread_id cmd_id id answer run_id (ok (some graph)) g =
      respond_read_lem server thread_id cmd_id id answer run_id graph
        (libraries.aget_state graph (thread_config thread_id)) g refl

  -- Every `input.respond` does one of two things. It answers with its run id, and then the interrupt
  -- is among the interrupts of the checkpoint of the thread's graph, the thread's slot has that run
  -- with a task that is not done, on the assistant that the run manager finds for the interrupt, no
  -- interrupts are pending, that assistant is the thread's last, and the thread records and the
  -- registry are as before. Or it answers an error, or raises, and then the thread records, the
  -- registry, the pending interrupts, the last assistants and the tasks are as before, and so is
  -- every slot but the thread's, which is as before, or free, or holds a reservation without a task.
  pub respond_command_outcome :
      (server : Server G S) (thread_id : String) (cmd_id : Value) (params : Fields)
      (run_id : String)
      → let after = respond_command store libraries server thread_id cmd_id params run_id in
        IsAnswered server after thread_id cmd_id (interrupt_id_of store libraries params) run_id
  unfolding respond_command
  respond_command_outcome server thread_id cmd_id params run_id =
      elim (Bool-cases (text_truthy (interrupt_id_of store libraries params))) [
        | inl named ↦ rw named (
            respond_graph_lem server thread_id cmd_id (interrupt_id_of store libraries params)
              (get_or_null "response" params) run_id (state_graph store libraries server thread_id)
              refl)
        | inr unnamed ↦
            rw unnamed
              (inr (refused-IsLeft store libraries server thread_id cmd_id _ (inl (_, _, refl))))
      ]
