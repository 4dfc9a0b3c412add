-- ===== src/Server/Resuming.antt =====
-- router.py: `input.respond`, and every command, served with nothing else run while it waits.
use fastapi_agent_protocol.Base.{
  String, ◌≡◌, inl, inr, refl, ap, sym, ◌∙◌, true, Option, none, some, string_eq, nat_eq,
  Bool-cases,
}
use fastapi_agent_protocol.Base.Dict.{lookup-insert_self}
use fastapi_agent_protocol.Failure.{Result, ok, err}
use fastapi_agent_protocol.Value.{Value, null, str, Fields, get_or_null, text_truthy}
use fastapi_agent_protocol.Registry.{resolve}
use fastapi_agent_protocol.Manager.{
  ActiveRun, resume, Manager, start_begin, started, start, start_value, config_value,
}
use fastapi_agent_protocol.Runner.{resolved_assistant, respond}
use fastapi_agent_protocol.Runner.Outcome.{start_begin_refused}
use fastapi_agent_protocol.Threads.{ThreadRecord}
use fastapi_agent_protocol.Threads.Store.{ThreadStore}
use fastapi_agent_protocol.ThreadState.{StateSnapshot}
use fastapi_agent_protocol.Router.{Libraries, state_graph, thread_config}
use fastapi_agent_protocol.Commands.{
  respond_outcome, respond_pending, respond_read, respond_graph, respond_command, interrupt_id_of,
  all_hashable_ids, has_interrupt,
}
use fastapi_agent_protocol.Server.{
  EventLoop, assistant_in, Reachable, after, responds, respond_ends,
}
use fastapi_agent_protocol.Server.Assignment.{resumed_assistant}
use fastapi_agent_protocol.Server.Handling.{IsReached}

module _ {G S : Type 0} (store : ThreadStore S) (libraries : Libraries G) where
  resume-IsReached :
      (w : EventLoop G S) (thread_id interrupt_id assistant_id run_id : String) (r : ThreadRecord)
      (cmd_id response : Value) (p : Result ActiveRun × Manager G)
      → start_begin w.server.manager thread_id assistant_id run_id ≡ p
      → Reachable store libraries w
      → store.get w.server.threads thread_id ≡ some r
      → resolved_assistant w.server.manager thread_id interrupt_id
          (assistant_in store libraries w.server.threads thread_id)
        ≡ ok (str assistant_id)
      → IsReached store libraries
          (respond_outcome store libraries w.server cmd_id
            (started w.server.registry (resume response) none null p)).1
  resume-IsReached w thread_id interrupt_id assistant_id run_id r cmd_id response (err e, m) h
        reached there found =
      let same = start_begin_refused w.server.manager m thread_id assistant_id run_id e h in
      (w, reached, (λ i. record w.server { manager = same i }))
  resume-IsReached w thread_id interrupt_id assistant_id run_id r cmd_id response (ok run, m) h
        reached there found =
      let begun =
        after reached (responds thread_id interrupt_id assistant_id run_id r run m there found h) in
      (
        _,
        after begun (
            respond_ends run.object run cmd_id
              (resolve w.server.registry run.assistant_id (config_value none)) (resume response)
              none null (lookup-insert_self run.object run w.flying)
              (lookup-insert_self run.object true w.resuming)),
        refl,
      )

  respond-IsReached :
      (w : EventLoop G S) (thread_id interrupt_id run_id : String) (r : ThreadRecord)
      (cmd_id response : Value) (found : Result Value)
      → Reachable store libraries w
      → store.get w.server.threads thread_id ≡ some r
      → resolved_assistant w.server.manager thread_id interrupt_id
          (assistant_in store libraries w.server.threads thread_id)
        ≡ found
      → IsReached store libraries
          (respond_outcome store libraries w.server cmd_id (elim found [
            | err e ↦ (err e, w.server.manager)
            | ok v ↦
                start_value w.server.registry w.server.manager thread_id v run_id
                  (resume response)
                  none
                  null
          ])).1
  unfolding start_value start
  respond-IsReached w thread_id interrupt_id run_id r cmd_id response (err e) reached there h =
      (w, reached, refl)
  respond-IsReached w thread_id interrupt_id run_id r cmd_id response (ok v) reached there h =
      let (a, named, is, text) =
        resumed_assistant store libraries w thread_id interrupt_id v reached h in
      let (x, r', shows) =
        resume-IsReached w thread_id interrupt_id a run_id r cmd_id response _ refl reached there
          (h ∙ ap ok is) in
      (
        x,
        r',
        shows ∙ (λ i.
            (respond_outcome store libraries w.server cmd_id (
              start_value w.server.registry w.server.manager thread_id (sym is i) run_id
                (resume response) none null)).1),
      )

  respond_pending-IsReached :
      (w : EventLoop G S) (thread_id interrupt_id run_id : String) (r : ThreadRecord)
      (cmd_id response : Value) (snapshot : StateSnapshot)
      → Reachable store libraries w
      → store.get w.server.threads thread_id ≡ some r
      → IsReached store libraries
          (respond_pending store libraries w.server thread_id cmd_id interrupt_id response run_id
            snapshot).1
  unfolding respond
  respond_pending-IsReached w thread_id interrupt_id run_id r cmd_id response snapshot reached
        there =
      elim (Bool-cases (all_hashable_ids snapshot.interrupts)) [
        | inr unhashable ↦ rw unhashable (w, reached, refl)
        | inl hashable ↦ elim (Bool-cases (has_interrupt interrupt_id snapshot.interrupts)) [
          | inr missing ↦ rw (hashable, missing) (w, reached, refl)
          | inl waiting ↦
              rw (hashable, waiting)
                (respond-IsReached w thread_id interrupt_id run_id r cmd_id response _ reached there
                  refl)
        ]
      ]

  respond_graph-IsReached :
      (w : EventLoop G S) (thread_id interrupt_id run_id : String) (r : ThreadRecord)
      (cmd_id response : Value) (graph : Result (Option G))
      → Reachable store libraries w
      → store.get w.server.threads thread_id ≡ some r
      → IsReached store libraries
          (respond_graph store libraries w.server thread_id cmd_id interrupt_id response run_id
            graph).1
  respond_graph-IsReached w thread_id interrupt_id run_id r cmd_id response (err e) reached there =
      (w, reached, refl)
  respond_graph-IsReached w thread_id interrupt_id run_id r cmd_id response (ok none) reached
        there =
      (w, reached, refl)
  respond_graph-IsReached w thread_id interrupt_id run_id r cmd_id response (ok (some graph))
        reached there =
      reads (libraries.aget_state graph (thread_config thread_id))
    where
      reads :
          (snapshot : Result StateSnapshot)
          → IsReached store libraries
              (respond_read store libraries w.server thread_id cmd_id interrupt_id response run_id
                snapshot).1
      reads (err e) = (w, reached, refl)
      reads (ok snapshot) =
          respond_pending-IsReached w thread_id interrupt_id run_id r cmd_id response snapshot
            reached there

  pub respond_command-IsReached :
      (w : EventLoop G S) (thread_id run_id : String) (r : ThreadRecord) (cmd_id : Value)
      (params : Fields)
      → Reachable store libraries w
      → store.get w.server.threads thread_id ≡ some r
      → IsReached store libraries
          (respond_command store libraries w.server thread_id cmd_id params run_id).1
  unfolding respond_command
  respond_command-IsReached w thread_id run_id r cmd_id params reached there =
      elim (Bool-cases (text_truthy (interrupt_id_of store libraries params))) [
        | inl named ↦ rw named (
            respond_graph-IsReached w thread_id (interrupt_id_of store libraries params) run_id r
              cmd_id (get_or_null "response" params)
              (state_graph store libraries w.server thread_id) reached there)
        | inr unnamed ↦ rw unnamed (w, reached, refl)
      ]
