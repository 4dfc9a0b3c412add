-- ===== src/Server/Handling.antt =====
-- router.py: `dispatch_command`, served with nothing else run while it waits, as steps of the event
-- loop.
use fastapi_agent_protocol.Base.{
  String, ◌≡◌, inl, inr, refl, ap, sym, ◌∙◌, true, false, Option, some, arith, string_eq, nat_eq,
  Bool-cases, if◌then◌else◌,
}
use fastapi_agent_protocol.Base.Dict.{lookup-insert_self}
use fastapi_agent_protocol.Failure.{is_exception, Result, ok, err}
use fastapi_agent_protocol.Value.{Value, str, Fields, get_or_null, truthy, text_truthy}
use fastapi_agent_protocol.Registry.{AgentRegistry, resolve}
use fastapi_agent_protocol.Manager.{
  ActiveRun, Input, given, Manager, start_begin, release, start_finish, started, start, refusal,
  refused, config_value,
}
use fastapi_agent_protocol.Params.{stamped_config}
use fastapi_agent_protocol.Runner.Taking.{start_begin_taken}
use fastapi_agent_protocol.Runner.Outcome.{start_begin_refused}
use fastapi_agent_protocol.Runner.Replying.{start_value_cases}
use fastapi_agent_protocol.Threads.{ThreadRecord}
use fastapi_agent_protocol.Threads.Store.{ThreadStore}
use fastapi_agent_protocol.Router.{Libraries, Server}
use fastapi_agent_protocol.Commands.{start_outcome, start_configured, start_command}
use fastapi_agent_protocol.Server.{EventLoop, Reachable, after, starts, start_ends, refuses}

module _ {G S : Type 0} (store : ThreadStore S) (libraries : Libraries G) where
  -- A reachable event loop has this server.
  abbrev pub IsReached : Server G S → Type 0
  IsReached server = (v : EventLoop G S) × Reachable store libraries v × (v.server ≡ server)

  start-IsReached :
      (w : EventLoop G S) (thread_id assistant_id run_id now : String) (r : ThreadRecord)
      (cmd_id : Value) (input : Input) (config : Option Fields) (metadata : Value)
      (p : Result ActiveRun × Manager G)
      → start_begin w.server.manager thread_id assistant_id run_id ≡ p
      → Reachable store libraries w
      → store.get w.server.threads thread_id ≡ some r
      → text_truthy assistant_id ≡ true
      → IsReached
          (start_outcome store libraries w.server thread_id cmd_id
            (str assistant_id)
            now
            (started w.server.registry input config metadata p)).1
  start-IsReached w thread_id assistant_id run_id now r cmd_id input config metadata (err e, m) h
        reached there text =
      let same = start_begin_refused w.server.manager m thread_id assistant_id run_id e h in
      (w, reached, (λ i. record w.server { manager = same i }))
  start-IsReached w thread_id assistant_id run_id now r cmd_id input config metadata (ok run, m) h
        reached there text =
      let (is, left, idle) =
        start_begin_taken w.server.manager m run thread_id assistant_id run_id h in
      let begun = after reached (starts thread_id assistant_id run_id r run m there text h) in
      let resolved = resolve w.server.registry run.assistant_id (config_value config) in
      (
        _,
        after begun (
            start_ends run.object run cmd_id now resolved input config metadata
              (lookup-insert_self run.object run w.flying)
              (lookup-insert_self run.object false w.resuming)),
        (λ i.
            (start_outcome store libraries (record w.server { manager = m }) (sym is i).thread_id
              cmd_id (str (sym is i).assistant_id) now
              (start_finish m run resolved input config metadata)).1),
      )

  -- The registry's refusal of an id that is no text is an `Exception`.
  refusal-Exception :
      (registry : AgentRegistry G) (v : Value) → is_exception (refusal registry v) ≡ true
  unfolding refusal
  refusal-Exception registry v = ground arith

  misnamed-IsReached :
      (w : EventLoop G S) (thread_id run_id now : String) (cmd_id v : Value) (input : Input)
      (config : Option Fields) (metadata : Value) (p : Result ActiveRun × Manager G)
      → start_begin w.server.manager thread_id "" run_id ≡ p
      → Reachable store libraries w
      → IsReached
          (start_outcome store libraries w.server thread_id cmd_id v now
            (refused w.server.registry v input config metadata p)).1
  unfolding start_finish
  misnamed-IsReached w thread_id run_id now cmd_id v input config metadata (err e, m) h reached =
      let same = start_begin_refused w.server.manager m thread_id "" run_id e h in
      (w, reached, (λ i. record w.server { manager = same i }))
  misnamed-IsReached w thread_id run_id now cmd_id v input config metadata (ok run, m) h reached =
      let e = refusal w.server.registry v in
      (
        _,
        after reached (refuses thread_id run_id run m h),
        (λ i.
            (start_outcome store libraries w.server thread_id cmd_id v now (
              if sym (refusal-Exception w.server.registry v) i
              then (err e, release m run)
              else (err e, m))).1),
      )

  start_configured-IsReached :
      (w : EventLoop G S) (thread_id run_id now : String) (r : ThreadRecord) (cmd_id v : Value)
      (params : Fields) (config : Result Fields)
      → Reachable store libraries w
      → store.get w.server.threads thread_id ≡ some r
      → truthy v ≡ true
      → IsReached
          (start_configured store libraries w.server thread_id cmd_id v params run_id now config).1
  unfolding start truthy
  start_configured-IsReached w thread_id run_id now r cmd_id v params (err e) reached there named =
      (w, reached, refl)
  start_configured-IsReached w thread_id run_id now r cmd_id v params (ok config) reached there
        named =
      let input = given (get_or_null "input" params) in
      let metadata = get_or_null "metadata" params in
      elim (start_value_cases w.server.registry w.server.manager thread_id run_id v input
        (some config) metadata) [
          | inl (a, is, same) ↦
              let (x, r', shows) =
                start-IsReached w thread_id a run_id now r cmd_id input (some config) metadata _
                  refl reached there (ap truthy (sym is) ∙ named) in
              (
                x,
                r',
                shows ∙ (λ i.
                    (start_outcome store libraries w.server thread_id cmd_id (sym is i) now
                      (sym same i)).1),
              )
          | inr same ↦
              let (x, r', shows) =
                misnamed-IsReached w thread_id run_id now cmd_id v input (some config) metadata _
                  refl reached in
              (
                x,
                r',
                shows ∙ (λ i.
                    (start_outcome store libraries w.server thread_id cmd_id v now (sym same i)).1),
              )
        ]

  pub start_command-IsReached :
      (w : EventLoop G S) (thread_id run_id now : String) (r : ThreadRecord) (cmd_id : Value)
      (params : Fields)
      → Reachable store libraries w
      → store.get w.server.threads thread_id ≡ some r
      → IsReached (start_command store libraries w.server thread_id r cmd_id params run_id now).1
  unfolding start_command
  start_command-IsReached w thread_id run_id now r cmd_id params reached there =
      elim (Bool-cases (truthy (get_or_null "assistant_id" params))) [
        | inl named ↦ rw named (
            start_configured-IsReached w thread_id run_id now r cmd_id
              (get_or_null "assistant_id" params) params
              (stamped_config (get_or_null "config" params) r.metadata) reached there named)
        | inr unnamed ↦ rw unnamed (w, reached, refl)
      ]
