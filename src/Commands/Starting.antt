-- ===== src/Commands/Starting.antt =====
-- router.py, the command `run.start`: what an answer says of the server's state.
use mathlib.Core.Option
use fastapi_agent_protocol.Base.{
  String, ◌≡◌, ◌≢◌, ◌⊎◌, inl, inr, refl, sym, some, if◌then◌else◌, ◌==◌, Bool-cases, ==_self, ◌∙◌,
  string_eq, ap, arith,
}
use fastapi_agent_protocol.Failure.{
  Failure, run_active, unknown_interrupt, unknown_assistant, raised, cancelled, Result, ok, err,
}
use fastapi_agent_protocol.Value.{Value, str, dict, Fields, field, get_or_null, truthy}
use fastapi_agent_protocol.Manager.{Manager, given, reservation}
use fastapi_agent_protocol.Runner.Slots.{HasStarted}
use fastapi_agent_protocol.Runner.Outcome.{IsKept, same-IsKept}
use fastapi_agent_protocol.Runner.Replying.{ValueOutcome, start_value-Outcome}
use fastapi_agent_protocol.Threads.{ThreadRecord}
use fastapi_agent_protocol.Threads.Store.{ThreadStore, assigned}
use fastapi_agent_protocol.Router.{
  Response, fails, Libraries, Server, error_envelope, state_graph, graph_of, assistant_of, json,
}
use fastapi_agent_protocol.Commands.{
  start_failure, failure_response, run_envelope, start_outcome, start_configured, start_command,
}
use fastapi_agent_protocol.Params.{stamped_config}

-- The command was answered with an error, or raised.
abbrev pub IsRefused : Value → Response → Type 0
IsRefused cmd_id r =
    ((code message : String) × (r ≡ error_envelope cmd_id code message))
    ⊎ ((e : Failure) × (r ≡ fails e))

pub failure_response-IsRefused :
    (repr : Value → String) (cmd_id : Value) (e : Failure)
    → IsRefused cmd_id (failure_response repr cmd_id e)
unfolding failure_response
failure_response-IsRefused repr cmd_id (run_active thread_id run_id) = inl (_, _, refl)
failure_response-IsRefused repr cmd_id (unknown_interrupt thread_id id) = inl (_, _, refl)
failure_response-IsRefused repr cmd_id (unknown_assistant id known) = inl (_, _, refl)
failure_response-IsRefused repr cmd_id (raised kind text) = inr (_, refl)
failure_response-IsRefused repr cmd_id cancelled = inr (_, refl)

start_failure-IsRefused :
    (repr : Value → String) (cmd_id : Value) (e : Failure)
    → IsRefused cmd_id (start_failure repr cmd_id e)
unfolding start_failure
start_failure-IsRefused repr cmd_id (unknown_interrupt thread_id id) = inr (_, refl)
start_failure-IsRefused repr cmd_id (run_active thread_id run_id) =
    failure_response-IsRefused repr cmd_id (run_active thread_id run_id)
start_failure-IsRefused repr cmd_id (unknown_assistant id known) =
    failure_response-IsRefused repr cmd_id (unknown_assistant id known)
start_failure-IsRefused repr cmd_id (raised kind text) =
    failure_response-IsRefused repr cmd_id (raised kind text)
start_failure-IsRefused repr cmd_id cancelled = failure_response-IsRefused repr cmd_id cancelled

-- The `type` of an envelope.
abbrev kind_of : Response → String
kind_of (json status (dict (field key (str kind) rest))) = kind
kind_of _ = ""

run_envelope-IsRefused :
    (cmd_id : Value) (run_id : String) (r : Response)
    → IsRefused cmd_id r
    → r ≢ run_envelope cmd_id run_id
run_envelope-IsRefused cmd_id run_id r (inl (code, message, is)) same =
    let kinds : "error" ≡ "success" = ap kind_of (sym is ∙ same) in absurd (ground arith)
run_envelope-IsRefused cmd_id run_id r (inr (e, is)) same = absurd (ground arith)

module _ {G S : Type 0} (store : ThreadStore S) (libraries : Libraries G) where
  -- A run was started on the thread with the assistant `v`, which the store has as the thread's.
  abbrev pub HasStartedRun :
      Server G S → Response × Server G S → String → Value → Value → String → String → Type 0
  HasStartedRun server after thread_id cmd_id v run_id now =
      (assistant_id : String) × (v ≡ str assistant_id)
      × (after.0 ≡ run_envelope cmd_id run_id)
      × HasStarted (ok run_id, after.1.manager)
          (reservation server.manager thread_id assistant_id run_id)
      × ((other : String)
          → store.get after.1.threads other ≡ (
              if other == thread_id
              then Option.map (assigned assistant_id now) (store.get server.threads thread_id)
              else store.get server.threads other))
      × (after.1.registry ≡ server.registry)

  -- The command was refused. The threads, the registry, the pending interrupts, the last
  -- assistants and the tasks are as before, and so is every slot but that of the thread, which may
  -- be free now or hold a reservation.
  abbrev pub IsLeft : Server G S → Response × Server G S → String → Value → Type 0
  IsLeft server after thread_id cmd_id =
      IsRefused cmd_id after.0
      × (after.1.threads ≡ server.threads)
      × (after.1.registry ≡ server.registry)
      × (after.1.manager.pending_inputs ≡ server.manager.pending_inputs)
      × (after.1.manager.last_assistants ≡ server.manager.last_assistants)
      × IsKept server.manager after.1.manager thread_id

  -- A command that is refused before it comes to the run manager leaves the server as it was.
  pub refused-IsLeft :
      (server : Server G S) (thread_id : String) (cmd_id : Value) (r : Response)
      → IsRefused cmd_id r
      → IsLeft server (r, server) thread_id cmd_id
  refused-IsLeft server thread_id cmd_id r refused =
      (refused, refl, refl, refl, refl, same-IsKept server.manager thread_id)

  start_outcome_lem :
      (server : Server G S) (thread_id : String) (cmd_id v : Value) (run_id now : String)
      (p : Result String × Manager G)
      → ValueOutcome server.manager p thread_id v run_id
      → let after = start_outcome store libraries server thread_id cmd_id v now p in
        HasStartedRun server after thread_id cmd_id v run_id now
        ⊎ IsLeft server after thread_id cmd_id
  start_outcome_lem server thread_id cmd_id v run_id now (err e, m)
        (inl (a, is, (never, run, spent, last))) =
      absurd (ground arith)
  start_outcome_lem server thread_id cmd_id v run_id now (err e, m) (inr (why, p, q, kept)) =
      inr (start_failure-IsRefused libraries.repr cmd_id e, refl, refl, p, q, kept)
  start_outcome_lem server thread_id cmd_id v run_id now (ok id, m) (inr ((e, never), p, q, kept)) =
      absurd (ground arith)
  start_outcome_lem server thread_id cmd_id v run_id now (ok id, m)
        (inl (a, is, (same, run, spent, last))) =
      let given_back : id ≡ run_id = ground arith in
      inl (
        a,
        is,
        ap (run_envelope cmd_id) given_back,
        (refl, run, spent, last),
        λ other. rw is (store.get-set_assistant server.threads thread_id a now other),
        refl,
      )

  start_configured_lem :
      (server : Server G S) (thread_id : String) (cmd_id v : Value) (params : Fields)
      (run_id now : String) (config : Result Fields)
      → let after =
          start_configured store libraries server thread_id cmd_id v params run_id now config in
        HasStartedRun server after thread_id cmd_id v run_id now
        ⊎ IsLeft server after thread_id cmd_id
  start_configured_lem server thread_id cmd_id v params run_id now (err e) =
      inr (refused-IsLeft server thread_id cmd_id _ (inr (e, refl)))
  start_configured_lem server thread_id cmd_id v params run_id now (ok config) =
      start_outcome_lem server thread_id cmd_id v run_id now _ (
        start_value-Outcome server.registry server.manager thread_id run_id v
          (given (get_or_null "input" params)) (some config) (get_or_null "metadata" params))

  -- Every `run.start` does one of two things. It answers with its run id, and then the id of the
  -- assistant in the params is a text, the thread's slot has that run with a task that is not
  -- done, no interrupts are pending, that assistant is the thread's last, and the thread's record,
  -- if it is there, has the assistant and the time, with every other record and the registry as
  -- before. Or it answers an error, or raises, and then the thread records, the pending interrupts
  -- and the last assistants are as before.
  pub start_command_outcome :
      (server : Server G S) (thread_id : String) (r : ThreadRecord) (cmd_id : Value)
      (params : Fields) (run_id now : String)
      → let after = start_command store libraries server thread_id r cmd_id params run_id now in
        HasStartedRun server after thread_id cmd_id (get_or_null "assistant_id" params) run_id now
        ⊎ IsLeft server after thread_id cmd_id
  unfolding start_command
  start_command_outcome server thread_id r cmd_id params run_id now =
      elim (Bool-cases (truthy (get_or_null "assistant_id" params))) [
        | inl named ↦ rw named (
            start_configured_lem server thread_id cmd_id (get_or_null "assistant_id" params) params
              run_id now (stamped_config (get_or_null "config" params) r.metadata))
        | inr unnamed ↦
            rw unnamed (inr (refused-IsLeft server thread_id cmd_id _ (inl (_, _, refl))))
      ]

  pub assigned_there :
      (server : Server G S) (threads : S) (thread_id : String) (r : ThreadRecord)
      (assistant_id now : String)
      → store.get server.threads thread_id ≡ some r
      → ((other : String)
          → store.get threads other ≡ (
              if other == thread_id
              then Option.map (assigned assistant_id now) (store.get server.threads thread_id)
              else store.get server.threads other))
      → store.get threads thread_id ≡ some (assigned assistant_id now r)
  assigned_there server threads thread_id r assistant_id now there shown =
      grind (arith, shown thread_id, there, ==_self thread_id)

  -- When a `run.start` on a thread of the store is answered with its run id, the thread reads through
  -- the graph of the assistant in the params from then on, whichever it had before.
  pub start_command-state_graph :
      (server : Server G S) (thread_id : String) (r : ThreadRecord) (cmd_id : Value)
      (params : Fields) (run_id now : String)
      → store.get server.threads thread_id ≡ some r
      → let after = start_command store libraries server thread_id r cmd_id params run_id now in
        after.0 ≡ run_envelope cmd_id run_id
        → (assistant_id : String) × (get_or_null "assistant_id" params ≡ str assistant_id)
          × (state_graph store libraries after.1 thread_id
              ≡ graph_of store libraries server.registry (some assistant_id))
  unfolding state_graph
  start_command-state_graph server thread_id r cmd_id params run_id now there answered =
      elim (start_command_outcome server thread_id r cmd_id params run_id now) [
        | inr (refused, kept, registry, pending, last, slots) ↦
            absurd (run_envelope-IsRefused cmd_id run_id _ refused answered)
        | inl (a, is, same, started, shown, registry) ↦ (
          a,
          is,
          (λ i. graph_of store libraries (registry i) (
              assistant_of store libraries
                (assigned_there server _ thread_id r a now there shown i))),
        )
      ]
