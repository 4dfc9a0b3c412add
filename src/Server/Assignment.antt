-- ===== src/Server/Assignment.antt =====
-- router.py with runner.py and threads.py: what is so of the assistants of threads and of runs,
-- whatever the order in which handlers and runs go on, restarts included.
use fastapi_agent_protocol.Base.{
  ℕ, String, ◌≡◌, refl, ap, true, false, Option, some, arith, nat_eq, string_eq,
}
use fastapi_agent_protocol.Base.Dict
use fastapi_agent_protocol.Base.Dict.{Dict}
use fastapi_agent_protocol.Failure.{Result, ok}
use fastapi_agent_protocol.Value.{Value, str, Fields, text_truthy}
use fastapi_agent_protocol.Manager.{ActiveRun, Task, Input, Manager, last_assistant, start_finish}
use fastapi_agent_protocol.Runner.{resolved_assistant}
use fastapi_agent_protocol.Runner.Ending.{clears-Sound}
use fastapi_agent_protocol.Runner.Tasks.{settles-Sound, cancels-Sound}
use fastapi_agent_protocol.Threads.Store.{ThreadStore}
use fastapi_agent_protocol.Router.{Libraries, assistant_of}
use fastapi_agent_protocol.Commands.{start_outcome, respond_outcome}
use fastapi_agent_protocol.Commands.Starting.{assigned_there}
use fastapi_agent_protocol.Server.{
  EventLoop, assistant_in, Step, creates, starts, start_ends, refuses, responds, respond_ends,
  cancels, registers, settles, clears, restarts, Reachable, at_first, after,
}
use fastapi_agent_protocol.Server.Quiet.{release-IsQuiet, settle-IsQuiet, cancel-IsQuiet}
use fastapi_agent_protocol.Server.Binding.{Bound, new-Bound, quiet-Bound}
use fastapi_agent_protocol.Server.Launching.{begins-Bound, refuses-Bound, launch-Bound}
use fastapi_agent_protocol.Server.Turns.{
  creates-Bound, registers-Bound, resolved_assistant_named, ends-Bound,
}

module _ {G S : Type 0} (store : ThreadStore S) (libraries : Libraries G) where
  -- What the ends of `run.start` and of `input.respond` leave.
  abbrev start_ended :
      Value → String → EventLoop G S → ActiveRun → ℕ → Result String × Manager G → EventLoop G S
  start_ended cmd_id now w run n p = record w {
    server =
        (start_outcome store libraries w.server run.thread_id cmd_id (str run.assistant_id) now
          p).1;
    flying = Dict.erase n w.flying;
  }

  abbrev respond_ended : Value → EventLoop G S → ℕ → Result String × Manager G → EventLoop G S
  respond_ended cmd_id w n p = record w {
    server = (respond_outcome store libraries w.server cmd_id p).1;
    flying = Dict.erase n w.flying;
  }

  start_ends-Bound :
      (w : EventLoop G S) (n : ℕ) (run : ActiveRun) (cmd_id : Value) (now : String)
      (resolved : Result G) (input : Input) (config : Option Fields) (metadata : Value)
      → Dict.lookup n w.flying ≡ some run
      → Bound store libraries w
      → Bound store libraries (
          start_ended cmd_id now w run n
            (start_finish w.server.manager run resolved input config metadata))
  start_ends-Bound w n run cmd_id now resolved input config metadata waiting b =
      ends-Bound store libraries (λ v k p. start_ended cmd_id now v run k p) w n run resolved input
        config metadata (λ e m. refl)
        (λ graph full.
          let (r, there, text) = b.waiting n run waiting in
          let shown = store.get-set_assistant w.server.threads run.thread_id run.assistant_id now in
          launch-Bound store libraries w n run graph input full _ b waiting
            (ap (assistant_of store libraries) (
              assigned_there store libraries w.server _ run.thread_id r run.assistant_id now there
                shown))
            (λ other apart. grind (arith, shown other, apart)))
        waiting b

  respond_ends-Bound :
      (w : EventLoop G S) (n : ℕ) (run : ActiveRun) (cmd_id : Value) (resolved : Result G)
      (input : Input) (config : Option Fields) (metadata : Value)
      → Dict.lookup n w.flying ≡ some run
      → Dict.lookup n w.resuming ≡ some true
      → Bound store libraries w
      → Bound store libraries (
          respond_ended cmd_id w n
            (start_finish w.server.manager run resolved input config metadata))
  respond_ends-Bound w n run cmd_id resolved input config metadata waiting resumes b =
      ends-Bound store libraries (λ v k p. respond_ended cmd_id v k p) w n run resolved input config
        metadata (λ e m. refl)
        (λ graph full.
          launch-Bound store libraries w n run graph input full w.server.threads b waiting
            (b.resumed n run waiting resumes) (λ other apart. refl))
        waiting b

  pub Step-Bound :
      {w v : EventLoop G S}
      → Step store libraries w v
      → Bound store libraries w
      → Bound store libraries v
  Step-Bound {w = w} (creates t now metadata made e new) b =
      creates-Bound store libraries w t now metadata made e new b
  Step-Bound {w = w} (starts t a id r run m there text e) b =
      begins-Bound store libraries w t a id false r run m b e there text
        (λ never. absurd (ground arith))
  Step-Bound {w = w} (start_ends n run cmd_id now resolved input config metadata waiting fresh) b =
      start_ends-Bound w n run cmd_id now resolved input config metadata waiting b
  Step-Bound {w = w} (refuses t id run m e) b = refuses-Bound store libraries w t id run m e b
  Step-Bound {w = w} (responds t i a id r run m there found e) b =
      let (s, is, same, text) = resolved_assistant_named store libraries w t i (str a) b found in
      begins-Bound store libraries w t a id true r run m b e there (grind (arith, same, text))
        (λ resumes. grind (arith, is, same))
  Step-Bound {w = w} (respond_ends n run cmd_id resolved input config metadata waiting resumes) b =
      respond_ends-Bound w n run cmd_id resolved input config metadata waiting resumes b
  Step-Bound {w = w} (cancels t run_id) b =
      quiet-Bound store libraries w _ w.flying b (cancel-IsQuiet w.server.manager t run_id)
        (cancels-Sound w.server.manager w.flying t run_id b.sound) (λ k run h. h)
  Step-Bound {w = w} (registers n task interrupts found busy) b =
      registers-Bound store libraries w n task interrupts found b
  Step-Bound {w = w} (settles n) b =
      quiet-Bound store libraries w _ w.flying b (settle-IsQuiet w.server.manager n)
        (settles-Sound w.server.manager w.flying n b.sound) (λ k run h. h)
  Step-Bound {w = w} (clears n task run found over owns same) b =
      quiet-Bound store libraries w _ w.flying b (release-IsQuiet w.server.manager run)
        (clears-Sound w.server.manager w.flying n task run b.sound found over owns) (λ k run h. h)
  Step-Bound {w = w} (restarts registry) b = new-Bound store libraries registry w.server.threads

  pub Reachable-Bound : {w : EventLoop G S} → Reachable store libraries w → Bound store libraries w
  Reachable-Bound (at_first registry threads) = new-Bound store libraries registry threads
  Reachable-Bound (after r step) = Step-Bound step (Reachable-Bound r)

  -- In every reachable state of the event loop, whatever the order in which handlers and runs went
  -- on and however often the process was restarted, a task that is not done runs the assistant that
  -- the record of its thread has, which is the thread's last.
  pub task_assistant :
      (w : EventLoop G S) (n : ℕ) (task : Task G)
      → Reachable store libraries w
      → Dict.lookup n w.server.manager.tasks ≡ some task
      → task.done ≡ false
      → (assistant_in store libraries w.server.threads task.thread_id ≡ some task.assistant_id)
        × (last_assistant w.server.manager task.thread_id ≡ some task.assistant_id)
  task_assistant w n task r found busy =
      let b = Reachable-Bound r in
      let last = b.running n task found busy in
      let (is, text) = b.named task.thread_id task.assistant_id last in (is, last)

  -- In every reachable state of the event loop, what the run manager resumes for an interrupt of a
  -- thread, given the assistant of the thread's record, is that assistant, and it is no empty text.
  pub resumed_assistant :
      (w : EventLoop G S) (thread_id interrupt_id : String) (v : Value)
      → Reachable store libraries w
      → resolved_assistant w.server.manager thread_id interrupt_id
          (assistant_in store libraries w.server.threads thread_id)
        ≡ ok v
      → (a : String) × (assistant_in store libraries w.server.threads thread_id ≡ some a)
        × (v ≡ str a)
        × (text_truthy a ≡ true)
  resumed_assistant w thread_id interrupt_id v r e =
      resolved_assistant_named store libraries w thread_id interrupt_id v (Reachable-Bound r) e
