-- ===== src/Server.antt =====
-- router.py with runner.py and threads.py: handlers and runs that the event loop interleaves. A
-- handler is suspended where it waits for the graph of a start; what it does before is one step, and
-- what it does after, with the thread store, is another.
pub mod Quiet
pub mod Binding
pub mod Turns
pub mod Assignment
pub mod Handling
pub mod Resuming
pub mod Dispatching
pub mod Restart
pub mod Launching
use fastapi_agent_protocol.Base.{
  ℕ, ◌+◌, String, ◌≡◌, Bool, true, false, Option, none, some, List, [], nat_eq, string_eq,
}
use fastapi_agent_protocol.Base.Dict
use fastapi_agent_protocol.Base.Dict.{Dict}
use fastapi_agent_protocol.Failure.{Result, ok}
use fastapi_agent_protocol.Value.{Value, str, Fields, text_truthy}
use fastapi_agent_protocol.Registry.{AgentRegistry}
use fastapi_agent_protocol.Manager.{
  ActiveRun, Task, Input, Manager, new_manager, start_begin, start_finish, release,
}
use fastapi_agent_protocol.Runner.{resolved_assistant, cancel, settle, register_pending}
use fastapi_agent_protocol.Runner.System.{Flight}
use fastapi_agent_protocol.Threads.{ThreadRecord}
use fastapi_agent_protocol.Threads.Store.{ThreadStore}
use fastapi_agent_protocol.Router.{Libraries, Server, assistant_of}
use fastapi_agent_protocol.Commands.{start_outcome, respond_outcome}

-- The server with the starts in flight. `resuming` says of each whether it is that of an
-- `input.respond`, and keeps that after its end.
pub record EventLoop (G S : Type 0) : Type 0 where
  pub server : Server G S
  pub flying : Flight
  pub resuming : Dict ℕ Bool

abbrev pub managed : {G S : Type 0} → EventLoop G S → Manager G → EventLoop G S
managed w m = record w { server = record w.server { manager = m } }

abbrev pub launched : {G S : Type 0} → EventLoop G S → Manager G → ActiveRun → Bool → EventLoop G S
launched w m run resumes = record {
  server = record w.server { manager = m };
  flying = Dict.insert run.object run w.flying;
  resuming = Dict.insert run.object resumes w.resuming;
}

module _ {G S : Type 0} (store : ThreadStore S) (libraries : Libraries G) where
  abbrev pub assistant_in : S → String → Option String
  assistant_in threads thread_id = assistant_of store libraries (store.get threads thread_id)

  pub data Step : EventLoop G S → EventLoop G S → Type 0 where
    -- `create_thread`, with an id that is new
    creates :
        {w : EventLoop G S} (thread_id now : String) (metadata : Option Fields)
        (made : S × ThreadRecord)
        → store.create w.server.threads thread_id now metadata ≡ ok made
        → store.get w.server.threads thread_id ≡ none
        → Step w (record w { server = record w.server { threads = made.0 } })
    -- `run.start` on a thread of the store, up to the resolution of its graph, and from there
    starts :
        {w : EventLoop G S} (thread_id assistant_id run_id : String) (r : ThreadRecord)
        (run : ActiveRun) (m : Manager G)
        → store.get w.server.threads thread_id ≡ some r
        → text_truthy assistant_id ≡ true
        → start_begin w.server.manager thread_id assistant_id run_id ≡ (ok run, m)
        → Step w (launched w m run false)
    start_ends :
        {w : EventLoop G S} (n : ℕ) (run : ActiveRun) (cmd_id : Value) (now : String)
        (resolved : Result G) (input : Input) (config : Option Fields) (metadata : Value)
        → Dict.lookup n w.flying ≡ some run
        → Dict.lookup n w.resuming ≡ some false
        → Step w (record w {
          server =
              (start_outcome store libraries w.server run.thread_id cmd_id
                (str run.assistant_id)
                now
                (start_finish w.server.manager run resolved input config metadata)).1;
          flying = Dict.erase n w.flying;
        })
    -- `run.start` with an id that is no text: the registry refuses it before the handler waits
    refuses :
        {w : EventLoop G S} (thread_id run_id : String) (run : ActiveRun) (m : Manager G)
        → start_begin w.server.manager thread_id "" run_id ≡ (ok run, m)
        → Step w (managed w (release m run))
    -- `input.respond` on a thread of the store, up to the resolution of its graph, and from there
    responds :
        {w : EventLoop G S} (thread_id interrupt_id assistant_id run_id : String) (r : ThreadRecord)
        (run : ActiveRun) (m : Manager G)
        → store.get w.server.threads thread_id ≡ some r
        → resolved_assistant w.server.manager thread_id interrupt_id
            (assistant_in w.server.threads thread_id)
          ≡ ok (str assistant_id)
        → start_begin w.server.manager thread_id assistant_id run_id ≡ (ok run, m)
        → Step w (launched w m run true)
    respond_ends :
        {w : EventLoop G S} (n : ℕ) (run : ActiveRun) (cmd_id : Value) (resolved : Result G)
        (input : Input) (config : Option Fields) (metadata : Value)
        → Dict.lookup n w.flying ≡ some run
        → Dict.lookup n w.resuming ≡ some true
        → Step w (record w {
          server =
              (respond_outcome store libraries w.server cmd_id
                (start_finish w.server.manager run resolved input config metadata)).1;
          flying = Dict.erase n w.flying;
        })
    -- `run.cancel`, and the route
    cancels :
        {w : EventLoop G S} (thread_id : String) (run_id : Value)
        → Step w (managed w (cancel w.server.manager thread_id run_id).1)
    -- a run registers its interrupts, ends, and its callback clears its slot
    registers :
        {w : EventLoop G S} (n : ℕ) (task : Task G) (interrupts : List (String × Value))
        → Dict.lookup n w.server.manager.tasks ≡ some task
        → task.done ≡ false
        → Step w (
            managed w
              (register_pending w.server.manager task.thread_id task.assistant_id interrupts))
    settles : {w : EventLoop G S} (n : ℕ) → Step w (managed w (settle w.server.manager n))
    clears :
        {w : EventLoop G S} (n : ℕ) (task : Task G) (run : ActiveRun)
        → Dict.lookup n w.server.manager.tasks ≡ some task
        → task.done ≡ true
        → run.object ≡ n + 1
        → run.thread_id ≡ task.thread_id
        → Step w (managed w (release w.server.manager run))
    -- the process is restarted: the thread store outlives it
    restarts :
        {w : EventLoop G S} (registry : AgentRegistry G)
        → Step w (record {
          server = record {
            registry = registry;
            manager = new_manager;
            threads = w.server.threads;
          };
          flying = [];
          resuming = [];
        })

  -- A server that was put together on any threads.
  pub data Reachable : EventLoop G S → Type 0 where
    at_first :
        (registry : AgentRegistry G) (threads : S)
        → Reachable (record {
          server = record { registry = registry; manager = new_manager; threads = threads };
          flying = [];
          resuming = [];
        })
    after : {w v : EventLoop G S} → Reachable w → Step w v → Reachable v
