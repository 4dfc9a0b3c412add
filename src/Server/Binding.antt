-- ===== src/Server/Binding.antt =====
-- router.py with runner.py and threads.py: the assistant of a thread's record and that of its runs.
use fastapi_agent_protocol.Base.{ℕ, String, ◌≡◌, true, false, some, [], arith, nat_eq, string_eq}
use fastapi_agent_protocol.Base.Dict
use fastapi_agent_protocol.Base.Dict.{Dict, lookup-insert, lookup-insert_self, lookup-erase}
use fastapi_agent_protocol.Value.{text_truthy}
use fastapi_agent_protocol.Registry.{AgentRegistry}
use fastapi_agent_protocol.Manager.{ActiveRun, Task, Manager, Pending, new_manager, last_assistant}
use fastapi_agent_protocol.Runner.System.{Flight, Sound, new_manager-Sound}
use fastapi_agent_protocol.Threads.{ThreadRecord}
use fastapi_agent_protocol.Threads.Store.{ThreadStore}
use fastapi_agent_protocol.Router.{Libraries}
use fastapi_agent_protocol.Server.{EventLoop, assistant_in}
use fastapi_agent_protocol.Server.Quiet.{IsQuiet}

module _ {G S : Type 0} (store : ThreadStore S) (libraries : Libraries G) where
  -- The last assistant of a thread is the one of its record, and has a name. The tasks that are not
  -- done run it, and a start in flight is on a thread of the store. That of an `input.respond` is
  -- on the assistant of the record.
  pub record Bound (w : EventLoop G S) : Type 0 where
    pub sound : Sound w.server.manager w.flying
    pub named :
        (thread_id assistant : String)
        → last_assistant w.server.manager thread_id ≡ some assistant
        → (assistant_in store libraries w.server.threads thread_id ≡ some assistant)
          × (text_truthy assistant ≡ true)
    pub running :
        (n : ℕ) (task : Task G)
        → Dict.lookup n w.server.manager.tasks ≡ some task
        → task.done ≡ false
        → last_assistant w.server.manager task.thread_id ≡ some task.assistant_id
    pub ran :
        (n : ℕ) (task : Task G)
        → Dict.lookup n w.server.manager.tasks ≡ some task
        → (assistant : String) × (last_assistant w.server.manager task.thread_id ≡ some assistant)
    pub pending :
        (thread_id : String) (pending : Pending)
        → Dict.lookup thread_id w.server.manager.pending_inputs ≡ some pending
        → (assistant : String) × (last_assistant w.server.manager thread_id ≡ some assistant)
    pub waiting :
        (n : ℕ) (run : ActiveRun)
        → Dict.lookup n w.flying ≡ some run
        → (r : ThreadRecord) × (store.get w.server.threads run.thread_id ≡ some r)
          × (text_truthy run.assistant_id ≡ true)
    pub resumed :
        (n : ℕ) (run : ActiveRun)
        → Dict.lookup n w.flying ≡ some run
        → Dict.lookup n w.resuming ≡ some true
        → assistant_in store libraries w.server.threads run.thread_id ≡ some run.assistant_id

  pub new-Bound :
      (registry : AgentRegistry G) (threads : S)
      → Bound (record {
        server = record { registry = registry; manager = new_manager; threads = threads };
        flying = [];
        resuming = [];
      })
  unfolding last_assistant
  new-Bound registry threads = record {
    sound = new_manager-Sound;
    named = λ t a h. grind (arith, Dict.lookup-nil);
    running = λ n t h d. grind (arith, Dict.lookup-nil);
    ran = λ n t h. grind (arith, Dict.lookup-nil);
    pending = λ t p h. grind (arith, Dict.lookup-nil);
    waiting = λ n run h. grind (arith, Dict.lookup-nil);
    resumed = λ n run h r. grind (arith, Dict.lookup-nil);
  }

  -- Calls that start no run, and starts that end without one.
  pub quiet-Bound :
      (w : EventLoop G S) (m : Manager G) (fly : Flight)
      → Bound w
      → IsQuiet w.server.manager m
      → Sound m fly
      → ((n : ℕ) (run : ActiveRun)
          → Dict.lookup n fly ≡ some run
          → Dict.lookup n w.flying ≡ some run)
      → Bound (record w { server = record w.server { manager = m }; flying = fly })
  unfolding last_assistant
  quiet-Bound w m fly b (kept, last, same) s fewer = record {
    sound = s;
    named = λ t a h. b.named t a (grind (arith));
    running =
        λ n t h d. let (old, o, e, f, g) = kept n t h in grind (arith, b.running n old o (f d));
    ran = λ n t h.
        let (old, o, e, f, g) = kept n t h in let (a, is) = b.ran n old o in (a, grind (arith));
    pending = λ t p h. let (a, is) = b.pending t p (grind (arith)) in (a, grind (arith));
    waiting = λ n run h. b.waiting n run (fewer n run h);
    resumed = λ n run h r. b.resumed n run (fewer n run h) r;
  }
