-- ===== src/Server/Turns.antt =====
-- router.py with runner.py and threads.py: what a turn of the event loop does to the assistants of
-- threads and of runs, but for a start that is accepted.
use fastapi_agent_protocol.Base.{
  ℕ, String, ◌≡◌, inl, inr, refl, subst, ap, sym, ◌∙◌, Bool, true, false, Option, none, some, List,
  arith, ◌==◌, nat_eq, string_eq, Bool-cases, if◌then◌else◌,
}
use fastapi_agent_protocol.Base.Dict
use fastapi_agent_protocol.Base.Dict.{Dict, lookup-insert, lookup-erase}
use fastapi_agent_protocol.Failure.{Failure, is_exception, Result, ok, err}
use fastapi_agent_protocol.RunConfig.{run_config}
use fastapi_agent_protocol.Value.{Value, str, Fields, text_truthy}
use fastapi_agent_protocol.Manager.{
  ActiveRun, Task, Input, Manager, Pending, last_assistant, release, launch, start_finish,
  configured,
}
use fastapi_agent_protocol.Runner.{choose, resolved_assistant, register_pending}
use fastapi_agent_protocol.Runner.System.{Sound}
use fastapi_agent_protocol.Runner.Ending.{shrink-Sound, fails-Sound}
use fastapi_agent_protocol.Runner.Serial.{registers-Sound}
use fastapi_agent_protocol.Threads.{ThreadRecord}
use fastapi_agent_protocol.Threads.Store.{ThreadStore}
use fastapi_agent_protocol.Router.{Libraries, assistant_of}
use fastapi_agent_protocol.Server.{EventLoop, assistant_in, managed}
use fastapi_agent_protocol.Server.Quiet.{IsQuiet, IsQuiet-refl, release-IsQuiet}
use fastapi_agent_protocol.Server.Binding.{Bound, quiet-Bound}

-- The choice of `respond`, where a thread with pending interrupts has an assistant with a name.
choose_named :
    (thread_id interrupt_id : String) (stored : Option String) (pending : Option Pending)
    (v : Value)
    → ((p : Pending) → pending ≡ some p → (a : String) × (stored ≡ some a) × (text_truthy a ≡ true))
    → choose thread_id interrupt_id stored pending ≡ ok v
    → (a : String) × (stored ≡ some a) × (v ≡ str a) × (text_truthy a ≡ true)
choose_named thread_id interrupt_id none none v named e = absurd (ground arith)
choose_named thread_id interrupt_id (some a) none v named e = (a, refl, ground arith, ground arith)
choose_named thread_id interrupt_id stored (some p) v named e =
    let (a, is, truth) = named p refl in (a, is, ground arith, truth)

module _ {G S : Type 0} (store : ThreadStore S) (libraries : Libraries G) where
  pub creates-Bound :
      (w : EventLoop G S) (thread_id now : String) (metadata : Option Fields)
      (made : S × ThreadRecord)
      → store.create w.server.threads thread_id now metadata ≡ ok made
      → store.get w.server.threads thread_id ≡ none
      → Bound store libraries w
      → Bound store libraries (record w { server = record w.server { threads = made.0 } })
  creates-Bound w thread_id now metadata made e new b =
      let others =
        λ (other : String). store.get-create w.server.threads thread_id now other metadata made e in
      record {
        sound = b.sound;
        named = λ t a h.
            let (is, text) = b.named t a h in
            elim (Bool-cases (t == thread_id)) [
              | inl own ↦ absurd (grind (arith, is, new))
              | inr apart ↦ (ap (assistant_of store libraries) (others t apart) ∙ is, text)
            ];
        running = b.running;
        ran = b.ran;
        pending = b.pending;
        waiting = λ n run h.
            let (r, is, text) = b.waiting n run h in
            elim (Bool-cases (run.thread_id == thread_id)) [
              | inl own ↦ absurd (grind (arith, is, new))
              | inr apart ↦ (r, others run.thread_id apart ∙ is, text)
            ];
        resumed = λ n run h again.
            let is = b.resumed n run h again in
            elim (Bool-cases (run.thread_id == thread_id)) [
              | inl own ↦ absurd (grind (arith, is, new))
              | inr apart ↦ ap (assistant_of store libraries) (others run.thread_id apart) ∙ is
            ];
      }

  pub registers-Bound :
      (w : EventLoop G S) (n : ℕ) (task : Task G) (interrupts : List (String × Value))
      → Dict.lookup n w.server.manager.tasks ≡ some task
      → Bound store libraries w
      → Bound store libraries (
          managed w (register_pending w.server.manager task.thread_id task.assistant_id interrupts))
  unfolding last_assistant register_pending
  registers-Bound w n task interrupts found b = record {
    sound =
        registers-Sound w.server.manager w.flying task.thread_id task.assistant_id interrupts
          b.sound;
    named = b.named;
    running = b.running;
    ran = b.ran;
    pending = λ t p h. elim (Bool-cases (t == task.thread_id)) [
      | inl own ↦ let (a, is) = b.ran n task found in (a, grind (arith, is))
      | inr apart ↦ b.pending t p (grind (arith, lookup-insert))
    ];
    waiting = b.waiting;
    resumed = b.resumed;
  }

  -- An `input.respond` goes on with the assistant of the thread's record.
  pub resolved_assistant_named :
      (w : EventLoop G S) (thread_id interrupt_id : String) (v : Value)
      → Bound store libraries w
      → resolved_assistant w.server.manager thread_id interrupt_id
          (assistant_in store libraries w.server.threads thread_id)
        ≡ ok v
      → (a : String) × (assistant_in store libraries w.server.threads thread_id ≡ some a)
        × (v ≡ str a)
        × (text_truthy a ≡ true)
  unfolding resolved_assistant
  resolved_assistant_named w thread_id interrupt_id v b e =
      choose_named thread_id interrupt_id _ _ v
        (λ p found.
          let (a, is) = b.pending thread_id p found in
          let (same, text) = b.named thread_id a is in (a, same, text))
        e

  -- A start that ended without a run.
  refused-Bound :
      (w : EventLoop G S) (n : ℕ) (m : Manager G)
      → IsQuiet w.server.manager m
      → Sound m (Dict.erase n w.flying)
      → Bound store libraries w
      → Bound store libraries
          (record w { server = record w.server { manager = m }; flying = Dict.erase n w.flying })
  refused-Bound w n m quiet s b =
      quiet-Bound store libraries w m (Dict.erase n w.flying) b quiet s
        (λ k run h. grind (arith, lookup-erase))

  -- Ends of a start, by what becomes of the manager.
  abbrev pub After :
      (EventLoop G S → ℕ → Result String × Manager G → EventLoop G S) → EventLoop G S → ℕ → Type 0
  After ended w n =
      (e : Failure) (m : Manager G)
      → ended w n (err e, m)
        ≡ (record w { server = record w.server { manager = m }; flying = Dict.erase n w.flying })

  pub ends-Bound :
      (ended : EventLoop G S → ℕ → Result String × Manager G → EventLoop G S) (w : EventLoop G S)
      (n : ℕ) (run : ActiveRun) (resolved : Result G) (input : Input) (config : Option Fields)
      (metadata : Value)
      → After ended w n
      → ((graph : G) (full : Dict String Value)
          → Bound store libraries
              (ended w n (ok run.run_id, launch w.server.manager run graph input full)))
      → Dict.lookup n w.flying ≡ some run
      → Bound store libraries w
      → Bound store libraries
          (ended w n (start_finish w.server.manager run resolved input config metadata))
  unfolding start_finish
  ends-Bound ended w n run (ok graph) input config metadata plain launches waiting b =
      configures (run_config run.thread_id config metadata)
    where
      configures :
          (full : Result (Dict String Value))
          → Bound store libraries (ended w n (configured w.server.manager run graph input full))
      configures (ok full) = launches graph full
      configures (err e) = subst (Bound store libraries) (sym (plain e w.server.manager)) (
          refused-Bound w n w.server.manager (IsQuiet-refl w.server.manager)
            (shrink-Sound w.server.manager w.flying n b.sound) b)
  ends-Bound ended w n run (err e) input config metadata plain launches waiting b =
      fails (is_exception e)
    where
      fails :
          (exception : Bool)
          → Bound store libraries (
              ended w n (
                if exception
                then (err e, release w.server.manager run)
                else (err e, w.server.manager)))
      fails true = subst (Bound store libraries) (sym (plain e (release w.server.manager run))) (
          refused-Bound w n (release w.server.manager run) (release-IsQuiet w.server.manager run)
            (fails-Sound w.server.manager w.flying n run b.sound waiting) b)
      fails false = subst (Bound store libraries) (sym (plain e w.server.manager)) (
          refused-Bound w n w.server.manager (IsQuiet-refl w.server.manager)
            (shrink-Sound w.server.manager w.flying n b.sound) b)
