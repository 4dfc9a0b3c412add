-- ===== src/Runner/Waiting.antt =====
-- runner.py, `wait`: a caller that waits for the end of a thread's run. What its two waits raise, if
-- anything, is an argument: `settled` for the shielded task, whose failure or cancellation is raised
-- again there, and `slept` for the turn that it gives to the callback of the task.
use fastapi_agent_protocol.Base.{
  ℕ, String, ◌≡◌, refl, Option, none, some, if◌then◌else◌, ltb, arith,
}
use fastapi_agent_protocol.Failure.{Failure, is_exception}
use fastapi_agent_protocol.Manager.{ActiveRun, Manager, active_run}

-- A cancellation is raised again only if it is that of the waiter, whose `cancelling()` counts its
-- cancellations; every other failure of the run is passed over.
abbrev settlement : ℕ → Option Failure → Option Failure → Option Failure
settlement cancelling none slept = slept
settlement cancelling (some e) slept =
    if is_exception e then slept else if ltb 0 cancelling then some e else slept

abbrev await_task : Option ℕ → ℕ → Option Failure → Option Failure → Option Failure
await_task none cancelling settled slept = none
await_task (some task) cancelling settled slept = settlement cancelling settled slept

abbrev await_run : Option ActiveRun → ℕ → Option Failure → Option Failure → Option Failure
await_run none cancelling settled slept = none
await_run (some run) cancelling settled slept = await_task run.task cancelling settled slept

module _ {G : Type 0} where
  -- What `wait` raises, if anything.
  unfoldable pub wait : Manager G → String → ℕ → Option Failure → Option Failure → Option Failure
  wait m thread_id cancelling settled slept =
      await_run (active_run m thread_id) cancelling settled slept

  -- A waiter that nobody cancels, and that gets its turn after the run, raises nothing, whatever the
  -- run came to.
  pub wait_uncancelled :
      (m : Manager G) (thread_id : String) (settled : Option Failure)
      → wait m thread_id 0 settled none ≡ none
  unfolding wait
  wait_uncancelled m thread_id settled = awaits (active_run m thread_id)
    where
      settles : (result : Option Failure) → settlement 0 result none ≡ none
      settles none = refl
      settles (some e) = ground arith

      tasks : (task : Option ℕ) → await_task task 0 settled none ≡ none
      tasks none = refl
      tasks (some n) = settles settled

      awaits : (run : Option ActiveRun) → await_run run 0 settled none ≡ none
      awaits none = refl
      awaits (some run) = tasks run.task
