-- ===== src/Server/Quiet.antt =====
-- runner.py: the calls that start no run. They leave the last assistants and the pending interrupts.
use fastapi_agent_protocol.Base.{
  ℕ, String, ◌≡◌, refl, Bool, true, false, Option, none, some, nat_eq, if◌then◌else◌,
}
use fastapi_agent_protocol.Base.Dict
use fastapi_agent_protocol.Value.{Value}
use fastapi_agent_protocol.Manager.{ActiveRun, Manager, active_run, release, is_object}
use fastapi_agent_protocol.Runner.{
  cancel, settle, cancel_task, cancel_run, cancel_active, names_run,
}
use fastapi_agent_protocol.Runner.System.{Keeps}
use fastapi_agent_protocol.Runner.Tasks.{Keeps-refl, settle_found-Keeps, cancel_found-Keeps}

module _ {G : Type 0} where
  -- No task was started and nothing else is remembered of a thread.
  abbrev pub IsQuiet : Manager G → Manager G → Type 0
  IsQuiet m m' =
      Keeps m.tasks m'.tasks
      × (m'.last_assistants ≡ m.last_assistants)
      × (m'.pending_inputs ≡ m.pending_inputs)

  pub IsQuiet-refl : (m : Manager G) → IsQuiet m m
  IsQuiet-refl m = (Keeps-refl m.tasks, refl, refl)

  if-IsQuiet :
      (b : Bool) (m one other : Manager G)
      → IsQuiet m one
      → IsQuiet m other
      → IsQuiet m (if b then one else other)
  if-IsQuiet true m one other p q = p
  if-IsQuiet false m one other p q = q

  pick-IsQuiet :
      (b x y : Bool) (m one other : Manager G)
      → IsQuiet m one
      → IsQuiet m other
      → IsQuiet m (if◌then◌else◌ {A = Bool × Manager G} b (x, one) (y, other)).1
  pick-IsQuiet true x y m one other p q = p
  pick-IsQuiet false x y m one other p q = q

  pub release-IsQuiet : (m : Manager G) (run : ActiveRun) → IsQuiet m (release m run)
  unfolding release
  release-IsQuiet m run =
      if-IsQuiet (is_object run.object (active_run m run.thread_id)) m _ m
        (Keeps-refl m.tasks, refl, refl) (IsQuiet-refl m)

  pub settle-IsQuiet : (m : Manager G) (n : ℕ) → IsQuiet m (settle m n)
  unfolding settle
  settle-IsQuiet m n = (settle_found-Keeps m.tasks n (Dict.lookup n m.tasks) refl, refl, refl)

  cancel_task-IsQuiet : (m : Manager G) (n : ℕ) → IsQuiet m (cancel_task m n)
  unfolding cancel_task
  cancel_task-IsQuiet m n = (cancel_found-Keeps m.tasks n (Dict.lookup n m.tasks) refl, refl, refl)

  cancel_run-IsQuiet :
      (m : Manager G) (run_id : Value) (run : ActiveRun) (task : Option ℕ)
      → IsQuiet m (cancel_run m run_id run task).1
  cancel_run-IsQuiet m run_id run none = IsQuiet-refl m
  cancel_run-IsQuiet m run_id run (some n) =
      pick-IsQuiet (names_run run_id run.run_id) true false m (cancel_task m n) m
        (cancel_task-IsQuiet m n) (IsQuiet-refl m)

  cancel_active-IsQuiet :
      (m : Manager G) (run_id : Value) (run : Option ActiveRun)
      → IsQuiet m (cancel_active m run_id run).1
  cancel_active-IsQuiet m run_id none = IsQuiet-refl m
  cancel_active-IsQuiet m run_id (some run) = cancel_run-IsQuiet m run_id run run.task

  pub cancel-IsQuiet :
      (m : Manager G) (thread_id : String) (run_id : Value)
      → IsQuiet m (cancel m thread_id run_id).1
  unfolding cancel
  cancel-IsQuiet m thread_id run_id = cancel_active-IsQuiet m run_id (active_run m thread_id)
