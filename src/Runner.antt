-- ===== src/Runner.antt =====
-- src/fastapi_agent_protocol/runner.py: `RunManager`, that is `respond`, `cancel`, the end of a task
-- and the pending interrupts.
pub mod Slots
pub mod System
pub mod Taking
pub mod Ending
pub mod Tasks
pub mod Serial
pub mod Outcome
pub mod Replying
pub mod Respond
pub mod Answerable
pub mod Waiting
use fastapi_agent_protocol.Base.{
  ℕ, String, Bool, true, false, Option, none, some, List, [], ◌∷◌, if◌then◌else◌, ◌==◌, nat_eq,
  string_eq,
}
use fastapi_agent_protocol.Base.Dict
use fastapi_agent_protocol.Base.Dict.{Dict}
use fastapi_agent_protocol.Failure.{unknown_interrupt, Result, ok, err}
use fastapi_agent_protocol.RunConfig.{merge}
use fastapi_agent_protocol.Registry.{AgentRegistry}
use fastapi_agent_protocol.Value.{Value, null, str, truthy, text_truthy}
use fastapi_agent_protocol.Manager.{
  ActiveRun, Task, resume, Manager, Pending, active_run, start_value,
}

abbrev pub text_or_empty : Option String → String
text_or_empty none = ""
text_or_empty (some s) = s

-- `pending.get("assistant_id") or ""`. The entry is a text, unless an interrupt of that name has
-- taken its place.
abbrev pub stored_assistant : Option Value → Value
stored_assistant none = str ""
stored_assistant (some v) = if truthy v then v else str ""

abbrev pub or_stored : Option String → Pending → Value
or_stored assistant_id pending =
    if text_truthy (text_or_empty assistant_id)
    then str (text_or_empty assistant_id)
    else stored_assistant (Dict.lookup "assistant_id" pending)

-- The choice of the assistant in `respond`, or the unknown interrupt.
abbrev pub choose : String → String → Option String → Option Pending → Result Value
choose thread_id interrupt_id assistant_id none =
    if text_truthy (text_or_empty assistant_id)
    then ok (str (text_or_empty assistant_id))
    else err (unknown_interrupt thread_id interrupt_id)
choose thread_id interrupt_id assistant_id (some pending) =
    elim (Dict.lookup interrupt_id pending) [
      | none ↦ err (unknown_interrupt thread_id interrupt_id)
      | some _ ↦ ok (or_stored assistant_id pending)
    ]

-- `run_id is not None and active.run_id != run_id` is false
unfoldable pub names_run : Value → String → Bool
names_run null run_id = true
names_run (str s) run_id = run_id == s
names_run _ run_id = false

module _ {G : Type 0} where
  unfoldable pub resolved_assistant : Manager G → String → String → Option String → Result Value
  resolved_assistant m thread_id interrupt_id assistant_id =
      choose thread_id interrupt_id assistant_id (Dict.lookup thread_id m.pending_inputs)

  -- `respond` with nothing else run while the graph is resolved.
  unfoldable pub respond :
      AgentRegistry G
      → Manager G
      → String
      → String
      → String
      → Value
      → Option String
      → Result String × Manager G
  respond registry m thread_id interrupt_id run_id response assistant_id =
      elim (resolved_assistant m thread_id interrupt_id assistant_id) [
        | err e ↦ (err e, m)
        | ok assistant ↦
            start_value registry m thread_id assistant run_id (resume response) none null
      ]

  -- `task.cancel()`: a task that is done is left alone.
  abbrev pub cancel_found : Dict ℕ (Task G) → ℕ → Option (Task G) → Dict ℕ (Task G)
  cancel_found tasks n none = tasks
  cancel_found tasks n (some t) =
      if t.done then tasks else Dict.insert n (record t { cancelling = true }) tasks

  unfoldable pub cancel_task : Manager G → ℕ → Manager G
  cancel_task m n = record m { tasks = cancel_found m.tasks n (Dict.lookup n m.tasks) }

  abbrev pub cancel_run : Manager G → Value → ActiveRun → Option ℕ → Bool × Manager G
  cancel_run m run_id run none = (false, m)
  cancel_run m run_id run (some n) =
      if names_run run_id run.run_id then (true, cancel_task m n) else (false, m)

  abbrev pub cancel_active : Manager G → Value → Option ActiveRun → Bool × Manager G
  cancel_active m run_id none = (false, m)
  cancel_active m run_id (some run) = cancel_run m run_id run run.task

  unfoldable pub cancel : Manager G → String → Value → Bool × Manager G
  cancel m thread_id run_id = cancel_active m run_id (active_run m thread_id)

  -- The task has ended. Its callback runs later.
  abbrev pub settle_found : Dict ℕ (Task G) → ℕ → Option (Task G) → Dict ℕ (Task G)
  settle_found tasks n none = tasks
  settle_found tasks n (some t) = Dict.insert n (record t { done = true }) tasks

  unfoldable pub settle : Manager G → ℕ → Manager G
  settle m n = record m { tasks = settle_found m.tasks n (Dict.lookup n m.tasks) }

  -- `_register_pending`
  unfoldable pub register_pending : Manager G → String → String → List (String × Value) → Manager G
  register_pending m thread_id assistant_id interrupts = record m {
    pending_inputs =
        Dict.insert thread_id (merge (("assistant_id", str assistant_id) ∷ []) interrupts)
          m.pending_inputs;
  }
