-- ===== src/Manager.antt =====
-- src/fastapi_agent_protocol/runner.py: `RunManager`, its state and `start`. `start` suspends while
-- the graph is resolved, so it is two steps here, and other coroutines may run between them. Tasks
-- live in the event loop: `tasks` holds them by number, with what `create_task` was given. `_clear`
-- is the callback of a task that is done.
use fastapi_agent_protocol.Base.{
  ℕ, ◌+◌, String, Bool, true, false, Option, none, some, [], if◌then◌else◌, ◌==◌, nat_eq, string_eq,
}
use fastapi_agent_protocol.Base.Dict
use fastapi_agent_protocol.Base.Dict.{Dict}
use fastapi_agent_protocol.Failure.{
  Failure, run_active, unknown_assistant, raised, is_exception, Result, ok, err,
}
use fastapi_agent_protocol.RunConfig.{run_config}
use fastapi_agent_protocol.Registry.{AgentRegistry, resolve, assistant_ids}
use fastapi_agent_protocol.Value.{Value, str, dict, Fields, hashable}

-- `object` is the identity that `is` compares; `task` is a number of `tasks`.
pub record ActiveRun : Type 0 where
  pub object : ℕ
  pub run_id : String
  pub thread_id : String
  pub assistant_id : String
  pub task : Option ℕ

-- What a run is started with: an input, or `Command(resume=…)`.
pub data Input : Type 0 where
  given : Value → Input
  resume : Value → Input

pub record Task (G : Type 0) : Type 0 where
  pub thread_id : String
  pub run_id : String
  pub assistant_id : String
  pub graph : G
  pub input : Input
  pub config : Dict String Value
  pub cancelling : Bool
  pub done : Bool

-- The pending interrupts of a thread, with the `assistant_id` entry among them.
abbrev pub Pending : Type 0
Pending = Dict String Value

pub record Manager (G : Type 0) : Type 0 where
  pub active : Dict String ActiveRun
  pub pending_inputs : Dict String Pending
  pub last_assistants : Dict String String
  pub tasks : Dict ℕ (Task G)
  -- the next object identity and task number
  pub next : ℕ

abbrev pub new_manager : {G : Type 0} → Manager G
new_manager = record {
  active = [];
  pending_inputs = [];
  last_assistants = [];
  tasks = [];
  next = 0;
}

abbrev pub is_object : ℕ → Option ActiveRun → Bool
is_object object none = false
is_object object (some run) = run.object == object

-- The `config` argument of `resolve`
abbrev pub config_value : Option Fields → Option Value
config_value none = none
config_value (some fs) = some (dict fs)

module _ {G : Type 0} where
  unfoldable pub active_run : Manager G → String → Option ActiveRun
  active_run m thread_id = Dict.lookup thread_id m.active

  unfoldable pub last_assistant : Manager G → String → Option String
  last_assistant m thread_id = Dict.lookup thread_id m.last_assistants

  -- A task that is not in the table is done.
  abbrev pub found_done : Option (Task G) → Bool
  found_done none = true
  found_done (some t) = t.done

  unfoldable pub task_done : Manager G → Option ℕ → Bool
  task_done m none = false
  task_done m (some n) = found_done (Dict.lookup n m.tasks)

  -- `start` up to the call of `resolve`: the slot is refused, or reserved.
  abbrev pub reservation : Manager G → String → String → String → ActiveRun
  reservation m thread_id assistant_id run_id = record {
    object = m.next;
    run_id = run_id;
    thread_id = thread_id;
    assistant_id = assistant_id;
    task = none;
  }

  abbrev pub reserve : Manager G → ActiveRun → Manager G
  reserve m run = record m { active = Dict.insert run.thread_id run m.active; next = m.next + 1 }

  abbrev pub reserve_over : Manager G → ActiveRun → Option ActiveRun → Result ActiveRun × Manager G
  reserve_over m run none = (ok run, reserve m run)
  reserve_over m run (some existing) =
      if task_done m existing.task
      then (ok run, reserve m run)
      else (err (run_active run.thread_id existing.run_id), m)

  unfoldable pub start_begin : Manager G → String → String → String → Result ActiveRun × Manager G
  start_begin m thread_id assistant_id run_id =
      reserve_over m (reservation m thread_id assistant_id run_id) (active_run m thread_id)

  -- `if self._active.get(thread_id) is run: self._active.pop(thread_id, None)`
  unfoldable pub release : Manager G → ActiveRun → Manager G
  release m run =
      if is_object run.object (active_run m run.thread_id)
      then record m { active = Dict.erase run.thread_id m.active }
      else m

  -- The end of `start`: the task is made and takes the slot.
  unfoldable pub launch : Manager G → ActiveRun → G → Input → Dict String Value → Manager G
  launch m reserved graph input config = record m {
    active =
        Dict.insert reserved.thread_id (record reserved { object = m.next + 1; task = some m.next })
          m.active;
    pending_inputs = Dict.erase reserved.thread_id m.pending_inputs;
    last_assistants = Dict.insert reserved.thread_id reserved.assistant_id m.last_assistants;
    tasks =
        Dict.insert m.next
          (record {
            thread_id = reserved.thread_id;
            run_id = reserved.run_id;
            assistant_id = reserved.assistant_id;
            graph = graph;
            input = input;
            config = config;
            cancelling = false;
            done = false;
          })
          m.tasks;
    next = m.next + 2;
  }

  abbrev pub configured :
      Manager G → ActiveRun → G → Input → Result (Dict String Value) → Result String × Manager G
  configured m reserved graph input (err e) = (err e, m)
  configured m reserved graph input (ok config) =
      (ok reserved.run_id, launch m reserved graph input config)

  -- `start` from the return of `resolve`. Its failure releases the slot if it is an `Exception`;
  -- a failure of what comes after it does not.
  unfoldable pub start_finish :
      Manager G → ActiveRun → Result G → Input → Option Fields → Value → Result String × Manager G
  start_finish m reserved (err e) input config metadata =
      if is_exception e then (err e, release m reserved) else (err e, m)
  start_finish m reserved (ok graph) input config metadata =
      configured m reserved graph input (run_config reserved.thread_id config metadata)

  abbrev pub started :
      AgentRegistry G
      → Input
      → Option Fields
      → Value
      → Result ActiveRun × Manager G
      → Result String × Manager G
  started registry input config metadata (err e, m) = (err e, m)
  started registry input config metadata (ok reserved, m) =
      start_finish m reserved (resolve registry reserved.assistant_id (config_value config)) input
        config metadata

  -- `start` with nothing else run while the graph is resolved.
  unfoldable pub start :
      AgentRegistry G
      → Manager G
      → String
      → String
      → String
      → Input
      → Option Fields
      → Value
      → Result String × Manager G
  start registry m thread_id assistant_id run_id input config metadata =
      started registry input config metadata (start_begin m thread_id assistant_id run_id)

  -- What `resolve` raises for an id that is no text: the registry's keys are texts.
  unfoldable pub refusal : AgentRegistry G → Value → Failure
  refusal registry assistant_id =
      if hashable assistant_id
      then unknown_assistant assistant_id (assistant_ids registry)
      else raised "TypeError" "unhashable type"

  abbrev pub refused :
      AgentRegistry G
      → Value
      → Input
      → Option Fields
      → Value
      → Result ActiveRun × Manager G
      → Result String × Manager G
  refused registry assistant_id input config metadata (err e, m) = (err e, m)
  refused registry assistant_id input config metadata (ok reserved, m) =
      start_finish m reserved (err (refusal registry assistant_id)) input config metadata

  -- `start` with the id that a client sends. With an id that is no text the reservation, which
  -- is given up at once, gets the empty one.
  unfoldable pub start_value :
      AgentRegistry G
      → Manager G
      → String
      → Value
      → String
      → Input
      → Option Fields
      → Value
      → Result String × Manager G
  start_value registry m thread_id (str assistant_id) run_id input config metadata =
      start registry m thread_id assistant_id run_id input config metadata
  start_value registry m thread_id assistant_id run_id input config metadata =
      refused registry assistant_id input config metadata (start_begin m thread_id "" run_id)

  unfoldable pub pending_interrupts : Manager G → String → Pending
  pending_interrupts m thread_id = elim (Dict.lookup thread_id m.pending_inputs) [
    | none ↦ []
    | some p ↦ p
  ]
