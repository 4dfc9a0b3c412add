-- ===== src/Examples/Running.antt =====
-- registry.py and runner.py: starts, answers and cancellations at concrete inputs.
use fastapi_agent_protocol.Base.{
  ℕ, String, ◌≡◌, ◌==◌, if◌then◌else◌, inl, refl, false, none, some, [], ◌∷◌, string_eq, nat_eq,
}
use fastapi_agent_protocol.Base.Dict
use fastapi_agent_protocol.Base.Dict.{Dict}
use fastapi_agent_protocol.Base.Int.{pos}
use fastapi_agent_protocol.Failure.{run_active, raised, cancelled, ok, err}
use fastapi_agent_protocol.Value.{
  Value, null, str, int, dict, end, field, truthy, get_or_null, get_field,
}
use fastapi_agent_protocol.Registry.{AgentRegistry, resolve, assistant_ids, sort_ids, insert_id}
use fastapi_agent_protocol.RunConfig.{run_config, base_config, unpack, merge}
use fastapi_agent_protocol.Manager.{
  ActiveRun, Input, given, Task, Manager, new_manager, active_run, release, launch, start,
  start_value, start_begin, start_finish,
}
use fastapi_agent_protocol.Runner.{respond, resolved_assistant, cancel, register_pending}
use fastapi_agent_protocol.Runner.Slots.{start_finish_failed, start_finish_wedged}
use fastapi_agent_protocol.Runner.System.{Reachable, at_first, after, begins, finishes}
use fastapi_agent_protocol.Runner.Serial.{one_task_a_thread}

-- Graphs are numbers here. Assistant "beta" has graph 2, and "alpha" raises.
abbrev agents : AgentRegistry ℕ
agents = record {
  factories =
      ("beta", λ config. ok 2) ∷ ("alpha", λ config. err (raised "ValueError" "no model")) ∷ [];
}

assistant_ids-agents : assistant_ids agents ≡ "alpha" ∷ "beta" ∷ []
unfolding assistant_ids sort_ids insert_id string_eq nat_eq
assistant_ids-agents = refl

abbrev pub fresh : Manager ℕ
fresh = new_manager

abbrev pub question : Input
question = given (str "hello")

-- A run that fails at its graph leaves no trace but the counter.
start_alpha :
    start agents fresh "t" "alpha" "r1" question none null
    ≡ (err (raised "ValueError" "no model"), record fresh { next = 1 })
unfolding start start_begin start_finish resolve release active_run Dict.lookup Dict.insert
    Dict.erase string_eq nat_eq
start_alpha = refl

-- The reservation that the next start of `fresh` makes, and what it leaves.
abbrev pub reserved : ActiveRun
reserved = record { object = 0; run_id = "r1"; thread_id = "t"; assistant_id = "beta"; task = none }

abbrev pub waiting : Manager ℕ
waiting = record fresh { active = ("t", reserved) ∷ []; next = 1 }

pub start_begin-fresh : start_begin fresh "t" "beta" "r1" ≡ (ok reserved, waiting)
unfolding start_begin active_run Dict.lookup Dict.insert string_eq nat_eq
start_begin-fresh = refl

abbrev pub default_config : Dict String Value
default_config = ("configurable", dict (field "thread_id" (str "t") end)) ∷ []

run_config_default : run_config "t" none null ≡ ok default_config
unfolding run_config base_config unpack merge truthy get_or_null get_field Dict.lookup Dict.insert
    Dict.erase string_eq nat_eq
run_config_default = refl

abbrev other_thread : String
other_thread = "u"

start_finish_failed_example :
    let after =
      start_finish waiting reserved (err (raised "ValueError" "no model")) question none null in
    (after.0 ≡ err (raised "ValueError" "no model"))
    × (active_run after.1 other_thread
        ≡ (if other_thread == reserved.thread_id then none else active_run waiting other_thread))
    × (after.1.pending_inputs ≡ [])
    × (after.1.last_assistants ≡ [])
unfolding active_run Dict.lookup string_eq
start_finish_failed_example =
    start_finish_failed waiting reserved other_thread (raised "ValueError" "no model") question none
      null refl refl

start_finish_wedged_example :
    let after = (start_finish waiting reserved (err cancelled) question none null).1 in
    ((assistant_id run_id : String)
      → start_begin after "t" assistant_id run_id ≡ (err (run_active "t" "r1"), after))
    × ((run_id : Value) → cancel after "t" run_id ≡ (false, after))
unfolding active_run Dict.lookup string_eq nat_eq
start_finish_wedged_example =
    start_finish_wedged waiting reserved (err cancelled) question none null cancelled refl refl
      (inl refl)

-- The client's metadata is a number: the config cannot be built.
run_config_raises :
    run_config "t" none (int (pos 3))
    ≡ err (raised "TypeError" "argument after ** must be a mapping")
unfolding run_config base_config unpack merge truthy get_or_null get_field Dict.lookup Dict.insert
    Dict.erase string_eq nat_eq
run_config_raises = refl

-- The thread waits for an answer to interrupt "i".
abbrev asking : Manager ℕ
asking = record fresh {
  pending_inputs = ("t", ("assistant_id", str "beta") ∷ ("i", str "go on?") ∷ []) ∷ [];
}

register_pending-asking : register_pending fresh "t" "beta" (("i", str "go on?") ∷ []) ≡ asking
unfolding register_pending merge Dict.insert string_eq nat_eq
register_pending-asking = refl

-- The entry for the assistant is taken for an interrupt.
respond_assistant_id : (respond agents asking "t" "assistant_id" "r2" (str "yes") none).0 ≡ ok "r2"
unfolding respond resolved_assistant start_value start start_begin start_finish resolve active_run
    Dict.lookup Dict.insert Dict.erase run_config base_config unpack merge truthy get_or_null
    get_field string_eq nat_eq
respond_assistant_id = refl

abbrev running : Manager ℕ
running = (start_finish waiting reserved (ok 2) question none null).1

abbrev running_task : Task ℕ
running_task = record {
  thread_id = "t";
  run_id = "r1";
  assistant_id = "beta";
  graph = 2;
  input = question;
  config = default_config;
  cancelling = false;
  done = false;
}

running_task_lem : Dict.lookup 1 running.tasks ≡ some running_task
unfolding start_finish launch Dict.lookup Dict.insert Dict.erase run_config base_config unpack merge
    truthy get_or_null get_field string_eq nat_eq
running_task_lem = refl

abbrev pub flight : Dict ℕ ActiveRun
flight = Dict.insert 0 reserved []

pub lookup-reserved : Dict.lookup 0 flight ≡ some reserved
unfolding Dict.lookup Dict.insert string_eq nat_eq
lookup-reserved = refl

running-Reachable : Reachable running (Dict.erase 0 flight)
running-Reachable =
    after (after at_first (begins reserved "t" "beta" "r1" start_begin-fresh))
      (finishes 0 reserved (ok 2) question none null lookup-reserved)

abbrev task_number : ℕ
task_number = 1

one_task_a_thread_example : task_number ≡ task_number
one_task_a_thread_example =
    one_task_a_thread 1 1 running_task running_task running-Reachable running_task_lem
      running_task_lem refl refl refl
