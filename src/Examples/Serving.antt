-- ===== src/Examples/Serving.antt =====
-- router.py with runner.py: handlers and runs that the event loop interleaves, at concrete inputs.
use fastapi_agent_protocol.Base.{ℕ, ◌≡◌, refl, false, true, none, some, [], ◌∷◌, string_eq, nat_eq}
use fastapi_agent_protocol.Base.Dict
use fastapi_agent_protocol.Base.Int.{pos}
use fastapi_agent_protocol.Failure.{ok}
use fastapi_agent_protocol.Value.{null, int, str, dict, text_truthy, end, field}
use fastapi_agent_protocol.RunConfig.{run_config, base_config, unpack, merge}
use fastapi_agent_protocol.Value.{truthy, get_or_null, get_field, hashable}
use fastapi_agent_protocol.Manager.{
  ActiveRun, Task, given, new_manager, active_run, last_assistant, start_begin, start_finish,
  launch, reserve, reservation,
}
use fastapi_agent_protocol.Threads.{MemoryStore, memory_get}
use fastapi_agent_protocol.Threads.Store.{memory}
use fastapi_agent_protocol.Router.{Server}
use fastapi_agent_protocol.Commands.{
  dispatch_command, start_outcome, respond_command, run_envelope, all_hashable_ids, has_interrupt,
  interrupt_id_of,
}
use fastapi_agent_protocol.Server.{
  EventLoop, assistant_in, launched, Reachable, at_first, after, starts, start_ends,
}
use fastapi_agent_protocol.Server.Assignment.{task_assistant}
use fastapi_agent_protocol.Server.Restart.{restart_resumes}
use fastapi_agent_protocol.Runner.Slots.{HasStarted}
use fastapi_agent_protocol.Registry.{resolve}
use fastapi_agent_protocol.PyText.{str_of}
use fastapi_agent_protocol.Server.Handling.{IsReached}
use fastapi_agent_protocol.Server.Dispatching.{dispatch_command-IsReached}
use fastapi_agent_protocol.Examples.Commanding.{
  agents, libraries, thread, server, start_body, answer, paused,
}

abbrev idle : EventLoop ℕ MemoryStore
idle = record { server = server; flying = []; resuming = [] }

idle-Reachable : Reachable memory libraries idle
idle-Reachable = at_first agents (("t", thread) ∷ [])

abbrev reserved : ActiveRun
reserved = reservation {G = ℕ} new_manager "t" "beta" "r1"

abbrev resolving : EventLoop ℕ MemoryStore
resolving = launched idle (reserve new_manager reserved) reserved false

resolving-Reachable : Reachable memory libraries resolving
unfolding memory memory_get start_begin active_run Dict.lookup Dict.insert string_eq nat_eq
resolving-Reachable =
    after idle-Reachable
      (starts "t" "beta" "r1" thread reserved (reserve new_manager reserved) refl refl refl)

abbrev serving : EventLoop ℕ MemoryStore
serving = record resolving {
  server =
      (start_outcome memory libraries resolving.server "t" (int (pos 7)) (str "beta") "friday"
        (start_finish resolving.server.manager reserved (ok 2) (given (str "hello")) none null)).1;
  flying = Dict.erase 0 resolving.flying;
}

serving-Reachable : Reachable memory libraries serving
unfolding Dict.lookup Dict.insert string_eq nat_eq
serving-Reachable =
    after resolving-Reachable (
      start_ends 0 reserved (int (pos 7)) "friday" (ok 2) (given (str "hello")) none null refl refl)

abbrev task : Task ℕ
task = record {
  thread_id = "t";
  run_id = "r1";
  assistant_id = "beta";
  graph = 2;
  input = given (str "hello");
  config = ("configurable", dict (field "thread_id" (str "t") end)) ∷ [];
  cancelling = false;
  done = false;
}

task_lem : Dict.lookup 1 serving.server.manager.tasks ≡ some task
unfolding start_finish launch Dict.lookup Dict.insert Dict.erase run_config base_config unpack merge
    truthy get_or_null get_field string_eq nat_eq
task_lem = refl

task_assistant_example :
    (assistant_in memory libraries serving.server.threads "t" ≡ some "beta")
    × (last_assistant serving.server.manager "t" ≡ some "beta")
task_assistant_example =
    task_assistant memory libraries serving 1 task serving-Reachable task_lem refl

dispatch_command-IsReached_example :
    IsReached memory libraries
      (dispatch_command memory libraries serving.server "t"
        (some (dict start_body))
        "r2"
        "sunday").1
dispatch_command-IsReached_example =
    dispatch_command-IsReached memory libraries serving "t" (some (dict start_body)) "r2" "sunday"
      serving-Reachable

last-beta : last_assistant serving.server.manager "t" ≡ some "beta"
unfolding last_assistant start_finish launch Dict.lookup Dict.insert Dict.erase run_config
    base_config unpack merge truthy get_or_null get_field string_eq nat_eq
last-beta = refl

resolve-beta : resolve agents "beta" none ≡ ok 2
unfolding resolve Dict.lookup string_eq
resolve-beta = refl

hashable-paused : all_hashable_ids paused.interrupts ≡ true
unfolding all_hashable_ids hashable
hashable-paused = refl

asks-answer : text_truthy (interrupt_id_of memory libraries answer) ≡ true
unfolding truthy get_or_null get_field str_of Dict.lookup string_eq
asks-answer = refl

waits-answer : has_interrupt (interrupt_id_of memory libraries answer) paused.interrupts ≡ true
unfolding has_interrupt truthy get_or_null get_field str_of Dict.lookup string_eq
waits-answer = refl

restart_resumes_example :
    let restarted : Server ℕ MemoryStore = record {
      registry = agents;
      manager = new_manager;
      threads = serving.server.threads;
    } in
    let after = respond_command memory libraries restarted "t" (int (pos 8)) answer "r2" in
    (after.0 ≡ run_envelope (int (pos 8)) "r2")
    × HasStarted (ok "r2", after.1.manager) (reservation {G = ℕ} new_manager "t" "beta" "r2")
restart_resumes_example =
    restart_resumes memory libraries serving agents "t" "beta" "r2" (int (pos 8)) answer 2 paused
      serving-Reachable last-beta resolve-beta refl hashable-paused asks-answer waits-answer
