-- ===== src/Examples/Feeding.antt =====
-- runner.py: two threads' logs while a run publishes, at a concrete input.
use fastapi_agent_protocol.Base.{
  ℕ, ◌≡◌, refl, inr, none, false, List, [], ◌∷◌, ◌++◌, string_eq, nat_eq,
}
use fastapi_agent_protocol.Base.Dict
use fastapi_agent_protocol.Failure.{cancelled}
use fastapi_agent_protocol.Value.{end}
use fastapi_agent_protocol.Manager.{Task, launch}
use fastapi_agent_protocol.Execution.{
  Output, lifecycle, lifecycle_data, fails, execute, take_items, begun, conclude, result_of,
  translated,
}
use fastapi_agent_protocol.Translation.{finish_all, finish_open}
use fastapi_agent_protocol.Feed.{
  Feed, log_in, publish_on, Reachable, at_first, after, begins, launches, publishes,
}
use fastapi_agent_protocol.Hubs.{HubRegistry}
use fastapi_agent_protocol.Feed.Recording.{Records}
use fastapi_agent_protocol.Feed.Sections.{InSections}
use fastapi_agent_protocol.Feed.Apart.{runs_apart}
use fastapi_agent_protocol.Examples.Running.{
  fresh, question, reserved, waiting, default_config, flight, start_begin-fresh, lookup-reserved,
}
use fastapi_agent_protocol.Examples.Translating.{loads, repr, message_to_dict}

-- What a run publishes that is cancelled while its graph streams the first item.
abbrev later : List Output
later =
    lifecycle (lifecycle_data "beta" "running" end)
    ∷ lifecycle (lifecycle_data "beta" "interrupted" end)
    ∷ []

abbrev outputs : List Output
outputs = lifecycle (lifecycle_data "beta" "started" end) ∷ later

execute-outputs :
    outputs ≡ (execute loads repr message_to_dict "beta" [] (fails cancelled) none).outputs
unfolding execute take_items begun conclude result_of translated finish_all finish_open
execute-outputs = refl

abbrev hubs : HubRegistry
hubs = record { replay_size = 500; hubs = [] }

abbrev idle : Feed ℕ
idle = record { manager = fresh; flying = []; rest = []; logs = []; hubs = hubs }

abbrev resolving : Feed ℕ
resolving = record idle { manager = waiting; flying = flight }

abbrev running : Feed ℕ
running = record resolving {
  manager = launch waiting reserved 2 question default_config;
  flying = Dict.erase 0 flight;
  rest = Dict.insert 1 outputs [];
}

abbrev task : Task ℕ
task = record {
  thread_id = "t";
  run_id = "r1";
  assistant_id = "beta";
  graph = 2;
  input = question;
  config = default_config;
  cancelling = false;
  done = false;
}

abbrev publishing : Feed ℕ
publishing = record running {
  rest = Dict.insert 1 later running.rest;
  logs = Dict.insert "t" (log_in [] "t" ++ lifecycle (lifecycle_data "beta" "started" end) ∷ []) [];
  hubs = publish_on hubs "t" 10 (lifecycle (lifecycle_data "beta" "started" end));
}

publishing-Reachable : Reachable loads repr message_to_dict publishing
unfolding launch Dict.lookup Dict.insert string_eq nat_eq
publishing-Reachable =
    after
      (after (after (at_first 500) (begins reserved waiting "t" "beta" "r1" start_begin-fresh)) (
        launches 0 reserved 2 question default_config outputs lookup-reserved
          (inr ("beta", [], fails cancelled, none, execute-outputs))))
      (publishes 1 task (lifecycle (lifecycle_data "beta" "started" end)) later 10 refl refl refl)

runs_apart_example :
    InSections loads repr message_to_dict publishing.manager publishing.rest "t"
      (log_in publishing.logs "t")
    × Records publishing.hubs "t" (log_in publishing.logs "t")
runs_apart_example = runs_apart loads repr message_to_dict publishing "t" publishing-Reachable
