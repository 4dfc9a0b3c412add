-- ===== src/Feed.antt =====
-- runner.py: what the runs of a manager publish on their threads' hubs, as the event loop interleaves
-- them. `logs` has what was published for each thread, and `rest` what a task has still to publish.
pub mod Same
pub mod Sections
pub mod Publishing
pub mod Recording
pub mod Steps
pub mod Apart
use fastapi_agent_protocol.Base.{
  ℕ, ◌+◌, String, ◌≡◌, ◌⊎◌, false, true, Option, none, some, List, [], ◌∷◌, ◌++◌, nat_eq, string_eq,
}
use fastapi_agent_protocol.Base.Dict
use fastapi_agent_protocol.Base.Dict.{Dict}
use fastapi_agent_protocol.Failure.{Failure, Result, ok, err}
use fastapi_agent_protocol.RunConfig.{run_config}
use fastapi_agent_protocol.Value.{Value, Fields}
use fastapi_agent_protocol.Manager.{
  ActiveRun, Task, Input, Manager, new_manager, start_begin, start_finish, release, launch,
}
use fastapi_agent_protocol.Runner.{cancel, settle, register_pending}
use fastapi_agent_protocol.Runner.System.{Flight}
use fastapi_agent_protocol.Subscription.{Subscription}
use fastapi_agent_protocol.Hub.{Hub, publish}
use fastapi_agent_protocol.Hubs.{HubRegistry, hub}
use fastapi_agent_protocol.Execution.Publishing.{publication_of}
use fastapi_agent_protocol.Execution.{StreamItem, Ending, Output, execute}

pub record Feed (G : Type 0) : Type 0 where
  pub manager : Manager G
  pub flying : Flight
  pub rest : Dict ℕ (List Output)
  pub logs : Dict String (List Output)
  pub hubs : HubRegistry

abbrev log_or_empty : Option (List Output) → List Output
log_or_empty none = []
log_or_empty (some outputs) = outputs

-- What was published for a thread.
unfoldable pub log_in : Dict String (List Output) → String → List Output
log_in logs thread_id = log_or_empty (Dict.lookup thread_id logs)

-- The hub of a thread, which is made if there is none, as it is afterwards.
unfoldable pub with_hub : HubRegistry → String → (Hub → Hub) → HubRegistry
with_hub hubs thread_id change =
    let (made, h) = hub hubs thread_id in
    record made { hubs = Dict.insert thread_id (change h) made.hubs }

-- `hub.publish` of an output, at the time `now`.
unfoldable pub publish_on : HubRegistry → String → ℕ → Output → HubRegistry
publish_on hubs thread_id now output =
    with_hub hubs thread_id (λ h. (publish h (publication_of (now, output))).0)

module _ (loads : String → Option Value) (repr : Value → String)
    (message_to_dict : Value → Option (Fields × Value)) where
  -- What one run publishes: a task that is cancelled before its first turn publishes nothing, as its
  -- coroutine is not entered.
  abbrev pub IsRun : List Output → Type 0
  IsRun outputs =
      (outputs ≡ [])
      ⊎ ((name : String) × (items : List StreamItem) × (ending : Ending) × (snapshot : Option
            (Result Fields))
          × (outputs ≡ (execute loads repr message_to_dict name items ending snapshot).outputs))

  pub data Step {G : Type 0} : Feed G → Feed G → Type 0 where
    begins :
        {a : Feed G} (run : ActiveRun) (m : Manager G) (thread_id assistant_id run_id : String)
        → start_begin a.manager thread_id assistant_id run_id ≡ (ok run, m)
        → Step a (record a { manager = m; flying = Dict.insert run.object run a.flying })
    -- a start whose graph is not resolved
    fails :
        {a : Feed G} (n : ℕ) (run : ActiveRun) (e : Failure) (input : Input)
        (config : Option Fields) (metadata : Value)
        → Dict.lookup n a.flying ≡ some run
        → Step a (record a {
          manager = (start_finish a.manager run (err e) input config metadata).1;
          flying = Dict.erase n a.flying;
        })
    -- a start that makes its task, which is to publish `outputs`
    launches :
        {a : Feed G} (n : ℕ) (run : ActiveRun) (graph : G) (input : Input)
        (config : Dict String Value) (outputs : List Output)
        → Dict.lookup n a.flying ≡ some run
        → IsRun outputs
        → Step a (record a {
          manager = launch a.manager run graph input config;
          flying = Dict.erase n a.flying;
          rest = Dict.insert a.manager.next outputs a.rest;
        })
    -- a task that is not done publishes the next of its outputs on its thread's hub
    publishes :
        {a : Feed G} (n : ℕ) (task : Task G) (output : Output) (later : List Output) (now : ℕ)
        → Dict.lookup n a.manager.tasks ≡ some task
        → task.done ≡ false
        → Dict.lookup n a.rest ≡ some (output ∷ later)
        → Step a (record a {
          rest = Dict.insert n later a.rest;
          logs = Dict.insert task.thread_id (log_in a.logs task.thread_id ++ output ∷ []) a.logs;
          hubs = publish_on a.hubs task.thread_id now output;
        })
    -- streams come, read and go: of a hub they change the subscribers
    listens :
        {a : Feed G} (thread_id : String) (subscribers : List Subscription) (next_sid : ℕ)
        → Step a (record a {
          hubs =
              with_hub a.hubs thread_id
                (λ h. record h { subscribers = subscribers; next_sid = next_sid });
        })
    registers :
        {a : Feed G} (n : ℕ) (task : Task G) (interrupts : List (String × Value))
        → Dict.lookup n a.manager.tasks ≡ some task
        → task.done ≡ false
        → Step a (record a {
          manager = register_pending a.manager task.thread_id task.assistant_id interrupts;
        })
    cancels :
        {a : Feed G} (thread_id : String) (run_id : Value)
        → Step a (record a { manager = (cancel a.manager thread_id run_id).1 })
    -- a task is done when it has published its outputs
    settles :
        {a : Feed G} (n : ℕ) (task : Task G)
        → Dict.lookup n a.manager.tasks ≡ some task
        → task.done ≡ false
        → Dict.lookup n a.rest ≡ some []
        → Step a (record a { manager = settle a.manager n })
    clears :
        {a : Feed G} (n : ℕ) (task : Task G) (run : ActiveRun)
        → Dict.lookup n a.manager.tasks ≡ some task
        → task.done ≡ true
        → run.object ≡ n + 1
        → run.thread_id ≡ task.thread_id
        → Step a (record a { manager = release a.manager run })

  pub data Reachable {G : Type 0} : Feed G → Type 0 where
    at_first :
        (replay_size : ℕ)
        → Reachable (record {
          manager = new_manager;
          flying = [];
          rest = [];
          logs = [];
          hubs = record { replay_size = replay_size; hubs = [] };
        })
    after : {a b : Feed G} → Reachable a → Step a b → Reachable b
