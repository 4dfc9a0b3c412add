-- ===== src/Factory/Registration.antt =====
-- factory.py, `register`, with router.py and runner.py: an agent that is registered late can be run.
use fastapi_agent_protocol.Base.{String, ◌≡◌, refl, ◌∙◌, true, Option, none, some, arith, string_eq}
use fastapi_agent_protocol.Base.Dict.{Dict, lookup-insert_self}
use fastapi_agent_protocol.Failure.{Result, ok}
use fastapi_agent_protocol.RunConfig.{run_config}
use fastapi_agent_protocol.Registry.{AgentRegistry, GraphFactory, resolve}
use fastapi_agent_protocol.Registry as Registry
use fastapi_agent_protocol.Value.{Value, str, dict, Fields, get_or_null, text_truthy, truthy}
use fastapi_agent_protocol.Manager.{
  Input, Manager, given, active_run, start_begin, start_finish, start, start_value,
}
use fastapi_agent_protocol.Threads.{ThreadRecord}
use fastapi_agent_protocol.Threads.Store.{ThreadStore}
use fastapi_agent_protocol.Router.{Libraries, Server}
use fastapi_agent_protocol.Commands.{run_envelope, start_command, start_outcome}
use fastapi_agent_protocol.Params.{stamped_config}
use fastapi_agent_protocol.Factory.{ProtocolFactory, register}

module _ {G : Type 0} where
  -- A start succeeds if the thread is idle, the graph resolves and the config can be built.
  pub start_idle :
      (registry : AgentRegistry G) (m : Manager G) (thread_id assistant_id run_id : String)
      (input : Input) (config : Fields) (metadata : Value) (graph : G) (full : Dict String Value)
      → active_run m thread_id ≡ none
      → resolve registry assistant_id (some (dict config)) ≡ ok graph
      → run_config thread_id (some config) metadata ≡ ok full
      → (start registry m thread_id assistant_id run_id input (some config) metadata).0 ≡ ok run_id
  unfolding start start_begin start_finish
  start_idle registry m thread_id assistant_id run_id input config metadata graph full idle found
        built =
      rw (idle, found, built) refl

  resolve_registered :
      (r : AgentRegistry G) (id : String) (factory : GraphFactory G) (config : Option Value)
      → resolve (Registry.register r id factory) id config ≡ factory config
  unfolding resolve Registry.register
  resolve_registered r id factory config = grind (arith, lookup-insert_self)

module _ {G S : Type 0} (store : ThreadStore S) (libraries : Libraries G) where
  start_outcome_answer :
      (server : Server G S) (thread_id : String) (cmd_id v : Value) (run_id now : String)
      (p : Result String × Manager G)
      → p.0 ≡ ok run_id
      → (start_outcome store libraries server thread_id cmd_id v now p).0
        ≡ run_envelope cmd_id run_id
  start_outcome_answer server thread_id cmd_id v run_id now (r, m) done = rw done refl

  -- An agent that is registered on a running server, under an id that is not empty, can be run at
  -- once: a `run.start` that names it, on a thread whose slot is free, is answered with the id of its
  -- run, if its factory gives a graph for the command's config and that config can be completed. It
  -- does not matter what the id stood for.
  pub register_runs :
      (protocol : ProtocolFactory G S) (thread_id : String) (r : ThreadRecord) (cmd_id : Value)
      (params : Fields) (run_id now : String) (assistant_id : String) (factory : GraphFactory G)
      (config : Fields) (graph : G) (full : Dict String Value)
      → get_or_null "assistant_id" params ≡ str assistant_id
      → text_truthy assistant_id ≡ true
      → active_run protocol.server.manager thread_id ≡ none
      → stamped_config (get_or_null "config" params) r.metadata ≡ ok config
      → factory (some (dict config)) ≡ ok graph
      → run_config thread_id (some config) (get_or_null "metadata" params) ≡ ok full
      → (start_command store libraries
          (register protocol assistant_id factory).server
          thread_id
          r
          cmd_id
          params
          run_id
          now).0
        ≡ run_envelope cmd_id run_id
  unfolding register start_command start_value truthy
  register_runs protocol thread_id r cmd_id params run_id now assistant_id factory config graph full
        named truthy_id idle stamped made built =
      rw (named, truthy_id, stamped)
        (start_outcome_answer (register protocol assistant_id factory).server thread_id cmd_id
          (str assistant_id) run_id now _
          (start_idle _ protocol.server.manager thread_id assistant_id run_id
            (given (get_or_null "input" params)) config (get_or_null "metadata" params) graph full
            idle (resolve_registered protocol.server.registry assistant_id factory _ ∙ made) built))
