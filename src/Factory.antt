-- ===== src/Factory.antt =====
-- src/fastapi_agent_protocol/factory.py: the runtime that `create_protocol` puts together. The routes
-- are functions of its server, see Router and Commands.
pub mod Registration
use fastapi_agent_protocol.Base.{ℕ, String, Option, none, some, []}
use fastapi_agent_protocol.Base.Dict.{Dict}
use fastapi_agent_protocol.Registry.{AgentRegistry, GraphFactory}
use fastapi_agent_protocol.Registry as Registry
use fastapi_agent_protocol.Hubs.{HubRegistry}
use fastapi_agent_protocol.Manager.{Manager, new_manager}
use fastapi_agent_protocol.Threads.{MemoryStore}
use fastapi_agent_protocol.Router.{Server}

-- `ProtocolFactory`: the registry, the run manager and the thread store are in `server`.
pub record ProtocolFactory (G S : Type 0) : Type 0 where
  pub server : Server G S
  pub hubs : HubRegistry
  pub heartbeat_seconds : String

module _ {G : Type 0} where
  abbrev agents_or_none : Option (Dict String (GraphFactory G)) → Dict String (GraphFactory G)
  agents_or_none none = []
  agents_or_none (some agents) = agents

  -- `create_protocol` with a thread store of the caller's
  unfoldable pub create_protocol_on :
      {S : Type 0} → Option (Dict String (GraphFactory G)) → S → ℕ → String → ProtocolFactory G S
  create_protocol_on agents thread_store replay_size heartbeat_seconds = record {
    server = record {
      registry = record { factories = agents_or_none agents };
      manager = new_manager;
      threads = thread_store;
    };
    hubs = record { replay_size = replay_size; hubs = [] };
    heartbeat_seconds = heartbeat_seconds;
  }

  -- `create_protocol` without one: threads are kept in memory.
  unfoldable pub create_protocol :
      Option (Dict String (GraphFactory G)) → ℕ → String → ProtocolFactory G MemoryStore
  create_protocol agents replay_size heartbeat_seconds =
      create_protocol_on agents [] replay_size heartbeat_seconds

  -- `ProtocolFactory.register`
  unfoldable pub register :
      {S : Type 0} → ProtocolFactory G S → String → GraphFactory G → ProtocolFactory G S
  register protocol assistant_id factory = record protocol {
    server = record protocol.server {
      registry = Registry.register protocol.server.registry assistant_id factory;
    };
  }

-- What `lifespan` puts on the `app.state` of the host application.
pub record AppState (G S : Type 0) : Type 0 where
  pub thread_store : S
  pub agent_registry : AgentRegistry G
  pub graph_registry : AgentRegistry G
  pub hubs : HubRegistry
  pub run_manager : Manager G
  pub heartbeat_seconds : String

unfoldable pub lifespan : {G S : Type 0} → ProtocolFactory G S → AppState G S
lifespan protocol = record {
  thread_store = protocol.server.threads;
  agent_registry = protocol.server.registry;
  graph_registry = protocol.server.registry;
  hubs = protocol.hubs;
  run_manager = protocol.server.manager;
  heartbeat_seconds = protocol.heartbeat_seconds;
}
