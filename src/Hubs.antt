-- ===== src/Hubs.antt =====
-- src/fastapi_agent_protocol/hub.py: `HubRegistry`, one hub for each thread id.
use fastapi_agent_protocol.Base.{
  ℕ, String, ◌≡◌, none, some, arith, if◌then◌else◌, ◌==◌, ==_self, string_eq,
}
use fastapi_agent_protocol.Base.Dict
use fastapi_agent_protocol.Base.Dict.{Dict, lookup-insert, lookup-insert_self, lookup-erase}
use fastapi_agent_protocol.Hub.{Hub, new_hub}

-- `HubRegistry`: hubs by thread id, made at first use.
pub record HubRegistry : Type 0 where
  pub replay_size : ℕ
  pub hubs : Dict String Hub

unfoldable pub hub : HubRegistry → String → HubRegistry × Hub
hub r thread_id = elim (Dict.lookup thread_id r.hubs) [
  | none ↦
      let fresh = new_hub r.replay_size in
      (record r { hubs = Dict.insert thread_id fresh r.hubs }, fresh)
  | some h ↦ (r, h)
]

-- `HubRegistry.drop`
unfoldable pub drop_hub : HubRegistry → String → HubRegistry
drop_hub r thread_id = record r { hubs = Dict.erase thread_id r.hubs }

-- A thread has one hub: a later call with its id returns the same and changes nothing, and no other
-- thread's hub is touched. Only after a drop does the thread get a new and empty one.
pub hub_kept :
    (r : HubRegistry) (thread_id other : String)
    → let after = hub r thread_id in
      (hub after.0 thread_id ≡ after)
      × (Dict.lookup other after.0.hubs
          ≡ (if other == thread_id then some after.1 else Dict.lookup other r.hubs))
      × ((hub (drop_hub after.0 thread_id) thread_id).1 ≡ new_hub r.replay_size)
unfolding hub drop_hub
hub_kept r thread_id other = grind (arith, lookup-insert, lookup-erase, ==_self thread_id)
