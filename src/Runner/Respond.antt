-- ===== src/Runner/Respond.antt =====
-- runner.py, `respond`: which answers start a run, and with which assistant.
use fastapi_agent_protocol.Base.{String, ◌≡◌, ◌⊎◌, inl, inr, true, none, some, arith, string_eq}
use fastapi_agent_protocol.Base.Dict
use fastapi_agent_protocol.Base.Dict.{Dict, lookup-insert}
use fastapi_agent_protocol.Registry.{AgentRegistry}
use fastapi_agent_protocol.Value.{Value, null, text_truthy}
use fastapi_agent_protocol.Manager.{resume, Manager, Pending, start, start_value}
use fastapi_agent_protocol.Runner.{respond, resolved_assistant}

module _ {G : Type 0} where
  -- A caller that names the assistant can resume after a restart, with no pending map: the answer
  -- starts a run on that assistant. With a map, an interrupt in it does.
  pub respond_named :
      (registry : AgentRegistry G) (m : Manager G) (thread_id interrupt_id run_id : String)
      (response : Value) (assistant : String)
      → text_truthy assistant ≡ true
      → (Dict.lookup thread_id m.pending_inputs ≡ none)
        ⊎ ((pending : Pending) × (payload : Value) × (Dict.lookup thread_id m.pending_inputs
              ≡ some pending)
            × (Dict.lookup interrupt_id pending ≡ some payload))
      → respond registry m thread_id interrupt_id run_id response (some assistant)
        ≡ start registry m thread_id assistant run_id (resume response) none null
  unfolding respond resolved_assistant start_value
  respond_named registry m thread_id interrupt_id run_id response assistant named why = elim why [
    | inl missing ↦ ground arith
    | inr (pending, payload, found, waiting) ↦ ground arith
  ]
