-- ===== src/Runner/Replying.antt =====
-- runner.py, `start` and `respond` with an assistant id as a client or an interrupt gives it, which
-- need not be a text.
use fastapi_agent_protocol.Base.{
  String, ◌≡◌, ◌⊎◌, inl, inr, refl, subst, sym, ap, Option, none, string_eq,
}
use fastapi_agent_protocol.Failure.{is_exception, Result, ok, err}
use fastapi_agent_protocol.Registry.{AgentRegistry}
use fastapi_agent_protocol.Value.{
  Value, null, bool, int, float, str, list, tuple, set, dict, object, opaque, Fields, keyed,
  slotted,
}
use fastapi_agent_protocol.Manager.{
  ActiveRun, Input, resume, Manager, start_begin, reservation, start_finish, start, refusal,
  refused, start_value,
}
use fastapi_agent_protocol.Runner.{respond, resolved_assistant}
use fastapi_agent_protocol.Runner.Slots.{HasStarted}
use fastapi_agent_protocol.Runner.Outcome.{
  HasFailed, Outcome, same-IsKept, release-HasFailed, reserved-HasFailed, start-Outcome,
}

module _ {G : Type 0} where
  refused-elim :
      (registry : AgentRegistry G) (v : Value) (input : Input) (config : Option Fields)
      (metadata : Value) (p : Result ActiveRun × Manager G)
      → (elim p.0 [
        | err e ↦ (err e, p.1)
        | ok run ↦ start_finish p.1 run (err (refusal registry v)) input config metadata
      ])
        ≡ refused registry v input config metadata p
  refused-elim registry v input config metadata (err e, n) = refl
  refused-elim registry v input config metadata (ok run, n) = refl

  refused-HasFailed :
      (registry : AgentRegistry G) (m : Manager G) (thread_id run_id : String) (v : Value)
      (input : Input) (config : Option Fields) (metadata : Value)
      → HasFailed m
          (refused registry v input config metadata (start_begin m thread_id "" run_id))
          thread_id
  unfolding start_finish
  refused-HasFailed registry m thread_id run_id v input config metadata =
      let p = start_begin m thread_id "" run_id in
      let e = refusal registry v in
      elim (reserved-HasFailed (λ after run. ⊥) m thread_id "" run_id
        (λ run n. start_finish n run (err e) input config metadata)
        (λ n run. inr (release-HasFailed (is_exception e) e n run)) p refl _
        (refused-elim registry v input config metadata p)) [
          | inl never ↦ absurd never
          | inr failed ↦ failed
        ]

  -- A start with an id that is no text is refused by the registry.
  pub start_value_cases :
      (registry : AgentRegistry G) (m : Manager G) (thread_id run_id : String) (v : Value)
      (input : Input) (config : Option Fields) (metadata : Value)
      → let result = start_value registry m thread_id v run_id input config metadata in
        ((assistant_id : String) × (v ≡ str assistant_id)
          × (result ≡ start registry m thread_id assistant_id run_id input config metadata))
        ⊎ (result ≡ refused registry v input config metadata (start_begin m thread_id "" run_id))
  unfolding start_value
  start_value_cases registry m thread_id run_id (str s) input config metadata = inl (s, refl, refl)
  start_value_cases registry m thread_id run_id null input config metadata = inr refl
  start_value_cases registry m thread_id run_id (bool b) input config metadata = inr refl
  start_value_cases registry m thread_id run_id (int b) input config metadata = inr refl
  start_value_cases registry m thread_id run_id (float b) input config metadata = inr refl
  start_value_cases registry m thread_id run_id (list b) input config metadata = inr refl
  start_value_cases registry m thread_id run_id (tuple b) input config metadata = inr refl
  start_value_cases registry m thread_id run_id (set b) input config metadata = inr refl
  start_value_cases registry m thread_id run_id (dict b) input config metadata = inr refl
  start_value_cases registry m thread_id run_id (object b c) input config metadata = inr refl
  start_value_cases registry m thread_id run_id (keyed b) input config metadata = inr refl
  start_value_cases registry m thread_id run_id (slotted b c) input config metadata = inr refl
  start_value_cases registry m thread_id run_id (opaque b) input config metadata = inr refl

  -- A start with the id `v` that a client sends: it has started, and then the id is a text, or it
  -- has failed.
  abbrev pub ValueOutcome : Manager G → Result String × Manager G → String → Value → String → Type 0
  ValueOutcome m after thread_id v run_id =
      ((assistant_id : String) × (v ≡ str assistant_id)
        × HasStarted after (reservation m thread_id assistant_id run_id))
      ⊎ HasFailed m after thread_id

  pub start_value-Outcome :
      (registry : AgentRegistry G) (m : Manager G) (thread_id run_id : String) (v : Value)
      (input : Input) (config : Option Fields) (metadata : Value)
      → ValueOutcome m
          (start_value registry m thread_id v run_id input config metadata)
          thread_id
          v
          run_id
  start_value-Outcome registry m thread_id run_id v input config metadata =
      elim (start_value_cases registry m thread_id run_id v input config metadata) [
        | inl (a, is, same) ↦
            elim (subst (λ p. Outcome m p (reservation m thread_id a run_id)) (sym same)
              (start-Outcome registry m thread_id a run_id input config metadata)) [
                | inl done ↦ inl (a, is, done)
                | inr failed ↦ inr failed
              ]
        | inr same ↦ inr (
            subst (λ p. HasFailed m p thread_id) (sym same)
              (refused-HasFailed registry m thread_id run_id v input config metadata))
      ]

  -- An answer has started its run, with the assistant that `resolved_assistant` finds, or has
  -- failed.
  pub respond-Outcome :
      (registry : AgentRegistry G) (m : Manager G) (thread_id interrupt_id run_id : String)
      (response : Value) (assistant_id : Option String)
      → let after = respond registry m thread_id interrupt_id run_id response assistant_id in
        ((assistant : String) × (resolved_assistant m thread_id interrupt_id assistant_id
            ≡ ok (str assistant))
          × HasStarted after (reservation m thread_id assistant run_id))
        ⊎ HasFailed m after thread_id
  unfolding respond
  respond-Outcome registry m thread_id interrupt_id run_id response assistant_id =
      go (resolved_assistant m thread_id interrupt_id assistant_id)
    where
      go :
          (found : Result Value)
          → let after : Result String × Manager G = elim found [
            | err e ↦ (err e, m)
            | ok v ↦ start_value registry m thread_id v run_id (resume response) none null
          ] in
            ((assistant : String) × (found ≡ ok (str assistant))
              × HasStarted after (reservation m thread_id assistant run_id))
            ⊎ HasFailed m after thread_id
      go (err e) = inr ((e, refl), refl, refl, same-IsKept m thread_id)
      go (ok v) =
          elim (start_value-Outcome registry m thread_id run_id v (resume response) none null) [
            | inl (a, is, done) ↦ inl (a, ap ok is, done)
            | inr failed ↦ inr failed
          ]
