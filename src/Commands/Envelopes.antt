-- ===== src/Commands/Envelopes.antt =====
-- router.py, `dispatch_command`: the envelope that a command is answered with.
use fastapi_agent_protocol.Base.{
  String, ◌≡◌, ◌⊎◌, inl, inr, refl, true, Option, none, some, Bool-cases, string_eq, ap, arith,
  subst, sym,
}
use fastapi_agent_protocol.Failure.{
  unknown_assistant, run_active, unknown_interrupt, raised, cancelled, Result, ok, err,
}
use fastapi_agent_protocol.Value.{Value, str, dict, Fields, get_or_null}
use fastapi_agent_protocol.Threads.{ThreadRecord}
use fastapi_agent_protocol.Threads.Store.{ThreadStore}
use fastapi_agent_protocol.Router.{
  Response, Libraries, Server, success_envelope, state_graph, read_state, not_found,
}
use fastapi_agent_protocol.Commands.{
  is_method, start_command, respond_command, cancel_command, state_command, state_response,
  state_envelope, with_params, by_method, known_thread, dispatch_command,
}
use fastapi_agent_protocol.Params.{fields_of, or_empty}
use fastapi_agent_protocol.Commands.Starting.{IsRefused, start_command_outcome}
use fastapi_agent_protocol.Commands.Answering.{respond_command_outcome}

-- The command was answered with an envelope that carries its id, or raised.
abbrev pub IsReply : Value → Response → Type 0
IsReply cmd_id r = ((result : Fields) × (r ≡ success_envelope cmd_id result)) ⊎ IsRefused cmd_id r

is_method-str : (method : Value) (name : String) → is_method method name ≡ true → method ≡ str name
is_method-str (str s) name h = ap str (ground arith)
is_method-str _ name h = absurd (ground arith)

module _ {G S : Type 0} (store : ThreadStore S) (libraries : Libraries G) where
  state_response-IsReply :
      (thread_id : String) (cmd_id : Value) (graph : Result (Option G))
      → IsReply cmd_id (state_response store libraries thread_id cmd_id graph)
  state_response-IsReply thread_id cmd_id (err (unknown_assistant id known)) =
      inr (inl (_, _, refl))
  state_response-IsReply thread_id cmd_id (err (run_active id run)) = inr (inr (_, refl))
  state_response-IsReply thread_id cmd_id (err (unknown_interrupt id run)) = inr (inr (_, refl))
  state_response-IsReply thread_id cmd_id (err (raised kind text)) = inr (inr (_, refl))
  state_response-IsReply thread_id cmd_id (err cancelled) = inr (inr (_, refl))
  state_response-IsReply thread_id cmd_id (ok none) = inl (_, refl)
  state_response-IsReply thread_id cmd_id (ok (some graph)) =
      read (read_state store libraries graph thread_id)
    where
      read : (r : Result Fields) → IsReply cmd_id (state_envelope store libraries cmd_id r)
      read (err e) = inr (inr (e, refl))
      read (ok fs) = inl (fs, refl)

  -- The reply, and what the command leaves: only a `run.start` touches the thread records, and only
  -- that, an `input.respond` or a `run.cancel` touches anything.
  abbrev pub IsAnsweredWith : Server G S → Response × Server G S → Value → Value → Type 0
  IsAnsweredWith server after cmd_id method =
      IsReply cmd_id after.0
      × ((after.1.threads ≡ server.threads) ⊎ (method ≡ str "run.start"))
      × ((after.1 ≡ server)
          ⊎ ((method ≡ str "run.start")
              ⊎ ((method ≡ str "input.respond") ⊎ (method ≡ str "run.cancel"))))

  start_reply :
      (server : Server G S) (thread_id : String) (r : ThreadRecord) (cmd_id method : Value)
      (params : Result Fields) (run_id now : String)
      → method ≡ str "run.start"
      → IsAnsweredWith server
          (with_params store libraries server params
            (λ ps. start_command store libraries server thread_id r cmd_id ps run_id now))
          cmd_id
          method
  start_reply server thread_id r cmd_id method (err e) run_id now is =
      (inr (inr (e, refl)), inr is, inl refl)
  start_reply server thread_id r cmd_id method (ok ps) run_id now is =
      elim (start_command_outcome store libraries server thread_id r cmd_id ps run_id now) [
        | inl (a, named, answer, started, shown, same) ↦ (inl (_, answer), inr is, inr (inl is))
        | inr (refused, kept, registry, pending, last, slots) ↦ (inr refused, inr is, inr (inl is))
      ]

  respond_reply :
      (server : Server G S) (thread_id : String) (cmd_id method : Value) (params : Result Fields)
      (run_id : String)
      → method ≡ str "input.respond"
      → IsAnsweredWith server
          (with_params store libraries server params
            (λ ps. respond_command store libraries server thread_id cmd_id ps run_id))
          cmd_id
          method
  respond_reply server thread_id cmd_id method (err e) run_id is =
      (inr (inr (e, refl)), inl refl, inl refl)
  respond_reply server thread_id cmd_id method (ok ps) run_id is =
      elim (respond_command_outcome store libraries server thread_id cmd_id ps run_id) [
        | inl (waiting, (a, found, answer, started, kept, registry)) ↦
            (inl (_, answer), inl kept, inr (inr (inl is)))
        | inr (refused, kept, registry, pending, last, slots) ↦
            (inr refused, inl kept, inr (inr (inl is)))
      ]

  cancel_reply :
      (server : Server G S) (thread_id : String) (cmd_id method : Value) (params : Result Fields)
      → method ≡ str "run.cancel"
      → IsAnsweredWith server
          (with_params store libraries server params
            (λ ps. cancel_command store libraries server thread_id cmd_id ps))
          cmd_id
          method
  unfolding cancel_command
  cancel_reply server thread_id cmd_id method (err e) is = (inr (inr (e, refl)), inl refl, inl refl)
  cancel_reply server thread_id cmd_id method (ok ps) is =
      (inl (_, refl), inl refl, inr (inr (inr is)))

  by_method_reply :
      (server : Server G S) (thread_id : String) (r : ThreadRecord) (cmd_id method : Value)
      (params : Result Fields) (run_id now : String)
      → IsAnsweredWith server
          (by_method store libraries server thread_id r cmd_id method params run_id now)
          cmd_id
          method
  unfolding state_command
  by_method_reply server thread_id r cmd_id method params run_id now =
      elim (Bool-cases (is_method method "run.start")) [
        | inl starts ↦ rw starts (
            start_reply server thread_id r cmd_id method params run_id now
              (is_method-str method "run.start" starts))
        | inr a ↦ elim (Bool-cases (is_method method "input.respond")) [
          | inl responds ↦
              rw (a, responds)
                (respond_reply server thread_id cmd_id method params run_id
                  (is_method-str method "input.respond" responds))
          | inr b ↦ elim (Bool-cases (is_method method "run.cancel")) [
            | inl cancels ↦
                rw (a, b, cancels)
                  (cancel_reply server thread_id cmd_id method params
                    (is_method-str method "run.cancel" cancels))
            | inr c ↦ elim (Bool-cases (is_method method "state.get")) [
              | inl reads ↦
                  rw (a, b, c, reads)
                    (
                      state_response-IsReply thread_id cmd_id
                          (state_graph store libraries server thread_id),
                      inl refl,
                      inl refl,
                    )
              | inr d ↦ rw (a, b, c, d) (inr (inl (_, _, refl)), inl refl, inl refl)
            ]
          ]
        ]
      ]

  dispatch_command-known :
      (server : Server G S) (thread_id : String) (r : ThreadRecord) (body : Option Value)
      (run_id now : String)
      → store.get server.threads thread_id ≡ some r
      → dispatch_command store libraries server thread_id body run_id now
        ≡ known_thread store libraries server thread_id r body run_id now
  unfolding dispatch_command
  dispatch_command-known server thread_id r body run_id now there =
      subst
        (λ q.
          (elim q as (λ x. Response × Server G S) [
            | none ↦ (not_found, server)
            | some r ↦ known_thread store libraries server thread_id r body run_id now
          ])
          ≡ known_thread store libraries server thread_id r body run_id now)
        (sym there) refl

  -- A command, that is a body that is an object, on a thread of the store is answered with a success
  -- or an error that carries the command's id, or raises. Only a `run.start` touches the thread
  -- records, and a command that is no `run.start`, `input.respond` or `run.cancel` leaves the whole
  -- server as it was.
  pub dispatch_command_reply :
      (server : Server G S) (thread_id : String) (r : ThreadRecord) (fs : Fields)
      (run_id now : String)
      → store.get server.threads thread_id ≡ some r
      → IsAnsweredWith server
          (dispatch_command store libraries server thread_id (some (dict fs)) run_id now)
          (get_or_null "id" fs)
          (get_or_null "method" fs)
  dispatch_command_reply server thread_id r fs run_id now there =
      rw (dispatch_command-known server thread_id r (some (dict fs)) run_id now there) (
        by_method_reply server thread_id r (get_or_null "id" fs) (get_or_null "method" fs)
          (fields_of (or_empty (get_or_null "params" fs))) run_id now)
