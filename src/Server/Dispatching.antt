-- ===== src/Server/Dispatching.antt =====
-- router.py: every command, served with nothing else run while it waits, is steps of the event loop.
use fastapi_agent_protocol.Base.{
  String, ◌≡◌, refl, Bool, true, false, Option, none, some, if◌then◌else◌, string_eq,
}
use fastapi_agent_protocol.Failure.{Result, ok, err}
use fastapi_agent_protocol.Value.{
  Value, null, bool, int, float, str, list, tuple, set, dict, object, opaque, Fields, get_or_null,
  keyed, slotted,
}
use fastapi_agent_protocol.Params.{or_empty, fields_of}
use fastapi_agent_protocol.Threads.{ThreadRecord}
use fastapi_agent_protocol.Threads.Store.{ThreadStore}
use fastapi_agent_protocol.Router.{Response, Libraries, Server, not_found}
use fastapi_agent_protocol.Commands.{
  by_method, known_thread, dispatch_command, is_method, with_params, cancel_command,
}
use fastapi_agent_protocol.Server.{EventLoop, Reachable, after, cancels}
use fastapi_agent_protocol.Server.Handling.{IsReached, start_command-IsReached}
use fastapi_agent_protocol.Server.Resuming.{respond_command-IsReached}

module _ {G S : Type 0} (store : ThreadStore S) (libraries : Libraries G) where
  cancel_command-IsReached :
      (w : EventLoop G S) (thread_id : String) (cmd_id : Value) (params : Fields)
      → Reachable store libraries w
      → IsReached store libraries
          (cancel_command store libraries w.server thread_id cmd_id params).1
  unfolding cancel_command
  cancel_command-IsReached w thread_id cmd_id params reached =
      (_, after reached (cancels thread_id (get_or_null "run_id" params)), refl)

  if-IsReached :
      (b : Bool) (one other : Response × Server G S)
      → IsReached store libraries one.1
      → IsReached store libraries other.1
      → IsReached store libraries (if b then one else other).1
  if-IsReached true one other p q = p
  if-IsReached false one other p q = q

  with_params-IsReached :
      (w : EventLoop G S) (params : Result Fields) (run : Fields → Response × Server G S)
      → Reachable store libraries w
      → ((ps : Fields) → IsReached store libraries (run ps).1)
      → IsReached store libraries (with_params store libraries w.server params run).1
  with_params-IsReached w (err e) run reached each = (w, reached, refl)
  with_params-IsReached w (ok params) run reached each = each params

  by_method-IsReached :
      (w : EventLoop G S) (thread_id : String) (r : ThreadRecord) (cmd_id method : Value)
      (params : Result Fields) (run_id now : String)
      → Reachable store libraries w
      → store.get w.server.threads thread_id ≡ some r
      → IsReached store libraries
          (by_method store libraries w.server thread_id r cmd_id method params run_id now).1
  by_method-IsReached w thread_id r cmd_id method params run_id now reached there =
      if-IsReached (is_method method "run.start") _ _
        (with_params-IsReached w params _ reached (λ ps.
          start_command-IsReached store libraries w thread_id run_id now r cmd_id ps reached there))
        (if-IsReached (is_method method "input.respond") _ _
          (with_params-IsReached w params _ reached (λ ps.
            respond_command-IsReached store libraries w thread_id run_id r cmd_id ps reached there))
          (if-IsReached (is_method method "run.cancel") _ _
            (with_params-IsReached w params _ reached
              (λ ps. cancel_command-IsReached w thread_id cmd_id ps reached))
            (if-IsReached (is_method method "state.get") _ _ (w, reached, refl)
              (w, reached, refl))))

  known_thread-IsReached :
      (w : EventLoop G S) (thread_id : String) (r : ThreadRecord) (body : Option Value)
      (run_id now : String)
      → Reachable store libraries w
      → store.get w.server.threads thread_id ≡ some r
      → IsReached store libraries
          (known_thread store libraries w.server thread_id r body run_id now).1
  known_thread-IsReached w thread_id r none run_id now reached there = (w, reached, refl)
  known_thread-IsReached w thread_id r (some (dict fs)) run_id now reached there =
      by_method-IsReached w thread_id r (get_or_null "id" fs) (get_or_null "method" fs)
        (fields_of (or_empty (get_or_null "params" fs))) run_id now reached there
  known_thread-IsReached w thread_id r (some null) run_id now reached there = (w, reached, refl)
  known_thread-IsReached w thread_id r (some (bool b)) run_id now reached there = (w, reached, refl)
  known_thread-IsReached w thread_id r (some (int b)) run_id now reached there = (w, reached, refl)
  known_thread-IsReached w thread_id r (some (float b)) run_id now reached there =
      (w, reached, refl)
  known_thread-IsReached w thread_id r (some (str b)) run_id now reached there = (w, reached, refl)
  known_thread-IsReached w thread_id r (some (list b)) run_id now reached there = (w, reached, refl)
  known_thread-IsReached w thread_id r (some (tuple b)) run_id now reached there =
      (w, reached, refl)
  known_thread-IsReached w thread_id r (some (set b)) run_id now reached there = (w, reached, refl)
  known_thread-IsReached w thread_id r (some (object b c)) run_id now reached there =
      (w, reached, refl)
  known_thread-IsReached w thread_id r (some (keyed b)) run_id now reached there =
      (w, reached, refl)
  known_thread-IsReached w thread_id r (some (slotted b c)) run_id now reached there =
      (w, reached, refl)
  known_thread-IsReached w thread_id r (some (opaque b)) run_id now reached there =
      (w, reached, refl)

  -- A command that is served with nothing else run while it waits, from a reachable state of the
  -- event loop, leaves the server in a reachable state.
  pub dispatch_command-IsReached :
      (w : EventLoop G S) (thread_id : String) (body : Option Value) (run_id now : String)
      → Reachable store libraries w
      → IsReached store libraries
          (dispatch_command store libraries w.server thread_id body run_id now).1
  unfolding dispatch_command
  dispatch_command-IsReached w thread_id body run_id now reached =
      finds (store.get w.server.threads thread_id) refl
    where
      finds :
          (found : Option ThreadRecord)
          → store.get w.server.threads thread_id ≡ found
          → let served : Response × Server G S = elim found [
            | none ↦ (not_found, w.server)
            | some r ↦ known_thread store libraries w.server thread_id r body run_id now
          ] in
            IsReached store libraries served.1
      finds none h = (w, reached, refl)
      finds (some r) h = known_thread-IsReached w thread_id r body run_id now reached h
