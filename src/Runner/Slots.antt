-- ===== src/Runner/Slots.antt =====
-- runner.py, `start` and `cancel`: what becomes of a thread's slot.
use fastapi_agent_protocol.Base.{
  ℕ, ◌+◌, String, ◌≡◌, ◌⊎◌, refl, subst, ap, sym, true, false, Option, none, some, arith, ◌==◌,
  if◌then◌else◌, ==_self, nat_eq, string_eq, inl, inr,
}
use fastapi_agent_protocol.Base.Dict
use fastapi_agent_protocol.Base.Dict.{Dict, lookup-insert, lookup-insert_self, lookup-erase}
use fastapi_agent_protocol.Failure.{Failure, run_active, cancelled, is_exception, Result, ok, err}
use fastapi_agent_protocol.RunConfig.{run_config}
use fastapi_agent_protocol.Value.{Value, Fields}
use fastapi_agent_protocol.Manager.{
  ActiveRun, Input, Manager, active_run, task_done, start_begin, reservation, release, launch,
  start_finish, configured, found_done,
}
use fastapi_agent_protocol.Runner.{cancel}

module _ {G : Type 0} where
  -- A thread is busy while its slot holds a reservation or a run whose task is not done.
  abbrev pub IsBusy : Manager G → String → ActiveRun → Type 0
  IsBusy m thread_id run = (active_run m thread_id ≡ some run) × (task_done m run.task ≡ false)

  -- On a busy thread `start` is refused with the active run's id, and nothing changes.
  pub start_begin_busy :
      (m : Manager G) (thread_id assistant_id run_id : String) (run : ActiveRun)
      → IsBusy m thread_id run
      → start_begin m thread_id assistant_id run_id ≡ (err (run_active thread_id run.run_id), m)
  unfolding start_begin
  start_begin_busy m thread_id assistant_id run_id run (held, live) = ground arith

  -- Elsewhere the slot is reserved at once: the thread is busy with the reservation.
  pub start_begin_free :
      (m : Manager G) (thread_id assistant_id run_id : String) (run : ActiveRun)
      → (start_begin m thread_id assistant_id run_id).0 ≡ ok run
      → IsBusy (start_begin m thread_id assistant_id run_id).1 thread_id run
        × (run.run_id ≡ run_id)
        × ((start_begin m thread_id assistant_id run_id).1.pending_inputs ≡ m.pending_inputs)
  unfolding start_begin active_run task_done
  start_begin_free m thread_id assistant_id run_id run h =
      ground
        (arith, lookup-insert_self thread_id (reservation m thread_id assistant_id run_id) m.active)

  -- A run that holds a reservation only is out of the reach of `cancel`.
  pub cancel_reserved :
      (m : Manager G) (thread_id : String) (run_id : Value) (run : ActiveRun)
      → active_run m thread_id ≡ some run
      → run.task ≡ none
      → cancel m thread_id run_id ≡ (false, m)
  unfolding cancel
  cancel_reserved m thread_id run_id run held none_yet = ground arith

  -- If the graph cannot be resolved, by an `Exception`, the caller gets the failure. The slot is
  -- free again, every other thread's slot is as before, and so are the pending interrupts and the
  -- last assistants.
  pub start_finish_failed :
      (m : Manager G) (reserved : ActiveRun) (other : String) (e : Failure) (input : Input)
      (config : Option Fields) (metadata : Value)
      → active_run m reserved.thread_id ≡ some reserved
      → is_exception e ≡ true
      → let after = start_finish m reserved (err e) input config metadata in
        (after.0 ≡ err e)
        × (active_run after.1 other
            ≡ (if other == reserved.thread_id then none else active_run m other))
        × (after.1.pending_inputs ≡ m.pending_inputs)
        × (after.1.last_assistants ≡ m.last_assistants)
  unfolding start_finish release active_run
  start_finish_failed m reserved other e input config metadata held caught =
      grind (arith, lookup-erase, ==_self reserved.object)

  -- What a start that succeeds leaves: a run with a task that is not done in the slot, no pending
  -- interrupts, and its assistant as the last.
  abbrev pub HasStarted : Result String × Manager G → ActiveRun → Type 0
  HasStarted after reserved =
      (after.0 ≡ ok reserved.run_id)
      × ((run : ActiveRun) × IsBusy after.1 reserved.thread_id run
          × (run.run_id ≡ reserved.run_id)
          × ((n : ℕ) × (run.task ≡ some n)))
      × (Dict.lookup reserved.thread_id after.1.pending_inputs ≡ none)
      × (Dict.lookup reserved.thread_id after.1.last_assistants ≡ some reserved.assistant_id)

  pub launch-HasStarted :
      (m : Manager G) (reserved : ActiveRun) (graph : G) (input : Input) (full : Dict String Value)
      → HasStarted (ok reserved.run_id, launch m reserved graph input full) reserved
  unfolding launch active_run task_done
  launch-HasStarted m reserved graph input full = (
    refl,
    (
      record reserved { object = m.next + 1; task = some m.next },
      (
        lookup-insert_self reserved.thread_id _ m.active,
        ap found_done (lookup-insert_self m.next _ m.tasks),
      ),
      refl,
      (m.next, refl),
    ),
    grind (arith, lookup-erase),
    lookup-insert_self reserved.thread_id reserved.assistant_id m.last_assistants,
  )

  -- A start that resolves its graph and builds its config returns its run id and takes the slot
  -- with a task that is not done. It spends the thread's pending interrupts and records the
  -- assistant as the thread's last.
  pub start_finish_launched :
      (m : Manager G) (reserved : ActiveRun) (graph : G) (input : Input) (config : Option Fields)
      (metadata : Value) (full : Dict String Value)
      → run_config reserved.thread_id config metadata ≡ ok full
      → HasStarted (start_finish m reserved (ok graph) input config metadata) reserved
  unfolding start_finish
  start_finish_launched m reserved graph input config metadata full built =
      subst (λ r. HasStarted (configured m reserved graph input r) reserved) (sym built)
        (launch-HasStarted m reserved graph input full)

  abbrev IsWedged : Manager G → ActiveRun → Type 0
  IsWedged m reserved =
      ((assistant_id run_id : String)
        → start_begin m reserved.thread_id assistant_id run_id
          ≡ (err (run_active reserved.thread_id reserved.run_id), m))
      × ((run_id : Value) → cancel m reserved.thread_id run_id ≡ (false, m))

  reserved-IsWedged :
      (m : Manager G) (reserved : ActiveRun)
      → active_run m reserved.thread_id ≡ some reserved
      → reserved.task ≡ none
      → IsWedged m reserved
  unfolding task_done
  reserved-IsWedged m reserved held none_yet = (
    λ assistant_id run_id.
        start_begin_busy m reserved.thread_id assistant_id run_id reserved (held, ground arith),
    λ run_id. cancel_reserved m reserved.thread_id run_id reserved held none_yet,
  )

  start_finish_kept :
      (m : Manager G) (reserved : ActiveRun) (resolved : Result G) (input : Input)
      (config : Option Fields) (metadata : Value) (e : Failure)
      → (resolved ≡ err cancelled)
        ⊎ ((graph : G) × (resolved ≡ ok graph)
            × (run_config reserved.thread_id config metadata ≡ err e))
      → (start_finish m reserved resolved input config metadata).1 ≡ m
  unfolding start_finish
  start_finish_kept m reserved resolved input config metadata e why = elim why [
    | inl stop ↦ ground (arith, stop)
    | inr (graph, found, broken) ↦ ground (arith, found, broken)
  ]

  -- When resolving is cancelled, or the config cannot be built, the reservation stays. The start
  -- has ended, yet every later start on the thread is refused and no cancel reaches it.
  pub start_finish_wedged :
      (m : Manager G) (reserved : ActiveRun) (resolved : Result G) (input : Input)
      (config : Option Fields) (metadata : Value) (e : Failure)
      → active_run m reserved.thread_id ≡ some reserved
      → reserved.task ≡ none
      → (resolved ≡ err cancelled)
        ⊎ ((graph : G) × (resolved ≡ ok graph)
            × (run_config reserved.thread_id config metadata ≡ err e))
      → let after = (start_finish m reserved resolved input config metadata).1 in
        ((assistant_id run_id : String)
          → start_begin after reserved.thread_id assistant_id run_id
            ≡ (err (run_active reserved.thread_id reserved.run_id), after))
        × ((run_id : Value) → cancel after reserved.thread_id run_id ≡ (false, after))
  start_finish_wedged m reserved resolved input config metadata e held none_yet why =
      subst (λ after. IsWedged after reserved)
        (sym (start_finish_kept m reserved resolved input config metadata e why))
        (reserved-IsWedged m reserved held none_yet)
