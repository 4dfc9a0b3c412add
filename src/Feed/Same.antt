-- ===== src/Feed/Same.antt =====
-- runner.py: calls of the manager that make no task and end none.
use fastapi_agent_protocol.Base.{
  ℕ, String, ◌≡◌, inl, inr, refl, Bool, true, false, Option, none, some, if◌then◌else◌, ◌==◌,
  nat_eq, arith, Bool-cases,
}
use fastapi_agent_protocol.Base.Dict
use fastapi_agent_protocol.Base.Dict.{Dict, lookup-insert}
use fastapi_agent_protocol.Failure.{Failure, is_exception, err}
use fastapi_agent_protocol.Value.{Value, Fields}
use fastapi_agent_protocol.Manager.{
  ActiveRun, Task, Input, Manager, active_run, release, is_object, start_finish,
}
use fastapi_agent_protocol.Runner.{
  cancel, cancel_task, cancel_found, cancel_run, cancel_active, names_run,
}
use fastapi_agent_protocol.Runner.System.{Keeps}
use fastapi_agent_protocol.Runner.Tasks.{Keeps-refl, cancel_found-Keeps}

module _ {G : Type 0} where
  -- The same tasks of the same threads, and the same of them are not done.
  abbrev pub IsSame : Manager G → Manager G → Type 0
  IsSame m m' = Keeps m.tasks m'.tasks × Keeps m'.tasks m.tasks

  pub IsSame-refl : (m : Manager G) → IsSame m m
  IsSame-refl m = (Keeps-refl m.tasks, Keeps-refl m.tasks)

  if-IsSame :
      (b : Bool) (m one other : Manager G)
      → IsSame m one
      → IsSame m other
      → IsSame m (if b then one else other)
  if-IsSame true m one other p q = p
  if-IsSame false m one other p q = q

  pick-IsSame :
      {A : Type 0} (b : Bool) (x y : A) (m one other : Manager G)
      → IsSame m one
      → IsSame m other
      → IsSame m (if◌then◌else◌ {A = A × Manager G} b (x, one) (y, other)).1
  pick-IsSame true x y m one other p q = p
  pick-IsSame false x y m one other p q = q

  pub release-IsSame : (m : Manager G) (run : ActiveRun) → IsSame m (release m run)
  unfolding release
  release-IsSame m run =
      if-IsSame (is_object run.object (active_run m run.thread_id)) m _ m (IsSame-refl m)
        (IsSame-refl m)

  pub fails-IsSame :
      (m : Manager G) (run : ActiveRun) (e : Failure) (input : Input) (config : Option Fields)
      (metadata : Value)
      → IsSame m (start_finish m run (err e) input config metadata).1
  unfolding start_finish
  fails-IsSame m run e input config metadata =
      pick-IsSame (is_exception e) (err e) (err e) m (release m run) m (release-IsSame m run)
        (IsSame-refl m)

  cancelled-Keeps :
      (tasks : Dict ℕ (Task G)) (n : ℕ) (o : Option (Task G))
      → Dict.lookup n tasks ≡ o
      → Keeps (cancel_found tasks n o) tasks
  cancelled-Keeps tasks n none e = Keeps-refl tasks
  cancelled-Keeps tasks n (some t) e = elim (Bool-cases t.done) [
    | inl over ↦ rw over (Keeps-refl tasks)
    | inr busy ↦ rw busy (λ k u h. elim (Bool-cases (k == n)) [
      | inl own ↦ (
        record t { cancelling = true },
        grind (arith, lookup-insert),
        grind (arith, e),
        (λ d. busy),
        grind (arith, e),
      )
      | inr other ↦ (u, grind (arith, lookup-insert), refl, (λ d. d), refl)
    ])
  ]

  cancel_run-IsSame :
      (m : Manager G) (run_id : Value) (run : ActiveRun) (task : Option ℕ)
      → IsSame m (cancel_run m run_id run task).1
  unfolding cancel_task
  cancel_run-IsSame m run_id run none = IsSame-refl m
  cancel_run-IsSame m run_id run (some n) =
      pick-IsSame (names_run run_id run.run_id) true false m (cancel_task m n) m
        (
          cancel_found-Keeps m.tasks n (Dict.lookup n m.tasks) refl,
          cancelled-Keeps m.tasks n (Dict.lookup n m.tasks) refl,
        )
        (IsSame-refl m)

  cancel_active-IsSame :
      (m : Manager G) (run_id : Value) (run : Option ActiveRun)
      → IsSame m (cancel_active m run_id run).1
  cancel_active-IsSame m run_id none = IsSame-refl m
  cancel_active-IsSame m run_id (some run) = cancel_run-IsSame m run_id run run.task

  pub cancel-IsSame :
      (m : Manager G) (thread_id : String) (run_id : Value) → IsSame m (cancel m thread_id run_id).1
  unfolding cancel
  cancel-IsSame m thread_id run_id = cancel_active-IsSame m run_id (active_run m thread_id)
