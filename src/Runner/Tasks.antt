-- ===== src/Runner/Tasks.antt =====
-- runner.py: what `cancel` and the end of a task do to the table of tasks.
use fastapi_agent_protocol.Base.{
  ℕ, String, ◌≡◌, inl, inr, refl, Bool, true, false, Option, none, some, arith, if◌then◌else◌, ◌==◌,
  nat_eq, string_eq, Bool-cases,
}
use fastapi_agent_protocol.Base.Dict
use fastapi_agent_protocol.Base.Dict.{Dict, lookup-insert, lookup-insert_self, lookup-erase}
use fastapi_agent_protocol.Value.{Value}
use fastapi_agent_protocol.Manager.{ActiveRun, Task, Manager, active_run}
use fastapi_agent_protocol.Runner.{
  cancel, settle, cancel_task, settle_found, cancel_found, cancel_run, cancel_active, names_run,
}
use fastapi_agent_protocol.Runner.System.{pick-Sound, Flight, Sound, tasks-Sound, Keeps}

module _ {G : Type 0} where
  pub Keeps-refl : (tasks : Dict ℕ (Task G)) → Keeps tasks tasks
  Keeps-refl tasks k t h = (t, h, refl, (λ d. d), refl)

  pub Keeps-insert :
      (tasks : Dict ℕ (Task G)) (n : ℕ) (old new : Task G)
      → Dict.lookup n tasks ≡ some old
      → new.thread_id ≡ old.thread_id
      → (new.done ≡ false → old.done ≡ false)
      → new.assistant_id ≡ old.assistant_id
      → Keeps tasks (Dict.insert n new tasks)
  Keeps-insert tasks n old new found same over kin k t h = elim (Bool-cases (k == n)) [
    | inl own ↦ (
      old,
      grind (arith, own, found),
      grind (arith, lookup-insert k n new tasks),
      grind (arith, lookup-insert k n new tasks),
      grind (arith, lookup-insert k n new tasks),
    )
    | inr other ↦ (t, grind (arith, lookup-insert), refl, (λ d. d), refl)
  ]

  pub settle_found-Keeps :
      (tasks : Dict ℕ (Task G)) (n : ℕ) (o : Option (Task G))
      → Dict.lookup n tasks ≡ o
      → Keeps tasks (settle_found tasks n o)
  settle_found-Keeps tasks n none e = Keeps-refl tasks
  settle_found-Keeps tasks n (some t) e =
      Keeps-insert tasks n t (record t { done = true }) e refl (λ d. grind (arith, d)) refl

  pub if-Keeps :
      (b : Bool) (tasks one other : Dict ℕ (Task G))
      → Keeps tasks one
      → Keeps tasks other
      → Keeps tasks (if b then one else other)
  if-Keeps true tasks one other s t = s
  if-Keeps false tasks one other s t = t

  pub cancel_found-Keeps :
      (tasks : Dict ℕ (Task G)) (n : ℕ) (o : Option (Task G))
      → Dict.lookup n tasks ≡ o
      → Keeps tasks (cancel_found tasks n o)
  cancel_found-Keeps tasks n none e = Keeps-refl tasks
  cancel_found-Keeps tasks n (some t) e =
      if-Keeps t.done tasks tasks (Dict.insert n (record t { cancelling = true }) tasks)
        (Keeps-refl tasks)
        (Keeps-insert tasks n t (record t { cancelling = true }) e refl (λ d. d) refl)

  pub settles-Sound : (m : Manager G) (fly : Flight) (n : ℕ) → Sound m fly → Sound (settle m n) fly
  unfolding settle
  settles-Sound m fly n s =
      tasks-Sound m fly _ s (settle_found-Keeps m.tasks n (Dict.lookup n m.tasks) refl)

  pub cancel_run-Sound :
      (m : Manager G) (fly : Flight) (run_id : Value) (run : ActiveRun) (task : Option ℕ)
      → Sound m fly
      → Sound (cancel_run m run_id run task).1 fly
  unfolding cancel_task
  cancel_run-Sound m fly run_id run none s = s
  cancel_run-Sound m fly run_id run (some n) s =
      pick-Sound (names_run run_id run.run_id) true false (cancel_task m n) m fly
        (tasks-Sound m fly _ s (cancel_found-Keeps m.tasks n (Dict.lookup n m.tasks) refl)) s

  pub cancel_active-Sound :
      (m : Manager G) (fly : Flight) (run_id : Value) (run : Option ActiveRun)
      → Sound m fly
      → Sound (cancel_active m run_id run).1 fly
  cancel_active-Sound m fly run_id none s = s
  cancel_active-Sound m fly run_id (some run) s = cancel_run-Sound m fly run_id run run.task s

  pub cancels-Sound :
      (m : Manager G) (fly : Flight) (thread_id : String) (run_id : Value)
      → Sound m fly
      → Sound (cancel m thread_id run_id).1 fly
  unfolding cancel
  cancels-Sound m fly thread_id run_id s =
      cancel_active-Sound m fly run_id (active_run m thread_id) s
