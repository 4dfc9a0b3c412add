-- ===== src/Runner/Serial.antt =====
-- runner.py: the tasks of a thread in the reachable states of the manager.
use fastapi_agent_protocol.Base.{
  ℕ, String, List, ◌≡◌, false, Option, some, arith, nat_eq, string_eq,
}
use fastapi_agent_protocol.Base.Dict
use fastapi_agent_protocol.Base.Dict.{Dict, lookup-insert, lookup-insert_self, lookup-erase}
use fastapi_agent_protocol.Failure.{is_exception, Result, ok, err}
use fastapi_agent_protocol.RunConfig.{run_config}
use fastapi_agent_protocol.Value.{Value, Fields}
use fastapi_agent_protocol.Manager.{
  ActiveRun, Task, Input, Manager, active_run, release, start_finish,
}
use fastapi_agent_protocol.Runner.{register_pending}
use fastapi_agent_protocol.Runner.System.{
  pick-Sound, Flight, Step, begins, finishes, cancels, settles, clears, registers, Reachable,
  at_first, after, Sound, new_manager-Sound,
}
use fastapi_agent_protocol.Runner.Taking.{begins-Sound}
use fastapi_agent_protocol.Runner.Ending.{shrink-Sound, fails-Sound, clears-Sound, configured-Sound}
use fastapi_agent_protocol.Runner.Tasks.{settles-Sound, cancels-Sound}

module _ {G : Type 0} where
  pub finishes-Sound :
      (m : Manager G) (fly : Flight) (n : ℕ) (run : ActiveRun) (resolved : Result G) (input : Input)
      (config : Option Fields) (metadata : Value)
      → Sound m fly
      → Dict.lookup n fly ≡ some run
      → Sound (start_finish m run resolved input config metadata).1 (Dict.erase n fly)
  unfolding start_finish
  finishes-Sound m fly n run (err e) input config metadata s waiting =
      pick-Sound (is_exception e) (err e) (err e) (release m run) m (Dict.erase n fly)
        (fails-Sound m fly n run s waiting) (shrink-Sound m fly n s)
  finishes-Sound m fly n run (ok graph) input config metadata s waiting =
      configured-Sound m fly n run graph input (run_config run.thread_id config metadata) s waiting

  pub registers-Sound :
      (m : Manager G) (fly : Flight) (thread_id assistant_id : String)
      (interrupts : List (String × Value))
      → Sound m fly
      → Sound (register_pending m thread_id assistant_id interrupts) fly
  unfolding register_pending active_run
  registers-Sound m fly thread_id assistant_id interrupts s = record {
    numbered = s.numbered;
    placed = s.placed;
    owned = s.owned;
    live = s.live;
    flying = s.flying;
  }

  pub Step-Sound :
      {m m' : Manager G} {fly fly' : Flight} → Step m fly m' fly' → Sound m fly → Sound m' fly'
  Step-Sound (begins run th a id e) s = begins-Sound _ _ _ run th a id s e
  Step-Sound (finishes n run resolved input config metadata h) s =
      finishes-Sound _ _ n run resolved input config metadata s h
  Step-Sound (cancels th id) s = cancels-Sound _ _ th id s
  Step-Sound (settles n) s = settles-Sound _ _ n s
  Step-Sound (clears n task run found over owns same) s =
      clears-Sound _ _ n task run s found over owns
  Step-Sound (registers n task interrupts found busy) s =
      registers-Sound _ _ task.thread_id task.assistant_id interrupts s

  pub Reachable-Sound : {m : Manager G} {fly : Flight} → Reachable m fly → Sound m fly
  Reachable-Sound at_first = new_manager-Sound
  Reachable-Sound (after r step) = Step-Sound step (Reachable-Sound r)

  -- Whatever the order in which coroutines start, cancel and end runs, a thread has at most one
  -- task that is not done.
  pub one_task_a_thread :
      {m : Manager G} {fly : Flight} (n k : ℕ) (t u : Task G)
      → Reachable m fly
      → Dict.lookup n m.tasks ≡ some t
      → Dict.lookup k m.tasks ≡ some u
      → t.done ≡ false
      → u.done ≡ false
      → t.thread_id ≡ u.thread_id
      → n ≡ k
  one_task_a_thread n k t u r a b c d same =
      let s = Reachable-Sound r in
      let (p, p1, p2) = s.live n t a c in
      let (q, q1, q2) = s.live k u b d in grind (arith, p1, p2, q1, q2)
