-- ===== src/Runner/Taking.antt =====
-- runner.py, `start` up to the call of `resolve`, as a step of the system.
use fastapi_agent_protocol.Base.{
  ℕ, String, ◌≡◌, inl, inr, subst, ap, ◌∙◌, true, false, some, arith, ◌==◌, nat_eq, string_eq,
  Bool-cases,
}
use fastapi_agent_protocol.Base.Dict
use fastapi_agent_protocol.Base.Dict.{Dict, lookup-insert, lookup-insert_self, lookup-erase}
use fastapi_agent_protocol.Failure.{ok}
use fastapi_agent_protocol.Manager.{
  ActiveRun, Manager, active_run, task_done, start_begin, reservation, reserve, found_done,
}
use fastapi_agent_protocol.Runner.System.{Flight, Sound}

module _ {G : Type 0} where
  -- A slot whose task is not done, or not made, is not one that a start can take.
  pub busy_elsewhere :
      (m : Manager G) (thread_id other : String) (run : ActiveRun)
      → ((existing : ActiveRun)
          → active_run m thread_id ≡ some existing
          → task_done m existing.task ≡ true)
      → active_run m other ≡ some run
      → task_done m run.task ≡ false
      → (other == thread_id) ≡ false
  busy_elsewhere m thread_id other run idle held busy = elim (Bool-cases (other == thread_id)) [
    | inl same ↦ grind (arith, idle run, held, busy)
    | inr different ↦ different
  ]

  -- Taking a slot that no task which is not done holds.
  pub reserve-Sound :
      (m : Manager G) (fly : Flight) (thread_id assistant_id run_id : String)
      → Sound m fly
      → ((existing : ActiveRun)
          → active_run m thread_id ≡ some existing
          → task_done m existing.task ≡ true)
      → let run = reservation m thread_id assistant_id run_id in
        Sound (reserve m run) (Dict.insert m.next run fly)
  unfolding active_run task_done
  reserve-Sound m fly thread_id assistant_id run_id s idle = record {
    numbered = λ n t h. grind (arith, s.numbered);
    placed = λ th run h. grind (arith, lookup-insert, s.placed);
    owned = λ n t th run h a o. grind (arith, lookup-insert, s.owned, s.numbered);
    live = λ n t h d.
        let (run, a, b) = s.live n t h d in
        let busy = ap (task_done m) b ∙ ap found_done h ∙ d in
        (
          run,
          grind (arith, lookup-insert, busy_elsewhere m thread_id t.thread_id run idle a busy),
          b,
        );
    flying = λ n run h. elim (Bool-cases (n == m.next)) [
      | inl new ↦ grind (arith, lookup-insert)
      | inr old ↦
          let (a, b, c) = s.flying n run (grind (arith, lookup-insert)) in
          let apart = busy_elsewhere m thread_id run.thread_id run idle b (ap (task_done m) c) in
          (a, grind (arith, lookup-insert, apart), c)
    ];
  }

  -- What a `start_begin` that is not refused has done.
  pub start_begin_taken :
      (m m' : Manager G) (run : ActiveRun) (thread_id assistant_id run_id : String)
      → start_begin m thread_id assistant_id run_id ≡ (ok run, m')
      → (reservation m thread_id assistant_id run_id ≡ run)
        × (reserve m (reservation m thread_id assistant_id run_id) ≡ m')
        × ((existing : ActiveRun)
            → active_run m thread_id ≡ some existing
            → task_done m existing.task ≡ true)
  unfolding start_begin
  start_begin_taken m m' run thread_id assistant_id run_id e = grind arith

  pub begins-Sound :
      (m m' : Manager G) (fly : Flight) (run : ActiveRun) (thread_id assistant_id run_id : String)
      → Sound m fly
      → start_begin m thread_id assistant_id run_id ≡ (ok run, m')
      → Sound m' (Dict.insert run.object run fly)
  begins-Sound m m' fly run thread_id assistant_id run_id s e =
      let (same, left, idle) = start_begin_taken m m' run thread_id assistant_id run_id e in
      subst (λ r. Sound m' (Dict.insert r.object r fly)) same
        (subst (λ n. Sound n (Dict.insert m.next (reservation m thread_id assistant_id run_id) fly))
          left (reserve-Sound m fly thread_id assistant_id run_id s idle))

  -- Two starts in flight are on two threads.
  pub flying_apart :
      (m : Manager G) (fly : Flight) (n k : ℕ) (run other : ActiveRun)
      → Sound m fly
      → Dict.lookup n fly ≡ some run
      → Dict.lookup k fly ≡ some other
      → (k == n) ≡ false
      → (other.thread_id == run.thread_id) ≡ false
  flying_apart m fly n k run other s p q ne =
      let (a, b, c) = s.flying n run p in
      let (d, e, f) = s.flying k other q in grind (arith, a, b, d, e)
