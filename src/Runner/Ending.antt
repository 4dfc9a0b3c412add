-- ===== src/Runner/Ending.antt =====
-- runner.py: how a `start` ends, and the callback of a task that is done.
use fastapi_agent_protocol.Base.{
  ℕ, ◌+◌, String, ◌≡◌, inl, inr, true, false, some, arith, ◌==◌, nat_eq, string_eq, Bool-cases,
}
use fastapi_agent_protocol.Base.Dict
use fastapi_agent_protocol.Base.Dict.{Dict, lookup-insert, lookup-insert_self, lookup-erase}
use fastapi_agent_protocol.Failure.{Result, ok, err}
use fastapi_agent_protocol.Value.{Value}
use fastapi_agent_protocol.Manager.{
  ActiveRun, Task, Input, Manager, active_run, release, launch, is_object, configured,
}
use fastapi_agent_protocol.Runner.System.{Flight, Sound, if-Sound}
use fastapi_agent_protocol.Runner.Taking.{flying_apart}

module _ {G : Type 0} where
  -- An emptied slot, which no task that is not done had, nor a start that goes on.
  pub vacate-Sound :
      (m : Manager G) (fly left : Flight) (thread_id : String)
      → Sound m fly
      → ((holder : ActiveRun) (n : ℕ) (t : Task G)
          → active_run m thread_id ≡ some holder
          → holder.task ≡ some n
          → Dict.lookup n m.tasks ≡ some t
          → t.done ≡ true)
      → ((n : ℕ) (r : ActiveRun)
          → Dict.lookup n left ≡ some r
          → (Dict.lookup n fly ≡ some r) × ((r.thread_id == thread_id) ≡ false))
      → Sound (record m { active = Dict.erase thread_id m.active }) left
  unfolding active_run
  vacate-Sound m fly left thread_id s over kept = record {
    numbered = s.numbered;
    placed = λ th r h. grind (arith, lookup-erase, s.placed);
    owned = λ n t th r h a o. grind (arith, lookup-erase, s.owned);
    live = λ n t h d.
        let (r, a, b) = s.live n t h d in (r, grind (arith, lookup-erase, over, a, b), b);
    flying = λ n r h.
        let (p, q) = kept n r h in
        let (a, b, c) = s.flying n r p in (a, grind (arith, lookup-erase, q), c);
  }

  pub launch-Sound :
      (m : Manager G) (fly : Flight) (n : ℕ) (run : ActiveRun) (graph : G) (input : Input)
      (config : Dict String Value)
      → Sound m fly
      → Dict.lookup n fly ≡ some run
      → Sound (launch m run graph input config) (Dict.erase n fly)
  unfolding active_run launch
  launch-Sound m fly n run graph input config s waiting = record {
    numbered = λ k t h. grind (arith, lookup-insert, s.numbered);
    placed = λ th r h. grind (arith, lookup-insert, s.placed);
    owned = λ k t th r h a o. grind (arith, lookup-insert, s.owned, s.placed, s.numbered);
    live = λ k t h d. elim (Bool-cases (k == m.next)) [
      | inl new ↦ (
        record run { object = m.next + 1; task = some m.next },
        grind (arith, lookup-insert),
        grind (arith, lookup-insert),
      )
      | inr old ↦
          let (r, a, b) = s.live k t (grind (arith, lookup-insert)) d in
          (r, grind (arith, lookup-insert, a, b, s.flying n run waiting), b)
    ];
    flying = λ k r h.
        let (p, q) : (Dict.lookup k fly ≡ some r) × ((k == n) ≡ false) =
          grind (arith, lookup-erase) in
        let (a, b, c) = s.flying k r p in
        (a, grind (arith, lookup-insert, flying_apart m fly n k run r s waiting p q), c);
  }

  -- A start that ends leaves the others in flight.
  pub shrink-Sound :
      (m : Manager G) (fly : Flight) (n : ℕ) → Sound m fly → Sound m (Dict.erase n fly)
  shrink-Sound m fly n s = record {
    numbered = s.numbered;
    placed = s.placed;
    owned = s.owned;
    live = s.live;
    flying = λ k r h. s.flying k r (grind (arith, lookup-erase));
  }

  pub fails-Sound :
      (m : Manager G) (fly : Flight) (n : ℕ) (run : ActiveRun)
      → Sound m fly
      → Dict.lookup n fly ≡ some run
      → Sound (release m run) (Dict.erase n fly)
  unfolding release
  fails-Sound m fly n run s waiting =
      let (a, b, c) = s.flying n run waiting in
      if-Sound (is_object run.object (active_run m run.thread_id)) _ m (Dict.erase n fly)
        (λ own.
          vacate-Sound m fly (Dict.erase n fly) run.thread_id s
            (λ holder k t h o f. grind (arith, b, c))
            (λ k r h.
              let (p, q) : (Dict.lookup k fly ≡ some r) × ((k == n) ≡ false) =
                grind (arith, lookup-erase) in
              (p, flying_apart m fly n k run r s waiting p q)))
        (shrink-Sound m fly n s)

  -- A start in flight is on another thread than a run whose slot has its task.
  pub owner_apart :
      (m : Manager G) (fly : Flight) (n k : ℕ) (task : Task G) (run other : ActiveRun)
      → Sound m fly
      → Dict.lookup n m.tasks ≡ some task
      → is_object run.object (active_run m run.thread_id) ≡ true
      → run.object ≡ n + 1
      → Dict.lookup k fly ≡ some other
      → (other.thread_id == run.thread_id) ≡ false
  owner_apart m fly n k task run other s found own owns waiting =
      let (a, b, c) = s.flying k other waiting in
      let owned = s.owned n task other.thread_id other found b in grind (arith, a, b, c, owned)

  pub clears-Sound :
      (m : Manager G) (fly : Flight) (n : ℕ) (task : Task G) (run : ActiveRun)
      → Sound m fly
      → Dict.lookup n m.tasks ≡ some task
      → task.done ≡ true
      → run.object ≡ n + 1
      → Sound (release m run) fly
  unfolding release
  clears-Sound m fly n task run s found over owns =
      if-Sound (is_object run.object (active_run m run.thread_id)) _ m fly
        (λ own.
          vacate-Sound m fly fly run.thread_id s
            (λ holder k t h o f.
              let owner =
                s.owned n task run.thread_id holder found h (grind (arith, own, h, owns)) in
              grind (arith, owner, o, f, found, over))
            (λ k r h. (h, owner_apart m fly n k task run r s found own owns h)))
        s

  pub configured-Sound :
      (m : Manager G) (fly : Flight) (n : ℕ) (run : ActiveRun) (graph : G) (input : Input)
      (config : Result (Dict String Value))
      → Sound m fly
      → Dict.lookup n fly ≡ some run
      → Sound (configured m run graph input config).1 (Dict.erase n fly)
  configured-Sound m fly n run graph input (err e) s waiting = shrink-Sound m fly n s
  configured-Sound m fly n run graph input (ok config) s waiting =
      launch-Sound m fly n run graph input config s waiting
