-- ===== src/Feed/Steps.antt =====
-- runner.py: every step keeps the logs of the threads in sections.
use fastapi_agent_protocol.Base.{
  ℕ, String, ◌≡◌, inl, inr, refl, sym, subst, ◌∙◌, false, Option, List, [], arith, ◌==◌, nat_eq,
  string_eq, Bool-cases,
}
use fastapi_agent_protocol.Base.Dict
use fastapi_agent_protocol.Base.Dict.{Dict, lookup-insert, lookup-insert_self}
use fastapi_agent_protocol.Failure.{err}
use fastapi_agent_protocol.Value.{Value, Fields}
use fastapi_agent_protocol.Manager.{Manager, release, launch, start_finish}
use fastapi_agent_protocol.Runner.{cancel, settle, register_pending}
use fastapi_agent_protocol.Runner.System.{Flight, Sound, new_manager-Sound}
use fastapi_agent_protocol.Runner.Taking.{begins-Sound, start_begin_taken}
use fastapi_agent_protocol.Runner.Ending.{launch-Sound, clears-Sound}
use fastapi_agent_protocol.Runner.Tasks.{Keeps-refl, settles-Sound, cancels-Sound}
use fastapi_agent_protocol.Runner.Serial.{finishes-Sound, registers-Sound}
use fastapi_agent_protocol.Execution.{Output}
use fastapi_agent_protocol.Feed.{
  Feed, log_in, Step, begins, fails, launches, publishes, listens, registers, cancels, settles,
  clears, Reachable, at_first, after,
}
use fastapi_agent_protocol.Feed.Same.{IsSame, release-IsSame, fails-IsSame, cancel-IsSame}
use fastapi_agent_protocol.Feed.Sections.{IsUnder, InSections, IsUnder-Same}
use fastapi_agent_protocol.Feed.Publishing.{
  publishes-own, publishes-other, launches-own, launches-other, settles-own, settles-other,
}

pub log_in-nil : (thread_id : String) → log_in [] thread_id ≡ []
unfolding log_in Dict.lookup
log_in-nil thread_id = refl

pub log_in-insert :
    (logs : Dict String (List Output)) (thread_id other : String) (log : List Output)
    → (other == thread_id) ≡ false
    → log_in (Dict.insert thread_id log logs) other ≡ log_in logs other
unfolding log_in
log_in-insert logs thread_id other log apart = grind (arith, lookup-insert)

pub log_in-insert_self :
    (logs : Dict String (List Output)) (thread_id : String) (log : List Output)
    → log_in (Dict.insert thread_id log logs) thread_id ≡ log
unfolding log_in
log_in-insert_self logs thread_id log = grind (arith, lookup-insert_self)

-- At one thread by `own`, at the others by `other`.
pub by_thread :
    (P : String → Type 0) (thread_id : String)
    → P thread_id
    → ((other : String) → (other == thread_id) ≡ false → P other)
    → (t : String) → P t
by_thread P thread_id own others t = elim (Bool-cases (t == thread_id)) [
  | inl same ↦ subst P (grind (arith, same)) own
  | inr apart ↦ others t apart
]

module _ {G : Type 0} (loads : String → Option Value) (repr : Value → String)
    (message_to_dict : Value → Option (Fields × Value)) where
  abbrev pub AllInSections : Feed G → Type 0
  AllInSections a =
      (thread_id : String)
      → InSections loads repr message_to_dict a.manager a.rest thread_id (log_in a.logs thread_id)

  under :
      (m m' : Manager G) (rest rest' : Dict ℕ (List Output)) (thread_id : String)
      (log log' : List Output)
      → log ≡ log'
      → ((partial : List Output)
          → IsUnder loads repr message_to_dict m rest thread_id partial
          → IsUnder loads repr message_to_dict m' rest' thread_id partial)
      → InSections loads repr message_to_dict m rest thread_id log
      → InSections loads repr message_to_dict m' rest' thread_id log'
  under m m' rest rest' thread_id log log' same keeps (runs, partial, is, whole, rests) =
      (runs, partial, sym same ∙ is, whole, keeps partial rests)

  same-AllInSections :
      (a : Feed G) (m : Manager G) (fly : Flight)
      → IsSame a.manager m
      → AllInSections a
      → AllInSections (record a { manager = m; flying = fly })
  same-AllInSections a m fly same sections t =
      under a.manager m a.rest a.rest t _ _ refl
        (λ partial rests.
          IsUnder-Same loads repr message_to_dict a.manager m a.rest t partial same rests)
        (sections t)

  Step-Sound :
      {a b : Feed G}
      → Step loads repr message_to_dict a b
      → Sound a.manager a.flying
      → Sound b.manager b.flying
  Step-Sound {a} (begins run m t id run_id e) s =
      begins-Sound a.manager m a.flying run t id run_id s e
  Step-Sound {a} (fails n run e input config metadata waiting) s =
      finishes-Sound a.manager a.flying n run (err e) input config metadata s waiting
  Step-Sound {a} (launches n run graph input config outputs waiting fresh) s =
      launch-Sound a.manager a.flying n run graph input config s waiting
  Step-Sound {a} (publishes n task output later now found busy left) s = s
  Step-Sound {a} (listens t subscribers next_sid) s = s
  Step-Sound {a} (registers n task interrupts found busy) s =
      registers-Sound a.manager a.flying task.thread_id task.assistant_id interrupts s
  Step-Sound {a} (cancels t run_id) s = cancels-Sound a.manager a.flying t run_id s
  Step-Sound {a} (settles n task found busy left) s = settles-Sound a.manager a.flying n s
  Step-Sound {a} (clears n task run found over owns same) s =
      clears-Sound a.manager a.flying n task run s found over owns

  Step-AllInSections :
      {a b : Feed G}
      → Step loads repr message_to_dict a b
      → Sound a.manager a.flying
      → AllInSections a
      → AllInSections b
  unfolding register_pending
  Step-AllInSections {a} (begins run m t id run_id e) s sections =
      let (is, left, idle) = start_begin_taken a.manager m run t id run_id e in
      same-AllInSections a m (Dict.insert run.object run a.flying)
        (subst (λ k. IsSame a.manager k) left
          (Keeps-refl a.manager.tasks, Keeps-refl a.manager.tasks))
        sections
  Step-AllInSections {a} (fails n run e input config metadata waiting) s sections =
      same-AllInSections a (start_finish a.manager run (err e) input config metadata).1
        (Dict.erase n a.flying) (fails-IsSame a.manager run e input config metadata) sections
  Step-AllInSections {a} (launches n run graph input config outputs waiting fresh) s sections =
      by_thread _ run.thread_id
        (launches-own loads repr message_to_dict a.manager a.flying s a.rest n run graph input
          config outputs _ waiting fresh (sections run.thread_id))
        (λ t apart.
          under a.manager (launch a.manager run graph input config) a.rest
            (Dict.insert a.manager.next outputs a.rest) t _ _ refl
            (λ partial rests.
              launches-other loads repr message_to_dict a.manager a.flying s a.rest n run graph
                input config outputs t partial apart rests)
            (sections t))
  Step-AllInSections {a} (publishes n task output later now found busy left) s sections =
      by_thread _ task.thread_id
        (subst
          (λ l.
            InSections loads repr message_to_dict a.manager (Dict.insert n later a.rest)
              task.thread_id l)
          (sym (log_in-insert_self a.logs task.thread_id _))
          (publishes-own loads repr message_to_dict a.manager a.flying s a.rest n task output later
            _ found busy left (sections task.thread_id)))
        (λ t apart.
          under a.manager a.manager a.rest (Dict.insert n later a.rest) t _ _
            (sym (log_in-insert a.logs task.thread_id t _ apart))
            (λ partial rests.
              publishes-other loads repr message_to_dict a.manager a.flying s a.rest n task later t
                partial found apart rests)
            (sections t))
  Step-AllInSections {a} (listens t subscribers next_sid) s sections = sections
  Step-AllInSections {a} (registers n task interrupts found busy) s sections =
      same-AllInSections a (register_pending a.manager task.thread_id task.assistant_id interrupts)
        a.flying (Keeps-refl a.manager.tasks, Keeps-refl a.manager.tasks) sections
  Step-AllInSections {a} (cancels t run_id) s sections =
      same-AllInSections a (cancel a.manager t run_id).1 a.flying (cancel-IsSame a.manager t run_id)
        sections
  Step-AllInSections {a} (settles n task found busy left) s sections =
      by_thread _ task.thread_id
        (settles-own loads repr message_to_dict a.manager a.flying s a.rest n task found _ busy left
          (sections task.thread_id))
        (λ t apart.
          under a.manager (settle a.manager n) a.rest a.rest t _ _ refl
            (λ partial rests.
              settles-other loads repr message_to_dict a.manager a.flying s a.rest n task found t
                partial apart rests)
            (sections t))
  Step-AllInSections {a} (clears n task run found over owns same) s sections =
      same-AllInSections a (release a.manager run) a.flying (release-IsSame a.manager run) sections

  pub Reachable-both :
      {a : Feed G}
      → Reachable loads repr message_to_dict a
      → Sound a.manager a.flying × AllInSections a
  Reachable-both (at_first replay_size) = (
    new_manager-Sound,
    λ t. ([], [], log_in-nil t, tt, inl ((λ n task h on. grind (arith, Dict.lookup-nil)), refl)),
  )
  Reachable-both (after r step) =
      let (s, sections) = Reachable-both r in
      (Step-Sound step s, Step-AllInSections step s sections)
