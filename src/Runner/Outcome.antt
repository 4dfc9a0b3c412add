-- ===== src/Runner/Outcome.antt =====
-- runner.py, `start` as a whole: what a client's start comes to.
use fastapi_agent_protocol.Base.{
  some, none, ◌==◌, Bool-cases, ==_self, String, ◌≡◌, ◌⊎◌, inl, inr, refl, subst, sym, ap, ◌∙◌,
  Bool, true, false, Option, if◌then◌else◌, string_eq, arith,
}
use fastapi_agent_protocol.Base.Dict.{Dict, lookup-insert, lookup-insert_self, lookup-erase}
use fastapi_agent_protocol.Failure.{Failure, is_exception, Result, ok, err}
use fastapi_agent_protocol.RunConfig.{run_config}
use fastapi_agent_protocol.Registry.{AgentRegistry, resolve}
use fastapi_agent_protocol.Value.{Value, Fields}
use fastapi_agent_protocol.Manager.{
  ActiveRun, Input, Manager, active_run, is_object, start_begin, reserve, reservation, release,
  start_finish, configured, started, start, config_value,
}
use fastapi_agent_protocol.Runner.Slots.{HasStarted, launch-HasStarted}
use fastapi_agent_protocol.Runner.Taking.{start_begin_taken}

module _ {G : Type 0} where
  -- No task was made or ended, every other thread's slot is as before, and the thread's is as
  -- before, or free, or holds a reservation, which has no task.
  abbrev pub IsKept : Manager G → Manager G → String → Type 0
  IsKept m after thread_id =
      (after.tasks ≡ m.tasks)
      × ((other : String)
          → (other == thread_id) ≡ false
          → active_run after other ≡ active_run m other)
      × ((active_run after thread_id ≡ active_run m thread_id)
          ⊎ (active_run after thread_id ≡ none)
          ⊎ ((run : ActiveRun) × (active_run after thread_id ≡ some run) × (run.task ≡ none)))

  -- A start that is refused leaves the pending interrupts and the last assistants, and the tasks and
  -- the slots as `IsKept` says.
  abbrev pub HasFailed : Manager G → Result String × Manager G → String → Type 0
  HasFailed m after thread_id =
      ((e : Failure) × (after.0 ≡ err e))
      × (after.1.pending_inputs ≡ m.pending_inputs)
      × (after.1.last_assistants ≡ m.last_assistants)
      × IsKept m after.1 thread_id

  abbrev pub Outcome : Manager G → Result String × Manager G → ActiveRun → Type 0
  Outcome m after reserved = HasStarted after reserved ⊎ HasFailed m after reserved.thread_id

  pub same-IsKept : (m : Manager G) (thread_id : String) → IsKept m m thread_id
  same-IsKept m thread_id = (refl, (λ other apart. refl), inl refl)

  reserve-IsKept :
      (m n : Manager G) (run : ActiveRun)
      → run.task ≡ none
      → IsKept (reserve m run) n run.thread_id
      → IsKept m n run.thread_id
  unfolding active_run
  reserve-IsKept m n run new (tasks, others, slot) = (
    tasks,
    λ other apart. others other apart ∙ grind (arith, lookup-insert, apart),
    elim slot [
      | inl same ↦ inr (inr (run, same ∙ lookup-insert_self run.thread_id run m.active, new))
      | inr left ↦ inr left
    ],
  )

  release-IsKept : (m : Manager G) (run : ActiveRun) → IsKept m (release m run) run.thread_id
  unfolding release active_run
  release-IsKept m run = elim (Bool-cases (is_object run.object (active_run m run.thread_id))) [
    | inl own ↦ rw own (
      refl,
      (λ other apart. grind (arith, lookup-erase, apart)),
      inr (inl (grind (arith, lookup-erase, ==_self run.thread_id))),
    )
    | inr foreign ↦ rw foreign (same-IsKept m run.thread_id)
  ]

  release_pending :
      (m : Manager G) (run : ActiveRun)
      → ((release m run).pending_inputs ≡ m.pending_inputs)
        × ((release m run).last_assistants ≡ m.last_assistants)
  unfolding release
  release_pending m run = ground arith

  pub release-HasFailed :
      (b : Bool) (e : Failure) (m : Manager G) (run : ActiveRun)
      → HasFailed m
          (if◌then◌else◌ {A = Result String × Manager G} b (err e, release m run) (err e, m))
          run.thread_id
  release-HasFailed true e m run =
      let (p, q) = release_pending m run in ((e, refl), p, q, release-IsKept m run)
  release-HasFailed false e m run = ((e, refl), refl, refl, same-IsKept m run.thread_id)

  configured-Outcome :
      (m : Manager G) (reserved : ActiveRun) (graph : G) (input : Input)
      (config : Result (Dict String Value))
      → Outcome m (configured m reserved graph input config) reserved
  configured-Outcome m reserved graph input (err e) =
      inr ((e, refl), refl, refl, same-IsKept m reserved.thread_id)
  configured-Outcome m reserved graph input (ok config) =
      inl (launch-HasStarted m reserved graph input config)

  start_finish-Outcome :
      (m : Manager G) (reserved : ActiveRun) (resolved : Result G) (input : Input)
      (config : Option Fields) (metadata : Value)
      → Outcome m (start_finish m reserved resolved input config metadata) reserved
  unfolding start_finish
  start_finish-Outcome m reserved (err e) input config metadata =
      inr (release-HasFailed (is_exception e) e m reserved)
  start_finish-Outcome m reserved (ok graph) input config metadata =
      configured-Outcome m reserved graph input (run_config reserved.thread_id config metadata)

  pub start_begin_refused :
      (m m' : Manager G) (thread_id assistant_id run_id : String) (e : Failure)
      → start_begin m thread_id assistant_id run_id ≡ (err e, m')
      → m ≡ m'
  unfolding start_begin
  start_begin_refused m m' thread_id assistant_id run_id e h = ground arith

  -- With the slot reserved, or refused, the rest of a start comes to `Done`, or has failed.
  pub reserved-HasFailed :
      (Done : Result String × Manager G → ActiveRun → Type 0) (m : Manager G)
      (thread_id assistant_id run_id : String)
      (rest : ActiveRun → Manager G → Result String × Manager G)
      → ((n : Manager G) (run : ActiveRun)
          → Done (rest run n) run ⊎ HasFailed n (rest run n) run.thread_id)
      → (p : Result ActiveRun × Manager G) → start_begin m thread_id assistant_id run_id ≡ p
      → (after : Result String × Manager G)
      → (elim p.0 [ err e ↦ (err e, p.1) | ok run ↦ rest run p.1 ]) ≡ after
      → Done after (reservation m thread_id assistant_id run_id) ⊎ HasFailed m after thread_id
  reserved-HasFailed Done m thread_id assistant_id run_id rest sure (err e, n) h after made =
      let same = start_begin_refused m n thread_id assistant_id run_id e h in
      subst (λ q. Done q (reservation m thread_id assistant_id run_id) ⊎ HasFailed m q thread_id)
        made
        (inr (
          (e, refl),
          sym (ap (λ (k : Manager G). k.pending_inputs) same),
          sym (ap (λ (k : Manager G). k.last_assistants) same),
          subst (λ k. IsKept m k thread_id) same (same-IsKept m thread_id),
        ))
  reserved-HasFailed Done m thread_id assistant_id run_id rest sure (ok run, n) h after made =
      let (same, left, idle) = start_begin_taken m n run thread_id assistant_id run_id h in
      let reserved = reservation m thread_id assistant_id run_id in
      let outcome : Done after reserved ⊎ HasFailed (reserve m reserved) after thread_id =
        subst (λ q. Done q reserved ⊎ HasFailed (reserve m reserved) q thread_id)
          (ap (rest reserved) left ∙ ap (λ r. rest r n) same ∙ made)
          (sure (reserve m reserved) reserved) in
      elim (outcome) [
        | inl done ↦ inl done
        | inr (e, p, q, kept) ↦ inr (e, p, q, reserve-IsKept m after.1 reserved refl kept)
      ]

  started-elim :
      (registry : AgentRegistry G) (input : Input) (config : Option Fields) (metadata : Value)
      (p : Result ActiveRun × Manager G)
      → (elim p.0 [
        | err e ↦ (err e, p.1)
        | ok run ↦
            start_finish p.1 run
              (resolve registry run.assistant_id (config_value config))
              input
              config
              metadata
      ])
        ≡ started registry input config metadata p
  started-elim registry input config metadata (err e, n) = refl
  started-elim registry input config metadata (ok run, n) = refl

  -- Every start has started its run, or has failed.
  pub start-Outcome :
      (registry : AgentRegistry G) (m : Manager G) (thread_id assistant_id run_id : String)
      (input : Input) (config : Option Fields) (metadata : Value)
      → Outcome m
          (start registry m thread_id assistant_id run_id input config metadata)
          (reservation m thread_id assistant_id run_id)
  unfolding start
  start-Outcome registry m thread_id assistant_id run_id input config metadata =
      let p = start_begin m thread_id assistant_id run_id in
      reserved-HasFailed HasStarted m thread_id assistant_id run_id _
        (λ n run.
          start_finish-Outcome n run (resolve registry run.assistant_id (config_value config)) input
            config metadata)
        p refl _ (started-elim registry input config metadata p)
