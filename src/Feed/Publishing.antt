-- ===== src/Feed/Publishing.antt =====
-- runner.py: what a publication, a new task and the end of a task do to the logs of the threads.
use fastapi_agent_protocol.Base.{
  ℕ, String, ◌≡◌, inl, inr, refl, sym, ap, subst, ◌∙◌, true, false, Option, some, List, [], ◌∷◌,
  ◌++◌, append-nil, append_assoc, arith, ◌==◌, nat_eq, string_eq, All-append, Bool-cases,
}
use fastapi_agent_protocol.Base.Dict
use fastapi_agent_protocol.Base.Dict.{Dict, lookup-insert, lookup-insert_self}
use fastapi_agent_protocol.Value.{Value, Fields}
use fastapi_agent_protocol.Manager.{ActiveRun, Input, Task, Manager, launch}
use fastapi_agent_protocol.Runner.{settle, settle_found}
use fastapi_agent_protocol.Runner.System.{Flight, Sound}
use fastapi_agent_protocol.Execution.{Output}
use fastapi_agent_protocol.Feed.{IsRun}
use fastapi_agent_protocol.Feed.Sections.{joined, joined-append, IsUnder, InSections}

module _ {G : Type 0} where
  -- Two tasks of a thread that are not done are one.
  pub same_task :
      (m : Manager G) (fly : Flight) (n k : ℕ) (t u : Task G)
      → Sound m fly
      → Dict.lookup n m.tasks ≡ some t
      → Dict.lookup k m.tasks ≡ some u
      → t.done ≡ false
      → u.done ≡ false
      → u.thread_id ≡ t.thread_id
      → k ≡ n
  same_task m fly n k t u s a b c d same =
      let (p, p1, p2) = s.live n t a c in
      let (q, q1, q2) = s.live k u b d in grind (arith, p1, p2, q1, q2)

  tasks-settle :
      (m : Manager G) (n : ℕ) (task : Task G)
      → Dict.lookup n m.tasks ≡ some task
      → (settle m n).tasks ≡ Dict.insert n (record task { done = true }) m.tasks
  unfolding settle
  tasks-settle m n task found = ap (settle_found m.tasks n) found

module _ {G : Type 0} (loads : String → Option Value) (repr : Value → String)
    (message_to_dict : Value → Option (Fields × Value)) (m : Manager G) (fly : Flight)
    (s : Sound m fly) (rest : Dict ℕ (List Output)) where
  pub publishes-own :
      (n : ℕ) (task : Task G) (output : Output) (later : List Output) (log : List Output)
      → Dict.lookup n m.tasks ≡ some task
      → task.done ≡ false
      → Dict.lookup n rest ≡ some (output ∷ later)
      → InSections loads repr message_to_dict m rest task.thread_id log
      → InSections loads repr message_to_dict m
          (Dict.insert n later rest)
          task.thread_id
          (log ++ output ∷ [])
  publishes-own n task output later log found busy left
        (runs, partial, is, whole, inl (idle, empty)) =
      absurd (grind (arith, idle n task found refl, busy))
  publishes-own n task output later log found busy left
        (runs, partial, is, whole, inr (k, u, ls, found', on, busy', left', run)) =
      let same : k ≡ n = same_task m fly n k task u s found found' busy busy' on in
      let all : ls ≡ output ∷ later = grind (arith, same, left, left') in
      (
        runs,
        partial ++ output ∷ [],
        ap (λ l. l ++ output ∷ []) is ∙ append_assoc (joined runs) partial (output ∷ []),
        whole,
        inr (
          n,
          task,
          later,
          found,
          refl,
          busy,
          lookup-insert_self n later rest,
          subst (IsRun loads repr message_to_dict)
              (ap (λ l. partial ++ l) all ∙ sym (append_assoc partial (output ∷ []) later)) run,
        ),
      )

  pub publishes-other :
      (n : ℕ) (task : Task G) (later : List Output) (thread_id : String) (partial : List Output)
      → Dict.lookup n m.tasks ≡ some task
      → (thread_id == task.thread_id) ≡ false
      → IsUnder loads repr message_to_dict m rest thread_id partial
      → IsUnder loads repr message_to_dict m (Dict.insert n later rest) thread_id partial
  publishes-other n task later thread_id partial found apart (inl idle) = inl idle
  publishes-other n task later thread_id partial found apart
        (inr (k, u, ls, found', on, busy, left, run)) =
      inr (k, u, ls, found', on, busy, grind (arith, lookup-insert, found, found', on), run)

  module _ (n : ℕ) (run : ActiveRun) (graph : G) (input : Input) (config : Dict String Value)
      (outputs : List Output) where
    pub launches-own :
        (log : List Output)
        → Dict.lookup n fly ≡ some run
        → IsRun loads repr message_to_dict outputs
        → InSections loads repr message_to_dict m rest run.thread_id log
        → InSections loads repr message_to_dict
            (launch m run graph input config)
            (Dict.insert m.next outputs rest)
            run.thread_id
            log
    unfolding launch
    launches-own log waiting fresh (runs, partial, is, whole, inl (idle, empty)) = (
      runs,
      partial,
      is,
      whole,
      inr (
        m.next,
        _,
        outputs,
        lookup-insert_self m.next _ m.tasks,
        refl,
        refl,
        lookup-insert_self m.next outputs rest,
        subst (λ p. IsRun loads repr message_to_dict (p ++ outputs)) (sym empty) fresh,
      ),
    )
    launches-own log waiting fresh
          (runs, partial, is, whole, inr (k, u, ls, found, on, busy, left, old)) =
        let (a, b, c) = s.flying n run waiting in
        let (p, q, r) = s.live k u found busy in absurd (grind (arith, b, c, on, q, r))

    pub launches-other :
        (thread_id : String) (partial : List Output)
        → (thread_id == run.thread_id) ≡ false
        → IsUnder loads repr message_to_dict m rest thread_id partial
        → IsUnder loads repr message_to_dict
            (launch m run graph input config)
            (Dict.insert m.next outputs rest)
            thread_id
            partial
    unfolding launch
    launches-other thread_id partial apart (inl (idle, empty)) = inl (
      (λ k u found on. elim (Bool-cases (k == m.next)) [
        | inl new ↦ absurd (grind (arith, lookup-insert))
        | inr old ↦ idle k u (grind (arith, lookup-insert)) on
      ]),
      empty,
    )
    launches-other thread_id partial apart (inr (k, u, ls, found, on, busy, left, old)) =
        let below = s.numbered k u found in
        inr (
          k,
          u,
          ls,
          grind (arith, lookup-insert, below, found),
          on,
          busy,
          grind (arith, lookup-insert, below, left),
          old,
        )

  module _ (n : ℕ) (task : Task G) (found : Dict.lookup n m.tasks ≡ some task) where
    pub settles-own :
        (log : List Output)
        → task.done ≡ false
        → Dict.lookup n rest ≡ some []
        → InSections loads repr message_to_dict m rest task.thread_id log
        → InSections loads repr message_to_dict (settle m n) rest task.thread_id log
    settles-own log busy left (runs, partial, is, whole, inl (idle, empty)) =
        absurd (grind (arith, idle n task found refl, busy))
    settles-own log busy left
          (runs, partial, is, whole, inr (k, u, ls, found', on, busy', left', run)) =
        let same : k ≡ n = same_task m fly n k task u s found found' busy busy' on in
        let all : ls ≡ [] = grind (arith, same, left, left') in
        let ended : partial ++ ls ≡ partial = ap (λ l. partial ++ l) all ∙ append-nil partial in
        (
          runs ++ partial ∷ [],
          [],
          is
              ∙ sym (
                  append-nil (joined (runs ++ partial ∷ []))
                  ∙ joined-append runs (partial ∷ [])
                  ∙ ap (λ l. joined runs ++ l) (append-nil partial)),
          All-append _ runs (partial ∷ []) whole
              (subst (IsRun loads repr message_to_dict) ended run, tt),
          inl (
            (λ j t at same_thread. elim (Bool-cases t.done) [
              | inl over ↦ over
              | inr undone ↦ elim (Bool-cases (j == n)) [
                | inl own ↦ absurd (grind (arith, lookup-insert, tasks-settle m n task found))
                | inr other ↦
                    let old : Dict.lookup j m.tasks ≡ some t =
                      grind (arith, lookup-insert, tasks-settle m n task found) in
                    let one = same_task m fly n j task t s found old busy undone same_thread in
                    absurd (grind (arith, one, other))
              ]
            ]),
            refl,
          ),
        )

    pub settles-other :
        (thread_id : String) (partial : List Output)
        → (thread_id == task.thread_id) ≡ false
        → IsUnder loads repr message_to_dict m rest thread_id partial
        → IsUnder loads repr message_to_dict (settle m n) rest thread_id partial
    settles-other thread_id partial apart (inl (idle, empty)) = inl (
      (λ k u at on. elim (Bool-cases (k == n)) [
        | inl own ↦ absurd (grind (arith, lookup-insert, tasks-settle m n task found))
        | inr other ↦ idle k u (grind (arith, lookup-insert, tasks-settle m n task found)) on
      ]),
      empty,
    )
    settles-other thread_id partial apart (inr (k, u, ls, at, on, busy, left, run)) = inr (
      k,
      u,
      ls,
      grind (arith, lookup-insert, tasks-settle m n task found, at, found, on),
      on,
      busy,
      left,
      run,
    )
