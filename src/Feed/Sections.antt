-- ===== src/Feed/Sections.antt =====
-- runner.py: a thread's log as the outputs of whole runs, and those of its unfinished task so far.
use fastapi_agent_protocol.Base.{
  ℕ, String, ◌≡◌, ◌⊎◌, inl, inr, refl, sym, ap, ◌∙◌, true, false, Option, some, List, [], ◌∷◌, ◌++◌,
  append_assoc, arith, nat_eq, string_eq, All, Bool-cases,
}
use fastapi_agent_protocol.Base.Dict
use fastapi_agent_protocol.Base.Dict.{Dict, lookup-insert}
use fastapi_agent_protocol.Value.{Value, Fields}
use fastapi_agent_protocol.Manager.{Task, Manager}
use fastapi_agent_protocol.Execution.{Output}
use fastapi_agent_protocol.Feed.{IsRun}
use fastapi_agent_protocol.Feed.Same.{IsSame}

abbrev pub joined : List (List Output) → List Output
joined [] = []
joined (run ∷ runs) = run ++ joined runs

pub joined-append : (xs ys : List (List Output)) → joined (xs ++ ys) ≡ joined xs ++ joined ys
joined-append [] ys = refl
joined-append (x ∷ xs) ys =
    ap (λ r. x ++ r) (joined-append xs ys) ∙ sym (append_assoc x (joined xs) (joined ys))

module _ {G : Type 0} (loads : String → Option Value) (repr : Value → String)
    (message_to_dict : Value → Option (Fields × Value)) where
  -- The thread has no task that is not done, or it has one, which completes `partial` to a run.
  abbrev pub IsUnder : Manager G → Dict ℕ (List Output) → String → List Output → Type 0
  IsUnder m rest thread_id partial =
      (((n : ℕ) (task : Task G)
          → Dict.lookup n m.tasks ≡ some task
          → task.thread_id ≡ thread_id
          → task.done ≡ true)
        × (partial ≡ []))
      ⊎ ((n : ℕ) × (task : Task G) × (later : List Output) × (Dict.lookup n m.tasks ≡ some task)
          × (task.thread_id ≡ thread_id)
          × (task.done ≡ false)
          × (Dict.lookup n rest ≡ some later)
          × IsRun loads repr message_to_dict (partial ++ later))

  -- `log` is whole runs, and then what the unfinished task has published.
  abbrev pub InSections : Manager G → Dict ℕ (List Output) → String → List Output → Type 0
  InSections m rest thread_id log =
      (runs : List (List Output)) × (partial : List Output) × (log ≡ joined runs ++ partial)
      × All (IsRun loads repr message_to_dict) runs
      × IsUnder m rest thread_id partial

  pub IsUnder-Same :
      (m m' : Manager G) (rest : Dict ℕ (List Output)) (thread_id : String) (partial : List Output)
      → IsSame m m'
      → IsUnder m rest thread_id partial
      → IsUnder m' rest thread_id partial
  IsUnder-Same m m' rest thread_id partial (kept, back) (inl (idle, empty)) = inl (
    (λ n task found on.
        let (old, o, e, d, a) = kept n task found in
        elim (Bool-cases task.done) [
          | inl over ↦ over
          | inr busy ↦ absurd (grind (arith, idle n old o, e, on, d busy))
        ]),
    empty,
  )
  IsUnder-Same m m' rest thread_id partial (kept, back)
        (inr (n, task, later, found, on, busy, left, run)) =
      let (new, o, e, d, a) = back n task found in
      inr (n, new, later, o, grind (arith, e, on), d busy, left, run)
