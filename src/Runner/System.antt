-- ===== src/Runner/System.antt =====
-- runner.py: coroutines that start, cancel and end runs in any order. A `start` that waits for its
-- graph is in flight; what runs in between is a step of the system.
use fastapi_agent_protocol.Base.{
  ℕ, ◌+◌, ◌<◌, String, ◌≡◌, refl, Bool, true, false, Option, none, some, List, [], arith,
  if◌then◌else◌, nat_eq, string_eq,
}
use fastapi_agent_protocol.Base.Dict
use fastapi_agent_protocol.Base.Dict.{Dict, lookup-insert, lookup-insert_self, lookup-erase}
use fastapi_agent_protocol.Failure.{Result, ok}
use fastapi_agent_protocol.Value.{Value, Fields}
use fastapi_agent_protocol.Manager.{
  ActiveRun, Task, Input, Manager, new_manager, active_run, start_begin, release, start_finish,
}
use fastapi_agent_protocol.Runner.{cancel, settle, register_pending}

-- The starts in flight, by the identity of their reservations.
abbrev pub Flight : Type 0
Flight = Dict ℕ ActiveRun

-- What one turn of the event loop can do to a manager.
pub data Step {G : Type 0} : Manager G → Flight → Manager G → Flight → Type 0 where
  begins :
      {m : Manager G} {fly : Flight} {m' : Manager G} (run : ActiveRun)
      (thread_id assistant_id run_id : String)
      → start_begin m thread_id assistant_id run_id ≡ (ok run, m')
      → Step m fly m' (Dict.insert run.object run fly)
  finishes :
      {m : Manager G} {fly : Flight} (n : ℕ) (run : ActiveRun) (resolved : Result G) (input : Input)
      (config : Option Fields) (metadata : Value)
      → Dict.lookup n fly ≡ some run
      → Step m fly (start_finish m run resolved input config metadata).1 (Dict.erase n fly)
  cancels :
      {m : Manager G} {fly : Flight} (thread_id : String) (run_id : Value)
      → Step m fly (cancel m thread_id run_id).1 fly
  settles : {m : Manager G} {fly : Flight} (n : ℕ) → Step m fly (settle m n) fly
  -- `_clear`, with the run that `launch` made for the task
  clears :
      {m : Manager G} {fly : Flight} (n : ℕ) (task : Task G) (run : ActiveRun)
      → Dict.lookup n m.tasks ≡ some task
      → task.done ≡ true
      → run.object ≡ n + 1
      → run.thread_id ≡ task.thread_id
      → Step m fly (release m run) fly
  -- `_register_pending`, from a task that is not done
  registers :
      {m : Manager G} {fly : Flight} (n : ℕ) (task : Task G) (interrupts : List (String × Value))
      → Dict.lookup n m.tasks ≡ some task
      → task.done ≡ false
      → Step m fly (register_pending m task.thread_id task.assistant_id interrupts) fly

pub data Reachable {G : Type 0} : Manager G → Flight → Type 0 where
  at_first : Reachable new_manager []
  after :
      {m m' : Manager G} {fly fly' : Flight}
      → Reachable m fly
      → Step m fly m' fly'
      → Reachable m' fly'

-- Every task that is not done is the run of its thread's slot, and a start in flight holds its
-- thread's slot.
pub record Sound {G : Type 0} (m : Manager G) (fly : Flight) : Type 0 where
  pub numbered : (n : ℕ) (t : Task G) → Dict.lookup n m.tasks ≡ some t → n + 1 < m.next
  pub placed :
      (thread_id : String) (run : ActiveRun)
      → active_run m thread_id ≡ some run
      → (run.object < m.next) × (run.thread_id ≡ thread_id)
  pub owned :
      (n : ℕ) (t : Task G) (thread_id : String) (run : ActiveRun)
      → Dict.lookup n m.tasks ≡ some t
      → active_run m thread_id ≡ some run
      → run.object ≡ n + 1
      → run.task ≡ some n
  pub live :
      (n : ℕ) (t : Task G)
      → Dict.lookup n m.tasks ≡ some t
      → t.done ≡ false
      → (run : ActiveRun) × (active_run m t.thread_id ≡ some run) × (run.task ≡ some n)
  pub flying :
      (n : ℕ) (run : ActiveRun)
      → Dict.lookup n fly ≡ some run
      → (run.object ≡ n) × (active_run m run.thread_id ≡ some run) × (run.task ≡ none)

module _ {G : Type 0} where
  pub new_manager-Sound : Sound {G = G} new_manager []
  unfolding active_run
  new_manager-Sound = record {
    numbered = λ n t h. grind (arith, Dict.lookup-nil);
    placed = λ s run h. grind (arith, Dict.lookup-nil);
    owned = λ n t s run h k e. grind (arith, Dict.lookup-nil);
    live = λ n t h k. grind (arith, Dict.lookup-nil);
    flying = λ n run h. grind (arith, Dict.lookup-nil);
  }

  -- The tasks of a table stand for those of another: of the same threads and assistants, and not
  -- done only if those are not.
  abbrev pub Keeps : Dict ℕ (Task G) → Dict ℕ (Task G) → Type 0
  Keeps tasks tasks' =
      (k : ℕ) (t : Task G)
      → Dict.lookup k tasks' ≡ some t
      → (old : Task G) × (Dict.lookup k tasks ≡ some old)
        × (t.thread_id ≡ old.thread_id)
        × (t.done ≡ false → old.done ≡ false)
        × (t.assistant_id ≡ old.assistant_id)

  -- Rewriting the table of tasks.
  pub tasks-Sound :
      (m : Manager G) (fly : Flight) (tasks : Dict ℕ (Task G))
      → Sound m fly
      → Keeps m.tasks tasks
      → Sound (record m { tasks = tasks }) fly
  unfolding active_run
  tasks-Sound m fly tasks s kept = record {
    numbered = λ n t h. let (old, o, e, d, a) = kept n t h in s.numbered n old o;
    placed = s.placed;
    owned = λ n t th run h a o. let (old, q, e, d, b) = kept n t h in s.owned n old th run q a o;
    live = λ n t h un.
        let (old, o, e, d, c) = kept n t h in
        let (run, a, b) = s.live n old o (d un) in (run, grind (arith), b);
    flying = s.flying;
  }

  pub if-Sound :
      (b : Bool) (one other : Manager G) (left : Flight)
      → (b ≡ true → Sound one left)
      → Sound other left
      → Sound (if b then one else other) left
  if-Sound true one other left s t = s refl
  if-Sound false one other left s t = t

  pub pick-Sound :
      {A : Type 0} (b : Bool) (x y : A) (one other : Manager G) (left : Flight)
      → Sound one left
      → Sound other left
      → Sound (if◌then◌else◌ {A = A × Manager G} b (x, one) (y, other)).1 left
  pick-Sound true x y one other left s t = s
  pick-Sound false x y one other left s t = t
