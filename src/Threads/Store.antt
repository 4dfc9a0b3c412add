-- ===== src/Threads/Store.antt =====
-- threads.py: the `ThreadStore` protocol, and the two stores as implementations of it.
use mathlib.Core.Option
use fastapi_agent_protocol.Base.{
  String, ◌≡◌, false, Option, some, arith, if◌then◌else◌, ◌==◌, string_eq,
}
use fastapi_agent_protocol.Base.Dict.{lookup-insert}
use fastapi_agent_protocol.Failure.{Result, ok}
use fastapi_agent_protocol.Value.{Value, Fields}
use fastapi_agent_protocol.Threads.{
  ThreadRecord, MemoryStore, memory_create, memory_get, memory_set_assistant, Table, sqlite_create,
  sqlite_get, sqlite_set_assistant,
}

-- The record that `set_assistant` makes of one that is there.
abbrev pub assigned : String → String → ThreadRecord → ThreadRecord
assigned assistant_id now r = record r { assistant_id = some assistant_id; updated_at = now }

-- What the routes need of a store: its operations, that `set_assistant` shows in `get`, and that
-- `create` leaves the other threads.
pub record ThreadStore (S : Type 0) : Type 0 where
  pub create : S → String → String → Option Fields → Result (S × ThreadRecord)
  pub get : S → String → Option ThreadRecord
  pub set_assistant : S → String → String → String → S
  pub get-set_assistant :
      (s : S) (thread_id assistant_id now other : String)
      → get (set_assistant s thread_id assistant_id now) other ≡ (
          if other == thread_id
          then Option.map (assigned assistant_id now) (get s thread_id)
          else get s other)
  pub get-create :
      (s : S) (thread_id now other : String) (metadata : Option Fields) (made : S × ThreadRecord)
      → create s thread_id now metadata ≡ ok made
      → (other == thread_id) ≡ false
      → get made.0 other ≡ get s other

pub memory_get-set_assistant :
    (s : MemoryStore) (thread_id assistant_id now other : String)
    → memory_get (memory_set_assistant s thread_id assistant_id now) other ≡ (
        if other == thread_id
        then Option.map (assigned assistant_id now) (memory_get s thread_id)
        else memory_get s other)
unfolding memory_get memory_set_assistant
memory_get-set_assistant s thread_id assistant_id now other = grind (arith, lookup-insert)

pub memory_get-create :
    (s : MemoryStore) (thread_id now other : String) (metadata : Option Fields)
    (made : MemoryStore × ThreadRecord)
    → ◌≡◌ {A = Result (MemoryStore × ThreadRecord)}
        (ok (memory_create s thread_id now metadata))
        (ok made)
    → (other == thread_id) ≡ false
    → memory_get made.0 other ≡ memory_get s other
unfolding memory_get memory_create
memory_get-create s thread_id now other metadata made h apart = grind (arith, lookup-insert)

unfoldable pub memory : ThreadStore MemoryStore
memory = record {
  create = λ s thread_id now metadata. ok (memory_create s thread_id now metadata);
  get = memory_get;
  set_assistant = memory_set_assistant;
  get-set_assistant = memory_get-set_assistant;
  get-create = memory_get-create;
}

module _ (dumps : Fields → Result String) (loads : String → Option Value) where
  pub sqlite_get-set_assistant :
      (s : Table) (thread_id assistant_id now other : String)
      → sqlite_get dumps loads (sqlite_set_assistant dumps loads s thread_id assistant_id now) other
        ≡ (if other == thread_id
            then Option.map (assigned assistant_id now) (sqlite_get dumps loads s thread_id)
            else sqlite_get dumps loads s other)
  unfolding sqlite_get sqlite_set_assistant
  sqlite_get-set_assistant s thread_id assistant_id now other = grind (arith, lookup-insert)

  pub sqlite_get-create :
      (s : Table) (thread_id now other : String) (metadata : Option Fields)
      (made : Table × ThreadRecord)
      → sqlite_create dumps loads s thread_id now metadata ≡ ok made
      → (other == thread_id) ≡ false
      → sqlite_get dumps loads made.0 other ≡ sqlite_get dumps loads s other
  unfolding sqlite_get sqlite_create
  sqlite_get-create s thread_id now other metadata made h apart = grind (arith, lookup-insert)

  unfoldable pub sqlite : ThreadStore Table
  sqlite = record {
    create = sqlite_create dumps loads;
    get = sqlite_get dumps loads;
    set_assistant = sqlite_set_assistant dumps loads;
    get-set_assistant = sqlite_get-set_assistant;
    get-create = sqlite_get-create;
  }
