-- ===== src/Threads/Refinement.antt =====
-- threads.py: what both stores promise, as a function from ids to records.
use mathlib.Core.Option
use fastapi_agent_protocol.Base.{
  String, ◌≡◌, ◌∙◌, Option, none, some, List, [], ◌∷◌, ◌==◌, if◌then◌else◌, string_eq, arith,
}
use fastapi_agent_protocol.Base.Dict.{lookup-insert, lookup-nil}
use fastapi_agent_protocol.Failure.{Result, ok}
use fastapi_agent_protocol.Value.{Value, Fields}
use fastapi_agent_protocol.Threads.{
  ThreadRecord, new_record, MemoryStore, memory_create, memory_get, memory_set_assistant, Table,
  sqlite_get,
}
use fastapi_agent_protocol.Threads.Store.{assigned, memory_get-set_assistant}
use fastapi_agent_protocol.Threads.Agreement.{
  Write, creates, sets_assistant, memory_write, memory_writes, sqlite_writes, AreSensible,
  stores_agree,
}

-- The abstract store knows nothing but what `get` answers for each id.
abbrev pub ThreadMap : Type 0
ThreadMap = String → Option ThreadRecord

-- A creation puts a record under its id, and an assignment changes the one that is there.
unfoldable pub map_write : ThreadMap → Write → ThreadMap
map_write m (creates thread_id now metadata) other =
    if other == thread_id then some (new_record thread_id now metadata) else m other
map_write m (sets_assistant thread_id assistant_id now) other =
    if other == thread_id then Option.map (assigned assistant_id now) (m thread_id) else m other

unfoldable pub map_writes : ThreadMap → List Write → ThreadMap
map_writes m [] = m
map_writes m (w ∷ ws) = map_writes (map_write m w) ws

abbrev pub no_threads : ThreadMap
no_threads thread_id = none

memory_write-map :
    (threads : MemoryStore) (m : ThreadMap) (w : Write)
    → ((id : String) → memory_get threads id ≡ m id)
    → (id : String) → memory_get (memory_write threads w) id ≡ map_write m w id
unfolding memory_write map_write memory_create memory_get memory_set_assistant
memory_write-map threads m (creates thread_id now metadata) same id =
    grind (arith, lookup-insert, same id)
memory_write-map threads m (sets_assistant thread_id assistant_id now) same id =
    grind (
      arith,
      memory_get-set_assistant threads thread_id assistant_id now id,
      same id,
      same thread_id,
    )

memory_writes-map :
    (threads : MemoryStore) (m : ThreadMap) (ws : List Write)
    → ((id : String) → memory_get threads id ≡ m id)
    → (id : String) → memory_get (memory_writes threads ws) id ≡ map_writes m ws id
unfolding memory_writes map_writes
memory_writes-map threads m [] same id = same id
memory_writes-map threads m (w ∷ ws) same id =
    memory_writes-map (memory_write threads w) (map_write m w) ws
      (memory_write-map threads m w same) id

module _ (dumps : Fields → Result String) (loads : String → Option Value) where
  -- Both stores implement the abstract one: after any calls the memory store answers `get` as the map
  -- of ids does that the calls make from nothing, and so does the SQLite store, of whose calls none
  -- has failed, if the ids of `create` are new and json reads the metadata back as they were.
  pub stores_refine :
      (ws : List Write)
      → AreSensible dumps loads [] ws
      → ((id : String) → memory_get (memory_writes [] ws) id ≡ map_writes no_threads ws id)
        × ((table : Table) × (sqlite_writes dumps loads [] ws ≡ ok table)
            × ((id : String) → sqlite_get dumps loads table id ≡ map_writes no_threads ws id))
  unfolding memory_get
  stores_refine ws sensible =
      let (table, done, agree) = stores_agree dumps loads ws sensible in
      let mapped = memory_writes-map [] no_threads ws (λ id. lookup-nil id) in
      (mapped, (table, done, λ id. agree id ∙ mapped id))
