-- ===== src/Threads/Agreement.antt =====
-- threads.py: the two stores after the same calls.
use fastapi_agent_protocol.Base.{
  String, ◌≡◌, refl, ap, ◌∙◌, true, Option, none, some, List, [], ◌∷◌, arith, string_eq,
}
use fastapi_agent_protocol.Base.Dict
use fastapi_agent_protocol.Base.Dict.{Dict, lookup-insert, lookup-nil}
use fastapi_agent_protocol.Failure.{Result, ok, ◌>>=◌}
use fastapi_agent_protocol.Value.{Value, dict, Fields, text_truthy}
use fastapi_agent_protocol.Threads.{
  metadata_or_empty, new_record, MemoryStore, memory_create, memory_get, memory_set_assistant,
  Table, sqlite_create, sqlite_get, sqlite_set_assistant, read_metadata,
}

-- A call that writes, with the id and the time that it gets.
pub data Write : Type 0 where
  creates : String → String → Option Fields → Write
  sets_assistant : String → String → String → Write

unfoldable pub memory_write : MemoryStore → Write → MemoryStore
memory_write threads (creates thread_id now metadata) =
    (memory_create threads thread_id now metadata).0
memory_write threads (sets_assistant thread_id assistant_id now) =
    memory_set_assistant threads thread_id assistant_id now

unfoldable pub memory_writes : MemoryStore → List Write → MemoryStore
memory_writes threads [] = threads
memory_writes threads (w ∷ ws) = memory_writes (memory_write threads w) ws

module _ (dumps : Fields → Result String) (loads : String → Option Value) where
  unfoldable pub sqlite_write : Table → Write → Result Table
  sqlite_write table (creates thread_id now metadata) = do
    made ← sqlite_create dumps loads table thread_id now metadata
    ok made.0
  sqlite_write table (sets_assistant thread_id assistant_id now) =
      ok (sqlite_set_assistant dumps loads table thread_id assistant_id now)

  unfoldable pub sqlite_writes : Table → List Write → Result Table
  sqlite_writes table [] = ok table
  sqlite_writes table (w ∷ ws) = sqlite_write table w >>= λ table'. sqlite_writes table' ws

  -- json reads the metadata back as it was.
  abbrev pub RoundTrips : Fields → Type 0
  RoundTrips fs =
      (s : String) × (dumps fs ≡ ok s) × (text_truthy s ≡ true) × (loads s ≡ some (dict fs))

  -- Each created id is a new one, and its metadata are JSON.
  abbrev pub AreSensible : MemoryStore → List Write → Type 0
  AreSensible threads [] = Unit
  AreSensible threads (creates thread_id now metadata ∷ ws) =
      (memory_get threads thread_id ≡ none)
      × RoundTrips (metadata_or_empty metadata)
      × AreSensible (memory_write threads (creates thread_id now metadata)) ws
  AreSensible threads (sets_assistant thread_id assistant_id now ∷ ws) =
      AreSensible (memory_write threads (sets_assistant thread_id assistant_id now)) ws

  abbrev Agree : MemoryStore → Table → Type 0
  Agree threads table =
      (thread_id : String) → sqlite_get dumps loads table thread_id ≡ memory_get threads thread_id

  sets-Agree :
      (threads : MemoryStore) (table : Table) (thread_id assistant_id now : String)
      → Agree threads table
      → Agree
          (memory_set_assistant threads thread_id assistant_id now)
          (sqlite_set_assistant dumps loads table thread_id assistant_id now)
  unfolding sqlite_get memory_get memory_set_assistant sqlite_set_assistant
  sets-Agree threads table thread_id assistant_id now a other =
      grind (arith, lookup-insert, a thread_id, a other)

  creates-Agree :
      (threads : MemoryStore) (table : Table) (thread_id now : String) (metadata : Option Fields)
      → Agree threads table
      → memory_get threads thread_id ≡ none
      → RoundTrips (metadata_or_empty metadata)
      → (table' : Table) × (sqlite_write table (creates thread_id now metadata) ≡ ok table')
        × Agree (memory_write threads (creates thread_id now metadata)) table'
  unfolding sqlite_get memory_get memory_create sqlite_create sqlite_write memory_write
      read_metadata new_record
  creates-Agree threads table thread_id now metadata a new (s, written, filled, readable) = (
    Dict.insert thread_id
        (record { metadata_json = s; assistant_id = none; created_at = now; updated_at = now })
        table,
    grind (arith, a thread_id, new, written),
    λ other. grind (arith, lookup-insert, a other, filled, readable),
  )

  writes-Agree :
      (threads : MemoryStore) (table : Table) (ws : List Write)
      → Agree threads table
      → AreSensible threads ws
      → (table' : Table) × (sqlite_writes table ws ≡ ok table')
        × Agree (memory_writes threads ws) table'
  unfolding sqlite_writes memory_writes memory_write sqlite_write
  writes-Agree threads table [] a h = (table, refl, a)
  writes-Agree threads table (creates thread_id now metadata ∷ ws) a (new, codec, h) =
      let (t, e, b) = creates-Agree threads table thread_id now metadata a new codec in
      let (t', e', c) =
        writes-Agree (memory_write threads (creates thread_id now metadata)) t ws b h in
      (t', ap (λ r. r >>= λ q. sqlite_writes q ws) e ∙ e', c)
  writes-Agree threads table (sets_assistant thread_id assistant_id now ∷ ws) a h =
      let (t', e', c) =
        writes-Agree (memory_write threads (sets_assistant thread_id assistant_id now))
          (sqlite_set_assistant dumps loads table thread_id assistant_id now) ws
          (sets-Agree threads table thread_id assistant_id now a) h in
      (t', e', c)

  -- After the same calls, the ids of `create` being new and json reading the metadata back as they
  -- were, no call on the SQLite store has failed, and `get` answers alike for every thread.
  pub stores_agree :
      (ws : List Write)
      → AreSensible [] ws
      → (table : Table) × (sqlite_writes [] ws ≡ ok table)
        × ((thread_id : String)
            → sqlite_get dumps loads table thread_id ≡ memory_get (memory_writes [] ws) thread_id)
  unfolding sqlite_get memory_get
  stores_agree ws h = writes-Agree [] [] ws (λ thread_id. grind (arith, lookup-nil)) h
