-- ===== src/Threads.antt =====
-- src/fastapi_agent_protocol/threads.py: the memory and the SQLite thread store. The id and the time
-- that `create` gets from `uuid7` and `utcnow` are arguments. `dumps` and `loads` are json's, with
-- `none` for a text that is not JSON. SQLite's table is a dict by its primary key: an INSERT of a
-- known key is refused, an UPDATE of an unknown one changes nothing.
pub mod Agreement
pub mod Store
pub mod Refinement
use fastapi_agent_protocol.Base.{
  String, Bool, true, false, Option, none, some, List, [], ◌∷◌, if◌then◌else◌, string_eq,
}
use fastapi_agent_protocol.Base.Dict
use fastapi_agent_protocol.Base.Dict.{Dict}
use fastapi_agent_protocol.Failure.{Result, ok, err, raised, ◌>>=◌}
use fastapi_agent_protocol.Value.{Value, dict, Fields, end, text_truthy}

pub record ThreadRecord : Type 0 where
  pub thread_id : String
  pub metadata : Fields
  pub assistant_id : Option String
  pub created_at : String
  pub updated_at : String

-- `dict(metadata or {})`
abbrev pub metadata_or_empty : Option Fields → Fields
metadata_or_empty none = end
metadata_or_empty (some fs) = fs

-- The record that both `create` make.
unfoldable pub new_record : String → String → Option Fields → ThreadRecord
new_record thread_id now metadata = record {
  thread_id = thread_id;
  metadata = metadata_or_empty metadata;
  assistant_id = none;
  created_at = now;
  updated_at = now;
}

-- `MemoryThreadStore`
abbrev pub MemoryStore : Type 0
MemoryStore = Dict String ThreadRecord

-- `memory()`
abbrev pub memory_store : MemoryStore
memory_store = []

unfoldable pub memory_create :
    MemoryStore → String → String → Option Fields → MemoryStore × ThreadRecord
memory_create threads thread_id now metadata =
    let made = new_record thread_id now metadata in (Dict.insert thread_id made threads, made)

unfoldable pub memory_get : MemoryStore → String → Option ThreadRecord
memory_get threads thread_id = Dict.lookup thread_id threads

unfoldable pub memory_set_assistant : MemoryStore → String → String → String → MemoryStore
memory_set_assistant threads thread_id assistant_id now = elim (Dict.lookup thread_id threads) [
  | none ↦ threads
  | some found ↦
      Dict.insert thread_id (record found { assistant_id = some assistant_id; updated_at = now })
        threads
]

-- A row of `threads`, its key being `thread_id`.
pub record Row : Type 0 where
  pub metadata_json : String
  pub assistant_id : Option String
  pub created_at : String
  pub updated_at : String

abbrev pub Table : Type 0
Table = Dict String Row

module _ (dumps : Fields → Result String) (loads : String → Option Value) where
  -- The INSERT
  abbrev pub insert_row : Table → String → Row → Result Table
  insert_row table thread_id row = elim (Dict.lookup thread_id table) [
    | none ↦ ok (Dict.insert thread_id row table)
    | some _ ↦ err (raised "IntegrityError" "UNIQUE constraint failed: threads.thread_id")
  ]

  unfoldable pub sqlite_create :
      Table → String → String → Option Fields → Result (Table × ThreadRecord)
  sqlite_create table thread_id now metadata = do
    let made = new_record thread_id now metadata
    metadata_json ← dumps made.metadata
    table' ← insert_row table thread_id (record {
      metadata_json = metadata_json;
      assistant_id = none;
      created_at = now;
      updated_at = now;
    })
    ok (table', made)

  abbrev pub dict_or_empty : Option Value → Fields
  dict_or_empty (some (dict fs)) = fs
  dict_or_empty _ = end

  -- The metadata of a row, empty if its text is empty, no JSON or no object.
  unfoldable pub read_metadata : String → Fields
  read_metadata metadata_json =
      if text_truthy metadata_json then dict_or_empty (loads metadata_json) else end

  abbrev pub record_of : String → Row → ThreadRecord
  record_of thread_id row = record {
    thread_id = thread_id;
    metadata = read_metadata row.metadata_json;
    assistant_id = row.assistant_id;
    created_at = row.created_at;
    updated_at = row.updated_at;
  }

  unfoldable pub sqlite_get : Table → String → Option ThreadRecord
  sqlite_get table thread_id = elim (Dict.lookup thread_id table) [
    | none ↦ none
    | some row ↦ some (record_of thread_id row)
  ]

  -- The UPDATE
  unfoldable pub sqlite_set_assistant : Table → String → String → String → Table
  sqlite_set_assistant table thread_id assistant_id now = elim (Dict.lookup thread_id table) [
    | none ↦ table
    | some row ↦
        Dict.insert thread_id (record row { assistant_id = some assistant_id; updated_at = now })
          table
  ]
