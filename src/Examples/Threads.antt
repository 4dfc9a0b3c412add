-- ===== src/Examples/Threads.antt =====
-- threads.py: the two stores at concrete calls.
use fastapi_agent_protocol.Base.{String, ◌≡◌, refl, Option, none, some, List, [], ◌∷◌, string_eq}
use fastapi_agent_protocol.Base.Dict
use fastapi_agent_protocol.Base.Dict.{Dict}
use fastapi_agent_protocol.Failure.{Result, ok}
use fastapi_agent_protocol.Value.{Value, dict, Fields, end}
use fastapi_agent_protocol.Threads.{
  Table, memory_get, memory_create, memory_set_assistant, sqlite_get, new_record,
}
use fastapi_agent_protocol.Threads.Refinement.{map_writes, no_threads, stores_refine}
use fastapi_agent_protocol.Threads.Agreement.{
  Write, creates, sets_assistant, memory_write, memory_writes, sqlite_writes,
}

-- A codec for the metadata of these examples, which are empty.
abbrev dumps : Fields → Result String
dumps fs = ok "{}"

abbrev loads : String → Option Value
loads s = some (dict end)

abbrev writes : List Write
writes =
    creates "t1" "monday" none
    ∷ creates "t2" "tuesday" none
    ∷ sets_assistant "t1" "beta" "friday"
    ∷ sets_assistant "t3" "beta" "friday"
    ∷ []

memory_get-writes :
    memory_get (memory_writes [] writes) "t1"
    ≡ some (record {
      thread_id = "t1";
      metadata = end;
      assistant_id = some "beta";
      created_at = "monday";
      updated_at = "friday";
    })
unfolding memory_get memory_writes memory_write memory_create memory_set_assistant new_record
    Dict.lookup Dict.insert string_eq
memory_get-writes = refl

stores_refine_example :
    ((id : String) → memory_get (memory_writes [] writes) id ≡ map_writes no_threads writes id)
    × ((table : Table) × (sqlite_writes dumps loads [] writes ≡ ok table)
        × ((id : String) → sqlite_get dumps loads table id ≡ map_writes no_threads writes id))
unfolding memory_get memory_write memory_create memory_set_assistant new_record Dict.lookup
    Dict.insert string_eq
stores_refine_example =
    stores_refine dumps loads writes
      (refl, ("{}", refl, refl, refl), (refl, ("{}", refl, refl, refl), tt))
