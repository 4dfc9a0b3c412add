-- ===== src/Router/Searching.antt =====
-- router.py: the two routes that ask for a page of the history.
use fastapi_agent_protocol.Base.{String, ◌≡◌, refl, Option, none, some, string_eq}
use fastapi_agent_protocol.Base.Dict
use fastapi_agent_protocol.Base.Int.{ℤ}
use fastapi_agent_protocol.Value.{int, str, dict, Fields, end, field, get_or_null, get_field}
use fastapi_agent_protocol.Threads.Store.{ThreadStore}
use fastapi_agent_protocol.Router.{Libraries, Server, get_history, search_history, int_of}

-- The body that asks for what the query parameters ask for.
abbrev pub query_body : Option ℤ → Option String → Fields
query_body none none = end
query_body none (some before) = field "before" (str before) end
query_body (some limit) none = field "limit" (int limit) end
query_body (some limit) (some before) = field "limit" (int limit) (field "before" (str before) end)

module _ {G S : Type 0} (store : ThreadStore S) (libraries : Libraries G) where
  -- The two routes answer alike: a body with the limit, the `before`, both or neither of them gets
  -- what the query parameters get.
  pub search_history-get_history :
      (server : Server G S) (thread_id : String) (limit : Option ℤ) (before : Option String)
      → search_history store libraries server (some (dict (query_body limit before))) thread_id
        ≡ get_history store libraries server thread_id limit before
  unfolding search_history get_history get_or_null get_field int_of Dict.lookup string_eq
  search_history-get_history server thread_id none none = refl
  search_history-get_history server thread_id none (some before) = refl
  search_history-get_history server thread_id (some limit) none = refl
  search_history-get_history server thread_id (some limit) (some before) = refl
