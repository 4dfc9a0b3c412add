-- ===== src/Examples/Paging.antt =====
-- router.py and state.py: a page of the history at concrete inputs. Graphs are numbers here.
use fastapi_agent_protocol.Base.{
  ℕ, zero, suc, ◌≤◌, String, ◌≡◌, ap, subst, Option, none, some, List, [], ◌∷◌, take, length, arith,
}
use fastapi_agent_protocol.Base.Int.{pos, to_nat}
use fastapi_agent_protocol.Failure.{Result, ok, err, raised}
use fastapi_agent_protocol.Value.{null, int, str, dict, Fields, end, field}
use fastapi_agent_protocol.Manager.{new_manager}
use fastapi_agent_protocol.History.{CheckpointTuple}
use fastapi_agent_protocol.Threads.{ThreadRecord, MemoryStore}
use fastapi_agent_protocol.Threads.Store.{memory}
use fastapi_agent_protocol.Router.{Libraries, Server, history, search_history, get_history}
use fastapi_agent_protocol.Router.Searching.{query_body, search_history-get_history}
use fastapi_agent_protocol.Router.Paging.{IsPage, history-IsPage}

abbrev checkpoint : String → CheckpointTuple
checkpoint id = record {
  configurable = field "checkpoint_id" (str id) end;
  pending_writes = record { channel = "n"; value = int (pos 1) } ∷ [];
  metadata = dict end;
}

abbrev checkpoints : List CheckpointTuple
checkpoints = checkpoint "c3" ∷ checkpoint "c2" ∷ checkpoint "c1" ∷ []

abbrev list_checkpoints : Option Fields → ℕ → Result (List CheckpointTuple)
list_checkpoints before limit = ok (take limit checkpoints)

abbrev libraries : Libraries ℕ
libraries = record {
  aget_state = λ graph configurable. err (raised "ValueError" "no state");
  alist = λ graph. some list_checkpoints;
  isoformat = λ v. "";
  message_to_dict = λ v. none;
  repr = λ v. "object";
}

length-take : (n : ℕ) (ts : List CheckpointTuple) → length (take n ts) ≤ n
length-take zero ts = omega arith
length-take (suc n) [] = omega arith
length-take (suc n) (t ∷ ts) = omega (arith, length-take n ts)

-- The checkpointer of these examples keeps to its limit.
libraries-keep_limit :
    (graph : ℕ) (alist : Option Fields → ℕ → Result (List CheckpointTuple)) (before : Option Fields)
    (limit : ℕ) (tuples : List CheckpointTuple)
    → libraries.alist graph ≡ some alist
    → alist before limit ≡ ok tuples
    → length tuples ≤ limit
libraries-keep_limit graph alist before limit tuples own listed =
    let same : list_checkpoints ≡ alist = cc in
    let page : take limit checkpoints ≡ tuples = cc (
      ap (λ (f : Option Fields → ℕ → Result (List CheckpointTuple)). f before limit) same,
      listed,
    ) in
    subst (λ ts. length ts ≤ limit) page (length-take limit checkpoints)

abbrev thread : ThreadRecord
thread = record {
  thread_id = "t";
  metadata = end;
  assistant_id = some "beta";
  created_at = "monday";
  updated_at = "friday";
}

abbrev server : Server ℕ MemoryStore
server = record {
  registry = record { factories = ("beta", λ config. ok 2) ∷ [] };
  manager = new_manager;
  threads = ("t", thread) ∷ [];
}

history-IsPage_example : IsPage (to_nat (pos 2)) (history memory libraries server "t" (pos 2) null)
history-IsPage_example =
    history-IsPage memory libraries libraries-keep_limit server "t" (pos 2) null

search_history-get_history_example :
    search_history memory libraries server (some (dict (query_body (some (pos 2)) (some "c3")))) "t"
    ≡ get_history memory libraries server "t" (some (pos 2)) (some "c3")
search_history-get_history_example =
    search_history-get_history memory libraries server "t" (some (pos 2)) (some "c3")
