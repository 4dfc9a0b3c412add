-- ===== src/Router/Paging.antt =====
-- router.py, `_history`, with state.py: how long a page of the history is.
use fastapi_agent_protocol.Base.{
  ℕ, zero, suc, ◌≤◌, String, ◌≡◌, ◌⊎◌, inl, inr, refl, Option, none, some, List, [], map, length,
  arith,
}
use fastapi_agent_protocol.Base.Int.{ℤ, to_nat}
use fastapi_agent_protocol.Failure.{
  Failure, unknown_assistant, run_active, unknown_interrupt, raised, cancelled, Result, ok, err,
  ◌>>=◌,
}
use fastapi_agent_protocol.Value.{Value, str, list, dict, Fields, end, field, of_list}
use fastapi_agent_protocol.History.{CheckpointTuple, history_of, read_thread_history, before_config}
use fastapi_agent_protocol.History.Snapshots.{length-history_of}
use fastapi_agent_protocol.Threads.{ThreadRecord}
use fastapi_agent_protocol.Threads.Store.{ThreadStore}
use fastapi_agent_protocol.Router.{
  Response, json, fails, Libraries, Server, not_found, thread_config, state_graph, history, page,
  history_before, history_json, graph_history, before_value, text_only,
}

-- What `_history` may answer when `n` entries are asked for: at most `n` entries, a 404, a 422 where
-- `n` is 0, or an exception.
abbrev pub IsPage : ℕ → Response → Type 0
IsPage n r =
    ((entries : List Fields) × (r ≡ json 200 (list (of_list (map dict entries))))
      × (length entries ≤ n))
    ⊎ ((r ≡ not_found)
        ⊎ (((r ≡ json 422 (dict (field "detail" (str "limit must be >= 1") end))) × (n ≡ 0))
            ⊎ ((e : Failure) × (r ≡ fails e))))

module _ {G S : Type 0} (store : ThreadStore S) (libraries : Libraries G)
    (keeps_limit : (graph : G) (alist : Option Fields → ℕ → Result (List CheckpointTuple))
        (before : Option Fields) (limit : ℕ) (tuples : List CheckpointTuple)
      → libraries.alist graph ≡ some alist
      → alist before limit ≡ ok tuples
      → length tuples ≤ limit) where
  entries-IsPage :
      (n : ℕ) (tuples : List CheckpointTuple) (entries : Result (List Fields))
      → length tuples ≤ n
      → history_of libraries.message_to_dict libraries.repr tuples ≡ entries
      → IsPage n (history_json store libraries entries)
  entries-IsPage n tuples (err e) short h = inr (inr (inr (e, refl)))
  entries-IsPage n tuples (ok entries) short h = inl (
    entries,
    refl,
    omega
        (arith, short, length-history_of libraries.message_to_dict libraries.repr tuples entries h),
  )

  tuples-IsPage :
      (n : ℕ) (tuples : Result (List CheckpointTuple))
      → ((found : List CheckpointTuple) → tuples ≡ ok found → length found ≤ n)
      → IsPage n (
          history_json store libraries
            (tuples >>= history_of libraries.message_to_dict libraries.repr))
  tuples-IsPage n (err e) short = inr (inr (inr (e, refl)))
  tuples-IsPage n (ok found) short =
      entries-IsPage n found (history_of libraries.message_to_dict libraries.repr found)
        (short found refl) refl

  read-IsPage :
      (graph : G) (thread_id : String) (n : ℕ) (before : Option String)
      (found : Option (Option Fields → ℕ → Result (List CheckpointTuple)))
      → libraries.alist graph ≡ found
      → IsPage n (
          history_json store libraries (
            read_thread_history libraries.message_to_dict libraries.repr found
              (thread_config thread_id)
              n
              before))
  unfolding read_thread_history
  read-IsPage graph thread_id n before none h = inr (inr (inr (_, refl)))
  read-IsPage graph thread_id n before (some alist) h =
      let config = before_config (thread_config thread_id) before in
      tuples-IsPage n (alist config n) (λ found. keeps_limit graph alist config n found h)

  graph_history-IsPage :
      (thread_id : String) (n : ℕ) (before : Option String) (graph : Result (Option G))
      → IsPage n (graph_history store libraries thread_id n before graph)
  graph_history-IsPage thread_id n before (err (unknown_assistant id known)) = inr (inl refl)
  graph_history-IsPage thread_id n before (err (run_active id run)) = inr (inr (inr (_, refl)))
  graph_history-IsPage thread_id n before (err (unknown_interrupt id i)) = inr (inr (inr (_, refl)))
  graph_history-IsPage thread_id n before (err (raised kind text)) = inr (inr (inr (_, refl)))
  graph_history-IsPage thread_id n before (err cancelled) = inr (inr (inr (_, refl)))
  graph_history-IsPage thread_id n before (ok none) = inl ([], refl, omega arith)
  graph_history-IsPage thread_id n before (ok (some graph)) =
      read-IsPage graph thread_id n before (libraries.alist graph) refl

  history_before-IsPage :
      (server : Server G S) (thread_id : String) (n : ℕ) (before : Result Value)
      → IsPage n (history_before store libraries server thread_id n before)
  history_before-IsPage server thread_id n (err e) = inr (inr (inr (e, refl)))
  history_before-IsPage server thread_id n (ok before) =
      graph_history-IsPage thread_id n (text_only store libraries before)
        (state_graph store libraries server thread_id)

  page-IsPage :
      (server : Server G S) (thread_id : String) (before : Value) (n : ℕ)
      → IsPage n (page store libraries server thread_id before n)
  page-IsPage server thread_id before zero = inr (inr (inl (refl, refl)))
  page-IsPage server thread_id before (suc n) =
      history_before-IsPage server thread_id (suc n) (before_value store libraries before)

  -- Whatever is asked of a thread's history, the answer is a page of at most `limit` entries, or 404,
  -- or 422 and then the limit was below 1, or an exception is raised. The checkpointer is taken to
  -- keep to the limit that it is given.
  pub history-IsPage :
      (server : Server G S) (thread_id : String) (limit : ℤ) (before : Value)
      → IsPage (to_nat limit) (history store libraries server thread_id limit before)
  unfolding history
  history-IsPage server thread_id limit before = go (store.get server.threads thread_id)
    where
      go :
          (found : Option ThreadRecord)
          → IsPage (to_nat limit) (elim found as (λ x. Response) [
            | none ↦ not_found
            | some r ↦ page store libraries server thread_id before (to_nat limit)
          ])
      go none = inr (inl refl)
      go (some r) = page-IsPage server thread_id before (to_nat limit)
