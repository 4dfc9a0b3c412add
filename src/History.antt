-- ===== src/History.antt =====
-- src/fastapi_agent_protocol/state.py: `read_thread_history`. The checkpointer is another library's:
-- `alist` is an argument, from the `before` config and the limit to the checkpoints, newest first.
pub mod Snapshots
pub mod Channels
use fastapi_agent_protocol.Base.{
  ℕ, String, ◌<>◌, Bool, true, false, ◌||◌, Option, none, some, List, [], ◌∷◌, ◌++◌, map,
  if◌then◌else◌, ◌==◌, string_eq,
}
use mathlib.Core.List.{reverse}
use text.Mathlib.Text.{starts_with}
use fastapi_agent_protocol.Base.Dict
use fastapi_agent_protocol.Base.Dict.{Dict}
use fastapi_agent_protocol.Failure.{Result, ok, err, raised, ◌>>=◌}
use fastapi_agent_protocol.Value.{
  Value, null, str, list, dict, Fields, end, field, Items, of_list, to_list, of_dict, get_field,
  get_or_null, text_truthy,
}
use fastapi_agent_protocol.Serialize.{serialize_values}

-- One of a checkpoint's `pending_writes`, without the task id, which is not read.
pub record PendingWrite : Type 0 where
  pub channel : String
  pub value : Value

-- A checkpoint tuple; `configurable` is that of its config, empty if it has none.
pub record CheckpointTuple : Type 0 where
  pub configurable : Fields
  pub pending_writes : List PendingWrite
  pub metadata : Value

-- The channels that are no part of a thread's values.
unfoldable pub is_reserved : String → Bool
is_reserved channel =
    channel == "__interrupt__"
    || channel == "__error__"
    || channel == "__resume__"
    || starts_with channel "branch:"

-- `cumulative.setdefault(channel, []).extend(value)`: a list is extended. A value of another class
-- with an `extend` of its own, as a deque, is none of these values.
abbrev pub extended : Option Value → Items → Result Value
extended none vs = ok (list vs)
extended (some (list ws)) vs = ok (list (of_list (to_list ws ++ to_list vs)))
extended (some _) vs = err (raised "AttributeError" "object has no attribute 'extend'")

-- The value of a channel after a write.
abbrev pub written : Option Value → Value → Result Value
written old (list vs) = extended old vs
written old v = ok v

abbrev pub store : Dict String Value → String → Result Value → Result (Dict String Value)
store cumulative channel (err e) = err e
store cumulative channel (ok v) = ok (Dict.insert channel v cumulative)

-- One turn of the inner loop.
unfoldable pub apply_write : Dict String Value → PendingWrite → Result (Dict String Value)
apply_write cumulative w =
    if is_reserved w.channel
    then ok cumulative
    else store cumulative w.channel (written (Dict.lookup w.channel cumulative) w.value)

unfoldable pub apply_writes : Dict String Value → List PendingWrite → Result (Dict String Value)
apply_writes cumulative [] = ok cumulative
apply_writes cumulative (w ∷ ws) = apply_write cumulative w >>= λ next. apply_writes next ws

-- What is kept of a checkpoint: its id, the values so far, its metadata.
pub record Snapshot : Type 0 where
  pub checkpoint_id : Value
  pub values : Dict String Value
  pub metadata : Value

abbrev pub snapshot_of : CheckpointTuple → Dict String Value → Snapshot
snapshot_of t values = record {
  checkpoint_id = get_or_null "checkpoint_id" t.configurable;
  values = values;
  metadata = t.metadata;
}

-- The loop over the checkpoints, oldest first.
unfoldable pub reconstruct : Dict String Value → List CheckpointTuple → Result (List Snapshot)
reconstruct cumulative [] = ok []
reconstruct cumulative (t ∷ ts) = apply_writes cumulative t.pending_writes >>= λ next.
    reconstruct next ts >>= λ rest. ok (snapshot_of t next ∷ rest)

-- `.get("checkpoint_ns", "")`
abbrev pub namespace_of : Option Value → Value
namespace_of none = str ""
namespace_of (some v) = v

-- `before_config`
unfoldable pub before_config : Fields → Option String → Option Fields
before_config configurable none = none
before_config configurable (some before) =
    if text_truthy before
    then some (
        field "configurable"
          (dict (
            field "thread_id" (get_or_null "thread_id" configurable) (
              field "checkpoint_ns" (namespace_of (get_field "checkpoint_ns" configurable))
                (field "checkpoint_id" (str before) end))))
          end)
    else none

module _ (message_to_dict : Value → Option (Fields × Value)) (repr : Value → String) where
  unfoldable pub entry_of : Snapshot → Fields
  entry_of s = field "checkpoint" (dict (field "checkpoint_id" s.checkpoint_id end)) (
      field "values" (dict (serialize_values message_to_dict repr (of_dict s.values)))
        (field "metadata" s.metadata end))

  -- What is made of the checkpoints that `alist` returns.
  unfoldable pub history_of : List CheckpointTuple → Result (List Fields)
  history_of tuples =
      reconstruct [] (reverse tuples) >>= λ snapshots. ok (map entry_of (reverse snapshots))

  -- `read_thread_history`. A graph without a checkpointer has no `alist`.
  unfoldable pub read_thread_history :
      Option (Option Fields → ℕ → Result (List CheckpointTuple))
      → Fields
      → ℕ
      → Option String
      → Result (List Fields)
  read_thread_history none configurable limit before =
      err (raised "ValueError" "No checkpointer set")
  read_thread_history (some alist) configurable limit before =
      alist (before_config configurable before) limit >>= history_of
