-- ===== src/ThreadState.antt =====
-- src/fastapi_agent_protocol/state.py: `empty_state` and `read_thread_state`. The snapshot that
-- `aget_state` returns is another library's; what the code reads of it by `getattr` is a field here,
-- null or empty where an attribute is missing. `isoformat` is that of `datetime`.
use fastapi_agent_protocol.Base.{String, Option, List, map, if◌then◌else◌}
use fastapi_agent_protocol.Value.{
  Value, null, str, list, dict, Items, nil, Fields, end, field, of_list, truthy, get_field,
  get_or_null,
}
use fastapi_agent_protocol.Serialize.{to_jsonable, serialize_values}
use fastapi_agent_protocol.History.{namespace_of}

pub record Interrupt : Type 0 where
  pub id : Value
  pub value : Value

pub record SnapshotTask : Type 0 where
  pub id : Value
  pub name : Value
  pub path : Items
  pub error : Value
  pub interrupts : List Interrupt

-- A `StateSnapshot`. `created_at` is a text, a `datetime`, which is an object, or null.
pub record StateSnapshot : Type 0 where
  pub values : Fields
  pub next : Items
  pub tasks : List SnapshotTask
  pub metadata : Value
  pub created_at : Value
  pub interrupts : List Interrupt

unfoldable pub empty_state : String → Fields
empty_state thread_id = field "values" (dict end) (
    field "next" (list nil) (
      field "tasks" (list nil) (
        field "metadata" (dict end) (
          field "created_at" null (
            field "checkpoint"
              (dict (
                field "checkpoint_id" null
                  (field "thread_id" (str thread_id) (field "checkpoint_ns" (str "") end))))
              (field "parent_checkpoint" null (
                field "interrupts" (list nil)
                  (field "checkpoint_id" null (field "parent_checkpoint_id" null end)))))))))

unfoldable pub interrupt_dict : Interrupt → Value
interrupt_dict i = dict (field "id" i.id (field "value" (to_jsonable i.value) end))

unfoldable pub task_dict : SnapshotTask → Value
unfolding interrupt_dict
task_dict task = dict (
    field "id" task.id (
      field "name" task.name (
        field "path" (list task.path) (
          field "error" (to_jsonable task.error)
            (field "interrupts" (list (of_list (map interrupt_dict task.interrupts))) end)))))

module _ (isoformat : Value → String) where
  unfoldable pub created_at_of : Value → Value
  created_at_of (str s) = str s
  created_at_of v = if truthy v then str (isoformat v) else null

  module _ (message_to_dict : Value → Option (Fields × Value)) (repr : Value → String) where
    -- `read_thread_state`, from what `aget_state` returned; `configurable` is that of the config.
    unfoldable pub read_thread_state : StateSnapshot → Fields → Fields
    read_thread_state snapshot configurable =
        field "values" (dict (serialize_values message_to_dict repr snapshot.values)) (
          field "next" (list snapshot.next) (
            field "tasks" (list (of_list (map task_dict snapshot.tasks))) (
              field "metadata" snapshot.metadata (
                field "created_at" (created_at_of snapshot.created_at) (
                  field "checkpoint"
                    (dict (
                      field "checkpoint_id" (get_or_null "checkpoint_id" configurable) (
                        field "thread_id" (get_or_null "thread_id" configurable) (
                          field "checkpoint_ns"
                            (namespace_of (get_field "checkpoint_ns" configurable)) end))))
                    (field "parent_checkpoint" null (
                      field "interrupts" (list (of_list (map interrupt_dict snapshot.interrupts))) (
                        field "checkpoint_id" (get_or_null "checkpoint_id" configurable)
                          (field "parent_checkpoint_id" null end)))))))))
