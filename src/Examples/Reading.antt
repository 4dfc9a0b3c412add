-- ===== src/Examples/Reading.antt =====
-- state.py and uuid7.py: histories, states and ids at concrete inputs.
use mathlib.Core.List.{reverse}
use fastapi_agent_protocol.Base.{
  ℕ, String, ◌≡◌, refl, true, ◌+◌, ◌*◌, ◌/◌, ◌%◌, ◌^◌, Option, none, some, List, [], ◌∷◌, ◌++◌,
  string_eq, if◌then◌else◌, length, get_elem?, get_or, take, drop, All, arith,
}
use fastapi_agent_protocol.Base.Int.{pos}
use fastapi_agent_protocol.Base.Dict
use fastapi_agent_protocol.Base.Dict.{Dict, keys}
use fastapi_agent_protocol.Failure.{ok, err}
use fastapi_agent_protocol.Value.{Value, int, str, list, dict, nil, cons, Fields, end, field}
use fastapi_agent_protocol.History.{
  PendingWrite, CheckpointTuple, is_reserved, apply_write, apply_writes, reconstruct, snapshot_of,
  entry_of, history_of,
}
use fastapi_agent_protocol.History.Snapshots.{all_writes, history_of-entry}
use fastapi_agent_protocol.History.Channels.{
  values_for, channel_after, no_extend, lookup-apply_writes, history_of-mixed,
}
use fastapi_agent_protocol.Uuid7.{from_bytes, uuid7_bytes}
use fastapi_agent_protocol.Uuid7.Layout.{
  IsByte, random_12, random_14, sorts_before, uuid7_bytes_fields, uuid7_bytes_bounds,
  uuid7_bytes_sorted,
}

abbrev no_message : Value → Option (Fields × Value)
no_message v = none

abbrev repr : Value → String
repr v = "object"

-- Two checkpoints, each with a write to the channel "n".
abbrev wrote : String → Value → CheckpointTuple
wrote id v = record {
  configurable = field "checkpoint_id" (str id) end;
  pending_writes = record { channel = "n"; value = v } ∷ [];
  metadata = dict end;
}

abbrev entries : List Fields
entries =
    entry_of no_message repr (
      snapshot_of (wrote "c2" (list (cons (int (pos 2)) nil)))
        (("n", list (cons (int (pos 1)) (cons (int (pos 2)) nil))) ∷ []))
    ∷ entry_of no_message repr (
        snapshot_of (wrote "c1" (list (cons (int (pos 1)) nil)))
          (("n", list (cons (int (pos 1)) nil)) ∷ []))
    ∷ []

history_of-entry_example :
    (values : Dict String Value) × (apply_writes [] (
        all_writes (reverse (wrote "c1" (list (cons (int (pos 1)) nil)) ∷ []))
        ++ record { channel = "n"; value = list (cons (int (pos 2)) nil) } ∷ [])
      ≡ ok values)
    × (get_elem? entries 0
        ≡ some (
            entry_of no_message repr
              (snapshot_of (wrote "c2" (list (cons (int (pos 2)) nil))) values)))
    × (length entries ≡ 2)
unfolding history_of reconstruct apply_writes apply_write is_reserved Dict.lookup Dict.insert
    string_eq
history_of-entry_example =
    history_of-entry no_message repr [] (wrote "c1" (list (cons (int (pos 1)) nil)) ∷ [])
      (wrote "c2" (list (cons (int (pos 2)) nil))) entries refl

abbrev writes : List PendingWrite
writes =
    record { channel = "n"; value = list (cons (int (pos 1)) nil) }
    ∷ record { channel = "other"; value = int (pos 5) }
    ∷ record { channel = "n"; value = list (cons (int (pos 2)) nil) }
    ∷ []

abbrev no_values : Dict String Value
no_values = []

lookup-apply_writes_example :
    (if is_reserved "n"
      then ok (Dict.lookup {K = String} "n" no_values)
      else channel_after (Dict.lookup {K = String} "n" no_values) (values_for "n" writes))
    ≡ ok (
        Dict.lookup {K = String} "n"
          (("n", list (cons (int (pos 1)) (cons (int (pos 2)) nil))) ∷ ("other", int (pos 5)) ∷ []))
unfolding apply_writes apply_write is_reserved Dict.lookup Dict.insert string_eq
lookup-apply_writes_example =
    lookup-apply_writes "n" []
      (("n", list (cons (int (pos 1)) (cons (int (pos 2)) nil))) ∷ ("other", int (pos 5)) ∷ [])
      writes refl

history_of-mixed_example :
    history_of no_message repr
      (wrote "c2" (list (cons (int (pos 2)) nil)) ∷ wrote "c1" (int (pos 1)) ∷ [])
    ≡ err no_extend
unfolding apply_writes apply_write is_reserved Dict.lookup Dict.insert string_eq
history_of-mixed_example =
    history_of-mixed no_message repr
      (wrote "c2" (list (cons (int (pos 2)) nil)) ∷ wrote "c1" (int (pos 1)) ∷ [])
      (("n", int (pos 1)) ∷ []) (record { channel = "n"; value = int (pos 1) } ∷ []) [] "n"
      (int (pos 1)) (cons (int (pos 2)) nil) refl refl refl refl refl

abbrev raw : List ℕ
raw = 1 ∷ 2 ∷ 3 ∷ 4 ∷ 5 ∷ 6 ∷ 7 ∷ 8 ∷ 9 ∷ 10 ∷ 11 ∷ 12 ∷ 13 ∷ 14 ∷ 15 ∷ 16 ∷ []

uuid7_bytes_fields_example :
    (id : List ℕ) × (uuid7_bytes 1000000 raw ≡ ok id)
    × (from_bytes 0 (take 6 id) ≡ 1000000 % 2 ^ 48)
    × (get_or id 6 0 / 2 ^ 4 ≡ 7)
    × (get_or id 6 0 % 2 ^ 4 * 2 ^ 8 + get_or id 7 0 ≡ random_12 raw)
    × (get_or id 8 0 / 2 ^ 6 ≡ 2)
    × (get_or id 8 0 % 2 ^ 6 * 2 ^ 8 + get_or id 9 0 ≡ random_14 raw)
    × (drop 10 id ≡ drop 10 raw)
uuid7_bytes_fields_example = uuid7_bytes_fields 1000000 raw

uuid7_bytes_bounds_example :
    (id : List ℕ) × (uuid7_bytes 1000000 raw ≡ ok id) × (length id ≡ 16) × All IsByte id
uuid7_bytes_bounds_example = uuid7_bytes_bounds 1000000 raw refl (ground arith)

uuid7_bytes_sorted_example :
    (id later : List ℕ) × (uuid7_bytes 1000000 raw ≡ ok id)
    × (uuid7_bytes 1000001 raw ≡ ok later)
    × (sorts_before id later ≡ true)
uuid7_bytes_sorted_example = uuid7_bytes_sorted 1000000 1000001 raw raw (omega arith) (omega arith)
