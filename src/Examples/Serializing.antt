-- ===== src/Examples/Serializing.antt =====
-- state.py: values in their wire shape, at concrete inputs.
use fastapi_agent_protocol.Base.{String, ◌≡◌, inr, refl, Option, none, some, string_eq, true, false}
use fastapi_agent_protocol.Base.Dict
use fastapi_agent_protocol.Base.Int.{pos}
use fastapi_agent_protocol.Value.{
  Value, null, int, float, keyed, pair, no_pairs, list, tuple, dict, object, cons, nil, Fields,
  Items, end, field, str, opaque, get_field,
}
use fastapi_agent_protocol.Serialize.{to_jsonable, serialize_values}
use fastapi_agent_protocol.Serialize.Json.{IsJson}
use fastapi_agent_protocol.Serialize.Messages.{AreMessages, serialize_values-AreMessages}

abbrev repr : Value → String
repr v = "object"

-- A tuple with an object, which hides an attribute, and a dict with a number as a key.
abbrev nested : Value
nested = tuple (
    cons (object "Point" (field "x" null (field "_y" (float "nan") end)))
      (cons (keyed (pair (int (pos 1)) (float "0.5") no_pairs)) nil))

nested_lem :
    to_jsonable nested
    ≡ list (
        cons
          (dict (field "x" null end))
          (cons (keyed (pair (int (pos 1)) (float "0.5") no_pairs)) nil))
unfolding to_jsonable
nested_lem = refl

-- Not so a dict with a tuple as a key: the key stays.
tuple_key_stays :
    IsJson (to_jsonable (keyed (pair (tuple nil) null no_pairs))) ≡ ((false ≡ true) × Unit × Unit)
unfolding to_jsonable IsJson
tuple_key_stays = refl

-- One message that langchain knows, and one that it does not.
abbrev known_message : Value → Option (Fields × Value)
known_message (opaque s) = some (field "content" (str s) end, str "human")
known_message _ = none

abbrev messages : Items
messages = cons (opaque "hello") (cons null nil)

abbrev state : Fields
state = field "n" (int (pos 3)) (field "messages" (tuple messages) end)

serialize_values-AreMessages_example :
    (ms : Items) × (get_field "messages" (serialize_values known_message repr state)
      ≡ some (list ms))
    × AreMessages known_message repr messages ms
unfolding get_field Dict.lookup string_eq
serialize_values-AreMessages_example =
    serialize_values-AreMessages known_message repr state messages (inr refl)
