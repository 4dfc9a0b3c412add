-- ===== src/Serialize.antt =====
-- src/fastapi_agent_protocol/state.py: state values in their wire shape. `message_to_dict` is
-- langchain_core's, the `data` and the `type` that it returns, or `none` where it raises; `repr` is
-- what `str` makes of a container or an object.
pub mod Json
pub mod Messages
use fastapi_agent_protocol.Base.{
  String, Bool, true, false, Option, none, some, List, [], ◌∷◌, if◌then◌else◌, ◌==◌, string_eq,
}
use fastapi_agent_protocol.Base.Dict
use text.Mathlib.Text.{starts_with}
use fastapi_agent_protocol.PyText.{str_of}
use fastapi_agent_protocol.Value.{
  Value, null, bool, int, float, str, list, tuple, set, dict, object, opaque, Items, nil, cons,
  Fields, end, field, to_dict, of_dict, get_field, keyed, slotted, Pairs, no_pairs, pair,
}

-- `_to_jsonable`
unfoldable mutual
  pub to_jsonable : Value → Value
  to_jsonable null = null
  to_jsonable (bool b) = bool b
  to_jsonable (int n) = int n
  to_jsonable (float s) = float s
  to_jsonable (str s) = str s
  to_jsonable (list vs) = list (items_to_jsonable vs)
  to_jsonable (tuple vs) = list (items_to_jsonable vs)
  to_jsonable (set vs) = list (items_to_jsonable vs)
  to_jsonable (dict fs) = dict (fields_to_jsonable fs)
  to_jsonable (object name fs) = dict (attributes_to_jsonable fs)
  to_jsonable (keyed ps) = keyed (pairs_to_jsonable ps)
  to_jsonable (slotted s fs) = str s
  to_jsonable (opaque s) = str s

  pub items_to_jsonable : Items → Items
  items_to_jsonable nil = nil
  items_to_jsonable (cons v vs) = cons (to_jsonable v) (items_to_jsonable vs)

  pub fields_to_jsonable : Fields → Fields
  fields_to_jsonable end = end
  fields_to_jsonable (field k v fs) = field k (to_jsonable v) (fields_to_jsonable fs)

  -- The keys stay as they are.
  pub pairs_to_jsonable : Pairs → Pairs
  pairs_to_jsonable no_pairs = no_pairs
  pairs_to_jsonable (pair k v ps) = pair k (to_jsonable v) (pairs_to_jsonable ps)

  -- The attributes whose names do not begin with an underscore.
  pub attributes_to_jsonable : Fields → Fields
  attributes_to_jsonable end = end
  attributes_to_jsonable (field k v fs) =
      if starts_with k "_"
      then attributes_to_jsonable fs
      else field k (to_jsonable v) (attributes_to_jsonable fs)

module _ (message_to_dict : Value → Option (Fields × Value)) (repr : Value → String) where
  -- `data.setdefault("type", …)`
  abbrev pub with_type : Fields → Value → Option Value → Fields
  with_type fs kind none = of_dict (Dict.insert "type" kind (to_dict fs))
  with_type fs kind (some _) = fs

  unfoldable pub serialize_message : Value → Value
  serialize_message message = elim (message_to_dict message) [
    | none ↦ dict (field "type" (str "unknown") (field "content" (str (str_of repr message)) end))
    | some (fs, kind) ↦ dict (with_type fs kind (get_field "type" fs))
  ]

  abbrev pub serialize_messages : Items → Items
  serialize_messages nil = nil
  serialize_messages (cons v vs) = cons (serialize_message v) (serialize_messages vs)

  unfoldable pub serialize_entry : String → Value → Value
  serialize_entry key (list vs) =
      if key == "messages" then list (serialize_messages vs) else to_jsonable (list vs)
  serialize_entry key (tuple vs) =
      if key == "messages" then list (serialize_messages vs) else to_jsonable (tuple vs)
  serialize_entry key v = to_jsonable v

  -- `serialize_values`, on the dict; `None` has the same result as the empty one.
  unfoldable pub serialize_values : Fields → Fields
  serialize_values end = end
  serialize_values (field key v fs) = field key (serialize_entry key v) (serialize_values fs)
