-- ===== src/Interrupts.antt =====
-- src/fastapi_agent_protocol/translation.py: `interrupts_from_snapshot` and `values_event_data`.
-- `repr` is what `str` makes of a container or an object.
use fastapi_agent_protocol.Base.{
  String, Option, none, some, List, [], ◌∷◌, if◌then◌else◌, string_eq,
}
use fastapi_agent_protocol.Failure.{Result, ok, err, raised, ◌>>=◌}
use fastapi_agent_protocol.PyText.{str_of}
use fastapi_agent_protocol.Value.{
  Value, null, str, list, tuple, set, dict, object, Items, nil, cons, Fields, end, field, truthy,
  get_or_null, keyed, slotted, pairs_or_null, Pairs, no_pairs, pair,
}

abbrev characters : String → Items
characters String.[] = nil
characters (String.◌∷◌ c s) = cons (str (String.◌∷◌ c String.[])) (characters s)

abbrev field_names : Fields → Items
field_names end = nil
field_names (field k v fs) = cons (str k) (field_names fs)

abbrev pair_keys : Pairs → Items
pair_keys no_pairs = nil
pair_keys (pair k v ps) = cons k (pair_keys ps)

-- `for entry in v`
unfoldable pub iterate : Value → Result Items
iterate (list vs) = ok vs
iterate (tuple vs) = ok vs
iterate (set vs) = ok vs
iterate (dict fs) = ok (field_names fs)
iterate (keyed ps) = ok (pair_keys ps)
iterate (str s) = ok (characters s)
iterate v = err (raised "TypeError" "object is not iterable")

abbrev truthy_or_null : Value → Value
truthy_or_null v = if truthy v then v else null

-- `getattr(entry, "id", None) or (entry.get("id") if isinstance(entry, dict) else None)`. A dict has
-- no attribute of that name.
unfoldable pub entry_id : Value → Value
entry_id (dict fs) = get_or_null "id" fs
entry_id (object name fs) = truthy_or_null (get_or_null "id" fs)
entry_id (keyed ps) = pairs_or_null "id" ps
entry_id (slotted s fs) = truthy_or_null (get_or_null "id" fs)
entry_id v = null

unfoldable pub entry_payload : Value → Value
entry_payload (dict fs) = get_or_null "value" fs
entry_payload (object name fs) = get_or_null "value" fs
entry_payload (keyed ps) = pairs_or_null "value" ps
entry_payload (slotted s fs) = get_or_null "value" fs
entry_payload v = null

module _ (repr : Value → String) where
  unfoldable pub interrupt_pairs : Items → List (String × Value)
  interrupt_pairs nil = []
  interrupt_pairs (cons entry rest) =
      (str_of repr (entry_id entry), entry_payload entry) ∷ interrupt_pairs rest

  -- The `__interrupt__` entry, or the empty list.
  abbrev entries_of : Fields → Value
  entries_of values =
      if truthy (get_or_null "__interrupt__" values)
      then get_or_null "__interrupt__" values
      else list nil

  unfoldable pub interrupts_from_snapshot : Fields → Result (List (String × Value))
  interrupts_from_snapshot values = do
    entries ← iterate (entries_of values)
    ok (interrupt_pairs entries)

-- `values_event_data`: a copy of the state.
unfoldable pub values_event_data : Option Fields → Fields
values_event_data none = end
values_event_data (some state) = state
