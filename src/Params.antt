-- ===== src/Params.antt =====
-- router.py, `dispatch_command`: how a command's params and the config of its run are read.
use fastapi_agent_protocol.Base.{if◌then◌else◌, string_eq}
use fastapi_agent_protocol.Base.Dict
use fastapi_agent_protocol.Failure.{raised, Result, ok, err, ◌>>=◌}
use fastapi_agent_protocol.Interrupts.{iterate}
use fastapi_agent_protocol.Value.{
  Value, str, dict, Items, nil, cons, Fields, end, to_dict, of_dict, get_or_null, truthy,
}

-- `v or {}`
abbrev pub or_empty : Value → Value
or_empty v = if truthy v then v else dict end

-- `v.get(…)` wants a dict.
abbrev pub fields_of : Value → Result Fields
fields_of (dict fs) = ok fs
fields_of v = err (raised "AttributeError" "object has no attribute 'get'")

-- `dict(v)`: of a dict, or of something that yields pairs. A key that is no text cannot be in the
-- model's dicts, and is refused as an unhashable one is.
abbrev add_pair : Items → Result Fields → Result Fields
add_pair (cons (str k) (cons v nil)) (ok fs) = ok (of_dict (Dict.insert k v (to_dict fs)))
add_pair vs (err e) = err e
add_pair vs (ok fs) = err (raised "TypeError" "cannot convert dictionary update sequence")

unfoldable pub add_pairs : Fields → Items → Result Fields
add_pairs fs nil = ok fs
add_pairs fs (cons v vs) =
    (iterate v >>= λ pair. add_pair pair (ok fs)) >>= λ next. add_pairs next vs

unfoldable pub dict_of : Value → Result Fields
dict_of (dict fs) = ok fs
dict_of v = iterate v >>= add_pairs end

-- The config of a started run: the client's, with the thread's metadata among its `configurable`.
unfoldable pub stamped_config : Value → Fields → Result Fields
stamped_config config metadata = dict_of (or_empty config) >>= λ own.
    dict_of (or_empty (get_or_null "configurable" own)) >>= λ configurable. ok (
      of_dict (
        Dict.insert "configurable"
          (dict (of_dict (Dict.insert "session_metadata" (dict metadata) (to_dict configurable))))
          (to_dict own)))
