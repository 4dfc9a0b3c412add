-- ===== src/RunConfig.antt =====
-- src/fastapi_agent_protocol/runner.py, `start`: the config that a run gets from the thread, from the
-- client's config and from the client's metadata.
use fastapi_agent_protocol.Base.{String, Option, none, some, [], ◌∷◌, if◌then◌else◌, string_eq}
use fastapi_agent_protocol.Base.Dict
use fastapi_agent_protocol.Base.Dict.{Dict}
use fastapi_agent_protocol.Failure.{Result, ok, err, raised, ◌>>=◌}
use fastapi_agent_protocol.Value.{
  Value, str, dict, Fields, end, truthy, to_dict, of_dict, get_or_null,
}

-- `**v` in a dict display wants a mapping.
unfoldable pub unpack : Value → Result (Dict String Value)
unpack (dict fs) = ok (to_dict fs)
unpack v = err (raised "TypeError" "argument after ** must be a mapping")

-- `{**a, **b}`
unfoldable pub merge : Dict String Value → Dict String Value → Dict String Value
merge a [] = a
merge a ((k, v) ∷ b) = merge (Dict.insert k v a) b

-- `v or {}`
abbrev or_empty : Value → Value
or_empty v = if truthy v then v else dict end

abbrev config_fields : Option Fields → Fields
config_fields none = end
config_fields (some fs) = fs

-- `run_config.get("metadata", {})`
abbrev metadata_or_empty : Option Value → Value
metadata_or_empty none = dict end
metadata_or_empty (some v) = v

-- `config` without its `configurable`, which the run's own precedes.
unfoldable pub base_config : String → Fields → Result (Dict String Value)
base_config thread_id config = do
  configurable ← unpack (or_empty (get_or_null "configurable" config))
  ok (
      merge
        (("configurable", dict (of_dict (merge (("thread_id", str thread_id) ∷ []) configurable)))
          ∷ [])
        (Dict.erase "configurable" (to_dict config)))

abbrev add_metadata : Dict String Value → Value → Result (Dict String Value)
add_metadata config metadata = do
  own ← unpack (metadata_or_empty (Dict.lookup "metadata" config))
  given ← unpack metadata
  ok (Dict.insert "metadata" (dict (of_dict (merge own given))) config)

-- The config, or the `TypeError` that building it raises.
unfoldable pub run_config : String → Option Fields → Value → Result (Dict String Value)
run_config thread_id config metadata = do
  base ← base_config thread_id (config_fields config)
  if truthy metadata then add_metadata base metadata else ok base
