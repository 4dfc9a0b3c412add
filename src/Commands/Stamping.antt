-- ===== src/Commands/Stamping.antt =====
-- router.py, `run.start`: the thread's metadata in the config that the graph's factory gets.
use fastapi_agent_protocol.Base.{
  String, ◌≡◌, refl, some, ◌==◌, string_eq, if◌then◌else◌, arith, ap, sym, ◌∙◌,
}
use fastapi_agent_protocol.Base.Dict
use fastapi_agent_protocol.Base.Dict.{lookup-insert}
use fastapi_agent_protocol.Failure.{Result, ok, err}
use fastapi_agent_protocol.Value.{
  Value, dict, Fields, get_field, get_or_null, to_dict, of_dict, to_dict-of_dict,
}
use fastapi_agent_protocol.Params.{stamped_config, dict_of, or_empty}

-- A write to a dict's fields.
get_field-insert :
    (j k : String) (v : Value) (fs : Fields)
    → get_field j (of_dict (Dict.insert k v (to_dict fs)))
      ≡ (if j == k then some v else get_field j fs)
unfolding get_field
get_field-insert j k v fs =
    ap (Dict.lookup j) (to_dict-of_dict (Dict.insert k v (to_dict fs)))
    ∙ lookup-insert j k v (to_dict fs)

-- `own` is the client's config `client`, with one change: its `configurable` is the client's
-- `configurable` with the one change that `session_metadata` is there, as the thread's metadata.
abbrev pub IsStamped : Fields → Fields → Fields → Fields → Type 0
IsStamped own client configurable metadata =
    (stamped : Fields) × ((k : String)
      → get_field k own ≡ (if k == "configurable" then some (dict stamped) else get_field k client))
    × ((k : String)
        → get_field k stamped
          ≡ (if k == "session_metadata" then some (dict metadata) else get_field k configurable))

-- The client's config and its `configurable` can be read, and `own` is stamped.
abbrev pub StampsConfig : Value → Fields → Fields → Type 0
StampsConfig config metadata own =
    (client : Fields) × (configurable : Fields) × (dict_of (or_empty config) ≡ ok client)
    × (dict_of (or_empty (get_or_null "configurable" client)) ≡ ok configurable)
    × IsStamped own client configurable metadata

insert-IsStamped :
    (client configurable metadata own : Fields)
    → let stamped =
        of_dict (Dict.insert "session_metadata" (dict metadata) (to_dict configurable)) in
      of_dict (Dict.insert "configurable" (dict stamped) (to_dict client)) ≡ own
      → IsStamped own client configurable metadata
insert-IsStamped client configurable metadata own made = (
  _,
  λ k. ap (get_field k) (sym made) ∙ get_field-insert k "configurable" _ client,
  λ k. get_field-insert k "session_metadata" (dict metadata) configurable,
)

-- The config that `run.start` makes, where it can make one, is the client's with the thread's
-- metadata as `configurable.session_metadata`, whatever the client put there, and everything else is
-- the client's.
pub stamped_config-IsStamped :
    (config : Value) (metadata own : Fields)
    → stamped_config config metadata ≡ ok own
    → StampsConfig config metadata own
unfolding stamped_config
stamped_config-IsStamped config metadata own h = read (dict_of (or_empty config)) refl
  where
    inner :
        (client : Fields) (d : Result Fields)
        → dict_of (or_empty config) ≡ ok client
        → dict_of (or_empty (get_or_null "configurable" client)) ≡ d
        → StampsConfig config metadata own
    inner client (err e) c d = absurd (ground (arith, c, d))
    inner client (ok configurable) c d = (
      client,
      configurable,
      c,
      d,
      insert-IsStamped client configurable metadata own (ground (arith, c, d)),
    )

    read : (c : Result Fields) → dict_of (or_empty config) ≡ c → StampsConfig config metadata own
    read (err e) c = absurd (ground (arith, c))
    read (ok client) c =
        inner client (dict_of (or_empty (get_or_null "configurable" client))) c refl
