-- ===== src/Subscription.antt =====
-- src/fastapi_agent_protocol/hub.py: the envelopes, and what a subscription lets through. A
-- `Subscription` object is shared by the hub's set and the stream that reads it, so it has an
-- identity, `sid`, under which both reach it.
use fastapi_agent_protocol.Base.{
  ℕ, String, Bool, true, false, ◌||◌, not, Option, none, some, List, [], ◌∷◌, leb, if◌then◌else◌,
  ◌==◌, contains, string_eq, list_eq, length, take,
}
use fastapi_agent_protocol.Base.Dict
use fastapi_agent_protocol.Base.Dict.{Dict}
use fastapi_agent_protocol.Value.{Value}

abbrev method_channels : Dict String String
method_channels =
    ("lifecycle", "lifecycle")
    ∷ ("messages", "messages")
    ∷ ("tools", "tools")
    ∷ ("values", "values")
    ∷ ("updates", "updates")
    ∷ ("checkpoints", "checkpoints")
    ∷ ("custom", "custom")
    ∷ ("tasks", "tasks")
    ∷ ("input.requested", "input")
    ∷ []

unfoldable pub channel_for_method : String → String
channel_for_method method = elim (Dict.lookup method method_channels) [
  | none ↦ method
  | some channel ↦ channel
]

-- `params` is flattened: its three entries are `namespace`, `timestamp` and `payload` ("data").
pub record Envelope : Type 0 where
  pub kind : String
  pub event_id : String
  pub seq : ℕ
  pub method : String
  pub namespace : List String
  pub timestamp : ℕ
  pub payload : Value

pub record Subscription : Type 0 where
  pub sid : ℕ
  pub queue : List Envelope
  pub channels : Option (List String)
  pub namespaces : List (List String)
  pub last_seq : ℕ

unfoldable pub channel_accepts : Option (List String) → String → Bool
channel_accepts none method = true
channel_accepts (some []) method = true
channel_accepts (some (c ∷ cs)) method = contains (c ∷ cs) (channel_for_method method)

-- One turn of the loop over the prefixes: an empty prefix selects the root namespace only.
unfoldable pub prefix_selects : List String → List String → Bool
prefix_selects [] ns = ns == []
prefix_selects (p ∷ ps) ns = take (length (p ∷ ps)) ns == p ∷ ps

-- The loop, which breaks at the first prefix that selects `ns`.
unfoldable pub any_selects : List (List String) → List String → Bool
any_selects [] ns = false
any_selects (prefix ∷ rest) ns = prefix_selects prefix ns || any_selects rest ns

unfoldable pub namespace_accepts : List (List String) → List String → Bool
namespace_accepts [] ns = true
namespace_accepts (prefix ∷ rest) ns = any_selects (prefix ∷ rest) ns

-- `Subscription.matches`
unfoldable pub subscription_matches : Subscription → Envelope → Bool
subscription_matches s envelope =
    if leb envelope.seq s.last_seq
    then false
    else if not (channel_accepts s.channels envelope.method)
    then false
    else namespace_accepts s.namespaces envelope.namespace
