-- ===== src/Registry.antt =====
-- src/fastapi_agent_protocol/registry.py: named graph factories. A graph is a value of a type `G`
-- that the program does not look into here; a factory's call, and what it awaits, has a result.
use Prim.Native.Nat.{Ordering}
use Prim.Native.String.{compare}
use fastapi_agent_protocol.Base.{
  String, ◌≡◌, ap, Option, none, some, List, [], ◌∷◌, if◌then◌else◌, ◌==◌, arith, string_eq,
}
use fastapi_agent_protocol.Base.Dict
use fastapi_agent_protocol.Base.Dict.{Dict, keys, lookup-insert, lookup-insert_self}
use fastapi_agent_protocol.Failure.{unknown_assistant, Result, err}
use fastapi_agent_protocol.Value.{Value, str}

abbrev pub GraphFactory : Type 0 → Type 0
GraphFactory G = Option Value → Result G

pub record AgentRegistry (G : Type 0) : Type 0 where
  pub factories : Dict String (GraphFactory G)

unfoldable pub insert_id : String → List String → List String
insert_id s [] = s ∷ []
insert_id s (t ∷ rest) = elim (compare s t) [
  | Ordering.gt ↦ t ∷ insert_id s rest
  | _ ↦ s ∷ t ∷ rest
]

unfoldable pub sort_ids : List String → List String
sort_ids [] = []
sort_ids (s ∷ rest) = insert_id s (sort_ids rest)

module _ {G : Type 0} where
  -- `sorted(self._factories)`
  unfoldable pub assistant_ids : AgentRegistry G → List String
  assistant_ids r = sort_ids (keys r.factories)

  unfoldable pub register : AgentRegistry G → String → GraphFactory G → AgentRegistry G
  register r assistant_id factory = record {
    factories = Dict.insert assistant_id factory r.factories;
  }

  abbrev call_factory : AgentRegistry G → String → Option Value → Option (GraphFactory G) → Result G
  call_factory r assistant_id config none =
      err (unknown_assistant (str assistant_id) (assistant_ids r))
  call_factory r assistant_id config (some factory) = factory config

  unfoldable pub resolve : AgentRegistry G → String → Option Value → Result G
  resolve r assistant_id config =
      call_factory r assistant_id config (Dict.lookup assistant_id r.factories)

  -- A registration, early or late, decides what its id resolves to. An id that was registered
  -- resolves to what it did, if it is another.
  pub resolve-register :
      (r : AgentRegistry G) (id other : String) (factory f : GraphFactory G) (config : Option Value)
      → Dict.lookup other r.factories ≡ some f
      → (resolve (register r id factory) id config ≡ factory config)
        × (resolve (register r id factory) other config
            ≡ (if other == id then factory config else f config))
  unfolding resolve register
  resolve-register r id other factory f config known = (
    ap (call_factory _ id config) (lookup-insert_self id factory r.factories),
    grind (arith, lookup-insert, known),
  )
