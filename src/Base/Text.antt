-- ===== src/Base/Text.antt =====
-- `str(n)` of a natural number, and `"".join`.
use Prim.Native.Nat.{ℕ, zero, suc, ◌/◌, ◌%◌}
use Prim.Native.String.{String, ◌++◌ as ◌<>◌}
use mathlib.Core.List.{List, [], ◌∷◌}
use fastapi_agent_protocol.Base.Tests.{ltb, if◌then◌else◌}
use fastapi_agent_protocol.Base.Lists.{get_or}

abbrev pub digits : List String
digits =
    "0" ∷ "1" ∷ "2" ∷ "3" ∷ "4" ∷ "5" ∷ "6" ∷ "7" ∷ "8" ∷ "9" ∷ "a" ∷ "b" ∷ "c" ∷ "d" ∷ "e" ∷ "f"
    ∷ []

-- The fuel is the number itself, which has at most that many digits more than one.
decimal_fuel : ℕ → ℕ → String
decimal_fuel zero n = get_or digits n ""
decimal_fuel (suc f) n =
    let rest = decimal_fuel f (n / 10) <> get_or digits (n % 10) "" in
    if ltb n 10 then get_or digits n "" else rest

unfoldable pub decimal : ℕ → String
unfolding decimal_fuel
decimal n = decimal_fuel n n

unfoldable pub join : List String → String
join [] = ""
join (s ∷ rest) = s <> join rest

-- `sep.join(texts)`
unfoldable pub join_with : String → List String → String
join_with sep [] = ""
join_with sep (s ∷ []) = s
join_with sep (s ∷ t ∷ rest) = s <> sep <> join_with sep (t ∷ rest)
