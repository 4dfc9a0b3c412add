-- ===== src/PyText.antt =====
-- `str(v)` and `s.lower()`, as far as the program uses them. What `str` makes of a container or an
-- object is `repr`, an argument of the definitions that use it.
use Prim.Native.Char.{code}
use fastapi_agent_protocol.Base.{ℕ, ◌+◌, String, ◌<>◌, ◌&&◌, List, [], ◌∷◌, map, leb, if◌then◌else◌}
use fastapi_agent_protocol.Base.Int.{pos, negsuc}
use fastapi_agent_protocol.Base.Text.{decimal}
use fastapi_agent_protocol.Value.{Value, null, bool, int, float, str, slotted, opaque}

unfoldable pub str_of : (Value → String) → Value → String
str_of repr null = "None"
str_of repr (bool b) = if b then "True" else "False"
str_of repr (int (pos n)) = decimal n
str_of repr (int (negsuc n)) = "-" <> decimal (n + 1)
str_of repr (float s) = s
str_of repr (str s) = s
str_of repr (slotted s fs) = s
str_of repr (opaque s) = s
str_of repr v = repr v

-- The code points of a text.
abbrev pub codes : String → List ℕ
codes String.[] = []
codes (String.◌∷◌ c s) = code c ∷ codes s

abbrev lower_code : ℕ → ℕ
lower_code c = if leb b'A' c && leb c b'Z' then c + 32 else c

-- The code points of `s.lower()`, where `s` is ASCII. No other text lowers to an entry of the
-- table that the program looks up in.
unfoldable pub lower : String → List ℕ
lower s = map lower_code (codes s)
