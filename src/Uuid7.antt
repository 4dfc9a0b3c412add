-- ===== src/Uuid7.antt =====
-- src/fastapi_agent_protocol/uuid7.py: the ids of threads and runs. The clock, the random bytes and
-- `uuid.UUID(bytes=…).hex` are arguments.
pub mod Layout
use fastapi_agent_protocol.Base.{
  ℕ, zero, suc, ◌+◌, ◌*◌, ◌/◌, ◌%◌, ◌^◌, String, List, [], ◌∷◌, ◌++◌, take, drop, if◌then◌else◌,
  ltb,
}
use fastapi_agent_protocol.Failure.{raised, Result, ok, err, ◌>>=◌}

-- The `width` bytes of a number, the most significant first.
unfoldable pub big_endian : ℕ → ℕ → List ℕ
big_endian zero n = []
big_endian (suc width) n = big_endian width (n / 256) ++ (n % 256 ∷ [])

-- `n.to_bytes(width, "big")`, which raises `OverflowError` for a number that does not fit
unfoldable pub to_bytes : ℕ → ℕ → Result (List ℕ)
to_bytes width n =
    if ltb n (256 ^ width)
    then ok (big_endian width n)
    else err (raised "OverflowError" "int too big to convert")

-- `int.from_bytes(bs, "big")`
unfoldable pub from_bytes : ℕ → List ℕ → ℕ
from_bytes n [] = n
from_bytes n (b ∷ bs) = from_bytes (n * 256 + b) bs

-- The 16 bytes of `uuid7`, from the time in milliseconds and 16 random bytes. Masks are remainders,
-- and an `or` of bits that do not overlap is a sum.
unfoldable pub uuid7_bytes : ℕ → List ℕ → Result (List ℕ)
uuid7_bytes now_ms raw = do
  time ← to_bytes 6 (now_ms % 2 ^ 48)
  version ← to_bytes 2 (7 * 2 ^ 12 + from_bytes 0 (take 2 (drop 6 raw)) % 2 ^ 12)
  variant ← to_bytes 2 (2 * 2 ^ 14 + from_bytes 0 (take 2 (drop 8 raw)) % 2 ^ 14)
  ok (time ++ version ++ variant ++ drop 10 raw)

unfoldable pub uuid7 : (List ℕ → String) → ℕ → List ℕ → Result String
uuid7 hex now_ms raw = do id ← uuid7_bytes now_ms raw; ok (hex id)
