-- ===== src/Failure.antt =====
-- The exceptions of the program: the typed errors of runner.py and registry.py, what other code may
-- raise, and `asyncio.CancelledError`, which is no `Exception`.
use fastapi_agent_protocol.Base.{String, ◌<>◌, List, Bool, true, false}
use fastapi_agent_protocol.Base.Text.{join_with}
use fastapi_agent_protocol.Value.{Value}

pub data Failure : Type 0 where
  -- `RunActiveError(thread_id, run_id)`
  run_active : String → String → Failure
  -- `UnknownInterruptError(thread_id, interrupt_id)`
  unknown_interrupt : String → String → Failure
  -- `UnknownAssistantError(assistant_id, known)`
  unknown_assistant : Value → List String → Failure
  -- an exception of another class, with its text
  raised : String → String → Failure
  cancelled : Failure

-- `except Exception` catches it
abbrev pub is_exception : Failure → Bool
is_exception cancelled = false
is_exception _ = true

-- The `message` of a `RunError`, by its class.
unfoldable pub run_active_message : String → String → String
run_active_message thread_id run_id =
    "thread " <> thread_id <> " already has an active run (" <> run_id <> ")"

unfoldable pub unknown_interrupt_message : String → String → String
unknown_interrupt_message thread_id interrupt_id =
    "thread " <> thread_id <> " has no pending interrupt " <> interrupt_id

-- `UnknownAssistantError`, with `{assistant_id!r}`.
unfoldable pub unknown_assistant_message : (Value → String) → Value → List String → String
unknown_assistant_message repr assistant_id known =
    "unknown assistant_id " <> repr assistant_id <> " (registered: " <> join_with ", " known <> ")"

-- `exc.code` of a `RunError`.
abbrev pub run_active_code : String
run_active_code = "invalid_argument"

abbrev pub unknown_interrupt_code : String
unknown_interrupt_code = "no_such_interrupt"

pub data Result {ℓ} (A : Type ℓ) : Type ℓ where
  ok : A → Result A
  err : Failure → Result A

abbrev pub is_ok {ℓ} : {A : Type ℓ} → Result A → Bool
is_ok (ok a) = true
is_ok (err e) = false

infixl 5 ◌>>=◌
abbrev pub ◌>>=◌ {ℓ κ} : {A : Type ℓ} {B : Type κ} → Result A → (A → Result B) → Result B
ok a >>= f = f a
err e >>= f = err e
