-- ===== src/Runner/Answerable.antt =====
-- runner.py, `_register_pending` with `respond`: which interrupts of a run can be answered after it.
use fastapi_agent_protocol.Base.{
  String, ◌≡◌, refl, ◌∙◌, ap, Bool, true, false, ◌||◌, Option, none, some, List, [], ◌∷◌, ◌==◌,
  string_eq, if◌then◌else◌, contains, arith, inl, inr, Option-cases,
}
use fastapi_agent_protocol.Base.Dict
use fastapi_agent_protocol.Base.Dict.{Dict, keys, lookup-insert, lookup-insert_self}
use fastapi_agent_protocol.Failure.{unknown_interrupt, ok, err}
use fastapi_agent_protocol.RunConfig.{merge}
use fastapi_agent_protocol.Value.{Value, str, truthy, text_truthy}
use fastapi_agent_protocol.Manager.{Manager, Pending}
use fastapi_agent_protocol.Runner.{resolved_assistant, register_pending, choose, or_stored}

-- The last entry of a key, which is the one that a `**` leaves.
last : String → Dict String Value → Option Value
last j [] = none
last j ((k, v) ∷ b) = elim (last j b) [ some w ↦ some w | none ↦ if j == k then some v else none ]

abbrev or_else : Option Value → Option Value → Option Value
or_else (some v) other = some v
or_else none other = other

lookup-merge :
    (j : String) (a b : Dict String Value)
    → Dict.lookup j (merge a b) ≡ or_else (last j b) (Dict.lookup j a)
unfolding merge last
lookup-merge j a [] = refl
lookup-merge j a ((k, v) ∷ b) = grind (arith, lookup-merge j (Dict.insert k v a) b, lookup-insert)

abbrev is_some : Option Value → Bool
is_some none = false
is_some (some v) = true

contains-last : (j : String) (b : Dict String Value) → contains (keys b) j ≡ is_some (last j b)
unfolding last
contains-last j [] = refl
contains-last j ((k, v) ∷ b) = grind (arith, contains-last j b)

-- The entries that `_register_pending` leaves for a thread: the interrupts, and the assistant.
pending_of : String → List (String × Value) → Pending
pending_of assistant_id interrupts = merge (("assistant_id", str assistant_id) ∷ []) interrupts

lookup-pending_of :
    (j assistant_id : String) (interrupts : List (String × Value))
    → Dict.lookup j (pending_of assistant_id interrupts)
      ≡ or_else (last j interrupts) (if j == "assistant_id" then some (str assistant_id) else none)
unfolding pending_of Dict.lookup string_eq
lookup-pending_of j assistant_id interrupts =
    lookup-merge j (("assistant_id", str assistant_id) ∷ []) interrupts

stored_in_pending :
    (assistant_id : String) (interrupts : List (String × Value))
    → contains (keys interrupts) "assistant_id" ≡ false
    → Dict.lookup "assistant_id" (pending_of assistant_id interrupts) ≡ some (str assistant_id)
stored_in_pending assistant_id interrupts apart = grind (
  arith,
  lookup-pending_of "assistant_id" assistant_id interrupts,
  contains-last "assistant_id" interrupts,
  apart,
)

known_in_pending :
    (j assistant_id : String) (interrupts : List (String × Value))
    → is_some (Dict.lookup j (pending_of assistant_id interrupts))
      ≡ (contains (keys interrupts) j || j == "assistant_id")
known_in_pending j assistant_id interrupts =
    grind (arith, lookup-pending_of j assistant_id interrupts, contains-last j interrupts)

or_stored_pending :
    (assistant_id : String) (interrupts : List (String × Value))
    → text_truthy assistant_id ≡ true
    → contains (keys interrupts) "assistant_id" ≡ false
    → or_stored none (pending_of assistant_id interrupts) ≡ str assistant_id
unfolding truthy
or_stored_pending assistant_id interrupts named apart =
    rw (stored_in_pending assistant_id interrupts apart, named) refl

choose_known :
    (thread_id interrupt_id : String) (pending : Pending) (assistant : Value)
    → or_stored none pending ≡ assistant
    → choose thread_id interrupt_id none (some pending) ≡ (
        if is_some (Dict.lookup interrupt_id pending)
        then ok assistant
        else err (unknown_interrupt thread_id interrupt_id))
choose_known thread_id interrupt_id pending assistant stored =
    elim (Option-cases (Dict.lookup interrupt_id pending)) [
      | inl missing ↦ ground (arith, missing)
      | inr (payload, found) ↦ ground (arith, found, stored)
    ]

module _ {G : Type 0} where
  -- When a run of an assistant has left its interrupts with `_register_pending`, an answer that names
  -- no assistant finds that assistant for each of the interrupts, and for the id "assistant_id", and
  -- is refused for every other id. No interrupt has the id "assistant_id" here, and the assistant's
  -- id is not empty.
  pub register_pending-answerable :
      (m : Manager G) (thread_id assistant_id interrupt_id : String)
      (interrupts : List (String × Value))
      → text_truthy assistant_id ≡ true
      → contains (keys interrupts) "assistant_id" ≡ false
      → resolved_assistant
          (register_pending m thread_id assistant_id interrupts)
          thread_id
          interrupt_id
          none
        ≡ (if contains (keys interrupts) interrupt_id || interrupt_id == "assistant_id"
            then ok (str assistant_id)
            else err (unknown_interrupt thread_id interrupt_id))
  unfolding resolved_assistant register_pending pending_of
  register_pending-answerable m thread_id assistant_id interrupt_id interrupts named apart =
      ap (choose thread_id interrupt_id none) (lookup-insert_self thread_id _ m.pending_inputs)
      ∙ choose_known thread_id interrupt_id _ (str assistant_id)
          (or_stored_pending assistant_id interrupts named apart)
      ∙ ap
          (λ (b : Bool).
            if b then ok (str assistant_id) else err (unknown_interrupt thread_id interrupt_id))
          (known_in_pending interrupt_id assistant_id interrupts)
