-- ===== src/Serialize/Messages.antt =====
-- state.py, `serialize_values` and `serialize_message`: the messages of a state.
use fastapi_agent_protocol.Base.{
  String, ◌≡◌, refl, ap, ◌∙◌, ◌⊎◌, inl, inr, Option, none, some, Option-cases, Bool-cases,
  string_eq, true, arith, length, All, ◌==◌,
}
use fastapi_agent_protocol.Base.Dict
use fastapi_agent_protocol.Base.Dict.{lookup-insert_self}
use fastapi_agent_protocol.Value.{
  Value, str, list, tuple, dict, Items, nil, cons, Fields, end, field, to_list, to_dict,
  to_dict-of_dict, get_field,
}
use fastapi_agent_protocol.Serialize.{
  with_type, serialize_message, serialize_messages, serialize_entry, serialize_values,
}

-- A dict with an entry `type`.
abbrev pub HasType : Value → Type 0
HasType v = (fs : Fields) × (kind : Value) × (v ≡ dict fs) × (get_field "type" fs ≡ some kind)

module _ (message_to_dict : Value → Option (Fields × Value)) (repr : Value → String) where
  with_type-HasType :
      (fs : Fields) (kind : Value) (found : Option Value)
      → get_field "type" fs ≡ found
      → HasType (dict (with_type message_to_dict repr fs kind found))
  unfolding get_field
  with_type-HasType fs kind (some v) h = (fs, v, refl, h)
  with_type-HasType fs kind none h = (
    _,
    kind,
    refl,
    ap (Dict.lookup "type") (to_dict-of_dict (Dict.insert "type" kind (to_dict fs)))
        ∙ lookup-insert_self "type" kind (to_dict fs),
  )

  serialize_message-HasType : (v : Value) → HasType (serialize_message message_to_dict repr v)
  unfolding serialize_message get_field Dict.lookup string_eq
  serialize_message-HasType v = elim (Option-cases (message_to_dict v)) [
    | inl failed ↦ rw (failed, serialize_message) (_, str "unknown", refl, grind arith)
    | inr ((fs, kind), made) ↦
        rw (made, serialize_message) (with_type-HasType fs kind (get_field "type" fs) refl)
  ]

  -- As many messages as there were, each with a type.
  abbrev pub AreMessages : Items → Items → Type 0
  AreMessages vs ms = (length (to_list ms) ≡ length (to_list vs)) × All HasType (to_list ms)

  serialize_messages-AreMessages :
      (vs : Items) → AreMessages vs (serialize_messages message_to_dict repr vs)
  serialize_messages-AreMessages nil = (refl, tt)
  serialize_messages-AreMessages (cons v vs) =
      let (long, typed) = serialize_messages-AreMessages vs in
      (omega (arith, long), (serialize_message-HasType v, typed))

  serialize_entry-list :
      (k : String) (v : Value) (vs : Items)
      → ("messages" == k) ≡ true
      → (v ≡ list vs) ⊎ (v ≡ tuple vs)
      → serialize_entry message_to_dict repr k v ≡ list (serialize_messages message_to_dict repr vs)
  unfolding serialize_entry
  serialize_entry-list k v vs own (inl h) = rw h (grind (arith, own))
  serialize_entry-list k v vs own (inr h) = rw h (grind (arith, own))

  -- The messages of a state, a list or a tuple, go out as a list with a dict for each message, which
  -- has a `type`, whether or not langchain's `message_to_dict` knows the message.
  pub serialize_values-AreMessages :
      (fs : Fields) (vs : Items)
      → (get_field "messages" fs ≡ some (list vs)) ⊎ (get_field "messages" fs ≡ some (tuple vs))
      → (ms : Items) × (get_field "messages" (serialize_values message_to_dict repr fs)
          ≡ some (list ms))
        × AreMessages vs ms
  unfolding serialize_values serialize_entry get_field Dict.lookup
  serialize_values-AreMessages end vs (inl h) = absurd (ground (arith, h))
  serialize_values-AreMessages end vs (inr h) = absurd (ground (arith, h))
  serialize_values-AreMessages (field k v fs) vs h = elim (Bool-cases ("messages" == k)) [
    | inl own ↦
        let is : (v ≡ list vs) ⊎ (v ≡ tuple vs) = ground (arith, h, own) in
        rw own (_, ap some (serialize_entry-list k v vs own is), serialize_messages-AreMessages vs)
    | inr other ↦
        let later : (get_field "messages" fs ≡ some (list vs))
            ⊎ (get_field "messages" fs ≡ some (tuple vs)) =
          ground (arith, h, other) in
        rw other (serialize_values-AreMessages fs vs later)
  ]
