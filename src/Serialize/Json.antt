-- ===== src/Serialize/Json.antt =====
-- state.py: the JSON among the values, and `_to_jsonable` with respect to it.
use fastapi_agent_protocol.Base.{
  String, ◌≡◌, refl, Bool-cases, inl, inr, string_eq, ap, Bool, true, false, not, ◌||◌, ◌==◌,
}
use text.Mathlib.Text.{starts_with}
use fastapi_agent_protocol.Value.{
  Value, null, bool, int, float, str, list, tuple, set, dict, object, opaque, Items, nil, cons,
  Fields, end, field, keyed, slotted, Pairs, no_pairs, pair,
}
use fastapi_agent_protocol.Serialize.{
  to_jsonable, items_to_jsonable, fields_to_jsonable, pairs_to_jsonable, attributes_to_jsonable,
}

-- A float that JSON has, by its text.
abbrev is_finite : String → Bool
is_finite s = not (s == "nan" || s == "inf" || s == "-inf")

-- The dict keys that `json.dumps` turns into texts, and texts.
abbrev pub is_key : Value → Bool
is_key null = true
is_key (bool b) = true
is_key (int n) = true
is_key (float s) = is_finite s
is_key (str s) = true
is_key _ = false

-- What `json.dumps` takes without NaN: null, truth values, finite numbers, texts, and lists and
-- dicts of such values.
unfoldable mutual
  pub IsJson : Value → Type 0
  IsJson null = Unit
  IsJson (bool b) = Unit
  IsJson (int n) = Unit
  IsJson (float s) = is_finite s ≡ true
  IsJson (str s) = Unit
  IsJson (list vs) = AllJson vs
  IsJson (tuple vs) = ⊥
  IsJson (set vs) = ⊥
  IsJson (dict fs) = FieldsJson fs
  IsJson (keyed ps) = PairsJson ps
  IsJson (object name fs) = ⊥
  IsJson (slotted s fs) = ⊥
  IsJson (opaque s) = ⊥

  pub AllJson : Items → Type 0
  AllJson nil = Unit
  AllJson (cons v vs) = IsJson v × AllJson vs

  pub FieldsJson : Fields → Type 0
  FieldsJson end = Unit
  FieldsJson (field k v fs) = IsJson v × FieldsJson fs

  pub PairsJson : Pairs → Type 0
  PairsJson no_pairs = Unit
  PairsJson (pair k v ps) = (is_key k ≡ true) × IsJson v × PairsJson ps

-- The floats in a value are finite and its dicts have keys that `json.dumps` takes, wherever the
-- attributes with an underscore do not hide them.
unfoldable mutual
  pub IsEncodable : Value → Type 0
  IsEncodable (float s) = is_finite s ≡ true
  IsEncodable (list vs) = AllEncodable vs
  IsEncodable (tuple vs) = AllEncodable vs
  IsEncodable (set vs) = AllEncodable vs
  IsEncodable (dict fs) = FieldsEncodable fs
  IsEncodable (keyed ps) = PairsEncodable ps
  IsEncodable (object name fs) = AttributesEncodable fs
  IsEncodable _ = Unit

  AllEncodable : Items → Type 0
  AllEncodable nil = Unit
  AllEncodable (cons v vs) = IsEncodable v × AllEncodable vs

  FieldsEncodable : Fields → Type 0
  FieldsEncodable end = Unit
  FieldsEncodable (field k v fs) = IsEncodable v × FieldsEncodable fs

  PairsEncodable : Pairs → Type 0
  PairsEncodable no_pairs = Unit
  PairsEncodable (pair k v ps) = (is_key k ≡ true) × IsEncodable v × PairsEncodable ps

  AttributesEncodable : Fields → Type 0
  AttributesEncodable end = Unit
  AttributesEncodable (field k v fs) =
      (starts_with k "_" ≡ false → IsEncodable v) × AttributesEncodable fs

attributes_cases :
    (P : Fields → Type 0) (k : String) (v : Value) (fs : Fields)
    → P (attributes_to_jsonable fs)
    → (starts_with k "_" ≡ false → P (field k (to_jsonable v) (attributes_to_jsonable fs)))
    → P (attributes_to_jsonable (field k v fs))
unfolding to_jsonable
attributes_cases P k v fs hidden shown = elim (Bool-cases (starts_with k "_")) [
  | inl h ↦ rw h hidden
  | inr h ↦ rw h (shown h)
]

mutual
  unfolding to_jsonable IsJson IsEncodable

  value-IsJson : (v : Value) → IsEncodable v → IsJson (to_jsonable v)
  value-IsJson null h = tt
  value-IsJson (bool b) h = tt
  value-IsJson (int n) h = tt
  value-IsJson (float s) h = h
  value-IsJson (str s) h = tt
  value-IsJson (list vs) h = items-AllJson vs h
  value-IsJson (tuple vs) h = items-AllJson vs h
  value-IsJson (set vs) h = items-AllJson vs h
  value-IsJson (dict fs) h = fields-FieldsJson fs h
  value-IsJson (keyed ps) h = pairs-PairsJson ps h
  value-IsJson (object name fs) h = attributes-FieldsJson fs h
  value-IsJson (slotted s fs) h = tt
  value-IsJson (opaque s) h = tt

  items-AllJson : (vs : Items) → AllEncodable vs → AllJson (items_to_jsonable vs)
  items-AllJson nil h = tt
  items-AllJson (cons v vs) h = (value-IsJson v h.0, items-AllJson vs h.1)

  fields-FieldsJson : (fs : Fields) → FieldsEncodable fs → FieldsJson (fields_to_jsonable fs)
  fields-FieldsJson end h = tt
  fields-FieldsJson (field k v fs) h = (value-IsJson v h.0, fields-FieldsJson fs h.1)

  pairs-PairsJson : (ps : Pairs) → PairsEncodable ps → PairsJson (pairs_to_jsonable ps)
  pairs-PairsJson no_pairs h = tt
  pairs-PairsJson (pair k v ps) (key, h, hs) = (key, value-IsJson v h, pairs-PairsJson ps hs)

  attributes-FieldsJson :
      (fs : Fields) → AttributesEncodable fs → FieldsJson (attributes_to_jsonable fs)
  attributes-FieldsJson end h = tt
  attributes-FieldsJson (field k v fs) (h, hs) =
      let rest = attributes-FieldsJson fs hs in
      attributes_cases FieldsJson k v fs rest (λ seen. (value-IsJson v (h seen), rest))

mutual
  unfolding to_jsonable

  value_twice : (v : Value) → to_jsonable (to_jsonable v) ≡ to_jsonable v
  value_twice null = refl
  value_twice (bool b) = refl
  value_twice (int n) = refl
  value_twice (float s) = refl
  value_twice (str s) = refl
  value_twice (list vs) = ap list (items_twice vs)
  value_twice (tuple vs) = ap list (items_twice vs)
  value_twice (set vs) = ap list (items_twice vs)
  value_twice (dict fs) = ap dict (fields_twice fs)
  value_twice (keyed ps) = ap keyed (pairs_twice ps)
  value_twice (object name fs) = ap dict (attributes_twice fs)
  value_twice (slotted s fs) = refl
  value_twice (opaque s) = refl

  items_twice : (vs : Items) → items_to_jsonable (items_to_jsonable vs) ≡ items_to_jsonable vs
  items_twice nil = refl
  items_twice (cons v vs) = cc (value_twice v, items_twice vs)

  fields_twice : (fs : Fields) → fields_to_jsonable (fields_to_jsonable fs) ≡ fields_to_jsonable fs
  fields_twice end = refl
  fields_twice (field k v fs) = cc (value_twice v, fields_twice fs)

  pairs_twice : (ps : Pairs) → pairs_to_jsonable (pairs_to_jsonable ps) ≡ pairs_to_jsonable ps
  pairs_twice no_pairs = refl
  pairs_twice (pair k v ps) = cc (value_twice v, pairs_twice ps)

  attributes_twice :
      (fs : Fields) → fields_to_jsonable (attributes_to_jsonable fs) ≡ attributes_to_jsonable fs
  attributes_twice end = refl
  attributes_twice (field k v fs) =
      let rest = attributes_twice fs in
      attributes_cases (λ gs. fields_to_jsonable gs ≡ gs) k v fs rest
        (λ seen. cc (value_twice v, rest))
