-- ===== src/Value.antt =====
-- The Python values that the program passes round (`Any`): JSON values, the other containers that
-- state.py meets, and objects. Cyclic values are left out.
use fastapi_agent_protocol.Base.{
  zero, suc, String, ◌≡◌, refl, ap, Bool, true, false, not, ◌&&◌, ◌||◌, Option, none, some, List,
  [], ◌∷◌, ◌==◌, string_eq, if◌then◌else◌,
}
use fastapi_agent_protocol.Base.Int.{ℤ, pos, negsuc}
use fastapi_agent_protocol.Base.Dict
use fastapi_agent_protocol.Base.Dict.{Dict}

mutual
  pub data Value : Type 0 where
    null : Value
    bool : Bool → Value
    int : ℤ → Value
    -- a float by its text
    float : String → Value
    str : String → Value
    list : Items → Value
    tuple : Items → Value
    -- a set or a frozenset, in its order of iteration
    set : Items → Value
    -- a dict whose keys are texts
    dict : Fields → Value
    -- a dict that has other keys too
    keyed : Pairs → Value
    -- a class name and the attributes that `vars` shows
    object : String → Fields → Value
    -- an object with `__slots__`, which has no `__dict__`: what `str` makes of it, and the
    -- attributes that `getattr` finds
    slotted : String → Fields → Value
    -- another value without `__dict__`, or a class: what `str` makes of it
    opaque : String → Value

  pub data Items : Type 0 where
    nil : Items
    cons : Value → Items → Items

  pub data Pairs : Type 0 where
    no_pairs : Pairs
    pair : Value → Value → Pairs → Pairs

  pub data Fields : Type 0 where
    end : Fields
    field : String → Value → Fields → Fields

abbrev pub to_list : Items → List Value
to_list nil = []
to_list (cons v vs) = v ∷ to_list vs

abbrev pub of_list : List Value → Items
of_list [] = nil
of_list (v ∷ vs) = cons v (of_list vs)

abbrev pub to_dict : Fields → Dict String Value
to_dict end = []
to_dict (field k v fs) = (k, v) ∷ to_dict fs

abbrev pub of_dict : Dict String Value → Fields
of_dict [] = end
of_dict ((k, v) ∷ d) = field k v (of_dict d)

abbrev pub empty_dict : Value
empty_dict = dict end

pub to_dict-of_dict : (d : Dict String Value) → to_dict (of_dict d) ≡ d
to_dict-of_dict [] = refl
to_dict-of_dict (entry ∷ d) = ap (λ (r : Dict String Value). entry ∷ r) (to_dict-of_dict d)

pub of_dict-to_dict : (fs : Fields) → of_dict (to_dict fs) ≡ fs
of_dict-to_dict end = refl
of_dict-to_dict (field k v fs) = ap (field k v) (of_dict-to_dict fs)

abbrev items_truthy : Items → Bool
items_truthy nil = false
items_truthy (cons _ _) = true

-- `bool(s)` of a text
abbrev pub text_truthy : String → Bool
text_truthy String.[] = false
text_truthy (String.◌∷◌ _ _) = true

-- `bool(v)`. A float is read by its text: `0.0` and `-0.0` are the two false ones.
unfoldable pub truthy : Value → Bool
truthy null = false
truthy (bool b) = b
truthy (int (pos zero)) = false
truthy (int (pos (suc n))) = true
truthy (int (negsuc n)) = true
truthy (float s) = not (s == "0.0" || s == "-0.0")
truthy (str s) = text_truthy s
truthy (list vs) = items_truthy vs
truthy (tuple vs) = items_truthy vs
truthy (set vs) = items_truthy vs
truthy (dict end) = false
truthy (dict (field _ _ _)) = true
truthy (object _ _) = true
truthy (keyed _) = true
truthy (slotted _ _) = true
truthy (opaque _) = true

-- Whether `hash(v)` has a value. An object is taken to have the hash of its identity.
unfoldable mutual
  pub hashable : Value → Bool
  hashable (list vs) = false
  hashable (set vs) = false
  hashable (dict fs) = false
  hashable (keyed ps) = false
  hashable (tuple vs) = all_hashable vs
  hashable _ = true

  pub all_hashable : Items → Bool
  all_hashable nil = true
  all_hashable (cons v vs) = hashable v && all_hashable vs

-- `v.get(k)` where `v` is a dict
unfoldable pub get_field : String → Fields → Option Value
get_field k fs = Dict.lookup k (to_dict fs)

-- `v.get(k)` where a missing key reads as `None`
unfoldable pub get_or_null : String → Fields → Value
unfolding get_field
get_or_null k fs = elim (get_field k fs) [ none ↦ null | some v ↦ v ]

-- The same for a dict that has other keys too
abbrev pub pairs_or_null : String → Pairs → Value
pairs_or_null k no_pairs = null
pairs_or_null k (pair (str j) v ps) = if k == j then v else pairs_or_null k ps
pairs_or_null k (pair _ v ps) = pairs_or_null k ps
