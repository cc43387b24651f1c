-- ===== src/Json.antt =====
-- `serde_json::Value`. Its numbers belong to serde_json and are a parameter; an object is the list
-- of its entries, in the order in which the map is read.
use specforge_openapi_sdk_co.Prelude.{
  String, Bool, true, false, Option, none, some, List, [], ◌∷◌, lookup,
}

mutual
  pub data Json (N : Type 0) : Type 0 where
    null : Json N
    bool : Bool → Json N
    number : N → Json N
    string : String → Json N
    array : Elems N → Json N
    object : Fields N → Json N

  pub data Elems (N : Type 0) : Type 0 where
    nil : Elems N
    cons : Json N → Elems N → Elems N

  pub data Fields (N : Type 0) : Type 0 where
    end : Fields N
    field : String → Json N → Fields N → Fields N

module _ {N : Type 0} where
  abbrev pub elems : Elems N → List (Json N)
  elems nil = []
  elems (cons v vs) = v ∷ elems vs

  abbrev pub fields : Fields N → List (String × Json N)
  fields end = []
  fields (field k v fs) = (k, v) ∷ fields fs

  abbrev pub of_elems : List (Json N) → Elems N
  of_elems [] = nil
  of_elems (v ∷ vs) = cons v (of_elems vs)

  abbrev pub of_fields : List (String × Json N) → Fields N
  of_fields [] = end
  of_fields ((k, v) ∷ fs) = field k v (of_fields fs)

  abbrev pub is_null : Json N → Bool
  is_null null = true
  is_null _ = false

  abbrev pub as_str : Json N → Option String
  as_str (string s) = some s
  as_str _ = none

  abbrev pub as_array : Json N → Option (List (Json N))
  as_array (array vs) = some (elems vs)
  as_array _ = none

  abbrev pub as_object : Json N → Option (List (String × Json N))
  as_object (object fs) = some (fields fs)
  as_object _ = none

  -- `Value::get` with a key: none unless the value is an object that has it.
  unfoldable pub get : Json N → String → Option (Json N)
  unfolding lookup
  get (object fs) key = lookup key (fields fs)
  get _ key = none
