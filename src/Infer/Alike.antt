-- ===== src/Infer/Alike.antt =====
-- Which values the schemas of crates/specforge-core/src/infer.rs accept.
use specforge_openapi_sdk_co.Prelude.{
  String, Bool, true, false, ◌&&◌, ◌||◌, Option, none, some, List, [], ◌∷◌, ◌==◌, if◌then◌else◌,
  all, lookup, is_some,
}
use specforge_openapi_sdk_co.Json.{Json, Elems, Fields, elems, fields, get}
use specforge_openapi_sdk_co.Infer.{field_keys}

module _ {N : Type 0} where
  abbrev pub is_text : String → Option (Json N) → Bool
  is_text t (some (Json.string s)) = s == t
  is_text t _ = false

  abbrev pub is_true : Option (Json N) → Bool
  is_true (some (Json.bool b)) = b
  is_true _ = false

  abbrev pub object_entries : Option (Json N) → List (String × Json N)
  object_entries (some (Json.object fs)) = fields fs
  object_entries _ = []

  abbrev pub texts : List (Json N) → List String
  texts [] = []
  texts (Json.string s ∷ vs) = s ∷ texts vs
  texts (_ ∷ vs) = texts vs

  abbrev pub array_texts : Option (Json N) → List String
  array_texts (some (Json.array vs)) = texts (elems vs)
  array_texts _ = []

  -- The object has an entry at each of the keys.
  abbrev pub has_all : List String → List (String × Json N) → Bool
  has_all ks es = all (λ k. is_some (lookup k es)) ks

  abbrev pub null_like : Json N → Bool
  null_like Json.null = true
  null_like _ = false

  abbrev pub bool_like : Json N → Bool
  bool_like (Json.bool b) = true
  bool_like _ = false

  -- Null stands for a text that may be null.
  abbrev pub text_like : Json N → Bool
  text_like Json.null = true
  text_like (Json.string s) = true
  text_like _ = false

  -- The sample's elements are like the first of them; without one they are texts.
  abbrev pub item_sample : Elems N → Json N
  item_sample Elems.nil = Json.string ""
  item_sample (Elems.cons v vs) = v

module _ {N : Type 0} (is_i64 is_u64 : N → Bool) where
  -- OpenAPI 3.0 on the keywords `type`, `nullable`, `items`, `properties` and `required`.
  unfoldable mutual
    unfolding get lookup

    pub accepts : Json N → Json N → Bool
    accepts schema Json.null = is_true (get schema "nullable")
    accepts schema (Json.bool b) = is_text "boolean" (get schema "type")
    accepts schema (Json.number n) =
        is_text "number" (get schema "type")
        || is_text "integer" (get schema "type") && (is_i64 n || is_u64 n)
    accepts schema (Json.string s) = is_text "string" (get schema "type")
    accepts schema (Json.array vs) =
        is_text "array" (get schema "type") && accepts_each (get schema "items") vs
    accepts schema (Json.object fs) =
        is_text "object" (get schema "type")
        && has_all (array_texts (get schema "required")) (fields fs)
        && accepts_values (object_entries (get schema "properties")) fs

    pub accepts_each : Option (Json N) → Elems N → Bool
    accepts_each none vs = true
    accepts_each (some item) Elems.nil = true
    accepts_each (some item) (Elems.cons v vs) = accepts item v && accepts_each (some item) vs

    pub accepts_values : List (String × Json N) → Fields N → Bool
    accepts_values properties Fields.end = true
    accepts_values properties (Fields.field k v fs) =
        (elim (lookup k properties) [ none ↦ true | some s ↦ accepts s v ])
        && accepts_values properties fs

  -- A sample that is an integer stands for integers, any other number for all.
  abbrev pub number_like : Json N → N → Bool
  number_like (Json.number m) n = if is_i64 m || is_u64 m then is_i64 n || is_u64 n else true
  number_like _ n = false

  -- The second value is like the sample: of the same kind, with elements like the first element of
  -- the sample, and with all the entries of the sample and those like the sample's.
  unfoldable mutual
    unfolding lookup

    pub alike : Json N → Json N → Bool
    alike sample Json.null = null_like sample
    alike sample (Json.bool b) = bool_like sample
    alike sample (Json.number n) = number_like sample n
    alike sample (Json.string s) = text_like sample
    alike (Json.array vs) (Json.array ws) = alike_each (item_sample vs) ws
    alike sample (Json.array ws) = false
    alike (Json.object fs) (Json.object gs) =
        has_all (field_keys fs) (fields gs) && alike_values (fields fs) gs
    alike sample (Json.object gs) = false

    pub alike_each : Json N → Elems N → Bool
    alike_each sample Elems.nil = true
    alike_each sample (Elems.cons w ws) = alike sample w && alike_each sample ws

    pub alike_values : List (String × Json N) → Fields N → Bool
    alike_values samples Fields.end = true
    alike_values samples (Fields.field k w gs) =
        (elim (lookup k samples) [ none ↦ true | some v ↦ alike v w ]) && alike_values samples gs
