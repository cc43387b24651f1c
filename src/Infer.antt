-- ===== src/Infer.antt =====
-- crates/specforge-core/src/infer.rs: a schema, and a spec, from a sample value. The tests of
-- serde_json on numbers are parameters. The keys of a map are distinct, so each `insert` of the loop
-- over an object adds an entry.
pub mod Alike
pub mod Accepts
mod Tests
use specforge_openapi_sdk_co.Prelude.{
  ℕ, ◌+◌, String, Bool, true, false, ◌&&◌, ◌||◌, Option, none, some, List, [], ◌∷◌, ◌⊕◌, nat_eq,
  leb, ltb, if◌then◌else◌, any, map_list, Chars, codes,
}
use specforge_openapi_sdk_co.Json.{Json, Elems, Fields, of_elems, of_fields}

-- `str::len`, in bytes of UTF-8
abbrev pub byte_len : Chars → ℕ
byte_len [] = 0
byte_len (c ∷ s) =
    (if ltb c 128 then 1 else if ltb c 2048 then 2 else if ltb c 65536 then 3 else 4) + byte_len s

-- `str::contains` of a character
abbrev pub has_char : ℕ → Chars → Bool
has_char c s = any (λ d. nat_eq d c) s

-- `json!` of an object with literal keys
abbrev pub one : {N : Type 0} → String → Json N → Json N
one k v = Json.object (Fields.field k v Fields.end)

abbrev pub two : {N : Type 0} → String → Json N → String → Json N → Json N
two k v j w = Json.object (Fields.field k v (Fields.field j w Fields.end))

abbrev pub three : {N : Type 0} → String → Json N → String → Json N → String → Json N → Json N
three k v j w i x = Json.object (Fields.field k v (Fields.field j w (Fields.field i x Fields.end)))

module _ {N : Type 0} where
  unfoldable pub infer_string_schema : Chars → Json N
  infer_string_schema s =
      if has_char b'T' s && has_char b'Z' s
      then two "type" (Json.string "string") "format" (Json.string "date-time")
      else if nat_eq (byte_len s) 36 && has_char b'-' s
      then two "type" (Json.string "string") "format" (Json.string "uuid")
      else one "type" (Json.string "string")

  abbrev pub field_keys : Fields N → List String
  field_keys Fields.end = []
  field_keys (Fields.field k v fs) = k ∷ field_keys fs

  abbrev pub text_array : List String → Json N
  text_array ss = Json.array (of_elems (map_list Json.string ss))

  module _ (is_i64 is_u64 : N → Bool) where
    unfoldable mutual
      unfolding infer_string_schema

      pub infer_schema : Json N → String → Json N
      infer_schema Json.null name = two "type" (Json.string "string") "nullable" (Json.bool true)
      infer_schema (Json.bool b) name = one "type" (Json.string "boolean")
      infer_schema (Json.number n) name =
          if is_i64 n || is_u64 n
          then one "type" (Json.string "integer")
          else one "type" (Json.string "number")
      infer_schema (Json.string s) name = infer_string_schema (codes s)
      infer_schema (Json.array Elems.nil) name =
          two "type" (Json.string "array") "items" (one "type" (Json.string "string"))
      infer_schema (Json.array (Elems.cons v vs)) name =
          two "type" (Json.string "array") "items" (infer_schema v (name ⊕ "Item"))
      infer_schema (Json.object fs) name =
          three "type" (Json.string "object") "properties" (Json.object (infer_entries fs))
            "required" (text_array (field_keys fs))

      pub infer_entries : Fields N → Fields N
      infer_entries Fields.end = Fields.end
      infer_entries (Fields.field k v fs) = Fields.field k (infer_schema v k) (infer_entries fs)

-- `InferOptions`
pub record InferOptions : Type 0 where
  pub schema_name : String
  pub title : String
  pub version : String

-- `InferOptions::default()`
abbrev pub default_options : InferOptions
default_options = record { schema_name = "Inferred"; title = "Inferred API"; version = "1.0.0" }

module _ {N : Type 0} (is_i64 is_u64 : N → Bool) where
  abbrev json_content : String → Json N
  json_content path = one "application/json" (one "schema" (one ("$" ⊕ "ref") (Json.string path)))

  abbrev sample_operation : String → Json N
  sample_operation path = Json.object (
      Fields.field "operationId" (Json.string "createSample") (
        Fields.field "summary" (Json.string "Create a sample resource") (
          Fields.field "tags" (Json.array (Elems.cons (Json.string "inferred") Elems.nil)) (
            Fields.field "requestBody"
              (two "required" (Json.bool true) "content" (json_content path))
              (Fields.field "responses"
                (one "200" (
                  two "description" (Json.string "Successful response") "content"
                    (json_content path)))
                Fields.end)))))

  unfoldable pub infer_openapi : Json N → InferOptions → Json N
  unfolding infer_schema
  infer_openapi json opts =
      let schema = infer_schema is_i64 is_u64 json opts.schema_name in
      let schema_path = "#/components/schemas/" ⊕ opts.schema_name in
      Json.object (
        Fields.field "openapi" (Json.string "3.0.3") (
          Fields.field "info"
            (three "title" (Json.string opts.title) "version" (Json.string opts.version)
              "description" (Json.string "OpenAPI spec inferred from sample JSON by specforge."))
            (Fields.field "paths" (one "/sample" (one "post" (sample_operation schema_path))) (
              Fields.field "components" (one "schemas" (one opts.schema_name schema)) Fields.end))))
