-- ===== src/Webhooks.antt =====
-- crates/specforge-core/src/resolve.rs, its last part: the webhooks of a spec, as JSON, to the IR.
pub mod Described
pub mod Declared
pub mod Found
mod Tests
use Prim.Native.Char.{code}
use specforge_openapi_sdk_co.Prelude.{
  String, Bool, true, false, Option, none, some, List, [], ◌∷◌, ◌⊕◌, ◌==◌, nat_eq, if◌then◌else◌,
  for_each, lookup, unwrap_or,
}
use specforge_openapi_sdk_co.Json.{Json, Elems, Fields, fields, as_str, as_object}
use specforge_openapi_sdk_co.Ir.{Scalar, IrType, HttpMethod, RequestBody, Response, Webhook}

-- `rsplit('/').next()`, or none where there is no slash.
unfoldable pub after_slash : String → Option String
after_slash String.[] = none
after_slash (String.◌∷◌ c s) = elim (after_slash s) [
  | none ↦ if nat_eq (code c) b'/' then some s else none
  | some t ↦ some t
]

unfoldable pub ref_name : String → String
unfolding after_slash
ref_name reference = unwrap_or (after_slash reference) reference

-- `and_then`
abbrev pub and_then : {A B : Type 0} → Option A → (A → Option B) → Option B
and_then none f = none
and_then (some a) f = f a

-- The arms on the text at "type"; the type of the items is given.
abbrev pub inline_type : Option IrType → Option String → IrType
inline_type items none = IrType.unknown
inline_type items (some t) =
    if t == "string"
    then IrType.scalar Scalar.string
    else if t == "integer"
    then IrType.scalar Scalar.integer
    else if t == "number"
    then IrType.scalar Scalar.float
    else if t == "boolean"
    then IrType.scalar Scalar.boolean
    else if t == "array"
    then IrType.array (unwrap_or items IrType.unknown) false
    else if t == "object"
    then IrType.any
    else IrType.unknown

-- The type of an object with a text at "$ref", or with none.
abbrev pub type_of : Option String → Option IrType → Option String → IrType
type_of (some reference) items ty = IrType.reference (ref_name reference) false none
type_of none items ty = inline_type items ty

-- `methods`
abbrev pub methods : List (String × HttpMethod)
methods =
    ("get", HttpMethod.get)
    ∷ ("post", HttpMethod.post)
    ∷ ("put", HttpMethod.put)
    ∷ ("patch", HttpMethod.patch)
    ∷ ("delete", HttpMethod.delete)
    ∷ ("head", HttpMethod.head)
    ∷ ("options", HttpMethod.options)
    ∷ []

module _ {N : Type 0} where
  abbrev pub as_bool : Json N → Option Bool
  as_bool (Json.bool b) = some b
  as_bool _ = none

  -- The text at a key.
  abbrev pub text_at : String → List (String × Json N) → Option String
  text_at key es = and_then (lookup key es) as_str

  -- The object at a key.
  abbrev pub object_at : String → List (String × Json N) → Option (List (String × Json N))
  object_at key es = and_then (lookup key es) as_object

  unfoldable mutual
    unfolding lookup ref_name

    pub webhook_json_to_type : Json N → IrType
    webhook_json_to_type (Json.object fs) =
        type_of (text_at "$ref" (fields fs)) (items_type fs) (text_at "type" (fields fs))
    webhook_json_to_type _ = IrType.unknown

    -- `get("items").map(webhook_json_to_type)`
    pub items_type : Fields N → Option IrType
    items_type Fields.end = none
    items_type (Fields.field k v fs) =
        let here = webhook_json_to_type v in
        let later = items_type fs in if k == "items" then some here else later

  abbrev schema_type : List (String × Json N) → Option IrType
  schema_type media = elim (lookup "schema" media) [
    | none ↦ none
    | some schema ↦ some (webhook_json_to_type schema)
  ]

  -- The type of the schema for JSON in the content of a body.
  abbrev pub json_type : List (String × Json N) → Option IrType
  json_type body =
      and_then (object_at "content" body)
        (λ content. and_then (object_at "application/json" content) schema_type)

  abbrev body_of : List (String × Json N) → Option IrType → Option RequestBody
  body_of rb none = none
  body_of rb (some ty) = some (record {
    ty = ty;
    required = unwrap_or (and_then (lookup "required" rb) as_bool) false;
    description = text_at "description" rb;
  })

  unfoldable pub resolve_webhook_request_body : List (String × Json N) → Option RequestBody
  unfolding webhook_json_to_type lookup
  resolve_webhook_request_body op =
      and_then (object_at "requestBody" op) (λ rb. body_of rb (json_type rb))

  abbrev entries_of : Option (List (String × Json N)) → List (String × Json N)
  entries_of none = []
  entries_of (some es) = es

  -- A response; what is no object has neither a body nor a description.
  abbrev response_of : String → List (String × Json N) → Response
  response_of status resp = record {
    status = status;
    description = text_at "description" resp;
    body = json_type resp;
  }

  unfoldable pub resolve_webhook_responses : List (String × Json N) → List Response
  unfolding webhook_json_to_type lookup
  resolve_webhook_responses op =
      for_each (λ kv. response_of kv.0 (entries_of (as_object kv.1)) ∷ [])
        (entries_of (object_at "responses" op))

  -- The inner loop's body.
  unfoldable pub webhook_of : String → HttpMethod → Option (List (String × Json N)) → List Webhook
  unfolding resolve_webhook_request_body resolve_webhook_responses lookup
  webhook_of name method none = []
  webhook_of name method (some op) =
      record {
        name = name;
        method = method;
        path = "/webhooks/" ⊕ name;
        summary = text_at "summary" op;
        description = text_at "description" op;
        request_body = resolve_webhook_request_body op;
        responses = resolve_webhook_responses op;
      }
      ∷ []

  unfoldable pub webhooks_of : String → Option (List (String × Json N)) → List Webhook
  unfolding webhook_of lookup
  webhooks_of name none = []
  webhooks_of name (some path_obj) =
      for_each (λ m. webhook_of name m.1 (object_at m.0 path_obj)) methods

  unfoldable pub resolve_webhooks : Json N → List Webhook
  unfolding webhooks_of
  resolve_webhooks (Json.object fs) = for_each (λ kv. webhooks_of kv.0 (as_object kv.1)) (fields fs)
  resolve_webhooks _ = []
