-- ===== src/Webhooks/Declared.antt =====
-- What the resolver of crates/specforge-core/src/resolve.rs has to make of the webhooks of a spec:
-- their bodies, their responses and their order.
use specforge_openapi_sdk_co.Prelude.{
  ◌≡◌, ◌≢◌, String, Bool, false, Option, none, some, List, [], ◌∷◌, ◌++◌, ◌⊕◌, lookup,
}
use specforge_openapi_sdk_co.Json.{Json, Fields, fields, as_object}
use specforge_openapi_sdk_co.Ir.{IrType, HttpMethod, RequestBody, Response, Webhook, as_str}
use specforge_openapi_sdk_co.Webhooks.Described.{TextAt, TypeOf}

abbrev pub all_methods : List HttpMethod
all_methods =
    HttpMethod.get ∷ HttpMethod.post ∷ HttpMethod.put ∷ HttpMethod.patch ∷ HttpMethod.delete
    ∷ HttpMethod.head ∷ HttpMethod.options ∷ []

module _ {N : Type 0} where
  -- The object at a key, if there is one.
  pub data ObjectAt (key : String) (es : List (String × Json N))
      : Option (List (String × Json N)) → Type 0 where
    an_object :
        {fs : Fields N} → lookup key es ≡ some (Json.object fs) → ObjectAt key es (some (fields fs))
    no_object : ((fs : Fields N) → lookup key es ≢ some (Json.object fs)) → ObjectAt key es none

  -- The schema for JSON in the content of a body.
  pub record JsonSchema (body : List (String × Json N)) (v : Json N) : Type 0 where
    pub content : Fields N
    pub media : Fields N
    pub is_content : lookup "content" body ≡ some (Json.object content)
    pub is_media : lookup "application/json" (fields content) ≡ some (Json.object media)
    pub is_schema : lookup "schema" (fields media) ≡ some v

  pub data BodyType (body : List (String × Json N)) : Option IrType → Type 0 where
    typed : {ty : IrType} (v : Json N) → JsonSchema body v → TypeOf v ty → BodyType body (some ty)
    no_type : ((v : Json N) → ¬ JsonSchema body v) → BodyType body none

  pub data RequiredOf (rb : List (String × Json N)) : Bool → Type 0 where
    stated : {b : Bool} → lookup "required" rb ≡ some (Json.bool b) → RequiredOf rb b
    not_stated : ((b : Bool) → lookup "required" rb ≢ some (Json.bool b)) → RequiredOf rb false

  -- A body without a type counts as none, and one that does not say so as not required.
  pub data RequestBodyOf (op : List (String × Json N)) : Option RequestBody → Type 0 where
    a_body :
        {ty : IrType} {required : Bool} {description : Option String} (rb : List (String × Json N))
        → ObjectAt "requestBody" op (some rb)
        → BodyType rb (some ty)
        → RequiredOf rb required
        → TextAt "description" rb description
        → RequestBodyOf op
            (some (record { ty = ty; required = required; description = description }))
    no_body : ObjectAt "requestBody" op none → RequestBodyOf op none
    untyped :
        (rb : List (String × Json N))
        → ObjectAt "requestBody" op (some rb)
        → BodyType rb none
        → RequestBodyOf op none

  -- The entries of an object; what is no object has none.
  pub data EntriesOf (v : Json N) : List (String × Json N) → Type 0 where
    object_entries : {es : List (String × Json N)} → as_object v ≡ some es → EntriesOf v es
    no_entries : as_object v ≡ none → EntriesOf v []

  -- A response for each status.
  pub data EachResponse : List (String × Json N) → List Response → Type 0 where
    no_more : EachResponse [] []
    one_more :
        {status : String} {v : Json N} {rest : List (String × Json N)} {responses : List Response}
        {description : Option String} {body : Option IrType} (es : List (String × Json N))
        → EntriesOf v es
        → TextAt "description" es description
        → BodyType es body
        → EachResponse rest responses
        → EachResponse
            ((status, v) ∷ rest)
            (record { status = status; description = description; body = body } ∷ responses)

  pub data ResponsesOf (op : List (String × Json N)) : List Response → Type 0 where
    responses :
        {rs : List Response} (es : List (String × Json N))
        → ObjectAt "responses" op (some es)
        → EachResponse es rs
        → ResponsesOf op rs
    no_responses : ObjectAt "responses" op none → ResponsesOf op []

  -- The webhook of an operation.
  pub record Describes (name : String) (method : HttpMethod) (op : List (String × Json N))
      (w : Webhook) : Type 0 where
    pub same_name : w.name ≡ name
    pub same_method : w.method ≡ method
    pub at_path : w.path ≡ "/webhooks/" ⊕ name
    pub summary : TextAt "summary" op w.summary
    pub description : TextAt "description" op w.description
    pub request_body : RequestBodyOf op w.request_body
    pub responses : ResponsesOf op w.responses

  -- A webhook for each of the methods at whose key there is an object.
  pub data OperationsOf (name : String) (item : List (String × Json N))
      : List HttpMethod → List Webhook → Type 0 where
    done : OperationsOf name item [] []
    present :
        {m : HttpMethod} {ms : List HttpMethod} {w : Webhook} {ws : List Webhook}
        (op : List (String × Json N))
        → ObjectAt (as_str m) item (some op)
        → Describes name m op w
        → OperationsOf name item ms ws
        → OperationsOf name item (m ∷ ms) (w ∷ ws)
    absent :
        {m : HttpMethod} {ms : List HttpMethod} {ws : List Webhook}
        → ObjectAt (as_str m) item none
        → OperationsOf name item ms ws
        → OperationsOf name item (m ∷ ms) ws

  -- The webhooks of each entry that is an object, one entry after another.
  pub data HooksOf : List (String × Json N) → List Webhook → Type 0 where
    no_entry : HooksOf [] []
    an_entry :
        {name : String} {v : Json N} {es : List (String × Json N)} {ws more : List Webhook}
        (item : List (String × Json N))
        → as_object v ≡ some item
        → OperationsOf name item all_methods ws
        → HooksOf es more
        → HooksOf ((name, v) ∷ es) (ws ++ more)
    skipped :
        {name : String} {v : Json N} {es : List (String × Json N)} {more : List Webhook}
        → as_object v ≡ none
        → HooksOf es more
        → HooksOf ((name, v) ∷ es) more

  pub data Resolved (json : Json N) : List Webhook → Type 0 where
    from_object :
        {ws : List Webhook} (es : List (String × Json N))
        → as_object json ≡ some es
        → HooksOf es ws
        → Resolved json ws
    from_other : as_object json ≡ none → Resolved json []
