-- ===== src/Webhooks/Found.antt =====
-- `resolve_webhooks` of crates/specforge-core/src/resolve.rs finds the webhooks that a spec declares.
use specforge_openapi_sdk_co.Prelude.{
  ◌≡◌, refl, String, false, Option, none, some, List, [], ◌∷◌, ◌++◌, lookup, for_each, map_list,
  unwrap_or, subst, sym,
}
use specforge_openapi_sdk_co.Json.{Json, Fields, fields, as_object}
use specforge_openapi_sdk_co.Ir.{IrType, HttpMethod, Webhook, as_str}
use specforge_openapi_sdk_co.Webhooks.{
  and_then, as_bool, object_at, methods, schema_type, json_type, body_of, entries_of, response_of,
  resolve_webhook_request_body, resolve_webhook_responses, webhook_of, webhooks_of,
  resolve_webhooks,
}
use specforge_openapi_sdk_co.Webhooks.Described.{text_at-TextAt, webhook_json_to_type-TypeOf}
use specforge_openapi_sdk_co.Webhooks.Declared.{
  ObjectAt, BodyType, RequiredOf, RequestBodyOf, EntriesOf, EachResponse, ResponsesOf, OperationsOf,
  HooksOf, Resolved, all_methods,
}

-- The keys of the code's table are the names of the methods.
methods-as_str : methods ≡ map_list (λ m. (as_str m, m)) all_methods
unfolding as_str
methods-as_str = refl

module _ {N : Type 0} where
  object_at-ObjectAt :
      (key : String) (es : List (String × Json N)) → ObjectAt key es (object_at key es)
  object_at-ObjectAt key es = found (lookup key es) refl
    where
      found : (o : Option (Json N)) → lookup key es ≡ o → ObjectAt key es (and_then o as_object)
      found none e = ObjectAt.no_object (λ fs h. cc)
      found (some (Json.object fs)) e = ObjectAt.an_object e
      found (some Json.null) e = ObjectAt.no_object (λ fs h. cc)
      found (some (Json.bool b)) e = ObjectAt.no_object (λ fs h. cc)
      found (some (Json.number n)) e = ObjectAt.no_object (λ fs h. cc)
      found (some (Json.string s)) e = ObjectAt.no_object (λ fs h. cc)
      found (some (Json.array vs)) e = ObjectAt.no_object (λ fs h. cc)

  module _ (body : List (String × Json N)) where
    schema-BodyType :
        (content media : Fields N)
        → lookup "content" body ≡ some (Json.object content)
        → lookup "application/json" (fields content) ≡ some (Json.object media)
        → BodyType body (schema_type (fields media))
    schema-BodyType content media c m = found (lookup "schema" (fields media)) refl
      where
        found :
            (o : Option (Json N))
            → lookup "schema" (fields media) ≡ o
            → BodyType body (schema_type (fields media))
        found none e =
            rw (e, schema_type)
              (BodyType.no_type
                (λ v j. absurd (cc (e, c, m, j.is_content, j.is_media, j.is_schema))))
        found (some v) e =
            rw (e, schema_type)
              (BodyType.typed v
                (record {
                  content = content;
                  media = media;
                  is_content = c;
                  is_media = m;
                  is_schema = e;
                })
                (webhook_json_to_type-TypeOf v))

    media-BodyType :
        (content : Fields N) (o : Option (List (String × Json N)))
        → lookup "content" body ≡ some (Json.object content)
        → ObjectAt "application/json" (fields content) o
        → BodyType body (and_then o schema_type)
    media-BodyType content _ c (ObjectAt.an_object {fs} m) = schema-BodyType content fs c m
    media-BodyType content _ c (ObjectAt.no_object h) =
        BodyType.no_type (λ v j. h j.media (cc (c, j.is_content, j.is_media)))

    content-BodyType :
        (o : Option (List (String × Json N)))
        → ObjectAt "content" body o
        → BodyType body
            (and_then o (λ content. and_then (object_at "application/json" content) schema_type))
    content-BodyType _ (ObjectAt.an_object {fs} c) =
        media-BodyType fs _ c (object_at-ObjectAt "application/json" (fields fs))
    content-BodyType _ (ObjectAt.no_object h) = BodyType.no_type (λ v j. h j.content j.is_content)

    json_type-BodyType : BodyType body (json_type body)
    json_type-BodyType = content-BodyType _ (object_at-ObjectAt "content" body)

    required-RequiredOf :
        RequiredOf body (unwrap_or (and_then (lookup "required" body) as_bool) false)
    required-RequiredOf = found (lookup "required" body) refl
      where
        found :
            (o : Option (Json N))
            → lookup "required" body ≡ o
            → RequiredOf body (unwrap_or (and_then o as_bool) false)
        found none e = RequiredOf.not_stated (λ b h. cc)
        found (some (Json.bool b)) e = RequiredOf.stated e
        found (some (Json.object fs)) e = RequiredOf.not_stated (λ b h. cc)
        found (some Json.null) e = RequiredOf.not_stated (λ b h. cc)
        found (some (Json.number n)) e = RequiredOf.not_stated (λ b h. cc)
        found (some (Json.string s)) e = RequiredOf.not_stated (λ b h. cc)
        found (some (Json.array vs)) e = RequiredOf.not_stated (λ b h. cc)

  body_of-RequestBodyOf :
      (op rb : List (String × Json N)) (ty : Option IrType)
      → ObjectAt "requestBody" op (some rb)
      → BodyType rb ty
      → RequestBodyOf op (body_of rb ty)
  body_of-RequestBodyOf op rb none found t = RequestBodyOf.untyped rb found t
  body_of-RequestBodyOf op rb (some ty) found t =
      RequestBodyOf.a_body rb found t (required-RequiredOf rb) (text_at-TextAt "description" rb)

  request_body-RequestBodyOf :
      (op : List (String × Json N)) (o : Option (List (String × Json N)))
      → ObjectAt "requestBody" op o
      → RequestBodyOf op (and_then o (λ rb. body_of rb (json_type rb)))
  request_body-RequestBodyOf op none h = RequestBodyOf.no_body h
  request_body-RequestBodyOf op (some rb) h =
      body_of-RequestBodyOf op rb (json_type rb) h (json_type-BodyType rb)

  entries_of-EntriesOf : (v : Json N) → EntriesOf v (entries_of (as_object v))
  entries_of-EntriesOf (Json.object fs) = EntriesOf.object_entries refl
  entries_of-EntriesOf Json.null = EntriesOf.no_entries refl
  entries_of-EntriesOf (Json.bool b) = EntriesOf.no_entries refl
  entries_of-EntriesOf (Json.number n) = EntriesOf.no_entries refl
  entries_of-EntriesOf (Json.string s) = EntriesOf.no_entries refl
  entries_of-EntriesOf (Json.array vs) = EntriesOf.no_entries refl

  responses-EachResponse :
      (es : List (String × Json N))
      → EachResponse es (for_each (λ kv. response_of kv.0 (entries_of (as_object kv.1)) ∷ []) es)
  responses-EachResponse [] = EachResponse.no_more
  responses-EachResponse ((status, v) ∷ es) =
      EachResponse.one_more (entries_of (as_object v)) (entries_of-EntriesOf v)
        (text_at-TextAt "description" (entries_of (as_object v)))
        (json_type-BodyType (entries_of (as_object v))) (responses-EachResponse es)

  responses-ResponsesOf :
      (op : List (String × Json N)) (o : Option (List (String × Json N)))
      → ObjectAt "responses" op o
      → ResponsesOf op
          (for_each (λ kv. response_of kv.0 (entries_of (as_object kv.1)) ∷ []) (entries_of o))
  responses-ResponsesOf op none h = ResponsesOf.no_responses h
  responses-ResponsesOf op (some es) h = ResponsesOf.responses es h (responses-EachResponse es)

  webhook_of-OperationsOf :
      (name : String) (item : List (String × Json N)) (m : HttpMethod) (ms : List HttpMethod)
      (ws : List Webhook) (o : Option (List (String × Json N)))
      → ObjectAt (as_str m) item o
      → OperationsOf name item ms ws
      → OperationsOf name item (m ∷ ms) (webhook_of name m o ++ ws)
  unfolding webhook_of resolve_webhook_request_body resolve_webhook_responses
  webhook_of-OperationsOf name item m ms ws none h later = OperationsOf.absent h later
  webhook_of-OperationsOf name item m ms ws (some op) h later =
      OperationsOf.present op h
        (record {
          same_name = refl;
          same_method = refl;
          at_path = refl;
          summary = text_at-TextAt "summary" op;
          description = text_at-TextAt "description" op;
          request_body = request_body-RequestBodyOf op _ (object_at-ObjectAt "requestBody" op);
          responses = responses-ResponsesOf op _ (object_at-ObjectAt "responses" op);
        })
        later

  each_method-OperationsOf :
      (name : String) (item : List (String × Json N)) (ms : List HttpMethod)
      → OperationsOf name item ms (
          for_each
            (λ (me : String × HttpMethod). webhook_of name me.1 (object_at me.0 item))
            (map_list (λ m. (as_str m, m)) ms))
  each_method-OperationsOf name item [] = OperationsOf.done
  each_method-OperationsOf name item (m ∷ ms) =
      webhook_of-OperationsOf name item m ms _ (object_at (as_str m) item)
        (object_at-ObjectAt (as_str m) item) (each_method-OperationsOf name item ms)

  webhooks_of-OperationsOf :
      (name : String) (item : List (String × Json N))
      → OperationsOf name item all_methods (webhooks_of name (some item))
  unfolding webhooks_of
  webhooks_of-OperationsOf name item =
      subst
        (λ table. OperationsOf name item all_methods (
          for_each (λ (me : String × HttpMethod). webhook_of name me.1 (object_at me.0 item))
            table))
        (sym methods-as_str) (each_method-OperationsOf name item all_methods)

  webhooks_of-HooksOf :
      (name : String) (v : Json N) (es : List (String × Json N)) (more : List Webhook)
      (o : Option (List (String × Json N)))
      → as_object v ≡ o
      → HooksOf es more
      → HooksOf ((name, v) ∷ es) (webhooks_of name o ++ more)
  webhooks_of-HooksOf name v es more none e later = unfold webhooks_of in HooksOf.skipped e later
  webhooks_of-HooksOf name v es more (some item) e later =
      HooksOf.an_entry item e (webhooks_of-OperationsOf name item) later

  each_entry-HooksOf :
      (es : List (String × Json N))
      → HooksOf es (for_each (λ kv. webhooks_of kv.0 (as_object kv.1)) es)
  each_entry-HooksOf [] = HooksOf.no_entry
  each_entry-HooksOf ((name, v) ∷ es) =
      webhooks_of-HooksOf name v es _ (as_object v) refl (each_entry-HooksOf es)

  -- For any JSON the webhooks resolved are, in the order of the entries of an object and for each
  -- entry in that of the methods, those of the operations that the entries have at the methods'
  -- keys: with their texts, with a body whose type is read off the schema for JSON and that is
  -- required only if it says so, and with a response for each status.
  pub resolve_webhooks-Resolved : (json : Json N) → Resolved json (resolve_webhooks json)
  unfolding resolve_webhooks
  resolve_webhooks-Resolved (Json.object fs) =
      Resolved.from_object (fields fs) refl (each_entry-HooksOf (fields fs))
  resolve_webhooks-Resolved Json.null = Resolved.from_other refl
  resolve_webhooks-Resolved (Json.bool b) = Resolved.from_other refl
  resolve_webhooks-Resolved (Json.number n) = Resolved.from_other refl
  resolve_webhooks-Resolved (Json.string s) = Resolved.from_other refl
  resolve_webhooks-Resolved (Json.array vs) = Resolved.from_other refl
