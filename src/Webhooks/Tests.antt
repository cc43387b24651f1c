-- ===== src/Webhooks/Tests.antt =====
-- Runs of the resolving of webhooks.
use specforge_openapi_sdk_co.Prelude.{ℕ, ◌≡◌, refl, String, false, none, some, [], ◌∷◌, lookup}
use specforge_openapi_sdk_co.Json.{Json, Elems, Fields}
use specforge_openapi_sdk_co.Ir.{IrType, HttpMethod, Webhook}
use specforge_openapi_sdk_co.Webhooks.{
  after_slash, ref_name, webhook_json_to_type, resolve_webhook_request_body,
  resolve_webhook_responses, webhook_of, webhooks_of, resolve_webhooks,
}
use specforge_openapi_sdk_co.Webhooks.Declared.{Resolved}
use specforge_openapi_sdk_co.Webhooks.Found.{resolve_webhooks-Resolved}

abbrev one : String → Json ℕ → Json ℕ
one k v = Json.object (Fields.field k v Fields.end)

ref_name_runs : (ref_name "#/components/schemas/Pet" ≡ "Pet") × (ref_name "Pet" ≡ "Pet")
unfolding ref_name after_slash
ref_name_runs = (refl, refl)

abbrev content : Json ℕ
content = one "content" (one "application/json" (one "schema" (one "$ref" (Json.string "#/x/Pet"))))

abbrev hooks : Json ℕ
hooks = one "petAdded" (one "post" (one "requestBody" content))

abbrev pet_added : Webhook
pet_added = record {
  name = "petAdded";
  method = HttpMethod.post;
  path = "/webhooks/petAdded";
  summary = none;
  description = none;
  request_body =
      some
        (record { ty = IrType.reference "Pet" false none; required = false; description = none });
  responses = [];
}

hooks_run : resolve_webhooks hooks ≡ pet_added ∷ []
unfolding resolve_webhooks webhooks_of webhook_of resolve_webhook_request_body
    resolve_webhook_responses webhook_json_to_type ref_name after_slash lookup
hooks_run = refl

resolve_webhooks-Resolved_example : Resolved hooks (resolve_webhooks hooks)
resolve_webhooks-Resolved_example = resolve_webhooks-Resolved hooks

-- A type of OpenAPI 3.1 that is an array of names is unknown.
type_array_unknown :
    webhook_json_to_type (
      one "type" (
        Json.array (Elems.cons (Json.string "string") (Elems.cons (Json.string "null") Elems.nil))))
    ≡ IrType.unknown
unfolding webhook_json_to_type lookup
type_array_unknown = refl
