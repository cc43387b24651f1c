-- ===== src/Mock/Tests.antt =====
-- Runs of crates/specforge-core/src/mock.rs on a small document.
use specforge_openapi_sdk_co.Prelude.{
  ℕ, String, ◌≡◌, ◌≤◌, ◌<◌, refl, All, true, false, none, some, List, [], ◌∷◌, length, inl, lookup,
  insert,
}
use specforge_openapi_sdk_co.Json.{Json, Elems, Fields}
use specforge_openapi_sdk_co.Ir.{
  Scalar, IrType, HttpMethod, Property, ObjectModel, Model, SchemaRegistry, get_model, Operation,
  Response, Document, ir_version, upper,
}
use specforge_openapi_sdk_co.Diff.Version.{parse_u16}
use specforge_openapi_sdk_co.Validate.{Host}
use specforge_openapi_sdk_co.Validate.Conforms.{Conforms}
use specforge_openapi_sdk_co.Mock.{
  Printer, Route, scalar_example, insert_examples, object_example, generate_example_from_model,
  generate_step, generate_example_json, pick_success_response, routes_of, from_doc, find_route,
  status_line, answer,
}
use specforge_openapi_sdk_co.Mock.Examples.{
  Exemplary, EachExemplary, generate_example_json-Conforms,
}
use specforge_openapi_sdk_co.Mock.Answers.{AllExemplary}
use specforge_openapi_sdk_co.Mock.Routes.{generate_example_json-loops, from_doc-status}

-- Numbers are natural, and every one is an integer.
abbrev host : Host
host = record {
  Number = ℕ;
  is_i64 = λ n. true;
  is_u64 = λ n. true;
  debug = λ vs. "";
  display = λ n. "";
}

abbrev printer : Printer ℕ
printer = record { zero_integer = 0; zero_float = 0; to_string_pretty = λ v. "{...}" }

abbrev property : String → IrType → Property
property n t = record { name = n; ty = t; required = true; description = none }

abbrev refer : String → IrType
refer n = IrType.reference n false none

abbrev object : List Property → Model
object ps = Model.object (record {
  name = "";
  description = none;
  properties = ps;
  additional_properties = none;
  shape_type = none;
  base_type = none;
})

abbrev next : Property
next = property "next" (refer "Node")

abbrev schemas : SchemaRegistry
schemas = record {
  models =
      (
        "Pet",
        object (
            property "id" (IrType.scalar Scalar.integer)
            ∷ property "tags" (IrType.array (IrType.scalar Scalar.string) false)
            ∷ []),
      )
      ∷ ("Node", object (next ∷ []))
      ∷ [];
}

example_run :
    generate_example_json printer schemas 3 (refer "Pet")
    ≡ some (
        Json.object (
          Fields.field "id" (Json.number 0) (
            Fields.field "tags"
              (Json.array (Elems.cons (Json.string "string") Elems.nil))
              Fields.end)))
unfolding generate_example_json generate_step generate_example_from_model object_example
    insert_examples scalar_example get_model lookup insert
example_run = refl

pet-Exemplary : Exemplary schemas (refer "Pet")
unfolding get_model lookup
pet-Exemplary = Exemplary.shapeless refl refl (
    EachExemplary.more (refl, tt) Exemplary.scalar
      (EachExemplary.more tt (Exemplary.array Exemplary.scalar) EachExemplary.done))

generate_example_json-Conforms_example :
    (fuel : ℕ) × (v : Json ℕ) × (generate_example_json printer schemas fuel (refer "Pet") ≡ some v)
    × Conforms host schemas v (refer "Pet")
generate_example_json-Conforms_example =
    generate_example_json-Conforms host printer refl schemas (refer "Pet") pet-Exemplary

abbrev node : ObjectModel
node = record {
  name = "";
  description = none;
  properties = next ∷ [];
  additional_properties = none;
  shape_type = none;
  base_type = none;
}

node_found : get_model schemas "Node" ≡ some (Model.object node)
unfolding get_model lookup
node_found = refl

generate_example_json-loops_example :
    generate_example_json printer schemas 100 (refer "Node") ≡ none
generate_example_json-loops_example =
    generate_example_json-loops printer schemas "Node" false false none none node next 100
      node_found (inl refl) refl

abbrev respond : String → Response
respond s = record { status = s; description = none; body = some (refer "Pet") }

abbrev show_pet : Operation
show_pet = record {
  operation_id = "showPet";
  method = HttpMethod.get;
  path = "/pets/{id}";
  tag = none;
  summary = none;
  description = none;
  parameters = [];
  request_body = none;
  responses = respond "404" ∷ respond "201" ∷ [];
  retry_policy = none;
}

abbrev doc : Document
doc = record {
  ir_version = ir_version;
  title = "Pets";
  version = "1";
  base_url = none;
  security = [];
  schemas = schemas;
  operations = show_pet ∷ [];
  webhooks = [];
}

abbrev routes : List Route
routes = record { method = "GET"; path = "/pets/{id}"; status = 201; body = "{...}" } ∷ []

built : from_doc printer 3 doc ≡ some routes
unfolding from_doc routes_of pick_success_response parse_u16 upper generate_example_json
    generate_step generate_example_from_model object_example insert_examples scalar_example
    get_model lookup insert
built = refl

doc-AllExemplary : AllExemplary schemas (show_pet ∷ [])
doc-AllExemplary = ((pet-Exemplary, (pet-Exemplary, tt)), tt)

from_doc-status_example :
    (fuel : ℕ) × (rs : List Route) × (from_doc printer fuel doc ≡ some rs)
    × (length rs ≡ 1)
    × All (λ r. (200 ≤ r.status) × (r.status < 300)) rs
from_doc-status_example = from_doc-status printer doc doc-AllExemplary

-- A request for a pet by its id is answered with 404.
answer_misses : (answer (λ m. m) routes "GET" "/pets/7").0 ≡ "HTTP/1.1 404 Not Found"
unfolding answer find_route
answer_misses = refl

-- A 202 is answered with the line of 200.
status_line_accepted : status_line 202 ≡ "HTTP/1.1 200 OK"
unfolding status_line
status_line_accepted = refl
