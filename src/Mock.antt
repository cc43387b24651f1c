-- ===== src/Mock.antt =====
-- crates/specforge-core/src/mock.rs: the routes of the mock server, the examples that it answers
-- with, and what it answers to a request. A reference makes the recursion of
-- `generate_example_json` unbounded, so it takes fuel, one unit for each call, and `none` says that
-- it ran out.
pub mod Fuel
pub mod Examples
pub mod Answers
pub mod Routes
mod Tests
use specforge_openapi_sdk_co.Prelude.{
  ℕ, zero, suc, String, Bool, true, false, ◌&&◌, Option, none, some, List, [], ◌∷◌, ◌⊕◌, ◌==◌, leb,
  ltb, nat_eq, if◌then◌else◌, find, insert,
}
use specforge_openapi_sdk_co.Json.{Json, Elems, Fields, of_elems, of_fields}
use specforge_openapi_sdk_co.Ir.{
  Scalar, CompositionKind, IrType, IrTypes, members, Property, EnumVariant, ObjectModel, Model,
  SchemaRegistry, get_model, Operation, Response, Document, upper,
}
use specforge_openapi_sdk_co.Diff.Version.{parse_u16}

-- What the code takes from serde_json: the numbers 0 and 0.0, and the printing of a value, which
-- does not fail.
pub record Printer (Number : Type 0) : Type 0 where
  pub zero_integer : Number
  pub zero_float : Number
  pub to_string_pretty : Json Number → String

-- `Route`; a `u16` is ℕ.
pub record Route : Type 0 where
  pub method : String
  pub path : String
  pub status : ℕ
  pub body : String

abbrev pub success_status : Option ℕ → Option ℕ
success_status none = none
success_status (some status) = if leb 200 status && ltb status 300 then some status else none

abbrev route_of : Operation → Option (ℕ × String) → Option Route
route_of op none = none
route_of op (some (status, body)) =
    some (record { method = upper op.method; path = op.path; status = status; body = body })

abbrev pub push_route : Option Route → Option (List Route) → Option (List Route)
push_route (some route) (some routes) = some (route ∷ routes)
push_route _ _ = none

module _ {Number : Type 0} (printer : Printer Number) where
  unfoldable pub scalar_example : Scalar → Json Number
  scalar_example Scalar.string = Json.string "string"
  scalar_example Scalar.date_time = Json.string "2024-01-01T00:00:00Z"
  scalar_example Scalar.uuid = Json.string "00000000-0000-0000-0000-000000000000"
  scalar_example Scalar.integer = Json.number printer.zero_integer
  scalar_example Scalar.integer64 = Json.number printer.zero_integer
  scalar_example Scalar.float = Json.number printer.zero_float
  scalar_example Scalar.boolean = Json.bool false
  scalar_example Scalar.base64 = Json.string "c2FtcGxl"
  scalar_example Scalar.binary = Json.string "binary"

  abbrev pub first_variant : List String → Json Number
  first_variant [] = Json.string "value"
  first_variant (v ∷ vs) = Json.string v

  abbrev pub enum_example : List EnumVariant → Json Number
  enum_example [] = Json.string "value"
  enum_example (v ∷ vs) = Json.string v.value

  abbrev pub vec_of : Option (Json Number) → Option (Json Number)
  vec_of none = none
  vec_of (some v) = some (Json.array (Elems.cons v Elems.nil))

  abbrev pub map_of : Option (Json Number) → Option (Json Number)
  map_of none = none
  map_of (some v) = some (Json.object (Fields.field "key" v Fields.end))

  abbrev pub object_of : Option (List (String × Json Number)) → Option (Json Number)
  object_of none = none
  object_of (some map) = some (Json.object (of_fields map))

  module _ (generate : IrType → Option (Json Number)) where
    -- The loop of `object_example`, from the map so far.
    unfoldable pub insert_examples :
        List (String × Json Number) → List Property → Option (List (String × Json Number))
    unfolding insert
    insert_examples map [] = some map
    insert_examples map (prop ∷ props) = elim (generate prop.ty) [
      | none ↦ none
      | some value ↦ insert_examples (insert prop.name value map) props
    ]

    unfoldable pub object_example : ObjectModel → Option (Json Number)
    object_example obj = object_of (insert_examples [] obj.properties)

    unfoldable pub generate_example_from_model : Option Model → Option (Json Number)
    generate_example_from_model none = some Json.null
    generate_example_from_model (some (Model.object obj)) = object_example obj
    generate_example_from_model (some (Model.enumeration e)) = some (enum_example e.variants)

    abbrev pub first_member : List IrType → Option (Json Number)
    first_member [] = some Json.null
    first_member (m ∷ ms) = generate m

    unfoldable pub generate_step : SchemaRegistry → IrType → Option (Json Number)
    unfolding get_model
    generate_step schemas (IrType.scalar s) = some (scalar_example s)
    generate_step schemas (IrType.string_enum variants _) = some (first_variant variants)
    generate_step schemas (IrType.array item _) = vec_of (generate item)
    generate_step schemas (IrType.map value) = map_of (generate value)
    generate_step schemas (IrType.reference name _ _) =
        generate_example_from_model (get_model schemas name)
    generate_step schemas (IrType.composition _ ms _) = first_member (members ms)
    generate_step schemas IrType.any = some (Json.object Fields.end)
    generate_step schemas IrType.unknown = some Json.null

  unfoldable pub generate_example_json : SchemaRegistry → ℕ → IrType → Option (Json Number)
  generate_example_json schemas zero ty = none
  generate_example_json schemas (suc fuel) ty =
      generate_step (generate_example_json schemas fuel) schemas ty

  abbrev pub printed : ℕ → Option (Json Number) → Option (ℕ × String)
  printed status none = none
  printed status (some json) = some (status, printer.to_string_pretty json)

  abbrev pub success_body : SchemaRegistry → ℕ → ℕ → Option IrType → Option (ℕ × String)
  success_body schemas fuel status none = some (status, "{}")
  success_body schemas fuel status (some ty) =
      printed status (generate_example_json schemas fuel ty)

  unfoldable pub pick_success_response : SchemaRegistry → ℕ → List Response → Option (ℕ × String)
  unfolding parse_u16
  pick_success_response schemas fuel [] = some (200, "{}")
  pick_success_response schemas fuel (resp ∷ responses) =
      elim (success_status (parse_u16 resp.status)) [
        | none ↦ pick_success_response schemas fuel responses
        | some status ↦ success_body schemas fuel status resp.body
      ]

  -- `MockServer::from_doc`, its routes
  unfoldable pub routes_of : SchemaRegistry → ℕ → List Operation → Option (List Route)
  unfolding upper
  routes_of schemas fuel [] = some []
  routes_of schemas fuel (op ∷ operations) =
      push_route (route_of op (pick_success_response schemas fuel op.responses))
        (routes_of schemas fuel operations)

  unfoldable pub from_doc : ℕ → Document → Option (List Route)
  from_doc fuel doc = routes_of doc.schemas fuel doc.operations

unfoldable pub find_route : List Route → String → String → Option Route
find_route routes method path = find (λ r. r.method == method && r.path == path) routes

unfoldable pub status_line : ℕ → String
status_line status =
    if nat_eq status 200
    then "HTTP/1.1 200 OK"
    else if nat_eq status 201
    then "HTTP/1.1 201 Created"
    else if nat_eq status 204
    then "HTTP/1.1 204 No Content"
    else if nat_eq status 400
    then "HTTP/1.1 400 Bad Request"
    else if nat_eq status 404
    then "HTTP/1.1 404 Not Found"
    else if nat_eq status 500
    then "HTTP/1.1 500 Internal Server Error"
    else "HTTP/1.1 200 OK"

-- The status line and the body of the answer. The body of a 404 is printed by serde_json, here
-- `not_found`.
unfoldable pub answer : (String → String) → List Route → String → String → String × String
unfolding find_route status_line
answer not_found routes method path = elim (find_route routes method path) [
  | none ↦ ("HTTP/1.1 404 Not Found", not_found ("No route found for " ⊕ method ⊕ " " ⊕ path))
  | some route ↦ (status_line route.status, route.body)
]
