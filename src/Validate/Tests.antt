-- ===== src/Validate/Tests.antt =====
-- Runs of crates/specforge-core/src/validate.rs.
use specforge_openapi_sdk_co.Prelude.{
  ℕ, ◌+◌, ◌≡◌, refl, ◌↔◌, true, false, Option, none, some, List, [], ◌∷◌, lookup, lookup-All,
}
use specforge_openapi_sdk_co.Json.{Json, Fields}
use specforge_openapi_sdk_co.Ir.{
  Scalar, CompositionKind, IrType, IrTypes, ObjectModel, Model, SchemaRegistry, get_model,
}
use specforge_openapi_sdk_co.Validate.{
  Host, Value, ValidationError, validate, validate_inner, validate_step, validate_object,
  validate_properties, validate_scalar, value_type_name,
}
use specforge_openapi_sdk_co.Validate.Conforms.{Conforms}
use specforge_openapi_sdk_co.Validate.Halting.{
  validate-decides, validate-all_of_loops, RefersToItself,
}
use specforge_openapi_sdk_co.Validate.Halting.Rank.{Guarded}

-- Numbers are natural, and every one is an integer.
abbrev host : Host
host = record {
  Number = ℕ;
  is_i64 = λ n. true;
  is_u64 = λ n. true;
  debug = λ vs. "";
  display = λ n. "";
}

abbrev object : Option IrType → ObjectModel
object shape = record {
  name = "Pet";
  description = none;
  properties =
      record { name = "id"; ty = IrType.scalar Scalar.integer; required = true; description = none }
      ∷ record {
        name = "owner";
        ty = IrType.reference "Pet" true none;
        required = false;
        description = none;
      }
      ∷ [];
  additional_properties = none;
  shape_type = shape;
  base_type = none;
}

abbrev registry : Option IrType → SchemaRegistry
registry shape = record { models = ("Pet", Model.object (object shape)) ∷ [] }

abbrev pet : IrType
pet = IrType.reference "Pet" false none

-- The owner is a pet whose identifier is a text.
abbrev value : Value host
value = Json.object (
    Fields.field "id" (Json.number 1) (
      Fields.field "owner" (Json.object (Fields.field "id" (Json.string "x") Fields.end))
        Fields.end))

validate_run :
    validate host 3 value pet (registry none)
    ≡ some (record { path = ".owner.id"; message = "expected integer, got string" } ∷ [])
unfolding validate validate_inner validate_step validate_object validate_properties validate_scalar
    value_type_name get_model lookup
validate_run = refl

-- One schema, and it has no shape.
unshaped-Guarded : Guarded (registry none) (λ name. 0)
unfolding get_model
unshaped-Guarded name o ty found shaped =
    let same =
      lookup-All (λ m. m ≡ Model.object (object none)) name (Model.object o) (registry none).models
        (refl, tt) found in
    absurd (cc (same, shaped))

validate-decides_example :
    (fuel : ℕ) × (es : List ValidationError) × ((extra : ℕ)
      → validate host (extra + fuel) value pet (registry none) ≡ some es)
    × ((es ≡ []) ↔ Conforms host (registry none) value pet)
validate-decides_example =
    validate-decides host (registry none) (λ name. 0) unshaped-Guarded value pet

abbrev circle : IrType
circle = IrType.composition CompositionKind.all_of (IrTypes.cons pet IrTypes.nil) none

circle-RefersToItself :
    RefersToItself host (registry (some circle)) "Pet" (object (some circle)) IrTypes.nil none value
unfolding get_model lookup
circle-RefersToItself = (refl, refl)

validate-all_of_loops_example : validate host 1000 value pet (registry (some circle)) ≡ none
validate-all_of_loops_example =
    validate-all_of_loops host (registry (some circle)) "Pet" (object (some circle)) IrTypes.nil
      none value 1000 circle-RefersToItself
