-- ===== src/Validate.antt =====
-- crates/specforge-core/src/validate.rs: a JSON value checked against an IR type. References make
-- the recursion unbounded, so `validate_inner` takes fuel, and `none` says that it ran out; each
-- call of it in the code is one unit.
pub mod Conforms
pub mod Decides
pub mod Fuel
pub mod Halting
mod Tests
use specforge_openapi_sdk_co.Prelude.{
  ℕ, zero, suc, ◌+◌, String, Bool, true, false, not, ◌&&◌, ◌||◌, Option, none, some, List, [], ◌∷◌,
  ◌++◌, ◌⊕◌, ◌==◌, if◌then◌else◌, any, is_empty, lookup,
}
use specforge_openapi_sdk_co.Json
use specforge_openapi_sdk_co.Json.{Json, is_null, as_str, as_array, as_object}
use specforge_openapi_sdk_co.Ir.{
  Scalar, CompositionKind, IrType, members, Property, EnumVariant, Model, SchemaRegistry, get_model,
}

pub record ValidationError : Type 0 where
  pub path : String
  pub message : String

-- What the code takes from serde_json and from the formatting of the standard library: the tests
-- on a number, and the texts of a list of texts and of an index.
pub record Host : Type 1 where
  pub Number : Type 0
  pub is_i64 : Number → Bool
  pub is_u64 : Number → Bool
  pub debug : List String → String
  pub display : ℕ → String

-- The errors pushed, or none if the fuel ran out.
abbrev pub Errors : Type 0
Errors = Option (List ValidationError)

abbrev pub one_error : String → String → List ValidationError
one_error p m = record { path = p; message = m } ∷ []

-- One stretch of the code after another.
abbrev pub and_then : Errors → Errors → Errors
and_then none b = none
and_then (some es) none = none
and_then (some es) (some fs) = some (es ++ fs)

module _ (host : Host) where
  abbrev pub Value : Type 0
  Value = Json host.Number

  unfoldable pub value_type_name : Value → String
  value_type_name Json.null = "null"
  value_type_name (Json.bool _) = "boolean"
  value_type_name (Json.number _) = "number"
  value_type_name (Json.string _) = "string"
  value_type_name (Json.array _) = "array"
  value_type_name (Json.object _) = "object"

  -- `value.is_i64() || value.is_u64()`
  abbrev pub is_integer : Value → Bool
  is_integer (Json.number n) = host.is_i64 n || host.is_u64 n
  is_integer _ = false

  abbrev pub is_number : Value → Bool
  is_number (Json.number n) = true
  is_number _ = false

  abbrev pub is_string : Value → Bool
  is_string (Json.string s) = true
  is_string _ = false

  abbrev pub is_boolean : Value → Bool
  is_boolean (Json.bool b) = true
  is_boolean _ = false

  abbrev expected : String → Value → String → List ValidationError
  expected what value path = one_error path ("expected " ⊕ what ⊕ ", got " ⊕ value_type_name value)

  abbrev unless : Bool → List ValidationError → List ValidationError
  unless ok errors = if ok then [] else errors

  unfoldable pub validate_scalar : Value → Scalar → String → List ValidationError
  validate_scalar value Scalar.integer path =
      unless (is_integer value) (expected "integer" value path)
  validate_scalar value Scalar.integer64 path =
      unless (is_integer value) (expected "integer" value path)
  validate_scalar value Scalar.float path = unless (is_number value) (expected "number" value path)
  validate_scalar value Scalar.boolean path =
      unless (is_boolean value) (expected "boolean" value path)
  validate_scalar value _ path = unless (is_string value) (expected "string" value path)

  -- The `Type::StringEnum` arm, once null is dealt with.
  unfoldable pub validate_variants : Value → List String → String → List ValidationError
  validate_variants (Json.string s) variants path =
      unless (any (λ v. v == s) variants)
        (one_error path ("expected one of " ⊕ host.debug variants ⊕ ", got \"" ⊕ s ⊕ "\""))
  validate_variants value variants path = expected "string" value path

  -- The `Model::Enum` arm.
  unfoldable pub validate_enum : Value → String → List EnumVariant → String → List ValidationError
  validate_enum (Json.string s) name variants path =
      unless (any (λ v. v.value == s) variants)
        (one_error path ("invalid enum variant \"" ⊕ s ⊕ "\""))
  validate_enum value name variants path =
      one_error path ("expected string for enum \"" ⊕ name ⊕ "\", got " ⊕ value_type_name value)

  -- The parts of `validate_inner` that call it, given as `inner`.
  module _ (inner : Value → IrType → String → Errors) where
    -- `for (i, v) in arr.iter().enumerate()`
    unfoldable pub validate_items : IrType → String → ℕ → List Value → Errors
    validate_items item path i [] = some []
    validate_items item path i (v ∷ vs) =
        and_then (inner v item (path ⊕ "[" ⊕ host.display i ⊕ "]"))
          (validate_items item path (suc i) vs)

    unfoldable pub validate_entries : IrType → String → List (String × Value) → Errors
    validate_entries ty path [] = some []
    validate_entries ty path ((k, v) ∷ fs) =
        and_then (inner v ty (path ⊕ "." ⊕ k)) (validate_entries ty path fs)

    -- The `AllOf` arm
    unfoldable pub validate_all : Value → String → List IrType → Errors
    validate_all value path [] = some []
    validate_all value path (m ∷ ms) = and_then (inner value m path) (validate_all value path ms)

    -- The loop of the `OneOf` and `AnyOf` arm, from `any_valid`
    unfoldable pub some_valid : Value → String → List IrType → Bool → Option Bool
    some_valid value path [] any_valid = some any_valid
    some_valid value path (m ∷ ms) any_valid = elim (inner value m path) [
      | none ↦ none
      | some errors ↦ some_valid value path ms (is_empty errors || any_valid)
    ]

    -- A property: what its value has wrong, or that it is missing.
    abbrev validate_property : Property → String → Option Value → Errors
    validate_property prop path (some value) = inner value prop.ty path
    validate_property prop path none =
        some (if prop.required then one_error path "missing required property" else [])

    unfoldable pub validate_properties : List (String × Value) → String → List Property → Errors
    validate_properties obj path [] = some []
    validate_properties obj path (prop ∷ props) =
        and_then (validate_property prop (path ⊕ "." ⊕ prop.name) (lookup prop.name obj))
          (validate_properties obj path props)

    unfoldable pub validate_object : Value → List Property → String → Errors
    validate_object (Json.object fs) properties path =
        validate_properties (Json.fields fs) path properties
    validate_object value properties path = some (expected "object" value path)

    -- The `Type::Reference` arm, once the registry has answered.
    abbrev validate_model : Value → String → Option Model → String → Errors
    validate_model value name none path = some []
    validate_model value name (some (Model.object o)) path = elim (o.shape_type) [
      | none ↦ validate_object value o.properties path
      | some shape ↦ inner value shape path
    ]
    validate_model value name (some (Model.enumeration e)) path =
        some (validate_enum value name e.variants path)

    abbrev validate_array : Value → IrType → String → Errors
    validate_array (Json.array vs) item path = validate_items item path 0 (Json.elems vs)
    validate_array value item path = some (expected "array" value path)

    -- A value that is no object passes.
    abbrev validate_map : Value → IrType → String → Errors
    validate_map (Json.object fs) ty path = validate_entries ty path (Json.fields fs)
    validate_map value ty path = some []

    abbrev one_or_more : List IrType → String → Option Bool → Errors
    one_or_more ms path none = none
    one_or_more ms path (some any_valid) = some (
        if not any_valid && not (is_empty ms)
        then one_error path "value does not match any oneOf/anyOf variant"
        else [])

    unfoldable pub validate_step : SchemaRegistry → Value → IrType → String → Errors
    validate_step registry value (IrType.scalar s) path = some (validate_scalar value s path)
    validate_step registry value (IrType.string_enum variants nullable) path =
        some (if nullable && is_null value then [] else validate_variants value variants path)
    validate_step registry value (IrType.array item nullable) path =
        if nullable && is_null value then some [] else validate_array value item path
    validate_step registry value (IrType.map ty) path = validate_map value ty path
    validate_step registry value (IrType.reference name nullable _) path =
        if nullable && is_null value
        then some []
        else validate_model value name (get_model registry name) path
    validate_step registry value (IrType.composition CompositionKind.all_of ms _) path =
        validate_all value path (members ms)
    validate_step registry value (IrType.composition _ ms _) path =
        one_or_more (members ms) path (some_valid value path (members ms) false)
    validate_step registry value IrType.any path = some []
    validate_step registry value IrType.unknown path = some []

  unfoldable pub validate_inner : SchemaRegistry → ℕ → Value → IrType → String → Errors
  validate_inner registry zero value ty path = none
  validate_inner registry (suc fuel) value ty path =
      validate_step (validate_inner registry fuel) registry value ty path

  unfoldable pub validate : ℕ → Value → IrType → SchemaRegistry → Errors
  validate fuel value ty registry = validate_inner registry fuel value ty ""
