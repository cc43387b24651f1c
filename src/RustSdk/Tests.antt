-- ===== src/RustSdk/Tests.antt =====
-- Runs of the naming of crates/specforge-rust/src/lib.rs.
use specforge_openapi_sdk_co.Prelude.{
  ◌++◌, All, ◌≡◌, refl, arith, String, true, false, none, some, List, [], ◌∷◌, Chars, codes,
  is_upper, to_lower, lookup,
}
use specforge_openapi_sdk_co.Ir.{Scalar, IrType, Property, Model, SchemaRegistry, get_model}
use specforge_openapi_sdk_co.FieldNames.{unique_loop, unique_field_name, field_names}
use specforge_openapi_sdk_co.FieldNames.Fresh.{Distinct}
use specforge_openapi_sdk_co.FieldNames.Tests.{in_strokes, in_strokes-is_digit}
use specforge_openapi_sdk_co.RustSdk.{
  Casing, expand, expand_all, snake_push, snake_loop, snake, guard_reserved, is_rust_reserved,
  base_field, struct_fields, render_type, render_scalar,
}
use specforge_openapi_sdk_co.RustSdk.Words.{reserved}
use specforge_openapi_sdk_co.RustSdk.Identifiers.{is_snake_identifier, snake-identifier}
use specforge_openapi_sdk_co.RustSdk.Fields.{FieldsOf, IsField, struct_fields-Distinct}

-- Characters outside ASCII are taken for small ones.
abbrev casing : Casing
casing = record {
  is_uppercase = is_upper;
  to_lowercase = λ c. to_lower c ∷ [];
  is_uppercase_ascii = λ c h. refl;
  to_lowercase_ascii = λ c h. refl;
}

snake_runs :
    (snake casing (codes "petId") ≡ codes "pet_id")
    × (snake casing (codes "+1") ≡ codes "plus_1")
    × (snake casing (codes "-1") ≡ codes "minus_1")
    × (snake casing (codes "type") ≡ codes "type_")
    × (snake casing (codes "2fa") ≡ codes "n_2fa")
    × (snake casing (codes "x-rate-limit") ≡ codes "xminus_rateminus_limit")
    × (snake casing [] ≡ codes "x")
unfolding snake snake_loop snake_push expand_all expand guard_reserved is_rust_reserved reserved
snake_runs = (refl, refl, refl, refl, refl, refl, refl)

snake-identifier_example :
    (is_snake_identifier (snake casing (codes "self")) ≡ true)
    × (is_rust_reserved (snake casing (codes "self")) ≡ false)
snake-identifier_example = snake-identifier casing (codes "self") refl

-- Bytes are rendered to `bool`.
render_bytes : render_type (IrType.scalar Scalar.base64) ≡ codes "bool"
unfolding render_type render_scalar
render_bytes = refl

abbrev property : String → Property
property n = record {
  name = n;
  ty = IrType.scalar Scalar.string;
  required = true;
  description = none;
}

abbrev registry : SchemaRegistry
registry = record { models = [] }

-- `Named` has the property `id`, and so have those that flatten it.
abbrev base_model : Model
base_model = Model.object (record {
  name = "Named";
  description = none;
  properties = property "id" ∷ [];
  additional_properties = none;
  shape_type = none;
  base_type = none;
})

abbrev with_base : SchemaRegistry
with_base = record { models = ("Named", base_model) ∷ [] }

abbrev three : List Property
three = property "id" ∷ property "petId" ∷ property "pet_id" ∷ []

struct_fields-Distinct_example :
    (names : List Chars) × (struct_fields casing in_strokes 9 with_base
        (some (IrType.reference "Named" false none))
        three
      ≡ some (base_field casing (some (IrType.reference "Named" false none)) ++ names))
    × FieldsOf casing in_strokes with_base (some (IrType.reference "Named" false none)) three names
    × Distinct names
    × All IsField names
struct_fields-Distinct_example =
    struct_fields-Distinct casing in_strokes 9 with_base
      (some (IrType.reference "Named" false none)) three in_strokes-is_digit
      (refl, (refl, (refl, tt))) (omega arith)

-- The field of a flattened base type and that of a property can have one name.
struct_fields_base :
    struct_fields casing in_strokes 9 registry
      (some (IrType.reference "Owner" false none))
      (property "owner" ∷ [])
    ≡ some (codes "owner" ∷ codes "owner" ∷ [])
unfolding struct_fields field_names unique_field_name unique_loop snake snake_loop snake_push
    expand_all expand guard_reserved is_rust_reserved reserved get_model lookup
struct_fields_base = refl
