-- ===== src/GoSdk/Tests.antt =====
-- Runs of the naming and the paths of crates/specforge-go/src/lib.rs.
use specforge_openapi_sdk_co.Prelude.{◌≡◌, refl, arith, true, none, some, List, [], ◌∷◌, codes}
use specforge_openapi_sdk_co.Ir.{Scalar, IrType, ParamLocation, Parameter}
use specforge_openapi_sdk_co.Names.{pascal_loop, escape_quotes}
use specforge_openapi_sdk_co.GoSdk.{
  Part, pascal, export_ident, is_sdk_builtin_type, is_go_reserved, spell, spell_all, field_name,
  render_type, render_scalar, param_loop, go_param_ident, coerce_scalar, coerce_to_string, split_on,
  path_parts, build_path_concat,
}
use specforge_openapi_sdk_co.GoSdk.Words.{reserved, builtin_types}
use specforge_openapi_sdk_co.GoSdk.Paths.{source, path_parts-source}

abbrev pet_id : Parameter
pet_id = record {
  name = "petId";
  location = ParamLocation.path;
  ty = IrType.scalar Scalar.integer;
  required = true;
  description = none;
}

path_run :
    build_path_concat 20 (codes "/pets/{petId}/toys") (pet_id ∷ [])
    ≡ some (codes "\"/pets/\" + pathEscape(fmtInt(petId)) + \"/toys\"")
unfolding build_path_concat path_parts split_on coerce_to_string coerce_scalar go_param_ident
    param_loop reserved escape_quotes
path_run = refl

path_parts-source_example :
    (parts : List Part) × (path_parts 20 (pet_id ∷ []) (codes "/pets/{petId}/{x}") ≡ some parts)
    × (source parts ≡ codes "/pets/{petId}/{x}")
path_parts-source_example =
    path_parts-source 20 (pet_id ∷ []) (codes "/pets/{petId}/{x}") (omega arith)

-- The name of a parameter that starts with a digit is no Go identifier.
param_digit : go_param_ident (codes "2fa-code") ≡ codes "2faCode"
unfolding go_param_ident param_loop reserved
param_digit = refl

names_run :
    (export_ident (codes "client") ≡ codes "ClientModel")
    × (field_name (codes "+1") ≡ codes "Plus1")
    × (render_type (IrType.scalar Scalar.base64) ≡ codes "bool")
unfolding export_ident is_sdk_builtin_type builtin_types pascal pascal_loop field_name spell_all
    spell is_go_reserved reserved render_type render_scalar
names_run = (refl, refl, refl)
