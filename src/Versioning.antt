-- ===== src/Versioning.antt =====
-- crates/specforge-core/src/versioning.rs: `apply_versioning`, the rewriting of every operation of
-- a document for a versioning strategy. `to_lowercase` is Unicode's and a parameter; no theorem
-- assumes anything of it.
pub mod Laws
mod Tests
use specforge_openapi_sdk_co.Prelude.{
  String, Bool, true, false, not, ◌&&◌, Option, List, [], ◌∷◌, ◌++◌, ◌⊕◌, ◌==◌, if◌then◌else◌, any,
  map_list, unwrap_or,
}
use text.Mathlib.Text.{starts_with}
use specforge_openapi_sdk_co.Ir.{Scalar, IrType, ParamLocation, Parameter, Operation, Document}

pub data VersionStrategy : Type 0 where
  url_path header query_param none : VersionStrategy

pub record VersioningConfig : Type 0 where
  pub strategy : VersionStrategy
  pub prefix : Option String
  pub header_name : Option String

abbrev pub is_header : ParamLocation → Bool
is_header ParamLocation.header = true
is_header _ = false

abbrev pub is_query : ParamLocation → Bool
is_query ParamLocation.query = true
is_query _ = false

-- `UrlPath`, at one operation
unfoldable pub prefix_operation : String → Operation → Operation
prefix_operation prefix op =
    if not (starts_with op.path ("/" ⊕ prefix))
    then record op { path = ("/" ⊕ prefix) ⊕ op.path }
    else op

abbrev version_param : String → ParamLocation → Bool → Parameter
version_param name location required = record {
  name = name;
  location = location;
  ty = IrType.scalar Scalar.string;
  required = required;
  description = Option.some "API version";
}

abbrev pub is_version_query : String → Parameter → Bool
is_version_query name p = p.name == name && is_query p.location

-- `QueryParam`, at one operation
unfoldable pub query_operation : String → Operation → Operation
query_operation name op =
    if not (any (is_version_query name) op.parameters)
    then record op {
      parameters = op.parameters ++ version_param name ParamLocation.query false ∷ [];
    }
    else op

module _ (to_lowercase : String → String) where
  abbrev pub is_version_header : String → Parameter → Bool
  is_version_header name p = to_lowercase p.name == to_lowercase name && is_header p.location

  -- `Header`, at one operation
  unfoldable pub header_operation : String → Operation → Operation
  header_operation name op =
      if not (any (is_version_header name) op.parameters)
      then record op {
        parameters = op.parameters ++ version_param name ParamLocation.header true ∷ [];
      }
      else op

  -- What a configuration does to one operation.
  unfoldable pub version_operation : VersioningConfig → Operation → Operation
  version_operation config op = elim (config.strategy) [
    | VersionStrategy.url_path ↦ elim (config.prefix) [
      | Option.none ↦ op
      | Option.some prefix ↦ prefix_operation prefix op
    ]
    | VersionStrategy.header ↦ header_operation (unwrap_or config.header_name "API-Version") op
    | VersionStrategy.query_param ↦ query_operation (unwrap_or config.prefix "version") op
    | VersionStrategy.none ↦ op
  ]

  unfoldable pub apply_versioning : Document → VersioningConfig → Document
  apply_versioning doc config = record doc {
    operations = map_list (version_operation config) doc.operations;
  }
