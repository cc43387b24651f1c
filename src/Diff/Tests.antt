-- ===== src/Diff/Tests.antt =====
-- Runs of crates/specforge-core/src/diff.rs on two small documents.
use specforge_openapi_sdk_co.Prelude.{
  String, ◌≡◌, refl, ◌↔◌, true, false, none, some, List, [], ◌∷◌, All, Order, lookup, keys,
  lookup-All,
}
use specforge_openapi_sdk_co.Ir.{
  Scalar, IrType, Property, Model, HttpMethod, ParamLocation, Parameter, Operation, Document,
}
use specforge_openapi_sdk_co.Diff.{
  DiffSeverity, diff, diff_detailed, diff_operation, diff_operations, diff_ir_version, by_id,
  removed_operation, added_operation, changed_operation, diff_schemas, removed_schema, added_schema,
  changed_schema, both_models, diff_schema, diff_properties,
}
use specforge_openapi_sdk_co.Diff.Types.{type_changed}
use specforge_openapi_sdk_co.Diff.Compatible.{Compatible}
use specforge_openapi_sdk_co.Diff.Compatible.Loops.{IsInfo}
use specforge_openapi_sdk_co.Diff.Compatible.Decides.{diff-Compatible_iff}
use specforge_openapi_sdk_co.Diff.Unchanged.{ModelDistinct, diff_detailed_self}

-- A hash table that is read in the order of its entries.
abbrev pub in_order : Order
in_order = record { arrange = λ ks. ks; arrange-In = λ k ks. (λ h. h, λ h. h) }

abbrev limit : Parameter
limit = record {
  name = "limit";
  location = ParamLocation.query;
  ty = IrType.scalar Scalar.integer;
  required = false;
  description = none;
}

abbrev list_pets : List Parameter → Operation
list_pets parameters = record {
  operation_id = "listPets";
  method = HttpMethod.get;
  path = "/pets";
  tag = none;
  summary = none;
  description = none;
  parameters = parameters;
  request_body = none;
  responses = record { status = "200"; description = none; body = none } ∷ [];
  retry_policy = none;
}

abbrev pub property : String → IrType → Property
property name ty = record { name = name; ty = ty; required = true; description = none }

abbrev pet : List Property → Model
pet properties = Model.object (record {
  name = "Pet";
  description = none;
  properties = properties;
  additional_properties = none;
  shape_type = none;
  base_type = none;
})

abbrev document : List Parameter → List Property → Document
document parameters properties = record {
  ir_version = "1.0";
  title = "Pets";
  version = "1";
  base_url = none;
  security = [];
  schemas = record { models = ("Pet", pet properties) ∷ [] };
  operations = list_pets parameters ∷ [];
  webhooks = [];
}

abbrev pub old_document : Document
old_document = document (limit ∷ []) (
    property "id" (IrType.scalar Scalar.integer)
    ∷ property "name" (IrType.scalar Scalar.string)
    ∷ [])

-- The parameter is gone, and a property has another type.
abbrev pub new_document : Document
new_document = document [] (
    property "id" (IrType.scalar Scalar.string)
    ∷ property "name" (IrType.scalar Scalar.string)
    ∷ [])

diff_run :
    diff in_order old_document new_document
    ≡ record {
      severity = DiffSeverity.breaking;
      message = "parameter removed: limit";
      path = "operations.listPets.params.limit";
    }
      ∷ record {
        severity = DiffSeverity.breaking;
        message = "type changed for property: id";
        path = "schemas.Pet.id";
      }
      ∷ []
unfolding diff diff_detailed diff_ir_version diff_operations by_id removed_operation added_operation
    changed_operation diff_operation diff_schemas removed_schema added_schema changed_schema
    both_models diff_schema diff_properties type_changed keys lookup
diff_run = refl

diff-Compatible_iff_example :
    All IsInfo (diff in_order old_document new_document) ↔ Compatible old_document new_document
diff-Compatible_iff_example = diff-Compatible_iff in_order old_document new_document

old_document-distinct :
    (name : String) (m : Model) → lookup name old_document.schemas.models ≡ some m → ModelDistinct m
old_document-distinct name m =
    lookup-All ModelDistinct name m old_document.schemas.models ((((λ e. cc), tt), (tt, tt)), tt)

diff_detailed_self_example :
    diff_detailed in_order old_document old_document ≡ record { findings = []; schema_diffs = [] }
diff_detailed_self_example = diff_detailed_self in_order old_document old_document-distinct
