-- ===== src/Versioning/Tests.antt =====
-- Runs of crates/specforge-core/src/versioning.rs.
use specforge_openapi_sdk_co.Prelude.{String, ◌≡◌, refl, Option, [], ◌∷◌, map_list, All}
use specforge_openapi_sdk_co.Ir.{HttpMethod, Operation, Document}
use specforge_openapi_sdk_co.Versioning.{
  VersionStrategy, VersioningConfig, apply_versioning, version_operation, prefix_operation,
}
use specforge_openapi_sdk_co.Versioning.Laws.{
  IsVersioned, core, apply_versioning-IsVersioned, apply_versioning_idem,
}

abbrev lower : String → String
lower s = s

abbrev operation : String → Operation
operation path = record {
  operation_id = "listPets";
  method = HttpMethod.get;
  path = path;
  tag = Option.none;
  summary = Option.none;
  description = Option.none;
  parameters = [];
  request_body = Option.none;
  responses = [];
  retry_policy = Option.none;
}

abbrev document : String → Document
document path = record {
  ir_version = "1.0";
  title = "Pets";
  version = "1";
  base_url = Option.none;
  security = [];
  schemas = record { models = [] };
  operations = operation path ∷ [];
  webhooks = [];
}

abbrev v1 : VersioningConfig
v1 = record {
  strategy = VersionStrategy.url_path;
  prefix = Option.some "v1";
  header_name = Option.none;
}

-- A path that begins with "/v10" passes for one that has the prefix "v1".
v1_runs :
    (apply_versioning lower (document "/pets") v1 ≡ document "/v1/pets")
    × (apply_versioning lower (document "/v10/pets") v1 ≡ document "/v10/pets")
unfolding apply_versioning version_operation prefix_operation
v1_runs = (refl, refl)

apply_versioning-IsVersioned_example :
    All (IsVersioned lower v1) (apply_versioning lower (document "/pets") v1).operations
    × (map_list core (apply_versioning lower (document "/pets") v1).operations
        ≡ map_list core (document "/pets").operations)
apply_versioning-IsVersioned_example = apply_versioning-IsVersioned lower (document "/pets") v1

apply_versioning_idem_example :
    apply_versioning lower (apply_versioning lower (document "/pets") v1) v1
    ≡ apply_versioning lower (document "/pets") v1
apply_versioning_idem_example = apply_versioning_idem lower (document "/pets") v1
