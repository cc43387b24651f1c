-- ===== src/Changelog/Types.antt =====
-- The data types of crates/specforge-core/src/changelog.rs.
use specforge_openapi_sdk_co.Prelude.{ℕ, String, Bool, Option, List}
use specforge_openapi_sdk_co.Diff.{DiffFinding, SchemaDiffDetail}

pub data ChangeImpact : Type 0 where
  breaking feature fix : ChangeImpact

pub data ChangeType : Type 0 where
  added removed modified : ChangeType

pub record OperationEntry : Type 0 where
  pub method : String
  pub path : String
  pub operation_id : String
  pub summary : Option String
  pub change_type : ChangeType
  pub impact : ChangeImpact
  pub details : List String

pub record PropertyChangeEntry : Type 0 where
  pub property : String
  pub description : String
  pub impact : ChangeImpact

pub record SchemaChangeEntry : Type 0 where
  pub schema_name : String
  pub impact : ChangeImpact
  pub property_changes : List PropertyChangeEntry

pub data VersionBump : Type 0 where
  none patch minor major : VersionBump

pub record ChangelogResult : Type 0 where
  pub version : String
  pub date : String
  pub operation_entries : List OperationEntry
  pub schema_entries : List SchemaChangeEntry
  pub findings : List DiffFinding
  pub schema_diffs : List SchemaDiffDetail
  pub suggested_bump : VersionBump
  pub breaking_count : ℕ
  pub non_breaking_count : ℕ
  pub schemas_modified_count : ℕ

-- The output format is for the rendering.
pub record ChangelogOptions : Type 0 where
  pub version : Option String
  pub previous_spec : Option String
  pub suggest_version : Bool
