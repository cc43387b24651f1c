-- ===== src/Diff/Findings.antt =====
-- What crates/specforge-core/src/diff.rs reports: findings, and the changes of each schema.
use specforge_openapi_sdk_co.Prelude.{String, Bool, List}

pub data DiffSeverity : Type 0 where
  breaking info : DiffSeverity

pub record DiffFinding : Type 0 where
  pub severity : DiffSeverity
  pub message : String
  pub path : String

-- `TypeChanged` and `RequiredChanged` are `type_change` and `required_change` here, since
-- `type_changed` is a function.
pub data PropertyChangeKind : Type 0 where
  added added_required removed : (ty : String) → PropertyChangeKind
  type_change : (old_type new_type : String) → PropertyChangeKind
  required_change : (old_required new_required : Bool) → PropertyChangeKind

pub record PropertyChange : Type 0 where
  pub property : String
  pub change : PropertyChangeKind

pub record SchemaDiffDetail : Type 0 where
  pub name : String
  pub changes : List PropertyChange

pub record DiffResult : Type 0 where
  pub findings : List DiffFinding
  pub schema_diffs : List SchemaDiffDetail
