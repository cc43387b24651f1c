-- ===== src/Changelog.antt =====
-- crates/specforge-core/src/changelog.rs: the structured changelog that is made of the diff. The
-- date and the reading of the previous spec are parameters; the rendering is left out.
pub mod Types
pub mod Severity
pub mod Entries
mod Tests
use text.Mathlib.Text.{starts_with}
use specforge_openapi_sdk_co.Prelude.{
  ℕ, ◌-◌, String, Bool, true, false, ◌||◌, Option, some, List, [], ◌∷◌, ◌++◌, ◌⊕◌, ◌==◌,
  if◌then◌else◌, any, find, length, map_list, select, unwrap_or, strip_prefix, Order,
}
use specforge_openapi_sdk_co.Ir.{upper, Operation, Document}
use specforge_openapi_sdk_co.Diff.{
  DiffSeverity, DiffFinding, PropertyChangeKind, PropertyChange, SchemaDiffDetail, DiffResult,
  diff_detailed,
}
use specforge_openapi_sdk_co.Diff.Version.{before_dot}
pub use Types.*

-- `==` with `DiffSeverity::Breaking`, with `DiffSeverity::Info` and with `ChangeImpact::Breaking`
abbrev pub is_breaking : DiffFinding → Bool
is_breaking f = elim (f.severity) [ DiffSeverity.breaking ↦ true | DiffSeverity.info ↦ false ]

abbrev pub is_info : DiffFinding → Bool
is_info f = elim (f.severity) [ DiffSeverity.breaking ↦ false | DiffSeverity.info ↦ true ]

abbrev pub impact_breaking : ChangeImpact → Bool
impact_breaking ChangeImpact.breaking = true
impact_breaking _ = false

unfoldable pub compute_suggested_bump : List DiffFinding → VersionBump
compute_suggested_bump findings =
    if any is_breaking findings
    then VersionBump.major
    else if any is_info findings
    then VersionBump.minor
    else VersionBump.none

unfoldable pub classify_finding : DiffFinding → ChangeImpact
classify_finding f = elim (f.severity) [
  | DiffSeverity.breaking ↦ ChangeImpact.breaking
  | DiffSeverity.info ↦
      if starts_with f.message "operation added"
        || starts_with f.message "schema added"
        || starts_with f.message "new optional property"
        || starts_with f.message "new required property"
      then ChangeImpact.feature
      else ChangeImpact.fix
]

-- The entry of an operation that the document may have or lack.
abbrev pub entry_of :
    Option Operation → String → ChangeType → ChangeImpact → String → OperationEntry
entry_of (some op) id change impact message = record {
  method = upper op.method;
  path = op.path;
  operation_id = id;
  summary = op.summary;
  change_type = change;
  impact = impact;
  details = message ∷ [];
}
entry_of Option.none id change impact message = record {
  method = "UNKNOWN";
  path = "UNKNOWN";
  operation_id = id;
  summary = Option.none;
  change_type = change;
  impact = impact;
  details = message ∷ [];
}

abbrev pub entry_for : Document → String → ChangeType → ChangeImpact → String → OperationEntry
entry_for doc id = entry_of (find (λ o. o.operation_id == id) doc.operations) id

-- What a further finding does to the entry of its operation.
abbrev pub extend_entry : DiffFinding → OperationEntry → OperationEntry
extend_entry f e = record e {
  impact = if impact_breaking (classify_finding f) then ChangeImpact.breaking else e.impact;
  details = e.details ++ f.message ∷ [];
}

-- `iter_mut().find(…)`: the first entry of the operation is changed in place.
unfoldable pub update_entry :
    String → (OperationEntry → OperationEntry) → List OperationEntry → List OperationEntry
update_entry id change [] = []
update_entry id change (e ∷ es) =
    let rest = update_entry id change es in if e.operation_id == id then change e ∷ es else e ∷ rest

-- The body of the loop over the findings, on the entries so far.
abbrev pub has_entry : String → List OperationEntry → Bool
has_entry id entries = any (λ e. e.operation_id == id) entries

abbrev pub modify : Document → DiffFinding → String → List OperationEntry → List OperationEntry
modify doc f id entries =
    if has_entry id entries
    then update_entry id (extend_entry f) entries
    else entries ++ entry_for doc id ChangeType.modified (classify_finding f) f.message ∷ []

abbrev pub modification :
    Document → DiffFinding → Option String → List OperationEntry → List OperationEntry
modification doc f Option.none entries = entries
modification doc f (some rest) entries = modify doc f (before_dot rest) entries

abbrev pub addition :
    Document → DiffFinding → Option String → List OperationEntry → List OperationEntry
addition doc f (some id) entries =
    entries ++ entry_for doc id ChangeType.added ChangeImpact.feature f.message ∷ []
addition doc f Option.none entries = modification doc f (strip_prefix f.path "operations.") entries

abbrev pub removal :
    Document → DiffFinding → Option String → List OperationEntry → List OperationEntry
removal doc f (some id) entries =
    entries ++ entry_for doc id ChangeType.removed ChangeImpact.breaking f.message ∷ []
removal doc f Option.none entries =
    addition doc f (strip_prefix f.message "operation added: ") entries

unfoldable pub record_finding : Document → DiffFinding → List OperationEntry → List OperationEntry
record_finding doc f entries = removal doc f (strip_prefix f.message "operation removed: ") entries

-- The loop, from `entries`
unfoldable pub record_findings :
    Document → List DiffFinding → List OperationEntry → List OperationEntry
record_findings doc [] entries = entries
record_findings doc (f ∷ fs) entries = record_findings doc fs (record_finding doc f entries)

unfoldable pub build_operation_entries_from_findings :
    List DiffFinding → Document → List OperationEntry
build_operation_entries_from_findings findings doc = record_findings doc findings []

abbrev optionality : Bool → String
optionality required = if required then "required" else "optional"

abbrev pub describe : PropertyChangeKind → String × ChangeImpact
describe (PropertyChangeKind.added ty) =
    ("New optional property (`" ⊕ ty ⊕ "`)", ChangeImpact.feature)
describe (PropertyChangeKind.added_required ty) =
    ("New required property (`" ⊕ ty ⊕ "`)", ChangeImpact.breaking)
describe (PropertyChangeKind.removed ty) =
    ("Property removed (was `" ⊕ ty ⊕ "`)", ChangeImpact.breaking)
describe (PropertyChangeKind.type_change old_type new_type) =
    ("Type changed: `" ⊕ old_type ⊕ "` to `" ⊕ new_type ⊕ "`", ChangeImpact.breaking)
describe (PropertyChangeKind.required_change old_required new_required) = (
  "Changed from " ⊕ optionality old_required ⊕ " to " ⊕ optionality new_required,
  if new_required then ChangeImpact.breaking else ChangeImpact.fix,
)

abbrev pub property_entry : PropertyChange → PropertyChangeEntry
property_entry pc = record {
  property = pc.property;
  description = (describe pc.change).0;
  impact = (describe pc.change).1;
}

unfoldable pub schema_entry : SchemaDiffDetail → SchemaChangeEntry
schema_entry sd =
    let property_changes = map_list property_entry sd.changes in
    record {
      schema_name = sd.name;
      impact =
          if any (λ pc. impact_breaking pc.impact) property_changes
          then ChangeImpact.breaking
          else ChangeImpact.feature;
      property_changes = property_changes;
    }

unfoldable pub build_schema_entries : List SchemaDiffDetail → List SchemaChangeEntry
build_schema_entries schema_diffs = map_list schema_entry schema_diffs

-- `load` reads and resolves a spec, or fails; `today` is the date.
module _ (order : Order) (load : String → Option Document) (today : String) where
  abbrev pub load_and_diff : String → Document → Option DiffResult
  load_and_diff prev_path current_doc = elim (load prev_path) [
    | Option.none ↦ Option.none
    | some prev_doc ↦ some (diff_detailed order prev_doc current_doc)
  ]

  abbrev pub diffed :
      Document → Option DiffResult → DiffResult × List OperationEntry × List SchemaChangeEntry
  diffed doc (some r) =
      (r, build_operation_entries_from_findings r.findings doc, build_schema_entries r.schema_diffs)
  diffed doc Option.none = (record { findings = []; schema_diffs = [] }, [], [])

  -- Without a previous spec every operation is an addition.
  abbrev all_added : Document → List OperationEntry
  all_added doc =
      map_list
        (λ op. record {
          method = upper op.method;
          path = op.path;
          operation_id = op.operation_id;
          summary = op.summary;
          change_type = ChangeType.added;
          impact = ChangeImpact.feature;
          details = [];
        })
        doc.operations

  abbrev pub gather :
      Document → Option String → DiffResult × List OperationEntry × List SchemaChangeEntry
  gather doc (some prev_path) = diffed doc (load_and_diff prev_path doc)
  gather doc Option.none = (record { findings = []; schema_diffs = [] }, all_added doc, [])

  unfoldable pub generate_changelog_result : Document → ChangelogOptions → ChangelogResult
  generate_changelog_result doc opts =
      let (result, operation_entries, schema_entries) = gather doc opts.previous_spec in
      let breaking_count = length (select is_breaking result.findings) in
      record {
        version = unwrap_or opts.version doc.version;
        date = today;
        operation_entries = operation_entries;
        schema_entries = schema_entries;
        findings = result.findings;
        schema_diffs = result.schema_diffs;
        suggested_bump = compute_suggested_bump result.findings;
        breaking_count = breaking_count;
        non_breaking_count = length result.findings - breaking_count;
        schemas_modified_count = length schema_entries;
      }
