-- ===== src/Changelog/Tests.antt =====
-- Runs of crates/specforge-core/src/changelog.rs on the documents of the tests of the diff.
use specforge_openapi_sdk_co.Prelude.{
  ◌<◌, String, ◌≡◌, refl, ◌↔◌, true, strip_prefix, Option, some, [], ◌∷◌, Any, In, inl,
}
use specforge_openapi_sdk_co.Ir.{Scalar, IrType, Document}
use specforge_openapi_sdk_co.Diff.{DiffSeverity, DiffFinding, diff_properties}
use specforge_openapi_sdk_co.Diff.Compatible.{Compatible}
use specforge_openapi_sdk_co.Diff.Tests.{in_order, property, old_document, new_document}
use specforge_openapi_sdk_co.Changelog.{
  ChangeImpact, VersionBump, ChangelogOptions, build_operation_entries_from_findings,
  generate_changelog_result,
}
use specforge_openapi_sdk_co.Changelog.Severity.{
  suggested_bump-major_iff, Counts, generate_changelog_result-counts, grades, change_grades,
  diff_properties-graded,
}
use specforge_openapi_sdk_co.Changelog.Entries.{breaking_finding-reported}

-- There is one previous spec.
abbrev load : String → Option Document
load path = some old_document

abbrev options : ChangelogOptions
options = record { version = Option.none; previous_spec = some "old.yaml"; suggest_version = true }

suggested_bump-major_iff_example :
    ((generate_changelog_result in_order load "2026-01-01" new_document options).suggested_bump
      ≡ VersionBump.major)
    ↔ (¬ Compatible old_document new_document)
suggested_bump-major_iff_example =
    suggested_bump-major_iff in_order load "2026-01-01" new_document options "old.yaml" old_document
      refl refl

generate_changelog_result-counts_example :
    let r = generate_changelog_result in_order load "2026-01-01" new_document options in
    Counts r.findings r.breaking_count r.non_breaking_count
    × ((r.suggested_bump ≡ VersionBump.major) ↔ (0 < r.breaking_count))
generate_changelog_result-counts_example =
    generate_changelog_result-counts in_order load "2026-01-01" new_document options

diff_properties-graded_example :
    grades
      (diff_properties "schemas.Pet"
        (property "id" (IrType.scalar Scalar.integer) ∷ [])
        []).findings
    ≡ change_grades
        (diff_properties "schemas.Pet"
          (property "id" (IrType.scalar Scalar.integer) ∷ [])
          []).changes
diff_properties-graded_example =
    diff_properties-graded "schemas.Pet" (property "id" (IrType.scalar Scalar.integer) ∷ []) []

abbrev removed_limit : DiffFinding
removed_limit = record {
  severity = DiffSeverity.breaking;
  message = "parameter removed: limit";
  path = "operations.listPets.params.limit";
}

limit_parts :
    (strip_prefix removed_limit.message "operation added: " ≡ Option.none)
    × (strip_prefix removed_limit.path "operations." ≡ some "listPets.params.limit")
unfolding strip_prefix
limit_parts = (refl, refl)

breaking_finding-reported_example :
    Any
      (λ e. (e.impact ≡ ChangeImpact.breaking) × In "parameter removed: limit" e.details)
      (build_operation_entries_from_findings (removed_limit ∷ []) new_document)
breaking_finding-reported_example =
    breaking_finding-reported new_document (removed_limit ∷ []) removed_limit
      "listPets.params.limit" (inl refl) refl limit_parts.0 limit_parts.1
