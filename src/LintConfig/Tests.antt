-- ===== src/LintConfig/Tests.antt =====
-- Runs of crates/specforge-core/src/lint_config.rs.
use specforge_openapi_sdk_co.Prelude.{
  ◌≡◌, refl, true, false, not, ◌&&◌, [], ◌∷◌, ◌==◌, if◌then◌else◌,
}
use specforge_openapi_sdk_co.LintConfig.{
  RuleSeverity, LintConfig, rule, is_off, find_rule, is_enabled, severity, set_enabled,
  set_severity, update_rule,
}
use specforge_openapi_sdk_co.LintConfig.Laws.{
  switched_off, flagged, reported, set_enabled_lem, set_severity_lem,
}

-- One rule that is off.
abbrev muted : LintConfig
muted = record { rules = rule "unused-schema" false RuleSeverity.off ∷ [] }

-- Asking for the rule does not bring it back.
muted_run : is_enabled (set_enabled muted "unused-schema" true) "unused-schema" ≡ false
unfolding is_enabled set_enabled update_rule find_rule
muted_run = refl

set_enabled_lem_example :
    (is_enabled (set_enabled muted "unused-schema" true) "unused-schema" ≡ (
      if "unused-schema" == "unused-schema"
      then true && not (switched_off muted "unused-schema")
      else is_enabled muted "unused-schema"))
    × (severity (set_enabled muted "unused-schema" true) "unused-schema"
        ≡ severity muted "unused-schema")
set_enabled_lem_example = set_enabled_lem muted "unused-schema" true "unused-schema"

set_severity_lem_example :
    (is_enabled (set_severity muted "unused-schema" RuleSeverity.error) "unused-schema" ≡ (
      if "unused-schema" == "unused-schema"
      then flagged muted "unused-schema" && not (is_off RuleSeverity.error)
      else is_enabled muted "unused-schema"))
    × (severity (set_severity muted "unused-schema" RuleSeverity.error) "unused-schema" ≡ (
        if "unused-schema" == "unused-schema"
        then reported RuleSeverity.error
        else severity muted "unused-schema"))
set_severity_lem_example = set_severity_lem muted "unused-schema" RuleSeverity.error "unused-schema"
