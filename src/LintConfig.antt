-- ===== src/LintConfig.antt =====
-- crates/specforge-core/src/lint_config.rs: the rules of a lint configuration, and what overrides
-- do to them. Files and YAML (`load`, `load_from_file`) are left out.
pub mod Laws
pub mod Profiles
mod Tests
use specforge_openapi_sdk_co.Prelude.{
  String, Bool, true, false, not, ◌&&◌, Option, none, some, List, [], ◌∷◌, ◌==◌, if◌then◌else◌,
  find, any, is_some,
}

pub data RuleSeverity : Type 0 where
  error warning off : RuleSeverity

-- `Severity` of crates/specforge-core/src/lint.rs
pub data Severity : Type 0 where
  error warning : Severity

pub record LintRule : Type 0 where
  pub name : String
  pub enabled : Bool
  pub severity : RuleSeverity

pub record LintConfig : Type 0 where
  pub rules : List LintRule

unfoldable pub display : RuleSeverity → String
display RuleSeverity.error = "error"
display RuleSeverity.warning = "warning"
display RuleSeverity.off = "off"

abbrev pub is_off : RuleSeverity → Bool
is_off RuleSeverity.off = true
is_off _ = false

abbrev rule : String → Bool → RuleSeverity → LintRule
rule n e s = record { name = n; enabled = e; severity = s }

unfoldable pub default : LintConfig
default = record {
  rules =
      rule "duplicate-operation-ids" true RuleSeverity.error
      ∷ rule "missing-response-description" true RuleSeverity.warning
      ∷ rule "missing-operation-summary" true RuleSeverity.warning
      ∷ rule "unused-schema" true RuleSeverity.warning
      ∷ rule "missing-operation-id" true RuleSeverity.warning
      ∷ rule "missing-schema-description" false RuleSeverity.warning
      ∷ rule "path-trailing-slash" true RuleSeverity.warning
      ∷ rule "deprecated-operation" true RuleSeverity.warning
      ∷ [];
}

unfoldable pub swagger_editor_profile : LintConfig
swagger_editor_profile = record {
  rules =
      rule "duplicate-operation-ids" true RuleSeverity.error
      ∷ rule "missing-response-description" true RuleSeverity.warning
      ∷ rule "missing-operation-summary" true RuleSeverity.warning
      ∷ rule "unused-schema" true RuleSeverity.warning
      ∷ rule "missing-operation-id" true RuleSeverity.error
      ∷ rule "missing-schema-description" true RuleSeverity.warning
      ∷ rule "path-trailing-slash" true RuleSeverity.warning
      ∷ rule "deprecated-operation" true RuleSeverity.warning
      ∷ [];
}

-- `rules.iter().find(|r| r.name == rule_name)`
unfoldable pub find_rule : String → List LintRule → Option LintRule
find_rule name rules = find (λ r. r.name == name) rules

-- An unknown rule is enabled.
abbrev pub found_enabled : Option LintRule → Bool
found_enabled none = true
found_enabled (some r) = r.enabled && not (is_off r.severity)

unfoldable pub is_enabled : LintConfig → String → Bool
is_enabled c name = found_enabled (find_rule name c.rules)

-- An unknown rule warns, and so does one that is off.
abbrev pub found_severity : Option LintRule → Severity
found_severity none = Severity.warning
found_severity (some r) = elim (r.severity) [
  | RuleSeverity.error ↦ Severity.error
  | RuleSeverity.warning ↦ Severity.warning
  | RuleSeverity.off ↦ Severity.warning
]

unfoldable pub severity : LintConfig → String → Severity
severity c name = found_severity (find_rule name c.rules)

-- `if let Some(rule) = rules.iter_mut().find(…) { … } else { rules.push(…) }`: the first rule of
-- that name is changed in place, or a new rule goes to the end.
unfoldable pub update_rule :
    String → (LintRule → LintRule) → LintRule → List LintRule → List LintRule
update_rule name change new [] = new ∷ []
update_rule name change new (r ∷ rs) =
    if r.name == name then change r ∷ rs else r ∷ update_rule name change new rs

unfoldable pub set_enabled : LintConfig → String → Bool → LintConfig
set_enabled c name enabled = record {
  rules =
      update_rule name (λ r. record r { enabled = enabled })
        (rule name enabled RuleSeverity.warning) c.rules;
}

unfoldable pub set_severity : LintConfig → String → RuleSeverity → LintConfig
set_severity c name s = record {
  rules = update_rule name (λ r. record r { severity = s }) (rule name (not (is_off s)) s) c.rules;
}
