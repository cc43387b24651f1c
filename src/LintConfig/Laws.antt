-- ===== src/LintConfig/Laws.antt =====
-- What an override of crates/specforge-core/src/lint_config.rs does to each rule.
use specforge_openapi_sdk_co.Prelude.{
  test_laws, String, ◌≡◌, refl, Bool, true, false, not, ◌&&◌, Option, none, some, List, [], ◌∷◌,
  ◌==◌, eq_iff, if◌then◌else◌, arith, Option-cases,
}
use specforge_openapi_sdk_co.LintConfig.{
  RuleSeverity, Severity, LintRule, LintConfig, is_off, rule, find_rule, is_enabled, severity,
  update_rule, set_enabled, set_severity,
}

abbrev changed : (LintRule → LintRule) → LintRule → Option LintRule → LintRule
changed change new none = new
changed change new (some r) = change r

-- The rule that is found after an update: the changed or the new one under its own name, the old
-- one under any other.
find_rule-update :
    (name other : String) (change : LintRule → LintRule) (new : LintRule) (rs : List LintRule)
    → ((r : LintRule) → (change r).name ≡ r.name)
    → new.name ≡ name
    → find_rule other (update_rule name change new rs) ≡ (
        if name == other then some (changed change new (find_rule name rs)) else find_rule other rs)
unfolding find_rule update_rule
find_rule-update name other change new [] keeps named = ground (arith, named)
find_rule-update name other change new (r ∷ rs) keeps named =
    grind (test_laws, keeps r, find_rule-update name other change new rs keeps named)

-- Whether a rule's own severity is `off`, and whether its `enabled` field is set. An unknown rule
-- is neither off nor disabled.
abbrev pub switched_off : LintConfig → String → Bool
switched_off c name = elim (find_rule name c.rules) [ none ↦ false | some r ↦ is_off r.severity ]

abbrev pub flagged : LintConfig → String → Bool
flagged c name = elim (find_rule name c.rules) [ none ↦ true | some r ↦ r.enabled ]

abbrev pub reported : RuleSeverity → Severity
reported RuleSeverity.error = Severity.error
reported _ = Severity.warning

-- After `set_enabled`, the rule of that name is enabled as asked unless its severity is `off`,
-- every other rule is enabled as before, and no rule's severity has changed.
pub set_enabled_lem :
    (c : LintConfig) (name : String) (enabled : Bool) (other : String)
    → (is_enabled (set_enabled c name enabled) other
        ≡ (if name == other then enabled && not (switched_off c name) else is_enabled c other))
      × (severity (set_enabled c name enabled) other ≡ severity c other)
unfolding set_enabled is_enabled severity
set_enabled_lem c name enabled other =
    let change : LintRule → LintRule = λ r. record r { enabled = enabled } in
    let found =
      find_rule-update name other change (rule name enabled RuleSeverity.warning) c.rules
        (λ r. refl) refl in
    (
      rw found (ground (arith, Option-cases (find_rule name c.rules))),
      rw found (ground (arith, eq_iff name other)),
    )

-- After `set_severity`, the rule of that name has that severity, is enabled exactly when it was
-- not disabled and the severity is not `off`, and every other rule is as before.
pub set_severity_lem :
    (c : LintConfig) (name : String) (s : RuleSeverity) (other : String)
    → (is_enabled (set_severity c name s) other
        ≡ (if name == other then flagged c name && not (is_off s) else is_enabled c other))
      × (severity (set_severity c name s) other
          ≡ (if name == other then reported s else severity c other))
unfolding set_severity is_enabled severity
set_severity_lem c name s other =
    let change : LintRule → LintRule = λ r. record r { severity = s } in
    let found =
      find_rule-update name other change (rule name (not (is_off s)) s) c.rules (λ r. refl) refl in
    (rw found (ground arith), rw found (ground arith))
