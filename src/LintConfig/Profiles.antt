-- ===== src/LintConfig/Profiles.antt =====
-- The two built-in profiles of crates/specforge-core/src/lint_config.rs, compared.
use specforge_openapi_sdk_co.Prelude.{
  String, ◌≡◌, refl, true, not, ◌&&◌, List, [], ◌∷◌, ◌==◌, arith, Bool-cases, inl, inr,
}
use specforge_openapi_sdk_co.LintConfig.{
  RuleSeverity, Severity, LintRule, is_off, default, swagger_editor_profile, find_rule,
  found_enabled, found_severity, is_enabled, severity,
}

-- A rule of the same name that reports at least as much.
pub record StricterRule (r s : LintRule) : Type 0 where
  pub same : r.name ≡ s.name
  pub enabled :
      (r.enabled && not (is_off r.severity)) ≡ true → (s.enabled && not (is_off s.severity)) ≡ true
  pub severe : r.severity ≡ RuleSeverity.error → s.severity ≡ RuleSeverity.error

abbrev Stricter : List LintRule → List LintRule → Type 0
Stricter [] [] = Unit
Stricter (r ∷ rs) (s ∷ ss) = StricterRule r s × Stricter rs ss
Stricter _ _ = ⊥

module _ (name : String) where
  find_rule-Stricter :
      (rs ss : List LintRule)
      → Stricter rs ss
      → (found_enabled (find_rule name rs) ≡ true → found_enabled (find_rule name ss) ≡ true)
        × (found_severity (find_rule name rs) ≡ Severity.error
            → found_severity (find_rule name ss) ≡ Severity.error)
  unfolding find_rule
  find_rule-Stricter [] [] h = (λ e. e, λ e. e)
  find_rule-Stricter [] (s ∷ ss) h = absurd h
  find_rule-Stricter (r ∷ rs) [] h = absurd h
  find_rule-Stricter (r ∷ rs) (s ∷ ss) (h, later) =
      rw (← h.same) (elim (Bool-cases (r.name == name)) [
        | inl e ↦ rw e (h.enabled, λ k. ground (arith, h.severe))
        | inr e ↦ rw e (find_rule-Stricter rs ss later)
      ])

StricterRule-refl : (r : LintRule) → StricterRule r r
StricterRule-refl r = record { same = refl; enabled = λ e. e; severe = λ e. e }

profiles-Stricter : Stricter default.rules swagger_editor_profile.rules
unfolding default swagger_editor_profile
profiles-Stricter = (
  StricterRule-refl _,
  (
    StricterRule-refl _,
    (
      StricterRule-refl _,
      (
        StricterRule-refl _,
        (
          record { same = refl; enabled = λ e. refl; severe = λ e. refl },
          (
            record { same = refl; enabled = λ e. refl; severe = λ e. cc },
            (StricterRule-refl _, (StricterRule-refl _, tt)),
          ),
        ),
      ),
    ),
  ),
)

-- Whatever rule the default profile enables, known to it or not, the Swagger Editor profile
-- enables.
swagger_editor_profile-enables :
    (name : String) → is_enabled default name ≡ true → is_enabled swagger_editor_profile name ≡ true
unfolding is_enabled
swagger_editor_profile-enables name = (find_rule-Stricter name _ _ profiles-Stricter).0

-- Whatever rule the default profile reports as an error, the Swagger Editor profile does.
swagger_editor_profile-severe :
    (name : String)
    → severity default name ≡ Severity.error
    → severity swagger_editor_profile name ≡ Severity.error
unfolding severity
swagger_editor_profile-severe name = (find_rule-Stricter name _ _ profiles-Stricter).1
