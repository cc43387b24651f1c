-- ===== src/Changelog/Severity.antt =====
-- The version bump, the counts and the impacts of crates/specforge-core/src/changelog.rs.
use mathlib.Core.Bool.{false}
use specforge_openapi_sdk_co.Prelude.{
  ℕ, suc, ◌-◌, ◌<◌, ◌≤◌, String, ◌≡◌, refl, ◌↔◌, Bool, true, false, Option, some, List, [], ◌∷◌,
  ◌++◌, All, any, any-false_iff, All-iff, select, length, map_list, Order, arith, iff_trans, inl,
  inr, Bool-cases,
}
use specforge_openapi_sdk_co.Ir.{Property, Document}
use specforge_openapi_sdk_co.Diff.{
  DiffSeverity, DiffFinding, PropertyChange, Pushed, push_each, new_required, new_optional,
  removed_property, shared_property, find_property, diff_properties, diff,
}
use specforge_openapi_sdk_co.Diff.Compatible.{Compatible}
use specforge_openapi_sdk_co.Diff.Compatible.Loops.{IsInfo}
use specforge_openapi_sdk_co.Diff.Compatible.Decides.{diff-Compatible_iff}
use specforge_openapi_sdk_co.Changelog.{
  VersionBump, ChangelogResult, ChangelogOptions, is_breaking, impact_breaking,
  compute_suggested_bump, property_entry, load_and_diff, gather, diffed, generate_changelog_result,
}

is_breaking-IsInfo : (f : DiffFinding) → (is_breaking f ≡ false) ↔ IsInfo f
is_breaking-IsInfo f = ground arith

any_breaking-IsInfo : (fs : List DiffFinding) → (any is_breaking fs ≡ false) ↔ All IsInfo fs
any_breaking-IsInfo fs = iff_trans (any-false_iff is_breaking fs) (All-iff fs is_breaking-IsInfo)

major_iff :
    (fs : List DiffFinding) → (compute_suggested_bump fs ≡ VersionBump.major) ↔ (¬ All IsInfo fs)
unfolding compute_suggested_bump
major_iff fs = elim (Bool-cases (any is_breaking fs)) [
  | inl e ↦ rw e (λ h k. absurd (cc (e, (any_breaking-IsInfo fs).1 k)), λ h. refl)
  | inr e ↦ rw e (λ h. absurd (ground arith), λ h. absurd (h ((any_breaking-IsInfo fs).0 e)))
]

-- The list has so many breaking and so many informational findings.
pub data Counts : List DiffFinding → ℕ → ℕ → Type 0 where
  nothing : Counts [] 0 0
  breaking :
      {f : DiffFinding} {fs : List DiffFinding} {b i : ℕ}
      → f.severity ≡ DiffSeverity.breaking
      → Counts fs b i
      → Counts (f ∷ fs) (suc b) i
  informational :
      {f : DiffFinding} {fs : List DiffFinding} {b i : ℕ}
      → f.severity ≡ DiffSeverity.info
      → Counts fs b i
      → Counts (f ∷ fs) b (suc i)

breaking_count-le : (fs : List DiffFinding) → length (select is_breaking fs) ≤ length fs
breaking_count-le [] = omega arith
breaking_count-le (f ∷ fs) = ground (arith, breaking_count-le fs)

is_breaking-severity : (f : DiffFinding) → is_breaking f ≡ true → f.severity ≡ DiffSeverity.breaking
is_breaking-severity f e = ground arith

select-Counts :
    (fs : List DiffFinding)
    → Counts fs (length (select is_breaking fs)) (length fs - length (select is_breaking fs))
select-Counts [] = Counts.nothing
select-Counts (f ∷ fs) = elim (Bool-cases (is_breaking f)) [
  | inl e ↦
      let fewer : suc (length fs) - suc (length (select is_breaking fs))
          ≡ length fs - length (select is_breaking fs) =
        omega arith in
      rw (e, fewer) (Counts.breaking (is_breaking-severity f e) (select-Counts fs))
  | inr e ↦
      let more : suc (length fs) - length (select is_breaking fs)
          ≡ suc (length fs - length (select is_breaking fs)) =
        omega (arith, breaking_count-le fs) in
      rw (e, more) (Counts.informational ((is_breaking-IsInfo f).0 e) (select-Counts fs))
]

bump-count_iff :
    (fs : List DiffFinding)
    → (compute_suggested_bump fs ≡ VersionBump.major) ↔ (0 < length (select is_breaking fs))
unfolding compute_suggested_bump
bump-count_iff fs = elim (Bool-cases (any is_breaking fs)) [
  | inl e ↦ rw e (λ h. any-count fs e, λ h. refl)
  | inr e ↦ rw e (λ h. absurd (ground arith), λ h. absurd (omega (arith, no-count fs e)))
]
  where
    any-count :
        (gs : List DiffFinding) → any is_breaking gs ≡ true → 0 < length (select is_breaking gs)
    any-count [] h = cc
    any-count (g ∷ gs) h = ground (arith, any-count gs)

    no-count :
        (gs : List DiffFinding) → any is_breaking gs ≡ false → length (select is_breaking gs) ≡ 0
    no-count [] h = refl
    no-count (g ∷ gs) h = ground (arith, no-count gs)

module _ (order : Order) (load : String → Option Document) (today : String) (doc : Document)
    (opts : ChangelogOptions) where
  abbrev result : ChangelogResult
  result = generate_changelog_result order load today doc opts

  -- If the previous spec is named and loads, the changelog suggests a major version exactly when
  -- the document is not compatible with the previous one.
  pub suggested_bump-major_iff :
      (prev_path : String) (old : Document)
      → opts.previous_spec ≡ some prev_path
      → load prev_path ≡ some old
      → (result.suggested_bump ≡ VersionBump.major) ↔ (¬ Compatible old doc)
  unfolding generate_changelog_result diff
  suggested_bump-major_iff prev_path old named loaded =
      rw (named, loaded, gather, diffed, load_and_diff)
        (iff_trans (major_iff (diff order old doc)) (
          λ h c. h ((diff-Compatible_iff order old doc).1 c),
          λ h a. h ((diff-Compatible_iff order old doc).0 a),
        ))

  -- A changelog counts as breaking and as non-breaking just the breaking and the informational
  -- ones of its findings, and it suggests a major version exactly if the first count is not 0.
  pub generate_changelog_result-counts :
      Counts result.findings result.breaking_count result.non_breaking_count
      × ((result.suggested_bump ≡ VersionBump.major) ↔ (0 < result.breaking_count))
  unfolding generate_changelog_result
  generate_changelog_result-counts = (select-Counts result.findings, bump-count_iff result.findings)

-- Each stretch of `diff_schema` grades a finding and the change that it pushes with it alike.
abbrev pub grades : List DiffFinding → List Bool
grades fs = map_list is_breaking fs

abbrev pub change_grades : List PropertyChange → List Bool
change_grades cs = map_list (λ c. impact_breaking (property_entry c).impact) cs

abbrev Agrees : Pushed → Type 0
Agrees p = grades p.findings ≡ change_grades p.changes

map_list-append :
    {A B : Type 0} (f : A → B) (xs ys : List A)
    → map_list f (xs ++ ys) ≡ map_list f xs ++ map_list f ys
map_list-append f [] ys = refl
map_list-append f (x ∷ xs) ys = cc (map_list-append f xs ys)

append-Agrees :
    (fs gs : List DiffFinding) (cs ds : List PropertyChange)
    → grades fs ≡ change_grades cs
    → grades gs ≡ change_grades ds
    → grades (fs ++ gs) ≡ change_grades (cs ++ ds)
append-Agrees fs gs cs ds h k = cc (
  map_list-append is_breaking fs gs,
  map_list-append (λ c. impact_breaking (property_entry c).impact) cs ds,
  h,
  k,
)

push_each-Agrees :
    (f : Property → Pushed)
    → ((p : Property) → Agrees (f p))
    → (ps : List Property) → Agrees (push_each f ps)
unfolding push_each
push_each-Agrees f h [] = refl
push_each-Agrees f h (p ∷ ps) = append-Agrees _ _ _ _ (h p) (push_each-Agrees f h ps)

shared-Agrees :
    (path : String) (p : Property) (n : Option Property) → Agrees (shared_property path p n)
unfolding shared_property
shared-Agrees path p Option.none = refl
shared-Agrees path p (some n) = ground arith

-- In the comparison of two objects, the findings and the changes are one list graded twice: for
-- each in turn, the changelog's impact is breaking exactly when the finding's severity is.
pub diff_properties-graded :
    (path : String) (old new : List Property)
    → grades (diff_properties path old new).findings
      ≡ change_grades (diff_properties path old new).changes
unfolding diff_properties
diff_properties-graded path old new =
    append-Agrees _ _ _ _ (push_each-Agrees (new_required path old) (λ p. ground arith) new) (
      append-Agrees _ _ _ _ (push_each-Agrees (new_optional path old) (λ p. ground arith) new) (
        append-Agrees _ _ _ _ (push_each-Agrees (removed_property path new) (λ p. ground arith) old)
          (push_each-Agrees (λ p. shared_property path p (find_property p.name new))
            (λ p. shared-Agrees path p _) old)))
