-- ===== src/Diff/Compatible/Properties.antt =====
-- The findings of the property loops of `diff_schema` (crates/specforge-core/src/diff.rs).
use specforge_openapi_sdk_co.Prelude.{
  if◌then◌else◌, String, ◌≡◌, refl, ◌↔◌, Bool, true, false, not, some, List, [], ◌∷◌, All,
  All-append, All-iff, Any-iff, any_iff, eq_iff, ◌==◌, iff_trans, iff_and, Bool-cases, bool_eq, inl,
  inr, arith,
}
use specforge_openapi_sdk_co.Ir.{Property}
use specforge_openapi_sdk_co.Diff.{
  DiffFinding, PropertyChangeKind, breaking, info, finding, push, nothing, has_property,
  find_property, Pushed, push_each, new_required, new_optional, removed_property, shared_property,
  diff_properties,
}
use specforge_openapi_sdk_co.Diff.Types.{type_changed}
use specforge_openapi_sdk_co.Diff.Shape.{type_changed_iff}
use specforge_openapi_sdk_co.Diff.Compatible.{HasProperty, PropertyKept, PropertiesCompatible}
use specforge_openapi_sdk_co.Diff.Compatible.Loops.{
  IsInfo, not-eq-false_iff, guarded_iff, All-append_four,
}

has_property_iff : (n : String) (ps : List Property) → (has_property n ps ≡ true) ↔ HasProperty n ps
has_property_iff n ps = iff_trans (any_iff _ ps) (Any-iff ps (λ x. eq_iff x.name n))

abbrev pub AllInfo : Pushed → Type 0
AllInfo out = All IsInfo out.findings

push_each_iff :
    {P : Property → Type 0} (f : Property → Pushed) (ps : List Property)
    → ((p : Property) → AllInfo (f p) ↔ P p)
    → AllInfo (push_each f ps) ↔ All P ps
unfolding push_each
push_each_iff f [] means = (λ h. tt, λ h. tt)
push_each_iff f (p ∷ ps) means =
    iff_trans (All-append IsInfo _ _) (iff_and (means p) (push_each_iff f ps means))

push-breaking_iff :
    (b : Bool) (f : DiffFinding) (name : String) (kind : PropertyChangeKind)
    → f.severity ≡ breaking
    → AllInfo (if b then push f name kind else nothing) ↔ (b ≡ false)
push-breaking_iff true f name kind e = (λ h. absurd (cc (e, h.0)), λ h. cc)
push-breaking_iff false f name kind e = (λ h. refl, λ h. tt)

push_info :
    (b : Bool) (f : DiffFinding) (name : String) (kind : PropertyChangeKind)
    → f.severity ≡ info
    → AllInfo (if b then push f name kind else nothing)
push_info true f name kind e = (e, tt)
push_info false f name kind e = tt

-- A change of optionality breaks only if the property becomes required.
optionality_iff :
    (r s : Bool) (message path name : String) (kind : PropertyChangeKind)
    → AllInfo (
        if not (bool_eq r s)
        then push (finding (if s then breaking else info) message path) name kind
        else nothing)
      ↔ (s ≡ true → r ≡ true)
optionality_iff true true m path name kind = (λ h e. refl, λ h. tt)
optionality_iff true false m path name kind = (λ h e. refl, λ h. (refl, tt))
optionality_iff false true m path name kind = (λ h. absurd (cc (h.0)), λ h. absurd (cc (h refl)))
optionality_iff false false m path name kind = (λ h e. e, λ h. tt)

module _ (path : String) where
  new_required_iff :
      (op : List Property) (p : Property)
      → AllInfo (new_required path op p) ↔ (p.required ≡ true → HasProperty p.name op)
  unfolding new_required
  new_required_iff op p =
      iff_trans (push-breaking_iff _ _ _ _ refl)
        (guarded_iff p.required _ (has_property_iff p.name op))

  new_optional_info : (op : List Property) (p : Property) → AllInfo (new_optional path op p)
  unfolding new_optional
  new_optional_info op p = push_info _ _ _ _ refl

  removed_property_iff :
      (np : List Property) (p : Property)
      → AllInfo (removed_property path np p) ↔ HasProperty p.name np
  unfolding removed_property
  removed_property_iff np p =
      iff_trans (push-breaking_iff _ _ _ _ refl)
        (iff_trans (not-eq-false_iff _) (has_property_iff p.name np))

  shared_property_iff :
      (p n : Property) → AllInfo (shared_property path p (some n)) ↔ PropertyKept p n
  unfolding shared_property
  shared_property_iff p n = elim (Bool-cases (type_changed p.ty n.ty)) [
    | inl e ↦
        rw e (λ h. absurd (cc (h.0)), λ k. absurd (cc (e, (type_changed_iff p.ty n.ty).1 k.shape)))
    | inr e ↦ rw e (
        iff_trans (optionality_iff p.required n.required _ _ _ _)
          (λ h. record { shape = (type_changed_iff p.ty n.ty).0 e; optional = h }, λ k. k.optional))
  ]

-- An old property is there exactly when `find` gives one.
find_property_iff :
    (n : String) (ps : List Property)
    → HasProperty n ps ↔ ((p : Property) × (find_property n ps ≡ some p))
unfolding find_property
find_property_iff n [] = (λ h. absurd h, λ h. cc (h.1))
find_property_iff n (p ∷ ps) = elim (Bool-cases (p.name == n)) [
  | inl e ↦ rw e (λ h. (p, refl), λ h. inl ((eq_iff p.name n).0 e))
  | inr e ↦ rw e (
    elim [
      | inl same ↦ absurd (ground (arith, eq_iff p.name n))
      | inr later ↦ (find_property_iff n ps).0 later
    ],
    λ h. inr ((find_property_iff n ps).1 h),
  )
]

module _ (path : String) (np : List Property) where
  -- The last two loops, at one old property.
  kept_property_iff :
      (p : Property)
      → (AllInfo (removed_property path np p)
          × AllInfo (shared_property path p (find_property p.name np)))
        ↔ ((n : Property) × (find_property p.name np ≡ some n) × PropertyKept p n)
  kept_property_iff p = (
    λ h.
        let (n, found) = (find_property_iff p.name np).0 ((removed_property_iff path np p).0 h.0) in
        (n, found, (shared_property_iff path p n).0 (rw found at h.1)),
    λ k.
        let (n, found, kept) = k in
        (
          (removed_property_iff path np p).1 ((find_property_iff p.name np).1 (n, found)),
          rw found ((shared_property_iff path p n).1 kept),
        ),
  )

All-and :
    {A : Type 0} (P Q : A → Type 0) (xs : List A) → (All P xs × All Q xs) ↔ All (λ x. P x × Q x) xs
All-and P Q [] = (λ h. tt, λ h. (tt, tt))
All-and P Q (x ∷ xs) = (
  λ h. ((h.0.0, h.1.0), (All-and P Q xs).0 (h.0.1, h.1.1)),
  λ h. let (a, b) = (All-and P Q xs).1 h.1 in ((h.0.0, a), (h.0.1, b)),
)

All-unit : (ps : List Property) → All (λ p. Unit {0}) ps
All-unit [] = tt
All-unit (p ∷ ps) = (tt, All-unit ps)

pub diff_properties_iff :
    (path : String) (op np : List Property)
    → AllInfo (diff_properties path op np) ↔ PropertiesCompatible op np
unfolding diff_properties
diff_properties_iff path op np =
    iff_trans
      (All-append_four IsInfo _ _ _ _
        (push_each_iff (new_required path op) np (new_required_iff path op))
        (push_each_iff {P = λ p. Unit} (new_optional path op) np
          (λ p. (λ h. tt, λ h. new_optional_info path op p)))
        (push_each_iff (removed_property path np) op (λ p. (λ h. h, λ h. h)))
        (push_each_iff _ op (λ p. (λ h. h, λ h. h))))
      (
        λ h. record {
          no_new_required = h.0;
          kept = (All-iff op (kept_property_iff path np)).0 ((All-and _ _ op).0 (h.1.1.0, h.1.1.1));
        },
        λ c.
            let (gone, same) =
              (All-and _ _ op).1 ((All-iff op (kept_property_iff path np)).1 c.kept) in
            (c.no_new_required, (All-unit np, (gone, same))),
      )
