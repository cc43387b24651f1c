-- ===== src/Spec/Downgraded.antt =====
-- What is left of OpenAPI 3.1 after `downgrade_31_to_30` of crates/specforge-core/src/spec.rs.
use specforge_openapi_sdk_co.Prelude.{
  ℕ, suc, ◌+◌, ◌*◌, ◌≤◌, arith, ◌≡◌, refl, String, false, Option, none, some, [], ◌∷◌, ◌==◌, lookup,
  Option-cases, inl, inr, any, ap, ◌∙◌,
}
use specforge_openapi_sdk_co.Json.{Json, Elems, Fields, fields}
use specforge_openapi_sdk_co.Merge.{ensure}
use specforge_openapi_sdk_co.Spec.{
  Entries, pass, wrap_siblings, each_value, convert_bound, convert_const, convert_dependent,
  convert_prefix, convert_type, downgrade_object, downgrade_value, extract_ref_siblings,
  downgrade_31_to_30,
}
use specforge_openapi_sdk_co.Spec.Features.{
  Spec31Features, no_features, holds_number, object_features, detect_31_features_walk,
  walk_elements, walk_values, detect_31_features,
}
use specforge_openapi_sdk_co.Spec.Passes.{
  pass-Ends_more, pass-at_least, lookup-each_value, lookup-scalar,
}
use specforge_openapi_sdk_co.Spec.Everywhere.{Everywhere, InElements, InValues, pass-Everywhere}
use specforge_openapi_sdk_co.Spec.Ends.{size, downgrade-Ends}
use specforge_openapi_sdk_co.Spec.Wrapped.{extract_ends}
use specforge_openapi_sdk_co.Spec.Conversions.{
  convert_bound-other, convert_const-other, convert_dependent-other, convert_prefix-other,
  convert_bound-gone, convert_const-gone, convert_dependent-gone, convert_prefix-gone,
}

module _ {N : Type 0} where
  -- The object has none of the constructs that are converted away.
  pub record Is30 (es : Entries N) : Type 0 where
    no_const : lookup "const" es ≡ none
    no_prefix_items : lookup "prefixItems" es ≡ none
    no_dependent_required : lookup "dependentRequired" es ≡ none
    minimum_not_number : holds_number (lookup "exclusiveMinimum" es) ≡ false
    maximum_not_number : holds_number (lookup "exclusiveMaximum" es) ≡ false

  -- A key that the conversions from that of `const` on do not touch.
  lookup-after_bounds :
      (key : String) (es : Entries N)
      → any
          (λ k. k == key)
          ("enum" ∷ "const" ∷ "required" ∷ "dependentRequired" ∷ "items" ∷ "prefixItems" ∷ [])
        ≡ false
      → lookup key (convert_prefix (convert_dependent (convert_const es))) ≡ lookup key es
  lookup-after_bounds key es e =
      convert_prefix-other _ key (ground arith) (ground arith)
      ∙ convert_dependent-other _ key (ground arith) (ground arith)
      ∙ convert_const-other es key (ground arith) (ground arith)

  downgrade_object-Is30 : (es : Entries N) → Is30 (downgrade_object es)
  unfolding downgrade_object
  downgrade_object-Is30 es =
      let typed = convert_type es in
      let minimum = convert_bound "exclusiveMinimum" typed in
      let bounded = convert_bound "exclusiveMaximum" minimum in
      let plain = convert_const bounded in
      let merged = convert_dependent plain in
      record {
        no_const =
            convert_prefix-other merged "const" refl refl
            ∙ convert_dependent-other plain "const" refl refl
            ∙ convert_const-gone bounded;
        no_prefix_items = convert_prefix-gone merged;
        no_dependent_required =
            convert_prefix-other merged "dependentRequired" refl refl
            ∙ convert_dependent-gone plain;
        minimum_not_number =
            ap holds_number (
              lookup-after_bounds "exclusiveMinimum" bounded refl
              ∙ convert_bound-other "exclusiveMaximum" minimum "exclusiveMinimum" refl refl)
            ∙ convert_bound-gone "exclusiveMinimum" typed;
        maximum_not_number =
            ap holds_number (lookup-after_bounds "exclusiveMaximum" bounded refl)
            ∙ convert_bound-gone "exclusiveMaximum" minimum;
      }

  module _ (fuel : ℕ) (es out : Entries N)
      (e : each_value (pass downgrade_object fuel) es ≡ some out) where
    stays_away : (key : String) → lookup key es ≡ none → lookup key out ≡ none
    stays_away key h = lookup-each_value (pass downgrade_object fuel) key es out e ∙ rw h refl

    stays_no_number :
        (key : String)
        → holds_number (lookup key es) ≡ false
        → holds_number (lookup key out) ≡ false
    stays_no_number key h = elim (Option-cases (lookup key out)) [
      | inl missing ↦ rw missing refl
      | inr (v, found) ↦ rw found (no_number v found)
    ]
      where
        no_number : (v : Json N) → lookup key out ≡ some v → holds_number (some v) ≡ false
        no_number (Json.number n) found =
            let was = lookup-scalar downgrade_object fuel key es out (Json.number n) e found refl in
            rw was at h
        no_number Json.null found = refl
        no_number (Json.bool b) found = refl
        no_number (Json.string s) found = refl
        no_number (Json.array vs) found = refl
        no_number (Json.object fs) found = refl

    each_value-Is30 : Is30 es → Is30 out
    each_value-Is30 h = record {
      no_const = stays_away "const" h.no_const;
      no_prefix_items = stays_away "prefixItems" h.no_prefix_items;
      no_dependent_required = stays_away "dependentRequired" h.no_dependent_required;
      minimum_not_number = stays_no_number "exclusiveMinimum" h.minimum_not_number;
      maximum_not_number = stays_no_number "exclusiveMaximum" h.maximum_not_number;
    }

  pub downgrade-Is30 :
      (fuel : ℕ) (v out : Json N) → pass downgrade_object fuel v ≡ some out → Everywhere Is30 out
  downgrade-Is30 fuel v out e =
      pass-Everywhere Is30 downgrade_object
        (λ f es os g. each_value-Is30 f (downgrade_object es) os g (downgrade_object-Is30 es)) fuel
        v out e

-- The scan has found none of what is converted away.
pub record NoneFound (f : Spec31Features) : Type 0 where
  pub none_const : f.uses_const ≡ false
  pub none_prefix_items : f.uses_prefix_items ≡ false
  pub none_dependent_required : f.uses_dependent_required ≡ false
  pub none_numeric_bounds : f.uses_numeric_exclusive_bounds ≡ false

module _ {N : Type 0} where
  object_features-NoneFound :
      (es : Entries N) (f : Spec31Features)
      → Is30 es
      → NoneFound f
      → NoneFound (object_features es f)
  unfolding object_features
  object_features-NoneFound es f h none_yet = record {
    none_const = rw (none_yet.none_const, h.no_const) refl;
    none_prefix_items = rw (none_yet.none_prefix_items, h.no_prefix_items) refl;
    none_dependent_required = rw (none_yet.none_dependent_required, h.no_dependent_required) refl;
    none_numeric_bounds =
        rw (none_yet.none_numeric_bounds, h.minimum_not_number, h.maximum_not_number) refl;
  }

  mutual
    unfolding detect_31_features_walk

    walk-NoneFound :
        (v : Json N) (f : Spec31Features)
        → Everywhere Is30 v
        → NoneFound f
        → NoneFound (detect_31_features_walk v f)
    walk-NoneFound (Json.object fs) f h g =
        walk_values-NoneFound fs _ h.1 (object_features-NoneFound (fields fs) f h.0 g)
    walk-NoneFound (Json.array vs) f h g = walk_elements-NoneFound vs f h g
    walk-NoneFound Json.null f h g = g
    walk-NoneFound (Json.bool b) f h g = g
    walk-NoneFound (Json.number n) f h g = g
    walk-NoneFound (Json.string s) f h g = g

    walk_elements-NoneFound :
        (vs : Elems N) (f : Spec31Features)
        → InElements Is30 vs
        → NoneFound f
        → NoneFound (walk_elements vs f)
    walk_elements-NoneFound Elems.nil f h g = g
    walk_elements-NoneFound (Elems.cons v vs) f h g =
        walk_elements-NoneFound vs _ h.1 (walk-NoneFound v f h.0 g)

    walk_values-NoneFound :
        (fs : Fields N) (f : Spec31Features)
        → InValues Is30 fs
        → NoneFound f
        → NoneFound (walk_values fs f)
    walk_values-NoneFound Fields.end f h g = g
    walk_values-NoneFound (Fields.field k v fs) f h g =
        walk_values-NoneFound fs _ h.1 (walk-NoneFound v f h.0 g)

  -- Fuel for both passes: for the value, and for what the first pass makes of it.
  abbrev size_some : Option (Json N) → ℕ
  size_some none = 0
  size_some (some v) = size v

  unfoldable pub enough_fuel : Json N → ℕ
  unfolding extract_ref_siblings ensure
  enough_fuel json =
      let whole = ensure "paths" json in
      let first_pass = suc (3 * size whole) in
      first_pass + 2 * size_some (extract_ref_siblings first_pass whole)

  -- `downgrade_31_to_30` ends with `enough_fuel` or more, and in the spec that it gives the scan
  -- `detect_31_features` finds no `const`, no `prefixItems`, no `dependentRequired` and no numeric
  -- `exclusiveMinimum` or `exclusiveMaximum`.
  pub downgrade_31_to_30-NoneFound :
      (json : Json N) (fuel : ℕ)
      → enough_fuel json ≤ fuel
      → (out : Json N) × (downgrade_31_to_30 fuel json ≡ some out)
        × NoneFound (detect_31_features out)
  unfolding downgrade_31_to_30 downgrade_value extract_ref_siblings enough_fuel detect_31_features
  downgrade_31_to_30-NoneFound json fuel enough =
      let whole = ensure "paths" json in
      let first_pass = suc (3 * size whole) in
      let (wrapped, e) = extract_ends whole (size whole) (omega arith) in
      let bound : first_pass + 2 * size wrapped ≤ fuel = rw e at enough in
      let f : pass wrap_siblings fuel whole ≡ some wrapped =
        pass-at_least wrap_siblings first_pass fuel whole wrapped (omega arith) e in
      let (out, g) =
        pass-Ends_more downgrade_object (suc (2 * size wrapped)) fuel wrapped (omega arith)
          (downgrade-Ends wrapped (size wrapped) (omega arith)) in
      (
        out,
        rw f g,
        walk-NoneFound out no_features (downgrade-Is30 fuel wrapped out g) (record {
          none_const = refl;
          none_prefix_items = refl;
          none_dependent_required = refl;
          none_numeric_bounds = refl;
        }),
      )
