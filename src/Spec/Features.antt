-- ===== src/Spec/Features.antt =====
-- crates/specforge-core/src/spec.rs: the scan for what OpenAPI 3.1 has and 3.0 has not. The flags
-- that the walk sets are passed along.
use specforge_openapi_sdk_co.Prelude.{
  String, Bool, true, false, ◌||◌, ◌&&◌, Option, some, List, ltb, length, is_some, lookup,
}
use specforge_openapi_sdk_co.Json.{Json, Elems, Fields, fields}

-- `Spec31Features`
pub record Spec31Features : Type 0 where
  pub uses_type_array : Bool
  pub uses_ref_siblings : Bool
  pub uses_const : Bool
  pub uses_prefix_items : Bool
  pub uses_dependent_required : Bool
  pub uses_numeric_exclusive_bounds : Bool

-- `Spec31Features::default()`
abbrev pub no_features : Spec31Features
no_features = record {
  uses_type_array = false;
  uses_ref_siblings = false;
  uses_const = false;
  uses_prefix_items = false;
  uses_dependent_required = false;
  uses_numeric_exclusive_bounds = false;
}

module _ {N : Type 0} where
  abbrev pub holds_array : Option (Json N) → Bool
  holds_array (some (Json.array vs)) = true
  holds_array _ = false

  abbrev pub holds_number : Option (Json N) → Bool
  holds_number (some (Json.number n)) = true
  holds_number _ = false

  -- The checks of `detect_31_features_walk` at an object.
  unfoldable pub object_features : List (String × Json N) → Spec31Features → Spec31Features
  unfolding lookup
  object_features es found = record {
    uses_type_array = found.uses_type_array || holds_array (lookup "type" es);
    uses_ref_siblings = found.uses_ref_siblings || is_some (lookup "$ref" es) && ltb 1 (length es);
    uses_const = found.uses_const || is_some (lookup "const" es);
    uses_prefix_items = found.uses_prefix_items || is_some (lookup "prefixItems" es);
    uses_dependent_required =
        found.uses_dependent_required || is_some (lookup "dependentRequired" es);
    uses_numeric_exclusive_bounds =
        found.uses_numeric_exclusive_bounds
        || holds_number (lookup "exclusiveMinimum" es)
        || holds_number (lookup "exclusiveMaximum" es);
  }

  unfoldable mutual
    unfolding object_features

    pub detect_31_features_walk : Json N → Spec31Features → Spec31Features
    detect_31_features_walk (Json.object fs) found =
        walk_values fs (object_features (fields fs) found)
    detect_31_features_walk (Json.array vs) found = walk_elements vs found
    detect_31_features_walk _ found = found

    pub walk_elements : Elems N → Spec31Features → Spec31Features
    walk_elements Elems.nil found = found
    walk_elements (Elems.cons v vs) found = walk_elements vs (detect_31_features_walk v found)

    pub walk_values : Fields N → Spec31Features → Spec31Features
    walk_values Fields.end found = found
    walk_values (Fields.field k v fs) found = walk_values fs (detect_31_features_walk v found)

  unfoldable pub detect_31_features : Json N → Spec31Features
  unfolding detect_31_features_walk
  detect_31_features json = detect_31_features_walk json no_features
