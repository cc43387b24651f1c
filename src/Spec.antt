-- ===== src/Spec.antt =====
-- crates/specforge-core/src/spec.rs: the rewriting of an OpenAPI 3.1 spec, as JSON, to 3.0. A pass
-- goes down into what it has just rewritten, so it takes fuel, one unit for each call, and `none`
-- says that it ran out.
pub mod Features
pub mod Passes
pub mod Everywhere
pub mod Ends
pub mod Wrapped
pub mod Conversions
pub mod Downgraded
pub mod Parse
pub mod Tests
use text.Mathlib.Text.{starts_with}
use specforge_openapi_sdk_co.Prelude.{
  ℕ, zero, suc, String, Bool, true, false, not, ◌&&◌, ◌||◌, Option, none, some, List, [], ◌∷◌, ◌++◌,
  ◌==◌, if◌then◌else◌, any, select, is_empty, is_some, lookup, insert, remove, length, nat_eq,
}
use specforge_openapi_sdk_co.Json.{
  as_str, Json, Elems, Fields, elems, fields, of_elems, of_fields, get,
}
use specforge_openapi_sdk_co.Merge.{ensure}

abbrev pub Entries : Type 0 → Type 0
Entries N = List (String × Json N)

-- `for val in obj.values_mut()` and `for val in arr.iter_mut()`
abbrev pub prepend : {A : Type 0} → Option A → Option (List A) → Option (List A)
prepend (some v) (some vs) = some (v ∷ vs)
prepend _ _ = none

module _ {N : Type 0} where
  -- `is_31`
  abbrev version_is_31 : Option (Json N) → Bool
  version_is_31 (some (Json.string v)) = starts_with v "3.1"
  version_is_31 _ = false

  unfoldable pub is_31 : Json N → Bool
  unfolding get
  is_31 json = version_is_31 (get json "openapi")

  -- The value that `extract_webhooks` returns, and the spec without it.
  abbrev pub only_object : Option (Json N) → Option (Json N)
  only_object (some (Json.object fs)) = some (Json.object fs)
  only_object _ = none

  unfoldable pub extract_webhooks : Json N → Option (Json N) × Json N
  unfolding lookup remove
  extract_webhooks (Json.object fs) = (
    only_object (lookup "webhooks" (fields fs)),
    Json.object (of_fields (remove "webhooks" (fields fs))),
  )
  extract_webhooks json = (none, json)

  abbrev pub under : String → Option (Json N) → Option (String × Json N)
  under k none = none
  under k (some v) = some (k, v)

  module _ (inner : Json N → Option (Json N)) where
    unfoldable pub each_value : Entries N → Option (Entries N)
    each_value [] = some []
    each_value ((k, v) ∷ es) = prepend (under k (inner v)) (each_value es)

    unfoldable pub each_element : List (Json N) → Option (List (Json N))
    each_element [] = some []
    each_element (v ∷ vs) = prepend (inner v) (each_element vs)

    abbrev pub object_of : Option (Entries N) → Option (Json N)
    object_of none = none
    object_of (some es) = some (Json.object (of_fields es))

    abbrev pub array_of : Option (List (Json N)) → Option (Json N)
    array_of none = none
    array_of (some vs) = some (Json.array (of_elems vs))

    -- A pass: an object is rewritten, and then what is inside is passed over.
    unfoldable pub pass_step : (Entries N → Entries N) → Json N → Option (Json N)
    pass_step rewrite (Json.object fs) = object_of (each_value (rewrite (fields fs)))
    pass_step rewrite (Json.array vs) = array_of (each_element (elems vs))
    pass_step rewrite json = some json

  unfoldable pub pass : (Entries N → Entries N) → ℕ → Json N → Option (Json N)
  pass rewrite zero json = none
  pass rewrite (suc fuel) json = pass_step (pass rewrite fuel) rewrite json

  abbrev pub siblings : Entries N → Entries N
  siblings es = select (λ kv. not (kv.0 == "$ref")) es

  abbrev pub wrapper : Json N → Entries N → Entries N
  wrapper ref_val es =
      (
        "allOf",
        Json.array (
            Elems.cons (Json.object (Fields.field "$ref" ref_val Fields.end))
              (Elems.cons (Json.object (of_fields es)) Elems.nil)),
      )
      ∷ []

  -- What `extract_ref_siblings` makes of an object that has the value at "$ref".
  abbrev pub wrap_found : Option (Json N) → Entries N → Entries N
  wrap_found (some (Json.string s)) es =
      if s == "" || is_empty (siblings es) then es else wrapper (Json.string s) (siblings es)
  wrap_found _ es = es

  unfoldable pub wrap_siblings : Entries N → Entries N
  unfolding lookup
  wrap_siblings es = wrap_found (lookup "$ref" es) es

  unfoldable pub extract_ref_siblings : ℕ → Json N → Option (Json N)
  unfolding pass
  extract_ref_siblings fuel json = pass wrap_siblings fuel json

  -- `v.as_str() == Some(s)`, which is also `v == Value::String(s)`
  abbrev pub is_text : String → Json N → Bool
  is_text s (Json.string t) = t == s
  is_text s _ = false

  -- The arms of the conversion of `type`, on what is left without "null".
  abbrev retype : Bool → List (Json N) → Entries N → Entries N
  retype false non_null es = es
  retype true (t ∷ []) es = insert "nullable" (Json.bool true) (insert "type" t es)
  retype true [] es = insert "nullable" (Json.bool true) (remove "type" es)
  retype true _ es = es

  abbrev pub type_found : Option (Json N) → Entries N → Entries N
  type_found (some (Json.array vs)) es =
      retype (any (is_text "null") (elems vs)) (select (λ v. not (is_text "null" v)) (elems vs)) es
  type_found _ es = es

  unfoldable pub convert_type : Entries N → Entries N
  unfolding lookup insert remove
  convert_type es = type_found (lookup "type" es) es

  abbrev pub bound_found : String → Option (Json N) → Entries N → Entries N
  bound_found field (some (Json.number _)) es = insert field (Json.bool true) es
  bound_found field _ es = es

  unfoldable pub convert_bound : String → Entries N → Entries N
  unfolding lookup insert
  convert_bound field es = bound_found field (lookup field es) es

  abbrev pub const_found : Option (Json N) → Entries N → Entries N
  const_found (some v) es = insert "enum" (Json.array (Elems.cons v Elems.nil)) (remove "const" es)
  const_found none es = es

  unfoldable pub convert_const : Entries N → Entries N
  unfolding lookup insert remove
  convert_const es = const_found (lookup "const" es) es

  -- The texts of an array.
  abbrev pub texts : List (Json N) → List String
  texts [] = []
  texts (Json.string s ∷ vs) = s ∷ texts vs
  texts (_ ∷ vs) = texts vs

  abbrev texts_of : Json N → List String
  texts_of (Json.array vs) = texts (elems vs)
  texts_of _ = []

  -- `extra`: the texts of all arrays in the map.
  abbrev pub extra_of : Entries N → List String
  extra_of [] = []
  extra_of ((k, deps) ∷ es) = texts_of deps ++ extra_of es

  -- `if !req_arr.contains(&dep_json) { req_arr.push(dep_json) }`, for each dependency
  abbrev pub push_required : List String → List (Json N) → List (Json N)
  push_required [] req = req
  push_required (dep ∷ deps) req =
      push_required deps (if any (is_text dep) req then req else req ++ Json.string dep ∷ [])

  abbrev require_in : List String → Option (Json N) → Entries N → Entries N
  require_in extra none es = insert "required" (Json.array (of_elems (push_required extra []))) es
  require_in extra (some (Json.array req)) es =
      insert "required" (Json.array (of_elems (push_required extra (elems req)))) es
  require_in extra (some _) es = es

  abbrev pub require_all : List String → Entries N → Entries N
  require_all [] es = es
  require_all (dep ∷ deps) es = require_in (dep ∷ deps) (lookup "required" es) es

  abbrev pub dependent_found : Option (Json N) → Entries N → Entries N
  dependent_found none es = es
  dependent_found (some (Json.object deps)) es =
      require_all (extra_of (fields deps)) (remove "dependentRequired" es)
  dependent_found (some _) es = remove "dependentRequired" es

  unfoldable pub convert_dependent : Entries N → Entries N
  unfolding lookup insert remove
  convert_dependent es = dependent_found (lookup "dependentRequired" es) es

  abbrev first_item : Json N → Entries N → Entries N
  first_item (Json.array (Elems.cons v vs)) es = insert "items" v es
  first_item _ es = es

  abbrev pub prefix_found : Option (Json N) → Entries N → Entries N
  prefix_found none es = es
  prefix_found (some p) es = first_item p (remove "prefixItems" es)

  unfoldable pub convert_prefix : Entries N → Entries N
  unfolding lookup insert remove
  convert_prefix es = prefix_found (lookup "prefixItems" es) es

  -- The conversions of `downgrade_value` at an object, in their order.
  unfoldable pub downgrade_object : Entries N → Entries N
  downgrade_object es = convert_prefix (
      convert_dependent (
        convert_const
          (convert_bound "exclusiveMaximum" (convert_bound "exclusiveMinimum" (convert_type es)))))

  unfoldable pub downgrade_value : ℕ → Json N → Option (Json N)
  unfolding pass
  downgrade_value fuel json = pass downgrade_object fuel json

  abbrev and_then_downgrade : ℕ → Option (Json N) → Option (Json N)
  and_then_downgrade fuel none = none
  and_then_downgrade fuel (some json) = downgrade_value fuel json

  unfoldable pub downgrade_31_to_30 : ℕ → Json N → Option (Json N)
  unfolding ensure
  downgrade_31_to_30 fuel json =
      and_then_downgrade fuel (extract_ref_siblings fuel (ensure "paths" json))

  -- `extract_info_version`
  abbrev get_some : Option (Json N) → String → Option (Json N)
  get_some none key = none
  get_some (some v) key = get v key

  abbrev str_some : Option (Json N) → Option String
  str_some none = none
  str_some (some v) = as_str v

  unfoldable pub extract_info_version : Json N → Option String
  unfolding get
  extract_info_version json = str_some (get_some (get json "info") "version")
