-- ===== src/Merge.antt =====
-- crates/specforge-core/src/merge.rs: several specs merged into one, as JSON values. `==` of two
-- values is serde_json's, a parameter.
pub mod Laws
pub mod Unique
mod Tests
use specforge_openapi_sdk_co.Prelude.{
  String, Bool, true, false, not, Option, none, some, List, [], ◌∷◌, ◌++◌, ◌==◌, if◌then◌else◌, any,
  lookup, insert, is_none, is_some, ◌||◌, select,
}
use specforge_openapi_sdk_co.Json
use specforge_openapi_sdk_co.Json.{Json, Elems, Fields, elems, fields, of_elems, of_fields, get}

-- `SpecError::Invalid`
pub data SpecError : Type 0 where
  invalid : String → SpecError

pub data Merged (A : Type 0) : Type 0 where
  ok : A → Merged A
  err : SpecError → Merged A

module _ {N : Type 0} where
  -- `insert` in an object
  unfoldable pub set : String → Json N → Json N → Json N
  unfolding insert
  set key v (Json.object fs) = Json.object (of_fields (insert key v (fields fs)))
  set key v target = target

  -- `if let Some(x) = target.get_mut(key) { … }`: the value at a key is changed in place.
  abbrev change_found : String → (Json N → Json N) → Option (Json N) → Json N → Json N
  change_found key change none target = target
  change_found key change (some v) target = set key (change v) target

  unfoldable pub change_at : String → (Json N → Json N) → Json N → Json N
  unfolding get
  change_at key change target = change_found key change (get target key) target

  -- `for (key, val) in s_obj { t_obj.insert(key.clone(), val.clone()) }`
  unfoldable pub insert_all :
      List (String × Json N) → List (String × Json N) → List (String × Json N)
  insert_all [] t = t
  insert_all ((k, v) ∷ s) t = insert_all s (insert k v t)

  -- Two objects: the entries of the source go into the target.
  unfoldable pub merge_objects : Json N → Json N → Json N
  merge_objects (Json.object s) (Json.object t) =
      Json.object (of_fields (insert_all (fields s) (fields t)))
  merge_objects source target = target

  abbrev empty_object : Json N
  empty_object = Json.object Fields.end

  abbrev merge_found : String → (Json N → Json N → Json N) → Option (Json N) → Json N → Json N
  merge_found key merge none target = target
  merge_found key merge (some s) target = change_at key (merge s) target

  -- `if let (Some(t), Some(s)) = (target.get_mut(key), source.get(key)) { … }`
  unfoldable pub merge_key : String → (Json N → Json N → Json N) → Json N → Json N → Json N
  unfolding get
  merge_key key merge source target = merge_found key merge (get source key) target

  -- A key that the target lacks gets an empty object.
  unfoldable pub ensure : String → Json N → Json N
  unfolding get
  ensure key target = if is_none (get target key) then set key empty_object target else target

  -- `source` has components and `target` none.
  unfoldable pub ensure_components : Json N → Json N → Json N
  unfolding get
  ensure_components source target =
      if is_some (get source "components") then ensure "components" target else target

  abbrev and_then_get : Option (Json N) → String → Option (Json N)
  and_then_get none key = none
  and_then_get (some v) key = get v key

  abbrev merge_section_found : String → Option (Json N) → Json N → Json N
  merge_section_found section none target = target
  merge_section_found section (some s) target =
      change_at "components" (λ c. change_at section (merge_objects s) (ensure section c)) target

  -- A section of the components: the schemas and the security schemes.
  unfoldable pub merge_section : String → Json N → Json N → Json N
  unfolding get
  merge_section section source target =
      merge_section_found section (and_then_get (get source "components") section) target

  abbrev and_then_str : Option (Json N) → Option String
  and_then_str none = none
  and_then_str (some v) = Json.as_str v

  abbrev pub tag_name : Json N → Option String
  tag_name tag = and_then_str (get tag "name")

  -- `existing_names.contains(n)`, for the tags that the target began with
  abbrev pub names_tag : String → List (Json N) → Bool
  names_tag n [] = false
  names_tag n (t ∷ ts) = (elim (tag_name t) [ none ↦ false | some m ↦ m == n ]) || names_tag n ts

  abbrev pub is_new_tag : List (Json N) → Json N → Bool
  is_new_tag existing tag = elim (tag_name tag) [
    | none ↦ true
    | some n ↦ not (names_tag n existing)
  ]

  unfoldable pub merge_tags : Json N → Json N → Json N
  unfolding get
  merge_tags (Json.array s) (Json.array t) =
      Json.array (of_elems (elems t ++ select (is_new_tag (elems t)) (elems s)))
  merge_tags source target = target

  module _ (equal : Json N → Json N → Bool) where
    -- `if !t_arr.contains(entry) { t_arr.push(entry.clone()) }`, for each entry
    unfoldable pub push_new : List (Json N) → List (Json N) → List (Json N)
    push_new [] t = t
    push_new (entry ∷ s) t = push_new s (if any (λ v. equal v entry) t then t else t ++ entry ∷ [])

    unfoldable pub merge_unique : Json N → Json N → Json N
    merge_unique (Json.array s) (Json.array t) =
        Json.array (of_elems (push_new (elems s) (elems t)))
    merge_unique source target = target

    unfoldable pub merge_into : Json N → Json N → Json N
    merge_into target source = merge_key "servers" merge_unique source (
        merge_key "security" merge_unique source (
          merge_key "tags" merge_tags source (
            merge_section "securitySchemes" source (
              merge_section "schemas" source
                (ensure_components source (merge_key "paths" merge_objects source target))))))

    -- The loop over the specs after the first. `merge_into` never fails.
    unfoldable pub merge_each : Json N → List (Json N) → Json N
    merge_each merged [] = merged
    merge_each merged (spec ∷ specs) = merge_each (merge_into merged spec) specs

    unfoldable pub merge_specs : List (Json N) → Merged (Json N)
    merge_specs [] = Merged.err (SpecError.invalid "no specs to merge")
    merge_specs (first ∷ specs) = Merged.ok (merge_each first specs)
