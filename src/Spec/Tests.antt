-- ===== src/Spec/Tests.antt =====
-- Runs of crates/specforge-core/src/spec.rs on small specs.
use specforge_openapi_sdk_co.Prelude.{
  ℕ, String, ◌≡◌, refl, arith, true, none, some, ◌==◌, if◌then◌else◌, lookup, insert, remove,
}
use specforge_openapi_sdk_co.Json.{Json, Elems, Fields, get}
use specforge_openapi_sdk_co.Merge.{ensure, set}
use specforge_openapi_sdk_co.Spec.{
  each_value, each_element, pass_step, pass, wrap_siblings, extract_ref_siblings, convert_type,
  convert_bound, convert_const, convert_dependent, convert_prefix, downgrade_object,
  downgrade_value, downgrade_31_to_30, extract_info_version, is_31, extract_webhooks,
}
use specforge_openapi_sdk_co.Spec.Features.{
  object_features, detect_31_features_walk, detect_31_features,
}
use specforge_openapi_sdk_co.Spec.Everywhere.{Everywhere}
use specforge_openapi_sdk_co.Spec.Wrapped.{RefAlone, extract_ref_siblings-alone}
use specforge_openapi_sdk_co.Spec.Downgraded.{NoneFound, enough_fuel, downgrade_31_to_30-NoneFound}
use specforge_openapi_sdk_co.Spec.Parse.{
  SpecError, Parsed, ParsedSpec, Readers, trim_start, parse_str, parse_str_full,
}
use specforge_openapi_sdk_co.Spec.Parse.Outcome.{Outcome, parse_str_full-Outcome}

abbrev text : String → Json ℕ
text s = Json.string s

abbrev one : String → Json ℕ → Json ℕ
one k v = Json.object (Fields.field k v Fields.end)

abbrev two : String → Json ℕ → String → Json ℕ → Json ℕ
two k v j w = Json.object (Fields.field k v (Fields.field j w Fields.end))

-- A reference with a description, below a constant.
abbrev described : Json ℕ
described = one "owner" (two "$ref" (text "#/Pet") "description" (text "A pet"))

abbrev constant : Json ℕ
constant = two "openapi" (text "3.1.0") "kind" (one "const" (text "cat"))

extract_run :
    extract_ref_siblings 5 described
    ≡ some (
        one "owner" (
          one "allOf" (
            Json.array (
              Elems.cons
                (one "$ref" (text "#/Pet"))
                (Elems.cons (one "description" (text "A pet")) Elems.nil)))))
unfolding extract_ref_siblings pass pass_step each_value each_element wrap_siblings lookup
extract_run = refl

downgrade_run :
    downgrade_value 4 (one "kind" (one "const" (text "cat")))
    ≡ some (one "kind" (one "enum" (Json.array (Elems.cons (text "cat") Elems.nil))))
unfolding downgrade_value pass pass_step each_value each_element downgrade_object convert_type
    convert_bound convert_const convert_dependent convert_prefix lookup insert remove
downgrade_run = refl

-- A property with the name "const" becomes one with the name "enum", and its schema an array.
downgrade_renames_property :
    downgrade_value 9 (one "properties" (one "const" (one "type" (text "string"))))
    ≡ some (
        one "properties"
          (one "enum" (Json.array (Elems.cons (one "type" (text "string")) Elems.nil))))
unfolding downgrade_value pass pass_step each_value each_element downgrade_object convert_type
    convert_bound convert_const convert_dependent convert_prefix lookup insert remove
downgrade_renames_property = refl

abbrev numbers : Elems ℕ
numbers =
    Elems.cons (text "string") (Elems.cons (text "integer") (Elems.cons (text "null") Elems.nil))

-- A type of two texts besides "null" stays an array.
downgrade_keeps_types :
    downgrade_value 9 (one "type" (Json.array numbers)) ≡ some (one "type" (Json.array numbers))
unfolding downgrade_value pass pass_step each_value each_element downgrade_object convert_type
    convert_bound convert_const convert_dependent convert_prefix lookup insert remove
downgrade_keeps_types = refl

info_run : extract_info_version (one "info" (one "version" (text "2"))) ≡ some "2"
unfolding extract_info_version get lookup
info_run = refl

constant_found : (detect_31_features constant).uses_const ≡ true
unfolding detect_31_features detect_31_features_walk object_features lookup
constant_found = refl

extract_ref_siblings-alone_example :
    (out : Json ℕ) × (extract_ref_siblings 7 described ≡ some out) × Everywhere RefAlone out
extract_ref_siblings-alone_example = extract_ref_siblings-alone described 7 (omega arith)

enough : enough_fuel constant ≡ 16
unfolding enough_fuel ensure set get extract_ref_siblings pass pass_step each_value each_element
    wrap_siblings lookup insert
enough = refl

downgrade_31_to_30-NoneFound_example :
    (out : Json ℕ) × (downgrade_31_to_30 20 constant ≡ some out)
    × NoneFound (detect_31_features out)
downgrade_31_to_30-NoneFound_example =
    downgrade_31_to_30-NoneFound constant 20 (rw enough (omega arith))

-- The only JSON text is that of `constant`, nothing is YAML, and every value is a document.
abbrev readers : Readers ℕ (Json ℕ) String String
readers = record {
  from_json = λ s. if s == "{...}" then some constant else none;
  from_yaml = λ s. Parsed.error "no YAML";
  from_value = λ v. Parsed.ok v;
}

abbrev downgraded : Json ℕ
downgraded = Json.object (
    Fields.field "openapi" (text "3.1.0") (
      Fields.field "kind" (one "enum" (Json.array (Elems.cons (text "cat") Elems.nil)))
        (Fields.field "paths" (Json.object Fields.end) Fields.end)))

-- The white space before a JSON text is dropped.
parse_str_runs :
    (parse_str readers 9 " \n{...}" ≡ some (Parsed.ok downgraded))
    × (parse_str_full readers 9 " \n{...}"
        ≡ some (Parsed.ok (record { spec = downgraded; webhooks = none })))
    × (parse_str_full readers 9 "x" ≡ some (Parsed.error (SpecError.yaml "no YAML")))
unfolding parse_str parse_str_full trim_start is_31 extract_webhooks downgrade_31_to_30 ensure set
    extract_ref_siblings downgrade_value pass pass_step each_value each_element wrap_siblings
    downgrade_object convert_type convert_bound convert_const convert_dependent convert_prefix get
    lookup insert remove
parse_str_runs = (refl, refl, refl)

parse_str_full-Outcome_example :
    (fuel : ℕ) × (result : Parsed (SpecError String String) (ParsedSpec ℕ (Json ℕ)))
    × (parse_str_full readers fuel " {...}" ≡ some result)
    × Outcome readers " {...}" result
parse_str_full-Outcome_example = parse_str_full-Outcome readers " {...}"
