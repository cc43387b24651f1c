-- ===== src/Spec/Parse.antt =====
-- crates/specforge-core/src/spec.rs: parsing a spec with and without its webhooks. The readers of
-- serde_json, serde_yaml and openapiv3 are parameters. `none` says that the fuel ran out.
pub mod Outcome
use Prim.Native.Char.{code}
use specforge_openapi_sdk_co.Prelude.{
  ℕ, ◌≤◌, ◌≡◌, ◌≢◌, refl, String, Bool, true, false, ◌&&◌, ◌||◌, if◌then◌else◌, Option, none, some,
  ◌==◌, nat_eq, leb, remove, lookup-remove, Bool-cases, Option-cases, inl, inr, ap, arith,
}
use specforge_openapi_sdk_co.Json.{Json, Fields, fields, of_fields, get}
use specforge_openapi_sdk_co.Merge.Laws.{fields-of_fields}
use specforge_openapi_sdk_co.Spec.{extract_webhooks, is_31, downgrade_31_to_30}
use specforge_openapi_sdk_co.Spec.Features.{detect_31_features}
use specforge_openapi_sdk_co.Spec.Downgraded.{NoneFound, enough_fuel, downgrade_31_to_30-NoneFound}

-- `SpecError`, of the kinds that parsing a text can give, with what the readers report.
pub data SpecError (YamlError JsonError : Type 0) : Type 0 where
  yaml : YamlError → SpecError YamlError JsonError
  json : JsonError → SpecError YamlError JsonError

-- `Result`
pub data Parsed (E A : Type 0) : Type 0 where
  ok : A → Parsed E A
  error : E → Parsed E A

-- `ParsedSpec`
pub record ParsedSpec (N Api : Type 0) : Type 0 where
  pub spec : Api
  pub webhooks : Option (Json N)

-- `serde_json::from_str`, whose error is dropped, `serde_yaml::from_str` and
-- `serde_json::from_value`.
pub record Readers (N Api YamlError JsonError : Type 0) : Type 0 where
  pub from_json : String → Option (Json N)
  pub from_yaml : String → Parsed YamlError (Json N)
  pub from_value : Json N → Parsed JsonError Api

-- `char::is_whitespace`
abbrev pub is_whitespace : ℕ → Bool
is_whitespace c =
    (leb 9 c && leb c 13)
    || nat_eq c 32
    || nat_eq c 133
    || nat_eq c 160
    || nat_eq c 5760
    || (leb 8192 c && leb c 8202)
    || nat_eq c 8232
    || nat_eq c 8233
    || nat_eq c 8239
    || nat_eq c 8287
    || nat_eq c 12288

-- `str::trim_start`
unfoldable pub trim_start : String → String
trim_start String.[] = ""
trim_start (String.◌∷◌ c s) =
    let rest = trim_start s in if is_whitespace (code c) then rest else String.◌∷◌ c s

module _ {N Api YamlError JsonError : Type 0} (readers : Readers N Api YamlError JsonError) where
  abbrev document : Option (Json N) → Option (Parsed (SpecError YamlError JsonError) Api)
  document none = none
  document (some value) = elim (readers.from_value value) [
    | Parsed.error e ↦ some (Parsed.error (SpecError.json e))
    | Parsed.ok api ↦ some (Parsed.ok api)
  ]

  -- `parse_str`, from the value that was read.
  abbrev pub parse_value : ℕ → Json N → Option (Parsed (SpecError YamlError JsonError) Api)
  parse_value fuel value =
      document (if is_31 value then downgrade_31_to_30 fuel value else some value)

  unfoldable pub parse_str : ℕ → String → Option (Parsed (SpecError YamlError JsonError) Api)
  unfolding trim_start
  parse_str fuel text = elim (readers.from_json (trim_start text)) [
    | some value ↦ parse_value fuel value
    | none ↦ elim (readers.from_yaml text) [
      | Parsed.error e ↦ some (Parsed.error (SpecError.yaml e))
      | Parsed.ok value ↦ parse_value fuel value
    ]
  ]

  abbrev pub parsed_spec :
      Option (Json N)
      → Option (Json N)
      → Option (Parsed (SpecError YamlError JsonError) (ParsedSpec N Api))
  parsed_spec hooks none = none
  parsed_spec hooks (some value) = elim (readers.from_value value) [
    | Parsed.error e ↦ some (Parsed.error (SpecError.json e))
    | Parsed.ok api ↦ some (Parsed.ok (record { spec = api; webhooks = hooks }))
  ]

  -- `parse_str_full`, from the value that was read.
  abbrev pub parse_value_full :
      ℕ → Json N → Option (Parsed (SpecError YamlError JsonError) (ParsedSpec N Api))
  parse_value_full fuel value =
      let (hooks, rest) = extract_webhooks value in
      parsed_spec hooks (if is_31 rest then downgrade_31_to_30 fuel rest else some rest)

  unfoldable pub parse_str_full :
      ℕ → String → Option (Parsed (SpecError YamlError JsonError) (ParsedSpec N Api))
  unfolding trim_start
  parse_str_full fuel text = elim (readers.from_json (trim_start text)) [
    | some value ↦ parse_value_full fuel value
    | none ↦ elim (readers.from_yaml text) [
      | Parsed.error e ↦ some (Parsed.error (SpecError.yaml e))
      | Parsed.ok value ↦ parse_value_full fuel value
    ]
  ]
