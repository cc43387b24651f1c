-- ===== src/Spec/Parse/Outcome.antt =====
-- What `parse_str` and `parse_str_full` of crates/specforge-core/src/spec.rs do with any text.
use specforge_openapi_sdk_co.Prelude.{
  ℕ, ◌≡◌, ◌≢◌, refl, String, Bool, true, false, if◌then◌else◌, Option, none, some, ◌==◌, lookup,
  remove, lookup-remove, Bool-cases, Option-cases, inl, inr, arith, ◌∙◌, sym, ap,
}
use specforge_openapi_sdk_co.Json.{Json, fields, get}
use specforge_openapi_sdk_co.Merge.Laws.{fields-of_fields}
use specforge_openapi_sdk_co.Spec.{only_object, extract_webhooks, is_31, downgrade_31_to_30}
use specforge_openapi_sdk_co.Spec.Features.{detect_31_features}
use specforge_openapi_sdk_co.Spec.Downgraded.{NoneFound, enough_fuel, downgrade_31_to_30-NoneFound}
use specforge_openapi_sdk_co.Spec.Parse.{
  SpecError, Parsed, ParsedSpec, Readers, trim_start, parsed_spec, parse_value_full, parse_str_full,
}

module _ {N : Type 0} where
  -- What `extract_webhooks` leaves has nothing at "webhooks", and at any other key what the spec
  -- has there.
  extract_webhooks-get :
      (json : Json N) (key : String)
      → get (extract_webhooks json).1 key ≡ (if "webhooks" == key then none else get json key)
  unfolding extract_webhooks get
  extract_webhooks-get (Json.object fs) key =
      rw (fields-of_fields (remove "webhooks" (fields fs)))
        (lookup-remove "webhooks" key (fields fs))
  extract_webhooks-get Json.null key = ground arith
  extract_webhooks-get (Json.bool b) key = ground arith
  extract_webhooks-get (Json.number n) key = ground arith
  extract_webhooks-get (Json.string s) key = ground arith
  extract_webhooks-get (Json.array vs) key = ground arith

  -- The two agree but for what is at "webhooks", and there the second has nothing.
  abbrev pub WithoutWebhooks : Json N → Json N → Type 0
  WithoutWebhooks json rest =
      (key : String) → get rest key ≡ (if "webhooks" == key then none else get json key)

  abbrev is_object : Json N → Bool
  is_object (Json.object fs) = true
  is_object _ = false

  -- The webhooks of a spec: the object at "webhooks", if there is one.
  pub data WebhooksOf (json : Json N) : Option (Json N) → Type 0 where
    an_object :
        {v : Json N} → is_object v ≡ true → get json "webhooks" ≡ some v → WebhooksOf json (some v)
    no_object :
        ((v : Json N) → is_object v ≡ true → get json "webhooks" ≢ some v) → WebhooksOf json none

  -- What may be given to the reader of 3.0 documents: the value itself, or if it says that it is of
  -- version 3.1, what the downgrade makes of it, which has none of the constructs converted away.
  pub data Readable (json : Json N) : Json N → Type 0 where
    as_it_is : is_31 json ≡ false → Readable json json
    downgraded :
        {out : Json N} (fuel : ℕ)
        → is_31 json ≡ true
        → downgrade_31_to_30 fuel json ≡ some out
        → NoneFound (detect_31_features out)
        → Readable json out

  not_object : (u v : Json N) → some u ≡ some v → is_object v ≡ true → is_object u ≡ false → ⊥
  not_object u v same h k = cc

  extract-WebhooksOf : (json : Json N) → WebhooksOf json (extract_webhooks json).0
  unfolding extract_webhooks get
  extract-WebhooksOf (Json.object fs) = found (lookup "webhooks" (fields fs)) refl
    where
      found :
          (o : Option (Json N))
          → lookup "webhooks" (fields fs) ≡ o
          → WebhooksOf (Json.object fs) (only_object o)
      found none e = WebhooksOf.no_object (λ v h same. cc)
      found (some (Json.object gs)) e = WebhooksOf.an_object refl e
      found (some Json.null) e =
          WebhooksOf.no_object (λ v h same. not_object Json.null v (sym e ∙ same) h refl)
      found (some (Json.bool b)) e =
          WebhooksOf.no_object (λ v h same. not_object (Json.bool b) v (sym e ∙ same) h refl)
      found (some (Json.number n)) e =
          WebhooksOf.no_object (λ v h same. not_object (Json.number n) v (sym e ∙ same) h refl)
      found (some (Json.string s)) e =
          WebhooksOf.no_object (λ v h same. not_object (Json.string s) v (sym e ∙ same) h refl)
      found (some (Json.array vs)) e =
          WebhooksOf.no_object (λ v h same. not_object (Json.array vs) v (sym e ∙ same) h refl)
  extract-WebhooksOf Json.null = WebhooksOf.no_object (λ v h same. cc)
  extract-WebhooksOf (Json.bool b) = WebhooksOf.no_object (λ v h same. cc)
  extract-WebhooksOf (Json.number n) = WebhooksOf.no_object (λ v h same. cc)
  extract-WebhooksOf (Json.string s) = WebhooksOf.no_object (λ v h same. cc)
  extract-WebhooksOf (Json.array vs) = WebhooksOf.no_object (λ v h same. cc)

  -- The downgrade, where it is needed, ends with some fuel.
  readable :
      (json : Json N)
      → (fuel : ℕ) × (out : Json N) × ((if is_31 json
            then downgrade_31_to_30 fuel json
            else some json)
          ≡ some out)
        × Readable json out
  readable json = elim (Bool-cases (is_31 json)) [
    | inl new ↦
        let (out, ends, gone) =
          downgrade_31_to_30-NoneFound json (enough_fuel json) (omega arith) in
        (enough_fuel json, out, rw new ends, Readable.downgraded (enough_fuel json) new ends gone)
    | inr old ↦ (0, json, rw old refl, Readable.as_it_is old)
  ]

module _ {N Api YamlError JsonError : Type 0} (readers : Readers N Api YamlError JsonError) where
  -- The value that a text stands for: as JSON, with the white space before it dropped, or, if it is
  -- none, as YAML.
  pub data Reads (text : String) : Json N → Type 0 where
    as_json : {v : Json N} → readers.from_json (trim_start text) ≡ some v → Reads text v
    as_yaml :
        {v : Json N}
        → readers.from_json (trim_start text) ≡ none
        → readers.from_yaml text ≡ Parsed.ok v
        → Reads text v

  -- What may become of a text.
  pub data Outcome (text : String)
      : Parsed (SpecError YamlError JsonError) (ParsedSpec N Api) → Type 0 where
    unreadable :
        {e : YamlError}
        → readers.from_json (trim_start text) ≡ none
        → readers.from_yaml text ≡ Parsed.error e
        → Outcome text (Parsed.error (SpecError.yaml e))
    refused :
        {e : JsonError} (v rest out : Json N)
        → Reads text v
        → WithoutWebhooks v rest
        → Readable rest out
        → readers.from_value out ≡ Parsed.error e
        → Outcome text (Parsed.error (SpecError.json e))
    parsed :
        {api : Api} {hooks : Option (Json N)} (v rest out : Json N)
        → Reads text v
        → WebhooksOf v hooks
        → WithoutWebhooks v rest
        → Readable rest out
        → readers.from_value out ≡ Parsed.ok api
        → Outcome text (Parsed.ok (record { spec = api; webhooks = hooks }))

  value-Outcome :
      (text : String) (v : Json N)
      → Reads text v
      → (fuel : ℕ) × (result : Parsed (SpecError YamlError JsonError) (ParsedSpec N Api))
        × (parse_value_full readers fuel v ≡ some result)
        × Outcome text result
  value-Outcome text v read =
      let rest = (extract_webhooks v).1 in
      let (fuel, out, ends, able) = readable rest in
      given fuel out ends able (readers.from_value out) refl
    where
      given :
          (fuel : ℕ) (out : Json N)
          → (if is_31 (extract_webhooks v).1
              then downgrade_31_to_30 fuel (extract_webhooks v).1
              else some (extract_webhooks v).1)
            ≡ some out
          → Readable (extract_webhooks v).1 out
          → (r : Parsed JsonError Api) → readers.from_value out ≡ r
          → (fuel : ℕ) × (result : Parsed (SpecError YamlError JsonError) (ParsedSpec N Api))
            × (parse_value_full readers fuel v ≡ some result)
            × Outcome text result
      given fuel out ends able (Parsed.error e) h = (
        fuel,
        Parsed.error (SpecError.json e),
        ap (parsed_spec readers (extract_webhooks v).0) ends ∙ rw (h, parsed_spec) refl,
        Outcome.refused v (extract_webhooks v).1 out read (extract_webhooks-get v) able h,
      )
      given fuel out ends able (Parsed.ok api) h = (
        fuel,
        Parsed.ok (record { spec = api; webhooks = (extract_webhooks v).0 }),
        ap (parsed_spec readers (extract_webhooks v).0) ends ∙ rw (h, parsed_spec) refl,
        Outcome.parsed v (extract_webhooks v).1 out read (extract-WebhooksOf v)
            (extract_webhooks-get v) able h,
      )

  parse_str_full-json :
      (fuel : ℕ) (text : String) (v : Json N)
      → readers.from_json (trim_start text) ≡ some v
      → parse_str_full readers fuel text ≡ parse_value_full readers fuel v
  unfolding parse_str_full
  parse_str_full-json fuel text v e = rw (e, parse_str_full) refl

  parse_str_full-yaml :
      (fuel : ℕ) (text : String) (v : Json N)
      → readers.from_json (trim_start text) ≡ none
      → readers.from_yaml text ≡ Parsed.ok v
      → parse_str_full readers fuel text ≡ parse_value_full readers fuel v
  unfolding parse_str_full
  parse_str_full-yaml fuel text v e h = rw (e, h, parse_str_full) refl

  parse_str_full-unreadable :
      (fuel : ℕ) (text : String) (e : YamlError)
      → readers.from_json (trim_start text) ≡ none
      → readers.from_yaml text ≡ Parsed.error e
      → parse_str_full readers fuel text ≡ some (Parsed.error (SpecError.yaml e))
  unfolding parse_str_full
  parse_str_full-unreadable fuel text e no_json h = rw (no_json, h, parse_str_full) refl

  -- For every text `parse_str_full` ends with some fuel, in one of three ways. If the text is
  -- neither JSON, with the white space before it dropped, nor YAML, the error is that of the YAML
  -- reader. Otherwise the value without its webhooks is given to the reader of documents, downgraded
  -- if it says that it is of version 3.1, and then without the constructs converted away: if that
  -- reader refuses it, the error is its error, and if not, the result is its document with the
  -- object at "webhooks", if there is one.
  pub parse_str_full-Outcome :
      (text : String)
      → (fuel : ℕ) × (result : Parsed (SpecError YamlError JsonError) (ParsedSpec N Api))
        × (parse_str_full readers fuel text ≡ some result)
        × Outcome text result
  parse_str_full-Outcome text = elim (Option-cases (readers.from_json (trim_start text))) [
    | inr (v, is_json) ↦
        let (fuel, result, ends, outcome) = value-Outcome text v (Reads.as_json is_json) in
        (fuel, result, parse_str_full-json fuel text v is_json ∙ ends, outcome)
    | inl no_json ↦ from_yaml no_json (readers.from_yaml text) refl
  ]
    where
      from_yaml :
          readers.from_json (trim_start text) ≡ none
          → (y : Parsed YamlError (Json N)) → readers.from_yaml text ≡ y
          → (fuel : ℕ) × (result : Parsed (SpecError YamlError JsonError) (ParsedSpec N Api))
            × (parse_str_full readers fuel text ≡ some result)
            × Outcome text result
      from_yaml no_json (Parsed.error e) h = (
        0,
        Parsed.error (SpecError.yaml e),
        parse_str_full-unreadable 0 text e no_json h,
        Outcome.unreadable no_json h,
      )
      from_yaml no_json (Parsed.ok v) h =
          let (fuel, result, ends, outcome) = value-Outcome text v (Reads.as_yaml no_json h) in
          (fuel, result, parse_str_full-yaml fuel text v no_json h ∙ ends, outcome)
