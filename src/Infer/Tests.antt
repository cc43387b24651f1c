-- ===== src/Infer/Tests.antt =====
-- Runs of crates/specforge-core/src/infer.rs on small samples.
use specforge_openapi_sdk_co.Prelude.{ℕ, ◌≡◌, refl, Bool, true, false, some, lookup, nat_eq}
use specforge_openapi_sdk_co.Json.{Json, Elems, get}
use specforge_openapi_sdk_co.Infer.{
  one, two, three, infer_string_schema, infer_schema, infer_openapi, default_options,
}
use specforge_openapi_sdk_co.Infer.Alike.{accepts, alike}
use specforge_openapi_sdk_co.Infer.Accepts.{infer_schema-accepts}

-- Numbers are natural, and all but 7 are integers.
abbrev whole : ℕ → Bool
whole n = elim (nat_eq n 7) [ true ↦ false | false ↦ true ]

abbrev pet : Json ℕ
pet = two "id" (Json.number 1) "tags" (Json.array (Elems.cons (Json.string "cat") Elems.nil))

abbrev other_pet : Json ℕ
other_pet = three "id" (Json.number 2) "tags" (Json.array Elems.nil) "name" (Json.string "Tom")

infer_run :
    infer_schema whole whole (one "id" (Json.number 1)) "Pet"
    ≡ three "type"
        (Json.string "object")
        "properties"
        (one "id" (one "type" (Json.string "integer")))
        "required"
        (Json.array (Elems.cons (Json.string "id") Elems.nil))
unfolding infer_schema infer_string_schema
infer_run = refl

infer_schema-accepts_example :
    accepts whole whole (infer_schema whole whole pet "Pet") other_pet
    ≡ alike whole whole pet other_pet
infer_schema-accepts_example = infer_schema-accepts whole whole pet other_pet "Pet"

pets_alike : alike whole whole pet other_pet ≡ true
unfolding alike lookup
pets_alike = refl

abbrev mixed : Json ℕ
mixed = Json.array (Elems.cons (Json.number 1) (Elems.cons (Json.string "a") Elems.nil))

-- A sample with a mixed array is not like itself, so it fails its own schema.
mixed_not_alike : alike whole whole mixed mixed ≡ false
unfolding alike
mixed_not_alike = refl

spec_run :
    get (infer_openapi whole whole pet default_options) "openapi" ≡ some (Json.string "3.0.3")
unfolding infer_openapi get lookup
spec_run = refl
