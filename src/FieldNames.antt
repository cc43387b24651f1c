-- ===== src/FieldNames.antt =====
-- The loop of `unique_field_name` in crates/specforge-rust/src/lib.rs and
-- crates/specforge-go/src/lib.rs, which differ in what they put between the name and the number.
-- The loop takes fuel, one unit for each round, and `none` says that it ran out. The set of used
-- names is a list. The numbers are ℕ, and so never wrap.
pub mod Fresh
pub mod Suffixed
pub mod Tests
use specforge_openapi_sdk_co.Prelude.{
  ℕ, zero, suc, ◌≡◌, ◌≢◌, Bool, Option, none, some, List, [], ◌∷◌, ◌++◌, any, if◌then◌else◌, Chars,
  chars_eq,
}

-- What the names rest on: a number is written in at least one digit, and two numbers differently.
pub record Decimal : Type 0 where
  pub display : ℕ → Chars
  pub display_some : (n : ℕ) → display n ≢ []
  pub display_injective : (m n : ℕ) → display m ≡ display n → m ≡ n

abbrev pub contains : List Chars → Chars → Bool
contains used name = any (chars_eq name) used

module _ (suffix : ℕ → Chars) where
  -- `while !used.insert(candidate.clone())`: the name found, and the names used then.
  unfoldable pub unique_loop : ℕ → Chars → ℕ → Chars → List Chars → Option (Chars × List Chars)
  unique_loop zero base n candidate used = none
  unique_loop (suc fuel) base n candidate used =
      let again = unique_loop fuel base (suc n) (base ++ suffix n) used in
      if contains used candidate then again else some (candidate, candidate ∷ used)

  unfoldable pub unique_field_name : ℕ → Chars → List Chars → Option (Chars × List Chars)
  unfolding unique_loop
  unique_field_name fuel base used = unique_loop fuel base 2 base used

  abbrev then_name : Chars → Option (List Chars) → Option (List Chars)
  then_name name none = none
  then_name name (some names) = some (name ∷ names)

  -- The fields of a type, one after another.
  unfoldable pub field_names : ℕ → List Chars → List Chars → Option (List Chars)
  field_names fuel [] used = some []
  field_names fuel (base ∷ bases) used = elim (unique_field_name fuel base used) [
    | none ↦ none
    | some (name, used') ↦ then_name name (field_names fuel bases used')
  ]
