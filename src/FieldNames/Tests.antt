-- ===== src/FieldNames/Tests.antt =====
-- Runs of the naming of fields.
use specforge_openapi_sdk_co.Prelude.{
  ℕ, zero, suc, ◌≡◌, ◌≢◌, refl, ap, arith, all, is_digit, true, some, List, [], ◌∷◌, Chars, codes,
  length,
}
use specforge_openapi_sdk_co.FieldNames.{Decimal, unique_loop, unique_field_name, field_names}
use specforge_openapi_sdk_co.FieldNames.Fresh.{Distinct, AllNew, field_names-Distinct}

-- Numbers written in strokes.
abbrev strokes : ℕ → Chars
strokes zero = b'1' ∷ []
strokes (suc n) = b'1' ∷ strokes n

length-strokes : (n : ℕ) → length (strokes n) ≡ suc n
length-strokes zero = refl
length-strokes (suc n) = ap suc (length-strokes n)

strokes_injective : (m n : ℕ) → strokes m ≡ strokes n → m ≡ n
strokes_injective m n e = omega (arith, length-strokes m, length-strokes n, ap length e)

strokes_some : (n : ℕ) → strokes n ≢ []
strokes_some zero e = cc
strokes_some (suc n) e = cc

pub in_strokes : Decimal
in_strokes = record {
  display = strokes;
  display_some = strokes_some;
  display_injective = strokes_injective;
}

strokes-is_digit : (n : ℕ) → all is_digit (strokes n) ≡ true
strokes-is_digit zero = refl
strokes-is_digit (suc n) = strokes-is_digit n

pub in_strokes-is_digit : (n : ℕ) → all is_digit (in_strokes.display n) ≡ true
unfolding in_strokes
in_strokes-is_digit n = strokes-is_digit n

field_names_run :
    field_names strokes 9 (codes "id" ∷ codes "id" ∷ codes "id" ∷ []) []
    ≡ some (codes "id" ∷ codes "id111" ∷ codes "id1111" ∷ [])
unfolding field_names unique_field_name unique_loop
field_names_run = refl

field_names-Distinct_example :
    (names : List Chars) × (field_names strokes 9 (codes "id" ∷ codes "id" ∷ []) [] ≡ some names)
    × (length names ≡ 2)
    × Distinct names
    × AllNew [] names
field_names-Distinct_example =
    field_names-Distinct strokes 9 (codes "id" ∷ codes "id" ∷ []) [] strokes_injective strokes_some
      (omega arith)
