-- ===== src/Prelude/Text.antt =====
-- Texts that the code walks character by character: lists of code points.
use Prim.Native.Char.{code}
use Prim.Native.String.{String}
use mathlib.Core.Path.{◌≡◌, refl}
use mathlib.Core.Logic.{◌↔◌}
use mathlib.Core.Bool.{Bool, true, false, ◌&&◌, ◌||◌}
use mathlib.Core.Option.{Option, none, some}
use mathlib.Core.List.{List, [], ◌∷◌}
use native.Mathlib.Omega.{arith}
use Prim.Native.Nat.{ℕ, ◌+◌, ◌-◌}
use specforge_openapi_sdk_co.Prelude.Tests.{leb, nat_eq, if◌then◌else◌}

abbrev pub Chars : Type 0
Chars = List ℕ

abbrev pub codes : String → Chars
codes String.[] = []
codes (String.◌∷◌ c s) = code c ∷ codes s

-- `==` of two texts
abbrev pub chars_eq : Chars → Chars → Bool
chars_eq [] [] = true
chars_eq (a ∷ s) (b ∷ t) = nat_eq a b && chars_eq s t
chars_eq _ _ = false

pub chars_eq_iff : (s t : Chars) → (chars_eq s t ≡ true) ↔ (s ≡ t)
chars_eq_iff [] [] = (λ h. refl, λ h. refl)
chars_eq_iff [] (b ∷ t) = (λ h. cc, λ h. cc)
chars_eq_iff (a ∷ s) [] = (λ h. cc, λ h. cc)
chars_eq_iff (a ∷ s) (b ∷ t) = ground (arith, chars_eq_iff s t)

-- `matches!` of a text against a row of literals
abbrev pub is_one_of : List Chars → Chars → Bool
is_one_of [] s = false
is_one_of (w ∷ ws) s = chars_eq w s || is_one_of ws s

abbrev pub is_digit : ℕ → Bool
is_digit c = leb 48 c && leb c 57

abbrev pub is_upper : ℕ → Bool
is_upper c = leb 65 c && leb c 90

abbrev pub is_lower : ℕ → Bool
is_lower c = leb 97 c && leb c 122

-- `is_ascii_alphabetic`, `is_ascii_alphanumeric`
abbrev pub is_alphabetic : ℕ → Bool
is_alphabetic c = is_upper c || is_lower c

abbrev pub is_alphanumeric : ℕ → Bool
is_alphanumeric c = is_alphabetic c || is_digit c

-- `to_uppercase` and `to_ascii_lowercase`, of an ASCII character
abbrev pub to_upper : ℕ → ℕ
to_upper c = if is_lower c then c - 32 else c

abbrev pub to_lower : ℕ → ℕ
to_lower c = if is_upper c then c + 32 else c

-- `strip_prefix`
unfoldable pub strip_prefix : String → String → Option String
strip_prefix s String.[] = some s
strip_prefix String.[] (String.◌∷◌ d p) = none
strip_prefix (String.◌∷◌ c s) (String.◌∷◌ d p) =
    let rest = strip_prefix s p in if nat_eq (code c) (code d) then rest else none
