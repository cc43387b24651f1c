-- ===== src/Names.antt =====
-- crates/specforge-ts/src/name.rs: names of a spec as TypeScript identifiers and string literals.
-- A text is its list of characters, as code points.
pub mod Words
pub mod Identifiers
pub mod Literals
mod Tests
use Prim.Native.String
use specforge_openapi_sdk_co.Prelude.{
  ℕ, Bool, true, false, not, ◌&&◌, ◌||◌, List, [], ◌∷◌, ◌++◌, nat_eq, if◌then◌else◌, all, Chars,
  codes, is_one_of, is_digit, is_alphabetic, is_alphanumeric, to_upper, to_lower,
}
use Words.{reserved, builtin_types}

-- The loop of `pascal`; the flag is `next_upper`.
unfoldable pub pascal_loop : Bool → Chars → Chars
pascal_loop next_upper [] = []
pascal_loop next_upper (c ∷ s) =
    let rest = pascal_loop (not (is_alphanumeric c)) s in
    if is_alphanumeric c then (if next_upper then to_upper c else c) ∷ rest else rest

-- The two guards at the end of `pascal`.
abbrev pub guard_first : Chars → Chars
guard_first [] = b'_' ∷ []
guard_first (c ∷ s) = if is_digit c then b'_' ∷ c ∷ s else c ∷ s

unfoldable pub pascal : Chars → Chars
pascal input = guard_first (pascal_loop true input)

-- `next()` of no characters is the default character.
abbrev pub lower_first : Chars → Chars
lower_first [] = 0 ∷ []
lower_first (c ∷ s) = to_lower c ∷ s

unfoldable pub camel : Chars → Chars
camel input = lower_first (pascal input)

unfoldable pub is_ts_sdk_builtin_type : Chars → Bool
is_ts_sdk_builtin_type name = is_one_of builtin_types name

unfoldable pub safe_model_name : Chars → Chars
safe_model_name name = if is_ts_sdk_builtin_type name then name ++ codes "Model" else name

-- `s.replace(c, "\\c")`, for a character `c`
abbrev pub replace_escaped : ℕ → Chars → Chars
replace_escaped c [] = []
replace_escaped c (d ∷ s) =
    let rest = replace_escaped c s in if nat_eq d c then b'\\' ∷ d ∷ rest else d ∷ rest

unfoldable pub escape_quotes : Chars → Chars
escape_quotes s = replace_escaped b'"' (replace_escaped b'\\' s)

abbrev pub is_name_char : ℕ → Bool
is_name_char c = is_alphanumeric c || nat_eq c b'_' || nat_eq c b'$'

unfoldable pub is_valid_identifier : Chars → Bool
is_valid_identifier [] = false
is_valid_identifier (first ∷ chars) =
    (is_alphabetic first || nat_eq first b'_' || nat_eq first b'$') && all is_name_char chars

unfoldable pub is_reserved : Chars → Bool
is_reserved s = is_one_of reserved s

unfoldable pub string_literal : Chars → Chars
string_literal value = b'"' ∷ (escape_quotes value ++ b'"' ∷ [])

unfoldable pub property_key : Chars → Chars
property_key name =
    if is_valid_identifier name && not (is_reserved name)
    then name
    else b'"' ∷ (escape_quotes name ++ b'"' ∷ [])

unfoldable pub member_access : Chars → Chars → Chars
member_access obj name =
    if is_valid_identifier name && not (is_reserved name)
    then obj ++ (b'.' ∷ name)
    else obj ++ (codes "[\"" ++ (escape_quotes name ++ codes "\"]"))
