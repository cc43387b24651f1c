-- ===== src/Diff/Version.antt =====
-- `ir_major_version` of crates/specforge-core/src/diff.rs, with the `split` and the `parse::<u64>`
-- that it calls.
use Prim.Native.Char.{code}
use Prim.Native.String.{[], ◌∷◌}
use specforge_openapi_sdk_co.Prelude.{
  ℕ, ◌+◌, ◌-◌, ◌*◌, String, ◌&&◌, Option, none, some, leb, nat_eq, if◌then◌else◌, unwrap_or,
}

abbrev pub u64_max : ℕ
u64_max = 18446744073709551615

-- The text before the first `.`, the first item of `split('.')`.
unfoldable pub before_dot : String → String
before_dot [] = ""
before_dot (c ∷ s) = let rest = before_dot s in if nat_eq (code c) b'.' then "" else c ∷ rest

abbrev pub u16_max : ℕ
u16_max = 65535

-- The digits of `parse` of an unsigned type, with its checks for overflow of `max`.
parse_digits : ℕ → ℕ → String → Option ℕ
parse_digits max n [] = some n
parse_digits max n (c ∷ s) =
    let next = n * 10 + (code c - 48) in
    let rest = parse_digits max next s in
    if leb 48 (code c) && leb (code c) 57 && leb next max then rest else none

-- A sign `+` may lead; no digit is an error.
parse_unsigned : ℕ → String → Option ℕ
unfolding parse_digits
parse_unsigned max [] = none
parse_unsigned max (c ∷ []) = parse_digits max 0 (c ∷ [])
parse_unsigned max (c ∷ (d ∷ s)) =
    if nat_eq (code c) b'+' then parse_digits max 0 (d ∷ s) else parse_digits max 0 (c ∷ (d ∷ s))

-- `parse::<u64>` and `parse::<u16>`
parse_u64 : String → Option ℕ
unfolding parse_unsigned
parse_u64 s = parse_unsigned u64_max s

unfoldable pub parse_u16 : String → Option ℕ
unfolding parse_unsigned
parse_u16 s = parse_unsigned u16_max s

unfoldable pub ir_major_version : String → ℕ
unfolding before_dot parse_u64
ir_major_version version = unwrap_or (parse_u64 (before_dot version)) 0
