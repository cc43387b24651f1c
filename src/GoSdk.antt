-- ===== src/GoSdk.antt =====
-- crates/specforge-go/src/lib.rs: the names, the types and the paths of the generated Go. A text is
-- its list of characters, as code points. The loop of `pascal` and the escaping of quotes are those
-- of crates/specforge-ts/src/name.rs.
pub mod Words
pub mod Paths
mod Tests
use specforge_openapi_sdk_co.Prelude.{
  ℕ, zero, suc, Bool, true, false, ◌||◌, not, Option, none, some, List, [], ◌∷◌, ◌++◌, ◌==◌, nat_eq,
  if◌then◌else◌, find, is_empty, map_list, Chars, codes, chars_eq, is_one_of, is_digit,
  is_alphanumeric, to_lower, to_upper, String,
}
use specforge_openapi_sdk_co.Ir.{Scalar, IrType, Parameter}
use specforge_openapi_sdk_co.Names.{pascal_loop, escape_quotes}
use specforge_openapi_sdk_co.RustSdk.{Casing}
use Words.{builtin_types, reserved}

-- The two guards at the end of `pascal`.
abbrev pub guard_first : Chars → Chars
guard_first [] = b'X' ∷ []
guard_first (c ∷ s) = if is_digit c then b'X' ∷ c ∷ s else c ∷ s

unfoldable pub pascal : Chars → Chars
unfolding pascal_loop
pascal input = guard_first (pascal_loop true input)

-- The loop of `snake`; the flag is `i > 0`.
unfoldable pub snake_loop : Casing → Bool → Chars → Chars
snake_loop casing later [] = []
snake_loop casing later (c ∷ s) =
    let rest = snake_loop casing true s in
    if casing.is_uppercase c
    then (if later then codes "_" else []) ++ (casing.to_lowercase c ++ rest)
    else if is_alphanumeric c
    then c ∷ rest
    else b'_' ∷ rest

unfoldable pub snake : Casing → Chars → Chars
unfolding snake_loop
snake casing input = snake_loop casing false input

unfoldable pub is_sdk_builtin_type : Chars → Bool
unfolding builtin_types
is_sdk_builtin_type name = is_one_of builtin_types name

unfoldable pub export_ident : Chars → Chars
unfolding pascal
export_ident input =
    let name = pascal input in if is_sdk_builtin_type name then name ++ codes "Model" else name

unfoldable pub is_go_reserved : Chars → Bool
unfolding reserved
is_go_reserved s = is_one_of reserved s

-- The loop of `field_name`, for a character.
unfoldable pub spell : ℕ → Chars
spell c =
    if nat_eq c b'+'
    then codes "Plus"
    else if nat_eq c b'-' || nat_eq c 8722
    then codes "Minus"
    else if nat_eq c b'.'
    then codes "Dot"
    else if nat_eq c b'/'
    then codes "Slash"
    else if nat_eq c b'@'
    then codes "At"
    else if nat_eq c b'#'
    then codes "Hash"
    else if nat_eq c b'$'
    then codes "Dollar"
    else if nat_eq c b'%'
    then codes "Pct"
    else if nat_eq c b'&'
    then codes "And"
    else if nat_eq c b'*'
    then codes "Star"
    else if is_alphanumeric c || nat_eq c b'_'
    then c ∷ []
    else b'_' ∷ []

unfoldable pub spell_all : Chars → Chars
unfolding spell
spell_all [] = []
spell_all (c ∷ s) = spell c ++ spell_all s

unfoldable pub field_name : Chars → Chars
unfolding spell_all pascal is_go_reserved
field_name input =
    let name = pascal (spell_all input) in
    if is_go_reserved (map_list to_lower name) then name ++ codes "Field" else name

unfoldable pub render_scalar : Scalar → Chars
render_scalar Scalar.string = codes "string"
render_scalar Scalar.date_time = codes "string"
render_scalar Scalar.uuid = codes "string"
render_scalar Scalar.integer = codes "int"
render_scalar Scalar.integer64 = codes "int64"
render_scalar Scalar.float = codes "float64"
render_scalar _ = codes "bool"

unfoldable pub render_type : IrType → Chars
unfolding render_scalar export_ident
render_type (IrType.scalar s) = render_scalar s
render_type (IrType.string_enum _ _) = codes "string"
render_type (IrType.array item _) = codes "[]" ++ render_type item
render_type (IrType.map value) = codes "map[string]" ++ render_type value
render_type (IrType.reference name nullable _) =
    if nullable then b'*' ∷ export_ident (codes name) else export_ident (codes name)
render_type (IrType.composition _ _ _) = codes "map[string]any"
render_type IrType.any = codes "any"
render_type IrType.unknown = codes "any"

-- The loop of `go_param_ident`; the flags are `i == 0` and `next_upper`.
unfoldable pub param_loop : Bool → Bool → Chars → Chars
param_loop first next_upper [] = []
param_loop first next_upper (c ∷ s) =
    let as_is = param_loop false next_upper s in
    let reset = param_loop false false s in
    let raised = param_loop false true s in
    if is_alphanumeric c
    then (if first
        then to_lower c ∷ as_is
        else if next_upper
        then to_upper c ∷ reset
        else c ∷ as_is)
    else raised

abbrev pub guard_param : Chars → Chars
guard_param [] = codes "p"
guard_param (c ∷ s) = if is_one_of reserved (c ∷ s) then (c ∷ s) ++ codes "Val" else c ∷ s

unfoldable pub go_param_ident : Chars → Chars
unfolding param_loop
go_param_ident name = guard_param (param_loop true false name)

abbrev call : Chars → Chars → Chars
call f ident = f ++ (b'(' ∷ (ident ++ codes ")"))

unfoldable pub coerce_scalar : Scalar → Chars → Chars
coerce_scalar Scalar.string ident = ident
coerce_scalar Scalar.date_time ident = ident
coerce_scalar Scalar.uuid ident = ident
coerce_scalar Scalar.integer ident = call (codes "fmtInt") ident
coerce_scalar Scalar.integer64 ident = call (codes "fmtInt64") ident
coerce_scalar Scalar.float ident = call (codes "fmtFloat") ident
coerce_scalar _ ident = call (codes "fmtBool") ident

unfoldable pub coerce_to_string : IrType → Chars → Chars
unfolding coerce_scalar
coerce_to_string (IrType.scalar s) ident = coerce_scalar s ident
coerce_to_string (IrType.string_enum _ _) ident = ident
coerce_to_string _ ident = call (codes "anyString") ident

-- What `build_path_concat` pushes: a literal, or the escaped value of a parameter.
pub data Part : Type 0 where
  literal : Chars → Part
  escaped : Parameter → Part

-- `find(d)` and the split around it: what is before the first `d`, and what is after.
unfoldable pub split_on : ℕ → Chars → Option (Chars × Chars)
split_on d [] = none
split_on d (c ∷ s) =
    let later = split_on d s in
    if nat_eq c d
    then some ([], s)
    else elim later [ none ↦ none | some (before, after) ↦ some (c ∷ before, after) ]

abbrev pub push_literal : Chars → List Part → List Part
push_literal [] parts = parts
push_literal (c ∷ s) parts = Part.literal (c ∷ s) ∷ parts

abbrev pub placeholder : List Parameter → Chars → Part
placeholder path_params name = elim (find (λ p. chars_eq (codes p.name) name) path_params) [
  | none ↦ Part.literal (b'{' ∷ (name ++ codes "}"))
  | some p ↦ Part.escaped p
]

abbrev pub before_parts : Chars → Option (List Part) → Option (List Part)
before_parts lit none = none
before_parts lit (some parts) = some (push_literal lit parts)

abbrev pub then_part : Part → Option (List Part) → Option (List Part)
then_part part none = none
then_part part (some parts) = some (part ∷ parts)

-- The loop of `build_path_concat` on what is left of the path, one unit of fuel for each round.
unfoldable pub path_parts : ℕ → List Parameter → Chars → Option (List Part)
unfolding split_on
path_parts zero path_params rest = none
path_parts (suc fuel) path_params rest = elim (split_on b'{' rest) [
  | none ↦ some (push_literal rest [])
  | some (lit, after) ↦ before_parts lit (elim (split_on b'}' after) [
    | none ↦ some (Part.literal (b'{' ∷ after) ∷ [])
    | some (name, rest') ↦
        then_part (placeholder path_params name) (path_parts fuel path_params rest')
  ])
]

abbrev pub quoted : Chars → Chars
quoted s = b'"' ∷ (escape_quotes s ++ codes "\"")

abbrev pub render_part : Part → Chars
render_part (Part.literal s) = quoted s
render_part (Part.escaped p) =
    codes "pathEscape(" ++ (coerce_to_string p.ty (go_param_ident (codes p.name)) ++ codes ")")

-- `parts.join(" + ")`
abbrev pub join_plus : List Part → Chars
join_plus [] = []
join_plus (p ∷ []) = render_part p
join_plus (p ∷ (q ∷ ps)) = render_part p ++ (codes " + " ++ join_plus (q ∷ ps))

abbrev pub or_root : Option (List Part) → Option Chars
or_root none = none
or_root (some []) = some (codes "\"/\"")
or_root (some (p ∷ ps)) = some (join_plus (p ∷ ps))

unfoldable pub build_path_concat : ℕ → Chars → List Parameter → Option Chars
unfolding path_parts
build_path_concat fuel path path_params = or_root (path_parts fuel path_params path)
