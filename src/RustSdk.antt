-- ===== src/RustSdk.antt =====
-- crates/specforge-rust/src/lib.rs: the names and the types of the generated Rust. A text is its list
-- of characters, as code points. The case of characters outside ASCII is a parameter. The loop of
-- `pascal` is that of crates/specforge-ts/src/name.rs.
pub mod Words
pub mod Identifiers
pub mod Fields
mod Tests
use specforge_openapi_sdk_co.Prelude.{
  ℕ, ◌≡◌, ◌<◌, Bool, true, false, not, ◌&&◌, ◌||◌, Option, none, some, List, [], ◌∷◌, ◌++◌, nat_eq,
  if◌then◌else◌, any, is_empty, select, map_list, Chars, codes, is_one_of, is_digit, is_upper,
  is_alphanumeric, to_lower, ◌==◌, String,
}
use specforge_openapi_sdk_co.Ir.{
  Scalar, CompositionKind, IrType, IrTypes, members, Property, ObjectModel, Model, SchemaRegistry,
  get_model,
}
use specforge_openapi_sdk_co.Names.{pascal_loop}
use specforge_openapi_sdk_co.FieldNames.{Decimal, field_names}
use Words.{builtin_types, reserved}

-- `char::is_uppercase` and `char::to_lowercase`, which agree on ASCII with what ASCII says.
pub record Casing : Type 0 where
  pub is_uppercase : ℕ → Bool
  pub to_lowercase : ℕ → Chars
  pub is_uppercase_ascii : (c : ℕ) → c < 128 → is_uppercase c ≡ is_upper c
  pub to_lowercase_ascii : (c : ℕ) → c < 128 → to_lowercase c ≡ to_lower c ∷ []

-- The two guards at the end of `pascal`.
abbrev pub guard_first : Chars → Chars
guard_first [] = b'X' ∷ []
guard_first (c ∷ s) = if is_digit c then b'X' ∷ c ∷ s else c ∷ s

unfoldable pub pascal : Chars → Chars
unfolding pascal_loop
pascal input = guard_first (pascal_loop true input)

unfoldable pub is_rust_sdk_builtin_type : Chars → Bool
unfolding builtin_types
is_rust_sdk_builtin_type name = is_one_of builtin_types name

unfoldable pub safe_model_name : Chars → Chars
safe_model_name name = if is_rust_sdk_builtin_type name then name ++ codes "Model" else name

unfoldable pub is_rust_reserved : Chars → Bool
unfolding reserved
is_rust_reserved s = is_one_of reserved s

abbrev pub minus_sign : ℕ
minus_sign = 8722

-- The first loop of `snake`, for a character.
unfoldable pub expand : ℕ → Chars
expand c =
    if nat_eq c b'+'
    then codes "plus_"
    else if nat_eq c b'-' || nat_eq c minus_sign
    then codes "minus_"
    else if nat_eq c b'.'
    then codes "_dot_"
    else if nat_eq c b'/'
    then codes "_slash_"
    else if nat_eq c b'@'
    then codes "_at_"
    else if nat_eq c b'#'
    then codes "_hash_"
    else if nat_eq c b'$'
    then codes "_dollar_"
    else if nat_eq c b'%'
    then codes "_pct_"
    else if nat_eq c b'&'
    then codes "_and_"
    else if nat_eq c b'*'
    then codes "_star_"
    else c ∷ []

unfoldable pub expand_all : Chars → Chars
expand_all [] = []
expand_all (c ∷ s) = expand c ++ expand_all s

abbrev pub is_underscore : ℕ → Bool
is_underscore c = nat_eq c b'_'

-- `out.ends_with('_')`
abbrev pub ends_underscore : Chars → Bool
ends_underscore [] = false
ends_underscore (c ∷ []) = is_underscore c
ends_underscore (c ∷ (d ∷ s)) = ends_underscore (d ∷ s)

abbrev pub trim_start : Chars → Chars
trim_start [] = []
trim_start (c ∷ s) = let rest = trim_start s in if is_underscore c then rest else c ∷ s

abbrev pub trim_end : Chars → Chars
trim_end [] = []
trim_end (c ∷ s) =
    let rest = trim_end s in if is_underscore c && is_empty rest then [] else c ∷ rest

-- The guards of `snake` against nothing and against a digit.
abbrev pub guard_snake : Chars → Chars
guard_snake [] = codes "x"
guard_snake (c ∷ s) = if is_digit c then codes "n_" ++ (c ∷ s) else c ∷ s

unfoldable pub guard_reserved : Chars → Chars
guard_reserved s = if is_rust_reserved s then s ++ codes "_" else s

module _ (casing : Casing) where
  -- What the second loop of `snake` pushes for a character, after `out`; the flag is `i > 0`.
  unfoldable pub snake_push : Bool → Chars → ℕ → Chars
  snake_push later out c =
      if casing.is_uppercase c
      then (if later then codes "_" else []) ++ casing.to_lowercase c
      else if is_alphanumeric c
      then to_lower c ∷ []
      else if is_underscore c && not (ends_underscore out)
      then codes "_"
      else []

  unfoldable pub snake_loop : Bool → Chars → Chars → Chars
  unfolding snake_push
  snake_loop later out [] = out
  snake_loop later out (c ∷ s) = snake_loop true (out ++ snake_push later out c) s

  unfoldable pub snake : Chars → Chars
  unfolding snake_loop expand_all
  snake input =
      guard_reserved (guard_snake (trim_end (trim_start (snake_loop false [] (expand_all input)))))

  -- The properties that are not skipped for being the flattened base type's.
  abbrev pub skips : Option Model → Property → Bool
  skips (some (Model.object base)) p = any (λ bp. bp.name == p.name) base.properties
  skips _ p = false

  abbrev pub own_properties : SchemaRegistry → Option IrType → List Property → List Property
  own_properties registry (some (IrType.reference base _ _)) ps =
      select (λ p. not (skips (get_model registry base) p)) ps
  own_properties registry _ ps = ps

  abbrev pub base_field : Option IrType → List Chars
  base_field (some (IrType.reference base _ _)) = snake (codes base) ∷ []
  base_field _ = []

  abbrev after : List Chars → Option (List Chars) → Option (List Chars)
  after names none = none
  after names (some more) = some (names ++ more)

  -- The names of the fields of the struct that `emit_object` writes.
  unfoldable pub struct_fields :
      Decimal → ℕ → SchemaRegistry → Option IrType → List Property → Option (List Chars)
  unfolding field_names
  struct_fields decimal fuel registry base_type properties = after (base_field base_type) (
      field_names (λ n. b'_' ∷ decimal.display n) fuel
        (map_list (λ p. snake (codes p.name)) (own_properties registry base_type properties)) [])

unfoldable pub render_scalar : Scalar → Chars
render_scalar Scalar.string = codes "String"
render_scalar Scalar.date_time = codes "String"
render_scalar Scalar.uuid = codes "String"
render_scalar Scalar.integer = codes "i32"
render_scalar Scalar.integer64 = codes "i64"
render_scalar Scalar.float = codes "f64"
render_scalar _ = codes "bool"

unfoldable pub render_type : IrType → Chars
unfolding render_scalar
render_type (IrType.scalar s) = render_scalar s
render_type (IrType.string_enum _ _) = codes "String"
render_type (IrType.array item _) = codes "Vec<" ++ (render_type item ++ codes ">")
render_type (IrType.map value) =
    codes "::std::collections::HashMap<String, " ++ (render_type value ++ codes ">")
render_type (IrType.reference name nullable _) =
    if nullable then codes "Option<" ++ (pascal (codes name) ++ codes ">") else pascal (codes name)
render_type (IrType.composition CompositionKind.all_of (IrTypes.cons m _) _) = render_type m
render_type (IrType.composition _ _ _) = codes "serde_json::Value"
render_type IrType.any = codes "serde_json::Value"
render_type IrType.unknown = codes "serde_json::Value"
