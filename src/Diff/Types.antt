-- ===== src/Diff/Types.antt =====
-- `type_to_string` and `type_changed` of crates/specforge-core/src/diff.rs.
use specforge_openapi_sdk_co.Prelude.{
  ℕ, String, Bool, true, false, not, ◌&&◌, List, [], ◌∷◌, ◌==◌, nat_eq,
}
use specforge_openapi_sdk_co.Ir.{Scalar, scalar_eq, IrType}

scalar_to_string : Scalar → String
scalar_to_string Scalar.string = "string"
scalar_to_string Scalar.date_time = "date-time"
scalar_to_string Scalar.uuid = "uuid"
scalar_to_string Scalar.integer = "integer"
scalar_to_string Scalar.integer64 = "integer (int64)"
scalar_to_string Scalar.float = "number"
scalar_to_string Scalar.boolean = "boolean"
scalar_to_string _ = "other"

unfoldable pub type_to_string : IrType → String
unfolding scalar_to_string
type_to_string (IrType.scalar s) = scalar_to_string s
type_to_string (IrType.reference name _ _) = name
type_to_string (IrType.string_enum _ _) = "string (enum)"
type_to_string (IrType.array _ _) = "array"
type_to_string (IrType.map _) = "object"
type_to_string (IrType.composition _ _ _) = "composition"
type_to_string IrType.any = "any"
type_to_string IrType.unknown = "unknown"

-- `std::mem::discriminant`
abbrev pub discriminant : IrType → ℕ
discriminant (IrType.scalar _) = 0
discriminant (IrType.string_enum _ _) = 1
discriminant (IrType.array _ _) = 2
discriminant (IrType.map _) = 3
discriminant (IrType.reference _ _ _) = 4
discriminant (IrType.composition _ _ _) = 5
discriminant IrType.any = 6
discriminant IrType.unknown = 7

-- `==` of `Vec<String>`
unfoldable pub texts_eq : List String → List String → Bool
texts_eq [] [] = true
texts_eq (x ∷ xs) (y ∷ ys) = x == y && texts_eq xs ys
texts_eq _ _ = false

unfoldable pub type_changed : IrType → IrType → Bool
unfolding texts_eq
type_changed (IrType.scalar a) (IrType.scalar b) = not (scalar_eq a b)
type_changed (IrType.reference a _ _) (IrType.reference b _ _) = not (a == b)
type_changed (IrType.string_enum a _) (IrType.string_enum b _) = not (texts_eq a b)
type_changed (IrType.array a _) (IrType.array b _) = type_changed a b
type_changed old new = not (nat_eq (discriminant old) (discriminant new))
