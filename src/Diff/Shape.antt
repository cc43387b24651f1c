-- ===== src/Diff/Shape.antt =====
-- When `type_changed` of crates/specforge-core/src/diff.rs reports a change, as a relation.
use specforge_openapi_sdk_co.Prelude.{
  test_laws, String, ◌≡◌, refl, ◌↔◌, Bool, true, false, Option, List, [], ◌∷◌, eq_iff, arith,
}
use specforge_openapi_sdk_co.Ir.{Scalar, scalar_eq, CompositionKind, Discriminator, IrType, IrTypes}
use specforge_openapi_sdk_co.Diff.Types.{texts_eq, type_changed}

-- Two types that `diff` takes for the same: nullability, descriptions, the values of a map and
-- the parts of a composition do not count.
pub data SameShape : IrType → IrType → Type 0 where
  scalar : {a b : Scalar} → a ≡ b → SameShape (IrType.scalar a) (IrType.scalar b)
  string_enum :
      {a b : List String} {m n : Bool}
      → a ≡ b
      → SameShape (IrType.string_enum a m) (IrType.string_enum b n)
  array :
      {a b : IrType} {m n : Bool} → SameShape a b → SameShape (IrType.array a m) (IrType.array b n)
  map : {a b : IrType} → SameShape (IrType.map a) (IrType.map b)
  reference :
      {a b : String} {m n : Bool} {d e : Option String}
      → a ≡ b
      → SameShape (IrType.reference a m d) (IrType.reference b n e)
  composition :
      {k l : CompositionKind} {ts us : IrTypes} {d e : Option Discriminator}
      → SameShape (IrType.composition k ts d) (IrType.composition l us e)
  any : SameShape IrType.any IrType.any
  unknown : SameShape IrType.unknown IrType.unknown

scalar_eq_iff : (a b : Scalar) → (scalar_eq a b ≡ true) ↔ (a ≡ b)
scalar_eq_iff a b = ground arith

pub texts_eq_iff : (xs ys : List String) → (texts_eq xs ys ≡ true) ↔ (xs ≡ ys)
unfolding texts_eq
texts_eq_iff [] [] = (λ h. refl, λ h. refl)
texts_eq_iff [] (y ∷ ys) = (λ h. cc, λ h. cc)
texts_eq_iff (x ∷ xs) [] = (λ h. cc, λ h. cc)
texts_eq_iff (x ∷ xs) (y ∷ ys) = grind (test_laws, texts_eq_iff xs ys)

type_changed_sound : (a b : IrType) → type_changed a b ≡ false → SameShape a b
unfolding type_changed
type_changed_sound (IrType.scalar a) (IrType.scalar b) h =
    SameShape.scalar ((scalar_eq_iff a b).0 (ground arith))
type_changed_sound (IrType.string_enum a _) (IrType.string_enum b _) h =
    SameShape.string_enum ((texts_eq_iff a b).0 (ground arith))
type_changed_sound (IrType.array a _) (IrType.array b _) h =
    SameShape.array (type_changed_sound a b h)
type_changed_sound (IrType.map a) (IrType.map b) h = SameShape.map
type_changed_sound (IrType.reference a _ _) (IrType.reference b _ _) h =
    SameShape.reference ((eq_iff a b).0 (ground arith))
type_changed_sound (IrType.composition _ _ _) (IrType.composition _ _ _) h = SameShape.composition
type_changed_sound IrType.any IrType.any h = SameShape.any
type_changed_sound IrType.unknown IrType.unknown h = SameShape.unknown
type_changed_sound _ _ h = cc

type_changed_complete : {a b : IrType} → SameShape a b → type_changed a b ≡ false
unfolding type_changed
type_changed_complete (SameShape.scalar {a} {b} e) = ground (arith, scalar_eq_iff a b)
type_changed_complete (SameShape.string_enum {a} {b} e) = ground (arith, texts_eq_iff a b)
type_changed_complete (SameShape.array s) = type_changed_complete s
type_changed_complete SameShape.map = refl
type_changed_complete (SameShape.reference {a} {b} e) = ground (arith, eq_iff a b)
type_changed_complete SameShape.composition = refl
type_changed_complete SameShape.any = refl
type_changed_complete SameShape.unknown = refl

-- `type_changed` reports no change exactly when the two types have the same shape.
pub type_changed_iff : (a b : IrType) → (type_changed a b ≡ false) ↔ SameShape a b
type_changed_iff a b = (type_changed_sound a b, type_changed_complete)

pub SameShape-refl : (a : IrType) → SameShape a a
SameShape-refl (IrType.scalar a) = SameShape.scalar refl
SameShape-refl (IrType.string_enum a _) = SameShape.string_enum refl
SameShape-refl (IrType.array a _) = SameShape.array (SameShape-refl a)
SameShape-refl (IrType.map a) = SameShape.map
SameShape-refl (IrType.reference a _ _) = SameShape.reference refl
SameShape-refl (IrType.composition _ _ _) = SameShape.composition
SameShape-refl IrType.any = SameShape.any
SameShape-refl IrType.unknown = SameShape.unknown
