-- ===== src/Validate/Halting/Rank.antt =====
-- Registries whose references are guarded, for `validate_inner` of
-- crates/specforge-core/src/validate.rs.
use native.Mathlib.Nat.{add_comm}
use specforge_openapi_sdk_co.Prelude.{ℕ, suc, ◌+◌, ◌<◌, String, ◌≡◌, some, arith, subst}
use specforge_openapi_sdk_co.Ir.{IrType, IrTypes, ObjectModel, Model, SchemaRegistry, get_model}

-- Each reference that a value of the type is checked against, before the check goes down into the
-- value, has a rank below `n`.
abbrev mutual
  pub Below : (rank : String → ℕ) → ℕ → IrType → Type 0
  Below rank n (IrType.reference name _ _) = rank name < n
  Below rank n (IrType.composition _ ts _) = MembersBelow rank n ts
  Below rank n _ = Unit

  pub MembersBelow : (rank : String → ℕ) → ℕ → IrTypes → Type 0
  MembersBelow rank n IrTypes.nil = Unit
  MembersBelow rank n (IrTypes.cons t ts) = Below rank n t × MembersBelow rank n ts

-- The shapes of the registry refer, without going down into the value, to lower ranks only.
abbrev pub Guarded : SchemaRegistry → (String → ℕ) → Type 0
Guarded registry rank =
    (name : String) (o : ObjectModel) (ty : IrType)
    → get_model registry name ≡ some (Model.object o)
    → o.shape_type ≡ some ty
    → Below rank (rank name) ty

module _ (rank : String → ℕ) where
  mutual
    pub Below-more : (k n : ℕ) (ty : IrType) → Below rank n ty → Below rank (k + n) ty
    Below-more k n (IrType.reference name _ _) h = omega arith
    Below-more k n (IrType.composition _ ts _) h = MembersBelow-more k n ts h
    Below-more k n _ h = tt

    MembersBelow-more :
        (k n : ℕ) (ts : IrTypes) → MembersBelow rank n ts → MembersBelow rank (k + n) ts
    MembersBelow-more k n IrTypes.nil h = tt
    MembersBelow-more k n (IrTypes.cons t ts) h =
        (Below-more k n t h.0, MembersBelow-more k n ts h.1)

  mutual
    pub Below-some : (ty : IrType) → (n : ℕ) × Below rank n ty
    Below-some (IrType.reference name _ _) = (suc (rank name), omega arith)
    Below-some (IrType.composition _ ts _) = MembersBelow-some ts
    Below-some _ = (0, tt)

    MembersBelow-some : (ts : IrTypes) → (n : ℕ) × MembersBelow rank n ts
    MembersBelow-some IrTypes.nil = (0, tt)
    MembersBelow-some (IrTypes.cons t ts) =
        let (n, h) = Below-some t in
        let (m, hs) = MembersBelow-some ts in
        (
          m + n,
          (
            Below-more m n t h,
            subst (λ k. MembersBelow rank k ts) (add_comm n m) (MembersBelow-more n m ts hs),
          ),
        )
