-- ===== src/Diff/Compatible/Decides.antt =====
-- `diff` (crates/specforge-core/src/diff.rs) decides compatibility.
use specforge_openapi_sdk_co.Prelude.{
  ◌≡◌, refl, ◌↔◌, All, All-append, Order, Bool-cases, inl, inr, iff_trans, iff_and, eq_iff, nat_eq,
  nat_eq_iff, ◌==◌, ap,
}
use specforge_openapi_sdk_co.Ir.{Document}
use specforge_openapi_sdk_co.Diff.{diff_ir_version, diff_detailed, diff}
use specforge_openapi_sdk_co.Diff.Version.{ir_major_version}
use specforge_openapi_sdk_co.Diff.Compatible.{Compatible}
use specforge_openapi_sdk_co.Diff.Compatible.Loops.{IsInfo}
use specforge_openapi_sdk_co.Diff.Compatible.Operations.{diff_operations_iff}
use specforge_openapi_sdk_co.Diff.Compatible.Schemas.{diff_schemas_iff}

diff_ir_version_iff :
    (old new : Document)
    → All IsInfo (diff_ir_version old new)
      ↔ (ir_major_version old.ir_version ≡ ir_major_version new.ir_version)
unfolding diff_ir_version
diff_ir_version_iff old new = elim (Bool-cases (old.ir_version == new.ir_version)) [
  | inl e ↦ rw e (λ h. ap ir_major_version ((eq_iff _ _).0 e), λ h. tt)
  | inr e ↦
      rw e
        (elim (Bool-cases
          (nat_eq (ir_major_version old.ir_version) (ir_major_version new.ir_version))) [
            | inl f ↦ rw f (λ h. (nat_eq_iff _ _).0 f, λ h. (refl, tt))
            | inr f ↦ rw f (λ h. absurd (cc (h.0)), λ h. absurd (cc (f, (nat_eq_iff _ _).1 h)))
          ])
]

-- For any two documents, and in whatever order hash tables are read, every finding of `diff` is
-- informational exactly when the new document is compatible with the old: the IR's major version
-- is the same; each old operation is there with its parameters, by their names, and its response
-- codes, with no required parameter of a new name, and with no required body where there was none
-- (an optional parameter or body that becomes required counts as compatible); and each old schema
-- is there and, if both are objects, has each old property with the constructor of its type and,
-- inside arrays, that of the items unchanged (see `SameShape`), none of them newly required and
-- no required property of a new name.
pub diff-Compatible_iff :
    (order : Order) (old new : Document) → All IsInfo (diff order old new) ↔ Compatible old new
unfolding diff diff_detailed
diff-Compatible_iff order old new = iff_trans (All-append IsInfo _ _) (
    iff_trans
      (iff_and (diff_ir_version_iff old new) (
        iff_trans (All-append IsInfo _ _)
          (iff_and (diff_operations_iff order old new) (diff_schemas_iff order old new))))
      (
        λ h. record { version = h.0; operations = h.1.0; schemas = h.1.1 },
        λ c. (c.version, (c.operations, c.schemas)),
      ))
