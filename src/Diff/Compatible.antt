-- ===== src/Diff/Compatible.antt =====
-- What a client of the old document may rely on in the new one, stated without `diff`
-- (crates/specforge-core/src/diff.rs), and the proofs that `diff` decides it.
pub mod Kept
pub mod Loops
pub mod Operations
pub mod Schemas
pub mod Properties
pub mod Decides
use Kept.{KeptWith}
use specforge_openapi_sdk_co.Prelude.{String, ◌≡◌, true, false, Option, none, some, List, All, Any}
use specforge_openapi_sdk_co.Ir.{
  Property, Model, Parameter, RequestBody, Response, Operation, Document,
}
use specforge_openapi_sdk_co.Diff.{by_id, find_property}
use specforge_openapi_sdk_co.Diff.Version.{ir_major_version}
use specforge_openapi_sdk_co.Diff.Shape.{SameShape}

abbrev pub HasParam : String → List Parameter → Type 0
HasParam n ps = Any (λ x. x.name ≡ n) ps

abbrev pub HasProperty : String → List Property → Type 0
HasProperty n ps = Any (λ x. x.name ≡ n) ps

abbrev pub HasStatus : String → List Response → Type 0
HasStatus s rs = Any (λ x. x.status ≡ s) rs

-- A body that is new is not required.
abbrev pub BodyCompatible : Option RequestBody → Option RequestBody → Type 0
BodyCompatible none (some rb) = rb.required ≡ false
BodyCompatible _ _ = Unit

pub record OperationCompatible (old new : Operation) : Type 0 where
  pub no_new_required : All (λ p. p.required ≡ true → HasParam p.name old.parameters) new.parameters
  pub params_kept : All (λ p. HasParam p.name new.parameters) old.parameters
  pub body : BodyCompatible old.request_body new.request_body
  pub responses_kept : All (λ r. HasStatus r.status new.responses) old.responses

-- A property is kept with its shape, and is not newly required.
pub record PropertyKept (p n : Property) : Type 0 where
  pub shape : SameShape p.ty n.ty
  pub optional : n.required ≡ true → p.required ≡ true

pub record PropertiesCompatible (old new : List Property) : Type 0 where
  pub no_new_required : All (λ p. p.required ≡ true → HasProperty p.name old) new
  pub kept : All (λ p. (n : Property) × (find_property p.name new ≡ some n) × PropertyKept p n) old

-- Only two objects are compared.
abbrev pub ModelCompatible : Model → Model → Type 0
ModelCompatible (Model.object o) (Model.object n) = PropertiesCompatible o.properties n.properties
ModelCompatible _ _ = Unit

-- Each old operation is in the new document, and is compatible there.
abbrev pub OperationsCompatible : Document → Document → Type 0
OperationsCompatible old new =
    KeptWith OperationCompatible (by_id old.operations) (by_id new.operations)

abbrev pub SchemasCompatible : Document → Document → Type 0
SchemasCompatible old new = KeptWith ModelCompatible old.schemas.models new.schemas.models

pub record Compatible (old new : Document) : Type 0 where
  pub version : ir_major_version old.ir_version ≡ ir_major_version new.ir_version
  pub operations : OperationsCompatible old new
  pub schemas : SchemasCompatible old new
