-- ===== src/Validate/Decides.antt =====
-- `validate` of crates/specforge-core/src/validate.rs finds no error exactly in conforming values.
mod Sound
mod Complete
use specforge_openapi_sdk_co.Prelude.{ℕ, zero, suc, String, ◌≡◌, ◌↔◌, some, List, []}
use specforge_openapi_sdk_co.Ir.{IrType, SchemaRegistry}
use specforge_openapi_sdk_co.Validate.{Host, Value, ValidationError, validate_inner, validate}
use specforge_openapi_sdk_co.Validate.Conforms.{Conforms}
use Sound.{validate_step-sound}
use Complete.{validate_step_complete}

module _ (host : Host) (registry : SchemaRegistry) where
  validate_inner-sound :
      (fuel : ℕ) (v : Value host) (ty : IrType) (path : String)
      → validate_inner host registry fuel v ty path ≡ some []
      → Conforms host registry v ty
  unfolding validate_inner
  validate_inner-sound zero v ty path h = absurd (cc)
  validate_inner-sound (suc fuel) v ty path h =
      validate_step-sound host registry (validate_inner host registry fuel)
        (validate_inner-sound fuel) v ty path h

  validate_inner_complete :
      (fuel : ℕ) (v : Value host) (ty : IrType) (path : String) (es : List ValidationError)
      → Conforms host registry v ty
      → validate_inner host registry fuel v ty path ≡ some es
      → es ≡ []
  unfolding validate_inner
  validate_inner_complete zero v ty path es c h = absurd (cc)
  validate_inner_complete (suc fuel) v ty path es c h =
      validate_step_complete host registry (validate_inner host registry fuel)
        (validate_inner_complete fuel) v ty path es c h

  -- Where `validate` ends within its fuel, it has reported no error exactly if the value conforms
  -- to the type.
  pub validate-Conforms_iff :
      (fuel : ℕ) (v : Value host) (ty : IrType) (es : List ValidationError)
      → validate host fuel v ty registry ≡ some es
      → (es ≡ []) ↔ Conforms host registry v ty
  unfolding validate
  validate-Conforms_iff fuel v ty es h = (
    λ e. validate_inner-sound fuel v ty "" (rw e at h),
    λ c. validate_inner_complete fuel v ty "" es c h,
  )
