-- ===== src/Prelude/Iff.antt =====
-- Equivalences, composed.
use mathlib.Core.Logic.{◌↔◌}

module _ {ℓ κ μ} {A : Type ℓ} {B : Type κ} {C : Type μ} where
  pub iff_trans : A ↔ B → B ↔ C → A ↔ C
  iff_trans f g = (λ a. g.0 (f.0 a), λ c. f.1 (g.1 c))

module _ {ℓ κ μ ν} {A : Type ℓ} {B : Type κ} {C : Type μ} {D : Type ν} where
  pub iff_and : A ↔ B → C ↔ D → (A × C) ↔ (B × D)
  iff_and f g = (λ h. (f.0 h.0, g.0 h.1), λ h. (f.1 h.0, g.1 h.1))
