-- ===== src/Prelude.antt =====
-- The names that the other modules share: the libraries', passed on, and those of the children.
mod Tests
mod Lists
mod Iff
mod Dict
mod Text
pub use Tests.*
pub use Lists.*
pub use Iff.*
unfoldable pub use Text.*
unfoldable pub use Dict.{lookup, insert, keys, collect, remove}
pub use Dict.{
  lookup-insert, lookup-insert_self, lookup-remove, keys-In_iff, HasKey, Order, lookup-collect_last,
  lookup-All, All-insert, All-remove,
}
pub use Prim.Native.Nat.{ℕ, zero, suc, ◌+◌, ◌-◌, ◌*◌, ◌≤◌, ◌<◌}
pub use Prim.Native.String.{String}
pub use mathlib.Core.Path.{◌≡◌, refl, sym, ap, ◌∙◌, subst}
pub use mathlib.Core.Logic.{◌≢◌, ◌↔◌, ◌⊎◌, inl, inr}
pub use mathlib.Core.Bool.{Bool, true, false, not, ◌&&◌, ◌||◌}
pub use mathlib.Core.Option.{Option, none, some}
pub use mathlib.Core.List.{List, [], ◌∷◌, ◌++◌, append_assoc, append-nil}
pub use native.Mathlib.Omega.{arith}
pub use text.Mathlib.Text.{◌==◌}
pub use text.Mathlib.TextEquality.{eq_iff}
pub use text.Mathlib.TextPositions.{eq_refl}

infixr 65 ◌⊕◌
-- `format!` of two texts side by side.
abbrev pub ◌⊕◌ : String → String → String
s ⊕ t = Prim.Native.String.◌++◌ s t
