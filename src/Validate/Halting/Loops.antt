-- ===== src/Validate/Halting/Loops.antt =====
-- The loops of `validate_inner` (crates/specforge-core/src/validate.rs) end where the calls in them do.
use specforge_openapi_sdk_co.Prelude.{
  ℕ, suc, String, ◌≡◌, refl, Bool, ◌||◌, Option, none, some, List, [], ◌∷◌, ◌++◌, All, is_empty,
  lookup,
}
use specforge_openapi_sdk_co.Ir.{IrType, Property}
use specforge_openapi_sdk_co.Validate.{
  Host, Value, Errors, and_then, validate_items, validate_entries, validate_all, some_valid,
  validate_property, validate_properties, one_or_more,
}

-- The code returned: the fuel did not run out.
abbrev pub Ended : {A : Type 0} → Option A → Type 0
Ended {A} a = (x : A) × (a ≡ some x)

pub and_then-Ended : (a b : Errors) → Ended a → Ended b → Ended (and_then a b)
and_then-Ended a b (x, h) (y, k) = (x ++ y, rw (h, k) refl)

module _ (host : Host) (inner : Value host → IrType → String → Errors) where
  abbrev pub Answers : Value host → IrType → Type 0
  Answers v ty = (path : String) → Ended (inner v ty path)

  pub items-Ended :
      (item : IrType) (path : String) (i : ℕ) (vs : List (Value host))
      → All (λ v. Answers v item) vs
      → Ended (validate_items host inner item path i vs)
  unfolding validate_items
  items-Ended item path i [] h = ([], refl)
  items-Ended item path i (v ∷ vs) h =
      and_then-Ended _ _ (h.0 _) (items-Ended item path (suc i) vs h.1)

  pub entries-Ended :
      (ty : IrType) (path : String) (fs : List (String × Value host))
      → All (λ kv. Answers kv.1 ty) fs
      → Ended (validate_entries host inner ty path fs)
  unfolding validate_entries
  entries-Ended ty path [] h = ([], refl)
  entries-Ended ty path ((k, v) ∷ fs) h = and_then-Ended _ _ (h.0 _) (entries-Ended ty path fs h.1)

  pub all-Ended :
      (v : Value host) (path : String) (ms : List IrType)
      → All (Answers v) ms
      → Ended (validate_all host inner v path ms)
  unfolding validate_all
  all-Ended v path [] h = ([], refl)
  all-Ended v path (m ∷ ms) h = and_then-Ended _ _ (h.0 path) (all-Ended v path ms h.1)

  pub some-Ended :
      (v : Value host) (path : String) (ms : List IrType) (b : Bool)
      → All (Answers v) ms
      → Ended (some_valid host inner v path ms b)
  unfolding some_valid
  some-Ended v path [] b h = (b, refl)
  some-Ended v path (m ∷ ms) b h =
      let (es, found) = h.0 path in
      let (r, rest) = some-Ended v path ms (is_empty es || b) h.1 in
      (r, rw (found, some_valid) rest)

  pub one_or_more-Ended :
      (ms : List IrType) (path : String) (a : Option Bool)
      → Ended a
      → Ended (one_or_more host inner ms path a)
  one_or_more-Ended ms path none (b, h) = absurd (cc)
  one_or_more-Ended ms path (some b) h = (_, refl)

  property-Ended :
      (p : Property) (path : String) (found : Option (Value host))
      → ((v : Value host) → found ≡ some v → Answers v p.ty)
      → Ended (validate_property host inner p path found)
  property-Ended p path none h = (_, refl)
  property-Ended p path (some v) h = h v refl path

  pub properties-Ended :
      (obj : List (String × Value host)) (path : String) (ps : List Property)
      → All (λ p. (v : Value host) → lookup p.name obj ≡ some v → Answers v p.ty) ps
      → Ended (validate_properties host inner obj path ps)
  unfolding validate_properties
  properties-Ended obj path [] h = ([], refl)
  properties-Ended obj path (p ∷ ps) h =
      and_then-Ended _ _ (property-Ended p _ (lookup p.name obj) h.0)
        (properties-Ended obj path ps h.1)
