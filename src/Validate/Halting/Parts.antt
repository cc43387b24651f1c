-- ===== src/Validate/Halting/Parts.antt =====
-- Enough fuel for the parts of `validate_inner` (crates/specforge-core/src/validate.rs) that go
-- down into a value, where it is enough for what is inside.
use native.Mathlib.Nat.{add_comm}
use specforge_openapi_sdk_co.Prelude.{
  lookup-All, ℕ, ◌+◌, String, ◌≡◌, refl, Bool, true, false, some, List, [], ◌∷◌, All, Option-cases,
  if◌then◌else◌, lookup, inl, inr, All-mono, subst,
}
use specforge_openapi_sdk_co.Json
use specforge_openapi_sdk_co.Json.{Json, Elems, Fields}
use specforge_openapi_sdk_co.Ir.{IrType, Property, SchemaRegistry}
use specforge_openapi_sdk_co.Validate.{
  Host, Value, Errors, validate_object, validate_array, validate_map, validate_inner,
}
use specforge_openapi_sdk_co.Validate.Fuel.{validate_inner-Extends}
use specforge_openapi_sdk_co.Validate.Halting.Loops.{
  Ended, Answers, items-Ended, entries-Ended, properties-Ended,
}

-- Bounds that each element has, replaced by one that they all have.
pub gather :
    {A : Type 0} (P : ℕ → A → Type 0)
    → ((k n : ℕ) (a : A) → P n a → P (k + n) a)
    → (xs : List A) → All (λ a. (n : ℕ) × P n a) xs
    → (n : ℕ) × All (P n) xs
gather P lift [] h = (0, tt)
gather P lift (x ∷ xs) ((n, p), h) =
    let (m, ps) = gather P lift xs h in
    (
      m + n,
      (lift m n x p, All-mono xs (λ a q. subst (λ k. P k a) (add_comm n m) (lift n m a q)) ps),
    )

module _ (host : Host) (registry : SchemaRegistry) where
  -- Some fuel is enough to check the value against the type.
  abbrev pub Halts : Value host → IrType → Type 0
  Halts v ty = (fuel : ℕ) × Answers host (validate_inner host registry fuel) v ty

  abbrev pub Everywhere : Value host → Type 0
  Everywhere v = (ty : IrType) → Halts v ty

  abbrev pub Inside : Value host → Type 0
  Inside (Json.array xs) = All Everywhere (Json.elems xs)
  Inside (Json.object fs) = All (λ kv. Everywhere kv.1) (Json.fields fs)
  Inside _ = Unit

  Answers-more :
      (k n : ℕ) (v : Value host) (ty : IrType)
      → Answers host (validate_inner host registry n) v ty
      → Answers host (validate_inner host registry (k + n)) v ty
  Answers-more k n v ty h path =
      let (es, e) = h path in (es, validate_inner-Extends host registry n k v ty path es e)

  pub or_null-Ended : (null : Bool) (a : Errors) → Ended a → Ended (if null then some [] else a)
  or_null-Ended true a h = ([], refl)
  or_null-Ended false a h = h

  abbrev pub inner : ℕ → Value host → IrType → String → Errors
  inner = validate_inner host registry

  -- Some fuel is enough for this part of the code, whatever the path.
  abbrev pub Enough : ((Value host → IrType → String → Errors) → String → Errors) → Type 0
  Enough part = (fuel : ℕ) × ((path : String) → Ended (part (inner fuel) path))

  pub array-Enough :
      (v : Value host) → Inside v → (item : IrType) → Enough (λ f. validate_array host f v item)
  array-Enough (Json.array xs) inside item =
      let (n, h) =
        gather (λ n v. Answers host (inner n) v item) (λ k n v. Answers-more k n v item)
          (Json.elems xs) (All-mono _ (λ v h. h item) inside) in
      (n, λ path. items-Ended host (inner n) item path 0 _ h)
  array-Enough _ inside item = (0, λ path. (_, refl))

  pub map-Enough :
      (v : Value host) → Inside v → (ty : IrType) → Enough (λ f. validate_map host f v ty)
  map-Enough (Json.object fs) inside ty =
      let (n, h) =
        gather (λ n kv. Answers host (inner n) kv.1 ty) (λ k n kv. Answers-more k n kv.1 ty)
          (Json.fields fs) (All-mono _ (λ kv h. h ty) inside) in
      (n, λ path. entries-Ended host (inner n) ty path _ h)
  map-Enough _ inside ty = (0, λ path. (_, refl))

  property-Enough :
      (obj : List (String × Value host))
      → All (λ kv. Everywhere kv.1) obj
      → (p : Property)
      → (n : ℕ) × ((v : Value host) → lookup p.name obj ≡ some v → Answers host (inner n) v p.ty)
  property-Enough obj inside p = elim (Option-cases (lookup p.name obj)) [
    | inl missing ↦ (0, λ v found. absurd (cc))
    | inr (w, here) ↦
        let (n, h) = lookup-All Everywhere p.name w obj inside here p.ty in
        (n, λ v found. subst (λ u. Answers host (inner n) u p.ty) (cc) h)
  ]

  properties_have :
      (obj : List (String × Value host))
      → All (λ kv. Everywhere kv.1) obj
      → (ps : List Property)
      → All
          (λ p.
            (n : ℕ) × ((v : Value host)
              → lookup p.name obj ≡ some v
              → Answers host (inner n) v p.ty))
          ps
  properties_have obj inside [] = tt
  properties_have obj inside (p ∷ ps) =
      (property-Enough obj inside p, properties_have obj inside ps)

  pub object-Enough :
      (v : Value host) → Inside v → (ps : List Property) → Enough (λ f. validate_object host f v ps)
  unfolding validate_object
  object-Enough (Json.object fs) inside ps =
      let (n, h) =
        gather
          (λ n p.
            (v : Value host)
            → lookup p.name (Json.fields fs) ≡ some v
            → Answers host (inner n) v p.ty)
          (λ k n p h v e. Answers-more k n v p.ty (h v e)) ps
          (properties_have (Json.fields fs) inside ps) in
      (n, λ path. properties-Ended host (inner n) (Json.fields fs) path ps h)
  object-Enough _ inside ps = (0, λ path. (_, refl))

  pub members-Enough :
      (v : Value host) (ms : List IrType)
      → All (Halts v) ms
      → (n : ℕ) × All (Answers host (inner n) v) ms
  members-Enough v = gather (λ n t. Answers host (inner n) v t) (λ k n t. Answers-more k n v t)
