-- ===== src/Spec/Everywhere.antt =====
-- What the rewriting of crates/specforge-core/src/spec.rs makes sure of at an object holds at every
-- object of the result of the pass.
use specforge_openapi_sdk_co.Prelude.{
  ℕ, zero, suc, ◌≡◌, Option, some, List, [], ◌∷◌, sym, subst, Option-cases, inl, inr,
}
use specforge_openapi_sdk_co.Json.{Json, Elems, Fields, elems, fields, of_elems, of_fields}
use specforge_openapi_sdk_co.Merge.Laws.{fields-of_fields}
use specforge_openapi_sdk_co.Spec.{Entries, each_value, each_element, pass_step, pass}
use specforge_openapi_sdk_co.Spec.Passes.{each_value-cons, each_element-cons, transfer}

module _ {N : Type 0} where
  -- Every object in the value has `K`.
  module _ (K : Entries N → Type 0) where
    abbrev mutual
      pub Everywhere : Json N → Type 0
      Everywhere (Json.object fs) = K (fields fs) × InValues fs
      Everywhere (Json.array vs) = InElements vs
      Everywhere _ = Unit

      pub InElements : Elems N → Type 0
      InElements Elems.nil = Unit
      InElements (Elems.cons v vs) = Everywhere v × InElements vs

      pub InValues : Fields N → Type 0
      InValues Fields.end = Unit
      InValues (Fields.field k v fs) = Everywhere v × InValues fs

    module _ (inner : Json N → Option (Json N)) where
      abbrev Makes : Type 0
      Makes = (v out : Json N) → inner v ≡ some out → Everywhere out

      each_value-InValues :
          Makes → (es out : Entries N) → each_value inner es ≡ some out → InValues (of_fields out)
      unfolding each_value
      each_value-InValues makes [] out e = transfer (λ es. InValues (of_fields es)) [] out e tt
      each_value-InValues makes ((k, v) ∷ es) out e =
          let (o, rest, here, there, split) = each_value-cons inner k v es out e in
          subst (λ es. InValues (of_fields es)) (sym split)
            (makes v o here, each_value-InValues makes es rest there)

      each_element-InElements :
          Makes
          → (vs out : List (Json N)) → each_element inner vs ≡ some out
          → InElements (of_elems out)
      unfolding each_element
      each_element-InElements makes [] out e = transfer (λ es. InElements (of_elems es)) [] out e tt
      each_element-InElements makes (v ∷ vs) out e =
          let (o, rest, here, there, split) = each_element-cons inner v vs out e in
          subst (λ es. InElements (of_elems es)) (sym split)
            (makes v o here, each_element-InElements makes vs rest there)

      pass_step-Everywhere :
          (rewrite : Entries N → Entries N)
          → ((es out : Entries N) → each_value inner (rewrite es) ≡ some out → K out)
          → Makes
          → (v out : Json N) → pass_step inner rewrite v ≡ some out
          → Everywhere out
      unfolding pass_step
      pass_step-Everywhere rewrite kept makes (Json.object fs) out e =
          elim (Option-cases (each_value inner (rewrite (fields fs)))) [
            | inl stuck ↦ absurd (let f = rw stuck at e in cc)
            | inr (os, done) ↦ transfer Everywhere (Json.object (of_fields os)) out (rw done at e) (
              subst K (sym (fields-of_fields os)) (kept (fields fs) os done),
              each_value-InValues makes (rewrite (fields fs)) os done,
            )
          ]
      pass_step-Everywhere rewrite kept makes (Json.array vs) out e =
          elim (Option-cases (each_element inner (elems vs))) [
            | inl stuck ↦ absurd (let f = rw stuck at e in cc)
            | inr (os, done) ↦
                transfer Everywhere (Json.array (of_elems os)) out (rw done at e)
                  (each_element-InElements makes (elems vs) os done)
          ]
      pass_step-Everywhere rewrite kept makes Json.null out e =
          transfer Everywhere (Json.null) out e tt
      pass_step-Everywhere rewrite kept makes (Json.bool b) out e =
          transfer Everywhere (Json.bool b) out e tt
      pass_step-Everywhere rewrite kept makes (Json.number n) out e =
          transfer Everywhere (Json.number n) out e tt
      pass_step-Everywhere rewrite kept makes (Json.string s) out e =
          transfer Everywhere (Json.string s) out e tt

    -- What holds of an object as soon as the pass is through with it, holds of every object.
    pub pass-Everywhere :
        (rewrite : Entries N → Entries N)
        → ((fuel : ℕ) (es out : Entries N)
            → each_value (pass rewrite fuel) (rewrite es) ≡ some out
            → K out)
        → (fuel : ℕ) (v out : Json N) → pass rewrite fuel v ≡ some out
        → Everywhere out
    unfolding pass
    pass-Everywhere rewrite kept zero v out e = absurd (cc)
    pass-Everywhere rewrite kept (suc fuel) v out e =
        pass_step-Everywhere (pass rewrite fuel) rewrite (kept fuel)
          (pass-Everywhere rewrite kept fuel) v out e
