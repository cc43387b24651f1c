-- ===== src/Spec/Passes.antt =====
-- What holds of every pass over a JSON value in crates/specforge-core/src/spec.rs, whatever it does
-- to an object: on what it ends, and that more fuel changes no result.
use specforge_openapi_sdk_co.Prelude.{
  ℕ, zero, suc, ◌+◌, ◌≤◌, arith, ◌≡◌, refl, String, Bool, true, false, Option, none, some, List, [],
  ◌∷◌, All, Bool-cases, ◌==◌, sym, subst, ◌-◌, lookup, Option-cases, inl, inr,
}
use specforge_openapi_sdk_co.Json.{Json, Elems, Fields, elems, fields, of_elems, of_fields}
use specforge_openapi_sdk_co.Spec.{Entries, each_value, each_element, pass_step, pass}

pub transfer : {A : Type 0} (P : A → Type 0) (a b : A) → some a ≡ some b → P a → P b
transfer P a b e = subst P (cc)

abbrev pub scalar : {N : Type 0} → Json N → Bool
scalar (Json.array vs) = false
scalar (Json.object fs) = false
scalar _ = true

-- The pass `inner` gives a result.
abbrev pub Ends : {N : Type 0} → (Json N → Option (Json N)) → Json N → Type 0
Ends {N} inner v = (out : Json N) × (inner v ≡ some out)

module _ {N : Type 0} where
  module _ (inner : Json N → Option (Json N)) where
    pub each_value-Ends :
        (es : Entries N)
        → All (λ kv. Ends inner kv.1) es
        → (out : Entries N) × (each_value inner es ≡ some out)
    unfolding each_value
    each_value-Ends [] h = ([], refl)
    each_value-Ends ((k, v) ∷ es) ((o, e), h) =
        let (out, f) = each_value-Ends es h in ((k, o) ∷ out, rw (e, f) refl)

    pub each_element-Ends :
        (vs : List (Json N))
        → All (Ends inner) vs
        → (out : List (Json N)) × (each_element inner vs ≡ some out)
    unfolding each_element
    each_element-Ends [] h = ([], refl)
    each_element-Ends (v ∷ vs) ((o, e), h) =
        let (out, f) = each_element-Ends vs h in (o ∷ out, rw (e, f) refl)

    pub Ends-each_element :
        (vs out : List (Json N)) → each_element inner vs ≡ some out → All (Ends inner) vs
    unfolding each_element
    Ends-each_element [] out e = tt
    Ends-each_element (v ∷ vs) out e = elim (Option-cases (inner v)) [
      | inl stuck ↦ absurd (let f = rw stuck at e in cc)
      | inr (o, here) ↦ elim (Option-cases (each_element inner vs)) [
        | inl stuck ↦ absurd (let f = rw (here, stuck) at e in cc)
        | inr (rest, there) ↦ ((o, here), Ends-each_element vs rest there)
      ]
    ]

    -- Where a pass over the values gives a result, so does it at each of them.
    pub each_value-cons :
        (k : String) (v : Json N) (es out : Entries N)
        → each_value inner ((k, v) ∷ es) ≡ some out
        → (o : Json N) × (rest : Entries N) × (inner v ≡ some o)
          × (each_value inner es ≡ some rest)
          × (out ≡ (k, o) ∷ rest)
    unfolding each_value
    each_value-cons k v es out e = elim (Option-cases (inner v)) [
      | inl stuck ↦ absurd (let f = rw stuck at e in cc)
      | inr (o, here) ↦ elim (Option-cases (each_value inner es)) [
        | inl stuck ↦ absurd (let f = rw (here, stuck) at e in cc)
        | inr (rest, there) ↦ let f = rw (here, there) at e in (o, rest, here, there, cc)
      ]
    ]

    pub each_element-cons :
        (v : Json N) (vs out : List (Json N))
        → each_element inner (v ∷ vs) ≡ some out
        → (o : Json N) × (rest : List (Json N)) × (inner v ≡ some o)
          × (each_element inner vs ≡ some rest)
          × (out ≡ o ∷ rest)
    unfolding each_element
    each_element-cons v vs out e = elim (Option-cases (inner v)) [
      | inl stuck ↦ absurd (let f = rw stuck at e in cc)
      | inr (o, here) ↦ elim (Option-cases (each_element inner vs)) [
        | inl stuck ↦ absurd (let f = rw (here, stuck) at e in cc)
        | inr (rest, there) ↦ let f = rw (here, there) at e in (o, rest, here, there, cc)
      ]
    ]

    -- What the value at a key becomes.
    abbrev pub becomes : Option (Json N) → Option (Json N)
    becomes none = none
    becomes (some v) = inner v

    pub lookup-each_value :
        (key : String) (es out : Entries N)
        → each_value inner es ≡ some out
        → lookup key out ≡ becomes (lookup key es)
    unfolding each_value lookup
    lookup-each_value key [] out e = cc
    lookup-each_value key ((k, v) ∷ es) out e =
        let (o, rest, here, there, split) = each_value-cons k v es out e in
        rw split (elim (Bool-cases (k == key)) [
          | inl same ↦ rw same (sym here)
          | inr other ↦ rw other (lookup-each_value key es rest there)
        ])

  -- `inner` gives every result that `less` gives.
  abbrev Extends : (Json N → Option (Json N)) → (Json N → Option (Json N)) → Type 0
  Extends inner less = (v out : Json N) → less v ≡ some out → inner v ≡ some out

  module _ (inner less : Json N → Option (Json N)) (more : Extends inner less) where
    each_value-more :
        (es out : Entries N) → each_value less es ≡ some out → each_value inner es ≡ some out
    unfolding each_value
    each_value-more [] out e = e
    each_value-more ((k, v) ∷ es) out e =
        let (o, rest, here, there, split) = each_value-cons less k v es out e in
        rw (more v o here, each_value-more es rest there, split) refl

    each_element-more :
        (vs out : List (Json N))
        → each_element less vs ≡ some out
        → each_element inner vs ≡ some out
    unfolding each_element
    each_element-more [] out e = e
    each_element-more (v ∷ vs) out e =
        let (o, rest, here, there, split) = each_element-cons less v vs out e in
        rw (more v o here, each_element-more vs rest there, split) refl

    pass_step-more :
        (rewrite : Entries N → Entries N)
        → Extends (pass_step inner rewrite) (pass_step less rewrite)
    unfolding pass_step
    pass_step-more rewrite (Json.object fs) out e =
        elim (Option-cases (each_value less (rewrite (fields fs)))) [
          | inl stuck ↦ absurd (let f = rw stuck at e in cc)
          | inr (os, done) ↦
              rw (each_value-more (rewrite (fields fs)) os done) (let f = rw done at e in f)
        ]
    pass_step-more rewrite (Json.array vs) out e =
        elim (Option-cases (each_element less (elems vs))) [
          | inl stuck ↦ absurd (let f = rw stuck at e in cc)
          | inr (os, done) ↦ rw (each_element-more (elems vs) os done) (let f = rw done at e in f)
        ]
    pass_step-more rewrite Json.null out e = e
    pass_step-more rewrite (Json.bool b) out e = e
    pass_step-more rewrite (Json.number n) out e = e
    pass_step-more rewrite (Json.string s) out e = e

  module _ (rewrite : Entries N → Entries N) where
    pass-suc : (fuel : ℕ) → Extends (pass rewrite (suc fuel)) (pass rewrite fuel)
    unfolding pass
    pass-suc zero v out e = absurd (cc)
    pass-suc (suc fuel) v out e =
        pass_step-more (pass rewrite (suc fuel)) (pass rewrite fuel) (pass-suc fuel) rewrite v out e

    -- More fuel changes no result.
    pub pass-more :
        (extra fuel : ℕ) (v out : Json N)
        → pass rewrite fuel v ≡ some out
        → pass rewrite (extra + fuel) v ≡ some out
    pass-more zero fuel v out e = subst (λ n. pass rewrite n v ≡ some out) (omega arith) e
    pass-more (suc extra) fuel v out e =
        subst (λ n. pass rewrite n v ≡ some out) (omega arith)
          (pass-suc (extra + fuel) v out (pass-more extra fuel v out e))

    pub pass-at_least :
        (fuel enough : ℕ) (v out : Json N)
        → fuel ≤ enough
        → pass rewrite fuel v ≡ some out
        → pass rewrite enough v ≡ some out
    pass-at_least fuel enough v out le e =
        subst (λ n. pass rewrite n v ≡ some out) (omega arith)
          (pass-more (enough - fuel) fuel v out e)

    pub pass-Ends_more :
        (fuel enough : ℕ) (v : Json N)
        → fuel ≤ enough
        → Ends (pass rewrite fuel) v
        → Ends (pass rewrite enough) v
    pass-Ends_more fuel enough v le (out, e) = (out, pass-at_least fuel enough v out le e)

    pub pass-object-Ends :
        (fuel : ℕ) (fs : Fields N)
        → All (λ kv. Ends (pass rewrite fuel) kv.1) (rewrite (fields fs))
        → Ends (pass rewrite (suc fuel)) (Json.object fs)
    unfolding pass pass_step
    pass-object-Ends fuel fs h =
        let (out, e) = each_value-Ends (pass rewrite fuel) (rewrite (fields fs)) h in
        (Json.object (of_fields out), rw e refl)

    pub pass_array-Ends :
        (fuel : ℕ) (vs : Elems N)
        → All (Ends (pass rewrite fuel)) (elems vs)
        → Ends (pass rewrite (suc fuel)) (Json.array vs)
    unfolding pass pass_step
    pass_array-Ends fuel vs h =
        let (out, e) = each_element-Ends (pass rewrite fuel) (elems vs) h in
        (Json.array (of_elems out), rw e refl)

    -- Where the pass ends on an array, it ends on the elements.
    pub pass_array-Ends_inv :
        (fuel : ℕ) (vs : Elems N)
        → Ends (pass rewrite (suc fuel)) (Json.array vs)
        → All (Ends (pass rewrite fuel)) (elems vs)
    unfolding pass pass_step
    pass_array-Ends_inv fuel vs (out, e) =
        elim (Option-cases (each_element (pass rewrite fuel) (elems vs))) [
          | inl stuck ↦ absurd (let f = rw stuck at e in cc)
          | inr (os, done) ↦ Ends-each_element (pass rewrite fuel) (elems vs) os done
        ]

    -- A pass gives a text or a number only for the same text or number.
    pub pass-scalar :
        (fuel : ℕ) (v out : Json N) → pass rewrite fuel v ≡ some out → scalar out ≡ true → v ≡ out
    unfolding pass pass_step
    pass-scalar zero v out e t = absurd (cc)
    pass-scalar (suc fuel) (Json.object fs) out e t =
        elim (Option-cases (each_value (pass rewrite fuel) (rewrite (fields fs)))) [
          | inl stuck ↦ absurd (let f = rw stuck at e in cc)
          | inr (os, done) ↦
              absurd
                (let f = transfer (λ w. scalar w ≡ false) _ out (rw done at e) refl in ground arith)
        ]
    pass-scalar (suc fuel) (Json.array vs) out e t =
        elim (Option-cases (each_element (pass rewrite fuel) (elems vs))) [
          | inl stuck ↦ absurd (let f = rw stuck at e in cc)
          | inr (os, done) ↦
              absurd
                (let f = transfer (λ w. scalar w ≡ false) _ out (rw done at e) refl in ground arith)
        ]
    pass-scalar (suc fuel) Json.null out e t = cc
    pass-scalar (suc fuel) (Json.bool b) out e t = cc
    pass-scalar (suc fuel) (Json.number n) out e t = cc
    pass-scalar (suc fuel) (Json.string s) out e t = cc

    -- A text or a number at a key of the result stood there before.
    pub lookup-scalar :
        (fuel : ℕ) (key : String) (es out : Entries N) (v : Json N)
        → each_value (pass rewrite fuel) es ≡ some out
        → lookup key out ≡ some v
        → scalar v ≡ true
        → lookup key es ≡ some v
    lookup-scalar fuel key es out v e found t =
        let was = lookup-each_value (pass rewrite fuel) key es out e in
        elim (Option-cases (lookup key es)) [
          | inl missing ↦ absurd (let f = rw missing at was in cc)
          | inr (old, there) ↦
              let f = rw there at was in let g = pass-scalar fuel old v (cc) t in cc
        ]
