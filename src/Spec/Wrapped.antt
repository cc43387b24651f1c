-- ===== src/Spec/Wrapped.antt =====
-- The first pass of crates/specforge-core/src/spec.rs, `extract_ref_siblings`: that it ends, and what
-- it leaves.
use specforge_openapi_sdk_co.Prelude.{
  ℕ, zero, suc, ◌*◌, ◌≤◌, ◌<◌, arith, ◌≡◌, refl, String, Bool, true, Option, none, some, [], ◌∷◌,
  ◌||◌, All, All-mono, Bool-cases, ◌==◌, lookup, Option-cases, inl, inr, is_empty,
}
use specforge_openapi_sdk_co.Json.{Json, Elems, Fields, elems, fields, of_fields}
use specforge_openapi_sdk_co.Merge.Laws.{fields-of_fields}
use specforge_openapi_sdk_co.Spec.{
  Entries, pass, pass_step, each_value, siblings, wrapper, wrap_found, wrap_siblings,
  extract_ref_siblings,
}
use specforge_openapi_sdk_co.Spec.Passes.{
  Ends, pass-Ends_more, pass-object-Ends, pass_array-Ends, lookup-scalar, each_value-cons, transfer,
}
use specforge_openapi_sdk_co.Spec.Everywhere.{Everywhere, pass-Everywhere}
use specforge_openapi_sdk_co.Spec.Ends.{size, elements_size, values_size, All-select}

module _ {N : Type 0} where
  lookup-siblings : (es : Entries N) → lookup "$ref" (siblings es) ≡ none
  unfolding lookup
  lookup-siblings [] = refl
  lookup-siblings ((k, v) ∷ es) = elim (Bool-cases (k == "$ref")) [
    | inl same ↦ rw same (lookup-siblings es)
    | inr other ↦ rw (other, other) (lookup-siblings es)
  ]

  wrap-siblings : (es : Entries N) → wrap_siblings (siblings es) ≡ siblings es
  unfolding wrap_siblings
  wrap-siblings es = rw (lookup-siblings es) refl

  -- What becomes of the values when there is enough fuel for them.
  abbrev EndsIn : ℕ → Json N → Type 0
  EndsIn fuel v = Ends (pass wrap_siblings fuel) v

  module _ (spare : ℕ) where
    later :
        (less more : ℕ) (es : Entries N)
        → less ≤ more
        → All (λ kv. EndsIn less kv.1) es
        → All (λ kv. EndsIn more kv.1) es
    later less more es le h = All-mono es (λ kv. pass-Ends_more wrap_siblings less more kv.1 le) h

    reference-Ends :
        (s : String)
        → EndsIn (suc (suc spare)) (Json.object (Fields.field "$ref" (Json.string s) Fields.end))
    unfolding pass pass_step each_value wrap_siblings lookup
    reference-Ends s =
        let same = Json.object (Fields.field "$ref" (Json.string s) Fields.end) in
        elim (Bool-cases (s == "")) [
          | inl empty ↦ (same, rw empty refl)
          | inr full ↦ (same, rw full refl)
        ]

    wrapper-Ends :
        (s : String) (es : Entries N)
        → All (λ kv. EndsIn (suc spare) kv.1) es
        → All (λ kv. EndsIn (suc (suc (suc spare))) kv.1) (wrapper (Json.string s) (siblings es))
    wrapper-Ends s es h = (
      pass_array-Ends wrap_siblings (suc (suc spare)) _ (
        reference-Ends s,
        (
          pass-object-Ends wrap_siblings (suc spare) (of_fields (siblings es)) (
              rw (fields-of_fields (siblings es), wrap-siblings es)
                (All-select (λ kv. EndsIn (suc spare) kv.1) _ es h)),
          tt,
        ),
      ),
      tt,
    )

    wrap_found-Ends :
        (o : Option (Json N)) (es : Entries N)
        → All (λ kv. EndsIn (suc spare) kv.1) es
        → All (λ kv. EndsIn (suc (suc (suc spare))) kv.1) (wrap_found o es)
    wrap_found-Ends (some (Json.string s)) es h =
        elim (Bool-cases (s == "" || is_empty (siblings es))) [
          | inl bare ↦ rw bare (later (suc spare) (suc (suc (suc spare))) es (omega arith) h)
          | inr wrap ↦ rw wrap (wrapper-Ends s es h)
        ]
    wrap_found-Ends none es h = later (suc spare) (suc (suc (suc spare))) es (omega arith) h
    wrap_found-Ends (some Json.null) es h =
        later (suc spare) (suc (suc (suc spare))) es (omega arith) h
    wrap_found-Ends (some (Json.bool b)) es h =
        later (suc spare) (suc (suc (suc spare))) es (omega arith) h
    wrap_found-Ends (some (Json.number n)) es h =
        later (suc spare) (suc (suc (suc spare))) es (omega arith) h
    wrap_found-Ends (some (Json.array vs)) es h =
        later (suc spare) (suc (suc (suc spare))) es (omega arith) h
    wrap_found-Ends (some (Json.object fs)) es h =
        later (suc spare) (suc (suc (suc spare))) es (omega arith) h

    wrap_siblings-Ends :
        (es : Entries N)
        → All (λ kv. EndsIn (suc spare) kv.1) es
        → All (λ kv. EndsIn (suc (suc (suc spare))) kv.1) (wrap_siblings es)
    unfolding wrap_siblings
    wrap_siblings-Ends es h = wrap_found-Ends (lookup "$ref" es) es h

  mutual
    unfolding pass pass_step

    pub extract_ends : (v : Json N) (n : ℕ) → size v ≤ n → EndsIn (suc (3 * n)) v
    extract_ends (Json.object fs) zero le = absurd (omega arith)
    extract_ends (Json.array vs) zero le = absurd (omega arith)
    extract_ends (Json.object fs) (suc m) le =
        pass-Ends_more wrap_siblings (suc (suc (suc (suc (3 * m))))) (suc (3 * suc m))
          (Json.object fs) (omega arith)
          (pass-object-Ends wrap_siblings (suc (suc (suc (3 * m)))) fs
            (wrap_siblings-Ends (3 * m) (fields fs) (values_end fs m (omega arith))))
    extract_ends (Json.array vs) (suc m) le =
        pass-Ends_more wrap_siblings (suc (suc (3 * m))) (suc (3 * suc m)) (Json.array vs)
          (omega arith)
          (pass_array-Ends wrap_siblings (suc (3 * m)) vs (elements_end vs m (omega arith)))
    extract_ends Json.null n le = (_, refl)
    extract_ends (Json.bool b) n le = (_, refl)
    extract_ends (Json.number m) n le = (_, refl)
    extract_ends (Json.string s) n le = (_, refl)

    elements_end :
        (vs : Elems N) (n : ℕ) → elements_size vs ≤ n → All (EndsIn (suc (3 * n))) (elems vs)
    elements_end Elems.nil n le = tt
    elements_end (Elems.cons v vs) n le =
        (extract_ends v n (omega arith), elements_end vs n (omega arith))

    values_end :
        (fs : Fields N) (n : ℕ)
        → values_size fs ≤ n
        → All (λ kv. EndsIn (suc (3 * n)) kv.1) (fields fs)
    values_end Fields.end n le = tt
    values_end (Fields.field k v fs) n le =
        (extract_ends v n (omega arith), values_end fs n (omega arith))

  -- In the object, a nonempty text at "$ref" has no siblings.
  abbrev stands_alone : Option (Json N) → Entries N → Bool
  stands_alone (some (Json.string s)) es = s == "" || is_empty (siblings es)
  stands_alone _ es = true

  pub RefAlone : Entries N → Type 0
  unfolding lookup
  RefAlone es = stands_alone (lookup "$ref" es) es ≡ true

  wrap_siblings-RefAlone : (es : Entries N) → RefAlone (wrap_siblings es)
  unfolding RefAlone wrap_siblings lookup
  wrap_siblings-RefAlone es = elim (Option-cases (lookup "$ref" es)) [
    | inl missing ↦ rw (missing, missing) refl
    | inr (v, found) ↦ rw found (wrapped v found)
  ]
    where
      wrapped : (v : Json N) → lookup "$ref" es ≡ some v → RefAlone (wrap_found (some v) es)
      wrapped (Json.string s) found = elim (Bool-cases (s == "" || is_empty (siblings es))) [
        | inl alone ↦ rw (alone, found) alone
        | inr wrap ↦ rw wrap refl
      ]
      wrapped Json.null found = rw found refl
      wrapped (Json.bool b) found = rw found refl
      wrapped (Json.number n) found = rw found refl
      wrapped (Json.array vs) found = rw found refl
      wrapped (Json.object fs) found = rw found refl

  siblings-each_value :
      (inner : Json N → Option (Json N)) (es out : Entries N)
      → each_value inner es ≡ some out
      → is_empty (siblings out) ≡ is_empty (siblings es)
  unfolding each_value
  siblings-each_value inner [] out e = transfer (λ os. is_empty (siblings os) ≡ true) [] out e refl
  siblings-each_value inner ((k, v) ∷ es) out e =
      let (o, rest, here, there, split) = each_value-cons inner k v es out e in
      rw split (elim (Bool-cases (k == "$ref")) [
        | inl same ↦ rw same (siblings-each_value inner es rest there)
        | inr other ↦ rw other refl
      ])

  each_value-RefAlone :
      (fuel : ℕ) (es out : Entries N)
      → each_value (pass wrap_siblings fuel) es ≡ some out
      → RefAlone es
      → RefAlone out
  unfolding RefAlone
  each_value-RefAlone fuel es out e h = elim (Option-cases (lookup "$ref" out)) [
    | inl missing ↦ rw missing refl
    | inr (v, found) ↦ rw found (alone v found)
  ]
    where
      alone : (v : Json N) → lookup "$ref" out ≡ some v → stands_alone (some v) out ≡ true
      alone (Json.string s) found =
          let was = lookup-scalar wrap_siblings fuel "$ref" es out (Json.string s) e found refl in
          rw (siblings-each_value (pass wrap_siblings fuel) es out e) (rw was at h)
      alone Json.null found = refl
      alone (Json.bool b) found = refl
      alone (Json.number n) found = refl
      alone (Json.array vs) found = refl
      alone (Json.object fs) found = refl

  -- With more fuel than thrice the arrays and objects of a value `extract_ref_siblings` ends, and in
  -- what it gives no object that has a nonempty text at "$ref" has an entry at another key.
  pub extract_ref_siblings-alone :
      (json : Json N) (fuel : ℕ)
      → 3 * size json < fuel
      → (out : Json N) × (extract_ref_siblings fuel json ≡ some out) × Everywhere RefAlone out
  unfolding extract_ref_siblings
  extract_ref_siblings-alone json fuel enough =
      let (out, e) =
        pass-Ends_more wrap_siblings (suc (3 * size json)) fuel json (omega arith)
          (extract_ends json (size json) (omega arith)) in
      (
        out,
        e,
        pass-Everywhere RefAlone wrap_siblings
            (λ f es os g. each_value-RefAlone f (wrap_siblings es) os g (wrap_siblings-RefAlone es))
            fuel json out e,
      )
