-- ===== src/Spec/Ends.antt =====
-- The passes of crates/specforge-core/src/spec.rs end: how much fuel is enough for a value of a
-- given size.
use specforge_openapi_sdk_co.Prelude.{
  ℕ, zero, suc, ◌+◌, ◌*◌, ◌≤◌, arith, ◌≡◌, refl, String, Bool, true, false, Option, none, some,
  List, [], ◌∷◌, All, All-append, All-mono, All-insert, All-remove, lookup-All, Bool-cases, lookup,
  Option-cases, inl, inr, any, select, remove,
}
use specforge_openapi_sdk_co.Json.{Json, Elems, Fields, elems, fields, of_elems}
use specforge_openapi_sdk_co.Spec.{
  Entries, pass, pass_step, is_text, retype, type_found, convert_type, bound_found, convert_bound,
  convert_const, push_required, require_in, require_all, dependent_found, convert_dependent,
  first_item, convert_prefix, downgrade_object,
}
use specforge_openapi_sdk_co.Spec.Passes.{
  Ends, pass-Ends_more, pass-object-Ends, pass_array-Ends, pass_array-Ends_inv,
}

pub All-select :
    {A : Type 0} (P : A → Type 0) (p : A → Bool) (vs : List A) → All P vs → All P (select p vs)
All-select P p [] h = tt
All-select P p (v ∷ vs) h = elim (Bool-cases (p v)) [
  | inl kept ↦ rw kept (h.0, All-select P p vs h.1)
  | inr gone ↦ rw gone (All-select P p vs h.1)
]

module _ {N : Type 0} where
  -- The arrays and objects in the value.
  abbrev mutual
    pub size : Json N → ℕ
    size (Json.array vs) = suc (elements_size vs)
    size (Json.object fs) = suc (values_size fs)
    size _ = 0

    pub elements_size : Elems N → ℕ
    elements_size Elems.nil = 0
    elements_size (Elems.cons v vs) = size v + elements_size vs

    pub values_size : Fields N → ℕ
    values_size Fields.end = 0
    values_size (Fields.field k v fs) = size v + values_size fs

  elems-of_elems : (vs : List (Json N)) → elems (of_elems vs) ≡ vs
  elems-of_elems [] = refl
  elems-of_elems (v ∷ vs) = rw (elems-of_elems vs) refl

  -- Before the conversion of `const` the values end with this fuel, and after it with one more.
  module _ (spare : ℕ) where
    EndsSoon : Json N → Type 0
    EndsSoon v = Ends (pass downgrade_object (suc spare)) v

    EndsLate : Json N → Type 0
    EndsLate v = Ends (pass downgrade_object (suc (suc spare))) v

    EndsSoon-EndsLate : (v : Json N) → EndsSoon v → EndsLate v
    unfolding EndsSoon EndsLate
    EndsSoon-EndsLate v h =
        pass-Ends_more downgrade_object (suc spare) (suc (suc spare)) v (omega arith) h

    inside_soon : (vs : Elems N) → EndsSoon (Json.array vs) → All EndsSoon (elems vs)
    unfolding EndsSoon
    inside_soon vs h =
        All-mono (elems vs) (λ v. pass-Ends_more downgrade_object spare (suc spare) v (omega arith))
          (pass_array-Ends_inv downgrade_object spare vs h)

    inside_late : (vs : Elems N) → EndsLate (Json.array vs) → All EndsSoon (elems vs)
    unfolding EndsSoon EndsLate
    inside_late vs h = pass_array-Ends_inv downgrade_object (suc spare) vs h

    array-EndsLate : (vs : List (Json N)) → All EndsSoon vs → EndsLate (Json.array (of_elems vs))
    unfolding EndsSoon EndsLate
    array-EndsLate vs h =
        pass_array-Ends downgrade_object (suc spare) (of_elems vs) (rw (elems-of_elems vs) h)

    abbrev Soon : Entries N → Type 0
    Soon es = All (λ kv. EndsSoon kv.1) es

    abbrev Late : Entries N → Type 0
    Late es = All (λ kv. EndsLate kv.1) es

    retype-Soon :
        (b : Bool) (vs : List (Json N)) (es : Entries N)
        → All EndsSoon vs
        → Soon es
        → Soon (retype b vs es)
    unfolding EndsSoon pass pass_step
    retype-Soon false vs es hs h = h
    retype-Soon true [] es hs h =
        All-insert EndsSoon "nullable" _ _ (Json.bool true, refl) (All-remove EndsSoon "type" es h)
    retype-Soon true (v ∷ []) es hs h =
        All-insert EndsSoon "nullable" _ _ (Json.bool true, refl)
          (All-insert EndsSoon "type" v es hs.0 h)
    retype-Soon true (v ∷ w ∷ vs) es hs h = h

    type_found-Soon :
        (o : Option (Json N)) (es : Entries N)
        → ((v : Json N) → o ≡ some v → EndsSoon v)
        → Soon es
        → Soon (type_found o es)
    type_found-Soon (some (Json.array vs)) es has h =
        retype-Soon _ _ es (All-select EndsSoon _ (elems vs) (inside_soon vs (has _ refl))) h
    type_found-Soon none es has h = h
    type_found-Soon (some Json.null) es has h = h
    type_found-Soon (some (Json.bool b)) es has h = h
    type_found-Soon (some (Json.number n)) es has h = h
    type_found-Soon (some (Json.string s)) es has h = h
    type_found-Soon (some (Json.object fs)) es has h = h

    convert_type-Soon : (es : Entries N) → Soon es → Soon (convert_type es)
    unfolding convert_type
    convert_type-Soon es h =
        type_found-Soon (lookup "type" es) es (λ v e. lookup-All EndsSoon "type" v es h e) h

    convert_bound-Soon : (field : String) (es : Entries N) → Soon es → Soon (convert_bound field es)
    unfolding convert_bound EndsSoon pass pass_step
    convert_bound-Soon field es h = bound_found-Soon (lookup field es)
      where
        bound_found-Soon : (o : Option (Json N)) → Soon (bound_found field o es)
        bound_found-Soon (some (Json.number n)) =
            All-insert EndsSoon field _ es (Json.bool true, refl) h
        bound_found-Soon none = h
        bound_found-Soon (some Json.null) = h
        bound_found-Soon (some (Json.bool b)) = h
        bound_found-Soon (some (Json.string s)) = h
        bound_found-Soon (some (Json.array vs)) = h
        bound_found-Soon (some (Json.object fs)) = h

    Soon-Late : (es : Entries N) → Soon es → Late es
    Soon-Late es h = All-mono es (λ kv. EndsSoon-EndsLate kv.1) h

    convert_const-Late : (es : Entries N) → Soon es → Late (convert_const es)
    unfolding convert_const
    convert_const-Late es h = elim (Option-cases (lookup "const" es)) [
      | inl missing ↦ rw missing (Soon-Late es h)
      | inr (v, found) ↦ rw found (
          All-insert EndsLate "enum" _ _
            (array-EndsLate (v ∷ []) (lookup-All EndsSoon "const" v es h found, tt))
            (All-remove EndsLate "const" es (Soon-Late es h)))
    ]

    push_required-Soon :
        (deps : List String) (req : List (Json N))
        → All EndsSoon req
        → All EndsSoon (push_required deps req)
    unfolding EndsSoon pass pass_step
    push_required-Soon [] req h = h
    push_required-Soon (dep ∷ deps) req h =
        push_required-Soon deps _ (elim (Bool-cases (any (is_text dep) req)) [
          | inl has ↦ rw has h
          | inr lacks ↦ rw lacks ((All-append EndsSoon req _).1 (h, ((Json.string dep, refl), tt)))
        ])

    require_in-Late :
        (extra : List String) (o : Option (Json N)) (es : Entries N)
        → ((v : Json N) → o ≡ some v → EndsLate v)
        → Late es
        → Late (require_in extra o es)
    require_in-Late extra none es has h =
        All-insert EndsLate "required" _ es (array-EndsLate _ (push_required-Soon extra [] tt)) h
    require_in-Late extra (some (Json.array req)) es has h =
        All-insert EndsLate "required" _ es
          (array-EndsLate _ (push_required-Soon extra (elems req) (inside_late req (has _ refl)))) h
    require_in-Late extra (some Json.null) es has h = h
    require_in-Late extra (some (Json.bool b)) es has h = h
    require_in-Late extra (some (Json.number n)) es has h = h
    require_in-Late extra (some (Json.string s)) es has h = h
    require_in-Late extra (some (Json.object fs)) es has h = h

    require_all-Late :
        (extra : List String) (es : Entries N) → Late es → Late (require_all extra es)
    require_all-Late [] es h = h
    require_all-Late (dep ∷ deps) es h =
        require_in-Late (dep ∷ deps) _ es (λ v e. lookup-All EndsLate "required" v es h e) h

    convert_dependent-Late : (es : Entries N) → Late es → Late (convert_dependent es)
    unfolding convert_dependent
    convert_dependent-Late es h = dependent_found-Late (lookup "dependentRequired" es)
      where
        less : Late (remove "dependentRequired" es)
        less = All-remove EndsLate "dependentRequired" es h

        dependent_found-Late : (o : Option (Json N)) → Late (dependent_found o es)
        dependent_found-Late (some (Json.object deps)) = require_all-Late _ _ less
        dependent_found-Late none = h
        dependent_found-Late (some Json.null) = less
        dependent_found-Late (some (Json.bool b)) = less
        dependent_found-Late (some (Json.number n)) = less
        dependent_found-Late (some (Json.string s)) = less
        dependent_found-Late (some (Json.array vs)) = less

    first_item-Late : (p : Json N) (es : Entries N) → EndsLate p → Late es → Late (first_item p es)
    first_item-Late (Json.array (Elems.cons v vs)) es l h =
        All-insert EndsLate "items" v es (EndsSoon-EndsLate v (inside_late (Elems.cons v vs) l).0) h
    first_item-Late (Json.array Elems.nil) es l h = h
    first_item-Late Json.null es l h = h
    first_item-Late (Json.bool b) es l h = h
    first_item-Late (Json.number n) es l h = h
    first_item-Late (Json.string s) es l h = h
    first_item-Late (Json.object fs) es l h = h

    convert_prefix-Late : (es : Entries N) → Late es → Late (convert_prefix es)
    unfolding convert_prefix
    convert_prefix-Late es h = elim (Option-cases (lookup "prefixItems" es)) [
      | inl missing ↦ rw missing h
      | inr (p, found) ↦ rw found (
          first_item-Late p _ (lookup-All EndsLate "prefixItems" p es h found)
            (All-remove EndsLate "prefixItems" es h))
    ]

    downgrade_object-Late : (es : Entries N) → Soon es → Late (downgrade_object es)
    unfolding downgrade_object
    downgrade_object-Late es h = convert_prefix-Late _ (
        convert_dependent-Late _ (
          convert_const-Late _ (
            convert_bound-Soon "exclusiveMaximum" _
              (convert_bound-Soon "exclusiveMinimum" _ (convert_type-Soon es h)))))

  mutual
    unfolding EndsSoon EndsLate pass pass_step

    pub downgrade-Ends :
        (v : Json N) (n : ℕ) → size v ≤ n → Ends (pass downgrade_object (suc (2 * n))) v
    downgrade-Ends (Json.object fs) zero le = absurd (omega arith)
    downgrade-Ends (Json.array vs) zero le = absurd (omega arith)
    downgrade-Ends (Json.object fs) (suc m) le =
        pass-Ends_more downgrade_object (suc (suc (suc (2 * m)))) (suc (2 * suc m)) (Json.object fs)
          (omega arith)
          (pass-object-Ends downgrade_object (suc (suc (2 * m))) fs
            (downgrade_object-Late (2 * m) (fields fs) (values_end fs m (omega arith))))
    downgrade-Ends (Json.array vs) (suc m) le =
        pass-Ends_more downgrade_object (suc (suc (2 * m))) (suc (2 * suc m)) (Json.array vs)
          (omega arith)
          (pass_array-Ends downgrade_object (suc (2 * m)) vs (elements_end vs m (omega arith)))
    downgrade-Ends Json.null n le = (_, refl)
    downgrade-Ends (Json.bool b) n le = (_, refl)
    downgrade-Ends (Json.number m) n le = (_, refl)
    downgrade-Ends (Json.string s) n le = (_, refl)

    elements_end :
        (vs : Elems N) (n : ℕ)
        → elements_size vs ≤ n
        → All (Ends (pass downgrade_object (suc (2 * n)))) (elems vs)
    elements_end Elems.nil n le = tt
    elements_end (Elems.cons v vs) n le =
        (downgrade-Ends v n (omega arith), elements_end vs n (omega arith))

    values_end :
        (fs : Fields N) (n : ℕ)
        → values_size fs ≤ n
        → All (λ kv. Ends (pass downgrade_object (suc (2 * n))) kv.1) (fields fs)
    values_end Fields.end n le = tt
    values_end (Fields.field k v fs) n le =
        (downgrade-Ends v n (omega arith), values_end fs n (omega arith))
