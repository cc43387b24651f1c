-- ===== src/RustSdk/Fields.antt =====
-- The names of the fields of a struct that `emit_object` of crates/specforge-rust/src/lib.rs writes.
use mathlib.Core.Bool.{and-eq-true_iff}
use specforge_openapi_sdk_co.Prelude.{
  ℕ, suc, ◌≡◌, ◌≢◌, ◌≤◌, ◌<◌, ◌↔◌, ◌⊎◌, refl, sym, ◌∙◌, ap, String, Bool, true, false, not, ◌==◌,
  eq_iff, Option, none, some, List, [], ◌∷◌, ◌++◌, all, any_iff, Any, Any-iff, All, select,
  map_list, Chars, codes, is_digit, is_lower, is_one_of, arith, Bool-cases, inl, inr, length, subst,
}
use specforge_openapi_sdk_co.Ir.{IrType, Property, ObjectModel, Model, SchemaRegistry, get_model}
use specforge_openapi_sdk_co.FieldNames.{Decimal}
use specforge_openapi_sdk_co.FieldNames.Fresh.{Distinct, field_names-Distinct}
use specforge_openapi_sdk_co.FieldNames.Suffixed.{Stem, EachStem, field_names-EachStem}
use specforge_openapi_sdk_co.Names.Identifiers.{all_mono, is_one_of-all}
use specforge_openapi_sdk_co.RustSdk.{
  Casing, snake, is_rust_reserved, skips, own_properties, base_field, struct_fields,
}
use specforge_openapi_sdk_co.RustSdk.Words.{reserved}
use specforge_openapi_sdk_co.RustSdk.Identifiers.{
  is_snake_char, is_snake_identifier, is_plain, all-append, snake-identifier,
}

-- What the name of a field has to be.
abbrev pub IsField : Chars → Type 0
IsField name = (is_snake_identifier name ≡ true) × (is_rust_reserved name ≡ false)

abbrev no_digit : Chars → Bool
no_digit w = all (λ c. not (is_digit c)) w

reserved-no_digit : all no_digit reserved ≡ true
unfolding reserved
reserved-no_digit = refl

not-no_digit : (s t : Chars) → t ≢ [] → all is_digit t ≡ true → no_digit (s ++ t) ≡ false
not-no_digit [] [] some_digit h = absurd (some_digit refl)
not-no_digit [] (d ∷ t) some_digit h = ground arith
not-no_digit (c ∷ s) t some_digit h = ground (arith, not-no_digit s t some_digit h)

digit-snake_char : (c : ℕ) → is_digit c ≡ true → is_snake_char c ≡ true
digit-snake_char c h = ground arith

append_assoc_one : (s t : Chars) (c : ℕ) → s ++ (c ∷ t) ≡ (s ++ c ∷ []) ++ t
append_assoc_one [] t c = refl
append_assoc_one (d ∷ s) t c = ap (λ u. d ∷ u) (append_assoc_one s t c)

-- An identifier stays one with an underscore and a number after it, and that is no reserved word.
numbered-IsField :
    (s digits : Chars)
    → is_snake_identifier s ≡ true
    → digits ≢ []
    → all is_digit digits ≡ true
    → IsField (s ++ (b'_' ∷ digits))
unfolding is_rust_reserved
numbered-IsField [] digits h some_digit h' = absurd (cc)
numbered-IsField (c ∷ s) digits h some_digit number =
    let (here, later) = (and-eq-true_iff (is_lower c) (all is_snake_char s)).0 h in
    let tail : all is_snake_char (b'_' ∷ digits) ≡ true =
      all_mono is_digit is_snake_char digits digit-snake_char number in
    (
      (and-eq-true_iff (is_lower c) (all is_snake_char (s ++ (b'_' ∷ digits)))).1
          (here, all-append is_snake_char s (b'_' ∷ digits) later tail),
      free (Bool-cases (is_one_of reserved (c ∷ (s ++ (b'_' ∷ digits))))),
    )
  where
    digit_in : no_digit (c ∷ (s ++ (b'_' ∷ digits))) ≡ false
    digit_in =
        ap no_digit (append_assoc_one (c ∷ s) digits b'_')
        ∙ not-no_digit (c ∷ (s ++ b'_' ∷ [])) digits some_digit number

    free :
        (is_one_of reserved (c ∷ (s ++ (b'_' ∷ digits))) ≡ true)
          ⊎ (is_one_of reserved (c ∷ (s ++ (b'_' ∷ digits))) ≡ false)
        → is_one_of reserved (c ∷ (s ++ (b'_' ∷ digits))) ≡ false
    free (inl e) = absurd (
        cc (
          is_one_of-all no_digit reserved (c ∷ (s ++ (b'_' ∷ digits))) reserved-no_digit e,
          digit_in,
        ))
    free (inr e) = e

-- The property is one of the flattened base type's.
pub record Inherited (registry : SchemaRegistry) (base_type : Option IrType) (p : Property)
    : Type 0 where
  pub base : String
  pub nullable : Bool
  pub description : Option String
  pub object : ObjectModel
  pub is_reference : base_type ≡ some (IrType.reference base nullable description)
  pub found : get_model registry base ≡ some (Model.object object)
  pub named : Any (λ q. q.name ≡ p.name) object.properties

module _ (casing : Casing) where
  skips_iff :
      (m : Option Model) (p : Property)
      → (skips casing m p ≡ true) ↔ (
          (o : ObjectModel) × (m ≡ some (Model.object o)) × Any (λ q. q.name ≡ p.name) o.properties)
  skips_iff none p = (λ h. absurd (cc), λ h. absurd (cc (h.1)))
  skips_iff (some (Model.enumeration e)) p = (λ h. absurd (cc), λ h. absurd (cc (h.1)))
  skips_iff (some (Model.object o)) p = (
    λ h. (
      o,
      refl,
      (Any-iff o.properties (λ q. eq_iff q.name p.name)).0
          ((any_iff (λ q. q.name == p.name) o.properties).0 h),
    ),
    λ (other, same, listed). (any_iff (λ q. q.name == p.name) o.properties).1 (
        (Any-iff o.properties (λ q. eq_iff q.name p.name)).1 (
          subst (λ x. Any (λ q. q.name ≡ p.name) x.properties) (object_inj other o (sym same))
            listed)),
  )
    where
      object_inj : (a b : ObjectModel) → some (Model.object a) ≡ some (Model.object b) → a ≡ b
      object_inj a b e = cc

  module _ (decimal : Decimal) (registry : SchemaRegistry) (base_type : Option IrType) where
    -- Each property that is not inherited has a name, in their order: what `snake` makes of the
    -- property's name, or that with an underscore and a number.
    pub data FieldsOf : List Property → List Chars → Type 0 where
      done : FieldsOf [] []
      inherited :
          {p : Property} {ps : List Property} {names : List Chars}
          → Inherited registry base_type p
          → FieldsOf ps names
          → FieldsOf (p ∷ ps) names
      own :
          {p : Property} {ps : List Property} {name : Chars} {names : List Chars}
          → ¬ Inherited registry base_type p
          → Stem (λ n. b'_' ∷ decimal.display n) (snake casing (codes p.name)) name
          → FieldsOf ps names
          → FieldsOf (p ∷ ps) (name ∷ names)

    abbrev stems : List Property → List Chars
    stems ps = map_list (λ p. snake casing (codes p.name)) ps

    abbrev Named : List Chars → List Chars → Type 0
    Named bases names = EachStem (λ n. b'_' ∷ decimal.display n) bases names

    cons_own :
        (p : Property) (ps : List Property) (bases names : List Chars)
        → ¬ Inherited registry base_type p
        → ((more : List Chars) → Named bases more → FieldsOf ps more)
        → Named (snake casing (codes p.name) ∷ bases) names
        → FieldsOf (p ∷ ps) names
    cons_own p ps bases _ free rest (EachStem.more {name = name} {names = names} stem later) =
        FieldsOf.own free stem (rest names later)

    all_own :
        (ps : List Property) (names : List Chars)
        → ((p : Property) → ¬ Inherited registry base_type p)
        → Named (stems ps) names
        → FieldsOf ps names
    all_own [] _ free EachStem.done = FieldsOf.done
    all_own (p ∷ ps) names free named =
        cons_own p ps (stems ps) names (free p) (λ more h. all_own ps more free h) named

    some_own :
        (m : Option Model) (ps : List Property) (names : List Chars)
        → ((p : Property) → (skips casing m p ≡ true) ↔ Inherited registry base_type p)
        → Named (stems (select (λ p. not (skips casing m p)) ps)) names
        → FieldsOf ps names
    some_own m [] _ free EachStem.done = FieldsOf.done
    some_own m (p ∷ ps) names free named = elim (Bool-cases (skips casing m p)) [
      | inl skipped ↦
          FieldsOf.inherited ((free p).0 skipped) (some_own m ps names free (rw skipped at named))
      | inr kept ↦
          cons_own p ps (stems (select (λ q. not (skips casing m q)) ps)) names
            (λ i. absurd (cc (kept, (free p).1 i))) (λ more h. some_own m ps more free h)
            (rw kept at named)
    ]

    FieldsOf-IsField :
        ((n : ℕ) → all is_digit (decimal.display n) ≡ true)
        → (ps : List Property) (names : List Chars)
        → All (λ p. all is_plain (codes p.name) ≡ true) ps
        → FieldsOf ps names
        → All IsField names
    FieldsOf-IsField digits _ _ plain FieldsOf.done = tt
    FieldsOf-IsField digits _ _ plain (FieldsOf.inherited {ps = ps} {names = names} i later) =
        FieldsOf-IsField digits ps names plain.1 later
    FieldsOf-IsField digits _ _ plain
          (FieldsOf.own {p = p} {ps = ps} {name = name} {names = names} free stem later) =
        (is_field stem, FieldsOf-IsField digits ps names plain.1 later)
      where
        is_field :
            Stem (λ n. b'_' ∷ decimal.display n) (snake casing (codes p.name)) name → IsField name
        is_field (Stem.as_it_is e) =
            subst IsField (sym e) (snake-identifier casing (codes p.name) plain.0)
        is_field (Stem.numbered m e) = subst IsField (sym e) (
            numbered-IsField (snake casing (codes p.name)) (decimal.display m)
              (snake-identifier casing (codes p.name) plain.0).0 (decimal.display_some m)
              (digits m))

  skips-Inherited :
      (registry : SchemaRegistry) (base : String) (n : Bool) (d : Option String) (p : Property)
      → (skips casing (get_model registry base) p ≡ true)
        ↔ Inherited registry (some (IrType.reference base n d)) p
  skips-Inherited registry base n d p = (
    λ h.
        let (o, found, listed) = (skips_iff (get_model registry base) p).0 h in
        record {
          base = base;
          nullable = n;
          description = d;
          object = o;
          is_reference = refl;
          found = found;
          named = listed;
        },
    λ i. (skips_iff (get_model registry base) p).1 (
      i.object,
      ap (get_model registry) (same_base i.base i.nullable i.description i.is_reference) ∙ i.found,
      i.named,
    ),
  )
    where
      same_base :
          (b : String) (n' : Bool) (d' : Option String)
          → some (IrType.reference base n d) ≡ some (IrType.reference b n' d')
          → base ≡ b
      same_base b n' d' e = cc

  own_properties-FieldsOf :
      (decimal : Decimal) (registry : SchemaRegistry) (base_type : Option IrType)
      (ps : List Property) (names : List Chars)
      → Named decimal registry base_type
          (stems decimal registry base_type (own_properties casing registry base_type ps))
          names
      → FieldsOf decimal registry base_type ps names
  own_properties-FieldsOf decimal registry none ps names h =
      all_own decimal registry none ps names (λ p i. absurd (cc (i.is_reference))) h
  own_properties-FieldsOf decimal registry (some (IrType.reference base n d)) ps names h =
      some_own decimal registry (some (IrType.reference base n d)) (get_model registry base) ps
        names (skips-Inherited registry base n d) h
  own_properties-FieldsOf decimal registry (some (IrType.scalar s)) ps names h =
      all_own decimal registry _ ps names (λ p i. absurd (cc (i.is_reference))) h
  own_properties-FieldsOf decimal registry (some (IrType.string_enum vs n)) ps names h =
      all_own decimal registry _ ps names (λ p i. absurd (cc (i.is_reference))) h
  own_properties-FieldsOf decimal registry (some (IrType.array item n)) ps names h =
      all_own decimal registry _ ps names (λ p i. absurd (cc (i.is_reference))) h
  own_properties-FieldsOf decimal registry (some (IrType.map value)) ps names h =
      all_own decimal registry _ ps names (λ p i. absurd (cc (i.is_reference))) h
  own_properties-FieldsOf decimal registry (some (IrType.composition k ts d)) ps names h =
      all_own decimal registry _ ps names (λ p i. absurd (cc (i.is_reference))) h
  own_properties-FieldsOf decimal registry (some IrType.any) ps names h =
      all_own decimal registry _ ps names (λ p i. absurd (cc (i.is_reference))) h
  own_properties-FieldsOf decimal registry (some IrType.unknown) ps names h =
      all_own decimal registry _ ps names (λ p i. absurd (cc (i.is_reference))) h

  length-select : (f : Property → Bool) (ps : List Property) → length (select f ps) ≤ length ps
  length-select f [] = omega arith
  length-select f (p ∷ ps) = ground (arith, length-select f ps)

  own_properties-length :
      (registry : SchemaRegistry) (base_type : Option IrType) (ps : List Property)
      → length (own_properties casing registry base_type ps) ≤ length ps
  own_properties-length registry (some (IrType.reference base n d)) ps =
      length-select (λ p. not (skips casing (get_model registry base) p)) ps
  own_properties-length registry none ps = omega arith
  own_properties-length registry (some (IrType.scalar s)) ps = omega arith
  own_properties-length registry (some (IrType.string_enum vs n)) ps = omega arith
  own_properties-length registry (some (IrType.array item n)) ps = omega arith
  own_properties-length registry (some (IrType.map value)) ps = omega arith
  own_properties-length registry (some (IrType.composition k ts d)) ps = omega arith
  own_properties-length registry (some IrType.any) ps = omega arith
  own_properties-length registry (some IrType.unknown) ps = omega arith

length-map_list : {A B : Type 0} (f : A → B) (xs : List A) → length (map_list f xs) ≡ length xs
length-map_list f [] = refl
length-map_list f (x ∷ xs) = ap suc (length-map_list f xs)

-- If numbers are written in digits, the properties' names have only ASCII characters and minus
-- signs, and the loop for a free name has one round more than there are properties, then the names
-- of a struct's fields are found. After that of the flattened base type, if there is one, each
-- property that is not the base type's has one, in their order: what `snake` makes of the
-- property's name, or that with an underscore and a number. No two of these are the same, and all
-- are identifiers and no reserved words.
pub struct_fields-Distinct :
    (casing : Casing) (decimal : Decimal) (fuel : ℕ) (registry : SchemaRegistry)
    (base_type : Option IrType) (properties : List Property)
    → ((n : ℕ) → all is_digit (decimal.display n) ≡ true)
    → All (λ p. all is_plain (codes p.name) ≡ true) properties
    → length properties < fuel
    → (names : List Chars) × (struct_fields casing decimal fuel registry base_type properties
        ≡ some (base_field casing base_type ++ names))
      × FieldsOf casing decimal registry base_type properties names
      × Distinct names
      × All IsField names
unfolding struct_fields
struct_fields-Distinct casing decimal fuel registry base_type properties digits plain enough =
    let bases =
      map_list (λ p. snake casing (codes p.name))
        (own_properties casing registry base_type properties) in
    let few : length bases ≤ length properties = omega (
      arith,
      length-map_list (λ p. snake casing (codes p.name))
          (own_properties casing registry base_type properties),
      own_properties-length casing registry base_type properties,
    ) in
    let (names, named, many, distinct, new) =
      field_names-Distinct (λ n. b'_' ∷ decimal.display n) fuel bases []
        (λ m n e. decimal.display_injective m n (cc)) (λ n e. cc) (omega arith) in
    let each =
      own_properties-FieldsOf casing decimal registry base_type properties names
        (field_names-EachStem (λ n. b'_' ∷ decimal.display n) fuel bases [] names named) in
    (
      names,
      rw named refl,
      each,
      distinct,
      FieldsOf-IsField casing decimal registry base_type digits properties names plain each,
    )
