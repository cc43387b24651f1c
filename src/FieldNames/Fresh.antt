-- ===== src/FieldNames/Fresh.antt =====
-- `unique_field_name` of the emitters ends and gives a new name.
use specforge_openapi_sdk_co.Prelude.{
  ℕ, zero, suc, ◌+◌, ◌≤◌, ◌<◌, arith, ◌≡◌, ◌≢◌, refl, sym, ap, true, false, not, some, List, [],
  ◌∷◌, ◌++◌, All, All-mono, select, length, In, In-select_iff, Bool-cases, inl, inr, Chars,
  chars_eq, chars_eq_iff,
}
use specforge_openapi_sdk_co.FieldNames.{contains, unique_loop, unique_field_name, field_names}

contains-In : (used : List Chars) (name : Chars) → contains used name ≡ true → In name used
contains-In [] name h = absurd (cc)
contains-In (u ∷ used) name h = elim (Bool-cases (chars_eq name u)) [
  | inl same ↦ inl (sym ((chars_eq_iff name u).0 same))
  | inr other ↦ inr (contains-In used name (rw other at h))
]

append-cancel : (base s t : Chars) → base ++ s ≡ base ++ t → s ≡ t
append-cancel [] s t e = e
append-cancel (c ∷ base) s t e = append-cancel base s t (cc)

append-longer : (base s : Chars) → s ≢ [] → base ≢ base ++ s
append-longer [] s more e = more (sym e)
append-longer (c ∷ base) s more e = append-longer base s more (cc)

-- A list without one of its members is shorter.
abbrev without : Chars → List Chars → List Chars
without name pool = select (λ y. not (chars_eq name y)) pool

length-without : (name : Chars) (pool : List Chars) → length (without name pool) ≤ length pool
length-without name [] = omega arith
length-without name (y ∷ pool) = elim (Bool-cases (chars_eq name y)) [
  | inl same ↦ let h = length-without name pool in rw same (omega arith)
  | inr other ↦ let h = length-without name pool in rw other (omega arith)
]

length-without_member :
    (name : Chars) (pool : List Chars) → In name pool → length (without name pool) < length pool
length-without_member name [] m = absurd m
length-without_member name (y ∷ pool) m = elim (Bool-cases (chars_eq name y)) [
  | inl same ↦ let h = length-without name pool in rw same (omega arith)
  | inr other ↦ elim m [
    | inl here ↦ absurd (let h = (chars_eq_iff name y).1 (sym here) in cc)
    | inr later ↦ let h = length-without_member name pool later in rw other (omega arith)
  ]
]

module _ (suffix : ℕ → Chars) (base : Chars)
    (suffix_injective : (m n : ℕ) → suffix m ≡ suffix n → m ≡ n) where
  -- The pool holds every used name that is still to be tried.
  abbrev Covers : ℕ → List Chars → List Chars → Type 0
  Covers n used pool = (m : ℕ) → n ≤ m → In (base ++ suffix m) used → In (base ++ suffix m) pool

  Covers-without :
      (n : ℕ) (used pool : List Chars) (name : Chars)
      → ((m : ℕ) → n ≤ m → name ≢ base ++ suffix m)
      → Covers n used pool
      → Covers n used (without name pool)
  Covers-without n used pool name new covers m le taken =
      (In-select_iff (λ y. not (chars_eq name y)) (base ++ suffix m) pool).1 (
        covers m le taken,
        elim (Bool-cases (chars_eq name (base ++ suffix m))) [
          | inl same ↦ absurd (new m le ((chars_eq_iff name (base ++ suffix m)).0 same))
          | inr other ↦ rw other refl
        ],
      )

  unique_loop-fresh :
      (fuel n : ℕ) (candidate : Chars) (used pool : List Chars)
      → length pool < fuel
      → ((m : ℕ) → n ≤ m → candidate ≢ base ++ suffix m)
      → (In candidate used → In candidate pool)
      → Covers n used pool
      → (name : Chars) × (unique_loop suffix fuel base n candidate used ≡ some (name, name ∷ used))
        × (contains used name ≡ false)
  unfolding unique_loop
  unique_loop-fresh zero n candidate used pool enough new here covers = absurd (omega arith)
  unique_loop-fresh (suc fuel) n candidate used pool enough new here covers =
      elim (Bool-cases (contains used candidate)) [
        | inr free ↦ (candidate, rw free refl, free)
        | inl taken ↦
            let shorter =
              length-without_member candidate pool (here (contains-In used candidate taken)) in
            let left = Covers-without n used pool candidate new covers in
            let (name, found, fresh) =
              unique_loop-fresh fuel (suc n) (base ++ suffix n) used (without candidate pool)
                (omega arith)
                (λ m le e.
                  let same = suffix_injective n m (append-cancel base (suffix n) (suffix m) e) in
                  omega arith)
                (left n (omega arith)) (λ m le. left m (omega arith)) in
            (name, rw taken found, fresh)
      ]

  module _ (suffix_some : (n : ℕ) → suffix n ≢ []) where
    unique_field_name-fresh :
        (fuel : ℕ) (used : List Chars)
        → length used < fuel
        → (name : Chars) × (unique_field_name suffix fuel base used ≡ some (name, name ∷ used))
          × (contains used name ≡ false)
    unfolding unique_field_name
    unique_field_name-fresh fuel used enough =
        unique_loop-fresh fuel 2 base used used enough
          (λ m le. append-longer base (suffix m) (suffix_some m)) (λ h. h) (λ m le h. h)

-- No two of the names are the same.
abbrev pub Distinct : List Chars → Type 0
Distinct [] = Unit
Distinct (name ∷ names) = (contains names name ≡ false) × Distinct names

-- None of the names is used.
abbrev pub AllNew : List Chars → List Chars → Type 0
AllNew used names = All (λ name. contains used name ≡ false) names

AllNew-drop :
    (name : Chars) (used names : List Chars) → AllNew (name ∷ used) names → AllNew used names
AllNew-drop name used names h = All-mono names (λ x e. ground arith) h

AllNew-contains :
    (name : Chars) (used names : List Chars)
    → AllNew (name ∷ used) names
    → contains names name ≡ false
AllNew-contains name used [] h = refl
AllNew-contains name used (x ∷ names) h = elim (Bool-cases (chars_eq name x)) [
  | inl same ↦
      absurd (let e = (chars_eq_iff x name).1 (sym ((chars_eq_iff name x).0 same)) in ground arith)
  | inr other ↦ rw other (AllNew-contains name used names h.1)
]

-- If numbers are added in ways that differ and are never empty, then naming fields one after
-- another ends, whatever their names and the names used before, with one round of the loop more
-- than there are names in all: no two of the fields have one name, and none has a name used before.
pub field_names-Distinct :
    (suffix : ℕ → Chars) (fuel : ℕ) (bases used : List Chars)
    → ((m n : ℕ) → suffix m ≡ suffix n → m ≡ n)
    → ((n : ℕ) → suffix n ≢ [])
    → length bases + length used < fuel
    → (names : List Chars) × (field_names suffix fuel bases used ≡ some names)
      × (length names ≡ length bases)
      × Distinct names
      × AllNew used names
unfolding field_names
field_names-Distinct suffix fuel [] used inj full enough = ([], refl, refl, tt, tt)
field_names-Distinct suffix fuel (base ∷ bases) used inj full enough =
    let (name, found, fresh) =
      unique_field_name-fresh suffix base inj full fuel used (omega arith) in
    let (names, rest, same, distinct, new) =
      field_names-Distinct suffix fuel bases (name ∷ used) inj full (omega arith) in
    (
      name ∷ names,
      rw (found, field_names, rest) refl,
      ap suc same,
      (AllNew-contains name used names new, distinct),
      (fresh, AllNew-drop name used names new),
    )
