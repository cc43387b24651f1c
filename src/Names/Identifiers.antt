-- ===== src/Names/Identifiers.antt =====
-- `pascal`, `camel` and `safe_model_name` of crates/specforge-ts/src/name.rs give identifiers.
use specforge_openapi_sdk_co.Prelude.{
  ℕ, ◌≡◌, ◌≢◌, refl, ap, length, length-append, Bool, true, false, not, ◌&&◌, ◌||◌, List, [], ◌∷◌,
  ◌++◌, nat_eq, if◌then◌else◌, all, Chars, codes, chars_eq, chars_eq_iff, is_one_of, is_digit,
  is_lower, is_alphabetic, is_alphanumeric, to_upper, to_lower, arith, Bool-cases, inl, inr, subst,
}
use mathlib.Core.Bool.{and-eq-true_iff}
use specforge_openapi_sdk_co.Names.{
  pascal_loop, guard_first, pascal, lower_first, camel, is_ts_sdk_builtin_type, safe_model_name,
  is_name_char, is_valid_identifier, is_reserved,
}
use specforge_openapi_sdk_co.Names.Words.{builtin_types, reserved}

to_upper-alphanumeric : (c : ℕ) → is_alphanumeric c ≡ true → is_alphanumeric (to_upper c) ≡ true
to_upper-alphanumeric c h = ground arith

to_upper-not_lower : (c : ℕ) → is_lower (to_upper c) ≡ false
to_upper-not_lower c = ground arith

-- The loop keeps ASCII letters and digits only.
pascal_loop-alphanumeric : (up : Bool) (s : Chars) → all is_alphanumeric (pascal_loop up s) ≡ true
unfolding pascal_loop
pascal_loop-alphanumeric up [] = refl
pascal_loop-alphanumeric up (c ∷ s) = elim (Bool-cases (is_alphanumeric c)) [
  | inl e ↦
      rw e
        (elim up
          as (λ u.
            (is_alphanumeric (if u then to_upper c else c)
              && all is_alphanumeric (pascal_loop false s))
            ≡ true) [
              | true ↦ rw (to_upper-alphanumeric c e) (pascal_loop-alphanumeric false s)
              | false ↦ rw e (pascal_loop-alphanumeric false s)
            ])
  | inr e ↦ rw e (pascal_loop-alphanumeric true s)
]

-- A first character that the loop may leave as it is.
abbrev StartsUpper : Chars → Type 0
StartsUpper [] = Unit
StartsUpper (c ∷ s) = is_lower c ≡ false

pascal_loop-StartsUpper : (s : Chars) → StartsUpper (pascal_loop true s)
unfolding pascal_loop
pascal_loop-StartsUpper [] = tt
pascal_loop-StartsUpper (c ∷ s) = elim (Bool-cases (is_alphanumeric c)) [
  | inl e ↦ rw e (to_upper-not_lower c)
  | inr e ↦ rw e (pascal_loop-StartsUpper s)
]

pascal_loop-keeps : (s : Chars) → all is_alphanumeric s ≡ true → pascal_loop false s ≡ s
unfolding pascal_loop
pascal_loop-keeps [] h = refl
pascal_loop-keeps (c ∷ s) h =
    let (here, later) = (and-eq-true_iff (is_alphanumeric c) (all is_alphanumeric s)).0 h in
    rw here (rw (pascal_loop-keeps s later))

to_upper-keeps : (c : ℕ) → is_lower c ≡ false → to_upper c ≡ c
to_upper-keeps c h = rw h

pascal_loop-keeps_first :
    (s : Chars) → all is_alphanumeric s ≡ true → StartsUpper s → pascal_loop true s ≡ s
unfolding pascal_loop
pascal_loop-keeps_first [] h u = refl
pascal_loop-keeps_first (c ∷ s) h u =
    let (here, later) = (and-eq-true_iff (is_alphanumeric c) (all is_alphanumeric s)).0 h in
    rw here (rw (pascal_loop-keeps s later, to_upper-keeps c u))

pub all_mono :
    (p q : ℕ → Bool) (s : Chars)
    → ((c : ℕ) → p c ≡ true → q c ≡ true)
    → all p s ≡ true
    → all q s ≡ true
all_mono p q [] f h = refl
all_mono p q (c ∷ s) f h =
    let (here, later) = (and-eq-true_iff (p c) (all p s)).0 h in
    (and-eq-true_iff (q c) (all q s)).1 (f c here, all_mono p q s f later)

alphanumeric-name_char : (c : ℕ) → is_alphanumeric c ≡ true → is_name_char c ≡ true
alphanumeric-name_char c h = ground arith

not_digit-alphabetic :
    (c : ℕ) → is_alphanumeric c ≡ true → is_digit c ≡ false → is_alphabetic c ≡ true
not_digit-alphabetic c h k = ground arith

guard_first-valid :
    (s : Chars) → all is_alphanumeric s ≡ true → is_valid_identifier (guard_first s) ≡ true
unfolding is_valid_identifier
guard_first-valid [] h = refl
guard_first-valid (c ∷ s) h =
    let (here, later) = (and-eq-true_iff (is_alphanumeric c) (all is_alphanumeric s)).0 h in
    let names = all_mono is_alphanumeric is_name_char s alphanumeric-name_char later in
    elim (Bool-cases (is_digit c)) [
      | inl e ↦ rw e (rw (alphanumeric-name_char c here) names)
      | inr e ↦ rw e (rw (not_digit-alphabetic c here e) names)
    ]

abbrev starts_name : ℕ → Bool
starts_name c = is_alphabetic c || nat_eq c b'_' || nat_eq c b'$'

to_lower-starts_name : (c : ℕ) → starts_name c ≡ true → starts_name (to_lower c) ≡ true
to_lower-starts_name c h = ground arith

lower_first-valid :
    (s : Chars) → is_valid_identifier s ≡ true → is_valid_identifier (lower_first s) ≡ true
unfolding is_valid_identifier
lower_first-valid [] h = absurd (cc)
lower_first-valid (c ∷ s) h =
    let (here, later) = (and-eq-true_iff (starts_name c) (all is_name_char s)).0 h in
    (and-eq-true_iff (starts_name (to_lower c)) (all is_name_char s)).1
      (to_lower-starts_name c here, later)

pub is_one_of-all :
    (p : Chars → Bool) (ws : List Chars) (s : Chars)
    → all p ws ≡ true
    → is_one_of ws s ≡ true
    → p s ≡ true
is_one_of-all p [] s h k = absurd (cc)
is_one_of-all p (w ∷ ws) s h k =
    let (here, later) = (and-eq-true_iff (p w) (all p ws)).0 h in
    elim (Bool-cases (chars_eq w s)) [
      | inl e ↦ subst (λ t. p t ≡ true) ((chars_eq_iff w s).0 e) here
      | inr e ↦ is_one_of-all p ws s later (rw e at k)
    ]

-- The first character of a reserved word is a small letter.
abbrev starts_lower : Chars → Bool
starts_lower [] = false
starts_lower (c ∷ s) = is_lower c

reserved-starts_lower : all starts_lower reserved ≡ true
unfolding reserved
reserved-starts_lower = refl

guard_first-not_lower : (s : Chars) → StartsUpper s → starts_lower (guard_first s) ≡ false
guard_first-not_lower [] h = refl
guard_first-not_lower (c ∷ s) h = elim (Bool-cases (is_digit c)) [
  | inl e ↦ rw e refl
  | inr e ↦ rw e h
]

not_lower-not_reserved : (s : Chars) → starts_lower s ≡ false → is_reserved s ≡ false
unfolding is_reserved
not_lower-not_reserved s h = elim (Bool-cases (is_one_of reserved s)) [
  | inl e ↦ absurd (cc (is_one_of-all starts_lower reserved s reserved-starts_lower e, h))
  | inr e ↦ e
]

-- Whatever the name in the spec, `pascal` gives what is written like an identifier and is no
-- reserved word, and `camel` gives what is written like an identifier; whether `camel` gives a
-- reserved word is left open.
pub pascal-camel-valid :
    (input : Chars)
    → (is_valid_identifier (pascal input) ≡ true)
      × (is_reserved (pascal input) ≡ false)
      × (is_valid_identifier (camel input) ≡ true)
unfolding pascal camel
pascal-camel-valid input =
    let word = pascal_loop true input in
    let valid = guard_first-valid word (pascal_loop-alphanumeric true input) in
    (
      valid,
      not_lower-not_reserved (guard_first word)
          (guard_first-not_lower word (pascal_loop-StartsUpper input)),
      lower_first-valid (guard_first word) valid,
    )

guard_first_idem :
    (s : Chars)
    → all is_alphanumeric s ≡ true
    → StartsUpper s
    → pascal (guard_first s) ≡ guard_first s
unfolding pascal
guard_first_idem [] h u = unfold pascal_loop in refl
guard_first_idem (c ∷ s) h u = elim (Bool-cases (is_digit c)) [
  | inl e ↦ rw e (rw (skip (c ∷ s)) (rw (pascal_loop-keeps_first (c ∷ s) h u) (rw e)))
  | inr e ↦ rw e (rw (pascal_loop-keeps_first (c ∷ s) h u) (rw e))
]
  where
    skip : (t : Chars) → pascal_loop true (b'_' ∷ t) ≡ pascal_loop true t
    skip t = unfold pascal_loop in refl

-- A name that `pascal` has made is left as it is by another `pascal`.
pascal_idem : (input : Chars) → pascal (pascal input) ≡ pascal input
pascal_idem input =
    unfold pascal in
    guard_first_idem (pascal_loop true input) (pascal_loop-alphanumeric true input)
      (pascal_loop-StartsUpper input)

abbrev suffixed_safe : Chars → Bool
suffixed_safe w = not (is_one_of builtin_types (w ++ codes "Model"))

builtins_suffixed : all suffixed_safe builtin_types ≡ true
unfolding builtin_types
builtins_suffixed = refl

pub not-eq-true : (b : Bool) → not b ≡ true → b ≡ false
not-eq-true b h = ground arith

suffixed_not_builtin :
    (name : Chars)
    → is_one_of builtin_types name ≡ true
    → is_one_of builtin_types (name ++ codes "Model") ≡ false
suffixed_not_builtin name e =
    not-eq-true _ (is_one_of-all suffixed_safe builtin_types name builtins_suffixed e)

-- A model's name is never one of those that `is_ts_sdk_builtin_type` lists.
pub safe_model_name-not_builtin :
    (name : Chars) → is_ts_sdk_builtin_type (safe_model_name name) ≡ false
unfolding safe_model_name is_ts_sdk_builtin_type
safe_model_name-not_builtin name = elim (Bool-cases (is_one_of builtin_types name)) [
  | inl e ↦ rw e (suffixed_not_builtin name e)
  | inr e ↦ rw e e
]

-- The guard makes collisions of its own: a model named like a built-in type gets the name of the
-- different model that already has the suffix.
pub safe_model_name_collides :
    (name : Chars)
    → is_ts_sdk_builtin_type name ≡ true
    → (safe_model_name name ≡ safe_model_name (name ++ codes "Model"))
      × (name ≢ name ++ codes "Model")
unfolding safe_model_name is_ts_sdk_builtin_type
safe_model_name_collides name e = (
  rw (e, suffixed_not_builtin name e),
  λ same. absurd (omega (arith, ap length same, length-append name (codes "Model"))),
)
