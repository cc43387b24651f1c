-- ===== src/RustSdk/Identifiers.antt =====
-- `snake` of crates/specforge-rust/src/lib.rs gives identifiers, and what `render_type` calls a
-- schema.
use specforge_openapi_sdk_co.Prelude.{
  ℕ, ◌≡◌, ◌<◌, refl, ap, Bool, true, false, not, ◌&&◌, ◌||◌, [], ◌∷◌, ◌++◌, nat_eq, ltb,
  if◌then◌else◌, all, Chars, codes, is_one_of, is_digit, is_upper, is_lower, is_alphanumeric,
  is_empty, to_lower, arith, Bool-cases, inl, inr,
}
use mathlib.Core.Bool.{and-eq-true_iff}
use specforge_openapi_sdk_co.Names.Identifiers.{is_one_of-all, not-eq-true}
use specforge_openapi_sdk_co.RustSdk.{
  Casing, is_underscore, minus_sign, expand, expand_all, ends_underscore, trim_start, trim_end,
  guard_snake, guard_reserved, snake_push, snake_loop, snake, is_rust_reserved,
}
use specforge_openapi_sdk_co.RustSdk.Words.{reserved}

-- The characters of a snake-case identifier.
abbrev pub is_snake_char : ℕ → Bool
is_snake_char c = is_lower c || is_digit c || is_underscore c

-- A letter, and then letters, digits and underscores.
abbrev pub is_snake_identifier : Chars → Bool
is_snake_identifier [] = false
is_snake_identifier (c ∷ s) = is_lower c && all is_snake_char s

abbrev pub is_ascii : ℕ → Bool
is_ascii c = ltb c 128

-- A character that `snake` reads as ASCII.
abbrev pub is_plain : ℕ → Bool
is_plain c = is_ascii c || nat_eq c minus_sign

pub all-append :
    (p : ℕ → Bool) (s t : Chars) → all p s ≡ true → all p t ≡ true → all p (s ++ t) ≡ true
all-append p [] t h k = k
all-append p (c ∷ s) t h k = ground (arith, all-append p s t)

expand-ascii : (c : ℕ) → is_plain c ≡ true → all is_ascii (expand c) ≡ true
unfolding expand
expand-ascii c h = ground arith

expand_all-ascii : (s : Chars) → all is_plain s ≡ true → all is_ascii (expand_all s) ≡ true
unfolding expand_all
expand_all-ascii [] h = refl
expand_all-ascii (c ∷ s) h =
    let (here, later) = (and-eq-true_iff (is_plain c) (all is_plain s)).0 h in
    all-append is_ascii (expand c) (expand_all s) (expand-ascii c here) (expand_all-ascii s later)

to_lower-snake_char : (c : ℕ) → is_upper c ≡ true → is_snake_char (to_lower c) ≡ true
to_lower-snake_char c h = ground arith

single : (p : ℕ → Bool) (c : ℕ) → p c ≡ true → all p (c ∷ []) ≡ true
single p c h = rw h refl

lead : (later : Bool) → all is_snake_char (if later then codes "_" else []) ≡ true
lead true = refl
lead false = refl

module _ (casing : Casing) where
  snake_push-snake_char :
      (later : Bool) (out : Chars) (c : ℕ)
      → is_ascii c ≡ true
      → all is_snake_char (snake_push casing later out c) ≡ true
  unfolding snake_push
  snake_push-snake_char later out c h =
      let small : c < 128 = ground arith in
      let upper = casing.is_uppercase_ascii c small in
      let lower = casing.to_lowercase_ascii c small in
      elim (Bool-cases (is_upper c)) [
        | inl capital ↦
            rw (upper, capital, lower)
              (all-append is_snake_char (if later then codes "_" else []) (to_lower c ∷ [])
                (lead later) (single is_snake_char (to_lower c) (to_lower-snake_char c capital)))
        | inr plain ↦ rw upper (elim (Bool-cases (is_alphanumeric c)) [
          | inl word ↦ rw (word, plain) (single is_snake_char c (ground arith))
          | inr other ↦
              rw (other, plain)
                (elim (Bool-cases (is_underscore c && not (ends_underscore out))) [
                  | inl push ↦ rw push refl
                  | inr skip ↦ rw skip refl
                ])
        ])
      ]

  snake_loop-snake_char :
      (later : Bool) (out s : Chars)
      → all is_snake_char out ≡ true
      → all is_ascii s ≡ true
      → all is_snake_char (snake_loop casing later out s) ≡ true
  unfolding snake_loop
  snake_loop-snake_char later out [] h k = h
  snake_loop-snake_char later out (c ∷ s) h k =
      let (here, rest) = (and-eq-true_iff (is_ascii c) (all is_ascii s)).0 k in
      snake_loop-snake_char true (out ++ snake_push casing later out c) s
        (all-append is_snake_char out (snake_push casing later out c) h
          (snake_push-snake_char later out c here))
        rest

-- A text of such characters that does not start with an underscore.
abbrev trimmed : Chars → Bool
trimmed [] = true
trimmed (c ∷ s) = not (is_underscore c) && all is_snake_char (c ∷ s)

trim_start-trimmed : (s : Chars) → all is_snake_char s ≡ true → trimmed (trim_start s) ≡ true
trim_start-trimmed [] h = refl
trim_start-trimmed (c ∷ s) h =
    let (here, later) = (and-eq-true_iff (is_snake_char c) (all is_snake_char s)).0 h in
    elim (Bool-cases (is_underscore c)) [
      | inl skip ↦ rw skip (trim_start-trimmed s later)
      | inr stop ↦
          rw stop (
            (and-eq-true_iff (not (is_underscore c)) (all is_snake_char (c ∷ s))).1
              (ap not stop, h))
    ]

trim_end-snake_char :
    (s : Chars) → all is_snake_char s ≡ true → all is_snake_char (trim_end s) ≡ true
trim_end-snake_char [] h = refl
trim_end-snake_char (c ∷ s) h =
    let (here, later) = (and-eq-true_iff (is_snake_char c) (all is_snake_char s)).0 h in
    elim (Bool-cases (is_underscore c && is_empty (trim_end s))) [
      | inl gone ↦ rw gone refl
      | inr kept ↦ rw kept (
          (and-eq-true_iff (is_snake_char c) (all is_snake_char (trim_end s))).1
            (here, trim_end-snake_char s later))
    ]

trim_end-trimmed : (s : Chars) → trimmed s ≡ true → trimmed (trim_end s) ≡ true
trim_end-trimmed [] h = refl
trim_end-trimmed (c ∷ s) h =
    let (first, word) = (and-eq-true_iff (not (is_underscore c)) (all is_snake_char (c ∷ s))).0 h in
    let (here, later) = (and-eq-true_iff (is_snake_char c) (all is_snake_char s)).0 word in
    let bare = not-eq-true (is_underscore c) first in
    let rest = trim_end-snake_char s later in
    rw bare (
      (and-eq-true_iff (not (is_underscore c)) (all is_snake_char (c ∷ trim_end s))).1 (
        first,
        (and-eq-true_iff (is_snake_char c) (all is_snake_char (trim_end s))).1 (here, rest),
      ))

guard_snake-identifier : (s : Chars) → trimmed s ≡ true → is_snake_identifier (guard_snake s) ≡ true
guard_snake-identifier [] h = refl
guard_snake-identifier (c ∷ s) h = elim (Bool-cases (is_digit c)) [
  | inl digit ↦
      rw digit ((and-eq-true_iff (not (is_underscore c)) (all is_snake_char (c ∷ s))).0 h).1
  | inr letter ↦
      let (first, word) =
        (and-eq-true_iff (not (is_underscore c)) (all is_snake_char (c ∷ s))).0 h in
      let (here, later) = (and-eq-true_iff (is_snake_char c) (all is_snake_char s)).0 word in
      rw letter ((and-eq-true_iff (is_lower c) (all is_snake_char s)).1 (ground arith, later))
]

abbrev suffixed_free : Chars → Bool
suffixed_free w = not (is_one_of reserved (w ++ codes "_"))

reserved-suffixed : all suffixed_free reserved ≡ true
unfolding reserved
reserved-suffixed = refl

guard_reserved-free : (s : Chars) → is_rust_reserved (guard_reserved s) ≡ false
unfolding guard_reserved is_rust_reserved
guard_reserved-free s = elim (Bool-cases (is_one_of reserved s)) [
  | inl taken ↦
      rw taken (not-eq-true _ (is_one_of-all suffixed_free reserved s reserved-suffixed taken))
  | inr free ↦ rw free free
]

guard_reserved-identifier :
    (s : Chars) → is_snake_identifier s ≡ true → is_snake_identifier (guard_reserved s) ≡ true
unfolding guard_reserved
guard_reserved-identifier [] h = absurd (cc)
guard_reserved-identifier (c ∷ s) h = elim (Bool-cases (is_rust_reserved (c ∷ s))) [
  | inl taken ↦
      let (here, later) = (and-eq-true_iff (is_lower c) (all is_snake_char s)).0 h in
      rw taken (
        (and-eq-true_iff (is_lower c) (all is_snake_char (s ++ codes "_"))).1
          (here, all-append is_snake_char s (codes "_") later refl))
  | inr free ↦ rw free h
]

-- If a name has only ASCII characters and minus signs, `snake` makes of it a small letter followed
-- by small letters, digits and underscores, and that is no reserved word.
pub snake-identifier :
    (casing : Casing) (input : Chars)
    → all is_plain input ≡ true
    → (is_snake_identifier (snake casing input) ≡ true)
      × (is_rust_reserved (snake casing input) ≡ false)
unfolding snake
snake-identifier casing input plain =
    let written = snake_loop casing false [] (expand_all input) in
    let bare = trim_end (trim_start written) in
    (
      guard_reserved-identifier (guard_snake bare) (
          guard_snake-identifier bare (
            trim_end-trimmed (trim_start written) (
              trim_start-trimmed written (
                snake_loop-snake_char casing false [] (expand_all input) refl
                  (expand_all-ascii input plain))))),
      guard_reserved-free (guard_snake bare),
    )
