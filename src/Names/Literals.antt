-- ===== src/Names/Literals.antt =====
-- What a TypeScript reader makes of the literals and keys of crates/specforge-ts/src/name.rs.
use mathlib.Core.Bool.{and-eq-true_iff}
use specforge_openapi_sdk_co.Prelude.{
  ℕ, ◌≡◌, refl, ap, Bool, true, false, not, ◌&&◌, ◌||◌, Option, none, some, List, [], ◌∷◌, ◌++◌,
  nat_eq, leb, all, codes, is_one_of, if◌then◌else◌, All, Any, Chars, arith, Bool-cases, inl, inr,
  append_assoc,
}
use specforge_openapi_sdk_co.Names.{
  escape_quotes, string_literal, property_key, is_name_char, is_valid_identifier, is_reserved,
}
use specforge_openapi_sdk_co.Names.Words.{reserved}
use specforge_openapi_sdk_co.Names.Identifiers.{is_one_of-all, not-eq-true}

-- A line end may not stand in a string literal as it is.
abbrev pub is_line_end : ℕ → Bool
is_line_end c = nat_eq c 10 || nat_eq c 13

abbrev push_first : ℕ → Option (Chars × Chars) → Option (Chars × Chars)
push_first c none = none
push_first c (some (s, rest)) = some (c ∷ s, rest)

-- The text of a string literal up to its closing quote, and what follows. Of the escapes only
-- those of a quote and of a backslash are read.
mutual
  pub read_body : Chars → Option (Chars × Chars)
  read_body [] = none
  read_body (c ∷ s) =
      let after = read_escape s in
      let more = read_body s in
      if nat_eq c b'"'
      then some ([], s)
      else if nat_eq c b'\\'
      then after
      else if is_line_end c
      then none
      else push_first c more

  pub read_escape : Chars → Option (Chars × Chars)
  read_escape [] = none
  read_escape (c ∷ s) =
      let more = read_body s in if nat_eq c b'"' || nat_eq c b'\\' then push_first c more else none

pub read_literal : Chars → Option (Chars × Chars)
read_literal [] = none
read_literal (c ∷ s) = if nat_eq c b'"' then read_body s else none

-- Both replacements, in one pass.
abbrev escaped : Chars → Chars
escaped [] = []
escaped (c ∷ s) =
    let rest = escaped s in if nat_eq c b'"' || nat_eq c b'\\' then b'\\' ∷ c ∷ rest else c ∷ rest

-- The order of the two replacements does no harm: the backslashes that the second one adds are
-- not escaped again.
escape_quotes-escaped : (s : Chars) → escape_quotes s ≡ escaped s
unfolding escape_quotes
escape_quotes-escaped [] = refl
escape_quotes-escaped (c ∷ s) = ground (arith, escape_quotes-escaped s)

abbrev pub IsOneLine : Chars → Type 0
IsOneLine s = All (λ c. is_line_end c ≡ false) s

read_body-escaped :
    (s rest : Chars) → IsOneLine s → read_body (escaped s ++ (b'"' ∷ rest)) ≡ some (s, rest)
unfolding read_body
read_body-escaped [] rest h = refl
read_body-escaped (c ∷ s) rest (here, later) = elim (Bool-cases (nat_eq c b'"' || nat_eq c b'\\')) [
  | inl e ↦ rw e (rw e (rw (read_body-escaped s rest later)))
  | inr e ↦ ground (arith, read_body-escaped s rest later)
]

read_body-line_end :
    (s rest : Chars) → Any (λ c. is_line_end c ≡ true) s → read_body (escaped s ++ rest) ≡ none
unfolding read_body
read_body-line_end [] rest h = absurd h
read_body-line_end (c ∷ s) rest (inl here) = ground arith
read_body-line_end (c ∷ s) rest (inr later) = elim (Bool-cases (nat_eq c b'"' || nat_eq c b'\\')) [
  | inl e ↦ rw e (rw e (rw (read_body-line_end s rest later)))
  | inr e ↦ ground (arith, read_body-line_end s rest later)
]

quoted :
    (s rest : Chars)
    → (b'"' ∷ (escape_quotes s ++ b'"' ∷ [])) ++ rest ≡ b'"' ∷ (escaped s ++ (b'"' ∷ rest))
quoted s rest =
    rw (escape_quotes-escaped s) (ap (λ t. b'"' ∷ t) (append_assoc (escaped s) (b'"' ∷ []) rest))

-- The literal of a text on one line is read back as that text, whatever follows it.
pub string_literal-read :
    (value rest : Chars)
    → IsOneLine value
    → read_literal (string_literal value ++ rest) ≡ some (value, rest)
unfolding string_literal
string_literal-read value rest h =
    rw (quoted value rest) (unfold read_literal in read_body-escaped value rest h)

-- The literal of a text with a line end in it is no literal.
pub string_literal-line_end :
    (value rest : Chars)
    → Any (λ c. is_line_end c ≡ true) value
    → read_literal (string_literal value ++ rest) ≡ none
unfolding string_literal
string_literal-line_end value rest h =
    rw (quoted value rest) (unfold read_literal in read_body-line_end value (b'"' ∷ rest) h)

-- The words that ECMAScript reserves, in strict mode too. A reader that takes none of them for a
-- bare key takes fewer bare keys than the language does.
abbrev keywords : List Chars
keywords =
    codes "break"
    ∷ codes "case"
    ∷ codes "catch"
    ∷ codes "class"
    ∷ codes "const"
    ∷ codes "continue"
    ∷ codes "debugger"
    ∷ codes "default"
    ∷ codes "delete"
    ∷ codes "do"
    ∷ codes "else"
    ∷ codes "enum"
    ∷ codes "export"
    ∷ codes "extends"
    ∷ codes "false"
    ∷ codes "finally"
    ∷ codes "for"
    ∷ codes "function"
    ∷ codes "if"
    ∷ codes "implements"
    ∷ codes "import"
    ∷ codes "in"
    ∷ codes "instanceof"
    ∷ codes "interface"
    ∷ codes "let"
    ∷ codes "new"
    ∷ codes "null"
    ∷ codes "package"
    ∷ codes "private"
    ∷ codes "protected"
    ∷ codes "public"
    ∷ codes "return"
    ∷ codes "static"
    ∷ codes "super"
    ∷ codes "switch"
    ∷ codes "this"
    ∷ codes "throw"
    ∷ codes "true"
    ∷ codes "try"
    ∷ codes "typeof"
    ∷ codes "var"
    ∷ codes "void"
    ∷ codes "while"
    ∷ codes "with"
    ∷ codes "yield"
    ∷ []

abbrev is_word_char : ℕ → Bool
is_word_char c =
    (leb b'a' c && leb c b'z')
    || (leb b'A' c && leb c b'Z')
    || (leb b'0' c && leb c b'9')
    || nat_eq c b'_'
    || nat_eq c b'$'

-- The longest run of such characters, and what follows.
unfoldable pub read_word : Chars → Chars × Chars
read_word [] = ([], [])
read_word (c ∷ s) =
    let later = read_word s in if is_word_char c then (c ∷ later.0, later.1) else ([], c ∷ s)

-- A bare key is not empty, does not start with a digit, and is none of the keywords.
unfoldable pub bare_key : Chars → Chars → Option (Chars × Chars)
bare_key [] rest = none
bare_key (c ∷ s) rest =
    if (leb b'0' c && leb c b'9') || is_one_of keywords (c ∷ s) then none else some (c ∷ s, rest)

abbrev colon : Option (Chars × Chars) → Option (Chars × Chars)
colon (some (key, c ∷ rest)) = if nat_eq c b':' then some (key, rest) else none
colon _ = none

-- A key of an object and the colon after it: a literal, or a bare key.
unfoldable pub read_key : Chars → Option (Chars × Chars)
read_key [] = none
read_key (c ∷ s) =
    let word = read_word (c ∷ s) in
    if nat_eq c b'"' then colon (read_body s) else colon (bare_key word.0 word.1)

identifier-ne-quote :
    (c : ℕ) (s : Chars) → is_valid_identifier (c ∷ s) ≡ true → nat_eq c b'"' ≡ false
unfolding is_valid_identifier
identifier-ne-quote c s h = ground arith

identifier-ne-digit :
    (c : ℕ) (s : Chars) → is_valid_identifier (c ∷ s) ≡ true → (leb b'0' c && leb c b'9') ≡ false
unfolding is_valid_identifier
identifier-ne-digit c s h = ground arith

name_char-word_char : (c : ℕ) → is_name_char c ≡ true → is_word_char c ≡ true
name_char-word_char c h = ground arith

identifier-all_name_char : (s : Chars) → is_valid_identifier s ≡ true → all is_name_char s ≡ true
unfolding is_valid_identifier
identifier-all_name_char [] h = cc
identifier-all_name_char (c ∷ s) h = ground arith

read_word-name :
    (s rest : Chars) → all is_name_char s ≡ true → read_word (s ++ (b':' ∷ rest)) ≡ (s, b':' ∷ rest)
unfolding read_word
read_word-name [] rest h = refl
read_word-name (c ∷ s) rest h =
    let (here, later) = (and-eq-true_iff (is_name_char c) (all is_name_char s)).0 h in
    rw (name_char-word_char c here, read_word-name s rest later) refl

abbrev is_kept_away : Chars → Bool
is_kept_away w = is_reserved w

keywords-reserved : all is_kept_away keywords ≡ true
unfolding is_reserved reserved
keywords-reserved = refl

free-not_keyword : (s : Chars) → is_reserved s ≡ false → is_one_of keywords s ≡ false
free-not_keyword s h = elim (Bool-cases (is_one_of keywords s)) [
  | inl e ↦ absurd (cc (is_one_of-all is_kept_away keywords s keywords-reserved e, h))
  | inr e ↦ e
]

read_key-identifier :
    (name rest : Chars)
    → is_valid_identifier name ≡ true
    → is_reserved name ≡ false
    → read_key (name ++ (b':' ∷ rest)) ≡ some (name, rest)
unfolding read_key bare_key
read_key-identifier [] rest h free = absurd (unfold is_valid_identifier in cc)
read_key-identifier (c ∷ s) rest h free =
    rw
      (
        identifier-ne-quote c s h,
        read_word-name (c ∷ s) rest (identifier-all_name_char (c ∷ s) h),
        bare_key,
        identifier-ne-digit c s h,
        free-not_keyword (c ∷ s) free,
      )
      refl

-- The key for a property's name, with a colon after it, is read back as that name, if the name
-- stands on one line: either it is a literal, or it may stand there bare, being an identifier and
-- no keyword.
pub property_key-read :
    (name rest : Chars)
    → IsOneLine name
    → read_key (property_key name ++ (b':' ∷ rest)) ≡ some (name, rest)
unfolding property_key
property_key-read name rest h =
    elim (Bool-cases (is_valid_identifier name && not (is_reserved name))) [
      | inl e ↦
          let (valid, free) =
            (and-eq-true_iff (is_valid_identifier name) (not (is_reserved name))).0 e in
          rw e (read_key-identifier name rest valid (not-eq-true (is_reserved name) free))
      | inr e ↦ rw e (
          rw (quoted name (b':' ∷ rest))
            (unfold read_key in rw (read_body-escaped name (b':' ∷ rest) h) refl))
    ]

-- Two names on one line that get the same key are the same name.
property_key_injective :
    (a b : Chars) → IsOneLine a → IsOneLine b → property_key a ≡ property_key b → a ≡ b
property_key_injective a b h k same = cc (
  property_key-read a [] h,
  property_key-read b [] k,
  ap (λ key. read_key (key ++ (b':' ∷ []))) same,
)
