-- ===== src/GoSdk/Paths.antt =====
-- The paths and the parameter names of crates/specforge-go/src/lib.rs.
use specforge_openapi_sdk_co.Prelude.{
  ℕ, zero, suc, ◌<◌, arith, ◌≡◌, refl, sym, ap, ◌∙◌, Bool, true, not, some, List, [], ◌∷◌, ◌++◌,
  append_assoc, append-nil, nat_eq, nat_eq_iff, find, length, length-append, Chars, codes, chars_eq,
  chars_eq_iff, is_one_of, Bool-cases, Option-cases, inl, inr,
}
use specforge_openapi_sdk_co.Ir.{Parameter}
use specforge_openapi_sdk_co.GoSdk.{Part, split_on, push_literal, placeholder, path_parts}
use specforge_openapi_sdk_co.GoSdk.Words.{reserved}

-- The text of the path that a part stands for.
abbrev pub part_source : Part → Chars
part_source (Part.literal s) = s
part_source (Part.escaped p) = b'{' ∷ (codes p.name ++ codes "}")

abbrev pub source : List Part → Chars
source [] = []
source (p ∷ ps) = part_source p ++ source ps

split_on-parts :
    (d : ℕ) (s before after : Chars)
    → split_on d s ≡ some (before, after)
    → s ≡ before ++ (d ∷ after)
unfolding split_on
split_on-parts d [] before after e = absurd (cc)
split_on-parts d (c ∷ s) before after e = elim (Bool-cases (nat_eq c d)) [
  | inl here ↦ let f = rw here at e in let same = (nat_eq_iff c d).0 here in cc
  | inr other ↦ elim (Option-cases (split_on d s)) [
    | inl missing ↦ absurd (let f = rw (other, missing) at e in cc)
    | inr ((b, a), found) ↦
        let f = rw (other, found) at e in let ih = split_on-parts d s b a found in cc
  ]
]

source-push_literal :
    (lit : Chars) (parts : List Part) → source (push_literal lit parts) ≡ lit ++ source parts
source-push_literal [] parts = refl
source-push_literal (c ∷ lit) parts = refl

find-test : {A : Type 0} (p : A → Bool) (xs : List A) (x : A) → find p xs ≡ some x → p x ≡ true
find-test p [] x e = absurd (cc)
find-test p (y ∷ xs) x e = elim (Bool-cases (p y)) [
  | inl here ↦ let f = rw here at e in let same : y ≡ x = cc in rw (sym same) here
  | inr other ↦ find-test p xs x (rw other at e)
]

placeholder-source :
    (params : List Parameter) (name : Chars)
    → part_source (placeholder params name) ≡ b'{' ∷ (name ++ codes "}")
placeholder-source params name =
    elim (Option-cases (find (λ p. chars_eq (codes p.name) name) params)) [
      | inl missing ↦ rw (missing, part_source) refl
      | inr (p, found) ↦
          let same =
            (chars_eq_iff (codes p.name) name).0
              (find-test (λ q. chars_eq (codes q.name) name) params p found) in
          rw (found, part_source, same) refl
    ]

-- With one round of the loop more than the path has characters, the splitting of a path ends, and
-- its parts read one after another are the path: no text is lost, whether a brace is closed, and
-- whether a placeholder is a parameter.
pub path_parts-source :
    (fuel : ℕ) (params : List Parameter) (path : Chars)
    → length path < fuel
    → (parts : List Part) × (path_parts fuel params path ≡ some parts) × (source parts ≡ path)
unfolding path_parts
path_parts-source zero params path enough = absurd (omega arith)
path_parts-source (suc fuel) params path enough = elim (Option-cases (split_on b'{' path)) [
  | inl plain ↦ (
    push_literal path [],
    rw (plain, path_parts) refl,
    source-push_literal path [] ∙ append-nil path,
  )
  | inr ((lit, after), begun) ↦
      let opened = split_on-parts b'{' path lit after begun in
      elim (Option-cases (split_on b'}' after)) [
        | inl unclosed ↦ (
          push_literal lit (Part.literal (b'{' ∷ after) ∷ []),
          rw (begun, unclosed, path_parts) refl,
          source-push_literal lit _ ∙ ap (λ t. lit ++ (b'{' ∷ t)) (append-nil after) ∙ sym opened,
        )
        | inr ((name, rest), ended) ↦
            let closed = split_on-parts b'}' after name rest ended in
            let shorter : length rest < fuel = omega (
              arith,
              ap length opened,
              length-append lit (b'{' ∷ after),
              ap length closed,
              length-append name (b'}' ∷ rest),
            ) in
            let (parts, split, whole) = path_parts-source fuel params rest shorter in
            (
              push_literal lit (placeholder params name ∷ parts),
              rw (begun, ended, path_parts, split) refl,
              source-push_literal lit _
                  ∙ rw (placeholder-source params name, whole, opened, closed)
                      (ap (λ t. lit ++ (b'{' ∷ t)) (append_assoc name (codes "}") rest)),
            )
      ]
]

abbrev val_free : Chars → Bool
val_free w = not (is_one_of reserved (w ++ codes "Val"))
