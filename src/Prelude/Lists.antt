-- ===== src/Prelude/Lists.antt =====
-- Iterator chains on lists, and the predicates that say what they compute.
use Prim.Native.Nat.{ℕ, suc, ◌+◌}
use mathlib.Core.Path.{◌≡◌, refl, sym, subst}
use mathlib.Core.Logic.{◌↔◌, ◌⊎◌, inl, inr}
use mathlib.Core.Bool.{Bool, true, false, ◌&&◌, ◌||◌, false≢true}
use mathlib.Core.Option.{Option, none, some}
use mathlib.Core.List.{List, [], ◌∷◌, ◌++◌, append_assoc, append-nil}
use native.Mathlib.Omega.{arith}
use specforge_openapi_sdk_co.Prelude.Tests.{if◌then◌else◌, Bool-cases}

module _ {ℓ} {A : Type ℓ} where
  abbrev pub length : List A → ℕ
  length [] = 0
  length (x ∷ xs) = suc (length xs)

  -- `iter().any(p)`
  abbrev pub any : (A → Bool) → List A → Bool
  any p [] = false
  any p (x ∷ xs) = p x || any p xs

  -- `iter().all(p)`
  abbrev pub all : (A → Bool) → List A → Bool
  all p [] = true
  all p (x ∷ xs) = p x && all p xs

  -- `iter().find(p)`
  abbrev pub find : (A → Bool) → List A → Option A
  find p [] = none
  find p (x ∷ xs) = if p x then some x else find p xs

  -- `iter().filter(p)`
  abbrev pub select : (A → Bool) → List A → List A
  select p [] = []
  select p (x ∷ xs) = let rest = select p xs in if p x then x ∷ rest else rest

  -- `is_empty()`
  abbrev pub is_empty : List A → Bool
  is_empty [] = true
  is_empty (x ∷ xs) = false

  -- `first()`
  abbrev pub first : List A → Option A
  first [] = none
  first (x ∷ xs) = some x

-- `for x in xs { … push … }`, as the list of what the rounds push.
abbrev pub for_each {ℓ κ} : {A : Type ℓ} {B : Type κ} → (A → List B) → List A → List B
for_each f [] = []
for_each f (x ∷ xs) = f x ++ for_each f xs

-- `iter().map(f).collect()`
abbrev pub map_list {ℓ κ} : {A : Type ℓ} {B : Type κ} → (A → B) → List A → List B
map_list f [] = []
map_list f (x ∷ xs) = f x ∷ map_list f xs

-- `if b { push(x) }`
abbrev pub when {ℓ} : {A : Type ℓ} → Bool → A → List A
when b x = if b then x ∷ [] else []

module _ {ℓ} {A : Type ℓ} (P : A → Type 0) where
  abbrev pub All : List A → Type 0
  All [] = Unit
  All (x ∷ xs) = P x × All xs

  abbrev pub Any : List A → Type 0
  Any [] = ⊥
  Any (x ∷ xs) = P x ⊎ Any xs

abbrev pub In : {A : Type 0} → A → List A → Type 0
In a xs = Any (λ x. x ≡ a) xs

module _ {ℓ} {A : Type ℓ} (P : A → Type 0) where
  pub All-append : (xs ys : List A) → All P (xs ++ ys) ↔ (All P xs × All P ys)
  All-append [] ys = (λ h. (tt, h), λ h. h.1)
  All-append (x ∷ xs) ys = (
    λ h. let (a, b) = (All-append xs ys).0 h.1 in ((h.0, a), b),
    λ h. (h.0.0, (All-append xs ys).1 (h.0.1, h.1)),
  )

  pub Any-append : (xs ys : List A) → Any P (xs ++ ys) ↔ (Any P xs ⊎ Any P ys)
  Any-append [] ys = (inr, elim [ inl h ↦ absurd h | inr h ↦ h ])
  Any-append (x ∷ xs) ys = (
    elim [
      | inl h ↦ inl (inl h)
      | inr h ↦ elim ((Any-append xs ys).0 h) [ inl a ↦ inl (inr a) | inr b ↦ inr b ]
    ],
    elim [
      | inl h ↦ elim h [ inl a ↦ inl a | inr b ↦ inr ((Any-append xs ys).1 (inl b)) ]
      | inr h ↦ inr ((Any-append xs ys).1 (inr h))
    ],
  )

module _ {ℓ} {A : Type ℓ} {P : A → Type 0} where
  pub All-mono : {Q : A → Type 0} (xs : List A) → ((x : A) → P x → Q x) → All P xs → All Q xs
  All-mono [] f h = tt
  All-mono (x ∷ xs) f h = (f x h.0, All-mono xs f h.1)

  pub Any-mono : {Q : A → Type 0} (xs : List A) → ((x : A) → P x → Q x) → Any P xs → Any Q xs
  Any-mono [] f h = h
  Any-mono (x ∷ xs) f (inl h) = inl (f x h)
  Any-mono (x ∷ xs) f (inr h) = inr (Any-mono xs f h)

module _ {ℓ} {A : Type ℓ} {P Q : A → Type 0} where
  pub All-iff : (xs : List A) → ((x : A) → P x ↔ Q x) → All P xs ↔ All Q xs
  All-iff xs f = (All-mono xs (λ x. (f x).0), All-mono xs (λ x. (f x).1))

  pub Any-iff : (xs : List A) → ((x : A) → P x ↔ Q x) → Any P xs ↔ Any Q xs
  Any-iff xs f = (Any-mono xs (λ x. (f x).0), Any-mono xs (λ x. (f x).1))

-- A predicate on all that a loop pushes is a predicate on each round.
pub All-for_each {ℓ κ} :
    {A : Type ℓ} {B : Type κ} (P : B → Type 0) (f : A → List B) (xs : List A)
    → All P (for_each f xs) ↔ All (λ x. All P (f x)) xs
All-for_each P f [] = (λ h. tt, λ h. tt)
All-for_each P f (x ∷ xs) = (
  λ h. let (a, b) = (All-append P (f x) (for_each f xs)).0 h in (a, (All-for_each P f xs).0 b),
  λ h. (All-append P (f x) (for_each f xs)).1 (h.0, (All-for_each P f xs).1 h.1),
)

module _ {A : Type 0} (P : A → Type 0) where
  pub All-In : (xs : List A) → All P xs → (x : A) → In x xs → P x
  All-In [] h x m = absurd m
  All-In (y ∷ xs) h x (inl e) = subst P e h.0
  All-In (y ∷ xs) h x (inr m) = All-In xs h.1 x m

  pub All_of_In : (xs : List A) → ((x : A) → In x xs → P x) → All P xs
  All_of_In [] h = tt
  All_of_In (x ∷ xs) h = (h x (inl refl), All_of_In xs (λ y m. h y (inr m)))

  pub Any-of_In : (xs : List A) (x : A) → In x xs → P x → Any P xs
  Any-of_In [] x m h = absurd m
  Any-of_In (y ∷ xs) x (inl e) h = inl (subst P (sym e) h)
  Any-of_In (y ∷ xs) x (inr m) h = inr (Any-of_In xs x m h)

  pub Any-In : (xs : List A) → Any P xs → (x : A) × In x xs × P x
  Any-In [] h = absurd h
  Any-In (x ∷ xs) (inl h) = (x, inl refl, h)
  Any-In (x ∷ xs) (inr h) = let (y, m, p) = Any-In xs h in (y, inr m, p)

module _ {ℓ} {A : Type ℓ} (p : A → Bool) where
  pub any_iff : (xs : List A) → (any p xs ≡ true) ↔ Any (λ x. p x ≡ true) xs
  any_iff [] = (λ h. absurd (false≢true h), λ h. absurd h)
  any_iff (x ∷ xs) = elim (Bool-cases (p x)) [
    | inl e ↦ rw e (λ h. inl refl, λ h. refl)
    | inr e ↦ rw e (
      λ h. inr ((any_iff xs).0 h),
      elim [ inl h ↦ absurd (false≢true h) | inr h ↦ (any_iff xs).1 h ],
    )
  ]

  pub any-false_iff : (xs : List A) → (any p xs ≡ false) ↔ All (λ x. p x ≡ false) xs
  any-false_iff [] = (λ h. tt, λ h. refl)
  any-false_iff (x ∷ xs) = (
    λ h. (ground arith, (any-false_iff xs).0 (ground arith)),
    λ h. ground (arith, (any-false_iff xs).1 h.1),
  )

  pub find-some : (a : A) (xs : List A) → find p xs ≡ some a → p a ≡ true
  find-some a [] h = cc
  find-some a (x ∷ xs) h = ground (arith, find-some a xs)

  pub find_none_iff : (xs : List A) → (find p xs ≡ none) ↔ All (λ x. p x ≡ false) xs
  find_none_iff [] = (λ h. tt, λ h. refl)
  find_none_iff (x ∷ xs) = (
    λ h. (ground arith, (find_none_iff xs).0 (ground arith)),
    λ h. ground (arith, (find_none_iff xs).1 h.1),
  )

pub find-In : {A : Type 0} (p : A → Bool) {a : A} (xs : List A) → find p xs ≡ some a → In a xs
find-In p [] h = absurd (cc)
find-In p {a} (x ∷ xs) h = elim (Bool-cases (p x)) [
  | inl e ↦ inl (ground arith)
  | inr e ↦ inr (find-In p xs (ground arith))
]

module _ {ℓ} {A : Type ℓ} where
  pub length-append : (xs ys : List A) → length (xs ++ ys) ≡ length xs + length ys
  length-append [] ys = omega arith
  length-append (x ∷ xs) ys = omega (arith, length-append xs ys)

pub for_each-append {ℓ κ} :
    {A : Type ℓ} {B : Type κ} (f : A → List B) (xs ys : List A)
    → for_each f (xs ++ ys) ≡ for_each f xs ++ for_each f ys
for_each-append f [] ys = refl
for_each-append f (x ∷ xs) ys = rw (for_each-append f xs ys) (sym (append_assoc (f x) _ _))

pub In-select_iff :
    {A : Type 0} (p : A → Bool) (k : A) (ks : List A)
    → In k (select p ks) ↔ (In k ks × (p k ≡ true))
In-select_iff p k [] = (λ h. absurd h, λ h. h.0)
In-select_iff p k (j ∷ ks) = elim (Bool-cases (p j)) [
  | inl e ↦ rw e (
    elim [
      | inl same ↦ (inl same, subst (λ i. p i ≡ true) same e)
      | inr later ↦ let (here, test) = (In-select_iff p k ks).0 later in (inr here, test)
    ],
    λ h. elim (h.0) [
      | inl same ↦ inl same
      | inr later ↦ inr ((In-select_iff p k ks).1 (later, h.1))
    ],
  )
  | inr e ↦ rw e (
    λ h. let (here, test) = (In-select_iff p k ks).0 h in (inr here, test),
    λ h. elim (h.0) [
      | inl same ↦ absurd (cc (e, h.1, same))
      | inr later ↦ (In-select_iff p k ks).1 (later, h.1)
    ],
  )
]

-- Lists that are appended in another order, or whose loops are split.
pub ruleset list_laws = (append_assoc, append-nil, length-append, for_each-append)
