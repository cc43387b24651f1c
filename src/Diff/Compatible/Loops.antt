-- ===== src/Diff/Compatible/Loops.antt =====
-- When a stretch of guarded findings holds none that breaks (crates/specforge-core/src/diff.rs).
use specforge_openapi_sdk_co.Prelude.{
  String, ◌≡◌, refl, ◌↔◌, Bool, true, false, not, ◌&&◌, some, List, ◌++◌, All, when, for_each,
  lookup, HasKey, keys, keys-In_iff, Order, All-for_each, All-append, All-iff, All-In, All_of_In,
  In, arith, iff_trans, iff_and, Option-cases, inl, inr,
}
use specforge_openapi_sdk_co.Diff.{DiffFinding, breaking, info, has_key}
use specforge_openapi_sdk_co.Diff.Compatible.Kept.{KeptWith}

abbrev pub IsInfo : DiffFinding → Type 0
IsInfo f = f.severity ≡ info

-- A guarded finding that breaks is absent exactly when its guard fails.
pub when-breaking_iff :
    (b : Bool) (f : DiffFinding) → f.severity ≡ breaking → All IsInfo (when b f) ↔ (b ≡ false)
when-breaking_iff true f e = (λ h. absurd (cc (e, h.0)), λ h. cc)
when-breaking_iff false f e = (λ h. refl, λ h. tt)

pub when_info : (b : Bool) (f : DiffFinding) → f.severity ≡ info → All IsInfo (when b f)
when_info true f e = (e, tt)
when_info false f e = tt

pub not-eq-false_iff : (b : Bool) → (not b ≡ false) ↔ (b ≡ true)
not-eq-false_iff b = ground arith

pub guarded_iff {ℓ} :
    {A : Type ℓ} (r b : Bool) → (b ≡ true) ↔ A → ((r && not b) ≡ false) ↔ (r ≡ true → A)
guarded_iff true true f = (λ h e. f.0 refl, λ h. refl)
guarded_iff true false f = (λ h. absurd (cc), λ h. absurd (cc (f.1 (h refl))))
guarded_iff false b f = (λ h e. absurd (cc), λ h. refl)

-- A loop of guarded breaking findings.
pub loop_iff {ℓ} :
    {A : Type ℓ} {P : A → Type 0} (guard : A → Bool) (f : A → DiffFinding) (xs : List A)
    → ((x : A) → (f x).severity ≡ breaking)
    → ((x : A) → (guard x ≡ false) ↔ P x)
    → All IsInfo (for_each (λ x. when (guard x) (f x)) xs) ↔ All P xs
loop_iff guard f xs breaks means =
    iff_trans (All-for_each IsInfo (λ x. when (guard x) (f x)) xs)
      (All-iff xs (λ x. iff_trans (when-breaking_iff (guard x) (f x) (breaks x)) (means x)))

-- Findings pushed by four stretches of code.
pub All-append_four {ℓ} :
    {A : Type ℓ} (Q : A → Type 0) {P₁ P₂ P₃ P₄ : Type 0} (a b c d : List A)
    → All Q a ↔ P₁
    → All Q b ↔ P₂
    → All Q c ↔ P₃
    → All Q d ↔ P₄
    → All Q (a ++ (b ++ (c ++ d))) ↔ (P₁ × (P₂ × (P₃ × P₄)))
All-append_four Q a b c d f g h k = iff_trans (All-append Q a (b ++ (c ++ d))) (
    iff_and f (
      iff_trans (All-append Q b (c ++ d)) (iff_and g (iff_trans (All-append Q c d) (iff_and h k)))))

pub has_key_iff :
    {V : Type 0} (k : String) (m : List (String × V)) → (has_key k m ≡ true) ↔ HasKey k m
has_key_iff k m = elim (Option-cases (lookup k m)) [
  | inl missing ↦ (λ h. absurd (ground arith), λ h. absurd (ground (arith, h.1)))
  | inr (v, found) ↦ (λ h. (v, found), λ h. rw found refl)
]

-- A loop over the keys of a map, in whatever order, runs for each key once or more.
pub keys_loop_iff :
    {V B : Type 0} (P : B → Type 0) (order : Order) (f : String → List B) (m : List (String × V))
    → All P (for_each f (order.arrange (keys m))) ↔ ((k : String) → HasKey k m → All P (f k))
keys_loop_iff P order f m =
    let ks = order.arrange (keys m) in
    iff_trans (All-for_each P f ks) (
      λ h k has.
          All-In (λ j. All P (f j)) ks h k
            ((order.arrange-In k (keys m)).1 ((keys-In_iff k m).1 has)),
      λ h.
          All_of_In (λ j. All P (f j)) ks
            (λ k mem. h k ((keys-In_iff k m).0 ((order.arrange-In k (keys m)).0 mem))),
    )

-- The three loops over two maps: entries lost, entries gained, entries that both have.
pub kept_iff :
    {V : Type 0} (P : V → V → Type 0) (order : Order)
    (lost gained shared : String → List DiffFinding) (old new : List (String × V))
    → ((k : String) → All IsInfo (lost k) ↔ HasKey k new)
    → ((k : String) → All IsInfo (gained k))
    → ((k : String) (o n : V)
        → lookup k old ≡ some o
        → lookup k new ≡ some n
        → All IsInfo (shared k) ↔ P o n)
    → (ks : List String) → ((k : String) → In k ks → HasKey k old)
    → ((k : String) → HasKey k old → HasKey k new → In k ks)
    → All IsInfo (
        for_each lost (order.arrange (keys old))
        ++ (for_each gained (order.arrange (keys new)) ++ for_each shared ks))
      ↔ KeptWith P old new
kept_iff P order lost gained shared old new loses gains shares ks within whole = (
  λ h k o found.
      let (removed, rest) = (All-append IsInfo _ _).0 h in
      let (added, both) = (All-append IsInfo _ _).0 rest in
      let (n, here) = (loses k).0 ((keys_loop_iff IsInfo order lost old).0 removed k (o, found)) in
      let pushed =
        All-In (λ j. All IsInfo (shared j)) ks ((All-for_each IsInfo shared ks).0 both) k
          (whole k (o, found) (n, here)) in
      (n, here, (shares k o n found here).0 pushed),
  λ c. (All-append IsInfo _ _).1 (
    (keys_loop_iff IsInfo order lost old).1
        (λ k has. (loses k).1 (let (n, here, _) = c k has.0 has.1 in (n, here))),
    (All-append IsInfo _ _).1 (
      (keys_loop_iff IsInfo order gained new).1 (λ k has. gains k),
      (All-for_each IsInfo shared ks).1 (
          All_of_In (λ j. All IsInfo (shared j)) ks
            (λ k mem.
              let has = within k mem in
              let (n, here, same) = c k has.0 has.1 in (shares k has.0 n has.1 here).1 same)),
    ),
  ),
)

-- The keys of a map, in whatever order, are the keys of the map.
pub arrange-keys_iff :
    {V : Type 0} (order : Order) (m : List (String × V)) (k : String)
    → In k (order.arrange (keys m)) ↔ HasKey k m
arrange-keys_iff order m k = iff_trans (order.arrange-In k (keys m)) (keys-In_iff k m)
