-- ===== src/Analyzer/Mentions.antt =====
-- What the collecting of references in crates/specforge-core/src/analyzer.rs adds to a set.
use specforge_openapi_sdk_co.Prelude.{
  subst, String, ◌≡◌, ◌↔◌, ◌⊎◌, true, Option, none, some, List, [], ◌∷◌, In, Any, any_iff, Any-iff,
  eq_iff, Bool-cases, inl, inr, iff_trans,
}
use specforge_openapi_sdk_co.Ir.{IrType, IrTypes, Model, Response, Operation, Webhook, Document}
use specforge_openapi_sdk_co.Analyzer.{
  contains, add, loop, if_some, collect_refs_from_type, collect_refs_from_members,
  collect_refs_from_model, collect_response, collect_operation, collect_webhook,
  referenced_directly,
}

-- The type has a reference to `x` in it.
abbrev mutual
  pub Mentions : String → IrType → Type 0
  Mentions x (IrType.reference name _ _) = name ≡ x
  Mentions x (IrType.array item _) = Mentions x item
  Mentions x (IrType.map value) = Mentions x value
  Mentions x (IrType.composition _ ms _) = MembersMention x ms
  Mentions x _ = ⊥

  pub MembersMention : String → IrTypes → Type 0
  MembersMention x IrTypes.nil = ⊥
  MembersMention x (IrTypes.cons m ms) = Mentions x m ⊎ MembersMention x ms

abbrev pub Some : {A : Type 0} → (A → Type 0) → Option A → Type 0
Some P none = ⊥
Some P (some a) = P a

-- The parts of an object that may refer to a schema; an enumeration has none.
abbrev pub ModelMentions : String → Model → Type 0
ModelMentions x (Model.object o) =
    ((Any (λ p. Mentions x p.ty) o.properties ⊎ Some (Mentions x) o.additional_properties)
      ⊎ Some (Mentions x) o.shape_type)
    ⊎ Some (Mentions x) o.base_type
ModelMentions x (Model.enumeration e) = ⊥

abbrev pub ResponseMentions : String → Response → Type 0
ResponseMentions x r = Some (Mentions x) r.body

abbrev pub OperationMentions : String → Operation → Type 0
OperationMentions x op =
    Some (λ b. Mentions x b.ty) op.request_body ⊎ Any (ResponseMentions x) op.responses

abbrev pub WebhookMentions : String → Webhook → Type 0
WebhookMentions x wh =
    Some (λ b. Mentions x b.ty) wh.request_body ⊎ Any (ResponseMentions x) wh.responses

-- A request or response body of an operation or of a webhook refers to `x`.
abbrev pub DocumentMentions : Document → String → Type 0
DocumentMentions doc x =
    Any (OperationMentions x) doc.operations ⊎ Any (WebhookMentions x) doc.webhooks

pub contains_iff : (s : List String) (x : String) → (contains s x ≡ true) ↔ In x s
contains_iff s x = iff_trans (any_iff _ s) (Any-iff s (λ y. eq_iff y x))

-- `f` adds to a set just what `M` says.
pub record Adds (f : List String → List String) (M : String → Type 0) : Type 0 where
  pub adds : (s : List String) (x : String) → In x (f s) ↔ (In x s ⊎ M x)

or_none : {A : Type 0} → A ↔ (A ⊎ ⊥)
or_none = (inl, elim [ inl a ↦ a | inr b ↦ absurd b ])

or_assoc : {A B C : Type 0} → ((A ⊎ B) ⊎ C) ↔ (A ⊎ (B ⊎ C))
or_assoc = (
  elim [ inl ab ↦ elim ab [ inl a ↦ inl a | inr b ↦ inr (inl b) ] | inr c ↦ inr (inr c) ],
  elim [ inl a ↦ inl (inl a) | inr bc ↦ elim bc [ inl b ↦ inl (inr b) | inr c ↦ inr c ] ],
)

or_left : {A B C : Type 0} → A ↔ B → (A ⊎ C) ↔ (B ⊎ C)
or_left f =
    (elim [ inl a ↦ inl (f.0 a) | inr c ↦ inr c ], elim [ inl b ↦ inl (f.1 b) | inr c ↦ inr c ])

then-Adds :
    {f g : List String → List String} {M N : String → Type 0}
    → Adds f M
    → Adds g N
    → Adds (λ s. g (f s)) (λ x. M x ⊎ N x)
then-Adds {f} h k = record {
  adds = λ s x. iff_trans (k.adds (f s) x) (iff_trans (or_left (h.adds s x)) or_assoc);
}

nothing-Adds : Adds (λ s. s) (λ x. ⊥)
nothing-Adds = record { adds = λ s x. or_none }

add_iff : (name : String) (s : List String) (x : String) → In x (add name s) ↔ (In x s ⊎ (name ≡ x))
add_iff name s x = elim (Bool-cases (contains s name)) [
  | inl e ↦
      rw e
        (inl, elim [ inl m ↦ m | inr same ↦ subst (λ y. In y s) same ((contains_iff s name).0 e) ])
  | inr e ↦
      rw e
        (elim [ inl same ↦ inr same | inr m ↦ inl m ], elim [ inl m ↦ inr m | inr same ↦ inl same ])
]

add-Adds : (name : String) → Adds (add name) (λ x. name ≡ x)
add-Adds name = record { adds = add_iff name }

loop-Adds :
    {A : Type 0} {f : A → List String → List String} {M : String → A → Type 0}
    → ((a : A) → Adds (f a) (λ x. M x a))
    → (xs : List A) → Adds (loop f xs) (λ x. Any (M x) xs)
loop-Adds h [] = nothing-Adds
loop-Adds h (a ∷ xs) = then-Adds (h a) (loop-Adds h xs)

if_some-Adds :
    {A : Type 0} {f : A → List String → List String} {M : String → A → Type 0}
    → ((a : A) → Adds (f a) (λ x. M x a))
    → (o : Option A) → Adds (if_some f o) (λ x. Some (M x) o)
if_some-Adds h none = nothing-Adds
if_some-Adds h (some a) = h a

mutual
  unfolding collect_refs_from_type

  type-Adds : (ty : IrType) → Adds (collect_refs_from_type ty) (λ x. Mentions x ty)
  type-Adds (IrType.reference name _ _) = add-Adds name
  type-Adds (IrType.array item _) = type-Adds item
  type-Adds (IrType.map value) = type-Adds value
  type-Adds (IrType.composition _ ms _) = members-Adds ms
  type-Adds (IrType.scalar _) = nothing-Adds
  type-Adds (IrType.string_enum _ _) = nothing-Adds
  type-Adds IrType.any = nothing-Adds
  type-Adds IrType.unknown = nothing-Adds

  members-Adds : (ms : IrTypes) → Adds (collect_refs_from_members ms) (λ x. MembersMention x ms)
  members-Adds IrTypes.nil = nothing-Adds
  members-Adds (IrTypes.cons m ms) = then-Adds (type-Adds m) (members-Adds ms)

pub model-Adds : (m : Model) → Adds (collect_refs_from_model m) (λ x. ModelMentions x m)
unfolding collect_refs_from_model
model-Adds (Model.object o) =
    then-Adds
      (then-Adds
        (then-Adds (loop-Adds (λ p. type-Adds p.ty) o.properties)
          (if_some-Adds type-Adds o.additional_properties))
        (if_some-Adds type-Adds o.shape_type))
      (if_some-Adds type-Adds o.base_type)
model-Adds (Model.enumeration e) = nothing-Adds

response-Adds : (r : Response) → Adds (collect_response r) (λ x. ResponseMentions x r)
response-Adds r = if_some-Adds type-Adds r.body

operation-Adds : (op : Operation) → Adds (collect_operation op) (λ x. OperationMentions x op)
operation-Adds op =
    then-Adds (if_some-Adds (λ b. type-Adds b.ty) op.request_body)
      (loop-Adds response-Adds op.responses)

webhook-Adds : (wh : Webhook) → Adds (collect_webhook wh) (λ x. WebhookMentions x wh)
webhook-Adds wh =
    then-Adds (if_some-Adds (λ b. type-Adds b.ty) wh.request_body)
      (loop-Adds response-Adds wh.responses)

pub referenced_directly_iff :
    (doc : Document) (x : String) → In x (referenced_directly doc) ↔ DocumentMentions doc x
unfolding referenced_directly
referenced_directly_iff doc x =
    iff_trans
      ((then-Adds (loop-Adds operation-Adds doc.operations)
          (loop-Adds webhook-Adds doc.webhooks)).adds
        [] x)
      (elim [ inl n ↦ absurd n | inr m ↦ m ], inr)
