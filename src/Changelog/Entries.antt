-- ===== src/Changelog/Entries.antt =====
-- The operation entries that crates/specforge-core/src/changelog.rs makes of the findings.
use specforge_openapi_sdk_co.Prelude.{
  String, ◌≡◌, refl, true, Option, some, List, [], ◌∷◌, ◌++◌, In, Any, Any-append, arith, inl, inr,
  Bool-cases, Option-cases, strip_prefix, ◌==◌,
}
use specforge_openapi_sdk_co.Ir.{Operation, Document}
use specforge_openapi_sdk_co.Diff.{DiffSeverity, DiffFinding}
use specforge_openapi_sdk_co.Diff.Version.{before_dot}
use specforge_openapi_sdk_co.Changelog.{
  ChangeImpact, ChangeType, OperationEntry, classify_finding, entry_of, extend_entry, update_entry,
  has_entry, modify, modification, addition, removal, record_finding, record_findings,
  build_operation_entries_from_findings,
}

-- The entry reports a breaking change with that message.
abbrev Reports : String → OperationEntry → Type 0
Reports message e = (e.impact ≡ ChangeImpact.breaking) × In message e.details

module _ (message : String) where
  extend-Reports :
      (g : DiffFinding) (e : OperationEntry)
      → Reports message e
      → Reports message (extend_entry g e)
  extend-Reports g e (impact, mem) = (ground arith, (Any-append _ e.details _).1 (inl mem))

  update-Reports :
      (g : DiffFinding) (id : String) (es : List OperationEntry)
      → Any (Reports message) es
      → Any (Reports message) (update_entry id (extend_entry g) es)
  unfolding update_entry
  update-Reports g id [] h = h
  update-Reports g id (e ∷ es) h = elim (Bool-cases (e.operation_id == id)) [
    | inl same ↦
        rw same (elim h [ inl here ↦ inl (extend-Reports g e here) | inr later ↦ inr later ])
    | inr other ↦
        rw other (elim h [ inl here ↦ inl here | inr later ↦ inr (update-Reports g id es later) ])
  ]

  pushed-Reports :
      (es : List OperationEntry) (e : OperationEntry)
      → Any (Reports message) es
      → Any (Reports message) (es ++ e ∷ [])
  pushed-Reports es e h = (Any-append _ es _).1 (inl h)

  modify-Reports :
      (doc : Document) (g : DiffFinding) (id : String) (es : List OperationEntry)
      → Any (Reports message) es
      → Any (Reports message) (modify doc g id es)
  modify-Reports doc g id es h = elim (Bool-cases (has_entry id es)) [
    | inl e ↦ rw e (update-Reports g id es h)
    | inr e ↦ rw e (pushed-Reports es _ h)
  ]

  modification-Reports :
      (doc : Document) (g : DiffFinding) (o : Option String) (es : List OperationEntry)
      → Any (Reports message) es
      → Any (Reports message) (modification doc g o es)
  modification-Reports doc g Option.none es h = h
  modification-Reports doc g (some rest) es h = modify-Reports doc g (before_dot rest) es h

  addition-Reports :
      (doc : Document) (g : DiffFinding) (o : Option String) (es : List OperationEntry)
      → Any (Reports message) es
      → Any (Reports message) (addition doc g o es)
  addition-Reports doc g (some id) es h = pushed-Reports es _ h
  addition-Reports doc g Option.none es h = modification-Reports doc g _ es h

  removal-Reports :
      (doc : Document) (g : DiffFinding) (o : Option String) (es : List OperationEntry)
      → Any (Reports message) es
      → Any (Reports message) (removal doc g o es)
  removal-Reports doc g (some id) es h = pushed-Reports es _ h
  removal-Reports doc g Option.none es h = addition-Reports doc g _ es h

  findings-Report :
      (doc : Document) (fs : List DiffFinding) (es : List OperationEntry)
      → Any (Reports message) es
      → Any (Reports message) (record_findings doc fs es)
  unfolding record_findings record_finding
  findings-Report doc [] es h = h
  findings-Report doc (g ∷ fs) es h = findings-Report doc fs _ (removal-Reports doc g _ es h)

entry_of-Reports :
    (o : Option Operation) (id : String) (change : ChangeType) (message : String)
    → Reports message (entry_of o id change ChangeImpact.breaking message)
entry_of-Reports Option.none id change message = (refl, inl refl)
entry_of-Reports (some op) id change message = (refl, inl refl)

module _ (doc : Document) (f : DiffFinding) (breaks : f.severity ≡ DiffSeverity.breaking) where
  classified : classify_finding f ≡ ChangeImpact.breaking
  unfolding classify_finding
  classified = ground arith

  extended : (e : OperationEntry) → Reports f.message (extend_entry f e)
  extended e = (rw classified refl, (Any-append _ e.details _).1 (inr (inl refl)))

  updated :
      (id : String) (es : List OperationEntry)
      → has_entry id es ≡ true
      → Any (Reports f.message) (update_entry id (extend_entry f) es)
  unfolding update_entry
  updated id [] h = absurd (cc)
  updated id (e ∷ es) h = elim (Bool-cases (e.operation_id == id)) [
    | inl same ↦ rw same (inl (extended e))
    | inr other ↦ rw other (inr (updated id es (rw other at h)))
  ]

  pushed :
      (o : Option Operation) (id : String) (change : ChangeType) (es : List OperationEntry)
      → Any (Reports f.message) (es ++ entry_of o id change ChangeImpact.breaking f.message ∷ [])
  pushed o id change es = (Any-append _ es _).1 (inr (inl (entry_of-Reports o id change f.message)))

  modified : (id : String) (es : List OperationEntry) → Any (Reports f.message) (modify doc f id es)
  modified id es = elim (Bool-cases (has_entry id es)) [
    | inl e ↦ rw e (updated id es e)
    | inr e ↦ rw (e, classified) (pushed _ id ChangeType.modified es)
  ]

  step-Reports :
      (rest : String) (es : List OperationEntry)
      → strip_prefix f.message "operation added: " ≡ Option.none
      → strip_prefix f.path "operations." ≡ some rest
      → Any (Reports f.message) (record_finding doc f es)
  unfolding record_finding
  step-Reports rest es not_added about =
      elim (Option-cases (strip_prefix f.message "operation removed: ")) [
        | inl e ↦ rw (e, removal, not_added, addition, about, modification) (modified _ es)
        | inr (id, e) ↦ rw (e, removal) (pushed _ id ChangeType.removed es)
      ]

  recorded :
      (rest : String) (fs : List DiffFinding) (es : List OperationEntry)
      → In f fs
      → strip_prefix f.message "operation added: " ≡ Option.none
      → strip_prefix f.path "operations." ≡ some rest
      → Any (Reports f.message) (record_findings doc fs es)
  unfolding record_findings
  recorded rest [] es mem not_added about = absurd mem
  recorded rest (g ∷ fs) es (inl same) not_added about =
      findings-Report f.message doc fs _ (rw same (step-Reports rest es not_added about))
  recorded rest (g ∷ fs) es (inr later) not_added about = recorded rest fs _ later not_added about

-- Every breaking finding about an operation, unless its message is that of an addition, is in the
-- changelog: some entry has breaking impact and has the finding's message among its details,
-- whatever findings come before and after.
pub breaking_finding-reported :
    (doc : Document) (findings : List DiffFinding) (f : DiffFinding) (rest : String)
    → In f findings
    → f.severity ≡ DiffSeverity.breaking
    → strip_prefix f.message "operation added: " ≡ Option.none
    → strip_prefix f.path "operations." ≡ some rest
    → Any
        (λ e. (e.impact ≡ ChangeImpact.breaking) × In f.message e.details)
        (build_operation_entries_from_findings findings doc)
unfolding build_operation_entries_from_findings
breaking_finding-reported doc findings f rest mem breaks not_added about =
    recorded doc f breaks rest findings [] mem not_added about
