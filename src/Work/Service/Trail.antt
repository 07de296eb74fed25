-- ===== src/Work/Service/Trail.antt =====
-- The audit trail of the Work Core: its last word on a row is the row.
use aiworkos.Base.{
  ℕ, ◌≡◌, refl, ap, sym, ◌∙◌, inl, inr, Bool, Option, none, some, List, [], ◌∷◌, ◌++◌, ◌==◌, ◌&&◌,
  nat_eq, Bool-cases, if◌then◌else◌,
}
use aiworkos.Base.Table.{map_option}
use aiworkos.Platform.Authz.Model.{ResourceType, resource_type_eq}
use aiworkos.Platform.Records.{AuditEntry}
use aiworkos.Work.Store.{Snapshot, Store}
use aiworkos.Work.Service.Steps.{Logged, TableSteps, stay, then_step}
use aiworkos.Work.Service.History.{History, History-TableSteps, empty_store, empty_store-Keyed}
use aiworkos.Work.Service.Written.{TableName, type_of, row_of, Written, step-Written}

abbrev is_about : ResourceType → ℕ → AuditEntry Snapshot → Bool
is_about type id e = (e.resource_type == type) && (e.resource_id == id)

-- The last entry about a row.
abbrev pub last_entry : ResourceType → ℕ → List (AuditEntry Snapshot) → Option (AuditEntry Snapshot)
last_entry type id [] = none
last_entry type id (e ∷ rest) = elim (last_entry type id rest) [
  | some later ↦ some later
  | none ↦ if is_about type id e then some e else none
]

last_entry-append :
    (type : ResourceType) (id : ℕ) (xs : List (AuditEntry Snapshot)) (e : AuditEntry Snapshot)
    → last_entry type id (xs ++ e ∷ [])
      ≡ (if is_about type id e then some e else last_entry type id xs)
last_entry-append type id [] e = refl
last_entry-append type id (x ∷ xs) e = elim (Bool-cases (is_about type id e)) [
  | inl about ↦ rw (last_entry-append type id xs e, about) refl
  | inr other ↦ rw (last_entry-append type id xs e, other) refl
]

-- The last entry about each row that is stored shows it as it is.
abbrev pub IsTold : Store → Type 0
IsTold s =
    (n : TableName) (id : ℕ) (row : Snapshot)
    → row_of n id s ≡ some row
    → map_option (λ e. e.after) (last_entry (type_of n) id s.audit) ≡ some (some row)

Written-IsTold :
    (table : TableName) (row_id : ℕ) (after : Snapshot) (s s' : Store)
    → Logged (type_of table) row_id after s s'
    → Written table row_id after s s'
    → IsTold s
    → IsTold s'
Written-IsTold table row_id after s s' l w h n id row there =
    let about : is_about (type_of n) id l.entry ≡ ((type_of table == type_of n) && (row_id == id)) =
      rw (l.of_type, l.of_row) refl in
    let last =
      ap (last_entry (type_of n) id) l.audited ∙ last_entry-append (type_of n) id s.audit l.entry in
    elim (Bool-cases ((type_of table == type_of n) && (row_id == id))) [
      | inl this ↦
          let same : some after ≡ some row = rw this at (sym (w n id) ∙ there) in
          ap (map_option (λ (e : AuditEntry Snapshot). e.after)) last
          ∙ rw (about, this) (ap some (l.shows ∙ same))
      | inr other ↦
          let before : row_of n id s ≡ some row = rw other at (sym (w n id) ∙ there) in
          ap (map_option (λ (e : AuditEntry Snapshot). e.after)) last
          ∙ rw (about, other) (h n id row before)
    ]

TableSteps-IsTold : (r : Bool) (s t : Store) → TableSteps r s t → IsTold s → IsTold t
TableSteps-IsTold r s t stay h = h
TableSteps-IsTold r s t (then_step {mid = m} steps step) h =
    let (table, id, after, logged, written) = step-Written r m t step in
    Written-IsTold table id after m t logged written (TableSteps-IsTold r s m steps h)

empty_row : (n : TableName) (id : ℕ) → row_of n id empty_store ≡ none
empty_row TableName.projects id = refl
empty_row TableName.milestones id = refl
empty_row TableName.works id = refl
empty_row TableName.assignments id = refl
empty_row TableName.dependencies id = refl

-- In every store that committed use cases lead to from the empty one, each stored Project, milestone,
-- Work, assignment and dependency has audit entries, and the last one about it shows it exactly as it
-- is stored.
pub History-IsTold :
    (reactivating : Bool) (s : Store) → History reactivating empty_store s → IsTold s
History-IsTold r s history =
    TableSteps-IsTold r empty_store s (History-TableSteps r empty_store s empty_store-Keyed history)
      (λ n id row there. absurd (cc (empty_row n id, there)))
