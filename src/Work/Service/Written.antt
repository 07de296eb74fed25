-- ===== src/Work/Service/Written.antt =====
-- What each step of the tables leaves of a row under an id.
use aiworkos.Base.{
  ℕ, ◌≡◌, refl, ap, sym, subst, ◌∙◌, inl, inr, Bool, true, false, Option, none, some, List, ◌==◌,
  ◌&&◌, arith, nat_eq, Bool-cases, if◌then◌else◌,
}
use aiworkos.Base.Table.{find, find-append, find-update_where, map_option}
use aiworkos.Platform.Authz.Model.{ResourceType, resource_type_eq}
use aiworkos.Platform.Repository.{Versioned}
use aiworkos.Work.Rows.{
  projects_table, milestones_table, works_table, assignments_table, dependencies_table,
}
use aiworkos.Work.Store.{Snapshot, Store}
use aiworkos.Work.Service.Steps.{
  RowStep, inserted, updated, Logged, TableStep, on_project, on_milestone, on_work, on_assignment,
  on_dependency,
}

pub data TableName : Type 0 where
  projects milestones works assignments dependencies : TableName

abbrev pub type_of : TableName → ResourceType
type_of TableName.projects = ResourceType.project
type_of TableName.milestones = ResourceType.milestone
type_of TableName.works = ResourceType.work
type_of TableName.assignments = ResourceType.work_assignment
type_of TableName.dependencies = ResourceType.dependency

-- The row that a table has under an id, as a snapshot.
abbrev pub row_of : TableName → ℕ → Store → Option Snapshot
row_of TableName.projects id s = map_option Snapshot.project (find projects_table.id id s.projects)
row_of TableName.milestones id s =
    map_option Snapshot.milestone (find milestones_table.id id s.milestones)
row_of TableName.works id s = map_option Snapshot.work (find works_table.id id s.works)
row_of TableName.assignments id s =
    map_option Snapshot.assignment (find assignments_table.id id s.assignments)
row_of TableName.dependencies id s =
    map_option Snapshot.dependency (find dependencies_table.id id s.dependencies)

found_or_none :
    {A : Type 0} (found : Option A) (b : Bool) (row : A)
    → b ≡ false
    → elim found as (λ _. Option A) [ some y ↦ some y | none ↦ if b then some row else none ]
      ≡ (if b then some row else found)
found_or_none none b row h = rw h refl
found_or_none (some y) b row h = rw h refl

RowStep-find :
    {A : Type 0} (t : Versioned A) (Fresh : A → Type 0) (Moves : A → A → Type 0)
    (rows rows' : List A) (row : A)
    → RowStep t Fresh Moves rows rows' row
    → (id : ℕ) → find t.id id rows' ≡ (if t.id row == id then some row else find t.id id rows)
RowStep-find t Fresh Moves rows rows' row (inserted free fresh e) id =
    ap (find t.id id) e
    ∙ (find-append t.id id rows row ∙ elim (Bool-cases (t.id row == id)) [
      | inl here ↦
          let at = (nat_eq.beq_iff (t.id row) id).0 here in
          let missing : find t.id id rows ≡ none = subst (λ k. find t.id k rows ≡ none) at free in
          rw (missing, here) refl
      | inr other ↦ found_or_none (find t.id id rows) (t.id row == id) row other
    ])
RowStep-find t Fresh Moves rows rows' row (updated old g keeps there is_new e moved) id =
    let at_old : t.id row ≡ t.id old = ap t.id is_new ∙ (t.id-bump (g old) ∙ keeps old) in
    ap (find t.id id) e
    ∙ (find-update_where t.id (t.id old) (λ x. t.bump (g x)) (λ x. t.id-bump (g x) ∙ keeps x) id
          rows
        ∙ elim (Bool-cases (id == t.id old)) [
          | inl here ↦
              let at = (nat_eq.beq_iff id (t.id old)).0 here in
              let same : (t.id row == id) ≡ true =
                (nat_eq.beq_iff (t.id row) id).1 (at_old ∙ sym at) in
              let there' : find t.id id rows ≡ some old =
                subst (λ k. find t.id k rows ≡ some old) (sym at) there in
              rw (here, same, there') (ap some (sym is_new))
          | inr other ↦
              let differs : (t.id row == id) ≡ false = ground (arith, at_old, other) in
              rw (other, differs) refl
        ])

-- What a logged write of a table's row leaves of the row under an id.
abbrev WrittenAt : TableName → ℕ → Snapshot → Store → Store → TableName → ℕ → Type 0
WrittenAt table row_id after s s' n id =
    row_of n id s'
    ≡ (if (type_of table == type_of n) && (row_id == id) then some after else row_of n id s)

abbrev pub Written : TableName → ℕ → Snapshot → Store → Store → Type 0
Written table row_id after s s' = (n : TableName) (id : ℕ) → WrittenAt table row_id after s s' n id

map_if :
    {A : Type 0} (f : A → Snapshot) (b : Bool) (row : A) (old : Option A)
    → map_option f (if b then some row else old) ≡ (if b then some (f row) else map_option f old)
map_if f true row old = refl
map_if f false row old = refl

pub step-Written :
    (r : Bool) (s s' : Store)
    → TableStep r s s'
    → (table : TableName) × (id : ℕ) × (after : Snapshot) × Logged (type_of table) id after s s'
      × Written table id after s s'
step-Written r s s' (on_project row rows' step logged e) = (
  TableName.projects,
  row.id,
  Snapshot.project row,
  logged,
  λ n id.
      subst (λ u. WrittenAt TableName.projects row.id (Snapshot.project row) s u n id) (sym e)
        (elim n
          as (λ k.
            WrittenAt TableName.projects row.id (Snapshot.project row) s
              (record s { projects = rows'; audit = s'.audit; outbox = s'.outbox }) k id) [
                | TableName.projects ↦
                    ap (map_option Snapshot.project)
                      (RowStep-find projects_table _ _ s.projects rows' row step id)
                    ∙ map_if Snapshot.project (row.id == id) row
                        (find projects_table.id id s.projects)
                | TableName.milestones ↦ refl
                | TableName.works ↦ refl
                | TableName.assignments ↦ refl
                | TableName.dependencies ↦ refl
              ]),
)
step-Written r s s' (on_milestone row rows' step logged e) = (
  TableName.milestones,
  row.id,
  Snapshot.milestone row,
  logged,
  λ n id.
      subst (λ u. WrittenAt TableName.milestones row.id (Snapshot.milestone row) s u n id) (sym e)
        (elim n
          as (λ k.
            WrittenAt TableName.milestones row.id (Snapshot.milestone row) s
              (record s { milestones = rows'; audit = s'.audit; outbox = s'.outbox }) k id) [
                | TableName.milestones ↦
                    ap (map_option Snapshot.milestone)
                      (RowStep-find milestones_table _ _ s.milestones rows' row step id)
                    ∙ map_if Snapshot.milestone (row.id == id) row
                        (find milestones_table.id id s.milestones)
                | TableName.projects ↦ refl
                | TableName.works ↦ refl
                | TableName.assignments ↦ refl
                | TableName.dependencies ↦ refl
              ]),
)
step-Written r s s' (on_work row rows' step logged e) = (
  TableName.works,
  row.id,
  Snapshot.work row,
  logged,
  λ n id.
      subst (λ u. WrittenAt TableName.works row.id (Snapshot.work row) s u n id) (sym e)
        (elim n
          as (λ k.
            WrittenAt TableName.works row.id (Snapshot.work row) s
              (record s { works = rows'; audit = s'.audit; outbox = s'.outbox }) k id) [
                | TableName.works ↦
                    ap (map_option Snapshot.work)
                      (RowStep-find works_table _ _ s.works rows' row step id)
                    ∙ map_if Snapshot.work (row.id == id) row (find works_table.id id s.works)
                | TableName.projects ↦ refl
                | TableName.milestones ↦ refl
                | TableName.assignments ↦ refl
                | TableName.dependencies ↦ refl
              ]),
)
step-Written r s s' (on_assignment row rows' step logged e) = (
  TableName.assignments,
  row.id,
  Snapshot.assignment row,
  logged,
  λ n id.
      subst (λ u. WrittenAt TableName.assignments row.id (Snapshot.assignment row) s u n id) (sym e)
        (elim n
          as (λ k.
            WrittenAt TableName.assignments row.id (Snapshot.assignment row) s
              (record s { assignments = rows'; audit = s'.audit; outbox = s'.outbox }) k id) [
                | TableName.assignments ↦
                    ap (map_option Snapshot.assignment)
                      (RowStep-find assignments_table _ _ s.assignments rows' row step id)
                    ∙ map_if Snapshot.assignment (row.id == id) row
                        (find assignments_table.id id s.assignments)
                | TableName.projects ↦ refl
                | TableName.milestones ↦ refl
                | TableName.works ↦ refl
                | TableName.dependencies ↦ refl
              ]),
)
step-Written r s s' (on_dependency row rows' step logged e) = (
  TableName.dependencies,
  row.id,
  Snapshot.dependency row,
  logged,
  λ n id.
      subst (λ u. WrittenAt TableName.dependencies row.id (Snapshot.dependency row) s u n id)
        (sym e)
        (elim n
          as (λ k.
            WrittenAt TableName.dependencies row.id (Snapshot.dependency row) s
              (record s { dependencies = rows'; audit = s'.audit; outbox = s'.outbox }) k id) [
                | TableName.dependencies ↦
                    ap (map_option Snapshot.dependency)
                      (RowStep-find dependencies_table _ _ s.dependencies rows' row step id)
                    ∙ map_if Snapshot.dependency (row.id == id) row
                        (find dependencies_table.id id s.dependencies)
                | TableName.projects ↦ refl
                | TableName.milestones ↦ refl
                | TableName.works ↦ refl
                | TableName.assignments ↦ refl
              ]),
)
