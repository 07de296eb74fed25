-- ===== src/Work/Service/Steps.antt =====
-- What the services of contexts/work/services.py may do to the tables, one row at a time: the
-- abstract view of their use cases, in which only the checked facts about a write are left.
use aiworkos.Base.{ℕ, ◌≡◌, ◌⊎◌, Bool, true, false, none, some, List, [], ◌∷◌, ◌++◌, ◌==◌, is_some}
use aiworkos.Base.Table.{find, update_where}
use aiworkos.Base.Result.{ok}
use aiworkos.Platform.Authz.Model.{ResourceType}
use aiworkos.Platform.Repository.{Versioned}
use aiworkos.Platform.Records.{AuditEntry, DomainEvent}
use aiworkos.Identity.Vocabulary.{PersonStatus}
use aiworkos.Work.Vocabulary.{
  WorkStatus, ProjectStatus, MilestoneStatus, AssignmentStatus, DependencyStatus,
  assignment_status_eq, dependency_status_eq,
}
use aiworkos.Work.Project.{
  ProjectClosureContext, validate_project_transition, validate_milestone_transition,
}
use aiworkos.Work.Lifecycle.{WorkTransitionContext, validate_work_transition, completed_at_for}
use aiworkos.Work.Assignment.{validate_assignment}
use aiworkos.Work.Dependency.{validate_dependency}
use aiworkos.Work.Rows.{
  Project, Milestone, Work, WorkAssignment, Dependency, projects_table, milestones_table,
  works_table, assignments_table, dependencies_table,
}
use aiworkos.Work.Store.{Snapshot, WorkEvent, Store}
use aiworkos.Work.Queries.{existing_assignments, edge_of, dependency_edges}

-- One row is inserted under a free id, or one row is written, one version further.
pub data RowStep {A : Type 0} (t : Versioned A) (Fresh : A → Type 0) (Moves : A → A → Type 0)
    (rows rows' : List A) (row : A) : Type 0 where
  inserted :
      find t.id (t.id row) rows ≡ none
      → Fresh row
      → rows' ≡ rows ++ row ∷ []
      → RowStep t Fresh Moves rows rows' row
  updated :
      (old : A) (g : A → A)
      → ((x : A) → t.id (g x) ≡ t.id x)
      → find t.id (t.id old) rows ≡ some old
      → row ≡ t.bump (g old)
      → rows' ≡ update_where t.id (t.id old) (λ x. t.bump (g x)) rows
      → Moves old row
      → RowStep t Fresh Moves rows rows' row

-- The write leaves one audit entry, which shows the row as it is after it, and at least one event.
pub record Logged (type : ResourceType) (id : ℕ) (after : Snapshot) (s s' : Store) : Type 0 where
  pub entry : AuditEntry Snapshot
  pub of_type : entry.resource_type ≡ type
  pub of_row : entry.resource_id ≡ id
  pub shows : entry.after ≡ some after
  pub audited : s'.audit ≡ s.audit ++ entry ∷ []
  pub event : DomainEvent WorkEvent
  pub further : List (DomainEvent WorkEvent)
  pub about : event.aggregate_id ≡ id
  pub published : s'.outbox ≡ s.outbox ++ event ∷ further

abbrev pub FreshProject : Project → Type 0
FreshProject p = p.status ≡ ProjectStatus.proposed

pub record ProjectMove (old new : Project) : Type 0 where
  pub same_org : new.org_id ≡ old.org_id
  pub status_moved :
      (new.status ≡ old.status)
      ⊎ ((closure : ProjectClosureContext) × (validate_project_transition old.status new.status
              closure
            ≡ ok tt))

abbrev pub FreshMilestone : Milestone → Type 0
FreshMilestone m = m.status ≡ MilestoneStatus.planned

pub record MilestoneMove (old new : Milestone) : Type 0 where
  pub same_org : new.org_id ≡ old.org_id
  pub same_project : new.project_id ≡ old.project_id
  pub status_moved :
      (new.status ≡ old.status) ⊎ (validate_milestone_transition old.status new.status ≡ ok tt)

-- A milestone that the Work refers to is there, and in the Work's Project.
abbrev pub MilestoneFits : List Milestone → Work → Type 0
MilestoneFits milestones w =
    (milestone_id : ℕ)
    → w.milestone_id ≡ some milestone_id
    → (m : Milestone) × (find milestones_table.id milestone_id milestones ≡ some m)
      × (w.project_id ≡ some m.project_id)

pub record FreshWork (s : Store) (w : Work) : Type 0 where
  pub to_do : w.status ≡ WorkStatus.todo
  pub not_completed : w.completed_at ≡ none
  pub fits : MilestoneFits s.milestones w

pub data WorkMove (s : Store) (old new : Work) : Type 0 where
  edits :
      new.status ≡ old.status
      → new.completed_at ≡ old.completed_at
      → MilestoneFits s.milestones new
      → WorkMove s old new
  shows :
      new.status ≡ old.status
      → new.completed_at ≡ old.completed_at
      → new.milestone_id ≡ old.milestone_id
      → new.project_id ≡ old.project_id
      → WorkMove s old new
  moves :
      (context : WorkTransitionContext) (now : ℕ)
      → validate_work_transition old.status new.status context ≡ ok tt
      → new.completed_at ≡ completed_at_for new.status now
      → new.milestone_id ≡ old.milestone_id
      → new.project_id ≡ old.project_id
      → WorkMove s old new

pub record FreshAssignment (s : Store) (a : WorkAssignment) : Type 0 where
  pub person_status : PersonStatus
  pub is_active : a.status ≡ AssignmentStatus.active
  pub not_ended : a.ended_at ≡ none
  pub accepted :
      validate_assignment a.person_id a.role a.is_primary person_status
        (existing_assignments a.org_id a.work_id s)
      ≡ ok tt

-- An assignment is ended, and nothing else about it changes.
pub record AssignmentMove (old new : WorkAssignment) : Type 0 where
  pub was_active : (old.status == AssignmentStatus.ended) ≡ false
  pub now_ended : new.status ≡ AssignmentStatus.ended
  pub end_is_known : is_some new.ended_at ≡ true
  pub same_org : new.org_id ≡ old.org_id
  pub same_work : new.work_id ≡ old.work_id
  pub same_person : new.person_id ≡ old.person_id
  pub same_role : new.role ≡ old.role
  pub same_primary : new.is_primary ≡ old.is_primary

pub record FreshDependency (s : Store) (d : Dependency) : Type 0 where
  pub is_active : d.status ≡ DependencyStatus.active
  pub accepted :
      validate_dependency (edge_of d) (dependency_edges d.org_id s) d.org_id d.org_id ≡ ok tt

-- A dependency changes its status and nothing else; `reactivating` tells whether it may become active
-- again.
pub record DependencyMove (reactivating : Bool) (old new : Dependency) : Type 0 where
  pub same_org : new.org_id ≡ old.org_id
  pub same_blocker : new.blocker ≡ old.blocker
  pub same_blocked : new.blocked ≡ old.blocked
  pub same_kind : new.kind ≡ old.kind
  pub other_status : (old.status == new.status) ≡ false
  pub reactivated : (new.status == DependencyStatus.active) ≡ true → reactivating ≡ true

pub data TableStep (reactivating : Bool) (s s' : Store) : Type 0 where
  on_project :
      (row : Project) (rows' : List Project)
      → RowStep projects_table FreshProject ProjectMove s.projects rows' row
      → Logged ResourceType.project row.id (Snapshot.project row) s s'
      → s' ≡ record s { projects = rows'; audit = s'.audit; outbox = s'.outbox }
      → TableStep reactivating s s'
  on_milestone :
      (row : Milestone) (rows' : List Milestone)
      → RowStep milestones_table FreshMilestone MilestoneMove s.milestones rows' row
      → Logged ResourceType.milestone row.id (Snapshot.milestone row) s s'
      → s' ≡ record s { milestones = rows'; audit = s'.audit; outbox = s'.outbox }
      → TableStep reactivating s s'
  on_work :
      (row : Work) (rows' : List Work)
      → RowStep works_table (FreshWork s) (WorkMove s) s.works rows' row
      → Logged ResourceType.work row.id (Snapshot.work row) s s'
      → s' ≡ record s { works = rows'; audit = s'.audit; outbox = s'.outbox }
      → TableStep reactivating s s'
  on_assignment :
      (row : WorkAssignment) (rows' : List WorkAssignment)
      → RowStep assignments_table (FreshAssignment s) AssignmentMove s.assignments rows' row
      → Logged ResourceType.work_assignment row.id (Snapshot.assignment row) s s'
      → s' ≡ record s { assignments = rows'; audit = s'.audit; outbox = s'.outbox }
      → TableStep reactivating s s'
  on_dependency :
      (row : Dependency) (rows' : List Dependency)
      → RowStep dependencies_table
          (FreshDependency s)
          (DependencyMove reactivating)
          s.dependencies
          rows'
          row
      → Logged ResourceType.dependency row.id (Snapshot.dependency row) s s'
      → s' ≡ record s { dependencies = rows'; audit = s'.audit; outbox = s'.outbox }
      → TableStep reactivating s s'

pub data TableSteps (reactivating : Bool) (s : Store) : Store → Type 0 where
  stay : TableSteps reactivating s s
  then_step :
      {mid last : Store}
      → TableSteps reactivating s mid
      → TableStep reactivating mid last
      → TableSteps reactivating s last

pub TableSteps-trans :
    {reactivating : Bool} (s t u : Store)
    → TableSteps reactivating s t
    → TableSteps reactivating t u
    → TableSteps reactivating s u
TableSteps-trans s t u a stay = a
TableSteps-trans s t u a (then_step {mid = m} b step) = then_step (TableSteps-trans s t m a b) step

pub one_step :
    {reactivating : Bool} {s t : Store} → TableStep reactivating s t → TableSteps reactivating s t
one_step step = then_step stay step
