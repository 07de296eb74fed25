-- ===== src/Work/Service/Commands.antt =====
-- contexts/work/commands.py, and platform/partial.py.
use aiworkos.Base.{ℕ, Bool, Option, none, some}
use aiworkos.Base.Text.{Text}
use aiworkos.Work.Vocabulary.{
  WorkStatus, ProjectStatus, MilestoneStatus, AssignmentRole, DependencyKind, DependencyStatus,
  Visibility, Source,
}
use aiworkos.Work.Dependency.{Endpoint}

-- A field of a partial update: not mentioned, or set.
pub data Maybe {ℓ} (Value : Type ℓ) : Type ℓ where
  unset : Maybe Value
  set_to : (value : Value) → Maybe Value

abbrev pub value_or_none {ℓ} : {Value : Type ℓ} → Maybe Value → Option Value
value_or_none unset = none
value_or_none (set_to value) = some value

-- `changes.get(field, old)`: what `changed_fields` leaves out stays as it is.
abbrev pub changed {ℓ} : {Value : Type ℓ} → Maybe Value → Value → Value
changed unset old = old
changed (set_to value) old = value

pub record CreateProject : Type 0 where
  pub name : Text
  pub owning_team_id : Option ℕ
  pub department_id : Option ℕ
  pub description : Option Text
  pub objective : Option Text
  pub lead_person_id : Option ℕ
  pub sponsor_person_id : Option ℕ
  pub start_date : Option ℕ
  pub target_date : Option ℕ
  pub visibility : Visibility
  pub source : Source

pub record UpdateProject : Type 0 where
  pub project_id : ℕ
  pub expected_version : ℕ
  pub name : Maybe Text
  pub description : Maybe (Option Text)
  pub objective : Maybe (Option Text)
  pub owning_team_id : Maybe (Option ℕ)
  pub department_id : Maybe (Option ℕ)
  pub lead_person_id : Maybe (Option ℕ)
  pub sponsor_person_id : Maybe (Option ℕ)
  pub start_date : Maybe (Option ℕ)
  pub target_date : Maybe (Option ℕ)

pub record ChangeProjectStatus : Type 0 where
  pub project_id : ℕ
  pub expected_version : ℕ
  pub target : ProjectStatus

pub record ChangeProjectVisibility : Type 0 where
  pub project_id : ℕ
  pub expected_version : ℕ
  pub visibility : Visibility

pub record CreateMilestone : Type 0 where
  pub project_id : ℕ
  pub name : Text
  pub description : Option Text
  pub acceptance_criteria : Option Text
  pub target_date : Option ℕ
  pub order_index : ℕ

pub record UpdateMilestone : Type 0 where
  pub milestone_id : ℕ
  pub expected_version : ℕ
  pub name : Maybe Text
  pub description : Maybe (Option Text)
  pub acceptance_criteria : Maybe (Option Text)
  pub target_date : Maybe (Option ℕ)
  pub order_index : Maybe ℕ

pub record ChangeMilestoneStatus : Type 0 where
  pub milestone_id : ℕ
  pub expected_version : ℕ
  pub target : MilestoneStatus

pub record CreateWork : Type 0 where
  pub title : Text
  pub project_id : Option ℕ
  pub milestone_id : Option ℕ
  pub parent_work_id : Option ℕ
  pub description : Option Text
  pub type : Text
  pub priority : Text
  pub due_date : Option ℕ
  pub visibility : Maybe Visibility
  pub source : Source

pub record UpdateWork : Type 0 where
  pub work_id : ℕ
  pub expected_version : ℕ
  pub title : Maybe Text
  pub description : Maybe (Option Text)
  pub type : Maybe Text
  pub priority : Maybe Text
  pub due_date : Maybe (Option ℕ)
  pub project_id : Maybe (Option ℕ)
  pub milestone_id : Maybe (Option ℕ)
  pub parent_work_id : Maybe (Option ℕ)

pub record ChangeWorkStatus : Type 0 where
  pub work_id : ℕ
  pub expected_version : ℕ
  pub target : WorkStatus
  pub blocked_reason : Option Text

pub record ChangeWorkVisibility : Type 0 where
  pub work_id : ℕ
  pub expected_version : ℕ
  pub visibility : Visibility

pub record AssignWork : Type 0 where
  pub work_id : ℕ
  pub person_id : ℕ
  pub role : AssignmentRole
  pub is_primary : Bool
  pub source : Source

pub record EndAssignment : Type 0 where
  pub assignment_id : ℕ
  pub expected_version : ℕ

pub record SetOwner : Type 0 where
  pub work_id : ℕ
  pub person_id : ℕ
  pub is_primary : Bool
  pub source : Source

pub record ReassignOwner : Type 0 where
  pub work_id : ℕ
  pub person_id : ℕ
  pub is_primary : Bool
  pub source : Source

-- The two columns of an endpoint are one field.
pub record CreateDependency : Type 0 where
  pub blocker : Endpoint
  pub blocked : Endpoint
  pub kind : DependencyKind
  pub rationale : Option Text

pub record ChangeDependencyStatus : Type 0 where
  pub dependency_id : ℕ
  pub expected_version : ℕ
  pub target : DependencyStatus
