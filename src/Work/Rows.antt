-- ===== src/Work/Rows.antt =====
-- The tables of the Work Core: contexts/work/models.py. Dates and times are ordinals. Foreign keys,
-- created_at, updated_at and the columns that no use case of contexts/work/services.py writes
-- (confidence, origin_event_id, last_signal_at and an assignment's started_at) are not modelled.
use aiworkos.Base.{ℕ, ◌+◌, refl, Bool, Option}
use aiworkos.Base.Text.{Text}
use aiworkos.Base.Result.{Resource}
use aiworkos.Platform.Repository.{Versioned}
use aiworkos.Platform.Records.{Actor}
use aiworkos.Work.Vocabulary.{
  WorkStatus, ProjectStatus, MilestoneStatus, AssignmentRole, AssignmentStatus, DependencyKind,
  DependencyStatus, Visibility, Source,
}
use aiworkos.Work.Dependency.{Endpoint}

pub record Project : Type 0 where
  pub id : ℕ
  pub org_id : ℕ
  pub name : Text
  pub description : Option Text
  pub objective : Option Text
  pub owning_team_id : Option ℕ
  pub department_id : Option ℕ
  pub lead_person_id : Option ℕ
  pub sponsor_person_id : Option ℕ
  pub status : ProjectStatus
  pub start_date : Option ℕ
  pub target_date : Option ℕ
  pub actual_end_date : Option ℕ
  pub visibility : Visibility
  pub source : Source
  pub created_by_person_id : Option ℕ
  pub version : ℕ

pub record Milestone : Type 0 where
  pub id : ℕ
  pub org_id : ℕ
  pub project_id : ℕ
  pub name : Text
  pub description : Option Text
  pub acceptance_criteria : Option Text
  pub target_date : Option ℕ
  pub actual_date : Option ℕ
  pub status : MilestoneStatus
  pub order_index : ℕ
  pub created_by_person_id : Option ℕ
  pub version : ℕ

pub record Work : Type 0 where
  pub id : ℕ
  pub org_id : ℕ
  pub project_id : Option ℕ
  pub milestone_id : Option ℕ
  pub parent_work_id : Option ℕ
  pub title : Text
  pub description : Option Text
  pub type : Text
  pub status : WorkStatus
  pub priority : Text
  pub due_date : Option ℕ
  pub blocked_reason : Option Text
  pub started_at : Option ℕ
  pub completed_at : Option ℕ
  pub source : Source
  pub visibility : Visibility
  pub created_by_person_id : Option ℕ
  pub version : ℕ

pub record WorkAssignment : Type 0 where
  pub id : ℕ
  pub org_id : ℕ
  pub work_id : ℕ
  pub person_id : ℕ
  pub role : AssignmentRole
  pub is_primary : Bool
  pub status : AssignmentStatus
  pub assigned_by_actor : Actor
  pub ended_at : Option ℕ
  pub source : Source
  pub created_by_person_id : Option ℕ
  pub version : ℕ

-- The two columns of an endpoint are one field.
pub record Dependency : Type 0 where
  pub id : ℕ
  pub org_id : ℕ
  pub blocker : Endpoint
  pub blocked : Endpoint
  pub kind : DependencyKind
  pub status : DependencyStatus
  pub rationale : Option Text
  pub created_by_person_id : Option ℕ
  pub version : ℕ

abbrev pub projects_table : Versioned Project
projects_table = record {
  id = λ p. p.id;
  org_id = λ p. p.org_id;
  version = λ p. p.version;
  bump = λ p. record p { version = p.version + 1 };
  resource = Resource.project;
  id-bump = λ p. refl;
  org_id-bump = λ p. refl;
  version-bump = λ p. refl;
}

abbrev pub milestones_table : Versioned Milestone
milestones_table = record {
  id = λ m. m.id;
  org_id = λ m. m.org_id;
  version = λ m. m.version;
  bump = λ m. record m { version = m.version + 1 };
  resource = Resource.milestone;
  id-bump = λ m. refl;
  org_id-bump = λ m. refl;
  version-bump = λ m. refl;
}

abbrev pub works_table : Versioned Work
works_table = record {
  id = λ w. w.id;
  org_id = λ w. w.org_id;
  version = λ w. w.version;
  bump = λ w. record w { version = w.version + 1 };
  resource = Resource.work;
  id-bump = λ w. refl;
  org_id-bump = λ w. refl;
  version-bump = λ w. refl;
}

abbrev pub assignments_table : Versioned WorkAssignment
assignments_table = record {
  id = λ a. a.id;
  org_id = λ a. a.org_id;
  version = λ a. a.version;
  bump = λ a. record a { version = a.version + 1 };
  resource = Resource.work_assignment;
  id-bump = λ a. refl;
  org_id-bump = λ a. refl;
  version-bump = λ a. refl;
}

abbrev pub dependencies_table : Versioned Dependency
dependencies_table = record {
  id = λ d. d.id;
  org_id = λ d. d.org_id;
  version = λ d. d.version;
  bump = λ d. record d { version = d.version + 1 };
  resource = Resource.dependency;
  id-bump = λ d. refl;
  org_id-bump = λ d. refl;
  version-bump = λ d. refl;
}
