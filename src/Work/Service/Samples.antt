-- ===== src/Work/Service/Samples.antt =====
-- Concrete states of the Work Core's tables, and commands on them.
use aiworkos.Base.{ℕ, true, false, none, some, [], ◌∷◌, eqb}
use aiworkos.Base.Text.{codes}
use aiworkos.Base.Result.{Result, ok, err}
use aiworkos.Platform.Authz.Model.{Role, Action, Grant, Reason, Decision}
use aiworkos.Platform.Records.{ActorType}
use aiworkos.Identity.Vocabulary.{PersonStatus}
use aiworkos.Work.Vocabulary.{
  WorkStatus, ProjectStatus, MilestoneStatus, AssignmentRole, DependencyKind, Visibility, Source,
}
use aiworkos.Work.Dependency.{EndpointType}
use aiworkos.Work.Rows.{Project, Milestone, Work, WorkAssignment, Dependency}
use aiworkos.Work.Store.{WorkEvent, Store, WorkContext}
use aiworkos.Work.Service.Commands.{
  unset, set_to, UpdateWork, SetOwner, CreateWork, AssignWork, CreateDependency,
  ChangeProjectStatus, ChangeProjectVisibility, ChangeWorkStatus,
}
use aiworkos.Work.Service.Dependencies.{new_dependency, recorded_dependency}
use aiworkos.Work.Service.Assignments.{new_assignment, recorded_assignment}
use aiworkos.Work.Service.Items.{new_work, recorded_work}
use aiworkos.Work.Service.History.{empty_store}

-- The value of a call that returns.
abbrev pub value_of : {A : Type 0} → Result A → A → A
value_of (ok value) other = value
value_of (err raised) other = other

-- An administrator of organization 1.
abbrev pub caller : WorkContext
caller = record {
  principal = record { person_id = 7; org_id = 1; roles = Role.org_admin ∷ [] };
  actor = record {
    type = ActorType.person;
    person_id = some 7;
    ai_interaction_id = none;
    approval_record_id = none;
    cascaded_from = none;
  };
  identity = record {
    team_exists = λ org id. eqb org 1;
    department_exists = λ org id. eqb org 1;
    person_exists = λ org id. eqb org 1;
    person_status = λ org id. some PersonStatus.active;
    departments_led_by = λ org id. [];
    team_ids_for_person = λ org id. [];
    team_ids_in_departments = λ org ids. [];
  };
  today = 10;
  now = 100;
}

abbrev pub allowed : Decision
allowed = record {
  allowed = true;
  reason = Reason.granted Role.org_admin Grant.org;
  matched_role = some Role.org_admin;
  matched_grant = some Grant.org;
}

abbrev pub capture : CreateWork
capture = record {
  title = codes "check the API";
  project_id = none;
  milestone_id = none;
  parent_work_id = none;
  description = none;
  type = codes "task";
  priority = codes "normal";
  due_date = none;
  visibility = unset;
  source = Source.human;
}

abbrev pub item : ℕ → Work
item id = new_work caller id capture WorkStatus.todo Visibility.team

abbrev pub one_work : Store
one_work =
    (recorded_work caller Action.create none allowed caller.actor WorkEvent.work_created empty_store
      (item 1, item 1 ∷ [])).1

abbrev pub two_works : Store
two_works =
    (recorded_work caller Action.create none allowed caller.actor WorkEvent.work_created one_work
      (item 2, item 1 ∷ item 2 ∷ [])).1

abbrev pub waiting : CreateDependency
waiting = record {
  blocker = record { type = EndpointType.work; id = 1 };
  blocked = record { type = EndpointType.work; id = 2 };
  kind = DependencyKind.blocks;
  rationale = none;
}

abbrev pub edge : Dependency
edge = new_dependency caller 5 waiting

abbrev pub linked : Store
linked =
    (recorded_dependency caller Action.create none allowed caller.actor WorkEvent.dependency_created
      two_works (edge, edge ∷ [])).1

abbrev pub claim : AssignWork
claim = record {
  work_id = 1;
  person_id = 7;
  role = AssignmentRole.owner;
  is_primary = true;
  source = Source.human;
}

abbrev pub seat : WorkAssignment
seat = new_assignment caller 6 (item 1) claim

abbrev pub owned : Store
owned =
    (recorded_assignment caller Action.assign none allowed WorkEvent.work_assigned linked
      (seat, seat ∷ [])).1

-- Project 1 with an open milestone and two Works, of which the first blocks the second.
abbrev pub launch : Project
launch = record {
  id = 1;
  org_id = 1;
  name = codes "Launch";
  description = none;
  objective = none;
  owning_team_id = some 4;
  department_id = none;
  lead_person_id = some 7;
  sponsor_person_id = none;
  status = ProjectStatus.active;
  start_date = none;
  target_date = none;
  actual_end_date = none;
  visibility = Visibility.organization;
  source = Source.human;
  created_by_person_id = some 7;
  version = 3;
}

abbrev first_milestone : Milestone
first_milestone = record {
  id = 2;
  org_id = 1;
  project_id = 1;
  name = codes "Beta";
  description = none;
  acceptance_criteria = none;
  target_date = none;
  actual_date = none;
  status = MilestoneStatus.planned;
  order_index = 0;
  created_by_person_id = some 7;
  version = 1;
}

abbrev pub started : Work
started = record (item 1) {
  project_id = some 1;
  milestone_id = some 2;
  status = WorkStatus.in_progress;
  visibility = Visibility.organization;
}

abbrev next_up : Work
next_up = record (item 2) { project_id = some 1 }

abbrev pub running : Store
running = record {
  projects = launch ∷ [];
  milestones = first_milestone ∷ [];
  works = started ∷ next_up ∷ [];
  assignments = seat ∷ [];
  dependencies = edge ∷ [];
  audit = [];
  outbox = [];
}

abbrev pub cancel : ChangeProjectStatus
cancel = record { project_id = 1; expected_version = 3; target = ProjectStatus.cancelled }

abbrev pub restrict : ChangeProjectVisibility
restrict = record { project_id = 1; expected_version = 3; visibility = Visibility.team }

abbrev pub finish : ChangeWorkStatus
finish = record {
  work_id = 1;
  expected_version = 1;
  target = WorkStatus.done;
  blocked_reason = none;
}

abbrev pub hand_over : SetOwner
hand_over = record { work_id = 1; person_id = 8; is_primary = false; source = Source.human }

abbrev pub secret : Project
secret = record launch { id = 3; visibility = Visibility.restricted }

abbrev pub with_secret : Store
with_secret = record running { projects = launch ∷ secret ∷ []; works = started ∷ [] }

abbrev pub move_there : UpdateWork
move_there = record {
  work_id = 1;
  expected_version = 1;
  title = unset;
  description = unset;
  type = unset;
  priority = unset;
  due_date = unset;
  project_id = set_to (some 3);
  milestone_id = set_to none;
  parent_work_id = unset;
}
