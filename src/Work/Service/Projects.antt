-- ===== src/Work/Service/Projects.antt =====
-- ProjectService of contexts/work/services.py.
use aiworkos.Base.{ℕ, Bool, not, Option, none, some, List, ◌==◌, if◌then◌else◌}
use aiworkos.Base.Result.{Result, ok, ◌>>=◌, ◌>>◌, raise_if, each, br_g_01}
use aiworkos.Platform.Authz.Model.{Action, ResourceType, Decision}
use aiworkos.Platform.Repository.{update}
use aiworkos.Platform.Records.{Actor}
use aiworkos.Work.Vocabulary.{
  WorkStatus, ProjectStatus, MilestoneStatus, Visibility, work_status_eq, project_status_eq,
}
use aiworkos.Work.Visibility.{narrowing_to}
use aiworkos.Work.Project.{
  ProjectClosureContext, validate_project_transition, validate_project_creation,
}
use aiworkos.Work.Rows.{Project, Milestone, Work, projects_table, works_table}
use aiworkos.Work.Store.{
  Snapshot, WorkEvent, Store, WorkContext, org_of, created_by, cascade_actor, authorize_work, audit,
  emit, insert, load,
}
use aiworkos.Work.Queries.{
  count_open_milestones, count_work_in_progress_or_blocked, work_wider_than,
  open_milestones_of_project, open_work_of_project,
}
use aiworkos.Work.Relations.{reach_of, project_relations}
use aiworkos.Work.Service.Commands.{
  changed, CreateProject, UpdateProject, ChangeProjectStatus, ChangeProjectVisibility,
}
use aiworkos.Work.Service.Milestones.{apply_milestone_status}
use aiworkos.Work.Service.Items.{apply_work_status, recorded_work, shown_at}

-- `_audit` and `_emit`, beside the rows that were written.
abbrev pub recorded_project :
    WorkContext
    → Action
    → Option Snapshot
    → Decision
    → WorkEvent
    → Store
    → Project × List Project
    → Project × Store
recorded_project ctx action before decision event s (row, rows) = (
  row,
  emit ctx event row.id ctx.actor (
      audit ctx action ResourceType.project row.id before (Snapshot.project row) decision ctx.actor
        (record s { projects = rows })),
)

-- `if id is not None: identity.assert_..._exists(...)`
abbrev pub assert_known : (ℕ → Bool) → Option ℕ → Result (Unit {0})
assert_known exists none = ok tt
assert_known exists (some id) = raise_if (not (exists id)) br_g_01

-- `_assert_references`: the owning team, the department, the lead and the sponsor.
abbrev pub assert_project_references :
    WorkContext → Option ℕ → Option ℕ → Option ℕ → Option ℕ → Result (Unit {0})
assert_project_references ctx owning_team_id department_id lead_person_id sponsor_person_id = do
  assert_known (ctx.identity.team_exists (org_of ctx)) owning_team_id
  assert_known (ctx.identity.department_exists (org_of ctx)) department_id
  assert_known (ctx.identity.person_exists (org_of ctx)) lead_person_id
  assert_known (ctx.identity.person_exists (org_of ctx)) sponsor_person_id

-- The row that `create` inserts, and the prospective one that it authorizes by, which has the values
-- that the relations read.
abbrev pub new_project : WorkContext → ℕ → CreateProject → Project
new_project ctx new_id command = record {
  id = new_id;
  org_id = org_of ctx;
  name = command.name;
  description = command.description;
  objective = command.objective;
  owning_team_id = command.owning_team_id;
  department_id = command.department_id;
  lead_person_id = command.lead_person_id;
  sponsor_person_id = command.sponsor_person_id;
  status = ProjectStatus.proposed;
  start_date = command.start_date;
  target_date = command.target_date;
  actual_end_date = none;
  visibility = command.visibility;
  source = command.source;
  created_by_person_id = created_by ctx;
  version = 1;
}

unfoldable pub create_project : WorkContext → ℕ → CreateProject → Store → Result (Project × Store)
create_project ctx new_id command s = do
  validate_project_creation command.name command.owning_team_id command.department_id
      command.start_date command.target_date
  assert_project_references ctx command.owning_team_id command.department_id command.lead_person_id
      command.sponsor_person_id
  decision ←
      authorize_work ctx Action.create ResourceType.project
        (project_relations (reach_of ctx s) (new_project ctx new_id command)) none
  rows ← insert projects_table (new_project ctx new_id command) s.projects
  ok (
      recorded_project ctx Action.create none decision WorkEvent.project_created s
        (new_project ctx new_id command, rows))

abbrev pub edited_project : UpdateProject → Project → Project
edited_project command p = record p {
  name = changed command.name p.name;
  description = changed command.description p.description;
  objective = changed command.objective p.objective;
  owning_team_id = changed command.owning_team_id p.owning_team_id;
  department_id = changed command.department_id p.department_id;
  lead_person_id = changed command.lead_person_id p.lead_person_id;
  sponsor_person_id = changed command.sponsor_person_id p.sponsor_person_id;
  start_date = changed command.start_date p.start_date;
  target_date = changed command.target_date p.target_date;
}

-- `update`; `changes.get(field)` of a field that is not mentioned is `None`.
unfoldable pub edit_project : WorkContext → UpdateProject → Store → Result (Project × Store)
edit_project ctx command s = do
  p ← load projects_table ctx command.project_id s.projects
  decision ←
      authorize_work ctx Action.update ResourceType.project (project_relations (reach_of ctx s) p)
        (some p.id)
  assert_project_references ctx (changed command.owning_team_id none)
      (changed command.department_id none) (changed command.lead_person_id none)
      (changed command.sponsor_person_id none)
  validate_project_creation (changed command.name p.name)
      (changed command.owning_team_id p.owning_team_id)
      (changed command.department_id p.department_id) (changed command.start_date p.start_date)
      (changed command.target_date p.target_date)
  written ←
      update projects_table (org_of ctx) p.id command.expected_version (edited_project command)
        s.projects
  ok (
      recorded_project ctx Action.update (some (Snapshot.project p)) decision
        WorkEvent.project_updated s written)

-- One round of the loop of `_narrow_contents`.
abbrev pub narrow : WorkContext → Visibility → Decision → Actor → Work → Store → Result Store
narrow ctx limit decision actor w s = elim (narrowing_to w.visibility limit) [
  | none ↦ ok s
  | some target ↦
      update works_table (org_of ctx) w.id w.version (shown_at target) s.works >>= λ written.
      ok
        (recorded_work ctx Action.change_visibility (some (Snapshot.work w)) decision actor
          (WorkEvent.work_visibility_changed w.visibility target) s written).1
]

unfoldable pub narrow_contents : WorkContext → Project → Decision → Store → Result Store
narrow_contents ctx p decision s =
    each (work_wider_than (org_of ctx) p.id p.visibility s)
      (narrow ctx p.visibility decision (cascade_actor ctx p.id)) s

unfoldable pub change_project_visibility :
    WorkContext → ChangeProjectVisibility → Store → Result (Project × Store)
change_project_visibility ctx command s = do
  p ← load projects_table ctx command.project_id s.projects
  decision ←
      authorize_work ctx Action.change_visibility ResourceType.project
        (project_relations (reach_of ctx s) p) (some p.id)
  written ←
      update projects_table (org_of ctx) p.id command.expected_version
        (λ x. record x { visibility = command.visibility }) s.projects
  let recorded =
      recorded_project ctx Action.change_visibility (some (Snapshot.project p)) decision
        (WorkEvent.project_visibility_changed p.visibility command.visibility) s written
  narrowed ← narrow_contents ctx recorded.0 decision recorded.1
  ok (recorded.0, narrowed)

abbrev pub cancel_milestone : WorkContext → Decision → Actor → Milestone → Store → Result Store
cancel_milestone ctx decision actor m s =
    apply_milestone_status ctx m MilestoneStatus.cancelled decision actor m.version s
    >>= λ (row, t). ok t

-- `proposed` work is rejected.
abbrev pub cancelled_status : WorkStatus → WorkStatus
cancelled_status status =
    if status == WorkStatus.proposed then WorkStatus.rejected else WorkStatus.cancelled

abbrev pub cancel_work : WorkContext → Decision → Actor → Work → Store → Result Store
cancel_work ctx decision actor w s =
    apply_work_status ctx w (cancelled_status w.status) decision none actor w.version s
    >>= λ (row, t). ok t

unfoldable pub cancel_contents : WorkContext → Project → Decision → Store → Result Store
cancel_contents ctx p decision s = do
  let actor = cascade_actor ctx p.id
  t ← each (open_milestones_of_project (org_of ctx) p.id s) (cancel_milestone ctx decision actor) s
  each (open_work_of_project (org_of ctx) p.id t) (cancel_work ctx decision actor) t

abbrev pub closure_of : WorkContext → Project → Store → ProjectClosureContext
closure_of ctx p s = record {
  open_milestones = count_open_milestones (org_of ctx) p.id s;
  work_in_progress_or_blocked = count_work_in_progress_or_blocked (org_of ctx) p.id s;
}

abbrev pub moved_project : ℕ → ProjectStatus → Project → Project
moved_project today target p = record p {
  status = target;
  actual_end_date = if target == ProjectStatus.completed then some today else p.actual_end_date;
}

unfoldable pub change_project_status :
    WorkContext → ChangeProjectStatus → Store → Result (Project × Store)
change_project_status ctx command s = do
  p ← load projects_table ctx command.project_id s.projects
  decision ←
      authorize_work ctx Action.change_state ResourceType.project
        (project_relations (reach_of ctx s) p) (some p.id)
  validate_project_transition p.status command.target (closure_of ctx p s)
  written ←
      update projects_table (org_of ctx) p.id command.expected_version
        (moved_project ctx.today command.target) s.projects
  let recorded =
      recorded_project ctx Action.change_state (some (Snapshot.project p)) decision
        (WorkEvent.project_status_changed p.status command.target) s written
  let emptied = cancel_contents ctx recorded.0 decision recorded.1
  settled ← if command.target == ProjectStatus.cancelled then emptied else ok (recorded.1)
  ok (recorded.0, settled)
