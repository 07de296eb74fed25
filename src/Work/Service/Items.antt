-- ===== src/Work/Service/Items.antt =====
-- WorkService of contexts/work/services.py.
use aiworkos.Base.{
  ℕ, not, ◌&&◌, Option, none, some, List, ◌==◌, nat_eq, option_eq, is_none, if◌then◌else◌,
}
use aiworkos.Base.Text.{Text}
use aiworkos.Base.Result.{Result, ok, ◌>>=◌, ◌>>◌, raise_if, br_p_06, br_w_01}
use aiworkos.Platform.Authz.Model.{Action, ResourceType, Decision}
use aiworkos.Platform.Repository.{update}
use aiworkos.Platform.Records.{Actor}
use aiworkos.Work.Vocabulary.{WorkStatus, ProjectStatus, Visibility, work_status_eq}
use aiworkos.Work.Visibility.{effective_work_visibility}
use aiworkos.Work.Lifecycle.{
  WorkTransitionContext, validate_work_transition, completed_at_for, validate_work_creation,
}
use aiworkos.Work.Hierarchy.{ancestor_ids, validate_work_hierarchy}
use aiworkos.Work.Dependency.{EndpointType}
use aiworkos.Work.Rows.{Project, Work, projects_table, milestones_table, works_table}
use aiworkos.Work.Store.{
  Snapshot, WorkEvent, Store, WorkContext, org_of, created_by, authorize_work, audit, emit, insert,
  load,
}
use aiworkos.Work.Queries.{parents_of, has_open_children, has_active_blocking_dependency}
use aiworkos.Work.Relations.{
  reach_of, milestone_relations, work_relations, work_authorship_relations, work_project,
}
use aiworkos.Work.Service.Commands.{
  Maybe, unset, set_to, value_or_none, changed, CreateWork, UpdateWork, ChangeWorkStatus,
  ChangeWorkVisibility,
}
use aiworkos.Work.Service.Dependencies.{work_settlement, settle_dependencies}
use aiworkos.Work.Service.Milestones.{is_blanked}

-- `_audit` and `_emit`, beside the rows that were written.
abbrev pub recorded_work :
    WorkContext
    → Action
    → Option Snapshot
    → Decision
    → Actor
    → WorkEvent
    → Store
    → Work × List Work
    → Work × Store
recorded_work ctx action before decision actor event s (row, rows) = (
  row,
  emit ctx event row.id actor (
      audit ctx action ResourceType.work row.id before (Snapshot.work row) decision actor
        (record s { works = rows })),
)

-- The Project of a command that names one.
abbrev pub load_project_of : WorkContext → Option ℕ → Store → Result (Option Project)
load_project_of ctx none s = ok none
load_project_of ctx (some project_id) s = do
  p ← load projects_table ctx project_id s.projects
  ok (some p)

-- The milestone of a command that names one has to stand in the Project that it names.
abbrev pub assert_milestone_within : WorkContext → Option ℕ → Option ℕ → Store → Result (Unit {0})
assert_milestone_within ctx none project_id s = ok tt
assert_milestone_within ctx (some milestone_id) project_id s = do
  m ← load milestones_table ctx milestone_id s.milestones
  raise_if (not (some m.project_id == project_id)) br_p_06

abbrev pub visibility_of : Option Project → Option Visibility
visibility_of none = none
visibility_of (some p) = some p.visibility

abbrev pub status_of : Option Project → Option ProjectStatus
status_of none = none
status_of (some p) = some p.status

-- The parent of a command that names one; `probe_id` is the throwaway id of the new Work.
abbrev pub assert_parent : WorkContext → ℕ → Option ℕ → Store → Result (Unit {0})
assert_parent ctx probe_id none s = ok tt
assert_parent ctx probe_id (some parent_id) s = do
  parent ← load works_table ctx parent_id s.works
  validate_work_hierarchy probe_id (some parent.id)
      (ancestor_ids (parents_of (org_of ctx) s) parent.id)

abbrev pub new_work : WorkContext → ℕ → CreateWork → WorkStatus → Visibility → Work
new_work ctx new_id command status visibility = record {
  id = new_id;
  org_id = org_of ctx;
  project_id = command.project_id;
  milestone_id = command.milestone_id;
  parent_work_id = command.parent_work_id;
  title = command.title;
  description = command.description;
  type = command.type;
  status = status;
  priority = command.priority;
  due_date = command.due_date;
  blocked_reason = none;
  started_at = none;
  completed_at = none;
  source = command.source;
  visibility = visibility;
  created_by_person_id = created_by ctx;
  version = 1;
}

unfoldable pub create_work : WorkContext → ℕ → ℕ → CreateWork → Store → Result (Work × Store)
create_work ctx new_id probe_id command s = do
  status ←
      validate_work_creation command.title command.source command.project_id command.milestone_id
  p ← load_project_of ctx command.project_id s
  assert_milestone_within ctx command.milestone_id command.project_id s
  visibility ←
      effective_work_visibility (value_or_none command.visibility) (visibility_of p) Visibility.team
  assert_parent ctx probe_id command.parent_work_id s
  decision ←
      authorize_work ctx Action.create ResourceType.work (milestone_relations (reach_of ctx s) p)
        none
  rows ← insert works_table (new_work ctx new_id command status visibility) s.works
  ok (
      recorded_work ctx Action.create none decision ctx.actor WorkEvent.work_created s
        (new_work ctx new_id command status visibility, rows))

-- A milestone that the edited Work refers to has to stand in the Project that it refers to.
abbrev pub assert_next_milestone : WorkContext → Option ℕ → Option ℕ → Store → Result (Unit {0})
assert_next_milestone ctx none project_id s = ok tt
assert_next_milestone ctx (some milestone_id) project_id s = do
  raise_if (is_none project_id) br_p_06
  assert_milestone_within ctx (some milestone_id) project_id s

-- The hierarchy is checked where the command sets a parent.
abbrev pub assert_next_parent : WorkContext → ℕ → Maybe (Option ℕ) → Store → Result (Unit {0})
assert_next_parent ctx work_id unset s = ok tt
assert_next_parent ctx work_id (set_to none) s = ok tt
assert_next_parent ctx work_id (set_to (some parent_id)) s =
    validate_work_hierarchy work_id (some parent_id)
      (ancestor_ids (parents_of (org_of ctx) s) parent_id)

abbrev pub edited_work : UpdateWork → Work → Work
edited_work command w = record w {
  title = changed command.title w.title;
  description = changed command.description w.description;
  type = changed command.type w.type;
  priority = changed command.priority w.priority;
  due_date = changed command.due_date w.due_date;
  project_id = changed command.project_id w.project_id;
  milestone_id = changed command.milestone_id w.milestone_id;
  parent_work_id = changed command.parent_work_id w.parent_work_id;
}

-- `update`
unfoldable pub edit_work : WorkContext → UpdateWork → Store → Result (Work × Store)
edit_work ctx command s = do
  w ← load works_table ctx command.work_id s.works
  decision ←
      authorize_work ctx Action.update ResourceType.work
        (work_authorship_relations (reach_of ctx s) w (work_project w s)) (some w.id)
  raise_if (is_blanked command.title) br_w_01
  assert_next_milestone ctx (changed command.milestone_id w.milestone_id)
      (changed command.project_id w.project_id) s
  assert_next_parent ctx w.id command.parent_work_id s
  written ←
      update works_table (org_of ctx) w.id command.expected_version (edited_work command) s.works
  ok (
      recorded_work ctx Action.update (some (Snapshot.work w)) decision ctx.actor
        WorkEvent.work_updated s written)

abbrev pub shown_at : Visibility → Work → Work
shown_at visibility w = record w { visibility = visibility }

unfoldable pub change_work_visibility :
    WorkContext → ChangeWorkVisibility → Store → Result (Work × Store)
change_work_visibility ctx command s = do
  w ← load works_table ctx command.work_id s.works
  decision ←
      authorize_work ctx Action.change_visibility ResourceType.work
        (work_relations (reach_of ctx s) w (work_project w s)) (some w.id)
  allowed ←
      effective_work_visibility (some command.visibility) (visibility_of (work_project w s))
        command.visibility
  written ←
      update works_table (org_of ctx) w.id command.expected_version (shown_at command.visibility)
        s.works
  ok (
      recorded_work ctx Action.change_visibility (some (Snapshot.work w)) decision ctx.actor
        (WorkEvent.work_visibility_changed w.visibility command.visibility) s written)

abbrev pub transition_context : WorkContext → Work → Option Text → Store → WorkTransitionContext
transition_context ctx w blocked_reason s = record {
  has_active_blocking_dependency = has_active_blocking_dependency (org_of ctx) w.id s;
  has_open_children = has_open_children (org_of ctx) w.id s;
  project_status = status_of (work_project w s);
  blocked_reason = blocked_reason;
}

-- The values that a status change sets, where `loaded` is the row that was read.
abbrev pub moved_work : ℕ → WorkStatus → Option Text → Work → Work → Work
moved_work now target blocked_reason loaded w = record w {
  status = target;
  completed_at = completed_at_for target now;
  blocked_reason =
      if target == WorkStatus.blocked
      then blocked_reason
      else if loaded.status == WorkStatus.blocked
      then none
      else w.blocked_reason;
  started_at =
      if (target == WorkStatus.in_progress) && is_none loaded.started_at
      then some now
      else w.started_at;
}

-- `WorkCompleted`, beside the change of status.
abbrev pub completed : WorkContext → WorkStatus → Actor → Work × Store → Store
completed ctx target actor (row, s) =
    if target == WorkStatus.done then emit ctx WorkEvent.work_completed row.id actor s else s

-- `apply_status`, where `expected` is the version that the guarded update asks for.
unfoldable pub apply_work_status :
    WorkContext
    → Work
    → WorkStatus
    → Decision
    → Option Text
    → Actor
    → ℕ
    → Store
    → Result (Work × Store)
apply_work_status ctx w target decision blocked_reason actor expected s = do
  validate_work_transition w.status target (transition_context ctx w blocked_reason s)
  written ←
      update works_table (org_of ctx) w.id expected (moved_work ctx.now target blocked_reason w)
        s.works
  let recorded =
      recorded_work ctx Action.change_state (some (Snapshot.work w)) decision actor
        (WorkEvent.work_status_changed w.status target) s written
  settled ←
      settle_dependencies ctx (record { type = EndpointType.work; id = recorded.0.id })
        (work_settlement target) decision actor (completed ctx target actor recorded)
  ok (recorded.0, settled)

unfoldable pub change_work_status : WorkContext → ChangeWorkStatus → Store → Result (Work × Store)
change_work_status ctx command s = do
  w ← load works_table ctx command.work_id s.works
  decision ←
      authorize_work ctx Action.change_state ResourceType.work
        (work_authorship_relations (reach_of ctx s) w (work_project w s)) (some w.id)
  apply_work_status ctx w command.target decision command.blocked_reason ctx.actor
      command.expected_version s
