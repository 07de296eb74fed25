-- ===== src/Work/Service/Milestones.antt =====
-- MilestoneService of contexts/work/services.py.
use aiworkos.Base.{ℕ, Bool, false, Option, none, some, List, ◌==◌, if◌then◌else◌}
use aiworkos.Base.Text.{Text, strip, is_empty}
use aiworkos.Base.Result.{Result, ok, ◌>>=◌, ◌>>◌, raise_if, br_p_01}
use aiworkos.Platform.Authz.Model.{Action, ResourceType, Decision}
use aiworkos.Platform.Repository.{update}
use aiworkos.Platform.Records.{Actor}
use aiworkos.Work.Vocabulary.{MilestoneStatus, milestone_status_eq}
use aiworkos.Work.Project.{validate_milestone_transition}
use aiworkos.Work.Dependency.{EndpointType}
use aiworkos.Work.Rows.{Milestone, milestones_table, projects_table}
use aiworkos.Work.Store.{
  Snapshot, WorkEvent, Store, WorkContext, org_of, created_by, authorize_work, audit, emit, insert,
  load,
}
use aiworkos.Work.Relations.{reach_of, project_relations, milestone_relations, milestone_project}
use aiworkos.Work.Service.Commands.{
  Maybe, unset, set_to, changed, CreateMilestone, UpdateMilestone, ChangeMilestoneStatus,
}
use aiworkos.Work.Service.Dependencies.{milestone_settlement, settle_dependencies}

-- `_audit` and `_emit`, beside the rows that were written.
abbrev pub recorded_milestone :
    WorkContext
    → Action
    → Option Snapshot
    → Decision
    → Actor
    → WorkEvent
    → Store
    → Milestone × List Milestone
    → Milestone × Store
recorded_milestone ctx action before decision actor event s (row, rows) = (
  row,
  emit ctx event row.id actor (
      audit ctx action ResourceType.milestone row.id before (Snapshot.milestone row) decision actor
        (record s { milestones = rows })),
)

abbrev pub new_milestone : WorkContext → ℕ → ℕ → CreateMilestone → Milestone
new_milestone ctx new_id project_id command = record {
  id = new_id;
  org_id = org_of ctx;
  project_id = project_id;
  name = command.name;
  description = command.description;
  acceptance_criteria = command.acceptance_criteria;
  target_date = command.target_date;
  actual_date = none;
  status = MilestoneStatus.planned;
  order_index = command.order_index;
  created_by_person_id = created_by ctx;
  version = 1;
}

unfoldable pub create_milestone :
    WorkContext → ℕ → CreateMilestone → Store → Result (Milestone × Store)
create_milestone ctx new_id command s = do
  p ← load projects_table ctx command.project_id s.projects
  decision ←
      authorize_work ctx Action.create ResourceType.milestone (project_relations (reach_of ctx s) p)
        none
  raise_if (is_empty (strip command.name)) br_p_01
  rows ← insert milestones_table (new_milestone ctx new_id p.id command) s.milestones
  ok (
      recorded_milestone ctx Action.create none decision ctx.actor WorkEvent.milestone_created s
        (new_milestone ctx new_id p.id command, rows))

-- `"name" in changes and not str(changes["name"]).strip()`
abbrev pub is_blanked : Maybe Text → Bool
is_blanked unset = false
is_blanked (set_to text) = is_empty (strip text)

abbrev pub edited_milestone : UpdateMilestone → Milestone → Milestone
edited_milestone command m = record m {
  name = changed command.name m.name;
  description = changed command.description m.description;
  acceptance_criteria = changed command.acceptance_criteria m.acceptance_criteria;
  target_date = changed command.target_date m.target_date;
  order_index = changed command.order_index m.order_index;
}

-- `update`
unfoldable pub edit_milestone : WorkContext → UpdateMilestone → Store → Result (Milestone × Store)
edit_milestone ctx command s = do
  m ← load milestones_table ctx command.milestone_id s.milestones
  decision ←
      authorize_work ctx Action.update ResourceType.milestone
        (milestone_relations (reach_of ctx s) (milestone_project m s)) (some m.id)
  raise_if (is_blanked command.name) br_p_01
  written ←
      update milestones_table (org_of ctx) m.id command.expected_version (edited_milestone command)
        s.milestones
  ok (
      recorded_milestone ctx Action.update (some (Snapshot.milestone m)) decision ctx.actor
        WorkEvent.milestone_updated s written)

abbrev pub moved_milestone : ℕ → MilestoneStatus → Milestone → Milestone
moved_milestone today target m = record m {
  status = target;
  actual_date = if target == MilestoneStatus.achieved then some today else m.actual_date;
}

-- `apply_status`, where `expected` is the version that the guarded update asks for.
unfoldable pub apply_milestone_status :
    WorkContext
    → Milestone
    → MilestoneStatus
    → Decision
    → Actor
    → ℕ
    → Store
    → Result (Milestone × Store)
apply_milestone_status ctx m target decision actor expected s = do
  validate_milestone_transition m.status target
  written ←
      update milestones_table (org_of ctx) m.id expected (moved_milestone ctx.today target)
        s.milestones
  let recorded =
      recorded_milestone ctx Action.change_state (some (Snapshot.milestone m)) decision actor
        (WorkEvent.milestone_status_changed m.status target) s written
  settled ←
      settle_dependencies ctx (record { type = EndpointType.milestone; id = recorded.0.id })
        (milestone_settlement target) decision actor recorded.1
  ok (recorded.0, settled)

unfoldable pub change_milestone_status :
    WorkContext → ChangeMilestoneStatus → Store → Result (Milestone × Store)
change_milestone_status ctx command s = do
  m ← load milestones_table ctx command.milestone_id s.milestones
  decision ←
      authorize_work ctx Action.change_state ResourceType.milestone
        (milestone_relations (reach_of ctx s) (milestone_project m s)) (some m.id)
  apply_milestone_status ctx m command.target decision ctx.actor command.expected_version s
