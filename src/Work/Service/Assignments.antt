-- ===== src/Work/Service/Assignments.antt =====
-- AssignmentService of contexts/work/services.py.
use aiworkos.Base.{ℕ, Bool, ◌&&◌, Option, none, some, List, [], ◌∷◌, ◌==◌, nat_eq, if◌then◌else◌}
use aiworkos.Base.Result.{
  Result, ok, ◌>>=◌, ◌>>◌, raise_if, violation, each, br_g_01, br_w_13, br_w_14,
}
use aiworkos.Platform.Authz.Model.{Action, ResourceType, Decision}
use aiworkos.Platform.Repository.{update}
use aiworkos.Identity.Vocabulary.{PersonStatus}
use aiworkos.Work.Vocabulary.{
  AssignmentRole, AssignmentStatus, assignment_role_eq, assignment_status_eq,
}
use aiworkos.Work.Assignment.{validate_assignment}
use aiworkos.Work.Rows.{Work, WorkAssignment, assignments_table, works_table}
use aiworkos.Work.Store.{
  Snapshot, WorkEvent, Store, WorkContext, org_of, created_by, authorize_work, audit, emit, insert,
  load,
}
use aiworkos.Work.Queries.{assignments_for_work, existing_assignments}
use aiworkos.Work.Relations.{
  reach_of, work_project, assignment_creation_relations, assignment_relations,
}
use aiworkos.Work.Service.Commands.{AssignWork, EndAssignment, SetOwner, ReassignOwner}

-- `_audit` and `_emit`, beside the rows that were written.
abbrev pub recorded_assignment :
    WorkContext
    → Action
    → Option Snapshot
    → Decision
    → WorkEvent
    → Store
    → WorkAssignment × List WorkAssignment
    → WorkAssignment × Store
recorded_assignment ctx action before decision event s (row, rows) = (
  row,
  emit ctx event row.id ctx.actor (
      audit ctx action ResourceType.work_assignment row.id before (Snapshot.assignment row) decision
        ctx.actor (record s { assignments = rows })),
)

abbrev pub new_assignment : WorkContext → ℕ → Work → AssignWork → WorkAssignment
new_assignment ctx new_id w command = record {
  id = new_id;
  org_id = org_of ctx;
  work_id = w.id;
  person_id = command.person_id;
  role = command.role;
  is_primary = command.is_primary;
  status = AssignmentStatus.active;
  assigned_by_actor = ctx.actor;
  ended_at = none;
  source = command.source;
  created_by_person_id = created_by ctx;
  version = 1;
}

abbrev pub known_status : Option PersonStatus → Result PersonStatus
known_status none = violation br_g_01
known_status (some status) = ok status

-- `_create`
unfoldable pub create_assignment :
    WorkContext → ℕ → Work → AssignWork → Decision → Store → Result (WorkAssignment × Store)
create_assignment ctx new_id w command decision s = do
  status ← known_status (ctx.identity.person_status (org_of ctx) command.person_id)
  validate_assignment command.person_id command.role command.is_primary status
      (existing_assignments (org_of ctx) w.id s)
  rows ← insert assignments_table (new_assignment ctx new_id w command) s.assignments
  ok (
      recorded_assignment ctx Action.assign none decision WorkEvent.work_assigned s
        (new_assignment ctx new_id w command, rows))

-- The values of `repository.end_assignment`.
abbrev pub ended_assignment : ℕ → WorkAssignment → WorkAssignment
ended_assignment now a = record a { status = AssignmentStatus.ended; ended_at = some now }

-- `_end`, where `expected` is the version that the guarded update asks for.
unfoldable pub end_assignment :
    WorkContext → WorkAssignment → Decision → ℕ → Store → Result (WorkAssignment × Store)
end_assignment ctx a decision expected s = do
  raise_if (a.status == AssignmentStatus.ended) br_w_14
  written ←
      update assignments_table (org_of ctx) a.id expected (ended_assignment ctx.now) s.assignments
  ok (
      recorded_assignment ctx Action.end_assignment (some (Snapshot.assignment a)) decision
        WorkEvent.work_assignment_ended s written)

unfoldable pub assign : WorkContext → ℕ → AssignWork → Store → Result (WorkAssignment × Store)
assign ctx new_id command s = do
  w ← load works_table ctx command.work_id s.works
  decision ←
      authorize_work ctx Action.assign ResourceType.work_assignment
        (assignment_creation_relations (reach_of ctx s) w (work_project w s)
          (some command.person_id))
        none
  create_assignment ctx new_id w command decision s

-- An active assignment in the role of owner.
abbrev pub is_incumbent : WorkAssignment → Bool
is_incumbent a = (a.status == AssignmentStatus.active) && (a.role == AssignmentRole.owner)

-- One round of the loop of `reassign_owner`.
abbrev pub end_incumbent : WorkContext → Decision → WorkAssignment → Store → Result Store
end_incumbent ctx decision a s =
    let ended = end_assignment ctx a decision a.version s >>= λ (row, t). ok t in
    if is_incumbent a then ended else ok s

unfoldable pub reassign_owner :
    WorkContext → ℕ → ReassignOwner → Store → Result (WorkAssignment × Store)
reassign_owner ctx new_id command s = do
  w ← load works_table ctx command.work_id s.works
  decision ←
      authorize_work ctx Action.reassign ResourceType.work_assignment
        (assignment_creation_relations (reach_of ctx s) w (work_project w s) none) none
  vacated ← each (assignments_for_work (org_of ctx) w.id s) (end_incumbent ctx decision) s
  create_assignment ctx new_id w
      (record {
        work_id = command.work_id;
        person_id = command.person_id;
        role = AssignmentRole.owner;
        is_primary = command.is_primary;
        source = command.source;
      })
      decision vacated

-- `next((a for a in assignments if ...), None)`
abbrev pub incumbent_of : List WorkAssignment → Option WorkAssignment
incumbent_of [] = none
incumbent_of (a ∷ rest) = let later = incumbent_of rest in if is_incumbent a then some a else later

-- The permission that the seat asks for, and the state in which it is free.
unfoldable pub vacate :
    WorkContext → Work → ℕ → Option WorkAssignment → Store → Result (Decision × Store)
vacate ctx w person_id none s = do
  decision ←
      authorize_work ctx Action.assign ResourceType.work_assignment
        (assignment_creation_relations (reach_of ctx s) w (work_project w s) (some person_id)) none
  ok (decision, s)
vacate ctx w person_id (some incumbent) s = do
  raise_if (incumbent.person_id == person_id) br_w_13
  decision ←
      authorize_work ctx Action.reassign ResourceType.work_assignment
        (assignment_creation_relations (reach_of ctx s) w (work_project w s) none) none
  ended ← end_assignment ctx incumbent decision incumbent.version s
  ok (decision, ended.1)

unfoldable pub set_owner : WorkContext → ℕ → SetOwner → Store → Result (WorkAssignment × Store)
set_owner ctx new_id command s = do
  w ← load works_table ctx command.work_id s.works
  vacated ←
      vacate ctx w command.person_id (incumbent_of (assignments_for_work (org_of ctx) w.id s)) s
  create_assignment ctx new_id w
      (record {
        work_id = command.work_id;
        person_id = command.person_id;
        role = AssignmentRole.owner;
        is_primary = command.is_primary;
        source = command.source;
      })
      vacated.0 vacated.1

-- `end`
unfoldable pub end_by_command :
    WorkContext → EndAssignment → Store → Result (WorkAssignment × Store)
end_by_command ctx command s = do
  a ← load assignments_table ctx command.assignment_id s.assignments
  w ← load works_table ctx a.work_id s.works
  decision ←
      authorize_work ctx Action.end_assignment ResourceType.work_assignment
        (assignment_relations (reach_of ctx s) (work_project w s) a) (some a.id)
  end_assignment ctx a decision command.expected_version s
