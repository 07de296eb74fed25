-- ===== src/Work/Service/Dependencies.antt =====
-- DependencyService of contexts/work/services.py, and `_settle_dependencies`.
use aiworkos.Base.{ℕ, Option, none, some, List, ◌==◌, if◌then◌else◌}
use aiworkos.Base.Result.{
  Result, ok, err, ◌>>=◌, ◌>>◌, raise_if, each, Resource, entity_not_found, br_d_06,
}
use aiworkos.Platform.Authz.Model.{Action, ResourceType, Decision}
use aiworkos.Platform.Repository.{update}
use aiworkos.Platform.Records.{Actor}
use aiworkos.Work.Vocabulary.{
  WorkStatus, MilestoneStatus, DependencyKind, DependencyStatus, dependency_kind_eq,
  dependency_status_eq,
}
use aiworkos.Work.Dependency.{Endpoint, EndpointType, DependencyEdge, validate_dependency}
use aiworkos.Work.Rows.{Dependency, dependencies_table}
use aiworkos.Work.Store.{
  Snapshot, WorkEvent, Store, WorkContext, org_of, created_by, authorize_work, audit, emit, insert,
  load,
}
use aiworkos.Work.Queries.{endpoint_exists, dependency_edges, active_dependencies_from}
use aiworkos.Work.Relations.{reach_of, dependency_relations}
use aiworkos.Work.Service.Commands.{CreateDependency, ChangeDependencyStatus}

abbrev pub endpoint_resource : EndpointType → Resource
endpoint_resource EndpointType.work = Resource.work
endpoint_resource EndpointType.milestone = Resource.milestone

abbrev pub assert_endpoint_exists : WorkContext → Endpoint → Store → Result (Unit {0})
assert_endpoint_exists ctx endpoint s =
    if endpoint_exists (org_of ctx) endpoint s
    then ok tt
    else err (entity_not_found (endpoint_resource endpoint.type) endpoint.id)

-- The edge that `create` asks to add, active.
abbrev pub candidate_of : CreateDependency → DependencyEdge
candidate_of command = record {
  blocker = command.blocker;
  blocked = command.blocked;
  kind = command.kind;
  status = DependencyStatus.active;
}

abbrev pub new_dependency : WorkContext → ℕ → CreateDependency → Dependency
new_dependency ctx new_id command = record {
  id = new_id;
  org_id = org_of ctx;
  blocker = command.blocker;
  blocked = command.blocked;
  kind = command.kind;
  status = DependencyStatus.active;
  rationale = command.rationale;
  created_by_person_id = created_by ctx;
  version = 1;
}

-- `_audit` and `_emit`, beside the rows that were written.
abbrev pub recorded_dependency :
    WorkContext
    → Action
    → Option Snapshot
    → Decision
    → Actor
    → WorkEvent
    → Store
    → Dependency × List Dependency
    → Dependency × Store
recorded_dependency ctx action before decision actor event s (row, rows) = (
  row,
  emit ctx event row.id actor (
      audit ctx action ResourceType.dependency row.id before (Snapshot.dependency row) decision
        actor (record s { dependencies = rows })),
)

unfoldable pub create_dependency :
    WorkContext → ℕ → CreateDependency → Store → Result (Dependency × Store)
create_dependency ctx new_id command s = do
  assert_endpoint_exists ctx command.blocker s
  assert_endpoint_exists ctx command.blocked s
  decision ←
      authorize_work ctx Action.create ResourceType.dependency
        (dependency_relations (reach_of ctx s) command.blocker command.blocked s) none
  validate_dependency (candidate_of command) (dependency_edges (org_of ctx) s) (org_of ctx)
      (org_of ctx)
  rows ← insert dependencies_table (new_dependency ctx new_id command) s.dependencies
  ok (
      recorded_dependency ctx Action.create none decision ctx.actor WorkEvent.dependency_created s
        (new_dependency ctx new_id command, rows))

-- `_apply_status`, where `expected` is the version that the guarded update asks for.
unfoldable pub apply_dependency_status :
    WorkContext
    → Dependency
    → DependencyStatus
    → Decision
    → Actor
    → ℕ
    → Store
    → Result (Dependency × Store)
apply_dependency_status ctx d target decision actor expected s = do
  raise_if (d.status == target) br_d_06
  written ←
      update dependencies_table (org_of ctx) d.id expected (λ x. record x { status = target })
        s.dependencies
  ok (
      recorded_dependency ctx Action.change_state (some (Snapshot.dependency d)) decision actor
        (WorkEvent.dependency_status_changed d.status target) s written)

unfoldable pub change_dependency_status :
    WorkContext → ChangeDependencyStatus → Store → Result (Dependency × Store)
change_dependency_status ctx command s = do
  d ← load dependencies_table ctx command.dependency_id s.dependencies
  decision ←
      authorize_work ctx Action.change_state ResourceType.dependency
        (dependency_relations (reach_of ctx s) d.blocker d.blocked s) (some d.id)
  apply_dependency_status ctx d command.target decision ctx.actor command.expected_version s

-- `_BLOCKER_SETTLEMENT`, at the statuses of a Work and at those of a milestone.
abbrev pub work_settlement : WorkStatus → Option DependencyStatus
work_settlement WorkStatus.done = some DependencyStatus.resolved
work_settlement WorkStatus.cancelled = some DependencyStatus.withdrawn
work_settlement WorkStatus.rejected = some DependencyStatus.withdrawn
work_settlement _ = none

abbrev pub milestone_settlement : MilestoneStatus → Option DependencyStatus
milestone_settlement MilestoneStatus.achieved = some DependencyStatus.resolved
milestone_settlement MilestoneStatus.cancelled = some DependencyStatus.withdrawn
milestone_settlement _ = none

-- One round of the loop of `_settle_dependencies`.
abbrev pub settle :
    WorkContext → DependencyStatus → Decision → Actor → Dependency → Store → Result Store
settle ctx target decision actor d s =
    let settled =
      apply_dependency_status ctx d target decision actor d.version s >>= λ (row, t). ok t in
    if d.kind == DependencyKind.blocks then settled else ok s

-- The third argument is what the blocker's new status settles its dependencies to, if anything.
unfoldable pub settle_dependencies :
    WorkContext → Endpoint → Option DependencyStatus → Decision → Actor → Store → Result Store
settle_dependencies ctx endpoint none decision actor s = ok s
settle_dependencies ctx endpoint (some target) decision actor s =
    each (active_dependencies_from (org_of ctx) endpoint s) (settle ctx target decision actor) s
