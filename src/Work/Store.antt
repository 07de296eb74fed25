-- ===== src/Work/Store.antt =====
-- The state of the Work Core's services, and what every use case shares: the caller, the records that
-- a write leaves (`_audit`, `_emit`), the insertion and the loaders. A table's rows stand in the
-- order of their insertion, which is the order of their ids and of assigned_at. Of the constraints on
-- the tables, only the primary keys are modelled: the others, and the triggers, could only refuse
-- more.
use aiworkos.Base.{
  ℕ, Bool, Option, none, some, List, [], ◌∷◌, ◌++◌, nat_eq, option_eq, is_some, if◌then◌else◌,
}
use aiworkos.Base.Table.{find}
use aiworkos.Base.Result.{Result, ok, err, entity_not_found, integrity_error}
use aiworkos.Platform.Authz.Model.{Action, Relation, ResourceType, Principal, Decision}
use aiworkos.Platform.Authz.Policy.{authorize}
use aiworkos.Platform.Repository.{Versioned, get}
use aiworkos.Platform.Records.{Actor, AuditEntry, DomainEvent}
use aiworkos.Identity.Vocabulary.{PersonStatus}
use aiworkos.Work.Vocabulary.{
  WorkStatus, ProjectStatus, MilestoneStatus, DependencyStatus, Visibility, work_status_eq,
  milestone_status_eq, assignment_status_eq, dependency_kind_eq, dependency_status_eq,
}
use aiworkos.Work.Dependency.{endpoint_eq}
use aiworkos.Work.Rows.{Project, Milestone, Work, WorkAssignment, Dependency}

-- `_snapshot`: every column of a row.
pub data Snapshot : Type 0 where
  project : Project → Snapshot
  milestone : Milestone → Snapshot
  work : Work → Snapshot
  assignment : WorkAssignment → Snapshot
  dependency : Dependency → Snapshot

-- The types of the events that the services emit, with the statuses or levels that two of their
-- payloads name beside the row.
pub data WorkEvent : Type 0 where
  project_created project_updated milestone_created milestone_updated : WorkEvent
  work_created work_updated work_completed : WorkEvent
  work_assigned work_assignment_ended dependency_created : WorkEvent
  project_visibility_changed work_visibility_changed : Visibility → Visibility → WorkEvent
  project_status_changed : ProjectStatus → ProjectStatus → WorkEvent
  milestone_status_changed : MilestoneStatus → MilestoneStatus → WorkEvent
  work_status_changed : WorkStatus → WorkStatus → WorkEvent
  dependency_status_changed : DependencyStatus → DependencyStatus → WorkEvent

pub record Store : Type 0 where
  pub projects : List Project
  pub milestones : List Milestone
  pub works : List Work
  pub assignments : List WorkAssignment
  pub dependencies : List Dependency
  pub audit : List (AuditEntry Snapshot)
  pub outbox : List (DomainEvent WorkEvent)

-- What the Identity context answers about an organization and an id.
pub record Identity : Type 0 where
  pub team_exists : ℕ → ℕ → Bool
  pub department_exists : ℕ → ℕ → Bool
  pub person_exists : ℕ → ℕ → Bool
  pub person_status : ℕ → ℕ → Option PersonStatus
  pub departments_led_by : ℕ → ℕ → List ℕ
  pub team_ids_for_person : ℕ → ℕ → List ℕ
  pub team_ids_in_departments : ℕ → List ℕ → List ℕ

-- `ServiceContext`, with the Identity context and the clock: the day and the instant of the call.
pub record WorkContext : Type 0 where
  pub principal : Principal
  pub actor : Actor
  pub identity : Identity
  pub today : ℕ
  pub now : ℕ

abbrev pub org_of : WorkContext → ℕ
org_of ctx = ctx.principal.org_id

-- `_created_by`
abbrev pub created_by : WorkContext → Option ℕ
created_by ctx = ctx.actor.person_id

-- `_cascade_actor`: the same actor, with the id of the row that the change started from.
abbrev pub cascade_actor : WorkContext → ℕ → Actor
cascade_actor ctx origin_id = record (ctx.actor) { cascaded_from = some origin_id }

abbrev pub authorize_work :
    WorkContext → Action → ResourceType → List Relation → Option ℕ → Result Decision
authorize_work ctx action resource_type relations resource_id =
    authorize ctx.principal action (record {
      type = resource_type;
      org_id = org_of ctx;
      id = resource_id;
      relations = relations;
    })

-- `self._audit(...)`, where `actor` is the one that is written.
abbrev pub audit :
    WorkContext
    → Action
    → ResourceType
    → ℕ
    → Option Snapshot
    → Snapshot
    → Decision
    → Actor
    → Store
    → Store
audit ctx action resource_type resource_id before after decision actor s = record s {
  audit =
      s.audit
      ++ record {
        org_id = org_of ctx;
        actor = actor;
        action = action;
        resource_type = resource_type;
        resource_id = resource_id;
        before = before;
        after = some after;
        decision = decision;
      }
        ∷ [];
}

-- `self._emit(...)`
abbrev pub emit : WorkContext → WorkEvent → ℕ → Actor → Store → Store
emit ctx type aggregate_id actor s = record s {
  outbox =
      s.outbox
      ++ record { org_id = org_of ctx; type = type; aggregate_id = aggregate_id; actor = actor }
        ∷ [];
}

-- `session.add(row)` and `flush`: an id that is taken is refused.
abbrev pub insert : {A : Type 0} → Versioned A → A → List A → Result (List A)
insert table row rows =
    if is_some (find table.id (table.id row) rows)
    then err integrity_error
    else ok (rows ++ row ∷ [])

-- `_load_...`: the row of this organization, or EntityNotFound.
abbrev pub load : {A : Type 0} → Versioned A → WorkContext → ℕ → List A → Result A
load table ctx id rows = elim (get table (org_of ctx) id rows) [
  | none ↦ err (entity_not_found table.resource id)
  | some row ↦ ok row
]
