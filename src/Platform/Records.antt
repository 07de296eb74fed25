-- ===== src/Platform/Records.antt =====
-- What every use case writes beside its rows: the actor (platform/actor.py), the audit entry
-- (platform/audit.py) and the domain event (platform/outbox.py). Ids and times of entries, and what
-- an event's payload repeats of the row, are not modelled.
use aiworkos.Base.{ℕ, Bool, true, false, ◌||◌, Option, is_none, if◌then◌else◌}
use aiworkos.Platform.Authz.Model.{Action, ResourceType, Decision}

pub data ActorType : Type 0 where
  person system ai : ActorType

-- `cascaded_from` is the entry of `extra` that a cascade sets, with the id of its origin.
pub record Actor : Type 0 where
  pub type : ActorType
  pub person_id : Option ℕ
  pub ai_interaction_id : Option ℕ
  pub approval_record_id : Option ℕ
  pub cascaded_from : Option ℕ

-- `Actor.__post_init__`
unfoldable pub is_valid_actor : Actor → Bool
is_valid_actor a = elim a.type [
  | ActorType.system ↦ true
  | ActorType.person ↦ if is_none a.person_id then false else true
  | ActorType.ai ↦ if is_none a.ai_interaction_id || is_none a.person_id then false else true
]

pub record AuditEntry (Snapshot : Type 0) : Type 0 where
  pub org_id : ℕ
  pub actor : Actor
  pub action : Action
  pub resource_type : ResourceType
  pub resource_id : ℕ
  pub before : Option Snapshot
  pub after : Option Snapshot
  pub decision : Decision

pub record DomainEvent (EventType : Type 0) : Type 0 where
  pub org_id : ℕ
  pub type : EventType
  pub aggregate_id : ℕ
  pub actor : Actor
