-- ===== src/Commitment/Store.antt =====
-- The commands of contexts/commitment/commands.py, and the state of the Commitment services.
use aiworkos.Base.{ℕ, Bool, Option, List, nat_eq, option_eq, is_some}
use aiworkos.Base.Int.{ℤ}
use aiworkos.Base.Text.{Text}
use aiworkos.Platform.Authz.Model.{Principal}
use aiworkos.Platform.Records.{Actor, AuditEntry, DomainEvent}
use aiworkos.Commitment.Vocabulary.{
  CommitmentStatus, DuePrecision, commitment_status_eq, due_precision_eq,
}
use aiworkos.Commitment.Repository.{Commitment}

pub record CreateCommitment : Type 0 where
  pub statement : Text
  pub committed_by_person_id : ℕ
  pub committed_to_person_id : Option ℕ
  pub committed_to_team_id : Option ℕ
  pub due_date : Option ℕ
  pub due_precision : DuePrecision
  pub fulfilling_work_id : Option ℕ
  pub project_id : Option ℕ
  pub origin_event_id : Option ℕ
  pub confidence : ℤ
  pub evidence_ids : List ℕ

pub record UpdateCommitment : Type 0 where
  pub commitment_id : ℕ
  pub expected_version : ℕ
  pub statement : Option Text
  pub due_date : Option ℕ
  pub due_precision : Option DuePrecision
  pub fulfilling_work_id : Option ℕ
  pub project_id : Option ℕ

pub record ChangeCommitmentStatus : Type 0 where
  pub commitment_id : ℕ
  pub expected_version : ℕ
  pub target : CommitmentStatus
  pub new_due_date : Option ℕ
  pub approval_record_id : Option ℕ

-- `_snapshot`: the values that an audit entry keeps of a row.
pub record Snapshot : Type 0 where
  pub id : ℕ
  pub statement : Text
  pub committed_by_person_id : ℕ
  pub committed_to_person_id : Option ℕ
  pub committed_to_team_id : Option ℕ
  pub due_date : Option ℕ
  pub due_precision : DuePrecision
  pub status : CommitmentStatus
  pub fulfilling_work_id : Option ℕ
  pub origin_event_id : Option ℕ
  pub previous_due_date : Option ℕ
  pub confidence : ℤ

abbrev pub snapshot : Commitment → Snapshot
snapshot c = record {
  id = c.id;
  statement = c.statement;
  committed_by_person_id = c.committed_by_person_id;
  committed_to_person_id = c.committed_to_person_id;
  committed_to_team_id = c.committed_to_team_id;
  due_date = c.due_date;
  due_precision = c.due_precision;
  status = c.status;
  fulfilling_work_id = c.fulfilling_work_id;
  origin_event_id = c.origin_event_id;
  previous_due_date = c.previous_due_date;
  confidence = c.confidence;
}

-- The type of an event: `CommitmentCreated`, `CommitmentUpdated`, or `Commitment` and a status.
pub data CommitmentEvent : Type 0 where
  created updated : CommitmentEvent
  became : CommitmentStatus → CommitmentEvent

pub record Store : Type 0 where
  pub commitments : List Commitment
  pub audit : List (AuditEntry Snapshot)
  pub outbox : List (DomainEvent CommitmentEvent)

pub record ServiceContext : Type 0 where
  pub principal : Principal
  pub actor : Actor
  pub leads_team_ids : List ℕ

abbrev pub is_ai_actor : ServiceContext → Bool
is_ai_actor ctx = is_some ctx.actor.ai_interaction_id

-- What the other contexts answer: whether an organization has the row of this id.
pub record References : Type 0 where
  pub person_exists : ℕ → ℕ → Bool
  pub team_exists : ℕ → ℕ → Bool
  pub work_exists : ℕ → ℕ → Bool
  pub project_exists : ℕ → ℕ → Bool
  pub event_exists : ℕ → ℕ → Bool
