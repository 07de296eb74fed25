-- ===== src/Commitment/Service.antt =====
-- CommitmentService of contexts/commitment/services.py, with the relations of
-- contexts/commitment/authorization.py. Each operation returns its row and the state that its
-- transaction commits, or raises, and then nothing is committed.
pub mod Rows
pub mod Effects
pub mod Creation
pub mod Outcomes
pub mod Transitions
pub mod History
pub mod Trail
pub mod Checks
use aiworkos.Base.{
  ℕ, Bool, true, false, not, ◌&&◌, Option, none, some, List, [], ◌∷◌, ◌++◌, ◌==◌, nat_eq, option_eq,
  is_some, is_none, filter, contains, if◌then◌else◌,
}
use aiworkos.Base.Int.{ℤ}
use aiworkos.Base.Text.{Text, strip, is_empty}
use aiworkos.Base.Result.{
  Result, ok, err, ◌>>=◌, ◌>>◌, raise_if, when, Resource, entity_not_found, stale_version, br_c_01,
  br_c_07, br_g_01,
}
use aiworkos.Platform.Authz.Model.{Action, Relation, ResourceType, Principal, Decision}
use aiworkos.Platform.Authz.Policy.{authorize}
use aiworkos.Platform.Records.{Actor, AuditEntry, DomainEvent}
use aiworkos.Commitment.Vocabulary.{
  CommitmentStatus, DuePrecision, commitment_status_eq, due_precision_eq,
}
use aiworkos.Commitment.Domain.{
  Authority, validate_creation, validate_transition, validate_renegotiation, is_missed,
  assert_fulfilment_is_approved,
}
use aiworkos.Commitment.Repository.{
  Commitment, insert_commitment, get_commitment, update_commitment, due_for_missing,
}
use aiworkos.Commitment.Store.{
  CreateCommitment, UpdateCommitment, ChangeCommitmentStatus, Snapshot, snapshot, CommitmentEvent,
  Store, ServiceContext, is_ai_actor, References,
}

-- `if id is not None: assert_..._exists(...)`
abbrev pub assert_exists : (ℕ → Bool) → Option ℕ → Result (Unit {0})
assert_exists exists none = ok tt
assert_exists exists (some id) = raise_if (not (exists id)) br_g_01

-- `actor_person_id is not None and person_id == actor_person_id`
abbrev pub is_actor : Option ℕ → Option ℕ → Bool
is_actor none person_id = false
is_actor (some actor_person_id) person_id = person_id == some actor_person_id

abbrev pub leads_team : List ℕ → Option ℕ → Bool
leads_team leads_team_ids none = false
leads_team leads_team_ids (some team_id) = contains team_id leads_team_ids

-- `commitment`, `actor_person_id`, `leads_team_ids`; `is_system` is left at its default.
abbrev pub authority_of : Commitment → Option ℕ → List ℕ → Authority
authority_of c actor_person_id leads_team_ids = record {
  is_committer = is_actor actor_person_id (some c.committed_by_person_id);
  is_recipient = is_actor actor_person_id c.committed_to_person_id;
  is_lead_in_chain = leads_team leads_team_ids c.committed_to_team_id;
  is_system = false;
}

abbrev pub commitment_relations : Commitment → Option ℕ → List Relation
commitment_relations c actor_person_id =
    if is_actor actor_person_id (some c.committed_by_person_id)
    then Relation.personal ∷ []
    else if is_actor actor_person_id c.committed_to_person_id
    then Relation.personal ∷ []
    else []

module _ (ctx : ServiceContext) (refs : References) where
  abbrev pub authorize_action : Action → List Relation → Option ℕ → Result Decision
  authorize_action action relations id = authorize ctx.principal action (record {
    type = ResourceType.commitment;
    org_id = ctx.principal.org_id;
    id = id;
    relations = relations;
  })

  -- `_audit` and `_emit`, beside the rows that were written.
  abbrev pub recorded :
      Action
      → Option Snapshot
      → Decision
      → CommitmentEvent
      → Store
      → Commitment × List Commitment
      → Commitment × Store
  recorded action before decision event s (c, rows) = (
    c,
    record {
      commitments = rows;
      audit =
          s.audit
          ++ record {
            org_id = ctx.principal.org_id;
            actor = ctx.actor;
            action = action;
            resource_type = ResourceType.commitment;
            resource_id = c.id;
            before = before;
            after = some (snapshot c);
            decision = decision;
          }
            ∷ [];
      outbox =
          s.outbox
          ++ record {
            org_id = ctx.principal.org_id;
            type = event;
            aggregate_id = c.id;
            actor = ctx.actor;
          }
            ∷ [];
    },
  )

  abbrev pub assert_references : CreateCommitment → Result (Unit {0})
  assert_references command = do
    let org_id = ctx.principal.org_id
    assert_exists (refs.person_exists org_id) (some command.committed_by_person_id)
    assert_exists (refs.person_exists org_id) command.committed_to_person_id
    assert_exists (refs.team_exists org_id) command.committed_to_team_id
    assert_exists (refs.work_exists org_id) command.fulfilling_work_id
    assert_exists (refs.project_exists org_id) command.project_id
    assert_exists (refs.event_exists org_id) command.origin_event_id

  -- The row that `create` inserts.
  abbrev pub new_commitment : ℕ → CreateCommitment → Commitment
  new_commitment new_id command = record {
    id = new_id;
    org_id = ctx.principal.org_id;
    statement = strip command.statement;
    committed_by_person_id = command.committed_by_person_id;
    committed_to_person_id = command.committed_to_person_id;
    committed_to_team_id = command.committed_to_team_id;
    due_date = command.due_date;
    due_precision = command.due_precision;
    status = CommitmentStatus.captured;
    fulfilling_work_id = command.fulfilling_work_id;
    project_id = command.project_id;
    origin_event_id = command.origin_event_id;
    confidence = command.confidence;
    acknowledged_at = none;
    previous_due_date = none;
    created_by_person_id = ctx.actor.person_id;
    version = 1;
  }

  abbrev pub has_evidence : List ℕ → Bool
  has_evidence [] = false
  has_evidence (_ ∷ _) = true

  unfoldable pub create : ℕ → CreateCommitment → Store → Result (Commitment × Store)
  create new_id command s = do
    decision ← authorize_action Action.create [] none
    validate_creation command.statement command.committed_to_person_id command.committed_to_team_id
        command.due_date command.due_precision command.confidence
        (has_evidence command.evidence_ids) (is_ai_actor ctx)
    assert_references command
    written ← insert_commitment (new_commitment new_id command) s.commitments
    ok (recorded Action.create none decision CommitmentEvent.created s written)

  -- `_load_at`, `_load` included.
  unfoldable pub load_at : ℕ → ℕ → List Commitment → Result Commitment
  load_at id expected_version rows = elim (get_commitment ctx.principal.org_id id rows) [
    | none ↦ err (entity_not_found Resource.commitment id)
    | some c ↦
        if c.version == expected_version
        then ok c
        else err (stale_version Resource.commitment id expected_version)
  ]

  -- `if command.statement is not None: if not command.statement.strip(): raise`
  abbrev pub is_blank : Option Text → Bool
  is_blank none = false
  is_blank (some statement) = is_empty (strip statement)

  abbrev pub stripped_or : Option Text → Text → Text
  stripped_or none old = old
  stripped_or (some statement) old = strip statement

  abbrev pub precision_or : Option DuePrecision → DuePrecision → DuePrecision
  precision_or none old = old
  precision_or (some precision) old = precision

  abbrev pub id_or : Option ℕ → Option ℕ → Option ℕ
  id_or none old = old
  id_or (some id) old = some id

  -- The values that `update` changes.
  abbrev pub edited : UpdateCommitment → Commitment → Commitment
  edited command c = record c {
    statement = stripped_or command.statement c.statement;
    due_precision = precision_or command.due_precision c.due_precision;
    fulfilling_work_id = id_or command.fulfilling_work_id c.fulfilling_work_id;
    project_id = id_or command.project_id c.project_id;
  }

  unfoldable pub update_details : UpdateCommitment → Store → Result (Commitment × Store)
  update_details command s = do
    let org_id = ctx.principal.org_id
    commitment ← load_at command.commitment_id command.expected_version s.commitments
    decision ←
        authorize_action Action.update (commitment_relations commitment ctx.actor.person_id)
          (some commitment.id)
    raise_if (is_some command.due_date && not (command.due_date == commitment.due_date)) br_c_07
    raise_if (is_blank command.statement) br_c_01
    assert_exists (refs.work_exists org_id) command.fulfilling_work_id
    assert_exists (refs.project_exists org_id) command.project_id
    written ←
        update_commitment org_id commitment.id command.expected_version (edited command)
          s.commitments
    ok (
        recorded Action.update (some (snapshot commitment)) decision CommitmentEvent.updated s
          written)

  -- The values that `change_status` changes in the row that it loaded.
  abbrev pub moved : ℕ → ChangeCommitmentStatus → Commitment → Commitment → Commitment
  moved now command loaded c = record c {
    status = command.target;
    acknowledged_at =
        if (command.target == CommitmentStatus.opened) && is_none loaded.acknowledged_at
        then some now
        else c.acknowledged_at;
    previous_due_date =
        if command.target == CommitmentStatus.renegotiated
        then loaded.due_date
        else c.previous_due_date;
    due_date =
        if command.target == CommitmentStatus.renegotiated
        then command.new_due_date
        else c.due_date;
  }

  unfoldable pub change_status : ℕ → ChangeCommitmentStatus → Store → Result (Commitment × Store)
  change_status now command s = do
    commitment ← load_at command.commitment_id command.expected_version s.commitments
    decision ←
        authorize_action Action.change_state (commitment_relations commitment ctx.actor.person_id)
          (some commitment.id)
    validate_transition commitment.status command.target
        (authority_of commitment ctx.actor.person_id ctx.leads_team_ids)
    when (command.target == CommitmentStatus.fulfilled)
        (assert_fulfilment_is_approved (is_ai_actor ctx) (is_some command.approval_record_id))
    when (command.target == CommitmentStatus.renegotiated)
        (validate_renegotiation commitment.status command.new_due_date commitment.due_date)
    written ←
        update_commitment ctx.principal.org_id commitment.id command.expected_version
          (moved now command commitment) s.commitments
    ok (
        recorded Action.change_state (some (snapshot commitment)) decision
          (CommitmentEvent.became command.target) s written)

  -- `today` is given.
  unfoldable pub overdue_today : ℕ → Store → List Commitment
  overdue_today today s =
      filter (λ c. is_missed c.status c.due_date c.due_precision today)
        (due_for_missing ctx.principal.org_id today s.commitments)
