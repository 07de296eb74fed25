-- ===== src/Commitment/Tests.antt =====
-- Concrete promises for the theorems about commitments.
use aiworkos.Base.{◌≡◌, ◌≢◌, refl, true, none, some, [], ◌∷◌, nat_eq, eqb}
use aiworkos.Base.Int.{pos}
use aiworkos.Base.Text.{codes, strip}
use aiworkos.Base.Table.{find}
use aiworkos.Base.Result.{ok, err, integrity_error}
use aiworkos.Platform.Authz.Model.{Role, Action, Grant, Reason, Decision}
use aiworkos.Platform.Authz.Policy.{authorize}
use aiworkos.Platform.Repository.{get, update}
use aiworkos.Platform.Records.{ActorType}
use aiworkos.Commitment.Vocabulary.{CommitmentStatus, DuePrecision}
use aiworkos.Commitment.Domain.{validate_creation, validate_transition}
use aiworkos.Commitment.Repository.{
  Commitment, commitments_table, commitment_id, insert_commitment, get_commitment,
  update_commitment, satisfies_constraints,
}
use aiworkos.Commitment.Service.{
  recorded, new_commitment, create, load_at, edited, update_details, moved, change_status,
  authorize_action, commitment_relations,
}
use aiworkos.Commitment.Store.{
  CreateCommitment, UpdateCommitment, ChangeCommitmentStatus, snapshot, CommitmentEvent, Store,
  ServiceContext, References,
}
use aiworkos.Commitment.Service.Rows.{IsCreated}
use aiworkos.Commitment.Service.Effects.{Recorded}
use aiworkos.Commitment.Service.Outcomes.{Edited, update_details-Edited}
use aiworkos.Commitment.Service.Creation.{create-Recorded, IsReferenced}
use aiworkos.Commitment.Service.Transitions.{Moved, change_status-Moved}
use aiworkos.Commitment.Service.History.{
  Commits, creates, changes, start, and_then, Follows, commit-Follows, final_status_stays,
}
use aiworkos.Commitment.Service.Trail.{empty_store, IsTrue, History-IsTrue}
use aiworkos.Commitment.Service.Checks.{
  create_raises_no_integrity_error, update_details_leaves_precision_to_the_table,
}

-- An administrator of organization 1, who made the promises below.
abbrev caller : ServiceContext
caller = record {
  principal = record { person_id = 7; org_id = 1; roles = Role.org_admin ∷ [] };
  actor = record {
    type = ActorType.person;
    person_id = some 7;
    ai_interaction_id = none;
    approval_record_id = none;
    cascaded_from = none;
  };
  leads_team_ids = [];
}

abbrev refs : References
refs = record {
  person_exists = λ org id. eqb org 1;
  team_exists = λ org id. eqb org 1;
  work_exists = λ org id. eqb org 1;
  project_exists = λ org id. eqb org 1;
  event_exists = λ org id. eqb org 1;
}

abbrev allowed : Decision
allowed = record {
  allowed = true;
  reason = Reason.granted Role.org_admin Grant.org;
  matched_role = some Role.org_admin;
  matched_grant = some Grant.org;
}

abbrev promise : CreateCommitment
promise = record {
  statement = codes " send the plan ";
  committed_by_person_id = 7;
  committed_to_person_id = some 8;
  committed_to_team_id = none;
  due_date = none;
  due_precision = DuePrecision.vague;
  fulfilling_work_id = none;
  project_id = none;
  origin_event_id = none;
  confidence = pos 90;
  evidence_ids = [];
}

abbrev first_row : Commitment
first_row = new_commitment caller refs 1 promise

abbrev first_store : Store
first_store =
    (recorded caller refs Action.create none allowed CommitmentEvent.created empty_store
      (first_row, first_row ∷ [])).1

first_created : create caller refs 1 promise empty_store ≡ ok (first_row, first_store)
unfolding create authorize validate_creation strip insert_commitment
first_created = refl

create-Recorded_example :
    (find commitment_id 1 [] ≡ none)
    × IsCreated caller 1 promise first_row
    × IsReferenced refs 1 first_row
    × Recorded caller Action.create none CommitmentEvent.created empty_store first_row first_store
create-Recorded_example =
    create-Recorded caller refs 1 promise empty_store first_row first_store first_created

abbrev rewording : UpdateCommitment
rewording = record {
  commitment_id = 1;
  expected_version = 1;
  statement = some (codes "send the whole plan");
  due_date = none;
  due_precision = none;
  fulfilling_work_id = none;
  project_id = some 3;
}

abbrev reworded_row : Commitment
reworded_row = commitments_table.bump (edited caller refs rewording first_row)

abbrev reworded_store : Store
reworded_store =
    (recorded caller refs Action.update (some (snapshot first_row)) allowed CommitmentEvent.updated
      first_store (reworded_row, reworded_row ∷ [])).1

reworded : update_details caller refs rewording first_store ≡ ok (reworded_row, reworded_store)
unfolding update_details load_at get_commitment get authorize strip update_commitment update
    satisfies_constraints
reworded = refl

update_details-Edited_example : Edited caller refs rewording first_store reworded_row reworded_store
update_details-Edited_example =
    update_details-Edited caller refs rewording first_store reworded_row reworded_store reworded

abbrev dispute : ChangeCommitmentStatus
dispute = record {
  commitment_id = 1;
  expected_version = 1;
  target = CommitmentStatus.disputed;
  new_due_date = none;
  approval_record_id = none;
}

abbrev disputed_row : Commitment
disputed_row = commitments_table.bump (moved caller refs 50 dispute first_row first_row)

abbrev disputed_store : Store
disputed_store =
    (recorded caller refs Action.change_state (some (snapshot first_row)) allowed
      (CommitmentEvent.became CommitmentStatus.disputed) first_store
      (disputed_row, disputed_row ∷ [])).1

disputed : change_status caller refs 50 dispute first_store ≡ ok (disputed_row, disputed_store)
unfolding change_status load_at get_commitment get authorize validate_transition update_commitment
    update satisfies_constraints strip
disputed = refl

change_status-Moved_example : Moved caller refs 50 dispute first_store disputed_row disputed_store
change_status-Moved_example =
    change_status-Moved caller refs 50 dispute first_store disputed_row disputed_store disputed

abbrev dispute_commit : Commits first_store disputed_store
dispute_commit = changes caller refs 50 dispute disputed_row disputed

commit-Follows_example :
    (row' : Commitment) × (find commitment_id 1 disputed_store.commitments ≡ some row')
    × Follows first_row row'
commit-Follows_example = commit-Follows first_store disputed_store 1 first_row dispute_commit refl

History-IsTrue_example : IsTrue disputed_store
History-IsTrue_example = History-IsTrue disputed_store (
    and_then (and_then start (creates caller refs 1 promise first_row first_created))
      dispute_commit)

-- Another promise after the dispute.
abbrev second_row : Commitment
second_row = new_commitment caller refs 2 promise

abbrev second_store : Store
second_store =
    (recorded caller refs Action.create none allowed CommitmentEvent.created disputed_store
      (second_row, disputed_row ∷ second_row ∷ [])).1

second_created : create caller refs 2 promise disputed_store ≡ ok (second_row, second_store)
unfolding create authorize validate_creation strip insert_commitment
second_created = refl

final_status_stays_example :
    (row' : Commitment) × (find commitment_id 1 second_store.commitments ≡ some row')
    × (row'.status ≡ CommitmentStatus.disputed)
final_status_stays_example =
    final_status_stays disputed_store second_store 1 disputed_row
      (and_then start (creates caller refs 2 promise second_row second_created)) refl refl

create_raises_no_integrity_error_example :
    create caller refs 2 promise first_store ≢ err integrity_error
create_raises_no_integrity_error_example =
    create_raises_no_integrity_error caller refs 2 promise first_store refl

abbrev sharpening : UpdateCommitment
sharpening = record {
  commitment_id = 1;
  expected_version = 1;
  statement = none;
  due_date = none;
  due_precision = some DuePrecision.exact;
  fulfilling_work_id = none;
  project_id = none;
}

first_loaded : load_at caller refs 1 1 first_store.commitments ≡ ok first_row
unfolding load_at get_commitment get
first_loaded = refl

update_authorized :
    authorize_action caller refs Action.update (commitment_relations first_row (some 7)) (some 1)
    ≡ ok allowed
unfolding authorize
update_authorized = refl

update_details_leaves_precision_to_the_table_example :
    update_details caller refs sharpening first_store ≡ err integrity_error
update_details_leaves_precision_to_the_table_example =
    update_details_leaves_precision_to_the_table caller refs sharpening first_store first_row
      allowed first_loaded update_authorized refl refl refl refl refl refl
