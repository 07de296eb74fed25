-- ===== src/Commitment/Service/Rows.antt =====
-- What each use case makes of a row, column by column.
use aiworkos.Base.{
  ℕ, ◌+◌, ◌≡◌, refl, ◌≢◌, ◌⊎◌, inl, inr, true, Bool-cases, Option, none, some, List, arith, ◌==◌,
  nat_eq, option_eq, contains,
}
use aiworkos.Base.Text.{Text, strip}
use aiworkos.Commitment.Vocabulary.{CommitmentStatus, DuePrecision, commitment_status_eq}
use aiworkos.Commitment.Domain.{may_change_status}
use aiworkos.Commitment.Repository.{Commitment, commitments_table}
use aiworkos.Commitment.Service.{is_actor, leads_team, authority_of, new_commitment, edited, moved}
use aiworkos.Commitment.Store.{
  CreateCommitment, UpdateCommitment, ChangeCommitmentStatus, Snapshot, snapshot, ServiceContext,
  References,
}

-- The row of a promise that was just recorded: the command's values, captured, not confirmed and not
-- moved yet.
pub record IsCreated (ctx : ServiceContext) (new_id : ℕ) (command : CreateCommitment)
    (c : Commitment) : Type 0 where
  pub id : c.id ≡ new_id
  pub org_id : c.org_id ≡ ctx.principal.org_id
  pub statement : c.statement ≡ strip command.statement
  pub committer : c.committed_by_person_id ≡ command.committed_by_person_id
  pub recipient : c.committed_to_person_id ≡ command.committed_to_person_id
  pub team : c.committed_to_team_id ≡ command.committed_to_team_id
  pub due_date : c.due_date ≡ command.due_date
  pub due_precision : c.due_precision ≡ command.due_precision
  pub status : c.status ≡ CommitmentStatus.captured
  pub work : c.fulfilling_work_id ≡ command.fulfilling_work_id
  pub project : c.project_id ≡ command.project_id
  pub origin : c.origin_event_id ≡ command.origin_event_id
  pub confidence : c.confidence ≡ command.confidence
  pub not_acknowledged : c.acknowledged_at ≡ none
  pub not_moved : c.previous_due_date ≡ none
  pub creator : c.created_by_person_id ≡ ctx.actor.person_id
  pub first_version : c.version ≡ 1

pub new_commitment-IsCreated :
    (ctx : ServiceContext) (refs : References) (new_id : ℕ) (command : CreateCommitment)
    → IsCreated ctx new_id command (new_commitment ctx refs new_id command)
new_commitment-IsCreated ctx refs new_id command = record {
  id = refl;
  org_id = refl;
  statement = refl;
  committer = refl;
  recipient = refl;
  team = refl;
  due_date = refl;
  due_precision = refl;
  status = refl;
  work = refl;
  project = refl;
  origin = refl;
  confidence = refl;
  not_acknowledged = refl;
  not_moved = refl;
  creator = refl;
  first_version = refl;
}

-- What no write changes, and the version, which each write counts.
pub record IsKept (row c : Commitment) : Type 0 where
  pub id : c.id ≡ row.id
  pub org_id : c.org_id ≡ row.org_id
  pub committer : c.committed_by_person_id ≡ row.committed_by_person_id
  pub recipient : c.committed_to_person_id ≡ row.committed_to_person_id
  pub team : c.committed_to_team_id ≡ row.committed_to_team_id
  pub origin : c.origin_event_id ≡ row.origin_event_id
  pub confidence : c.confidence ≡ row.confidence
  pub creator : c.created_by_person_id ≡ row.created_by_person_id
  pub next_version : c.version ≡ row.version + 1

-- An edited row: each detail that the command names has its value, the others are as they were, and
-- so are the status, the acknowledgement and the due dates.
pub record IsEdited (command : UpdateCommitment) (row c : Commitment) : Type 0 where
  pub kept : IsKept row c
  pub status : c.status ≡ row.status
  pub acknowledged_at : c.acknowledged_at ≡ row.acknowledged_at
  pub due_date : c.due_date ≡ row.due_date
  pub previous_due_date : c.previous_due_date ≡ row.previous_due_date
  pub old_statement : command.statement ≡ none → c.statement ≡ row.statement
  pub new_statement : (x : Text) → command.statement ≡ some x → c.statement ≡ strip x
  pub old_precision : command.due_precision ≡ none → c.due_precision ≡ row.due_precision
  pub new_precision : (x : DuePrecision) → command.due_precision ≡ some x → c.due_precision ≡ x
  pub old_work : command.fulfilling_work_id ≡ none → c.fulfilling_work_id ≡ row.fulfilling_work_id
  pub new_work : (x : ℕ) → command.fulfilling_work_id ≡ some x → c.fulfilling_work_id ≡ some x
  pub old_project : command.project_id ≡ none → c.project_id ≡ row.project_id
  pub new_project : (x : ℕ) → command.project_id ≡ some x → c.project_id ≡ some x

pub edited-IsEdited :
    (ctx : ServiceContext) (refs : References) (command : UpdateCommitment) (row : Commitment)
    → IsEdited command row (commitments_table.bump (edited ctx refs command row))
edited-IsEdited ctx refs command row = record {
  kept = record {
    id = refl;
    org_id = refl;
    committer = refl;
    recipient = refl;
    team = refl;
    origin = refl;
    confidence = refl;
    creator = refl;
    next_version = refl;
  };
  status = refl;
  acknowledged_at = refl;
  due_date = refl;
  previous_due_date = refl;
  old_statement = λ e. rw e refl;
  new_statement = λ x e. rw e refl;
  old_precision = λ e. rw e refl;
  new_precision = λ x e. rw e refl;
  old_work = λ e. rw e refl;
  new_work = λ x e. rw e refl;
  old_project = λ e. rw e refl;
  new_project = λ x e. rw e refl;
}

-- A row whose status was changed: it has the target, is acknowledged the first time that it is
-- opened, and has another due date, with the old one kept, when it is renegotiated and only then.
pub record IsMoved (now : ℕ) (command : ChangeCommitmentStatus) (row c : Commitment) : Type 0 where
  pub kept : IsKept row c
  pub statement : c.statement ≡ row.statement
  pub due_precision : c.due_precision ≡ row.due_precision
  pub work : c.fulfilling_work_id ≡ row.fulfilling_work_id
  pub project : c.project_id ≡ row.project_id
  pub status : c.status ≡ command.target
  pub acknowledged :
      command.target ≡ CommitmentStatus.opened
      → row.acknowledged_at ≡ none
      → c.acknowledged_at ≡ some now
  pub acknowledged_once : (t : ℕ) → row.acknowledged_at ≡ some t → c.acknowledged_at ≡ some t
  pub not_acknowledged :
      command.target ≢ CommitmentStatus.opened → c.acknowledged_at ≡ row.acknowledged_at
  pub new_date :
      command.target ≡ CommitmentStatus.renegotiated
      → (c.due_date ≡ command.new_due_date) × (c.previous_due_date ≡ row.due_date)
  pub old_date :
      command.target ≢ CommitmentStatus.renegotiated
      → (c.due_date ≡ row.due_date) × (c.previous_due_date ≡ row.previous_due_date)

pub moved-IsMoved :
    (ctx : ServiceContext) (refs : References) (now : ℕ) (command : ChangeCommitmentStatus)
    (row : Commitment)
    → IsMoved now command row (commitments_table.bump (moved ctx refs now command row row))
moved-IsMoved ctx refs now command row = record {
  kept = record {
    id = refl;
    org_id = refl;
    committer = refl;
    recipient = refl;
    team = refl;
    origin = refl;
    confidence = refl;
    creator = refl;
    next_version = refl;
  };
  statement = refl;
  due_precision = refl;
  work = refl;
  project = refl;
  status = refl;
  acknowledged = λ t e. rw (t, e) refl;
  acknowledged_once = λ t e. elim (Bool-cases (command.target == CommitmentStatus.opened)) [
    | inl is ↦ rw (is, e) refl
    | inr other ↦ rw (other, e) refl
  ];
  not_acknowledged = λ ne. elim (Bool-cases (command.target == CommitmentStatus.opened)) [
    | inl is ↦ absurd (ne ((commitment_status_eq.beq_iff command.target _).0 is))
    | inr other ↦ rw other refl
  ];
  new_date = λ t. rw t (refl, refl);
  old_date = λ ne. elim (Bool-cases (command.target == CommitmentStatus.renegotiated)) [
    | inl is ↦ absurd (ne ((commitment_status_eq.beq_iff command.target _).0 is))
    | inr other ↦ rw other (refl, refl)
  ];
}

-- Who may change a promise's status: who made it, who it was made to, and who leads the team that it
-- was made to.
abbrev pub IsEntitled : Option ℕ → List ℕ → Commitment → Type 0
IsEntitled actor leads c =
    (actor ≡ some c.committed_by_person_id)
    ⊎ (((p : ℕ) × (actor ≡ some p) × (c.committed_to_person_id ≡ some p))
        ⊎ ((t : ℕ) × (c.committed_to_team_id ≡ some t) × (contains t leads ≡ true)))

is_actor-found :
    (actor person : Option ℕ)
    → is_actor actor person ≡ true
    → (p : ℕ) × (actor ≡ some p) × (person ≡ some p)
is_actor-found none person h = absurd (cc h)
is_actor-found (some p) person h = (p, refl, (option_eq.beq_iff person (some p)).0 h)

leads_team-found :
    (leads : List ℕ) (team : Option ℕ)
    → leads_team leads team ≡ true
    → (t : ℕ) × (team ≡ some t) × (contains t leads ≡ true)
leads_team-found leads none h = absurd (cc h)
leads_team-found leads (some t) h = (t, refl, h)

pub authority-IsEntitled :
    (actor : Option ℕ) (leads : List ℕ) (c : Commitment)
    → may_change_status (authority_of c actor leads) ≡ true
    → IsEntitled actor leads c
authority-IsEntitled actor leads c h =
    elim (Bool-cases (is_actor actor (some c.committed_by_person_id))) [
      | inl by ↦ let (p, e, same) = is_actor-found actor _ by in inl (cc (e, same))
      | inr other ↦ elim (Bool-cases (is_actor actor c.committed_to_person_id)) [
        | inl to ↦ inr (inl (is_actor-found actor _ to))
        | inr neither ↦ inr (inr (leads_team-found leads c.committed_to_team_id (ground arith)))
      ]
    ]

-- A snapshot that shows a row in each of the values that it keeps.
pub record IsShownBy (shown : Snapshot) (c : Commitment) : Type 0 where
  pub id : shown.id ≡ c.id
  pub statement : shown.statement ≡ c.statement
  pub committer : shown.committed_by_person_id ≡ c.committed_by_person_id
  pub recipient : shown.committed_to_person_id ≡ c.committed_to_person_id
  pub team : shown.committed_to_team_id ≡ c.committed_to_team_id
  pub due_date : shown.due_date ≡ c.due_date
  pub due_precision : shown.due_precision ≡ c.due_precision
  pub status : shown.status ≡ c.status
  pub work : shown.fulfilling_work_id ≡ c.fulfilling_work_id
  pub origin : shown.origin_event_id ≡ c.origin_event_id
  pub previous_due_date : shown.previous_due_date ≡ c.previous_due_date
  pub confidence : shown.confidence ≡ c.confidence

pub snapshot-IsShownBy : (c : Commitment) → IsShownBy (snapshot c) c
snapshot-IsShownBy c = record {
  id = refl;
  statement = refl;
  committer = refl;
  recipient = refl;
  team = refl;
  due_date = refl;
  due_precision = refl;
  status = refl;
  work = refl;
  origin = refl;
  previous_due_date = refl;
  confidence = refl;
}
