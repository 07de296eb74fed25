-- ===== src/Commitment/Repository.antt =====
-- The table of commitments: contexts/commitment/models.py, the reads and writes of
-- contexts/commitment/repository.py, and the constraints that its migration puts on a row. Dates and
-- times are ordinals. Foreign keys, created_at and updated_at are not modelled.
use aiworkos.Base.{
  ℕ, ◌+◌, refl, Bool, false, not, ◌&&◌, ◌||◌, Option, none, some, List, [], ◌∷◌, ◌++◌, ◌==◌, nat_eq,
  is_some, is_none, ltb, any, filter, contains, if◌then◌else◌,
}
use aiworkos.Base.Int.{ℤ, is_percentage}
use aiworkos.Base.Text.{Text}
use aiworkos.Base.Table.{find}
use aiworkos.Base.Result.{Result, ok, err, ◌>>=◌, Resource, integrity_error}
use aiworkos.Platform.Repository.{Versioned, get, update}
use aiworkos.Commitment.Vocabulary.{
  CommitmentStatus, DuePrecision, commitment_status_eq, due_precision_eq,
}

pub record Commitment : Type 0 where
  pub id : ℕ
  pub org_id : ℕ
  pub statement : Text
  pub committed_by_person_id : ℕ
  pub committed_to_person_id : Option ℕ
  pub committed_to_team_id : Option ℕ
  pub due_date : Option ℕ
  pub due_precision : DuePrecision
  pub status : CommitmentStatus
  pub fulfilling_work_id : Option ℕ
  pub project_id : Option ℕ
  pub origin_event_id : Option ℕ
  pub confidence : ℤ
  pub acknowledged_at : Option ℕ
  pub previous_due_date : Option ℕ
  pub created_by_person_id : Option ℕ
  pub version : ℕ

abbrev pub commitments_table : Versioned Commitment
commitments_table = record {
  id = λ c. c.id;
  org_id = λ c. c.org_id;
  version = λ c. c.version;
  bump = λ c. record c { version = c.version + 1 };
  resource = Resource.commitment;
  id-bump = λ c. refl;
  org_id-bump = λ c. refl;
  version-bump = λ c. refl;
}

abbrev pub commitment_id : Commitment → ℕ
commitment_id c = c.id

-- `length(btrim(statement)) > 0`: `btrim` removes spaces and no other white space.
abbrev pub has_text : Text → Bool
has_text text = any (λ c. not (c == 32)) text

-- The CHECK constraints of the table, other than those that the types already keep.
unfoldable pub satisfies_constraints : Commitment → Bool
satisfies_constraints c =
    has_text c.statement
    && is_percentage c.confidence
    && (is_none c.committed_to_person_id || is_none c.committed_to_team_id)
    && (is_some c.due_date || (c.due_precision == DuePrecision.vague))

unfoldable pub insert_commitment :
    Commitment → List Commitment → Result (Commitment × List Commitment)
unfolding satisfies_constraints
insert_commitment c rows =
    if is_some (find commitment_id c.id rows)
    then err integrity_error
    else if satisfies_constraints c
    then ok (c, rows ++ c ∷ [])
    else err integrity_error

unfoldable pub get_commitment : ℕ → ℕ → List Commitment → Option Commitment
get_commitment org_id id rows = get commitments_table org_id id rows

-- A written row is stored if it is within the constraints.
abbrev pub constrained : Commitment × List Commitment → Result (Commitment × List Commitment)
constrained (c, rows) = if satisfies_constraints c then ok (c, rows) else err integrity_error

-- `org_id`, `commitment_id`, `expected_version`, and the changed values as a function.
unfoldable pub update_commitment :
    ℕ → ℕ → ℕ → (Commitment → Commitment) → List Commitment → Result (Commitment × List Commitment)
update_commitment org_id id expected_version values rows =
    update commitments_table org_id id expected_version values rows >>= constrained

-- `Commitment.due_date < today`, which holds of no missing date.
abbrev pub is_before : Option ℕ → ℕ → Bool
is_before none today = false
is_before (some due_date) today = ltb due_date today

unfoldable pub due_for_missing : ℕ → ℕ → List Commitment → List Commitment
due_for_missing org_id today rows =
    filter
      (λ c.
        (c.org_id == org_id)
        && (c.status == CommitmentStatus.opened)
        && is_some c.due_date
        && is_before c.due_date today
        && contains c.due_precision (DuePrecision.exact ∷ DuePrecision.week ∷ []))
      rows
