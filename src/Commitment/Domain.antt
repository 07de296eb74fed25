-- ===== src/Commitment/Domain.antt =====
-- The rules of contexts/commitment/domain.py, up to the due phrases. Dates are ordinals.
pub mod Machine
use aiworkos.Base.{
  ℕ, Bool, true, false, not, ◌&&◌, ◌||◌, Option, none, some, List, [], ◌∷◌, ◌==◌, nat_eq, option_eq,
  ltb, is_some, is_none, contains, if◌then◌else◌,
}
use aiworkos.Base.Int.{ℤ, is_percentage}
use aiworkos.Base.Text.{Text, strip, is_empty}
use aiworkos.Base.Result.{
  Result, ok, ◌>>=◌, ◌>>◌, raise_if, br_c_01, br_c_02, br_c_03, br_c_04, br_c_07, br_c_09, br_c_10,
}
use aiworkos.Commitment.Vocabulary.{
  CommitmentStatus, DuePrecision, commitment_status_eq, due_precision_eq,
}

-- TRANSITIONS
unfoldable pub transitions : CommitmentStatus → List CommitmentStatus
transitions CommitmentStatus.captured =
    CommitmentStatus.opened ∷ CommitmentStatus.disputed ∷ CommitmentStatus.withdrawn ∷ []
transitions CommitmentStatus.opened =
    CommitmentStatus.fulfilled ∷ CommitmentStatus.missed ∷ CommitmentStatus.renegotiated
    ∷ CommitmentStatus.cancelled ∷ []
transitions CommitmentStatus.renegotiated = CommitmentStatus.opened ∷ []
transitions CommitmentStatus.missed = CommitmentStatus.fulfilled ∷ []
transitions CommitmentStatus.disputed = []
transitions CommitmentStatus.withdrawn = []
transitions CommitmentStatus.fulfilled = []
transitions CommitmentStatus.cancelled = []

unfoldable pub auto_missable_precision : List DuePrecision
auto_missable_precision = DuePrecision.exact ∷ DuePrecision.week ∷ []

pub record Authority : Type 0 where
  pub is_committer : Bool
  pub is_recipient : Bool
  pub is_lead_in_chain : Bool
  pub is_system : Bool

abbrev pub may_change_status : Authority → Bool
may_change_status a = a.is_committer || a.is_recipient || a.is_lead_in_chain || a.is_system

-- `statement`, `committed_to_person_id`, `committed_to_team_id`, `due_date`, `due_precision`,
-- `confidence`, `has_evidence`, `produced_by_ai`
unfoldable pub validate_creation :
    Text → Option ℕ → Option ℕ → Option ℕ → DuePrecision → ℤ → Bool → Bool → Result (Unit {0})
validate_creation statement to_person to_team due_date due_precision confidence has_evidence by_ai =
    do
      raise_if (is_empty (strip statement)) br_c_01
      raise_if (is_some to_person && is_some to_team) br_c_02
      raise_if (not (is_percentage confidence)) br_c_01
      raise_if (is_none due_date && not (due_precision == DuePrecision.vague)) br_c_01
      raise_if (by_ai && not has_evidence) br_c_03
      ok tt

unfoldable pub validate_transition :
    CommitmentStatus → CommitmentStatus → Authority → Result (Unit {0})
unfolding transitions
validate_transition current target authority = do
  raise_if (current == target) br_c_04
  raise_if (not (contains target (transitions current))) br_c_04
  raise_if (not (may_change_status authority)) br_c_09
  ok tt

-- `previous_due_date is not None and new_due_date == previous_due_date`
abbrev is_same_date : Option ℕ → Option ℕ → Bool
is_same_date new_due_date previous_due_date =
    is_some previous_due_date && (new_due_date == previous_due_date)

-- `current`, `new_due_date`, `previous_due_date`
unfoldable pub validate_renegotiation : CommitmentStatus → Option ℕ → Option ℕ → Result (Unit {0})
validate_renegotiation current new_due_date previous_due_date = do
  raise_if (not (current == CommitmentStatus.opened)) br_c_04
  raise_if (is_none new_due_date) br_c_07
  raise_if (is_same_date new_due_date previous_due_date) br_c_07
  ok tt

-- `status`, `due_date`, `due_precision`, `today`
unfoldable pub is_missed : CommitmentStatus → Option ℕ → DuePrecision → ℕ → Bool
unfolding auto_missable_precision
is_missed status none due_precision today = false
is_missed status (some due_date) due_precision today =
    if not (status == CommitmentStatus.opened)
    then false
    else if not (contains due_precision auto_missable_precision)
    then false
    else ltb due_date today

-- `produced_by_ai`, `has_approval`
unfoldable pub assert_fulfilment_is_approved : Bool → Bool → Result (Unit {0})
assert_fulfilment_is_approved produced_by_ai has_approval = do
  raise_if (produced_by_ai && not has_approval) br_c_10
  ok tt
