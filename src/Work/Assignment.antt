-- ===== src/Work/Assignment.antt =====
-- Assignments: validate_assignment and current_owner of contexts/work/domain.py.
pub mod Seats
use aiworkos.Base.{
  ℕ, Bool, not, ◌&&◌, Option, none, some, List, [], ◌∷◌, ◌==◌, nat_eq, any, filter, if◌then◌else◌,
}
use aiworkos.Base.Result.{Result, ok, ◌>>=◌, ◌>>◌, raise_if, br_i_05, br_w_13, br_w_14, br_w_16}
use aiworkos.Identity.Vocabulary.{PersonStatus, person_status_eq}
use aiworkos.Work.Vocabulary.{
  AssignmentRole, AssignmentStatus, assignment_role_eq, assignment_status_eq,
}

pub record ExistingAssignment : Type 0 where
  pub person_id : ℕ
  pub role : AssignmentRole
  pub status : AssignmentStatus
  pub is_primary : Bool

abbrev pub is_active : ExistingAssignment → Bool
is_active a = a.status == AssignmentStatus.active

abbrev pub is_owner : ExistingAssignment → Bool
is_owner a = a.role == AssignmentRole.owner

abbrev pub holds : ℕ → AssignmentRole → ExistingAssignment → Bool
holds person_id role a = (a.person_id == person_id) && (a.role == role)

unfoldable pub validate_assignment :
    ℕ → AssignmentRole → Bool → PersonStatus → List ExistingAssignment → Result (Unit {0})
validate_assignment person_id role is_primary person_status existing = do
  raise_if (not (person_status == PersonStatus.active)) br_i_05
  let active = filter is_active existing
  raise_if ((role == AssignmentRole.owner) && any is_owner active) br_w_13
  raise_if (any (holds person_id role) active) br_w_14
  raise_if (is_primary && any (λ a. a.is_primary) active) br_w_16
  ok tt

unfoldable pub current_owner : List ExistingAssignment → Option ℕ
current_owner [] = none
current_owner (a ∷ rest) =
    let later = current_owner rest in if is_owner a && is_active a then some a.person_id else later
