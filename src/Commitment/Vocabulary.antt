-- ===== src/Commitment/Vocabulary.antt =====
-- The vocabulary of contexts/commitment/domain.py.
use aiworkos.Base.{ℕ, ◌≡◌, arith, Eq, Eq_of_positions}

-- `opened` is OPEN, whose name is reserved here.
pub data CommitmentStatus : Type 0 where
  captured opened fulfilled missed renegotiated cancelled disputed withdrawn : CommitmentStatus

abbrev pub commitment_status_position : CommitmentStatus → ℕ
commitment_status_position CommitmentStatus.captured = 0
commitment_status_position CommitmentStatus.opened = 1
commitment_status_position CommitmentStatus.fulfilled = 2
commitment_status_position CommitmentStatus.missed = 3
commitment_status_position CommitmentStatus.renegotiated = 4
commitment_status_position CommitmentStatus.cancelled = 5
commitment_status_position CommitmentStatus.disputed = 6
commitment_status_position CommitmentStatus.withdrawn = 7

pub commitment_status_injective :
    (a b : CommitmentStatus) → commitment_status_position a ≡ commitment_status_position b → a ≡ b
commitment_status_injective a b h = ground arith

instance abbrev pub commitment_status_eq : Eq CommitmentStatus
commitment_status_eq = Eq_of_positions commitment_status_position commitment_status_injective

pub data DuePrecision : Type 0 where
  exact week month vague : DuePrecision

abbrev pub due_precision_position : DuePrecision → ℕ
due_precision_position DuePrecision.exact = 0
due_precision_position DuePrecision.week = 1
due_precision_position DuePrecision.month = 2
due_precision_position DuePrecision.vague = 3

pub due_precision_injective :
    (a b : DuePrecision) → due_precision_position a ≡ due_precision_position b → a ≡ b
due_precision_injective a b h = ground arith

instance abbrev pub due_precision_eq : Eq DuePrecision
due_precision_eq = Eq_of_positions due_precision_position due_precision_injective
