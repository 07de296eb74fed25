-- ===== src/Commitment/Domain/Machine.antt =====
-- The life of a promise as a step relation.
use aiworkos.Base.{◌≡◌, ◌↔◌, arith, true}
use aiworkos.Base.Result.{ok}
use aiworkos.Commitment.Vocabulary.{CommitmentStatus}
use aiworkos.Commitment.Domain.{Authority, may_change_status, validate_transition}

pub data CommitmentStep : CommitmentStatus → CommitmentStatus → Type 0 where
  acknowledge : CommitmentStep CommitmentStatus.captured CommitmentStatus.opened
  dispute : CommitmentStep CommitmentStatus.captured CommitmentStatus.disputed
  withdraw : CommitmentStep CommitmentStatus.captured CommitmentStatus.withdrawn
  keep : CommitmentStep CommitmentStatus.opened CommitmentStatus.fulfilled
  miss : CommitmentStep CommitmentStatus.opened CommitmentStatus.missed
  renegotiate : CommitmentStep CommitmentStatus.opened CommitmentStatus.renegotiated
  cancel : CommitmentStep CommitmentStatus.opened CommitmentStatus.cancelled
  reopen : CommitmentStep CommitmentStatus.renegotiated CommitmentStatus.opened
  keep_late : CommitmentStep CommitmentStatus.missed CommitmentStatus.fulfilled

valid-of-step :
    (a : Authority) {s t : CommitmentStatus}
    → CommitmentStep s t
    → may_change_status a ≡ true
    → validate_transition s t a ≡ ok tt
unfolding validate_transition
valid-of-step a acknowledge h = ground arith
valid-of-step a dispute h = ground arith
valid-of-step a withdraw h = ground arith
valid-of-step a keep h = ground arith
valid-of-step a miss h = ground arith
valid-of-step a renegotiate h = ground arith
valid-of-step a cancel h = ground arith
valid-of-step a reopen h = ground arith
valid-of-step a keep_late h = ground arith

step-of-valid :
    (a : Authority) (s t : CommitmentStatus)
    → validate_transition s t a ≡ ok tt
    → CommitmentStep s t
unfolding validate_transition
step-of-valid a CommitmentStatus.captured CommitmentStatus.opened h = acknowledge
step-of-valid a CommitmentStatus.captured CommitmentStatus.disputed h = dispute
step-of-valid a CommitmentStatus.captured CommitmentStatus.withdrawn h = withdraw
step-of-valid a CommitmentStatus.opened CommitmentStatus.fulfilled h = keep
step-of-valid a CommitmentStatus.opened CommitmentStatus.missed h = miss
step-of-valid a CommitmentStatus.opened CommitmentStatus.renegotiated h = renegotiate
step-of-valid a CommitmentStatus.opened CommitmentStatus.cancelled h = cancel
step-of-valid a CommitmentStatus.renegotiated CommitmentStatus.opened h = reopen
step-of-valid a CommitmentStatus.missed CommitmentStatus.fulfilled h = keep_late
step-of-valid a s t h = absurd (ground arith)

-- A promise's status change is accepted exactly when it is an edge of the machine and the actor is
-- the committer, the recipient, a lead in the chain or the system.
pub validate_transition_iff :
    (a : Authority) (s t : CommitmentStatus)
    → (validate_transition s t a ≡ ok tt) ↔ (CommitmentStep s t × (may_change_status a ≡ true))
unfolding validate_transition
validate_transition_iff a s t =
    (λ h. (step-of-valid a s t h, ground arith), λ h. valid-of-step a h.0 h.1)
