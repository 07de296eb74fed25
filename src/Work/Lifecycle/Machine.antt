-- ===== src/Work/Lifecycle/Machine.antt =====
-- The status machine as a step relation, and what follows for every history of a Work.
use aiworkos.Base.{◌≡◌, refl, ◌↔◌, true, false, ◌||◌, arith}
use aiworkos.Base.Result.{ok}
use aiworkos.Work.Vocabulary.{WorkStatus}
use aiworkos.Work.Lifecycle.{
  WorkTransitionContext, validate_work_transition, has_reason, forbids_start,
}

-- BR-W-03 to BR-W-09 as the edges of a graph, each with its condition.
pub data WorkStep (c : WorkTransitionContext) : WorkStatus → WorkStatus → Type 0 where
  accept : WorkStep c WorkStatus.proposed WorkStatus.todo
  reject : WorkStep c WorkStatus.proposed WorkStatus.rejected
  start : forbids_start c.project_status ≡ false → WorkStep c WorkStatus.todo WorkStatus.in_progress
  unblock :
      forbids_start c.project_status ≡ false → WorkStep c WorkStatus.blocked WorkStatus.in_progress
  reopen :
      forbids_start c.project_status ≡ false → WorkStep c WorkStatus.done WorkStatus.in_progress
  block :
      (c.has_active_blocking_dependency || has_reason c.blocked_reason) ≡ true
      → WorkStep c WorkStatus.in_progress WorkStatus.blocked
  finish :
      c.has_active_blocking_dependency ≡ false
      → c.has_open_children ≡ false
      → WorkStep c WorkStatus.in_progress WorkStatus.done
  cancel_todo : WorkStep c WorkStatus.todo WorkStatus.cancelled
  cancel_started : WorkStep c WorkStatus.in_progress WorkStatus.cancelled
  cancel_blocked : WorkStep c WorkStatus.blocked WorkStatus.cancelled

validate-of-step :
    (c : WorkTransitionContext) {s t : WorkStatus}
    → WorkStep c s t
    → validate_work_transition s t c ≡ ok tt
unfolding validate_work_transition
validate-of-step c accept = refl
validate-of-step c reject = refl
validate-of-step c (start h) = ground arith
validate-of-step c (unblock h) = ground arith
validate-of-step c (reopen h) = ground arith
validate-of-step c (block h) = ground arith
validate-of-step c (finish h k) = ground arith
validate-of-step c cancel_todo = refl
validate-of-step c cancel_started = refl
validate-of-step c cancel_blocked = refl

step-of-validate :
    (c : WorkTransitionContext) (s t : WorkStatus)
    → validate_work_transition s t c ≡ ok tt
    → WorkStep c s t
unfolding validate_work_transition
step-of-validate c WorkStatus.proposed WorkStatus.todo h = accept
step-of-validate c WorkStatus.proposed WorkStatus.rejected h = reject
step-of-validate c WorkStatus.todo WorkStatus.in_progress h = start (ground arith)
step-of-validate c WorkStatus.blocked WorkStatus.in_progress h = unblock (ground arith)
step-of-validate c WorkStatus.done WorkStatus.in_progress h = reopen (ground arith)
step-of-validate c WorkStatus.in_progress WorkStatus.blocked h = block (ground arith)
step-of-validate c WorkStatus.in_progress WorkStatus.done h = finish (ground arith) (ground arith)
step-of-validate c WorkStatus.todo WorkStatus.cancelled h = cancel_todo
step-of-validate c WorkStatus.in_progress WorkStatus.cancelled h = cancel_started
step-of-validate c WorkStatus.blocked WorkStatus.cancelled h = cancel_blocked
step-of-validate c s t h = absurd (ground arith)

-- A status change is accepted exactly when it is an edge of the machine whose condition holds.
pub validate_work_transition_iff :
    (c : WorkTransitionContext) (s t : WorkStatus)
    → (validate_work_transition s t c ≡ ok tt) ↔ WorkStep c s t
validate_work_transition_iff c s t = (step-of-validate c s t, validate-of-step c)
