-- ===== src/Work/Project/Machine.antt =====
-- The status machines of projects and milestones as step relations.
use aiworkos.Base.{◌≡◌, refl, ◌↔◌, arith}
use aiworkos.Base.Result.{ok}
use aiworkos.Work.Vocabulary.{ProjectStatus, MilestoneStatus}
use aiworkos.Work.Project.{
  ProjectClosureContext, validate_project_transition, validate_milestone_transition,
}

pub data ProjectStep (c : ProjectClosureContext) : ProjectStatus → ProjectStatus → Type 0 where
  approve : ProjectStep c ProjectStatus.proposed ProjectStatus.active
  pause : ProjectStep c ProjectStatus.active ProjectStatus.on_hold
  resume : ProjectStep c ProjectStatus.on_hold ProjectStatus.active
  complete :
      c.open_milestones ≡ 0
      → c.work_in_progress_or_blocked ≡ 0
      → ProjectStep c ProjectStatus.active ProjectStatus.completed
  reopen : ProjectStep c ProjectStatus.completed ProjectStatus.active
  cancel_proposed : ProjectStep c ProjectStatus.proposed ProjectStatus.cancelled
  cancel_active : ProjectStep c ProjectStatus.active ProjectStatus.cancelled
  cancel_on_hold : ProjectStep c ProjectStatus.on_hold ProjectStatus.cancelled

validate-of-step :
    (c : ProjectClosureContext) {s t : ProjectStatus}
    → ProjectStep c s t
    → validate_project_transition s t c ≡ ok tt
unfolding validate_project_transition
validate-of-step c (complete h k) = ground arith
validate-of-step c approve = refl
validate-of-step c pause = refl
validate-of-step c resume = refl
validate-of-step c reopen = refl
validate-of-step c cancel_proposed = refl
validate-of-step c cancel_active = refl
validate-of-step c cancel_on_hold = refl

step-of-validate :
    (c : ProjectClosureContext) (s t : ProjectStatus)
    → validate_project_transition s t c ≡ ok tt
    → ProjectStep c s t
unfolding validate_project_transition
step-of-validate c ProjectStatus.proposed ProjectStatus.active h = approve
step-of-validate c ProjectStatus.active ProjectStatus.on_hold h = pause
step-of-validate c ProjectStatus.on_hold ProjectStatus.active h = resume
step-of-validate c ProjectStatus.active ProjectStatus.completed h =
    complete (ground arith) (ground arith)
step-of-validate c ProjectStatus.completed ProjectStatus.active h = reopen
step-of-validate c ProjectStatus.proposed ProjectStatus.cancelled h = cancel_proposed
step-of-validate c ProjectStatus.active ProjectStatus.cancelled h = cancel_active
step-of-validate c ProjectStatus.on_hold ProjectStatus.cancelled h = cancel_on_hold
step-of-validate c s t h = absurd (ground arith)

-- A project's status change is accepted exactly when it is an edge of the machine; completion asks
-- for no open milestone and no work in progress or blocked.
pub validate_project_transition_iff :
    (c : ProjectClosureContext) (s t : ProjectStatus)
    → (validate_project_transition s t c ≡ ok tt) ↔ ProjectStep c s t
validate_project_transition_iff c s t = (step-of-validate c s t, validate-of-step c)

pub data MilestoneStep : MilestoneStatus → MilestoneStatus → Type 0 where
  begin : MilestoneStep MilestoneStatus.planned MilestoneStatus.in_progress
  miss_planned : MilestoneStep MilestoneStatus.planned MilestoneStatus.missed
  miss_started : MilestoneStep MilestoneStatus.in_progress MilestoneStatus.missed
  achieve : MilestoneStep MilestoneStatus.in_progress MilestoneStatus.achieved
  achieve_late : MilestoneStep MilestoneStatus.missed MilestoneStatus.achieved
  reopen_milestone : MilestoneStep MilestoneStatus.achieved MilestoneStatus.in_progress
  cancel_planned : MilestoneStep MilestoneStatus.planned MilestoneStatus.cancelled
  cancel_started : MilestoneStep MilestoneStatus.in_progress MilestoneStatus.cancelled
  cancel_missed : MilestoneStep MilestoneStatus.missed MilestoneStatus.cancelled

milestone-of-step :
    {s t : MilestoneStatus} → MilestoneStep s t → validate_milestone_transition s t ≡ ok tt
unfolding validate_milestone_transition
milestone-of-step begin = refl
milestone-of-step miss_planned = refl
milestone-of-step miss_started = refl
milestone-of-step achieve = refl
milestone-of-step achieve_late = refl
milestone-of-step reopen_milestone = refl
milestone-of-step cancel_planned = refl
milestone-of-step cancel_started = refl
milestone-of-step cancel_missed = refl

step-of-milestone :
    (s t : MilestoneStatus) → validate_milestone_transition s t ≡ ok tt → MilestoneStep s t
unfolding validate_milestone_transition
step-of-milestone MilestoneStatus.planned MilestoneStatus.in_progress h = begin
step-of-milestone MilestoneStatus.planned MilestoneStatus.missed h = miss_planned
step-of-milestone MilestoneStatus.in_progress MilestoneStatus.missed h = miss_started
step-of-milestone MilestoneStatus.in_progress MilestoneStatus.achieved h = achieve
step-of-milestone MilestoneStatus.missed MilestoneStatus.achieved h = achieve_late
step-of-milestone MilestoneStatus.achieved MilestoneStatus.in_progress h = reopen_milestone
step-of-milestone MilestoneStatus.planned MilestoneStatus.cancelled h = cancel_planned
step-of-milestone MilestoneStatus.in_progress MilestoneStatus.cancelled h = cancel_started
step-of-milestone MilestoneStatus.missed MilestoneStatus.cancelled h = cancel_missed
step-of-milestone s t h = absurd (ground arith)

-- A milestone's status change is accepted exactly when it is an edge of its machine.
pub validate_milestone_transition_iff :
    (s t : MilestoneStatus) → (validate_milestone_transition s t ≡ ok tt) ↔ MilestoneStep s t
validate_milestone_transition_iff s t = (step-of-milestone s t, milestone-of-step)
