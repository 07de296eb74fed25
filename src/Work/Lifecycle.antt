-- ===== src/Work/Lifecycle.antt =====
-- The status machine of a Work: WORK_TRANSITIONS, validate_work_transition, completed_at_for and
-- validate_work_creation of contexts/work/domain.py.
pub mod Machine
use aiworkos.Base.{
  ℕ, ◌≡◌, Bool, true, false, not, ◌&&◌, ◌||◌, Option, none, some, List, [], ◌∷◌, ◌==◌, is_some,
  is_none, contains, if◌then◌else◌,
}
use aiworkos.Base.Text.{Text, strip, is_empty}
use aiworkos.Base.Result.{
  Result, ok, ◌>>=◌, ◌>>◌, raise_if, br_w_01, br_w_03, br_w_04, br_w_05, br_w_09, br_p_06, br_ai_16,
}
use aiworkos.Work.Vocabulary.{
  WorkStatus, ProjectStatus, Source, work_status_eq, project_status_eq, source_eq,
}

unfoldable pub work_transitions : WorkStatus → List WorkStatus
work_transitions WorkStatus.proposed = WorkStatus.todo ∷ WorkStatus.rejected ∷ []
work_transitions WorkStatus.todo = WorkStatus.in_progress ∷ WorkStatus.cancelled ∷ []
work_transitions WorkStatus.in_progress =
    WorkStatus.blocked ∷ WorkStatus.done ∷ WorkStatus.cancelled ∷ []
work_transitions WorkStatus.blocked = WorkStatus.in_progress ∷ WorkStatus.cancelled ∷ []
work_transitions WorkStatus.done = WorkStatus.in_progress ∷ []
work_transitions WorkStatus.cancelled = []
work_transitions WorkStatus.rejected = []

unfoldable pub open_work_statuses : List WorkStatus
open_work_statuses =
    WorkStatus.proposed ∷ WorkStatus.todo ∷ WorkStatus.in_progress ∷ WorkStatus.blocked ∷ []

pub record WorkTransitionContext : Type 0 where
  pub has_active_blocking_dependency : Bool
  pub has_open_children : Bool
  pub project_status : Option ProjectStatus
  pub blocked_reason : Option Text

-- `reason and reason.strip()`
unfoldable pub has_reason : Option Text → Bool
has_reason none = false
has_reason (some reason) = not (is_empty (strip reason))

-- `project_status is not None and project_status not in startable`
abbrev pub forbids_start : Option ProjectStatus → Bool
forbids_start none = false
forbids_start (some status) =
    not (contains status (ProjectStatus.active ∷ ProjectStatus.on_hold ∷ []))

unfoldable pub validate_work_transition :
    WorkStatus → WorkStatus → WorkTransitionContext → Result (Unit {0})
unfolding work_transitions
validate_work_transition current target context = do
  raise_if (current == target) br_w_03
  raise_if (not (contains target (work_transitions current))) br_w_03
  raise_if
      (target == WorkStatus.blocked
        && not (context.has_active_blocking_dependency || has_reason context.blocked_reason))
      br_w_04
  raise_if (target == WorkStatus.done && context.has_active_blocking_dependency) br_w_05
  raise_if (target == WorkStatus.done && context.has_open_children) br_w_05
  raise_if (target == WorkStatus.in_progress && forbids_start context.project_status) br_w_09
  ok tt

unfoldable pub completed_at_for : WorkStatus → ℕ → Option ℕ
completed_at_for target now = if target == WorkStatus.done then some now else none

-- `title`, `source`, `project_id`, `milestone_id`
unfoldable pub validate_work_creation : Text → Source → Option ℕ → Option ℕ → Result WorkStatus
validate_work_creation title source project_id milestone_id = do
  raise_if (is_empty title || is_empty (strip title)) br_w_01
  raise_if (is_some milestone_id && is_none project_id) br_p_06
  raise_if (source == Source.ai) br_ai_16
  ok WorkStatus.todo
