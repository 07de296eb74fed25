-- ===== src/Work/Project.antt =====
-- Projects and milestones: PROJECT_TRANSITIONS, MILESTONE_TRANSITIONS and their checks in
-- contexts/work/domain.py. Dates are ordinals.
pub mod Machine
use aiworkos.Base.{
  ℕ, Bool, false, not, ◌&&◌, ◌||◌, Option, none, some, List, [], ◌∷◌, ◌==◌, nat_eq, ltb, is_none,
  contains,
}
use aiworkos.Base.Text.{Text, strip, is_empty}
use aiworkos.Base.Result.{Result, ok, ◌>>=◌, ◌>>◌, raise_if, br_p_01, br_p_02, br_p_03, br_p_07}
use aiworkos.Work.Vocabulary.{
  ProjectStatus, MilestoneStatus, project_status_eq, milestone_status_eq,
}

unfoldable pub project_transitions : ProjectStatus → List ProjectStatus
project_transitions ProjectStatus.proposed = ProjectStatus.active ∷ ProjectStatus.cancelled ∷ []
project_transitions ProjectStatus.active =
    ProjectStatus.on_hold ∷ ProjectStatus.completed ∷ ProjectStatus.cancelled ∷ []
project_transitions ProjectStatus.on_hold = ProjectStatus.active ∷ ProjectStatus.cancelled ∷ []
project_transitions ProjectStatus.completed = ProjectStatus.active ∷ []
project_transitions ProjectStatus.cancelled = []

unfoldable pub milestone_transitions : MilestoneStatus → List MilestoneStatus
milestone_transitions MilestoneStatus.planned =
    MilestoneStatus.in_progress ∷ MilestoneStatus.missed ∷ MilestoneStatus.cancelled ∷ []
milestone_transitions MilestoneStatus.in_progress =
    MilestoneStatus.achieved ∷ MilestoneStatus.missed ∷ MilestoneStatus.cancelled ∷ []
milestone_transitions MilestoneStatus.achieved = MilestoneStatus.in_progress ∷ []
milestone_transitions MilestoneStatus.missed =
    MilestoneStatus.achieved ∷ MilestoneStatus.cancelled ∷ []
milestone_transitions MilestoneStatus.cancelled = []

pub record ProjectClosureContext : Type 0 where
  pub open_milestones : ℕ
  pub work_in_progress_or_blocked : ℕ

unfoldable pub validate_project_transition :
    ProjectStatus → ProjectStatus → ProjectClosureContext → Result (Unit {0})
unfolding project_transitions
validate_project_transition current target context = do
  raise_if (current == target) br_p_03
  raise_if (not (contains target (project_transitions current))) br_p_03
  raise_if (target == ProjectStatus.completed && ltb 0 context.open_milestones) br_p_03
  raise_if (target == ProjectStatus.completed && ltb 0 context.work_in_progress_or_blocked) br_p_03
  ok tt

-- `start_date and target_date and target_date < start_date`
abbrev ends_before_start : Option ℕ → Option ℕ → Bool
ends_before_start (some start) (some target) = ltb target start
ends_before_start _ _ = false

-- `name`, `owning_team_id`, `department_id`, `start_date`, `target_date`
unfoldable pub validate_project_creation :
    Text → Option ℕ → Option ℕ → Option ℕ → Option ℕ → Result (Unit {0})
validate_project_creation name owning_team_id department_id start_date target_date = do
  raise_if (is_empty name || is_empty (strip name)) br_p_01
  raise_if (is_none owning_team_id && is_none department_id) br_p_01
  raise_if (ends_before_start start_date target_date) br_p_02
  ok tt

unfoldable pub validate_milestone_transition : MilestoneStatus → MilestoneStatus → Result (Unit {0})
unfolding milestone_transitions
validate_milestone_transition current target = do
  raise_if (current == target) br_p_07
  raise_if (not (contains target (milestone_transitions current))) br_p_07
  ok tt
