-- ===== src/Work/Service/History.antt =====
-- Histories of the Work Core: transactions of its services that committed, one after the other.
use aiworkos.Base.{ℕ, ◌≡◌, Bool, true, [], ◌==◌}
use aiworkos.Base.Result.{ok}
use aiworkos.Work.Vocabulary.{DependencyStatus, dependency_status_eq}
use aiworkos.Work.Rows.{Project, Milestone, Work, WorkAssignment, Dependency}
use aiworkos.Work.Store.{Store, WorkContext}
use aiworkos.Work.Service.Commands.{
  CreateProject, UpdateProject, ChangeProjectStatus, ChangeProjectVisibility, CreateMilestone,
  UpdateMilestone, ChangeMilestoneStatus, CreateWork, UpdateWork, ChangeWorkStatus,
  ChangeWorkVisibility, AssignWork, EndAssignment, SetOwner, ReassignOwner, CreateDependency,
  ChangeDependencyStatus,
}
use aiworkos.Work.Service.Dependencies.{create_dependency, change_dependency_status}
use aiworkos.Work.Service.Assignments.{assign, reassign_owner, set_owner, end_by_command}
use aiworkos.Work.Service.Milestones.{create_milestone, edit_milestone, change_milestone_status}
use aiworkos.Work.Service.Items.{create_work, edit_work, change_work_visibility, change_work_status}
use aiworkos.Work.Service.Projects.{
  create_project, edit_project, change_project_visibility, change_project_status,
}
use aiworkos.Work.Service.Steps.{TableSteps, stay, one_step, TableSteps-trans}
use aiworkos.Work.Service.Keyed.{Keyed, TableSteps-Keyed}
use aiworkos.Work.Service.Refines.Dependencies.{
  create_dependency-TableStep, change_dependency_status-TableStep,
}
use aiworkos.Work.Service.Refines.Assignments.{assign-TableStep, end_by_command-TableStep}
use aiworkos.Work.Service.Refines.Owners.{reassign_owner-TableSteps, set_owner-TableSteps}
use aiworkos.Work.Service.Refines.Milestones.{
  create_milestone-TableStep, edit_milestone-TableStep, change_milestone_status-TableSteps,
}
use aiworkos.Work.Service.Refines.Items.{
  create_work-TableStep, edit_work-TableStep, change_work_visibility-TableStep,
}
use aiworkos.Work.Service.Refines.Moves.{change_work_status-TableSteps}
use aiworkos.Work.Service.Refines.Projects.{
  create_project-TableStep, edit_project-TableStep, change_project_visibility-TableSteps,
}
use aiworkos.Work.Service.Refines.Closing.{change_project_status-TableSteps}

-- One use case that returned, of any caller and at any time. `reactivating` tells whether a
-- dependency may be set to active by hand.
pub data Commits (reactivating : Bool) (s s' : Store) : Type 0 where
  creates_project :
      (ctx : WorkContext) (new_id : ℕ) (command : CreateProject) (row : Project)
      → create_project ctx new_id command s ≡ ok (row, s')
      → Commits reactivating s s'
  edits_project :
      (ctx : WorkContext) (command : UpdateProject) (row : Project)
      → edit_project ctx command s ≡ ok (row, s')
      → Commits reactivating s s'
  shows_project :
      (ctx : WorkContext) (command : ChangeProjectVisibility) (row : Project)
      → change_project_visibility ctx command s ≡ ok (row, s')
      → Commits reactivating s s'
  moves_project :
      (ctx : WorkContext) (command : ChangeProjectStatus) (row : Project)
      → change_project_status ctx command s ≡ ok (row, s')
      → Commits reactivating s s'
  creates_milestone :
      (ctx : WorkContext) (new_id : ℕ) (command : CreateMilestone) (row : Milestone)
      → create_milestone ctx new_id command s ≡ ok (row, s')
      → Commits reactivating s s'
  edits_milestone :
      (ctx : WorkContext) (command : UpdateMilestone) (row : Milestone)
      → edit_milestone ctx command s ≡ ok (row, s')
      → Commits reactivating s s'
  moves_milestone :
      (ctx : WorkContext) (command : ChangeMilestoneStatus) (row : Milestone)
      → change_milestone_status ctx command s ≡ ok (row, s')
      → Commits reactivating s s'
  creates_work :
      (ctx : WorkContext) (new_id probe_id : ℕ) (command : CreateWork) (row : Work)
      → create_work ctx new_id probe_id command s ≡ ok (row, s')
      → Commits reactivating s s'
  edits_work :
      (ctx : WorkContext) (command : UpdateWork) (row : Work)
      → edit_work ctx command s ≡ ok (row, s')
      → Commits reactivating s s'
  shows_work :
      (ctx : WorkContext) (command : ChangeWorkVisibility) (row : Work)
      → change_work_visibility ctx command s ≡ ok (row, s')
      → Commits reactivating s s'
  moves_work :
      (ctx : WorkContext) (command : ChangeWorkStatus) (row : Work)
      → change_work_status ctx command s ≡ ok (row, s')
      → Commits reactivating s s'
  assigns :
      (ctx : WorkContext) (new_id : ℕ) (command : AssignWork) (row : WorkAssignment)
      → assign ctx new_id command s ≡ ok (row, s')
      → Commits reactivating s s'
  reassigns :
      (ctx : WorkContext) (new_id : ℕ) (command : ReassignOwner) (row : WorkAssignment)
      → reassign_owner ctx new_id command s ≡ ok (row, s')
      → Commits reactivating s s'
  sets_owner :
      (ctx : WorkContext) (new_id : ℕ) (command : SetOwner) (row : WorkAssignment)
      → set_owner ctx new_id command s ≡ ok (row, s')
      → Commits reactivating s s'
  ends_assignment :
      (ctx : WorkContext) (command : EndAssignment) (row : WorkAssignment)
      → end_by_command ctx command s ≡ ok (row, s')
      → Commits reactivating s s'
  creates_dependency :
      (ctx : WorkContext) (new_id : ℕ) (command : CreateDependency) (row : Dependency)
      → create_dependency ctx new_id command s ≡ ok (row, s')
      → Commits reactivating s s'
  moves_dependency :
      (ctx : WorkContext) (command : ChangeDependencyStatus) (row : Dependency)
      → ((command.target == DependencyStatus.active) ≡ true → reactivating ≡ true)
      → change_dependency_status ctx command s ≡ ok (row, s')
      → Commits reactivating s s'

pub data History (reactivating : Bool) (s : Store) : Store → Type 0 where
  start : History reactivating s s
  and_then :
      {mid last : Store}
      → History reactivating s mid
      → Commits reactivating mid last
      → History reactivating s last

-- From a state with unique ids, every use case that returns, its cascades included, is a sequence of
-- steps that each insert or write one row of one table, under the checks that the step names, and
-- leave one audit entry that shows the row as it is after it, and an event.
pub commit-TableSteps :
    (reactivating : Bool) (s s' : Store)
    → Keyed s
    → Commits reactivating s s'
    → TableSteps reactivating s s'
commit-TableSteps r s s' k (creates_project ctx new_id command row h) =
    one_step (create_project-TableStep r ctx new_id command s row s' h)
commit-TableSteps r s s' k (edits_project ctx command row h) =
    one_step (edit_project-TableStep r ctx command s row s' h)
commit-TableSteps r s s' k (shows_project ctx command row h) =
    change_project_visibility-TableSteps r ctx command s row s' k h
commit-TableSteps r s s' k (moves_project ctx command row h) =
    change_project_status-TableSteps r ctx command s row s' k h
commit-TableSteps r s s' k (creates_milestone ctx new_id command row h) =
    one_step (create_milestone-TableStep r ctx new_id command s row s' h)
commit-TableSteps r s s' k (edits_milestone ctx command row h) =
    one_step (edit_milestone-TableStep r ctx command s row s' h)
commit-TableSteps r s s' k (moves_milestone ctx command row h) =
    change_milestone_status-TableSteps r ctx command s row s' k h
commit-TableSteps r s s' k (creates_work ctx new_id probe_id command row h) =
    one_step (create_work-TableStep r ctx new_id probe_id command s row s' h)
commit-TableSteps r s s' k (edits_work ctx command row h) =
    one_step (edit_work-TableStep r ctx command s row s' h)
commit-TableSteps r s s' k (shows_work ctx command row h) =
    one_step (change_work_visibility-TableStep r ctx command s row s' h)
commit-TableSteps r s s' k (moves_work ctx command row h) =
    change_work_status-TableSteps r ctx command s row s' k h
commit-TableSteps r s s' k (assigns ctx new_id command row h) =
    one_step (assign-TableStep r ctx new_id command s row s' h)
commit-TableSteps r s s' k (reassigns ctx new_id command row h) =
    reassign_owner-TableSteps r ctx new_id command s row s' k h
commit-TableSteps r s s' k (sets_owner ctx new_id command row h) =
    set_owner-TableSteps r ctx new_id command s row s' k h
commit-TableSteps r s s' k (ends_assignment ctx command row h) =
    one_step (end_by_command-TableStep r ctx command s row s' h)
commit-TableSteps r s s' k (creates_dependency ctx new_id command row h) =
    one_step (create_dependency-TableStep r ctx new_id command s row s' h)
commit-TableSteps r s s' k (moves_dependency ctx command row allowed h) =
    one_step (change_dependency_status-TableStep r ctx command s row s' allowed h)

abbrev pub empty_store : Store
empty_store = record {
  projects = [];
  milestones = [];
  works = [];
  assignments = [];
  dependencies = [];
  audit = [];
  outbox = [];
}

pub empty_store-Keyed : Keyed empty_store
empty_store-Keyed = record {
  projects = tt;
  milestones = tt;
  works = tt;
  assignments = tt;
  dependencies = tt;
}

-- A history from a state with unique ids is a sequence of steps.
pub History-TableSteps :
    (reactivating : Bool) (s t : Store)
    → Keyed s
    → History reactivating s t
    → TableSteps reactivating s t
History-TableSteps r s t k start = stay
History-TableSteps r s t k (and_then {mid = m} history commit) =
    let before = History-TableSteps r s m k history in
    TableSteps-trans s m t before (commit-TableSteps r m t (TableSteps-Keyed r s m before k) commit)
