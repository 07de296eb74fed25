-- ===== src/Work/Queries.antt =====
-- The queries of contexts/work/repository.py on the tables.
use aiworkos.Base.{
  ℕ, Bool, ◌&&◌, none, some, List, [], ◌∷◌, map, ◌==◌, nat_eq, option_eq, is_some, ltb, any, filter,
  count, contains,
}
use aiworkos.Base.Forest.{Forest}
use aiworkos.Platform.Repository.{get}
use aiworkos.Work.Vocabulary.{
  WorkStatus, MilestoneStatus, AssignmentStatus, DependencyKind, DependencyStatus, Visibility,
  work_status_eq, milestone_status_eq, assignment_status_eq, dependency_kind_eq,
  dependency_status_eq,
}
use aiworkos.Work.Visibility.{rank}
use aiworkos.Work.Lifecycle.{open_work_statuses}
use aiworkos.Work.Assignment.{ExistingAssignment}
use aiworkos.Work.Dependency.{Endpoint, EndpointType, endpoint_eq, DependencyEdge}
use aiworkos.Work.Rows.{Milestone, Work, WorkAssignment, Dependency, milestones_table, works_table}
use aiworkos.Work.Store.{Store}

-- `_OPEN_MILESTONE` and `_OPEN_WORK` of contexts/work/repository.py
abbrev pub open_milestone : List MilestoneStatus
open_milestone = MilestoneStatus.planned ∷ MilestoneStatus.in_progress ∷ []

abbrev pub is_open_milestone : ℕ → ℕ → Milestone → Bool
is_open_milestone org_id project_id m =
    (m.org_id == org_id) && (m.project_id == project_id) && contains m.status open_milestone

abbrev pub is_work_of : ℕ → ℕ → Work → Bool
is_work_of org_id project_id w = (w.org_id == org_id) && (w.project_id == some project_id)

unfoldable pub count_open_milestones : ℕ → ℕ → Store → ℕ
count_open_milestones org_id project_id s =
    count (λ m. is_open_milestone org_id project_id m) s.milestones

unfoldable pub count_work_in_progress_or_blocked : ℕ → ℕ → Store → ℕ
count_work_in_progress_or_blocked org_id project_id s =
    count
      (λ w.
        is_work_of org_id project_id w
        && contains w.status (WorkStatus.in_progress ∷ WorkStatus.blocked ∷ []))
      s.works

unfoldable pub work_wider_than : ℕ → ℕ → Visibility → Store → List Work
work_wider_than org_id project_id visibility s =
    filter (λ w. is_work_of org_id project_id w && ltb (rank w.visibility) (rank visibility))
      s.works

unfoldable pub open_milestones_of_project : ℕ → ℕ → Store → List Milestone
open_milestones_of_project org_id project_id s =
    filter (λ m. is_open_milestone org_id project_id m) s.milestones

unfoldable pub open_work_of_project : ℕ → ℕ → Store → List Work
unfolding open_work_statuses
open_work_of_project org_id project_id s =
    filter (λ w. is_work_of org_id project_id w && contains w.status open_work_statuses) s.works

unfoldable pub has_open_children : ℕ → ℕ → Store → Bool
unfolding open_work_statuses
has_open_children org_id work_id s =
    any
      (λ w.
        (w.org_id == org_id)
        && (w.parent_work_id == some work_id)
        && contains w.status open_work_statuses)
      s.works

unfoldable pub has_active_blocking_dependency : ℕ → ℕ → Store → Bool
has_active_blocking_dependency org_id work_id s =
    any
      (λ d.
        (d.org_id == org_id)
        && (d.blocked == record { type = EndpointType.work; id = work_id })
        && (d.kind == DependencyKind.blocks)
        && (d.status == DependencyStatus.active))
      s.dependencies

-- The parent pointers that the ancestor query walks, within one organization.
abbrev pub parents_of : ℕ → Store → Forest
parents_of org_id s work_id = elim (get works_table org_id work_id s.works) [
  | none ↦ none
  | some w ↦ w.parent_work_id
]

abbrev pub assignments_for_work : ℕ → ℕ → Store → List WorkAssignment
assignments_for_work org_id work_id s =
    filter (λ a. (a.org_id == org_id) && (a.work_id == work_id)) s.assignments

abbrev pub existing : WorkAssignment → ExistingAssignment
existing a = record {
  person_id = a.person_id;
  role = a.role;
  status = a.status;
  is_primary = a.is_primary;
}

abbrev pub existing_assignments : ℕ → ℕ → Store → List ExistingAssignment
existing_assignments org_id work_id s = map existing (assignments_for_work org_id work_id s)

unfoldable pub work_ids_assigned_to : ℕ → ℕ → Store → List ℕ
work_ids_assigned_to org_id person_id s =
    map (λ (a : WorkAssignment). a.work_id)
      (filter
        (λ a.
          (a.org_id == org_id)
          && (a.person_id == person_id)
          && (a.status == AssignmentStatus.active))
        s.assignments)

abbrev pub edge_of : Dependency → DependencyEdge
edge_of d = record { blocker = d.blocker; blocked = d.blocked; kind = d.kind; status = d.status }

abbrev pub dependency_edges : ℕ → Store → List DependencyEdge
dependency_edges org_id s = map edge_of (filter (λ d. d.org_id == org_id) s.dependencies)

abbrev pub is_active_from : ℕ → Endpoint → Dependency → Bool
is_active_from org_id blocker d =
    (d.org_id == org_id) && (d.blocker == blocker) && (d.status == DependencyStatus.active)

unfoldable pub active_dependencies_from : ℕ → Endpoint → Store → List Dependency
active_dependencies_from org_id blocker s =
    filter (λ d. is_active_from org_id blocker d) s.dependencies

unfoldable pub endpoint_exists : ℕ → Endpoint → Store → Bool
endpoint_exists org_id endpoint s = elim endpoint.type [
  | EndpointType.work ↦ is_some (get works_table org_id endpoint.id s.works)
  | EndpointType.milestone ↦ is_some (get milestones_table org_id endpoint.id s.milestones)
]
