-- ===== src/Work/Service/Tests.antt =====
-- Concrete runs of the Work Core's services.
use aiworkos.Base.{ℕ, ◌≡◌, refl, false, some, [], ◌∷◌}
use aiworkos.Base.Text.{strip}
use aiworkos.Base.Table.{find}
use aiworkos.Base.Result.{ok, violation, br_w_19}
use aiworkos.Platform.Authz.Model.{Action, ResourceType}
use aiworkos.Platform.Authz.Policy.{authorize}
use aiworkos.Platform.Repository.{get, update}
use aiworkos.Work.Vocabulary.{DependencyStatus, WorkStatus, ProjectStatus, Visibility}
use aiworkos.Work.Visibility.{effective_work_visibility, narrowing_to, is_narrower_or_equal}
use aiworkos.Work.Lifecycle.{validate_work_creation, validate_work_transition}
use aiworkos.Work.Assignment.{validate_assignment, current_owner}
use aiworkos.Work.Assignment.Seats.{IsSeated}
use aiworkos.Work.Dependency.{EndpointType, validate_dependency, find_cycle, search_from}
use aiworkos.Work.Dependency.Relation.{IsAcyclic}
use aiworkos.Work.Rows.{
  Project, Work, WorkAssignment, Dependency, projects_table, works_table, dependencies_table,
}
use aiworkos.Work.Store.{Store, authorize_work}
use aiworkos.Work.Queries.{
  dependency_edges, existing_assignments, endpoint_exists, work_wider_than, has_open_children,
  has_active_blocking_dependency, active_dependencies_from,
}
use aiworkos.Work.Relations.{reach_of, project_relations, work_authorship_relations, work_project}
use aiworkos.Work.Service.Dependencies.{
  create_dependency, settle_dependencies, apply_dependency_status,
}
use aiworkos.Work.Service.Assignments.{create_assignment, assign, set_owner, vacate, end_assignment}
use aiworkos.Work.Service.Items.{create_work, edit_work, change_work_status, apply_work_status}
use aiworkos.Work.Service.Projects.{
  change_project_visibility, change_project_status, narrow_contents,
}
use aiworkos.Work.Service.Steps.{TableSteps}
use aiworkos.Work.Service.Keyed.{Keyed}
use aiworkos.Work.Service.History.{
  creates_work, assigns, creates_dependency, History, start, and_then, commit-TableSteps,
  empty_store, empty_store-Keyed,
}
use aiworkos.Work.Service.Seating.{IsSeatedAll, History-IsSeated}
use aiworkos.Work.Service.Graph.{History-IsAcyclic}
use aiworkos.Work.Service.Completion.{IsConsistent, History-IsConsistent}
use aiworkos.Work.Service.Trail.{IsTold, History-IsTold}
use aiworkos.Work.Service.Outcomes.Cancelled.{Emptied}
use aiworkos.Work.Service.Outcomes.Completes.{cancellation_completes}
use aiworkos.Work.Service.Outcomes.Narrowed.{is_wider, change_project_visibility-is_wider}
use aiworkos.Work.Service.Outcomes.Settled.{is_blocked_by, change_work_status-is_blocked_by}
use aiworkos.Work.Service.Outcomes.Finished.{change_work_status-done, edit_work_leaves_work_wider}
use aiworkos.Work.Service.Outcomes.Owned.{set_owner-current_owner}
use aiworkos.Work.Service.Samples.{
  value_of, caller, allowed, capture, item, one_work, two_works, waiting, edge, linked, claim, seat,
  owned, launch, started, running, cancel, restrict, finish, hand_over, secret, with_secret,
  move_there,
}

first_work : create_work caller 1 90 capture empty_store ≡ ok (item 1, one_work)
unfolding create_work authorize validate_work_creation effective_work_visibility strip
first_work = refl

second_work : create_work caller 2 91 capture one_work ≡ ok (item 2, two_works)
unfolding create_work authorize validate_work_creation effective_work_visibility strip
second_work = refl

dependency_created : create_dependency caller 5 waiting two_works ≡ ok (edge, linked)
unfolding create_dependency authorize endpoint_exists get validate_dependency find_cycle search_from
dependency_created = refl

claimed : assign caller 6 claim linked ≡ ok (seat, owned)
unfolding assign authorize get create_assignment validate_assignment
claimed = refl

abbrev history : History false empty_store owned
history =
    and_then
      (and_then
        (and_then (and_then start (creates_work caller 1 90 capture (item 1) first_work))
          (creates_work caller 2 91 capture (item 2) second_work))
        (creates_dependency caller 5 waiting edge dependency_created))
      (assigns caller 6 claim seat claimed)

commit-TableSteps_example : TableSteps false empty_store one_work
commit-TableSteps_example =
    commit-TableSteps false empty_store one_work empty_store-Keyed
      (creates_work caller 1 90 capture (item 1) first_work)

History-IsSeated_example : IsSeated (existing_assignments 1 1 owned)
History-IsSeated_example = History-IsSeated false owned 1 1 history

History-IsAcyclic_example : IsAcyclic (dependency_edges 1 owned)
History-IsAcyclic_example = History-IsAcyclic owned 1 history

History-IsConsistent_example : Keyed owned × IsConsistent owned
History-IsConsistent_example = History-IsConsistent false owned history

History-IsTold_example : IsTold owned
History-IsTold_example = History-IsTold false owned history

running-Keyed : Keyed running
running-Keyed = record {
  projects = (refl, tt);
  milestones = (refl, tt);
  works = (refl, (refl, tt));
  assignments = (refl, tt);
  dependencies = (refl, tt);
}

launch_found : get projects_table 1 1 (launch ∷ []) ≡ some launch
unfolding get
launch_found = refl

may_cancel :
    authorize_work caller Action.change_state ResourceType.project
      (project_relations (reach_of caller running) launch)
      (some 1)
    ≡ ok allowed
unfolding authorize
may_cancel = refl

cancellation_completes_example :
    (row : Project) × (s' : Store) × (change_project_status caller cancel running ≡ ok (row, s'))
    × (row.status ≡ ProjectStatus.cancelled)
    × Emptied 1 row.id s'
cancellation_completes_example =
    cancellation_completes caller cancel running launch allowed running-Keyed launch_found refl refl
      refl may_cancel

abbrev restricted : Project × Store
restricted = value_of (change_project_visibility caller restrict running) (launch, running)

restricted_returns : change_project_visibility caller restrict running ≡ ok restricted
unfolding change_project_visibility authorize get update narrow_contents work_wider_than
    narrowing_to
restricted_returns = refl

change_project_visibility-is_wider_example :
    (restricted.0.visibility ≡ Visibility.team)
    × ((id : ℕ) (w : Work)
        → find works_table.id id restricted.1.works ≡ some w
        → is_wider 1 restricted.0.id Visibility.team w ≡ false)
change_project_visibility-is_wider_example =
    change_project_visibility-is_wider caller restrict running restricted.0 restricted.1
      running-Keyed restricted_returns

abbrev finished : Work × Store
finished = value_of (change_work_status caller finish running) (started, running)

finished_returns : change_work_status caller finish running ≡ ok finished
unfolding change_work_status authorize get apply_work_status validate_work_transition update
    settle_dependencies has_open_children has_active_blocking_dependency active_dependencies_from
    apply_dependency_status
finished_returns = refl

abbrev settled_edge : Dependency
settled_edge = record edge { status = DependencyStatus.resolved; version = 2 }

settled_found : find dependencies_table.id 5 finished.1.dependencies ≡ some settled_edge
unfolding change_work_status authorize get apply_work_status validate_work_transition update
    settle_dependencies has_open_children has_active_blocking_dependency active_dependencies_from
    apply_dependency_status
settled_found = refl

change_work_status-is_blocked_by_example :
    is_blocked_by 1 (record { type = EndpointType.work; id = finished.0.id }) settled_edge ≡ false
change_work_status-is_blocked_by_example =
    change_work_status-is_blocked_by caller finish running finished.0 finished.1 running-Keyed refl
      finished_returns 5 settled_edge settled_found

change_work_status-done_example :
    (w : Work) × (find works_table.id 1 running.works ≡ some w)
    × (w.status ≡ WorkStatus.in_progress)
    × (has_open_children 1 w.id running ≡ false)
    × (has_active_blocking_dependency 1 w.id running ≡ false)
    × (finished.0
        ≡ works_table.bump (record w { status = WorkStatus.done; completed_at = some 100 }))
change_work_status-done_example =
    change_work_status-done caller finish running finished.0 finished.1 refl finished_returns

abbrev handed : WorkAssignment × Store
handed = value_of (set_owner caller 9 hand_over owned) (seat, owned)

handed_returns : set_owner caller 9 hand_over owned ≡ ok handed
unfolding set_owner vacate authorize get end_assignment update create_assignment validate_assignment
handed_returns = refl

owned-IsSeatedAll : IsSeatedAll owned.assignments
owned-IsSeatedAll org_id work_id = History-IsSeated false owned org_id work_id history

set_owner-current_owner_example : current_owner (existing_assignments 1 1 handed.1) ≡ some 8
set_owner-current_owner_example =
    set_owner-current_owner caller 9 owned handed.0 handed.1
      (History-IsConsistent false owned history).0 owned-IsSeatedAll hand_over handed_returns

started_found : get works_table 1 1 with_secret.works ≡ some started
unfolding get
started_found = refl

may_edit :
    authorize_work caller Action.update ResourceType.work
      (work_authorship_relations
        (reach_of caller with_secret)
        started
        (work_project started with_secret))
      (some 1)
    ≡ ok allowed
unfolding authorize get
may_edit = refl

secret_found : get projects_table 1 3 with_secret.projects ≡ some secret
unfolding get
secret_found = refl

organization_is_wider : is_narrower_or_equal Visibility.organization Visibility.restricted ≡ false
unfolding is_narrower_or_equal
organization_is_wider = refl

-- The Project 3 is restricted, and the Work visible to the organization.
edit_work_leaves_work_wider_example :
    (row : Work) × (s' : Store) × (edit_work caller move_there with_secret ≡ ok (row, s'))
    × (find works_table.id 1 s'.works ≡ some row)
    × (row.project_id ≡ some 3)
    × (get projects_table 1 3 s'.projects ≡ some secret)
    × (effective_work_visibility (some row.visibility) (some Visibility.restricted) row.visibility
        ≡ violation br_w_19)
edit_work_leaves_work_wider_example =
    edit_work_leaves_work_wider caller move_there with_secret started secret allowed started_found
      refl may_edit refl refl refl refl secret_found organization_is_wider
