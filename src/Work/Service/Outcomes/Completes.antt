-- ===== src/Work/Service/Outcomes/Completes.antt =====
-- The cascade of a Project's cancellation runs to its end.
use aiworkos.Base.{
  ◌≡◌, refl, subst, ◌∙◌, inr, Bool, true, false, some, ◌==◌, nat_eq, option_eq, if◌then◌else◌,
}
use aiworkos.Base.Table.{update_where}
use aiworkos.Base.Result.{ok, goes_on, passes_on}
use aiworkos.Platform.Authz.Model.{Action, ResourceType, Decision}
use aiworkos.Platform.Repository.{update, get}
use aiworkos.Work.Vocabulary.{
  ProjectStatus, work_status_eq, project_status_eq, milestone_status_eq, dependency_kind_eq,
  dependency_status_eq,
}
use aiworkos.Work.Project.{ProjectClosureContext, validate_project_transition}
use aiworkos.Work.Dependency.{endpoint_eq}
use aiworkos.Work.Rows.{Project, projects_table}
use aiworkos.Work.Store.{Snapshot, WorkEvent, Store, WorkContext, org_of, authorize_work, load}
use aiworkos.Work.Relations.{reach_of, project_relations}
use aiworkos.Work.Service.Commands.{ChangeProjectStatus}
use aiworkos.Work.Service.Projects.{
  cancel_contents, closure_of, moved_project, recorded_project, change_project_status,
}
use aiworkos.Work.Service.Effects.{got, update-returns}
use aiworkos.Work.Service.Keyed.{Keyed, TableStep-Keyed}
use aiworkos.Work.Service.Outcomes.Cancelled.{Emptied, change_project_status-Emptied}
use aiworkos.Work.Service.Refines.Projects.{project_written}
use aiworkos.Work.Service.Outcomes.Returns.{cancel_contents-returns}

-- The statuses from which a Project may be cancelled.
abbrev pub is_cancellable : ProjectStatus → Bool
is_cancellable ProjectStatus.completed = false
is_cancellable ProjectStatus.cancelled = false
is_cancellable _ = true

cancellable_project :
    (status : ProjectStatus) (closure : ProjectClosureContext)
    → is_cancellable status ≡ true
    → validate_project_transition status ProjectStatus.cancelled closure ≡ ok tt
unfolding validate_project_transition
cancellable_project ProjectStatus.proposed closure h = refl
cancellable_project ProjectStatus.active closure h = refl
cancellable_project ProjectStatus.on_hold closure h = refl
cancellable_project ProjectStatus.completed closure h = absurd (cc h)
cancellable_project ProjectStatus.cancelled closure h = absurd (cc h)

-- From a state with unique ids, the cancellation of a proposed, active or paused Project of the
-- caller's organization, asked for at its current version by a caller who is allowed to, returns,
-- whatever milestones, Work and dependencies there are: no item of the cascade is refused. It leaves
-- the Project cancelled and none of its milestones and none of its Work open.
pub cancellation_completes :
    (ctx : WorkContext) (command : ChangeProjectStatus) (s : Store) (p : Project)
    (decision : Decision)
    → Keyed s
    → get projects_table (org_of ctx) command.project_id s.projects ≡ some p
    → p.version ≡ command.expected_version
    → command.target ≡ ProjectStatus.cancelled
    → is_cancellable p.status ≡ true
    → authorize_work ctx Action.change_state ResourceType.project
        (project_relations (reach_of ctx s) p)
        (some p.id)
      ≡ ok decision
    → (row : Project) × (s' : Store) × (change_project_status ctx command s ≡ ok (row, s'))
      × (row.status ≡ ProjectStatus.cancelled)
      × Emptied (org_of ctx) row.id s'
unfolding change_project_status
cancellation_completes ctx command s p decision keyed there current cancels cancellable allowed =
    let found = got projects_table (org_of ctx) command.project_id s.projects p there in
    let loaded : load projects_table ctx command.project_id s.projects ≡ ok p =
      rw (load, there) refl in
    let valid : validate_project_transition p.status command.target (closure_of ctx p s) ≡ ok tt =
      rw cancels (cancellable_project p.status (closure_of ctx p s) cancellable) in
    let g = moved_project ctx.today command.target in
    let row = projects_table.bump (g p) in
    let rows =
      update_where projects_table.id p.id (λ (x : Project). projects_table.bump (g x)) s.projects in
    let wrote =
      subst (λ v. update projects_table (org_of ctx) p.id v g s.projects ≡ ok (row, rows)) current
        (update-returns projects_table (org_of ctx) g p s.projects found.there found.in_org) in
    let event = WorkEvent.project_status_changed p.status command.target in
    let step =
      project_written true ctx Action.change_state decision event p command.expected_version g s row
        rows (λ y. refl) found.there wrote
        (record { same_org = refl; status_moved = inr (closure_of ctx p s, valid) }) in
    let mid =
      (recorded_project ctx Action.change_state (some (Snapshot.project p)) decision event s
        (row, rows)).1 in
    let (t, emptied) =
      cancel_contents-returns ctx row decision mid (TableStep-Keyed true s mid step keyed) in
    let test : (command.target == ProjectStatus.cancelled) ≡ true =
      (project_status_eq.beq_iff command.target ProjectStatus.cancelled).1 cancels in
    let cascade : (if command.target == ProjectStatus.cancelled
          then cancel_contents ctx row decision mid
          else ok mid)
        ≡ ok t =
      rw test emptied in
    let returns : change_project_status ctx command s ≡ ok (row, t) =
      goes_on _ loaded
      ∙ (goes_on _ allowed ∙ (passes_on _ valid ∙ (goes_on _ wrote ∙ goes_on _ cascade))) in
    let (status, empty) = change_project_status-Emptied ctx command s row t keyed cancels returns in
    (row, t, returns, status, empty)
