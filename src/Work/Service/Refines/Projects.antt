-- ===== src/Work/Service/Refines/Projects.antt =====
-- ProjectService, with its two cascades.
use aiworkos.Base.{
  ℕ, ◌≡◌, ◌⊎◌, refl, ap, sym, subst, ◌∙◌, inl, inr, Bool, false, none, some, List, [], ◌==◌, ◌&&◌,
  nat_eq, option_eq, ltb, Option-cases,
}
use aiworkos.Base.Table.{find}
use aiworkos.Base.Loop.{each-related, filter-found, filter-IsKeyed}
use aiworkos.Base.Result.{ok, returned, passed, same_state, same_value}
use aiworkos.Platform.Authz.Model.{Action, ResourceType, Decision}
use aiworkos.Platform.Repository.{update}
use aiworkos.Platform.Records.{Actor}
use aiworkos.Work.Vocabulary.{Visibility, project_status_eq, work_status_eq}
use aiworkos.Work.Visibility.{narrowing_to, rank}
use aiworkos.Work.Project.{validate_project_creation}
use aiworkos.Work.Rows.{Project, Work, projects_table, works_table}
use aiworkos.Work.Store.{
  Snapshot, WorkEvent, Store, WorkContext, org_of, cascade_actor, authorize_work, insert, load,
}
use aiworkos.Work.Queries.{is_work_of, work_wider_than}
use aiworkos.Work.Relations.{reach_of, project_relations}
use aiworkos.Work.Service.Commands.{changed, CreateProject, UpdateProject, ChangeProjectVisibility}
use aiworkos.Work.Service.Items.{recorded_work, shown_at}
use aiworkos.Work.Service.Projects.{
  recorded_project, assert_project_references, new_project, create_project, edited_project,
  edit_project, narrow, narrow_contents, change_project_visibility,
}
use aiworkos.Work.Service.Steps.{
  FreshProject, ProjectMove, shows, TableStep, on_project, TableSteps, stay, one_step,
  TableSteps-trans,
}
use aiworkos.Work.Service.Effects.{load-Found, insert-RowStep, update-RowStep, update-others}
use aiworkos.Work.Service.Keyed.{Keyed, TableStep-Keyed}
use aiworkos.Work.Service.Refines.Items.{work_written}

pub create_project-TableStep :
    (reactivating : Bool) (ctx : WorkContext) (new_id : ℕ) (command : CreateProject) (s : Store)
    (row : Project) (s' : Store)
    → create_project ctx new_id command s ≡ ok (row, s')
    → TableStep reactivating s s'
unfolding create_project
create_project-TableStep r ctx new_id command s row s' h =
    let (e1, h1) =
      passed
        (validate_project_creation command.name command.owning_team_id command.department_id
          command.start_date command.target_date)
        _ h in
    let (e2, h2) =
      passed
        (assert_project_references ctx command.owning_team_id command.department_id
          command.lead_person_id command.sponsor_person_id)
        _ h1 in
    let new = new_project ctx new_id command in
    let (decision, e3, h3) =
      returned
        (authorize_work ctx Action.create ResourceType.project
          (project_relations (reach_of ctx s) new) none)
        _ h2 in
    let (rows, e4, h4) = returned (insert projects_table new s.projects) _ h3 in
    let e : (recorded_project ctx Action.create none decision WorkEvent.project_created s
          (new, rows)).1
        ≡ s' =
      same_state h4 in
    subst (TableStep r s) e (
      on_project new rows
        (insert-RowStep projects_table FreshProject ProjectMove new s.projects rows e4 refl)
        (record {
          entry = _;
          of_type = refl;
          of_row = refl;
          shows = refl;
          audited = refl;
          event = _;
          further = [];
          about = refl;
          published = refl;
        })
        refl)

-- A guarded write of a Project that was read, with its records.
pub project_written :
    (reactivating : Bool) (ctx : WorkContext) (action : Action) (decision : Decision)
    (event : WorkEvent) (p : Project) (expected : ℕ) (g : Project → Project) (s : Store)
    (row : Project) (rows : List Project)
    → ((x : Project) → projects_table.id (g x) ≡ projects_table.id x)
    → find projects_table.id p.id s.projects ≡ some p
    → update projects_table (org_of ctx) p.id expected g s.projects ≡ ok (row, rows)
    → ProjectMove p (projects_table.bump (g p))
    → TableStep reactivating s
        (recorded_project ctx action (some (Snapshot.project p)) decision event s (row, rows)).1
project_written r ctx action decision event p expected g s row rows keeps there e moved =
    on_project row rows
      (update-RowStep projects_table FreshProject ProjectMove (org_of ctx) expected g p s.projects
        row rows keeps there e moved)
      (record {
        entry = _;
        of_type = refl;
        of_row = refl;
        shows = refl;
        audited = refl;
        event = _;
        further = [];
        about = refl;
        published = refl;
      })
      refl

pub edit_project-TableStep :
    (reactivating : Bool) (ctx : WorkContext) (command : UpdateProject) (s : Store) (row : Project)
    (s' : Store)
    → edit_project ctx command s ≡ ok (row, s')
    → TableStep reactivating s s'
unfolding edit_project
edit_project-TableStep r ctx command s row s' h =
    let (p, e1, h1) = returned (load projects_table ctx command.project_id s.projects) _ h in
    let (decision, e2, h2) =
      returned
        (authorize_work ctx Action.update ResourceType.project
          (project_relations (reach_of ctx s) p) (some p.id))
        _ h1 in
    let (e3, h3) =
      passed
        (assert_project_references ctx (changed command.owning_team_id none)
          (changed command.department_id none) (changed command.lead_person_id none)
          (changed command.sponsor_person_id none))
        _ h2 in
    let (e4, h4) =
      passed
        (validate_project_creation (changed command.name p.name)
          (changed command.owning_team_id p.owning_team_id)
          (changed command.department_id p.department_id) (changed command.start_date p.start_date)
          (changed command.target_date p.target_date))
        _ h3 in
    let ((x, rows), e5, h5) =
      returned
        (update projects_table (org_of ctx) p.id command.expected_version (edited_project command)
          s.projects)
        _ h4 in
    let e : (recorded_project ctx Action.update (some (Snapshot.project p)) decision
          WorkEvent.project_updated s (x, rows)).1
        ≡ s' =
      same_state h5 in
    subst (TableStep r s) e (
      project_written r ctx Action.update decision WorkEvent.project_updated p
        command.expected_version (edited_project command) s x rows (λ y. refl)
        (load-Found projects_table ctx command.project_id s.projects p e1).there e5
        (record { same_org = refl; status_moved = inl refl }))

-- A round of `_narrow_contents` left the store as it was, or narrowed its Work.
pub narrow-cases :
    (ctx : WorkContext) (limit : Visibility) (decision : Decision) (actor : Actor) (w : Work)
    (s s' : Store)
    → narrow ctx limit decision actor w s ≡ ok s'
    → ((narrowing_to w.visibility limit ≡ none) × (s ≡ s'))
      ⊎ ((target : Visibility) × (narrowing_to w.visibility limit ≡ some target)
          × (row : Work) × (rows : List Work) × (update works_table
                (org_of ctx)
                w.id
                w.version
                (shown_at target)
                s.works
              ≡ ok (row, rows))
          × ((recorded_work ctx Action.change_visibility
                (some (Snapshot.work w))
                decision
                actor
                (WorkEvent.work_visibility_changed w.visibility target)
                s
                (row, rows)).1
              ≡ s'))
narrow-cases ctx limit decision actor w s s' h =
    elim (Option-cases (narrowing_to w.visibility limit)) [
      | inl stays ↦ inl (stays, same_value (rw (narrow, stays) at h))
      | inr (target, narrows) ↦
          let ((row, rows), e, k) =
            returned (update works_table (org_of ctx) w.id w.version (shown_at target) s.works) _
              (rw (narrow, narrows) at h) in
          inr (target, narrows, row, rows, e, same_value k)
    ]

module _ (reactivating : Bool) (ctx : WorkContext) (limit : Visibility) (decision : Decision)
    (actor : Actor) where
  narrow-TableSteps :
      (w : Work) (s s' : Store)
      → narrow ctx limit decision actor w s ≡ ok s'
      → find works_table.id w.id s.works ≡ some w
      → TableSteps reactivating s s'
  narrow-TableSteps w s s' h there = elim (narrow-cases ctx limit decision actor w s s' h) [
    | inl (stays, same) ↦ subst (TableSteps reactivating s) same stay
    | inr (target, narrows, row, rows, e, same) ↦ subst (TableSteps reactivating s) same (
        one_step (
          work_written reactivating ctx Action.change_visibility decision actor
            (WorkEvent.work_visibility_changed w.visibility target) w w.version (shown_at target) s
            row rows (λ y. refl) there e (shows refl refl refl refl)))
  ]

  pub narrow-others :
      (w : Work) (s s' : Store)
      → narrow ctx limit decision actor w s ≡ ok s'
      → (i : ℕ) → (i == w.id) ≡ false
      → find works_table.id i s'.works ≡ find works_table.id i s.works
  narrow-others w s s' h i other = elim (narrow-cases ctx limit decision actor w s s' h) [
    | inl (stays, same) ↦ ap (λ (u : Store). find works_table.id i u.works) (sym same)
    | inr (target, narrows, row, rows, e, same) ↦
        ap (λ (u : Store). find works_table.id i u.works) (sym same)
        ∙ update-others works_table (org_of ctx) w.id w.version (shown_at target) s.works row rows
            (λ y. refl) e i other
  ]

pub narrow_contents-TableSteps :
    (reactivating : Bool) (ctx : WorkContext) (p : Project) (decision : Decision) (s s' : Store)
    → Keyed s
    → narrow_contents ctx p decision s ≡ ok s'
    → TableSteps reactivating s s'
unfolding narrow_contents work_wider_than
narrow_contents-TableSteps r ctx p decision s s' keyed h =
    let key = works_table.id in
    let wider =
      λ (w : Work). is_work_of (org_of ctx) p.id w && ltb (rank w.visibility) (rank p.visibility) in
    let actor = cascade_actor ctx p.id in
    each-related key (λ (u : Store). u.works) (narrow ctx p.visibility decision actor)
      (TableSteps r) (λ u. stay) TableSteps-trans
      (narrow-TableSteps r ctx p.visibility decision actor)
      (narrow-others r ctx p.visibility decision actor)
      (work_wider_than (org_of ctx) p.id p.visibility s) s s' h
      (filter-found key wider s.works keyed.works) (filter-IsKeyed key wider s.works keyed.works)

pub change_project_visibility-TableSteps :
    (reactivating : Bool) (ctx : WorkContext) (command : ChangeProjectVisibility) (s : Store)
    (row : Project) (s' : Store)
    → Keyed s
    → change_project_visibility ctx command s ≡ ok (row, s')
    → TableSteps reactivating s s'
unfolding change_project_visibility
change_project_visibility-TableSteps r ctx command s row s' keyed h =
    let (p, e1, h1) = returned (load projects_table ctx command.project_id s.projects) _ h in
    let (decision, e2, h2) =
      returned
        (authorize_work ctx Action.change_visibility ResourceType.project
          (project_relations (reach_of ctx s) p) (some p.id))
        _ h1 in
    let g = λ (x : Project). record x { visibility = command.visibility } in
    let ((x, rows), e3, h3) =
      returned (update projects_table (org_of ctx) p.id command.expected_version g s.projects) _
        h2 in
    let event = WorkEvent.project_visibility_changed p.visibility command.visibility in
    let mid =
      (recorded_project ctx Action.change_visibility (some (Snapshot.project p)) decision event s
        (x, rows)).1 in
    let (t, e4, h4) = returned (narrow_contents ctx x decision mid) _ h3 in
    let step =
      project_written r ctx Action.change_visibility decision event p command.expected_version g s x
        rows (λ y. refl) (load-Found projects_table ctx command.project_id s.projects p e1).there e3
        (record { same_org = refl; status_moved = inl refl }) in
    subst (TableSteps r s) (same_state h4) (
      TableSteps-trans s mid t (one_step step)
        (narrow_contents-TableSteps r ctx x decision mid t (TableStep-Keyed r s mid step keyed) e4))
