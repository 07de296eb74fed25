-- ===== src/Work/Service/Refines/Closing.antt =====
-- ProjectService.change_project_status.
use aiworkos.Base.{
  ◌≡◌, refl, subst, inl, inr, Bool, some, List, ◌==◌, nat_eq, Bool-cases, if◌then◌else◌,
}
use aiworkos.Base.Table.{find}
use aiworkos.Base.Result.{ok, returned, passed, same_value}
use aiworkos.Platform.Authz.Model.{Action, ResourceType, Decision}
use aiworkos.Platform.Repository.{update}
use aiworkos.Work.Vocabulary.{ProjectStatus, project_status_eq, work_status_eq}
use aiworkos.Work.Project.{validate_project_transition}
use aiworkos.Work.Rows.{Project, projects_table}
use aiworkos.Work.Store.{Snapshot, WorkEvent, Store, WorkContext, org_of, authorize_work, load}
use aiworkos.Work.Relations.{reach_of, project_relations}
use aiworkos.Work.Service.Commands.{ChangeProjectStatus}
use aiworkos.Work.Service.Projects.{
  recorded_project, cancel_contents, closure_of, moved_project, change_project_status,
}
use aiworkos.Work.Service.Steps.{TableStep, TableSteps, one_step, TableSteps-trans}
use aiworkos.Work.Service.Effects.{load-Found}
use aiworkos.Work.Service.Keyed.{Keyed, TableStep-Keyed}
use aiworkos.Work.Service.Refines.Projects.{project_written}
use aiworkos.Work.Service.Refines.Cascades.{cancel_contents-TableSteps}

-- What a change of a Project's status that returned did.
pub record ProjectApplied (ctx : WorkContext) (command : ChangeProjectStatus) (s : Store)
    (row : Project) (s' : Store) : Type 0 where
  pub p : Project
  pub rows : List Project
  pub decision : Decision
  pub there : find projects_table.id p.id s.projects ≡ some p
  pub in_org : p.org_id ≡ org_of ctx
  pub valid : validate_project_transition p.status command.target (closure_of ctx p s) ≡ ok tt
  pub wrote :
      update projects_table
        (org_of ctx)
        p.id
        command.expected_version
        (moved_project ctx.today command.target)
        s.projects
      ≡ ok (row, rows)
  pub emptied :
      (let mid =
          (recorded_project ctx Action.change_state
            (some (Snapshot.project p))
            decision
            (WorkEvent.project_status_changed p.status command.target)
            s
            (row, rows)).1 in
        if command.target == ProjectStatus.cancelled
        then cancel_contents ctx row decision mid
        else ok mid)
      ≡ ok s'

pub change_project_status-ProjectApplied :
    (ctx : WorkContext) (command : ChangeProjectStatus) (s : Store) (row : Project) (s' : Store)
    → change_project_status ctx command s ≡ ok (row, s')
    → ProjectApplied ctx command s row s'
unfolding change_project_status
change_project_status-ProjectApplied ctx command s row s' h =
    let (p, e1, h1) = returned (load projects_table ctx command.project_id s.projects) _ h in
    let (decision, e2, h2) =
      returned
        (authorize_work ctx Action.change_state ResourceType.project
          (project_relations (reach_of ctx s) p) (some p.id))
        _ h1 in
    let (e3, h3) =
      passed (validate_project_transition p.status command.target (closure_of ctx p s)) _ h2 in
    let ((x, rows), e4, h4) =
      returned
        (update projects_table (org_of ctx) p.id command.expected_version
          (moved_project ctx.today command.target) s.projects)
        _ h3 in
    let mid =
      (recorded_project ctx Action.change_state (some (Snapshot.project p)) decision
        (WorkEvent.project_status_changed p.status command.target) s (x, rows)).1 in
    let (t, e5, h5) =
      returned
        (if command.target == ProjectStatus.cancelled
          then cancel_contents ctx x decision mid
          else ok mid)
        _ h4 in
    let f = load-Found projects_table ctx command.project_id s.projects p e1 in
    subst (λ (y : Project × Store). ProjectApplied ctx command s y.0 y.1) (same_value h5)
      (record {
        p = p;
        rows = rows;
        decision = decision;
        there = f.there;
        in_org = f.in_org;
        valid = e3;
        wrote = e4;
        emptied = e5;
      })

-- The change of status itself, before the cascade.
pub change_project_status-TableStep :
    (reactivating : Bool) (ctx : WorkContext) (command : ChangeProjectStatus) (s : Store)
    (row : Project) (s' : Store) (a : ProjectApplied ctx command s row s')
    → TableStep reactivating s
        (recorded_project ctx Action.change_state
          (some (Snapshot.project a.p))
          a.decision
          (WorkEvent.project_status_changed a.p.status command.target)
          s
          (row, a.rows)).1
change_project_status-TableStep r ctx command s row s' a =
    project_written r ctx Action.change_state a.decision
      (WorkEvent.project_status_changed a.p.status command.target) a.p command.expected_version
      (moved_project ctx.today command.target) s row a.rows (λ y. refl) a.there a.wrote
      (record { same_org = refl; status_moved = inr (closure_of ctx a.p s, a.valid) })

pub change_project_status-TableSteps :
    (reactivating : Bool) (ctx : WorkContext) (command : ChangeProjectStatus) (s : Store)
    (row : Project) (s' : Store)
    → Keyed s
    → change_project_status ctx command s ≡ ok (row, s')
    → TableSteps reactivating s s'
change_project_status-TableSteps r ctx command s row s' keyed h =
    let a = change_project_status-ProjectApplied ctx command s row s' h in
    let event = WorkEvent.project_status_changed a.p.status command.target in
    let mid =
      (recorded_project ctx Action.change_state (some (Snapshot.project a.p)) a.decision event s
        (row, a.rows)).1 in
    let step = change_project_status-TableStep r ctx command s row s' a in
    elim (Bool-cases (command.target == ProjectStatus.cancelled)) [
      | inl cancelled ↦ TableSteps-trans s mid s' (one_step step) (
          cancel_contents-TableSteps r ctx row a.decision mid s'
            (TableStep-Keyed r s mid step keyed) (rw cancelled at a.emptied))
      | inr other ↦ subst (TableSteps r s) (same_value (rw other at a.emptied)) (one_step step)
    ]
