-- ===== src/Work/Service/Outcomes/Cancelled.antt =====
-- What the cancellation of a Project leaves of its contents.
use aiworkos.Base.{
  ℕ, ◌≡◌, refl, ap, sym, subst, ◌∙◌, Bool, true, false, none, some, List, [], ◌∷◌, ◌==◌, ◌&&◌,
  nat_eq, option_eq, arith, contains,
}
use aiworkos.Base.Table.{find}
use aiworkos.Base.Loop.{each-keeps, each-clears_all}
use aiworkos.Base.Result.{ok, each, returned}
use aiworkos.Platform.Authz.Model.{Action, Decision}
use aiworkos.Platform.Records.{Actor}
use aiworkos.Work.Vocabulary.{
  WorkStatus, ProjectStatus, MilestoneStatus, project_status_eq, work_status_eq,
  milestone_status_eq,
}
use aiworkos.Work.Lifecycle.{open_work_statuses}
use aiworkos.Work.Rows.{Project, Milestone, Work, milestones_table, works_table, projects_table}
use aiworkos.Work.Store.{Snapshot, WorkEvent, Store, WorkContext, org_of, cascade_actor}
use aiworkos.Work.Queries.{
  is_open_milestone, is_work_of, open_milestones_of_project, open_work_of_project,
}
use aiworkos.Work.Service.Commands.{ChangeProjectStatus}
use aiworkos.Work.Service.Milestones.{moved_milestone}
use aiworkos.Work.Service.Items.{moved_work}
use aiworkos.Work.Service.Projects.{
  cancel_milestone, cancelled_status, cancel_work, cancel_contents, moved_project, recorded_project,
  change_project_status,
}
use aiworkos.Work.Service.Effects.{update-stored, update-image}
use aiworkos.Work.Service.Keyed.{Keyed, TableStep-Keyed, TableSteps-Keyed}
use aiworkos.Work.Service.Refines.Cascades.{
  cancel_milestone-MilestoneApplied, cancel_work-WorkApplied, MilestoneApplied-tables,
  WorkApplied-tables, cancel_milestone-others, cancel_work-others, cancelled_milestones-TableSteps,
}
use aiworkos.Work.Service.Refines.Closing.{
  change_project_status-ProjectApplied, change_project_status-TableStep,
}

abbrev pub open_statuses : List WorkStatus
open_statuses =
    WorkStatus.proposed ∷ WorkStatus.todo ∷ WorkStatus.in_progress ∷ WorkStatus.blocked ∷ []

-- A Work of this Project that is neither done, cancelled nor rejected.
abbrev pub is_open_work : ℕ → ℕ → Work → Bool
is_open_work org_id project_id w = is_work_of org_id project_id w && contains w.status open_statuses

module _ (ctx : WorkContext) (project_id : ℕ) (decision : Decision) (actor : Actor) where
  cancelled-closed :
      (m : Milestone) (s t : Store)
      → cancel_milestone ctx decision actor m s ≡ ok t
      → find milestones_table.id m.id s.milestones ≡ some m
      → (row : Milestone) → find milestones_table.id m.id t.milestones ≡ some row
      → is_open_milestone (org_of ctx) project_id row ≡ false
  cancelled-closed m s t h found row there =
      let (x, a) = cancel_milestone-MilestoneApplied ctx decision actor m s t h in
      let tables =
        MilestoneApplied-tables ctx m MilestoneStatus.cancelled decision actor m.version s x t a in
      let g = moved_milestone ctx.today MilestoneStatus.cancelled in
      let (stored, at) =
        update-stored milestones_table (org_of ctx) m.id m.version g s.milestones x a.rows
          (λ y. refl) a.wrote in
      let (old, image) =
        update-image milestones_table (org_of ctx) m.id m.version g s.milestones x a.rows a.wrote in
      let same : x ≡ row = cc (stored, ap (find milestones_table.id m.id) tables.0, there) in
      let status : row.status ≡ MilestoneStatus.cancelled =
        ap (λ (y : Milestone). y.status) (sym same ∙ image) in
      ground (arith, status)

  closing_status : (status : WorkStatus) → contains (cancelled_status status) open_statuses ≡ false
  closing_status status = ground arith

  cancelled_work-closed :
      (w : Work) (s t : Store)
      → cancel_work ctx decision actor w s ≡ ok t
      → find works_table.id w.id s.works ≡ some w
      → (row : Work) → find works_table.id w.id t.works ≡ some row
      → is_open_work (org_of ctx) project_id row ≡ false
  cancelled_work-closed w s t h found row there =
      let (x, a) = cancel_work-WorkApplied ctx decision actor w s t h in
      let target = cancelled_status w.status in
      let tables = WorkApplied-tables ctx w target decision actor w.version s x t a in
      let g = moved_work ctx.now target none w in
      let (stored, at) =
        update-stored works_table (org_of ctx) w.id w.version g s.works x a.rows (λ y. refl)
          a.wrote in
      let (old, image) =
        update-image works_table (org_of ctx) w.id w.version g s.works x a.rows a.wrote in
      let same : x ≡ row = cc (stored, ap (find works_table.id w.id) tables.0, there) in
      let status : row.status ≡ target = ap (λ (y : Work). y.status) (sym same ∙ image) in
      ground (arith, closing_status w.status, status)

  cancel_work-milestones :
      (u : Store) (w : Work) (s t : Store)
      → cancel_work ctx decision actor w s ≡ ok t
      → s.milestones ≡ u.milestones
      → t.milestones ≡ u.milestones
  cancel_work-milestones u w s t h same =
      let (x, a) = cancel_work-WorkApplied ctx decision actor w s t h in
      (WorkApplied-tables ctx w (cancelled_status w.status) decision actor w.version s x t a).1
      ∙ same

-- What a Project's cancellation leaves: none of its milestones and none of its Work is open.
pub record Emptied (org_id project_id : ℕ) (s : Store) : Type 0 where
  pub no_open_milestone :
      (id : ℕ) (m : Milestone)
      → find milestones_table.id id s.milestones ≡ some m
      → is_open_milestone org_id project_id m ≡ false
  pub no_open_work :
      (id : ℕ) (w : Work)
      → find works_table.id id s.works ≡ some w
      → is_open_work org_id project_id w ≡ false

cancel_contents-Emptied :
    (ctx : WorkContext) (p : Project) (decision : Decision) (s s' : Store)
    → Keyed s
    → cancel_contents ctx p decision s ≡ ok s'
    → Emptied (org_of ctx) p.id s'
unfolding cancel_contents open_milestones_of_project open_work_of_project open_work_statuses
cancel_contents-Emptied ctx p decision s s' keyed h =
    let actor = cascade_actor ctx p.id in
    let (t, e1, h1) =
      returned
        (each (open_milestones_of_project (org_of ctx) p.id s) (cancel_milestone ctx decision actor)
          s)
        _ h in
    let keyed_t =
      TableSteps-Keyed true s t
        (cancelled_milestones-TableSteps true ctx p.id decision actor s t keyed e1) keyed in
    let open_m = is_open_milestone (org_of ctx) p.id in
    let open_w = is_open_work (org_of ctx) p.id in
    let same : s'.milestones ≡ t.milestones =
      each-keeps (cancel_work ctx decision actor) (λ u. u.milestones ≡ t.milestones)
        (cancel_work-milestones ctx p.id decision actor t)
        (open_work_of_project (org_of ctx) p.id t) t s' h1 refl in
    record {
      no_open_milestone = λ id m there.
          each-clears_all milestones_table.id (λ (u : Store). u.milestones)
            (cancel_milestone ctx decision actor) open_m open_m (λ x e. e)
            (cancelled-closed ctx p.id decision actor)
            (cancel_milestone-others true ctx decision actor) s t keyed.milestones e1 id m
            (subst (λ rows. find milestones_table.id id rows ≡ some m) same there);
      no_open_work = λ id w there.
          each-clears_all works_table.id (λ (u : Store). u.works) (cancel_work ctx decision actor)
            open_w open_w (λ x e. e) (cancelled_work-closed ctx p.id decision actor)
            (cancel_work-others true ctx decision actor) t s' keyed_t.works h1 id w there;
    }

-- When a Project's cancellation returns, from a state with unique ids, the Project is cancelled, and
-- none of its milestones and none of its Work is open any more.
pub change_project_status-Emptied :
    (ctx : WorkContext) (command : ChangeProjectStatus) (s : Store) (row : Project) (s' : Store)
    → Keyed s
    → command.target ≡ ProjectStatus.cancelled
    → change_project_status ctx command s ≡ ok (row, s')
    → (row.status ≡ ProjectStatus.cancelled) × Emptied (org_of ctx) row.id s'
change_project_status-Emptied ctx command s row s' keyed cancels h =
    let a = change_project_status-ProjectApplied ctx command s row s' h in
    let mid =
      (recorded_project ctx Action.change_state (some (Snapshot.project a.p)) a.decision
        (WorkEvent.project_status_changed a.p.status command.target) s (row, a.rows)).1 in
    let (old, image) =
      update-image projects_table (org_of ctx) a.p.id command.expected_version
        (moved_project ctx.today command.target) s.projects row a.rows a.wrote in
    let test : (command.target == ProjectStatus.cancelled) ≡ true =
      (project_status_eq.beq_iff command.target ProjectStatus.cancelled).1 cancels in
    (
      ap (λ (p : Project). p.status) image ∙ cancels,
      cancel_contents-Emptied ctx row a.decision mid s'
          (TableStep-Keyed true s mid (change_project_status-TableStep true ctx command s row s' a)
            keyed)
          (rw test at a.emptied),
    )
