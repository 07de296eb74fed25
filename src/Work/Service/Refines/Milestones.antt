-- ===== src/Work/Service/Refines/Milestones.antt =====
-- MilestoneService.
use aiworkos.Base.{ℕ, ◌≡◌, refl, subst, inl, inr, Bool, none, some, List, []}
use aiworkos.Base.Text.{strip, is_empty}
use aiworkos.Base.Table.{find}
use aiworkos.Base.Result.{ok, returned, passed, raise_if, same_state, same_value, br_p_01}
use aiworkos.Platform.Authz.Model.{Action, ResourceType, Decision}
use aiworkos.Platform.Repository.{update}
use aiworkos.Platform.Records.{Actor}
use aiworkos.Work.Vocabulary.{MilestoneStatus}
use aiworkos.Work.Project.{validate_milestone_transition}
use aiworkos.Work.Dependency.{EndpointType}
use aiworkos.Work.Rows.{Milestone, milestones_table, projects_table}
use aiworkos.Work.Store.{
  Snapshot, WorkEvent, Store, WorkContext, org_of, authorize_work, insert, load,
}
use aiworkos.Work.Relations.{reach_of, project_relations, milestone_relations, milestone_project}
use aiworkos.Work.Service.Commands.{CreateMilestone, UpdateMilestone, ChangeMilestoneStatus}
use aiworkos.Work.Service.Dependencies.{milestone_settlement, settle_dependencies}
use aiworkos.Work.Service.Milestones.{
  recorded_milestone, new_milestone, is_blanked, edited_milestone, moved_milestone,
  create_milestone, edit_milestone, apply_milestone_status, change_milestone_status,
}
use aiworkos.Work.Service.Steps.{
  FreshMilestone, MilestoneMove, TableStep, on_milestone, TableSteps, one_step, TableSteps-trans,
}
use aiworkos.Work.Service.Effects.{load-Found, insert-RowStep, update-RowStep}
use aiworkos.Work.Service.Keyed.{Keyed, TableStep-Keyed}
use aiworkos.Work.Service.Refines.Settlements.{IsSettlement, settle_dependencies-TableSteps}

pub milestone_settlement-IsSettlement :
    (status : MilestoneStatus) → IsSettlement (milestone_settlement status)
milestone_settlement-IsSettlement MilestoneStatus.planned = tt
milestone_settlement-IsSettlement MilestoneStatus.in_progress = tt
milestone_settlement-IsSettlement MilestoneStatus.achieved = refl
milestone_settlement-IsSettlement MilestoneStatus.missed = tt
milestone_settlement-IsSettlement MilestoneStatus.cancelled = refl

pub create_milestone-TableStep :
    (reactivating : Bool) (ctx : WorkContext) (new_id : ℕ) (command : CreateMilestone) (s : Store)
    (row : Milestone) (s' : Store)
    → create_milestone ctx new_id command s ≡ ok (row, s')
    → TableStep reactivating s s'
unfolding create_milestone
create_milestone-TableStep r ctx new_id command s row s' h =
    let (p, e1, h1) = returned (load projects_table ctx command.project_id s.projects) _ h in
    let (decision, e2, h2) =
      returned
        (authorize_work ctx Action.create ResourceType.milestone
          (project_relations (reach_of ctx s) p) none)
        _ h1 in
    let (e3, h3) = passed (raise_if (is_empty (strip command.name)) br_p_01) _ h2 in
    let new = new_milestone ctx new_id p.id command in
    let (rows, e4, h4) = returned (insert milestones_table new s.milestones) _ h3 in
    let e : (recorded_milestone ctx Action.create none decision ctx.actor
          WorkEvent.milestone_created s (new, rows)).1
        ≡ s' =
      same_state h4 in
    subst (TableStep r s) e (
      on_milestone new rows
        (insert-RowStep milestones_table FreshMilestone MilestoneMove new s.milestones rows e4 refl)
        (record {
          entry = _;
          of_type = refl;
          of_row = refl;
          shows = refl;
          audited = refl;
          event = _;
          further = [];
          about = refl;
          published = refl;
        })
        refl)

-- A guarded write of a milestone that was read, with its records.
pub milestone_written :
    (reactivating : Bool) (ctx : WorkContext) (action : Action) (decision : Decision)
    (actor : Actor) (event : WorkEvent) (m : Milestone) (expected : ℕ) (g : Milestone → Milestone)
    (s : Store) (row : Milestone) (rows : List Milestone)
    → ((x : Milestone) → milestones_table.id (g x) ≡ milestones_table.id x)
    → find milestones_table.id m.id s.milestones ≡ some m
    → update milestones_table (org_of ctx) m.id expected g s.milestones ≡ ok (row, rows)
    → MilestoneMove m (milestones_table.bump (g m))
    → TableStep reactivating s
        (recorded_milestone ctx action
          (some (Snapshot.milestone m))
          decision
          actor
          event
          s
          (row, rows)).1
milestone_written r ctx action decision actor event m expected g s row rows keeps there e moved =
    on_milestone row rows
      (update-RowStep milestones_table FreshMilestone MilestoneMove (org_of ctx) expected g m
        s.milestones row rows keeps there e moved)
      (record {
        entry = _;
        of_type = refl;
        of_row = refl;
        shows = refl;
        audited = refl;
        event = _;
        further = [];
        about = refl;
        published = refl;
      })
      refl

pub edit_milestone-TableStep :
    (reactivating : Bool) (ctx : WorkContext) (command : UpdateMilestone) (s : Store)
    (row : Milestone) (s' : Store)
    → edit_milestone ctx command s ≡ ok (row, s')
    → TableStep reactivating s s'
unfolding edit_milestone
edit_milestone-TableStep r ctx command s row s' h =
    let (m, e1, h1) = returned (load milestones_table ctx command.milestone_id s.milestones) _ h in
    let (decision, e2, h2) =
      returned
        (authorize_work ctx Action.update ResourceType.milestone
          (milestone_relations (reach_of ctx s) (milestone_project m s)) (some m.id))
        _ h1 in
    let (e3, h3) = passed (raise_if (is_blanked command.name) br_p_01) _ h2 in
    let ((x, rows), e4, h4) =
      returned
        (update milestones_table (org_of ctx) m.id command.expected_version
          (edited_milestone command) s.milestones)
        _ h3 in
    let e : (recorded_milestone ctx Action.update (some (Snapshot.milestone m)) decision ctx.actor
          WorkEvent.milestone_updated s (x, rows)).1
        ≡ s' =
      same_state h4 in
    subst (TableStep r s) e (
      milestone_written r ctx Action.update decision ctx.actor WorkEvent.milestone_updated m
        command.expected_version (edited_milestone command) s x rows (λ y. refl)
        (load-Found milestones_table ctx command.milestone_id s.milestones m e1).there e4
        (record { same_org = refl; same_project = refl; status_moved = inl refl }))

-- What a change of status that returned did, before the dependencies were settled.
pub record MilestoneApplied (ctx : WorkContext) (m : Milestone) (target : MilestoneStatus)
    (decision : Decision) (actor : Actor) (expected : ℕ) (s : Store) (row : Milestone) (s' : Store)
    : Type 0 where
  pub rows : List Milestone
  pub valid : validate_milestone_transition m.status target ≡ ok tt
  pub wrote :
      update milestones_table
        (org_of ctx)
        m.id
        expected
        (moved_milestone ctx.today target)
        s.milestones
      ≡ ok (row, rows)
  pub settled :
      settle_dependencies ctx
        (record { type = EndpointType.milestone; id = row.id })
        (milestone_settlement target)
        decision
        actor
        (recorded_milestone ctx Action.change_state
          (some (Snapshot.milestone m))
          decision
          actor
          (WorkEvent.milestone_status_changed m.status target)
          s
          (row, rows)).1
      ≡ ok s'

pub apply_milestone_status-MilestoneApplied :
    (ctx : WorkContext) (m : Milestone) (target : MilestoneStatus) (decision : Decision)
    (actor : Actor) (expected : ℕ) (s : Store) (row : Milestone) (s' : Store)
    → apply_milestone_status ctx m target decision actor expected s ≡ ok (row, s')
    → MilestoneApplied ctx m target decision actor expected s row s'
unfolding apply_milestone_status
apply_milestone_status-MilestoneApplied ctx m target decision actor expected s row s' h =
    let (e1, h1) = passed (validate_milestone_transition m.status target) _ h in
    let ((x, rows), e2, h2) =
      returned
        (update milestones_table (org_of ctx) m.id expected (moved_milestone ctx.today target)
          s.milestones)
        _ h1 in
    let (t, e3, h3) =
      returned
        (settle_dependencies ctx (record { type = EndpointType.milestone; id = x.id })
          (milestone_settlement target) decision actor
          (recorded_milestone ctx Action.change_state (some (Snapshot.milestone m)) decision actor
            (WorkEvent.milestone_status_changed m.status target) s (x, rows)).1)
        _ h2 in
    subst
      (λ (y : Milestone × Store). MilestoneApplied ctx m target decision actor expected s y.0 y.1)
      (same_value h3) (record { rows = rows; valid = e1; wrote = e2; settled = e3 })

pub MilestoneApplied-TableSteps :
    (reactivating : Bool) (ctx : WorkContext) (m : Milestone) (target : MilestoneStatus)
    (decision : Decision) (actor : Actor) (expected : ℕ) (s : Store) (row : Milestone) (s' : Store)
    → Keyed s
    → find milestones_table.id m.id s.milestones ≡ some m
    → MilestoneApplied ctx m target decision actor expected s row s'
    → TableSteps reactivating s s'
MilestoneApplied-TableSteps r ctx m target decision actor expected s row s' keyed there a =
    let event = WorkEvent.milestone_status_changed m.status target in
    let step =
      milestone_written r ctx Action.change_state decision actor event m expected
        (moved_milestone ctx.today target) s row a.rows (λ y. refl) there a.wrote
        (record { same_org = refl; same_project = refl; status_moved = inr a.valid }) in
    let mid =
      (recorded_milestone ctx Action.change_state (some (Snapshot.milestone m)) decision actor event
        s (row, a.rows)).1 in
    TableSteps-trans s mid s' (one_step step) (
      settle_dependencies-TableSteps r ctx (record { type = EndpointType.milestone; id = row.id })
        (milestone_settlement target) decision actor mid s'
        (milestone_settlement-IsSettlement target) (TableStep-Keyed r s mid step keyed) a.settled)

pub change_milestone_status-TableSteps :
    (reactivating : Bool) (ctx : WorkContext) (command : ChangeMilestoneStatus) (s : Store)
    (row : Milestone) (s' : Store)
    → Keyed s
    → change_milestone_status ctx command s ≡ ok (row, s')
    → TableSteps reactivating s s'
unfolding change_milestone_status
change_milestone_status-TableSteps r ctx command s row s' keyed h =
    let (m, e1, h1) = returned (load milestones_table ctx command.milestone_id s.milestones) _ h in
    let (decision, e2, h2) =
      returned
        (authorize_work ctx Action.change_state ResourceType.milestone
          (milestone_relations (reach_of ctx s) (milestone_project m s)) (some m.id))
        _ h1 in
    MilestoneApplied-TableSteps r ctx m command.target decision ctx.actor command.expected_version s
      row s' keyed (load-Found milestones_table ctx command.milestone_id s.milestones m e1).there
      (apply_milestone_status-MilestoneApplied ctx m command.target decision ctx.actor
        command.expected_version s row s' h2)
