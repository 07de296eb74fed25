-- ===== src/Work/Service/Outcomes/Returns.antt =====
-- The calls that the cancellation of a Project makes of the other services.
use aiworkos.Base.{
  ℕ, ◌≡◌, refl, ap, ◌∙◌, inl, inr, true, false, none, some, [], ◌∷◌, ◌==◌, nat_eq, option_eq, arith,
  contains, Bool-cases, Option,
}
use aiworkos.Base.Table.{find}
use aiworkos.Base.Loop.{each-returns, filter-found, filter-IsKeyed, filter-passes}
use aiworkos.Base.Result.{ok, goes_on, passes_on, raise_if, br_d_06}
use aiworkos.Platform.Authz.Model.{Action, Decision}
use aiworkos.Platform.Records.{Actor}
use aiworkos.Work.Vocabulary.{
  WorkStatus, MilestoneStatus, DependencyKind, DependencyStatus, work_status_eq, project_status_eq,
  milestone_status_eq, dependency_kind_eq, dependency_status_eq,
}
use aiworkos.Work.Lifecycle.{WorkTransitionContext, open_work_statuses, validate_work_transition}
use aiworkos.Work.Project.{validate_milestone_transition}
use aiworkos.Work.Dependency.{Endpoint, EndpointType, endpoint_eq}
use aiworkos.Work.Rows.{
  Project, Milestone, Work, Dependency, milestones_table, works_table, dependencies_table,
}
use aiworkos.Work.Store.{WorkEvent, Store, WorkContext, org_of, cascade_actor}
use aiworkos.Work.Queries.{
  is_active_from, active_dependencies_from, is_open_milestone, open_milestones_of_project,
  open_work_of_project,
}
use aiworkos.Work.Service.Dependencies.{
  apply_dependency_status, settle, settle_dependencies, milestone_settlement, work_settlement,
}
use aiworkos.Work.Service.Milestones.{moved_milestone, apply_milestone_status}
use aiworkos.Work.Service.Items.{moved_work, transition_context, apply_work_status}
use aiworkos.Work.Service.Projects.{
  cancel_milestone, cancelled_status, cancel_work, cancel_contents,
}
use aiworkos.Work.Service.Effects.{update-returns}
use aiworkos.Work.Service.Keyed.{Keyed, TableStep-Keyed, TableSteps-Keyed}
use aiworkos.Work.Service.Refines.Settlements.{IsSettling, settle-others, IsSettlement}
use aiworkos.Work.Service.Refines.Milestones.{milestone_settlement-IsSettlement, milestone_written}
use aiworkos.Work.Service.Outcomes.Cancelled.{open_statuses, is_open_work}
use aiworkos.Work.Service.Refines.Moves.{work_settlement-IsSettlement, completed-TableStep}
use aiworkos.Work.Service.Refines.Cascades.{
  cancel_milestone-others, cancel_work-others, cancel_milestone-KeyedSteps, cancel_work-KeyedSteps,
}

-- A current row of this organization with another status changes its status.
apply_dependency_status-returns :
    (ctx : WorkContext) (d : Dependency) (target : DependencyStatus) (decision : Decision)
    (actor : Actor) (s : Store)
    → find dependencies_table.id d.id s.dependencies ≡ some d
    → d.org_id ≡ org_of ctx
    → (d.status == target) ≡ false
    → (row : Dependency) × (t : Store) × (apply_dependency_status ctx d target decision actor
          d.version s
        ≡ ok (row, t))
unfolding apply_dependency_status
apply_dependency_status-returns ctx d target decision actor s there at_org differs = (
  _,
  _,
  passes_on _ (ap (λ b. raise_if b br_d_06) differs)
      ∙ goes_on _ (
          update-returns dependencies_table (org_of ctx) (λ x. record x { status = target }) d
            s.dependencies there at_org),
)

module _ (ctx : WorkContext) (blocker : Endpoint) (target : DependencyStatus)
    (settling : IsSettling target) (decision : Decision) (actor : Actor) where
  settle-returns :
      (d : Dependency) (s : Store)
      → Unit {0}
      → is_active_from (org_of ctx) blocker d ≡ true
      → find dependencies_table.id d.id s.dependencies ≡ some d
      → (t : Store) × (settle ctx target decision actor d s ≡ ok t) × Unit {0}
  settle-returns d s u active there = elim (Bool-cases (d.kind == DependencyKind.blocks)) [
    | inr informs ↦ (s, rw informs refl, tt)
    | inl blocks ↦
        let at_org : d.org_id ≡ org_of ctx =
          (nat_eq.beq_iff d.org_id (org_of ctx)).0 (ground (arith, active)) in
        let status : d.status ≡ DependencyStatus.active =
          (dependency_status_eq.beq_iff d.status DependencyStatus.active).0
            (ground (arith, active)) in
        let differs : (d.status == target) ≡ false = rw status (ground (arith, settling)) in
        let (row, t, e) =
          apply_dependency_status-returns ctx d target decision actor s there at_org differs in
        (t, rw blocks (goes_on _ e), tt)
  ]

  settle_all-returns :
      (s : Store)
      → Keyed s
      → (t : Store) × (settle_dependencies ctx blocker (some target) decision actor s ≡ ok t)
  unfolding settle_dependencies active_dependencies_from
  settle_all-returns s keyed =
      let from = λ (d : Dependency). is_active_from (org_of ctx) blocker d in
      let key = dependencies_table.id in
      let (t, e, u) =
        each-returns key (λ (u : Store). u.dependencies) (settle ctx target decision actor)
          (λ u. Unit {0}) (λ d. is_active_from (org_of ctx) blocker d ≡ true) settle-returns
          (settle-others true ctx target settling decision actor)
          (active_dependencies_from (org_of ctx) blocker s) s tt
          (filter-passes key from s.dependencies)
          (filter-found key from s.dependencies keyed.dependencies)
          (filter-IsKeyed key from s.dependencies keyed.dependencies) in
      (t, e)

settle_dependencies-returns :
    (ctx : WorkContext) (blocker : Endpoint) (settlement : Option DependencyStatus)
    (decision : Decision) (actor : Actor) (s : Store)
    → IsSettlement settlement
    → Keyed s
    → (t : Store) × (settle_dependencies ctx blocker settlement decision actor s ≡ ok t)
unfolding settle_dependencies
settle_dependencies-returns ctx blocker none decision actor s settles keyed = (s, refl)
settle_dependencies-returns ctx blocker (some target) decision actor s settles keyed =
    settle_all-returns ctx blocker target settles decision actor s keyed

open_milestone_cancels :
    (status : MilestoneStatus)
    → contains status (MilestoneStatus.planned ∷ MilestoneStatus.in_progress ∷ []) ≡ true
    → validate_milestone_transition status MilestoneStatus.cancelled ≡ ok tt
unfolding validate_milestone_transition
open_milestone_cancels MilestoneStatus.planned h = refl
open_milestone_cancels MilestoneStatus.in_progress h = refl
open_milestone_cancels MilestoneStatus.achieved h = absurd (cc h)
open_milestone_cancels MilestoneStatus.missed h = absurd (cc h)
open_milestone_cancels MilestoneStatus.cancelled h = absurd (cc h)

open_work_closes :
    (status : WorkStatus) (context : WorkTransitionContext)
    → contains status open_statuses ≡ true
    → validate_work_transition status (cancelled_status status) context ≡ ok tt
unfolding validate_work_transition
open_work_closes WorkStatus.proposed context h = refl
open_work_closes WorkStatus.todo context h = refl
open_work_closes WorkStatus.in_progress context h = refl
open_work_closes WorkStatus.blocked context h = refl
open_work_closes WorkStatus.done context h = absurd (cc h)
open_work_closes WorkStatus.cancelled context h = absurd (cc h)
open_work_closes WorkStatus.rejected context h = absurd (cc h)

module _ (ctx : WorkContext) (project_id : ℕ) (decision : Decision) (actor : Actor) where
  cancel_milestone-returns :
      (m : Milestone) (s : Store)
      → Keyed s
      → is_open_milestone (org_of ctx) project_id m ≡ true
      → find milestones_table.id m.id s.milestones ≡ some m
      → (t : Store) × (cancel_milestone ctx decision actor m s ≡ ok t) × Keyed t
  unfolding apply_milestone_status
  cancel_milestone-returns m s keyed is_open there =
      let at_org : m.org_id ≡ org_of ctx =
        (nat_eq.beq_iff m.org_id (org_of ctx)).0 (ground (arith, is_open)) in
      let valid = open_milestone_cancels m.status (ground (arith, is_open)) in
      let g = moved_milestone ctx.today MilestoneStatus.cancelled in
      let wrote = update-returns milestones_table (org_of ctx) g m s.milestones there at_org in
      let event = WorkEvent.milestone_status_changed m.status MilestoneStatus.cancelled in
      let step =
        milestone_written true ctx Action.change_state decision actor event m m.version g s _ _
          (λ y. refl) there wrote
          (record { same_org = refl; same_project = refl; status_moved = inr valid }) in
      let (t, settled) =
        settle_dependencies-returns ctx (record { type = EndpointType.milestone; id = m.id })
          (milestone_settlement MilestoneStatus.cancelled) decision actor _
          (milestone_settlement-IsSettlement MilestoneStatus.cancelled)
          (TableStep-Keyed true s _ step keyed) in
      let returns : cancel_milestone ctx decision actor m s ≡ ok t =
        goes_on _ (passes_on _ valid ∙ (goes_on _ wrote ∙ goes_on _ settled)) in
      (
        t,
        returns,
        TableSteps-Keyed true s t
            (cancel_milestone-KeyedSteps true ctx decision actor m s t returns there keyed) keyed,
      )

  cancel_work-returns :
      (w : Work) (s : Store)
      → Keyed s
      → is_open_work (org_of ctx) project_id w ≡ true
      → find works_table.id w.id s.works ≡ some w
      → (t : Store) × (cancel_work ctx decision actor w s ≡ ok t) × Keyed t
  unfolding apply_work_status
  cancel_work-returns w s keyed is_open there =
      let at_org : w.org_id ≡ org_of ctx =
        (nat_eq.beq_iff w.org_id (org_of ctx)).0 (ground (arith, is_open)) in
      let target = cancelled_status w.status in
      let valid =
        open_work_closes w.status (transition_context ctx w none s) (ground (arith, is_open)) in
      let g = moved_work ctx.now target none w in
      let wrote = update-returns works_table (org_of ctx) g w s.works there at_org in
      let step =
        completed-TableStep true ctx w target decision none actor w.version s _ _ there valid
          wrote in
      let (t, settled) =
        settle_dependencies-returns ctx (record { type = EndpointType.work; id = w.id })
          (work_settlement target) decision actor _ (work_settlement-IsSettlement target)
          (TableStep-Keyed true s _ step keyed) in
      let returns : cancel_work ctx decision actor w s ≡ ok t =
        goes_on _ (passes_on _ valid ∙ (goes_on _ wrote ∙ goes_on _ settled)) in
      (
        t,
        returns,
        TableSteps-Keyed true s t
            (cancel_work-KeyedSteps true ctx decision actor w s t returns there keyed) keyed,
      )

pub cancel_contents-returns :
    (ctx : WorkContext) (p : Project) (decision : Decision) (s : Store)
    → Keyed s
    → (t : Store) × (cancel_contents ctx p decision s ≡ ok t)
unfolding cancel_contents open_milestones_of_project open_work_of_project open_work_statuses
cancel_contents-returns ctx p decision s keyed =
    let actor = cascade_actor ctx p.id in
    let open_m = is_open_milestone (org_of ctx) p.id in
    let open_w = is_open_work (org_of ctx) p.id in
    let (t, e, keyed_t) =
      each-returns milestones_table.id (λ (u : Store). u.milestones)
        (cancel_milestone ctx decision actor) Keyed (λ m. open_m m ≡ true)
        (cancel_milestone-returns ctx p.id decision actor)
        (cancel_milestone-others true ctx decision actor)
        (open_milestones_of_project (org_of ctx) p.id s) s keyed
        (filter-passes milestones_table.id open_m s.milestones)
        (filter-found milestones_table.id open_m s.milestones keyed.milestones)
        (filter-IsKeyed milestones_table.id open_m s.milestones keyed.milestones) in
    let (u, e', keyed_u) =
      each-returns works_table.id (λ (v : Store). v.works) (cancel_work ctx decision actor) Keyed
        (λ w. open_w w ≡ true) (cancel_work-returns ctx p.id decision actor)
        (cancel_work-others true ctx decision actor) (open_work_of_project (org_of ctx) p.id t) t
        keyed_t (filter-passes works_table.id open_w t.works)
        (filter-found works_table.id open_w t.works keyed_t.works)
        (filter-IsKeyed works_table.id open_w t.works keyed_t.works) in
    (u, goes_on _ e ∙ e')
