-- ===== src/Work/Service/Refines/Cascades.antt =====
-- `_cancel_contents`, and the change of a Project's status.
use aiworkos.Base.{
  ℕ, ◌≡◌, refl, ap, ◌∙◌, inl, inr, Bool, false, none, some, ◌==◌, ◌&&◌, nat_eq, contains,
  Bool-cases,
}
use aiworkos.Base.Table.{find}
use aiworkos.Base.Loop.{each-related, filter-found, filter-IsKeyed}
use aiworkos.Base.Result.{ok, each, returned, same_value}
use aiworkos.Platform.Authz.Model.{Action, Decision}
use aiworkos.Platform.Records.{Actor}
use aiworkos.Work.Vocabulary.{WorkStatus, MilestoneStatus, project_status_eq, work_status_eq}
use aiworkos.Work.Lifecycle.{open_work_statuses}
use aiworkos.Work.Dependency.{EndpointType}
use aiworkos.Work.Rows.{Project, Milestone, Work, milestones_table, works_table}
use aiworkos.Work.Store.{Snapshot, WorkEvent, Store, WorkContext, org_of, cascade_actor}
use aiworkos.Work.Queries.{
  is_open_milestone, is_work_of, open_milestones_of_project, open_work_of_project,
}
use aiworkos.Work.Service.Dependencies.{milestone_settlement, work_settlement}
use aiworkos.Work.Service.Milestones.{apply_milestone_status, moved_milestone, recorded_milestone}
use aiworkos.Work.Service.Items.{apply_work_status, recorded_work, moved_work, completed}
use aiworkos.Work.Service.Projects.{
  cancel_milestone, cancelled_status, cancel_work, cancel_contents,
}
use aiworkos.Work.Service.Steps.{TableSteps, stay, TableSteps-trans}
use aiworkos.Work.Service.Effects.{update-others}
use aiworkos.Work.Service.Keyed.{Keyed, TableSteps-Keyed}
use aiworkos.Work.Service.Refines.Settlements.{settle_dependencies-OnlyDependencies}
use aiworkos.Work.Service.Refines.Milestones.{
  MilestoneApplied, apply_milestone_status-MilestoneApplied, MilestoneApplied-TableSteps,
}
use aiworkos.Work.Service.Refines.Moves.{
  WorkApplied, apply_work_status-WorkApplied, WorkApplied-TableSteps,
}

-- A round that cancelled a milestone.
pub cancel_milestone-MilestoneApplied :
    (ctx : WorkContext) (decision : Decision) (actor : Actor) (m : Milestone) (s s' : Store)
    → cancel_milestone ctx decision actor m s ≡ ok s'
    → (row : Milestone) × MilestoneApplied ctx m MilestoneStatus.cancelled decision actor m.version
        s row s'
cancel_milestone-MilestoneApplied ctx decision actor m s s' h =
    let ((row, t), e, k) =
      returned (apply_milestone_status ctx m MilestoneStatus.cancelled decision actor m.version s) _
        h in
    let same : t ≡ s' = same_value k in
    (
      row,
      apply_milestone_status-MilestoneApplied ctx m MilestoneStatus.cancelled decision actor
          m.version s row s' (e ∙ ap (λ u. ok (row, u)) same),
    )

pub cancel_work-WorkApplied :
    (ctx : WorkContext) (decision : Decision) (actor : Actor) (w : Work) (s s' : Store)
    → cancel_work ctx decision actor w s ≡ ok s'
    → (row : Work) × WorkApplied ctx w
        (cancelled_status w.status)
        decision
        none
        actor
        w.version
        s
        row
        s'
cancel_work-WorkApplied ctx decision actor w s s' h =
    let target = cancelled_status w.status in
    let ((row, t), e, k) =
      returned (apply_work_status ctx w target decision none actor w.version s) _ h in
    let same : t ≡ s' = same_value k in
    (
      row,
      apply_work_status-WorkApplied ctx w target decision none actor w.version s row s'
          (e ∙ ap (λ u. ok (row, u)) same),
    )

-- The tables that a change of a milestone's status leaves alone.
pub MilestoneApplied-tables :
    (ctx : WorkContext) (m : Milestone) (target : MilestoneStatus) (decision : Decision)
    (actor : Actor) (expected : ℕ) (s : Store) (row : Milestone) (s' : Store)
    → (a : MilestoneApplied ctx m target decision actor expected s row s')
    → (s'.milestones ≡ a.rows) × (s'.works ≡ s.works) × (s'.projects ≡ s.projects)
MilestoneApplied-tables ctx m target decision actor expected s row s' a =
    let o =
      settle_dependencies-OnlyDependencies ctx
        (record { type = EndpointType.milestone; id = row.id }) (milestone_settlement target)
        decision actor
        (recorded_milestone ctx Action.change_state (some (Snapshot.milestone m)) decision actor
          (WorkEvent.milestone_status_changed m.status target) s (row, a.rows)).1
        s' a.settled in
    (o.same_milestones, o.same_works, o.same_projects)

completed_tables :
    (ctx : WorkContext) (target : WorkStatus) (actor : Actor) (row : Work) (s : Store)
    → ((completed ctx target actor (row, s)).works ≡ s.works)
      × ((completed ctx target actor (row, s)).milestones ≡ s.milestones)
      × ((completed ctx target actor (row, s)).projects ≡ s.projects)
completed_tables ctx target actor row s = elim (Bool-cases (target == WorkStatus.done)) [
  | inl done ↦ rw done (refl, refl, refl)
  | inr other ↦ rw other (refl, refl, refl)
]

-- The tables that a change of a Work's status leaves alone.
pub WorkApplied-tables :
    (ctx : WorkContext) (w : Work) (target : WorkStatus) (decision : Decision) (actor : Actor)
    (expected : ℕ) (s : Store) (row : Work) (s' : Store)
    → (a : WorkApplied ctx w target decision none actor expected s row s')
    → (s'.works ≡ a.rows) × (s'.milestones ≡ s.milestones) × (s'.projects ≡ s.projects)
WorkApplied-tables ctx w target decision actor expected s row s' a =
    let recorded =
      recorded_work ctx Action.change_state (some (Snapshot.work w)) decision actor
        (WorkEvent.work_status_changed w.status target) s (row, a.rows) in
    let o =
      settle_dependencies-OnlyDependencies ctx (record { type = EndpointType.work; id = row.id })
        (work_settlement target) decision actor (completed ctx target actor recorded) s'
        a.settled in
    let (works, milestones, projects) = completed_tables ctx target actor row recorded.1 in
    (o.same_works ∙ works, o.same_milestones ∙ milestones, o.same_projects ∙ projects)

-- From states with the primary keys, steps on the tables.
abbrev KeyedSteps : Bool → Store → Store → Type 0
KeyedSteps r s t = Keyed s → TableSteps r s t

KeyedSteps-trans :
    (r : Bool) (s t u : Store) → KeyedSteps r s t → KeyedSteps r t u → KeyedSteps r s u
KeyedSteps-trans r s t u a b keyed =
    let steps = a keyed in TableSteps-trans s t u steps (b (TableSteps-Keyed r s t steps keyed))

module _ (reactivating : Bool) (ctx : WorkContext) (decision : Decision) (actor : Actor) where
  pub cancel_milestone-KeyedSteps :
      (m : Milestone) (s s' : Store)
      → cancel_milestone ctx decision actor m s ≡ ok s'
      → find milestones_table.id m.id s.milestones ≡ some m
      → KeyedSteps reactivating s s'
  cancel_milestone-KeyedSteps m s s' h there keyed =
      let (row, a) = cancel_milestone-MilestoneApplied ctx decision actor m s s' h in
      MilestoneApplied-TableSteps reactivating ctx m MilestoneStatus.cancelled decision actor
        m.version s row s' keyed there a

  pub cancel_milestone-others :
      (m : Milestone) (s s' : Store)
      → cancel_milestone ctx decision actor m s ≡ ok s'
      → (i : ℕ) → (i == m.id) ≡ false
      → find milestones_table.id i s'.milestones ≡ find milestones_table.id i s.milestones
  cancel_milestone-others m s s' h i other =
      let (row, a) = cancel_milestone-MilestoneApplied ctx decision actor m s s' h in
      let tables =
        MilestoneApplied-tables ctx m MilestoneStatus.cancelled decision actor m.version s row s'
          a in
      ap (find milestones_table.id i) tables.0
      ∙ update-others milestones_table (org_of ctx) m.id m.version
          (moved_milestone ctx.today MilestoneStatus.cancelled) s.milestones row a.rows (λ y. refl)
          a.wrote i other

  pub cancel_work-KeyedSteps :
      (w : Work) (s s' : Store)
      → cancel_work ctx decision actor w s ≡ ok s'
      → find works_table.id w.id s.works ≡ some w
      → KeyedSteps reactivating s s'
  cancel_work-KeyedSteps w s s' h there keyed =
      let (row, a) = cancel_work-WorkApplied ctx decision actor w s s' h in
      WorkApplied-TableSteps reactivating ctx w (cancelled_status w.status) decision none actor
        w.version s row s' keyed there a

  pub cancel_work-others :
      (w : Work) (s s' : Store)
      → cancel_work ctx decision actor w s ≡ ok s'
      → (i : ℕ) → (i == w.id) ≡ false
      → find works_table.id i s'.works ≡ find works_table.id i s.works
  cancel_work-others w s s' h i other =
      let (row, a) = cancel_work-WorkApplied ctx decision actor w s s' h in
      let target = cancelled_status w.status in
      let tables = WorkApplied-tables ctx w target decision actor w.version s row s' a in
      ap (find works_table.id i) tables.0
      ∙ update-others works_table (org_of ctx) w.id w.version (moved_work ctx.now target none w)
          s.works row a.rows (λ y. refl) a.wrote i other

pub cancelled_milestones-TableSteps :
    (reactivating : Bool) (ctx : WorkContext) (project_id : ℕ) (decision : Decision) (actor : Actor)
    (s s' : Store)
    → Keyed s
    → each
        (open_milestones_of_project (org_of ctx) project_id s)
        (cancel_milestone ctx decision actor)
        s
      ≡ ok s'
    → TableSteps reactivating s s'
unfolding open_milestones_of_project
cancelled_milestones-TableSteps r ctx project_id decision actor s s' keyed h =
    let open_m = λ (m : Milestone). is_open_milestone (org_of ctx) project_id m in
    each-related milestones_table.id (λ (u : Store). u.milestones)
      (cancel_milestone ctx decision actor) (KeyedSteps r) (λ u k. stay) (KeyedSteps-trans r)
      (cancel_milestone-KeyedSteps r ctx decision actor)
      (cancel_milestone-others r ctx decision actor)
      (open_milestones_of_project (org_of ctx) project_id s) s s' h
      (filter-found milestones_table.id open_m s.milestones keyed.milestones)
      (filter-IsKeyed milestones_table.id open_m s.milestones keyed.milestones) keyed

pub cancel_contents-TableSteps :
    (reactivating : Bool) (ctx : WorkContext) (p : Project) (decision : Decision) (s s' : Store)
    → Keyed s
    → cancel_contents ctx p decision s ≡ ok s'
    → TableSteps reactivating s s'
unfolding cancel_contents open_work_of_project open_work_statuses
cancel_contents-TableSteps r ctx p decision s s' keyed h =
    let actor = cascade_actor ctx p.id in
    let (t, e1, h1) =
      returned
        (each (open_milestones_of_project (org_of ctx) p.id s) (cancel_milestone ctx decision actor)
          s)
        _ h in
    let open_w =
      λ (w : Work). is_work_of (org_of ctx) p.id w && contains w.status open_work_statuses in
    let first = cancelled_milestones-TableSteps r ctx p.id decision actor s t keyed e1 in
    let keyed_t = TableSteps-Keyed r s t first keyed in
    TableSteps-trans s t s' first (
      each-related works_table.id (λ (u : Store). u.works) (cancel_work ctx decision actor)
        (KeyedSteps r) (λ u k. stay) (KeyedSteps-trans r)
        (cancel_work-KeyedSteps r ctx decision actor) (cancel_work-others r ctx decision actor)
        (open_work_of_project (org_of ctx) p.id t) t s' h1
        (filter-found works_table.id open_w t.works keyed_t.works)
        (filter-IsKeyed works_table.id open_w t.works keyed_t.works) keyed_t)
