-- ===== src/Work/Service/Outcomes/Settled.antt =====
-- What `_settle_dependencies` leaves of the dependencies of a blocker that is finished or given up.
use aiworkos.Base.{
  ℕ, ◌≡◌, refl, ap, sym, subst, ◌∙◌, inl, inr, Bool, true, false, some, ◌==◌, ◌&&◌, nat_eq, arith,
}
use aiworkos.Base.Table.{find}
use aiworkos.Base.Loop.{each-clears_all}
use aiworkos.Base.Result.{ok, returned}
use aiworkos.Platform.Authz.Model.{Action, ResourceType, Decision}
use aiworkos.Platform.Records.{Actor}
use aiworkos.Work.Vocabulary.{
  WorkStatus, DependencyKind, DependencyStatus, dependency_kind_eq, dependency_status_eq,
}
use aiworkos.Work.Dependency.{Endpoint, EndpointType, endpoint_eq}
use aiworkos.Work.Rows.{Work, Dependency, dependencies_table, works_table}
use aiworkos.Work.Store.{Snapshot, WorkEvent, Store, WorkContext, org_of, authorize_work, load}
use aiworkos.Work.Queries.{is_active_from, active_dependencies_from}
use aiworkos.Work.Relations.{reach_of, work_authorship_relations, work_project}
use aiworkos.Work.Service.Commands.{ChangeWorkStatus}
use aiworkos.Work.Service.Dependencies.{work_settlement, settle, settle_dependencies}
use aiworkos.Work.Service.Items.{recorded_work, completed, change_work_status}
use aiworkos.Work.Service.Effects.{load-Found, update-stored, update-image}
use aiworkos.Work.Service.Keyed.{Keyed, TableStep-Keyed}
use aiworkos.Work.Service.Refines.Settlements.{IsSettling, settle-cases, settle-others}
use aiworkos.Work.Service.Refines.Moves.{apply_work_status-WorkApplied, completed-TableStep}

-- An active dependency of the kind `blocks`, from this blocker.
abbrev pub is_blocked_by : ℕ → Endpoint → Dependency → Bool
is_blocked_by org_id blocker d =
    is_active_from org_id blocker d && (d.kind == DependencyKind.blocks)

settled-is_blocked_by :
    (ctx : WorkContext) (blocker : Endpoint) (target : DependencyStatus)
    → IsSettling target
    → (decision : Decision) (actor : Actor) (d : Dependency) (s t : Store)
    → settle ctx target decision actor d s ≡ ok t
    → find dependencies_table.id d.id s.dependencies ≡ some d
    → (row : Dependency) → find dependencies_table.id d.id t.dependencies ≡ some row
    → is_blocked_by (org_of ctx) blocker row ≡ false
settled-is_blocked_by ctx blocker target settling decision actor d s t h found row there =
    elim (settle-cases ctx target decision actor d s t h) [
      | inl (informs, same) ↦
          let is_d : d ≡ row = cc (
            found,
            subst (λ (u : Store). find dependencies_table.id d.id u.dependencies ≡ some row)
                (sym same) there,
          ) in
          let kind : (row.kind == DependencyKind.blocks) ≡ false =
            subst (λ (x : Dependency). (x.kind == DependencyKind.blocks) ≡ false) is_d informs in
          ground (arith, kind)
      | inr (blocks, x, a) ↦
          let g = λ (y : Dependency). record y { status = target } in
          let (stored, at) =
            update-stored dependencies_table (org_of ctx) d.id d.version g s.dependencies x a.rows
              (λ y. refl) a.wrote in
          let (old, image) =
            update-image dependencies_table (org_of ctx) d.id d.version g s.dependencies x a.rows
              a.wrote in
          let rows : t.dependencies ≡ a.rows =
            ap (λ (y : Dependency × Store). y.1.dependencies) (sym a.result) in
          let same : x ≡ row = cc (stored, ap (find dependencies_table.id d.id) rows, there) in
          let status : row.status ≡ target = ap (λ (y : Dependency). y.status) (sym same ∙ image) in
          let inactive : (row.status == DependencyStatus.active) ≡ false = rw status settling in
          ground (arith, inactive)
    ]

settle_dependencies-is_blocked_by :
    (ctx : WorkContext) (blocker : Endpoint) (target : DependencyStatus)
    → IsSettling target
    → (decision : Decision) (actor : Actor) (s t : Store) → Keyed s
    → settle_dependencies ctx blocker (some target) decision actor s ≡ ok t
    → (id : ℕ) (d : Dependency) → find dependencies_table.id id t.dependencies ≡ some d
    → is_blocked_by (org_of ctx) blocker d ≡ false
unfolding settle_dependencies active_dependencies_from
settle_dependencies-is_blocked_by ctx blocker target settling decision actor s t keyed h id d
      there =
    each-clears_all dependencies_table.id (λ (u : Store). u.dependencies)
      (settle ctx target decision actor) (is_blocked_by (org_of ctx) blocker)
      (is_active_from (org_of ctx) blocker) (λ x e. ground (arith, e))
      (settled-is_blocked_by ctx blocker target settling decision actor)
      (settle-others true ctx target settling decision actor) s t keyed.dependencies h id d there

abbrev pub is_settled_by : WorkStatus → Bool
is_settled_by WorkStatus.done = true
is_settled_by WorkStatus.cancelled = true
is_settled_by WorkStatus.rejected = true
is_settled_by _ = false

settlement_of :
    (status : WorkStatus)
    → is_settled_by status ≡ true
    → (target : DependencyStatus) × (work_settlement status ≡ some target) × IsSettling target
settlement_of WorkStatus.proposed h = absurd (cc h)
settlement_of WorkStatus.todo h = absurd (cc h)
settlement_of WorkStatus.in_progress h = absurd (cc h)
settlement_of WorkStatus.blocked h = absurd (cc h)
settlement_of WorkStatus.done h = (DependencyStatus.resolved, refl, refl)
settlement_of WorkStatus.cancelled h = (DependencyStatus.withdrawn, refl, refl)
settlement_of WorkStatus.rejected h = (DependencyStatus.withdrawn, refl, refl)

-- When a Work becomes done, cancelled or rejected, from a state with unique ids, no active dependency
-- of the kind `blocks` is left in its organization of which it is the blocker.
pub change_work_status-is_blocked_by :
    (ctx : WorkContext) (command : ChangeWorkStatus) (s : Store) (row : Work) (s' : Store)
    → Keyed s
    → is_settled_by command.target ≡ true
    → change_work_status ctx command s ≡ ok (row, s')
    → (id : ℕ) (d : Dependency) → find dependencies_table.id id s'.dependencies ≡ some d
    → is_blocked_by (org_of ctx) (record { type = EndpointType.work; id = row.id }) d ≡ false
unfolding change_work_status
change_work_status-is_blocked_by ctx command s row s' keyed final h id d there =
    let (w, e1, h1) = returned (load works_table ctx command.work_id s.works) _ h in
    let (decision, e2, h2) =
      returned
        (authorize_work ctx Action.change_state ResourceType.work
          (work_authorship_relations (reach_of ctx s) w (work_project w s)) (some w.id))
        _ h1 in
    let found = load-Found works_table ctx command.work_id s.works w e1 in
    let a =
      apply_work_status-WorkApplied ctx w command.target decision command.blocked_reason ctx.actor
        command.expected_version s row s' h2 in
    let (target, settles, settling) = settlement_of command.target final in
    let endpoint : Endpoint = record { type = EndpointType.work; id = row.id } in
    let mid = completed ctx command.target ctx.actor (
      recorded_work ctx Action.change_state (some (Snapshot.work w)) decision ctx.actor
        (WorkEvent.work_status_changed w.status command.target) s (row, a.rows)) in
    settle_dependencies-is_blocked_by ctx endpoint target settling decision ctx.actor mid s'
      (TableStep-Keyed true s mid
        (completed-TableStep true ctx w command.target decision command.blocked_reason ctx.actor
          command.expected_version s row a.rows found.there a.valid a.wrote)
        keyed)
      (subst (λ o. settle_dependencies ctx endpoint o decision ctx.actor mid ≡ ok s') settles
        a.settled)
      id d there
