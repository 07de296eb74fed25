-- ===== src/Work/Service/Refines/Moves.antt =====
-- WorkService._apply_status and change_work_status.
use aiworkos.Base.{
  ℕ, ◌≡◌, refl, ap, subst, inl, inr, Bool, Option, some, List, [], ◌∷◌, ◌++◌, ◌==◌, nat_eq,
  option_eq, Bool-cases,
}
use aiworkos.Base.Table.{find}
use aiworkos.Base.Result.{ok, returned, passed, same_value}
use aiworkos.Platform.Authz.Model.{Action, ResourceType, Decision}
use aiworkos.Platform.Repository.{update}
use aiworkos.Platform.Records.{Actor}
use aiworkos.Work.Vocabulary.{WorkStatus, work_status_eq, source_eq}
use aiworkos.Work.Lifecycle.{validate_work_transition}
use aiworkos.Work.Dependency.{EndpointType}
use aiworkos.Work.Rows.{Work, works_table}
use aiworkos.Work.Store.{Snapshot, WorkEvent, Store, WorkContext, org_of, authorize_work, load}
use aiworkos.Work.Relations.{reach_of, work_authorship_relations, work_project}
use aiworkos.Work.Service.Commands.{ChangeWorkStatus}
use aiworkos.Work.Service.Dependencies.{work_settlement, settle_dependencies}
use aiworkos.Work.Service.Items.{
  recorded_work, transition_context, moved_work, completed, apply_work_status, change_work_status,
}
use aiworkos.Work.Service.Steps.{
  FreshWork, WorkMove, moves, TableStep, on_work, TableSteps, one_step, TableSteps-trans,
}
use aiworkos.Work.Service.Effects.{load-Found, update-RowStep}
use aiworkos.Work.Service.Keyed.{Keyed, TableStep-Keyed}
use aiworkos.Work.Service.Refines.Settlements.{IsSettlement, settle_dependencies-TableSteps}
use aiworkos.Work.Service.Refines.Items.{work_written}

pub work_settlement-IsSettlement : (status : WorkStatus) → IsSettlement (work_settlement status)
work_settlement-IsSettlement WorkStatus.proposed = tt
work_settlement-IsSettlement WorkStatus.todo = tt
work_settlement-IsSettlement WorkStatus.in_progress = tt
work_settlement-IsSettlement WorkStatus.blocked = tt
work_settlement-IsSettlement WorkStatus.done = refl
work_settlement-IsSettlement WorkStatus.cancelled = refl
work_settlement-IsSettlement WorkStatus.rejected = refl

-- What a change of status that returned did, before the dependencies were settled.
pub record WorkApplied (ctx : WorkContext) (w : Work) (target : WorkStatus) (decision : Decision)
    (blocked_reason : Option (List ℕ)) (actor : Actor) (expected : ℕ) (s : Store) (row : Work)
    (s' : Store) : Type 0 where
  pub rows : List Work
  pub valid :
      validate_work_transition w.status target (transition_context ctx w blocked_reason s) ≡ ok tt
  pub wrote :
      update works_table
        (org_of ctx)
        w.id
        expected
        (moved_work ctx.now target blocked_reason w)
        s.works
      ≡ ok (row, rows)
  pub settled :
      settle_dependencies ctx
        (record { type = EndpointType.work; id = row.id })
        (work_settlement target)
        decision
        actor
        (completed ctx target actor (
          recorded_work ctx Action.change_state
            (some (Snapshot.work w))
            decision
            actor
            (WorkEvent.work_status_changed w.status target)
            s
            (row, rows)))
      ≡ ok s'

pub apply_work_status-WorkApplied :
    (ctx : WorkContext) (w : Work) (target : WorkStatus) (decision : Decision)
    (blocked_reason : Option (List ℕ)) (actor : Actor) (expected : ℕ) (s : Store) (row : Work)
    (s' : Store)
    → apply_work_status ctx w target decision blocked_reason actor expected s ≡ ok (row, s')
    → WorkApplied ctx w target decision blocked_reason actor expected s row s'
unfolding apply_work_status
apply_work_status-WorkApplied ctx w target decision blocked_reason actor expected s row s' h =
    let (e1, h1) =
      passed (validate_work_transition w.status target (transition_context ctx w blocked_reason s))
        _ h in
    let ((x, rows), e2, h2) =
      returned
        (update works_table (org_of ctx) w.id expected (moved_work ctx.now target blocked_reason w)
          s.works)
        _ h1 in
    let (t, e3, h3) =
      returned
        (settle_dependencies ctx (record { type = EndpointType.work; id = x.id })
          (work_settlement target) decision actor
          (completed ctx target actor (
            recorded_work ctx Action.change_state (some (Snapshot.work w)) decision actor
              (WorkEvent.work_status_changed w.status target) s (x, rows))))
        _ h2 in
    subst
      (λ (y : Work × Store).
        WorkApplied ctx w target decision blocked_reason actor expected s y.0 y.1)
      (same_value h3) (record { rows = rows; valid = e1; wrote = e2; settled = e3 })

append_twice : {A : Type 0} (xs : List A) (a b : A) → (xs ++ a ∷ []) ++ b ∷ [] ≡ xs ++ a ∷ b ∷ []
append_twice [] a b = refl
append_twice (x ∷ xs) a b = ap (λ ys. x ∷ ys) (append_twice xs a b)

-- The change of status itself, with the event of a completion where there is one.
pub completed-TableStep :
    (reactivating : Bool) (ctx : WorkContext) (w : Work) (target : WorkStatus) (decision : Decision)
    (blocked_reason : Option (List ℕ)) (actor : Actor) (expected : ℕ) (s : Store) (row : Work)
    (rows : List Work)
    → find works_table.id w.id s.works ≡ some w
    → validate_work_transition w.status target (transition_context ctx w blocked_reason s) ≡ ok tt
    → update works_table
        (org_of ctx)
        w.id
        expected
        (moved_work ctx.now target blocked_reason w)
        s.works
      ≡ ok (row, rows)
    → TableStep reactivating s (
        completed ctx target actor (
          recorded_work ctx Action.change_state
            (some (Snapshot.work w))
            decision
            actor
            (WorkEvent.work_status_changed w.status target)
            s
            (row, rows)))
completed-TableStep r ctx w target decision reason actor expected s row rows there valid wrote =
    let moved : WorkMove s w (works_table.bump (moved_work ctx.now target reason w w)) =
      moves (transition_context ctx w reason s) ctx.now valid refl refl refl in
    let step =
      update-RowStep works_table (FreshWork s) (WorkMove s) (org_of ctx) expected
        (moved_work ctx.now target reason w) w s.works row rows (λ y. refl) there wrote moved in
    elim (Bool-cases (target == WorkStatus.done)) [
      | inr other ↦ rw other (
          work_written r ctx Action.change_state decision actor
            (WorkEvent.work_status_changed w.status target) w expected
            (moved_work ctx.now target reason w) s row rows (λ y. refl) there wrote moved)
      | inl done ↦ rw done (
          on_work row rows step
            (record {
              entry = _;
              of_type = refl;
              of_row = refl;
              shows = refl;
              audited = refl;
              event = _;
              further = _ ∷ [];
              about = refl;
              published = append_twice s.outbox _ _;
            })
            refl)
    ]

pub WorkApplied-TableSteps :
    (reactivating : Bool) (ctx : WorkContext) (w : Work) (target : WorkStatus) (decision : Decision)
    (blocked_reason : Option (List ℕ)) (actor : Actor) (expected : ℕ) (s : Store) (row : Work)
    (s' : Store)
    → Keyed s
    → find works_table.id w.id s.works ≡ some w
    → WorkApplied ctx w target decision blocked_reason actor expected s row s'
    → TableSteps reactivating s s'
WorkApplied-TableSteps r ctx w target decision reason actor expected s row s' keyed there a =
    let step =
      completed-TableStep r ctx w target decision reason actor expected s row a.rows there a.valid
        a.wrote in
    let mid = completed ctx target actor (
      recorded_work ctx Action.change_state (some (Snapshot.work w)) decision actor
        (WorkEvent.work_status_changed w.status target) s (row, a.rows)) in
    TableSteps-trans s mid s' (one_step step) (
      settle_dependencies-TableSteps r ctx (record { type = EndpointType.work; id = row.id })
        (work_settlement target) decision actor mid s' (work_settlement-IsSettlement target)
        (TableStep-Keyed r s mid step keyed) a.settled)

pub change_work_status-TableSteps :
    (reactivating : Bool) (ctx : WorkContext) (command : ChangeWorkStatus) (s : Store) (row : Work)
    (s' : Store)
    → Keyed s
    → change_work_status ctx command s ≡ ok (row, s')
    → TableSteps reactivating s s'
unfolding change_work_status
change_work_status-TableSteps r ctx command s row s' keyed h =
    let (w, e1, h1) = returned (load works_table ctx command.work_id s.works) _ h in
    let (decision, e2, h2) =
      returned
        (authorize_work ctx Action.change_state ResourceType.work
          (work_authorship_relations (reach_of ctx s) w (work_project w s)) (some w.id))
        _ h1 in
    WorkApplied-TableSteps r ctx w command.target decision command.blocked_reason ctx.actor
      command.expected_version s row s' keyed
      (load-Found works_table ctx command.work_id s.works w e1).there
      (apply_work_status-WorkApplied ctx w command.target decision command.blocked_reason ctx.actor
        command.expected_version s row s' h2)
