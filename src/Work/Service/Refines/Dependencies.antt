-- ===== src/Work/Service/Refines/Dependencies.antt =====
-- DependencyService and `_settle_dependencies`.
use aiworkos.Base.{
  ℕ, ◌≡◌, refl, ap, subst, ◌∙◌, Bool, true, false, none, some, List, [], ◌==◌, nat_eq,
}
use aiworkos.Base.Table.{find}
use aiworkos.Base.Result.{
  ok, returned, passed, raise_if, not_raised, same_state, same_value, br_d_06,
}
use aiworkos.Platform.Authz.Model.{Action, ResourceType, Decision}
use aiworkos.Platform.Repository.{update}
use aiworkos.Platform.Records.{Actor}
use aiworkos.Work.Vocabulary.{DependencyStatus, dependency_kind_eq, dependency_status_eq}
use aiworkos.Work.Dependency.{validate_dependency}
use aiworkos.Work.Rows.{Dependency, dependencies_table}
use aiworkos.Work.Store.{
  Snapshot, WorkEvent, Store, WorkContext, org_of, authorize_work, insert, load,
}
use aiworkos.Work.Queries.{dependency_edges}
use aiworkos.Work.Relations.{reach_of, dependency_relations}
use aiworkos.Work.Service.Commands.{CreateDependency, ChangeDependencyStatus}
use aiworkos.Work.Service.Dependencies.{
  assert_endpoint_exists, candidate_of, new_dependency, recorded_dependency, create_dependency,
  apply_dependency_status, change_dependency_status,
}
use aiworkos.Work.Service.Steps.{FreshDependency, DependencyMove, TableStep, on_dependency}
use aiworkos.Work.Service.Effects.{load-Found, insert-RowStep, update-RowStep}

-- What a change of status that returned did.
pub record Applied (ctx : WorkContext) (d : Dependency) (target : DependencyStatus)
    (decision : Decision) (actor : Actor) (expected : ℕ) (s : Store) (row : Dependency) (s' : Store)
    : Type 0 where
  pub rows : List Dependency
  pub other_status : (d.status == target) ≡ false
  pub wrote :
      update dependencies_table
        (org_of ctx)
        d.id
        expected
        (λ x. record x { status = target })
        s.dependencies
      ≡ ok (row, rows)
  pub result :
      recorded_dependency ctx Action.change_state
        (some (Snapshot.dependency d))
        decision
        actor
        (WorkEvent.dependency_status_changed d.status target)
        s
        (row, rows)
      ≡ (row, s')

pub apply_dependency_status-Applied :
    (ctx : WorkContext) (d : Dependency) (target : DependencyStatus) (decision : Decision)
    (actor : Actor) (expected : ℕ) (s : Store) (row : Dependency) (s' : Store)
    → apply_dependency_status ctx d target decision actor expected s ≡ ok (row, s')
    → Applied ctx d target decision actor expected s row s'
unfolding apply_dependency_status
apply_dependency_status-Applied ctx d target decision actor expected s row s' h =
    let (e1, h1) = passed (raise_if (d.status == target) br_d_06) _ h in
    let ((x, rows), e2, h2) =
      returned
        (update dependencies_table (org_of ctx) d.id expected (λ x. record x { status = target })
          s.dependencies)
        _ h1 in
    let same : x ≡ row = cc h2 in
    record {
      rows = rows;
      other_status = not_raised (d.status == target) br_d_06 e1;
      wrote = e2 ∙ ap (λ y. ok (y, rows)) same;
      result =
          subst
            (λ y.
              recorded_dependency ctx Action.change_state (some (Snapshot.dependency d)) decision
                actor (WorkEvent.dependency_status_changed d.status target) s (y, rows)
              ≡ (row, s'))
            same (same_value h2);
    }

pub Applied-TableStep :
    (reactivating : Bool) (ctx : WorkContext) (d : Dependency) (target : DependencyStatus)
    (decision : Decision) (actor : Actor) (expected : ℕ) (s : Store) (row : Dependency) (s' : Store)
    → find dependencies_table.id d.id s.dependencies ≡ some d
    → ((target == DependencyStatus.active) ≡ true → reactivating ≡ true)
    → Applied ctx d target decision actor expected s row s'
    → TableStep reactivating s s'
Applied-TableStep r ctx d target decision actor expected s row s' there allowed a =
    let e : (recorded_dependency ctx Action.change_state (some (Snapshot.dependency d)) decision
          actor (WorkEvent.dependency_status_changed d.status target) s (row, a.rows)).1
        ≡ s' =
      ap (λ (x : Dependency × Store). x.1) a.result in
    subst (TableStep r s) e (
      on_dependency row a.rows
        (update-RowStep dependencies_table (FreshDependency s) (DependencyMove r) (org_of ctx)
          expected (λ x. record x { status = target }) d s.dependencies row a.rows (λ x. refl) there
          a.wrote
          (record {
            same_org = refl;
            same_blocker = refl;
            same_blocked = refl;
            same_kind = refl;
            other_status = a.other_status;
            reactivated = allowed;
          }))
        (record {
          entry = _;
          of_type = refl;
          of_row = refl;
          shows = refl;
          audited = refl;
          event = _;
          further = [];
          about = refl;
          published = refl;
        })
        refl)

pub change_dependency_status-TableStep :
    (reactivating : Bool) (ctx : WorkContext) (command : ChangeDependencyStatus) (s : Store)
    (row : Dependency) (s' : Store)
    → ((command.target == DependencyStatus.active) ≡ true → reactivating ≡ true)
    → change_dependency_status ctx command s ≡ ok (row, s')
    → TableStep reactivating s s'
unfolding change_dependency_status
change_dependency_status-TableStep r ctx command s row s' allowed h =
    let (d, e1, h1) =
      returned (load dependencies_table ctx command.dependency_id s.dependencies) _ h in
    let (decision, e2, h2) =
      returned
        (authorize_work ctx Action.change_state ResourceType.dependency
          (dependency_relations (reach_of ctx s) d.blocker d.blocked s) (some d.id))
        _ h1 in
    Applied-TableStep r ctx d command.target decision ctx.actor command.expected_version s row s'
      (load-Found dependencies_table ctx command.dependency_id s.dependencies d e1).there allowed
      (apply_dependency_status-Applied ctx d command.target decision ctx.actor
        command.expected_version s row s' h2)

pub create_dependency-TableStep :
    (reactivating : Bool) (ctx : WorkContext) (new_id : ℕ) (command : CreateDependency) (s : Store)
    (row : Dependency) (s' : Store)
    → create_dependency ctx new_id command s ≡ ok (row, s')
    → TableStep reactivating s s'
unfolding create_dependency
create_dependency-TableStep r ctx new_id command s row s' h =
    let new = new_dependency ctx new_id command in
    let (e1, h1) = passed (assert_endpoint_exists ctx command.blocker s) _ h in
    let (e2, h2) = passed (assert_endpoint_exists ctx command.blocked s) _ h1 in
    let (decision, e3, h3) =
      returned
        (authorize_work ctx Action.create ResourceType.dependency
          (dependency_relations (reach_of ctx s) command.blocker command.blocked s) none)
        _ h2 in
    let (e4, h4) =
      passed
        (validate_dependency (candidate_of command) (dependency_edges (org_of ctx) s) (org_of ctx)
          (org_of ctx))
        _ h3 in
    let (rows, e5, h5) = returned (insert dependencies_table new s.dependencies) _ h4 in
    let e : (recorded_dependency ctx Action.create none decision ctx.actor
          WorkEvent.dependency_created s (new, rows)).1
        ≡ s' =
      same_state h5 in
    subst (TableStep r s) e (
      on_dependency new rows
        (insert-RowStep dependencies_table (FreshDependency s) (DependencyMove r) new s.dependencies
          rows e5 (record { is_active = refl; accepted = e4 }))
        (record {
          entry = _;
          of_type = refl;
          of_row = refl;
          shows = refl;
          audited = refl;
          event = _;
          further = [];
          about = refl;
          published = refl;
        })
        refl)
