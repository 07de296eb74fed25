-- ===== src/Work/Service/Refines/Assignments.antt =====
-- AssignmentService.
use aiworkos.Base.{ℕ, ◌≡◌, refl, subst, Bool, false, none, some, List, [], ◌==◌, nat_eq}
use aiworkos.Base.Table.{find}
use aiworkos.Base.Result.{
  ok, returned, passed, raise_if, not_raised, same_state, same_value, br_w_14,
}
use aiworkos.Platform.Authz.Model.{Action, ResourceType, Decision}
use aiworkos.Platform.Repository.{update}
use aiworkos.Work.Vocabulary.{AssignmentStatus, assignment_role_eq, assignment_status_eq}
use aiworkos.Work.Assignment.{validate_assignment}
use aiworkos.Work.Rows.{Work, WorkAssignment, assignments_table, works_table}
use aiworkos.Work.Store.{
  Snapshot, WorkEvent, Store, WorkContext, org_of, authorize_work, insert, load,
}
use aiworkos.Work.Queries.{existing_assignments}
use aiworkos.Work.Relations.{
  reach_of, work_project, assignment_creation_relations, assignment_relations,
}
use aiworkos.Work.Service.Commands.{AssignWork, EndAssignment}
use aiworkos.Work.Service.Assignments.{
  recorded_assignment, new_assignment, known_status, create_assignment, ended_assignment,
  end_assignment, assign, end_by_command,
}
use aiworkos.Work.Service.Steps.{FreshAssignment, AssignmentMove, TableStep, on_assignment}
use aiworkos.Work.Service.Effects.{load-Found, insert-RowStep, update-RowStep}

pub create_assignment-TableStep :
    (reactivating : Bool) (ctx : WorkContext) (new_id : ℕ) (w : Work) (command : AssignWork)
    (decision : Decision) (s : Store) (row : WorkAssignment) (s' : Store)
    → create_assignment ctx new_id w command decision s ≡ ok (row, s')
    → TableStep reactivating s s'
unfolding create_assignment
create_assignment-TableStep r ctx new_id w command decision s row s' h =
    let (status, e1, h1) =
      returned (known_status (ctx.identity.person_status (org_of ctx) command.person_id)) _ h in
    let (e2, h2) =
      passed
        (validate_assignment command.person_id command.role command.is_primary status
          (existing_assignments (org_of ctx) w.id s))
        _ h1 in
    let new = new_assignment ctx new_id w command in
    let (rows, e3, h3) = returned (insert assignments_table new s.assignments) _ h2 in
    let e : (recorded_assignment ctx Action.assign none decision WorkEvent.work_assigned s
          (new, rows)).1
        ≡ s' =
      same_state h3 in
    subst (TableStep r s) e (
      on_assignment new rows
        (insert-RowStep assignments_table (FreshAssignment s) AssignmentMove new s.assignments rows
          e3 (record { person_status = status; is_active = refl; not_ended = refl; accepted = e2 }))
        (record {
          entry = _;
          of_type = refl;
          of_row = refl;
          shows = refl;
          audited = refl;
          event = _;
          further = [];
          about = refl;
          published = refl;
        })
        refl)

-- What an end that returned did.
pub record Ended (ctx : WorkContext) (a : WorkAssignment) (decision : Decision) (expected : ℕ)
    (s : Store) (row : WorkAssignment) (s' : Store) : Type 0 where
  pub rows : List WorkAssignment
  pub was_active : (a.status == AssignmentStatus.ended) ≡ false
  pub wrote :
      update assignments_table (org_of ctx) a.id expected (ended_assignment ctx.now) s.assignments
      ≡ ok (row, rows)
  pub result :
      (recorded_assignment ctx Action.end_assignment
        (some (Snapshot.assignment a))
        decision
        WorkEvent.work_assignment_ended
        s
        (row, rows)).1
      ≡ s'

pub end_assignment-Ended :
    (ctx : WorkContext) (a : WorkAssignment) (decision : Decision) (expected : ℕ) (s : Store)
    (row : WorkAssignment) (s' : Store)
    → end_assignment ctx a decision expected s ≡ ok (row, s')
    → Ended ctx a decision expected s row s'
unfolding end_assignment
end_assignment-Ended ctx a decision expected s row s' h =
    let (e1, h1) = passed (raise_if (a.status == AssignmentStatus.ended) br_w_14) _ h in
    let ((x, rows), e2, h2) =
      returned
        (update assignments_table (org_of ctx) a.id expected (ended_assignment ctx.now)
          s.assignments)
        _ h1 in
    subst (λ (y : WorkAssignment × Store). Ended ctx a decision expected s y.0 y.1) (same_value h2)
      (record {
        rows = rows;
        was_active = not_raised (a.status == AssignmentStatus.ended) br_w_14 e1;
        wrote = e2;
        result = refl;
      })

pub Ended-TableStep :
    (reactivating : Bool) (ctx : WorkContext) (a : WorkAssignment) (decision : Decision)
    (expected : ℕ) (s : Store) (row : WorkAssignment) (s' : Store)
    → find assignments_table.id a.id s.assignments ≡ some a
    → Ended ctx a decision expected s row s'
    → TableStep reactivating s s'
Ended-TableStep r ctx a decision expected s row s' there e = subst (TableStep r s) e.result (
    on_assignment row e.rows
      (update-RowStep assignments_table (FreshAssignment s) AssignmentMove (org_of ctx) expected
        (ended_assignment ctx.now) a s.assignments row e.rows (λ y. refl) there e.wrote
        (record {
          was_active = e.was_active;
          now_ended = refl;
          end_is_known = refl;
          same_org = refl;
          same_work = refl;
          same_person = refl;
          same_role = refl;
          same_primary = refl;
        }))
      (record {
        entry = _;
        of_type = refl;
        of_row = refl;
        shows = refl;
        audited = refl;
        event = _;
        further = [];
        about = refl;
        published = refl;
      })
      refl)

pub assign-TableStep :
    (reactivating : Bool) (ctx : WorkContext) (new_id : ℕ) (command : AssignWork) (s : Store)
    (row : WorkAssignment) (s' : Store)
    → assign ctx new_id command s ≡ ok (row, s')
    → TableStep reactivating s s'
unfolding assign
assign-TableStep r ctx new_id command s row s' h =
    let (w, e1, h1) = returned (load works_table ctx command.work_id s.works) _ h in
    let (decision, e2, h2) =
      returned
        (authorize_work ctx Action.assign ResourceType.work_assignment
          (assignment_creation_relations (reach_of ctx s) w (work_project w s)
            (some command.person_id))
          none)
        _ h1 in
    create_assignment-TableStep r ctx new_id w command decision s row s' h2

pub end_by_command-TableStep :
    (reactivating : Bool) (ctx : WorkContext) (command : EndAssignment) (s : Store)
    (row : WorkAssignment) (s' : Store)
    → end_by_command ctx command s ≡ ok (row, s')
    → TableStep reactivating s s'
unfolding end_by_command
end_by_command-TableStep r ctx command s row s' h =
    let (a, e1, h1) =
      returned (load assignments_table ctx command.assignment_id s.assignments) _ h in
    let (w, e2, h2) = returned (load works_table ctx a.work_id s.works) _ h1 in
    let (decision, e3, h3) =
      returned
        (authorize_work ctx Action.end_assignment ResourceType.work_assignment
          (assignment_relations (reach_of ctx s) (work_project w s) a) (some a.id))
        _ h2 in
    Ended-TableStep r ctx a decision command.expected_version s row s'
      (load-Found assignments_table ctx command.assignment_id s.assignments a e1).there
      (end_assignment-Ended ctx a decision command.expected_version s row s' h3)
