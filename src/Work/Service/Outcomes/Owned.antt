-- ===== src/Work/Service/Outcomes/Owned.antt =====
-- Who owns a Work after the use cases that put somebody in the owner's seat.
use aiworkos.Base.{
  ℕ, ◌≡◌, ◌<◌, refl, ap, sym, subst, ◌∙◌, Bool, true, some, none, List, [], ◌∷◌, ◌++◌, ◌&&◌, nat_eq,
  arith, count-append, beq_refl, Option-cases, inl, inr,
}
use aiworkos.Base.Table.{find, key-find}
use aiworkos.Base.Result.{ok, each, returned, passed, same_state}
use aiworkos.Platform.Authz.Model.{Action, ResourceType, Decision}
use aiworkos.Work.Vocabulary.{AssignmentRole, Source, assignment_role_eq, assignment_status_eq}
use aiworkos.Work.Assignment.{
  ExistingAssignment, is_active, holds, validate_assignment, current_owner,
}
use aiworkos.Work.Assignment.Seats.{seats, current_owner_iff}
use aiworkos.Work.Rows.{Work, WorkAssignment, assignments_table, works_table}
use aiworkos.Work.Store.{Store, WorkContext, org_of, authorize_work, insert, load}
use aiworkos.Work.Queries.{existing, assignments_for_work, existing_assignments}
use aiworkos.Work.Relations.{reach_of, work_project, assignment_creation_relations}
use aiworkos.Work.Service.Commands.{AssignWork, SetOwner, ReassignOwner}
use aiworkos.Work.Service.Assignments.{
  new_assignment, known_status, create_assignment, end_incumbent, incumbent_of, vacate, set_owner,
  reassign_owner,
}
use aiworkos.Work.Service.Effects.{load-Found}
use aiworkos.Work.Service.Keyed.{Keyed}
use aiworkos.Work.Service.Seating.{
  of_work, seats_of, seats_of-append, IsSeatedAll, TableSteps-IsSeatedAll,
}
use aiworkos.Work.Service.Refines.Owners.{set_owner-TableSteps, reassign_owner-TableSteps}

inserted_rows :
    (row : WorkAssignment) (rows rows' : List WorkAssignment)
    → insert assignments_table row rows ≡ ok rows'
    → rows' ≡ rows ++ row ∷ []
inserted_rows row rows rows' h = elim (Option-cases (find assignments_table.id row.id rows)) [
  | inl free ↦ ground arith
  | inr (old, e) ↦ absurd (ground arith)
]

-- The rows after an assignment was created.
created_rows :
    (ctx : WorkContext) (new_id : ℕ) (w : Work) (command : AssignWork) (decision : Decision)
    (s : Store) (row : WorkAssignment) (s' : Store)
    → create_assignment ctx new_id w command decision s ≡ ok (row, s')
    → s'.assignments ≡ s.assignments ++ new_assignment ctx new_id w command ∷ []
unfolding create_assignment
created_rows ctx new_id w command decision s row s' h =
    let (status, e1, h1) =
      returned (known_status (ctx.identity.person_status (org_of ctx) command.person_id)) _ h in
    let (e2, h2) =
      passed
        (validate_assignment command.person_id command.role command.is_primary status
          (existing_assignments (org_of ctx) w.id s))
        _ h1 in
    let (rows, e3, h3) =
      returned (insert assignments_table (new_assignment ctx new_id w command) s.assignments) _
        h2 in
    ap (λ (u : Store). u.assignments) (sym (same_state h3))
    ∙ inserted_rows (new_assignment ctx new_id w command) s.assignments rows e3

-- So its person has the owner's seat, if that is the role.
seat_taken :
    (ctx : WorkContext) (new_id : ℕ) (w : Work) (command : AssignWork) (rows : List WorkAssignment)
    → command.role ≡ AssignmentRole.owner
    → 0
      < seats
          (holds command.person_id AssignmentRole.owner)
          (seats_of (org_of ctx) w.id (rows ++ new_assignment ctx new_id w command ∷ []))
seat_taken ctx new_id w command rows owner =
    let new = new_assignment ctx new_id w command in
    let p = holds command.person_id AssignmentRole.owner in
    let here : of_work (org_of ctx) w.id new ≡ true =
      ground (arith, beq_refl (org_of ctx), beq_refl w.id) in
    let own : p (existing new) ≡ true = ground (arith, owner, beq_refl command.person_id) in
    let more : seats_of (org_of ctx) w.id (rows ++ new ∷ [])
        ≡ seats_of (org_of ctx) w.id rows ++ existing new ∷ [] =
      seats_of-append (org_of ctx) w.id rows new ∙ rw here refl in
    subst (λ xs. 0 < seats p xs) (sym more)
      (ground (
        arith,
        own,
        count-append (λ (a : ExistingAssignment). is_active a && p a)
            (seats_of (org_of ctx) w.id rows) (existing new ∷ []),
      ))

abbrev owner_of : ℕ → ℕ → Bool → Source → AssignWork
owner_of work_id person_id is_primary source = record {
  work_id = work_id;
  person_id = person_id;
  role = AssignmentRole.owner;
  is_primary = is_primary;
  source = source;
}

-- Whoever was put on a Work as its owner is its current owner, where the seats are in order.
owner_is :
    (ctx : WorkContext) (new_id : ℕ) (s' : Store) (w : Work) (work_id : ℕ) (t : Store)
    (command : AssignWork)
    → w.id ≡ work_id
    → command.role ≡ AssignmentRole.owner
    → s'.assignments ≡ t.assignments ++ new_assignment ctx new_id w command ∷ []
    → IsSeatedAll s'.assignments
    → current_owner (existing_assignments (org_of ctx) work_id s') ≡ some command.person_id
owner_is ctx new_id s' w work_id t command at owner rows all =
    let seat = λ (i : ℕ) (xs : List WorkAssignment).
      0 < seats (holds command.person_id AssignmentRole.owner) (seats_of (org_of ctx) i xs) in
    (current_owner_iff command.person_id (existing_assignments (org_of ctx) work_id s')
        (all (org_of ctx) work_id)).1
      (subst (λ i. seat i s'.assignments) at
        (subst (seat w.id) (sym rows) (seat_taken ctx new_id w command t.assignments owner)))

module _ (ctx : WorkContext) (new_id : ℕ) (s : Store) (row : WorkAssignment) (s' : Store)
    (keyed : Keyed s) (seated : IsSeatedAll s.assignments) where
  -- When `set_owner` returns, from a state with unique ids and every Work's seats in order, the person
  -- who was named is the Work's current owner, whoever was before.
  pub set_owner-current_owner :
      (command : SetOwner)
      → set_owner ctx new_id command s ≡ ok (row, s')
      → current_owner (existing_assignments (org_of ctx) command.work_id s')
        ≡ some command.person_id
  unfolding set_owner
  set_owner-current_owner command h =
      let (w, e1, h1) = returned (load works_table ctx command.work_id s.works) _ h in
      let f = load-Found works_table ctx command.work_id s.works w e1 in
      let ((decision, t), e2, h2) =
        returned
          (vacate ctx w command.person_id (incumbent_of (assignments_for_work (org_of ctx) w.id s))
            s)
          _ h1 in
      let owner = owner_of command.work_id command.person_id command.is_primary command.source in
      owner_is ctx new_id s' w command.work_id t owner
        (key-find works_table.id command.work_id s.works w f.asked) refl
        (created_rows ctx new_id w owner decision t row s' h2)
        (TableSteps-IsSeatedAll true s s' keyed
          (set_owner-TableSteps true ctx new_id command s row s' keyed h) seated)

  -- So does `reassign_owner`.
  pub reassign_owner-current_owner :
      (command : ReassignOwner)
      → reassign_owner ctx new_id command s ≡ ok (row, s')
      → current_owner (existing_assignments (org_of ctx) command.work_id s')
        ≡ some command.person_id
  unfolding reassign_owner
  reassign_owner-current_owner command h =
      let (w, e1, h1) = returned (load works_table ctx command.work_id s.works) _ h in
      let (decision, e2, h2) =
        returned
          (authorize_work ctx Action.reassign ResourceType.work_assignment
            (assignment_creation_relations (reach_of ctx s) w (work_project w s) none) none)
          _ h1 in
      let (t, e3, h3) =
        returned (each (assignments_for_work (org_of ctx) w.id s) (end_incumbent ctx decision) s) _
          h2 in
      let f = load-Found works_table ctx command.work_id s.works w e1 in
      let owner = owner_of command.work_id command.person_id command.is_primary command.source in
      owner_is ctx new_id s' w command.work_id t owner
        (key-find works_table.id command.work_id s.works w f.asked) refl
        (created_rows ctx new_id w owner decision t row s' h3)
        (TableSteps-IsSeatedAll true s s' keyed
          (reassign_owner-TableSteps true ctx new_id command s row s' keyed h) seated)
