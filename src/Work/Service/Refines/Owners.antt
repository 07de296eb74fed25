-- ===== src/Work/Service/Refines/Owners.antt =====
-- The loops over a Work's owners: reassign_owner and set_owner of AssignmentService.
use aiworkos.Base.{
  ℕ, ◌≡◌, ◌⊎◌, refl, ap, sym, subst, ◌∙◌, inl, inr, Bool, false, Option, none, some, List, [], ◌∷◌,
  ◌==◌, ◌&&◌, nat_eq, arith, Bool-cases, All,
}
use aiworkos.Base.Table.{find}
use aiworkos.Base.Loop.{each-related, filter-found, filter-IsKeyed}
use aiworkos.Base.Result.{ok, each, returned, passed, raise_if, same_state, same_value, br_w_13}
use aiworkos.Platform.Authz.Model.{Action, ResourceType, Decision}
use aiworkos.Work.Vocabulary.{assignment_role_eq, assignment_status_eq}
use aiworkos.Work.Rows.{Work, WorkAssignment, assignments_table, works_table}
use aiworkos.Work.Store.{Store, WorkContext, org_of, authorize_work, load}
use aiworkos.Work.Queries.{assignments_for_work}
use aiworkos.Work.Relations.{reach_of, work_project, assignment_creation_relations}
use aiworkos.Work.Service.Commands.{SetOwner, ReassignOwner}
use aiworkos.Work.Service.Assignments.{
  ended_assignment, end_assignment, is_incumbent, end_incumbent, reassign_owner, incumbent_of,
  vacate, set_owner,
}
use aiworkos.Work.Service.Steps.{TableSteps, stay, then_step, one_step, TableSteps-trans}
use aiworkos.Work.Service.Effects.{update-others}
use aiworkos.Work.Service.Keyed.{Keyed}
use aiworkos.Work.Service.Refines.Assignments.{
  create_assignment-TableStep, Ended, end_assignment-Ended, Ended-TableStep,
}

pub end_incumbent-cases :
    (ctx : WorkContext) (decision : Decision) (a : WorkAssignment) (s s' : Store)
    → end_incumbent ctx decision a s ≡ ok s'
    → ((is_incumbent a ≡ false) × (s ≡ s'))
      ⊎ ((row : WorkAssignment) × Ended ctx a decision a.version s row s')
end_incumbent-cases ctx decision a s s' h = elim (Bool-cases (is_incumbent a)) [
  | inr other ↦ inl (other, same_value (rw other at h))
  | inl owner ↦
      let ((row, t), e, k) =
        returned (end_assignment ctx a decision a.version s) _ (rw owner at h) in
      let same : t ≡ s' = same_value k in
      inr (
        row,
        end_assignment-Ended ctx a decision a.version s row s' (e ∙ ap (λ u. ok (row, u)) same),
      )
]

module _ (reactivating : Bool) (ctx : WorkContext) (decision : Decision) where
  end_incumbent-TableSteps :
      (a : WorkAssignment) (s s' : Store)
      → end_incumbent ctx decision a s ≡ ok s'
      → find assignments_table.id a.id s.assignments ≡ some a
      → TableSteps reactivating s s'
  end_incumbent-TableSteps a s s' h there = elim (end_incumbent-cases ctx decision a s s' h) [
    | inl (other, same) ↦ subst (TableSteps reactivating s) same stay
    | inr (row, e) ↦
        one_step (Ended-TableStep reactivating ctx a decision a.version s row s' there e)
  ]

  end_incumbent-others :
      (a : WorkAssignment) (s s' : Store)
      → end_incumbent ctx decision a s ≡ ok s'
      → (i : ℕ) → (i == a.id) ≡ false
      → find assignments_table.id i s'.assignments ≡ find assignments_table.id i s.assignments
  end_incumbent-others a s s' h i other = elim (end_incumbent-cases ctx decision a s s' h) [
    | inl (role, same) ↦ ap (λ (u : Store). find assignments_table.id i u.assignments) (sym same)
    | inr (row, e) ↦
        ap (λ (u : Store). find assignments_table.id i u.assignments) (sym e.result)
        ∙ update-others assignments_table (org_of ctx) a.id a.version (ended_assignment ctx.now)
            s.assignments row e.rows (λ y. refl) e.wrote i other
  ]

  -- A loop over the assignments of a Work ends the owners among them.
  pub vacated-TableSteps :
      (work_id : ℕ) (s s' : Store)
      → Keyed s
      → each (assignments_for_work (org_of ctx) work_id s) (end_incumbent ctx decision) s ≡ ok s'
      → TableSteps reactivating s s'
  vacated-TableSteps work_id s s' keyed h =
      let key = assignments_table.id in
      let of_work = λ (a : WorkAssignment). (a.org_id == org_of ctx) && (a.work_id == work_id) in
      each-related key (λ (u : Store). u.assignments) (end_incumbent ctx decision)
        (TableSteps reactivating) (λ u. stay) TableSteps-trans end_incumbent-TableSteps
        end_incumbent-others (assignments_for_work (org_of ctx) work_id s) s s' h
        (filter-found key of_work s.assignments keyed.assignments)
        (filter-IsKeyed key of_work s.assignments keyed.assignments)

pub reassign_owner-TableSteps :
    (reactivating : Bool) (ctx : WorkContext) (new_id : ℕ) (command : ReassignOwner) (s : Store)
    (row : WorkAssignment) (s' : Store)
    → Keyed s
    → reassign_owner ctx new_id command s ≡ ok (row, s')
    → TableSteps reactivating s s'
unfolding reassign_owner
reassign_owner-TableSteps r ctx new_id command s row s' keyed h =
    let (w, e1, h1) = returned (load works_table ctx command.work_id s.works) _ h in
    let (decision, e2, h2) =
      returned
        (authorize_work ctx Action.reassign ResourceType.work_assignment
          (assignment_creation_relations (reach_of ctx s) w (work_project w s) none) none)
        _ h1 in
    let (t, e3, h3) =
      returned (each (assignments_for_work (org_of ctx) w.id s) (end_incumbent ctx decision) s) _
        h2 in
    then_step (vacated-TableSteps r ctx decision w.id s t keyed e3)
      (create_assignment-TableStep r ctx new_id w _ decision t row s' h3)

-- The incumbent is one of the rows that were read.
incumbent-found :
    (rows xs : List WorkAssignment) (a : WorkAssignment)
    → All (λ y. find assignments_table.id y.id rows ≡ some y) xs
    → incumbent_of xs ≡ some a
    → find assignments_table.id a.id rows ≡ some a
incumbent-found rows [] a found h = absurd (cc h)
incumbent-found rows (x ∷ xs) a found h = elim (Bool-cases (is_incumbent x)) [
  | inl here ↦
      let same : x ≡ a = ground arith in
      subst (λ y. find assignments_table.id y.id rows ≡ some y) same found.0
  | inr later ↦ incumbent-found rows xs a found.1 (ground arith)
]

vacate-TableSteps :
    (reactivating : Bool) (ctx : WorkContext) (w : Work) (person_id : ℕ)
    (incumbent : Option WorkAssignment) (s : Store) (decision : Decision) (s' : Store)
    → ((a : WorkAssignment)
        → incumbent ≡ some a
        → find assignments_table.id a.id s.assignments ≡ some a)
    → vacate ctx w person_id incumbent s ≡ ok (decision, s')
    → TableSteps reactivating s s'
unfolding vacate
vacate-TableSteps r ctx w person_id none s decision s' found h =
    let (d, e1, h1) =
      returned
        (authorize_work ctx Action.assign ResourceType.work_assignment
          (assignment_creation_relations (reach_of ctx s) w (work_project w s) (some person_id))
          none)
        _ h in
    subst (TableSteps r s) (same_state h1) stay
vacate-TableSteps r ctx w person_id (some a) s decision s' found h =
    let (e1, h1) = passed (raise_if (a.person_id == person_id) br_w_13) _ h in
    let (d, e2, h2) =
      returned
        (authorize_work ctx Action.reassign ResourceType.work_assignment
          (assignment_creation_relations (reach_of ctx s) w (work_project w s) none) none)
        _ h1 in
    let ((row, t), e3, h3) = returned (end_assignment ctx a d a.version s) _ h2 in
    subst (TableSteps r s) (same_state h3) (
      one_step (
        Ended-TableStep r ctx a d a.version s row t (found a refl)
          (end_assignment-Ended ctx a d a.version s row t e3)))

pub set_owner-TableSteps :
    (reactivating : Bool) (ctx : WorkContext) (new_id : ℕ) (command : SetOwner) (s : Store)
    (row : WorkAssignment) (s' : Store)
    → Keyed s
    → set_owner ctx new_id command s ≡ ok (row, s')
    → TableSteps reactivating s s'
unfolding set_owner
set_owner-TableSteps r ctx new_id command s row s' keyed h =
    let (w, e1, h1) = returned (load works_table ctx command.work_id s.works) _ h in
    let rows = assignments_for_work (org_of ctx) w.id s in
    let of_work = λ (a : WorkAssignment). (a.org_id == org_of ctx) && (a.work_id == w.id) in
    let ((decision, t), e2, h2) =
      returned (vacate ctx w command.person_id (incumbent_of rows) s) _ h1 in
    then_step
      (vacate-TableSteps r ctx w command.person_id (incumbent_of rows) s decision t
        (λ a.
          incumbent-found s.assignments rows a
            (filter-found assignments_table.id of_work s.assignments keyed.assignments))
        e2)
      (create_assignment-TableStep r ctx new_id w _ decision t row s' h2)
