-- ===== src/Work/Service/Seating.antt =====
-- The seats of every Work, and the graph of the dependencies, under the use cases that change them.
use mathlib.Core.Path.{subst₂}
use aiworkos.Base.{
  ℕ, ◌≤◌, ◌≡◌, refl, ap, sym, subst, ◌∙◌, inl, inr, Bool, some, List, [], ◌∷◌, ◌++◌, ◌==◌, ◌&&◌,
  arith, nat_eq, map, filter, Bool-cases, if◌then◌else◌,
}
use aiworkos.Base.Table.{find, update_where, IsKeyed, sum_by, sum_by-update_where}
use aiworkos.Base.Result.{ok}
use aiworkos.Work.Vocabulary.{AssignmentStatus, assignment_role_eq, assignment_status_eq}
use aiworkos.Work.Assignment.{ExistingAssignment, is_active, is_owner, holds, validate_assignment}
use aiworkos.Work.Service.Keyed.{Keyed, TableSteps-Keyed}
use aiworkos.Work.Assignment.Seats.{seats, IsSeated, validate_assignment-IsSeated, assigned}
use aiworkos.Work.Rows.{WorkAssignment, assignments_table}
use aiworkos.Work.Store.{Store}
use aiworkos.Work.Queries.{existing, existing_assignments}
use aiworkos.Work.Service.Steps.{
  RowStep, inserted, updated, FreshAssignment, AssignmentMove, TableStep, on_project, on_milestone,
  on_work, on_assignment, on_dependency, TableSteps, stay, then_step,
}
use aiworkos.Work.Service.History.{History, History-TableSteps, empty_store, empty_store-Keyed}

abbrev pub of_work : ℕ → ℕ → WorkAssignment → Bool
of_work org_id work_id a = (a.org_id == org_id) && (a.work_id == work_id)

abbrev pub seats_of : ℕ → ℕ → List WorkAssignment → List ExistingAssignment
seats_of org_id work_id rows = map existing (filter (of_work org_id work_id) rows)

pub seats_of-append :
    (org_id work_id : ℕ) (rows : List WorkAssignment) (a : WorkAssignment)
    → seats_of org_id work_id (rows ++ a ∷ []) ≡ (
        if of_work org_id work_id a
        then seats_of org_id work_id rows ++ existing a ∷ []
        else seats_of org_id work_id rows)
seats_of-append org_id work_id [] a = elim (Bool-cases (of_work org_id work_id a)) [
  | inl here ↦ rw here refl
  | inr other ↦ rw other refl
]
seats_of-append org_id work_id (x ∷ rows) a = ground (arith, seats_of-append org_id work_id rows a)

-- What one row counts among the seats of a Work.
abbrev seat_share : (ExistingAssignment → Bool) → ℕ → ℕ → WorkAssignment → ℕ
seat_share p org_id work_id a =
    if of_work org_id work_id a && (is_active (existing a) && p (existing a)) then 1 else 0

seats-sum :
    (p : ExistingAssignment → Bool) (org_id work_id : ℕ) (rows : List WorkAssignment)
    → seats p (seats_of org_id work_id rows)
      ≡ sum_by assignments_table.id (seat_share p org_id work_id) rows
seats-sum p org_id work_id [] = refl
seats-sum p org_id work_id (a ∷ rows) = ground (arith, seats-sum p org_id work_id rows)

ended_share :
    (p : ExistingAssignment → Bool) (org_id work_id : ℕ) (a : WorkAssignment)
    → a.status ≡ AssignmentStatus.ended
    → seat_share p org_id work_id a ≡ 0
ended_share p org_id work_id a h = ground arith

-- Ending one assignment takes no seat.
ended-seats :
    (p : ExistingAssignment → Bool) (org_id work_id : ℕ) (rows : List WorkAssignment)
    (old : WorkAssignment) (g : WorkAssignment → WorkAssignment)
    → IsKeyed assignments_table.id rows
    → find assignments_table.id old.id rows ≡ some old
    → (g old).status ≡ AssignmentStatus.ended
    → seats p (seats_of org_id work_id (update_where assignments_table.id old.id g rows))
      ≤ seats p (seats_of org_id work_id rows)
ended-seats p org_id work_id rows old g keyed there ended =
    let share = seat_share p org_id work_id in
    omega (
      arith,
      seats-sum p org_id work_id rows,
      seats-sum p org_id work_id (update_where assignments_table.id old.id g rows),
      sum_by-update_where assignments_table.id share old.id g rows old keyed there,
      ended_share p org_id work_id (g old) ended,
    )

-- The seats of every Work of every organization.
abbrev pub IsSeatedAll : List WorkAssignment → Type 0
IsSeatedAll rows = (org_id work_id : ℕ) → IsSeated (seats_of org_id work_id rows)

fewer-IsSeated :
    (xs ys : List ExistingAssignment)
    → ((p : ExistingAssignment → Bool) → seats p ys ≤ seats p xs)
    → IsSeated xs
    → IsSeated ys
fewer-IsSeated xs ys fewer h = record {
  one_owner = omega (arith, fewer is_owner, h.one_owner);
  one_primary = omega (arith, fewer (λ a. a.is_primary), h.one_primary);
  distinct = λ q role. omega (arith, fewer (holds q role), h.distinct q role);
}

RowStep-IsSeatedAll :
    (s : Store) (rows' : List WorkAssignment) (row : WorkAssignment)
    → IsKeyed assignments_table.id s.assignments
    → RowStep assignments_table (FreshAssignment s) AssignmentMove s.assignments rows' row
    → IsSeatedAll s.assignments
    → IsSeatedAll rows'
RowStep-IsSeatedAll s rows' row keyed (inserted free fresh e) h org_id work_id =
    subst (λ rows. IsSeated (seats_of org_id work_id rows)) (sym e)
      (subst IsSeated (sym (seats_of-append org_id work_id s.assignments row))
        (elim (Bool-cases (of_work org_id work_id row)) [
          | inr elsewhere ↦ rw elsewhere (h org_id work_id)
          | inl here ↦
              let same_org : row.org_id ≡ org_id =
                (nat_eq.beq_iff row.org_id org_id).0 (ground arith) in
              let same_work : row.work_id ≡ work_id =
                (nat_eq.beq_iff row.work_id work_id).0 (ground arith) in
              let xs = seats_of org_id work_id s.assignments in
              let accepted =
                subst₂
                  (λ o w.
                    validate_assignment row.person_id row.role row.is_primary fresh.person_status
                      (seats_of o w s.assignments)
                    ≡ ok tt)
                  same_org same_work fresh.accepted in
              let new : assigned row.person_id row.role row.is_primary ≡ existing row =
                ap
                  (λ status. record {
                    person_id = row.person_id;
                    role = row.role;
                    status = status;
                    is_primary = row.is_primary;
                  })
                  (sym fresh.is_active) in
              rw here (
                subst (λ a. IsSeated (xs ++ a ∷ [])) new
                  (validate_assignment-IsSeated row.person_id row.role row.is_primary
                    fresh.person_status xs (h org_id work_id) accepted))
        ]))
RowStep-IsSeatedAll s rows' row keyed (updated old g keeps there is_new e moved) h org_id work_id =
    let bumped = λ (x : WorkAssignment). assignments_table.bump (g x) in
    let ended = ap (λ (a : WorkAssignment). a.status) (sym is_new) ∙ moved.now_ended in
    subst (λ rows. IsSeated (seats_of org_id work_id rows)) (sym e)
      (fewer-IsSeated (seats_of org_id work_id s.assignments) _
        (λ p. ended-seats p org_id work_id s.assignments old bumped keyed there ended)
        (h org_id work_id))

TableStep-IsSeatedAll :
    (r : Bool) (s s' : Store)
    → Keyed s
    → TableStep r s s'
    → IsSeatedAll s.assignments
    → IsSeatedAll s'.assignments
TableStep-IsSeatedAll r s s' k (on_project row rows' step logged e) h =
    subst (λ (u : Store). IsSeatedAll u.assignments) (sym e) h
TableStep-IsSeatedAll r s s' k (on_milestone row rows' step logged e) h =
    subst (λ (u : Store). IsSeatedAll u.assignments) (sym e) h
TableStep-IsSeatedAll r s s' k (on_work row rows' step logged e) h =
    subst (λ (u : Store). IsSeatedAll u.assignments) (sym e) h
TableStep-IsSeatedAll r s s' k (on_assignment row rows' step logged e) h =
    subst (λ (u : Store). IsSeatedAll u.assignments) (sym e)
      (RowStep-IsSeatedAll s rows' row k.assignments step h)
TableStep-IsSeatedAll r s s' k (on_dependency row rows' step logged e) h =
    subst (λ (u : Store). IsSeatedAll u.assignments) (sym e) h

pub TableSteps-IsSeatedAll :
    (r : Bool) (s t : Store)
    → Keyed s
    → TableSteps r s t
    → IsSeatedAll s.assignments
    → IsSeatedAll t.assignments
TableSteps-IsSeatedAll r s t k stay h = h
TableSteps-IsSeatedAll r s t k (then_step {mid = m} steps step) h =
    TableStep-IsSeatedAll r m t (TableSteps-Keyed r s m steps k) step
      (TableSteps-IsSeatedAll r s m k steps h)

-- In every store that committed use cases lead to from the empty one, each Work has at most one
-- active owner and at most one active primary assignment, and nobody holds one role on it twice.
pub History-IsSeated :
    (reactivating : Bool) (s : Store) (org_id work_id : ℕ)
    → History reactivating empty_store s
    → IsSeated (existing_assignments org_id work_id s)
History-IsSeated r s org_id work_id history =
    TableSteps-IsSeatedAll r empty_store s empty_store-Keyed
      (History-TableSteps r empty_store s empty_store-Keyed history)
      (λ o w. record {
        one_owner = omega arith;
        one_primary = omega arith;
        distinct = λ q x. omega arith;
      })
      org_id work_id
