-- ===== src/Work/Assignment/Seats.antt =====
-- The seats of a Work: its active assignments, before and after an accepted one is added.
use mathlib.Core.Path.{subst₂}
use aiworkos.Base.{
  ℕ, ◌≤◌, ◌≡◌, refl, Bool, true, false, ◌&&◌, some, List, [], ◌∷◌, ◌++◌, arith, ◌==◌, ◌<◌, ◌↔◌,
  nat_eq, any, filter, count, count-append,
}
use aiworkos.Base.Result.{ok}
use aiworkos.Identity.Vocabulary.{PersonStatus, person_status_eq}
use aiworkos.Work.Vocabulary.{
  AssignmentRole, AssignmentStatus, assignment_role_eq, assignment_status_eq,
}
use aiworkos.Work.Assignment.{
  ExistingAssignment, is_active, is_owner, holds, validate_assignment, current_owner,
}

-- How many active assignments pass a test.
abbrev pub seats : (ExistingAssignment → Bool) → List ExistingAssignment → ℕ
seats p = count (λ a. is_active a && p a)

pub record IsSeated (xs : List ExistingAssignment) : Type 0 where
  pub one_owner : seats is_owner xs ≤ 1
  pub one_primary : seats (λ a. a.is_primary) xs ≤ 1
  pub distinct : (person_id : ℕ) (role : AssignmentRole) → seats (holds person_id role) xs ≤ 1

seats-zero :
    (p : ExistingAssignment → Bool) (xs : List ExistingAssignment)
    → any p (filter is_active xs) ≡ false
    → seats p xs ≡ 0
seats-zero p [] h = refl
seats-zero p (a ∷ xs) h = ground (arith, seats-zero p xs)

-- One more active assignment takes no seat that is taken, if the test says so where it applies.
seats-snoc :
    (p : ExistingAssignment → Bool) (xs : List ExistingAssignment) (a : ExistingAssignment)
    → seats p xs ≤ 1
    → (p a ≡ true → any p (filter is_active xs) ≡ false)
    → seats p (xs ++ a ∷ []) ≤ 1
seats-snoc p xs a few free =
    ground (arith, count-append (λ b. is_active b && p b) xs (a ∷ []), seats-zero p xs)

-- The assignment that the service inserts once the check has passed.
abbrev pub assigned : ℕ → AssignmentRole → Bool → ExistingAssignment
assigned person_id role is_primary = record {
  person_id = person_id;
  role = role;
  status = AssignmentStatus.active;
  is_primary = is_primary;
}

module _ (p : ℕ) (r : AssignmentRole) (primary : Bool) (st : PersonStatus)
    (xs : List ExistingAssignment) (accepted : validate_assignment p r primary st xs ≡ ok tt) where
  owner_free : (r == AssignmentRole.owner) ≡ true → any is_owner (filter is_active xs) ≡ false
  unfolding validate_assignment
  owner_free h = ground arith

  holder_free : any (holds p r) (filter is_active xs) ≡ false
  unfolding validate_assignment
  holder_free = ground arith

  primary_free : primary ≡ true → any (λ a. a.is_primary) (filter is_active xs) ≡ false
  unfolding validate_assignment
  primary_free h = ground arith

  holder_free_at :
      (q : ℕ) (s : AssignmentRole)
      → holds q s (assigned p r primary) ≡ true
      → any (holds q s) (filter is_active xs) ≡ false
  holder_free_at q s h =
      let same_person : p ≡ q = (nat_eq.beq_iff p q).0 (ground arith) in
      let same_role : r ≡ s = (assignment_role_eq.beq_iff r s).0 (ground arith) in
      subst₂ (λ q' s'. any (holds q' s') (filter is_active xs) ≡ false) same_person same_role
        holder_free

-- An accepted assignment keeps the seats in order: at most one active owner, at most one active
-- primary, and no person twice in one role.
pub validate_assignment-IsSeated :
    (person_id : ℕ) (role : AssignmentRole) (is_primary : Bool) (person_status : PersonStatus)
    (xs : List ExistingAssignment)
    → IsSeated xs
    → validate_assignment person_id role is_primary person_status xs ≡ ok tt
    → IsSeated (xs ++ assigned person_id role is_primary ∷ [])
validate_assignment-IsSeated p r primary st xs seated h =
    let new = assigned p r primary in
    record {
      one_owner = seats-snoc is_owner xs new seated.one_owner (owner_free p r primary st xs h);
      one_primary =
          seats-snoc (λ a. a.is_primary) xs new seated.one_primary
            (primary_free p r primary st xs h);
      distinct = λ q s.
          seats-snoc (holds q s) xs new (seated.distinct q s)
            (holder_free_at p r primary st xs h q s);
    }

seats-holds-le :
    (p : ℕ) (xs : List ExistingAssignment)
    → seats (holds p AssignmentRole.owner) xs ≤ seats is_owner xs
seats-holds-le p [] = omega arith
seats-holds-le p (a ∷ xs) = ground (arith, seats-holds-le p xs)

owner_found :
    (p : ℕ) (xs : List ExistingAssignment)
    → seats is_owner xs ≤ 1
    → (current_owner xs ≡ some p) ↔ (0 < seats (holds p AssignmentRole.owner) xs)
unfolding current_owner
owner_found p [] h = (λ e. cc, λ l. absurd (omega arith))
owner_found p (a ∷ xs) h = (
  λ e. ground (arith, owner_found p xs, seats-holds-le p xs),
  λ l. ground (arith, owner_found p xs, seats-holds-le p xs),
)

-- Where the seats are in order, the current owner is the person who holds an active owner
-- assignment: nobody else is answered, and nobody who holds one is missed.
pub current_owner_iff :
    (person_id : ℕ) (xs : List ExistingAssignment)
    → IsSeated xs
    → (current_owner xs ≡ some person_id) ↔ (0 < seats (holds person_id AssignmentRole.owner) xs)
current_owner_iff p xs seated = owner_found p xs seated.one_owner
