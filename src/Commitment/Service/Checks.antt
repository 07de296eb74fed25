-- ===== src/Commitment/Service/Checks.antt =====
-- The checks of CommitmentService against the constraints of its table, and its read.
use aiworkos.Base.{
  ℕ, ◌≡◌, refl, ap, sym, subst, ◌∙◌, ◌≢◌, ◌⊎◌, inl, inr, Bool, true, false, not, ◌&&◌, Option, none,
  some, List, [], ◌∷◌, arith, ◌==◌, nat_eq, any, filter, Bool-cases, Option-cases,
}
use aiworkos.Base.Text.{Text, is_space, strip, is_empty}
use aiworkos.Base.Strip.{strip-visible}
use aiworkos.Base.Table.{find, update_where, key-find}
use aiworkos.Base.Result.{Result, ok, err, ◌>>=◌, ◌>>◌, integrity_error, Error}
use aiworkos.Platform.Repository.{get, update}
use aiworkos.Platform.Authz.Model.{Action, Principal, ResourceRef, Decision}
use aiworkos.Platform.Authz.Policy.{can, authorize}
use aiworkos.Commitment.Vocabulary.{DuePrecision, commitment_status_eq, due_precision_eq}
use aiworkos.Commitment.Domain.{validate_creation, is_missed}
use aiworkos.Commitment.Repository.{
  Commitment, commitment_id, has_text, satisfies_constraints, due_for_missing, insert_commitment,
  update_commitment, constrained, commitments_table,
}
use aiworkos.Commitment.Service.{
  new_commitment, create, overdue_today, has_evidence, edited, load_at, authorize_action,
  commitment_relations, update_details, assert_exists, assert_references,
}
use aiworkos.Commitment.Store.{
  CreateCommitment, Store, ServiceContext, References, is_ai_actor, UpdateCommitment,
}
use aiworkos.Commitment.Service.Outcomes.{Loaded, loaded}

visible_ne_space : (c : ℕ) → is_space c ≡ false → (c == 32) ≡ false
visible_ne_space c h = elim (Bool-cases (c == 32)) [
  | inl same ↦ absurd (cc (sym h ∙ ap is_space ((nat_eq.beq_iff c 32).0 same)))
  | inr other ↦ other
]

any-weaken :
    (p q : ℕ → Bool) (xs : Text)
    → ((c : ℕ) → p c ≡ true → q c ≡ true)
    → any p xs ≡ true
    → any q xs ≡ true
any-weaken p q [] f h = absurd (cc h)
any-weaken p q (x ∷ xs) f h = elim (Bool-cases (p x)) [
  | inl kept ↦ rw (f x kept) refl
  | inr dropped ↦ elim (Bool-cases (q x)) [
    | inl found ↦ rw found refl
    | inr missed ↦ rw missed (any-weaken p q xs f (rw dropped at h))
  ]
]

has_text-of_visible : (text : Text) → any (λ c. not (is_space c)) text ≡ true → has_text text ≡ true
has_text-of_visible text h =
    any-weaken (λ c. not (is_space c)) (λ c. not (c == 32)) text
      (λ c v. ap not (visible_ne_space c (not_true (is_space c) v))) h
  where
    not_true : (b : Bool) → not b ≡ true → b ≡ false
    not_true b e = ground arith

has_text-strip : (text : Text) → is_empty (strip text) ≡ false → has_text (strip text) ≡ true
has_text-strip text h = has_text-of_visible (strip text) (strip-visible text h)

-- Whatever creation lets through, the table's constraints let through.
pub validate_creation-constraints :
    (ctx : ServiceContext) (refs : References) (new_id : ℕ) (command : CreateCommitment)
    → validate_creation command.statement command.committed_to_person_id
        command.committed_to_team_id command.due_date command.due_precision command.confidence
        (has_evidence ctx refs command.evidence_ids)
        (is_ai_actor ctx)
      ≡ ok tt
    → satisfies_constraints (new_commitment ctx refs new_id command) ≡ true
unfolding validate_creation satisfies_constraints
validate_creation-constraints ctx refs new_id command h =
    ground (arith, has_text-strip command.statement)

filter-filter :
    (p q r : Commitment → Bool) (xs : List Commitment)
    → ((c : Commitment) → (q c && p c) ≡ r c)
    → filter p (filter q xs) ≡ filter r xs
filter-filter p q r [] same = refl
filter-filter p q r (x ∷ xs) same = ground (arith, same x, filter-filter p q r xs same)

-- What is overdue is exactly the organization's promises that `is_missed` holds of: the query that
-- goes before it leaves none of them out.
pub overdue_today_lem :
    (ctx : ServiceContext) (refs : References) (today : ℕ) (s : Store)
    → overdue_today ctx refs today s
      ≡ filter
          (λ c.
            (c.org_id == ctx.principal.org_id)
            && is_missed c.status c.due_date c.due_precision today)
          s.commitments
unfolding overdue_today due_for_missing is_missed
overdue_today_lem ctx refs today s =
    filter-filter (λ c. is_missed c.status c.due_date c.due_precision today) _
      (λ c.
        (c.org_id == ctx.principal.org_id) && is_missed c.status c.due_date c.due_precision today)
      s.commitments
      (λ c. elim (Option-cases c.due_date) [ inl e ↦ ground arith | inr (d, e) ↦ ground arith ])

-- A sequence that raised: its first call did, or what came after it.
raised_by :
    {A B : Type 0} (call : Result A) (then_do : A → Result B) (e : Error)
    → (call >>= then_do) ≡ err e
    → (call ≡ err e) ⊎ ((a : A) × (call ≡ ok a) × (then_do a ≡ err e))
raised_by (err x) then_do e h = inl (cc h)
raised_by (ok a) then_do e h = inr (a, refl, h)

authorize_raises :
    (principal : Principal) (action : Action) (resource : ResourceRef)
    → authorize principal action resource ≢ err integrity_error
unfolding authorize
authorize_raises principal action resource h =
    elim (Bool-cases (can principal action resource).allowed) [
      | inl allowed ↦ ground arith
      | inr refused ↦ ground arith
    ]

creation_raises :
    (ctx : ServiceContext) (refs : References) (command : CreateCommitment)
    → validate_creation command.statement command.committed_to_person_id
        command.committed_to_team_id command.due_date command.due_precision command.confidence
        (has_evidence ctx refs command.evidence_ids)
        (is_ai_actor ctx)
      ≢ err integrity_error
unfolding validate_creation
creation_raises ctx refs command h = ground arith

exists_raises :
    (exists : ℕ → Bool) (id : Option ℕ) {rest : Result (Unit {0})}
    → rest ≢ err integrity_error
    → (assert_exists exists id >> rest) ≢ err integrity_error
exists_raises exists id later h = ground (arith, later)

references_raise :
    (ctx : ServiceContext) (refs : References) (command : CreateCommitment)
    → assert_references ctx refs command ≢ err integrity_error
references_raise ctx refs command =
    let org_id = ctx.principal.org_id in
    exists_raises (refs.person_exists org_id) (some command.committed_by_person_id) (
      exists_raises (refs.person_exists org_id) command.committed_to_person_id (
        exists_raises (refs.team_exists org_id) command.committed_to_team_id (
          exists_raises (refs.work_exists org_id) command.fulfilling_work_id (
            exists_raises (refs.project_exists org_id) command.project_id
              (last_raises (refs.event_exists org_id) command.origin_event_id)))))
  where
    last_raises :
        (exists : ℕ → Bool) (id : Option ℕ) → assert_exists exists id ≢ err integrity_error
    last_raises exists id h = ground arith

-- Under an id that is free, `create` never fails on the table's constraints.
pub create_raises_no_integrity_error :
    (ctx : ServiceContext) (refs : References) (new_id : ℕ) (command : CreateCommitment) (s : Store)
    → find commitment_id new_id s.commitments ≡ none
    → create ctx refs new_id command s ≢ err integrity_error
unfolding create insert_commitment
create_raises_no_integrity_error ctx refs new_id command s fresh h =
    elim (raised_by (authorize_action ctx refs Action.create [] none) _ integrity_error h) [
      | inl e ↦ authorize_raises ctx.principal Action.create _ e
      | inr (d, _, h1) ↦
          elim (raised_by
            (validate_creation command.statement command.committed_to_person_id
              command.committed_to_team_id command.due_date command.due_precision command.confidence
              (has_evidence ctx refs command.evidence_ids) (is_ai_actor ctx))
            _ integrity_error h1) [
              | inl e ↦ creation_raises ctx refs command e
              | inr (u, valid, h2) ↦
                  elim (raised_by (assert_references ctx refs command) _ integrity_error h2) [
                    | inl e ↦ references_raise ctx refs command e
                    | inr (v, _, h3) ↦
                        cc
                          (h3, fresh, validate_creation-constraints ctx refs new_id command (valid))
                  ]
            ]
    ]

-- A guarded update of a row at its version is refused by the table if its new values break a
-- constraint.
constraint_refuses :
    (ctx : ServiceContext) (id expected : ℕ) (g : Commitment → Commitment) (rows : List Commitment)
    (row : Commitment)
    → Loaded ctx id expected rows row
    → satisfies_constraints (commitments_table.bump (g row)) ≡ false
    → update_commitment ctx.principal.org_id row.id expected g rows ≡ err integrity_error
unfolding update_commitment update get
constraint_refuses ctx id expected g rows row l broken =
    let at : row.id ≡ id = key-find commitment_id id rows row l.there in
    let again : find commitment_id row.id rows ≡ some row =
      subst (λ i. find commitment_id i rows ≡ some row) (sym at) l.there in
    let org = (nat_eq.beq_iff row.org_id ctx.principal.org_id).1 l.in_org in
    let version = (nat_eq.beq_iff row.version expected).1 l.at_version in
    let written : update commitments_table ctx.principal.org_id row.id expected g rows
        ≡ ok (
          commitments_table.bump (g row),
          update_where commitment_id row.id (λ y. commitments_table.bump (g y)) rows,
        ) =
      ground (arith, again, org, version) in
    ap (λ r. r >>= constrained) written ∙ rw broken refl

undated :
    (ctx : ServiceContext) (refs : References) (command : UpdateCommitment) (row : Commitment)
    → row.due_date ≡ none
    → command.due_precision ≡ some DuePrecision.exact
    → satisfies_constraints (commitments_table.bump (edited ctx refs command row)) ≡ false
unfolding satisfies_constraints
undated ctx refs command row h k = ground (arith, h, k)

-- An authorized edit at the expected version, of a promise that has no date, that names an exact
-- precision and nothing else, ends in an integrity error of the table and not in a violation of a
-- rule.
pub update_details_leaves_precision_to_the_table :
    (ctx : ServiceContext) (refs : References) (command : UpdateCommitment) (s : Store)
    (row : Commitment) (d : Decision)
    → load_at ctx refs command.commitment_id command.expected_version s.commitments ≡ ok row
    → authorize_action ctx refs Action.update
        (commitment_relations row ctx.actor.person_id)
        (some row.id)
      ≡ ok d
    → row.due_date ≡ none
    → command.due_date ≡ none
    → command.statement ≡ none
    → command.fulfilling_work_id ≡ none
    → command.project_id ≡ none
    → command.due_precision ≡ some DuePrecision.exact
    → update_details ctx refs command s ≡ err integrity_error
unfolding update_details
update_details_leaves_precision_to_the_table ctx refs command s row d e1 e2 h1 h2 h3 h4 h5 h6 =
    let org_id = ctx.principal.org_id in
    let l = loaded ctx refs command.commitment_id command.expected_version s.commitments row e1 in
    let broken : satisfies_constraints (commitments_table.bump (edited ctx refs command row))
        ≡ false =
      undated ctx refs command row h1 h6 in
    rw (e1, e2, h2, h3, h4, h5)
      (rw
        (rw (h2, h3, h4, h5) at
          (constraint_refuses ctx command.commitment_id command.expected_version
            (edited ctx refs command) s.commitments row l broken))
        refl)
