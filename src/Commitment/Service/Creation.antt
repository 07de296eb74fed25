-- ===== src/Commitment/Service/Creation.antt =====
-- `create`: what it has done when it returns.
use aiworkos.Base.{
  ℕ, ◌≡◌, Bool, true, Option, sym, refl, none, some, [], arith, nat_eq, option_eq, subst,
}
use aiworkos.Base.Table.{find}
use aiworkos.Base.Result.{ok, returned, passed}
use aiworkos.Platform.Authz.Model.{Action}
use aiworkos.Commitment.Vocabulary.{commitment_status_eq}
use aiworkos.Commitment.Domain.{validate_creation}
use aiworkos.Commitment.Repository.{Commitment, commitment_id, insert_commitment}
use aiworkos.Commitment.Service.{
  new_commitment, recorded, authorize_action, has_evidence, assert_references, assert_exists,
  create,
}
use aiworkos.Commitment.Store.{
  CreateCommitment, CommitmentEvent, Store, ServiceContext, References, is_ai_actor,
}
use aiworkos.Commitment.Service.Rows.{IsCreated, new_commitment-IsCreated}
use aiworkos.Commitment.Service.Effects.{Recorded, authorized, ok_injective, Recorded-inserted}

-- `assert_exists` that passed.
pub assert_exists-found :
    (exists : ℕ → Bool) (id : Option ℕ)
    → assert_exists exists id ≡ ok tt
    → (x : ℕ) → id ≡ some x
    → exists x ≡ true
assert_exists-found exists none h x e = absurd (cc e)
assert_exists-found exists (some y) h x e =
    let same : y ≡ x = cc e in subst (λ z. exists z ≡ true) same (ground (arith, h))

-- What a promise names is in the caller's organization.
pub record IsReferenced (refs : References) (org_id : ℕ) (c : Commitment) : Type 0 where
  pub committer : refs.person_exists org_id c.committed_by_person_id ≡ true
  pub recipient : (x : ℕ) → c.committed_to_person_id ≡ some x → refs.person_exists org_id x ≡ true
  pub team : (x : ℕ) → c.committed_to_team_id ≡ some x → refs.team_exists org_id x ≡ true
  pub work : (x : ℕ) → c.fulfilling_work_id ≡ some x → refs.work_exists org_id x ≡ true
  pub project : (x : ℕ) → c.project_id ≡ some x → refs.project_exists org_id x ≡ true
  pub origin : (x : ℕ) → c.origin_event_id ≡ some x → refs.event_exists org_id x ≡ true

new_commitment-IsReferenced :
    (ctx : ServiceContext) (refs : References) (new_id : ℕ) (command : CreateCommitment)
    → assert_references ctx refs command ≡ ok tt
    → IsReferenced refs ctx.principal.org_id (new_commitment ctx refs new_id command)
new_commitment-IsReferenced ctx refs new_id command h =
    let org = ctx.principal.org_id in
    let (e1, h1) =
      passed (assert_exists (refs.person_exists org) (some command.committed_by_person_id)) _ h in
    let (e2, h2) =
      passed (assert_exists (refs.person_exists org) command.committed_to_person_id) _ h1 in
    let (e3, h3) =
      passed (assert_exists (refs.team_exists org) command.committed_to_team_id) _ h2 in
    let (e4, h4) = passed (assert_exists (refs.work_exists org) command.fulfilling_work_id) _ h3 in
    let (e5, h5) = passed (assert_exists (refs.project_exists org) command.project_id) _ h4 in
    record {
      committer =
          assert_exists-found (refs.person_exists org) _ e1 command.committed_by_person_id refl;
      recipient = assert_exists-found (refs.person_exists org) _ e2;
      team = assert_exists-found (refs.team_exists org) _ e3;
      work = assert_exists-found (refs.work_exists org) _ e4;
      project = assert_exists-found (refs.project_exists org) _ e5;
      origin = assert_exists-found (refs.event_exists org) _ h5;
    }

-- A promise that was recorded has the command's values, under an id that was free, in the caller's
-- organization, captured, not yet confirmed and at version 1; the people, the team, the Work, the
-- Project and the event that it names exist there; and it is recorded once.
pub create-Recorded :
    (ctx : ServiceContext) (refs : References) (new_id : ℕ) (command : CreateCommitment) (s : Store)
    (c : Commitment) (s' : Store)
    → create ctx refs new_id command s ≡ ok (c, s')
    → (find commitment_id new_id s.commitments ≡ none)
      × IsCreated ctx new_id command c
      × IsReferenced refs ctx.principal.org_id c
      × Recorded ctx Action.create none CommitmentEvent.created s c s'
unfolding create
create-Recorded ctx refs new_id command s c s' h =
    let (d, e1, h1) = returned (authorize_action ctx refs Action.create [] none) _ h in
    let (e2, h2) =
      passed
        (validate_creation command.statement command.committed_to_person_id
          command.committed_to_team_id command.due_date command.due_precision command.confidence
          (has_evidence ctx refs command.evidence_ids) (is_ai_actor ctx))
        _ h1 in
    let (e3, h3) = passed (assert_references ctx refs command) _ h2 in
    let ((c0, rows), e4, h4) =
      returned (insert_commitment (new_commitment ctx refs new_id command) s.commitments) _ h3 in
    let same : recorded ctx refs Action.create none d CommitmentEvent.created s (c0, rows)
        ≡ (c, s') =
      ok_injective h4 in
    let new = new_commitment ctx refs new_id command in
    let (fresh, is_new, r) =
      Recorded-inserted ctx refs Action.create s d (authorized ctx.principal Action.create _ d e1)
        CommitmentEvent.created new c0 rows e4 in
    subst
      (λ (x : Commitment × Store).
        (find commitment_id new_id s.commitments ≡ none)
        × IsCreated ctx new_id command x.0
        × IsReferenced refs ctx.principal.org_id x.0
        × Recorded ctx Action.create none CommitmentEvent.created s x.0 x.1)
      same
      (
        fresh,
        subst (IsCreated ctx new_id command) (sym is_new)
            (new_commitment-IsCreated ctx refs new_id command),
        subst (IsReferenced refs ctx.principal.org_id) (sym is_new)
            (new_commitment-IsReferenced ctx refs new_id command e3),
        r,
      )
