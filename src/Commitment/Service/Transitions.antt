-- ===== src/Commitment/Service/Transitions.antt =====
-- `change_status`: what it has done when it returns.
use aiworkos.Base.{
  ℕ, ◌≡◌, refl, sym, Bool, true, is_some, ◌≢◌, Option, none, some, arith, ◌==◌, nat_eq, option_eq,
  subst,
}
use aiworkos.Base.Table.{find}
use aiworkos.Base.Result.{ok, returned, passed, when-passed, when}
use aiworkos.Platform.Authz.Model.{Action}
use aiworkos.Commitment.Vocabulary.{CommitmentStatus, commitment_status_eq}
use aiworkos.Commitment.Domain.{
  validate_transition, validate_renegotiation, assert_fulfilment_is_approved,
}
use aiworkos.Commitment.Domain.Machine.{CommitmentStep, validate_transition_iff}
use aiworkos.Commitment.Repository.{Commitment, commitments_table, commitment_id, update_commitment}
use aiworkos.Commitment.Service.{
  authority_of, recorded, authorize_action, commitment_relations, load_at, moved, change_status,
}
use aiworkos.Commitment.Store.{
  ChangeCommitmentStatus, snapshot, CommitmentEvent, Store, ServiceContext, References, is_ai_actor,
}
use aiworkos.Commitment.Service.Rows.{IsEntitled, authority-IsEntitled, IsMoved, moved-IsMoved}
use aiworkos.Commitment.Service.Effects.{Recorded, wrote, authorized, ok_injective, Recorded-wrote}
use aiworkos.Commitment.Service.Outcomes.{loaded, written_row}

-- What a status change that returned did: one edge of the machine, by someone with authority, with
-- what each target asks for, and what each target sets.
pub record Moved (ctx : ServiceContext) (refs : References) (now : ℕ)
    (command : ChangeCommitmentStatus) (s : Store) (c : Commitment) (s' : Store) : Type 0 where
  pub row : Commitment
  pub was_there : find commitment_id command.commitment_id s.commitments ≡ some row
  pub in_org : row.org_id ≡ ctx.principal.org_id
  pub at_version : row.version ≡ command.expected_version
  pub step : CommitmentStep row.status command.target
  pub authority : IsEntitled ctx.actor.person_id ctx.leads_team_ids row
  pub approved :
      command.target ≡ CommitmentStatus.fulfilled
      → is_some ctx.actor.ai_interaction_id ≡ true
      → is_some command.approval_record_id ≡ true
  pub new_date :
      command.target ≡ CommitmentStatus.renegotiated
      → (is_some command.new_due_date ≡ true) × (command.new_due_date ≢ row.due_date)
  pub result : c ≡ commitments_table.bump (moved ctx refs now command row row)
  pub effect : IsMoved now command row c
  pub recorded :
      Recorded ctx Action.change_state
        (some (snapshot row))
        (CommitmentEvent.became command.target)
        s
        c
        s'

approval_given :
    (by_ai has_approval : Bool)
    → assert_fulfilment_is_approved by_ai has_approval ≡ ok tt
    → by_ai ≡ true
    → has_approval ≡ true
unfolding assert_fulfilment_is_approved
approval_given by_ai has_approval h ai = ground arith

date_moved :
    (current : CommitmentStatus) (new_due_date previous : Option ℕ)
    → validate_renegotiation current new_due_date previous ≡ ok tt
    → (is_some new_due_date ≡ true) × (new_due_date ≢ previous)
unfolding validate_renegotiation
date_moved current none previous h = absurd (ground arith)
date_moved current (some new) none h = (refl, λ e. cc e)
date_moved current (some new) (some old) h = (refl, λ e. ground (arith, e, nat_eq.beq_iff new old))

-- A status change that returns has found the row at the expected version, in the caller's
-- organization. The target is one edge of the machine further; the caller made the promise, was
-- promised it, or leads the team that was; it names an approval record where it fulfils the promise
-- in an AI interaction, and another due date where it renegotiates it. The row has the target as its
-- status, one version further; it is acknowledged now if it is opened for the first time, has the new
-- date and keeps the old one if it is renegotiated, and is otherwise as it was. It is recorded once.
pub change_status-Moved :
    (ctx : ServiceContext) (refs : References) (now : ℕ) (command : ChangeCommitmentStatus)
    (s : Store) (c : Commitment) (s' : Store)
    → change_status ctx refs now command s ≡ ok (c, s')
    → Moved ctx refs now command s c s'
unfolding change_status
change_status-Moved ctx refs now command s c s' h =
    let (row, e1, h1) =
      returned (load_at ctx refs command.commitment_id command.expected_version s.commitments) _
        h in
    let (d, e2, h2) =
      returned
        (authorize_action ctx refs Action.change_state
          (commitment_relations row ctx.actor.person_id) (some row.id))
        _ h1 in
    let authority = authority_of row ctx.actor.person_id ctx.leads_team_ids in
    let (e3, h3) = passed (validate_transition row.status command.target authority) _ h2 in
    let approval =
      assert_fulfilment_is_approved (is_ai_actor ctx) (is_some command.approval_record_id) in
    let (e4, h4) = passed (when (command.target == CommitmentStatus.fulfilled) approval) _ h3 in
    let renegotiation = validate_renegotiation row.status command.new_due_date row.due_date in
    let (e5, h5) =
      passed (when (command.target == CommitmentStatus.renegotiated) renegotiation) _ h4 in
    let g = moved ctx refs now command row in
    let ((c0, rows), e6, h6) =
      returned
        (update_commitment ctx.principal.org_id row.id command.expected_version g s.commitments) _
        h5 in
    let l = loaded ctx refs command.commitment_id command.expected_version s.commitments row e1 in
    let image =
      written_row ctx command.commitment_id command.expected_version g s.commitments row c0 rows l
        (wrote ctx.principal.org_id row.id command.expected_version g s.commitments c0 rows e6) in
    let event = CommitmentEvent.became command.target in
    let same : recorded ctx refs Action.change_state (some (snapshot row)) d event s (c0, rows)
        ≡ (c, s') =
      ok_injective h6 in
    let (step, may) = (validate_transition_iff authority row.status command.target).0 e3 in
    let is = commitment_status_eq.beq_iff command.target in
    subst (λ (x : Commitment × Store). Moved ctx refs now command s x.0 x.1) same
      (record {
        row = row;
        was_there = l.there;
        in_org = l.in_org;
        at_version = l.at_version;
        step = step;
        authority = authority-IsEntitled ctx.actor.person_id ctx.leads_team_ids row may;
        approved = λ t ai.
            approval_given (is_ai_actor ctx) (is_some command.approval_record_id)
              (when-passed (command.target == CommitmentStatus.fulfilled) approval e4
                ((is CommitmentStatus.fulfilled).1 t))
              ai;
        new_date = λ t. date_moved row.status command.new_due_date row.due_date (
            when-passed (command.target == CommitmentStatus.renegotiated) renegotiation e5
              ((is CommitmentStatus.renegotiated).1 t));
        result = image;
        effect =
            subst (IsMoved now command row) (sym image) (moved-IsMoved ctx refs now command row);
        recorded =
            Recorded-wrote ctx refs Action.change_state s d
              (authorized ctx.principal Action.change_state _ d e2) event (some (snapshot row))
              row.id command.expected_version g c0 rows (λ x. refl) e6;
      })
