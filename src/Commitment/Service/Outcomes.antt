-- ===== src/Commitment/Service/Outcomes.antt =====
-- The row that a write loads, and `update`: what it has done when it returns.
use aiworkos.Base.{
  ℕ, ◌≡◌, true, false, Option, sym, refl, ap, ◌∙◌, inl, inr, not, ◌&&◌, is_some, none, some, List,
  arith, ◌==◌, nat_eq, option_eq, Bool-cases, subst, Option-cases,
}
use aiworkos.Base.Table.{find, key-find}
use aiworkos.Base.Text.{Text, strip, is_empty}
use aiworkos.Base.Result.{ok, returned, passed, raise_if, not_raised, br_c_01, br_c_07}
use aiworkos.Platform.Authz.Model.{Action}
use aiworkos.Platform.Repository.{get}
use aiworkos.Commitment.Vocabulary.{commitment_status_eq}
use aiworkos.Commitment.Repository.{
  Commitment, commitments_table, commitment_id, get_commitment, update_commitment,
}
use aiworkos.Commitment.Service.{
  recorded, authorize_action, is_blank, assert_exists, commitment_relations, load_at, edited,
  update_details,
}
use aiworkos.Commitment.Store.{
  UpdateCommitment, snapshot, CommitmentEvent, Store, ServiceContext, References,
}
use aiworkos.Commitment.Service.Rows.{IsEdited, edited-IsEdited}
use aiworkos.Commitment.Service.Effects.{
  Recorded, Wrote, wrote, authorized, ok_injective, Recorded-wrote,
}
use aiworkos.Commitment.Service.Creation.{assert_exists-found}

-- `load_at` that returned: the row of this organization, at the version that the caller expects.
pub record Loaded (ctx : ServiceContext) (id expected : ℕ) (rows : List Commitment) (c : Commitment)
    : Type 0 where
  pub there : find commitment_id id rows ≡ some c
  pub in_org : c.org_id ≡ ctx.principal.org_id
  pub at_version : c.version ≡ expected

pub loaded :
    (ctx : ServiceContext) (refs : References) (id expected : ℕ) (rows : List Commitment)
    (c : Commitment)
    → load_at ctx refs id expected rows ≡ ok c
    → Loaded ctx id expected rows c
unfolding load_at get_commitment get
loaded ctx refs id expected rows c h = elim (Option-cases (find commitment_id id rows)) [
  | inl missing ↦ absurd (ground arith)
  | inr (x, e) ↦ elim (Bool-cases (x.org_id == ctx.principal.org_id)) [
    | inr elsewhere ↦ absurd (ground arith)
    | inl same_org ↦ elim (Bool-cases (x.version == expected)) [
      | inr stale ↦ absurd (ground arith)
      | inl current ↦
          let same : x ≡ c = ground arith in
          record {
            there = cc (e, same);
            in_org = cc ((nat_eq.beq_iff x.org_id ctx.principal.org_id).0 same_org, same);
            at_version = cc ((nat_eq.beq_iff x.version expected).0 current, same);
          }
    ]
  ]
]

-- The row that the guarded update found is the one that was loaded.
pub written_row :
    (ctx : ServiceContext) (id expected : ℕ) (g : Commitment → Commitment) (rows : List Commitment)
    (row c : Commitment) (rows' : List Commitment)
    → Loaded ctx id expected rows row
    → Wrote ctx.principal.org_id row.id expected g rows c rows'
    → c ≡ commitments_table.bump (g row)
written_row ctx id expected g rows row c rows' l w =
    let u = w.updated in
    let at : row.id ≡ id = key-find commitment_id id rows row l.there in
    let again : find commitment_id id rows ≡ some u.row =
      subst (λ i. find commitment_id i rows ≡ some u.row) at u.was_there in
    let same : u.row ≡ row = cc (again, l.there) in
    u.written ∙ ap (λ x. commitments_table.bump (g x)) same

-- What an edit that returned did: it changed the named details of one row, and neither its status
-- nor its due date.
pub record Edited (ctx : ServiceContext) (refs : References) (command : UpdateCommitment)
    (s : Store) (c : Commitment) (s' : Store) : Type 0 where
  pub row : Commitment
  pub was_there : find commitment_id command.commitment_id s.commitments ≡ some row
  pub in_org : row.org_id ≡ ctx.principal.org_id
  pub at_version : row.version ≡ command.expected_version
  pub not_blank : (x : Text) → command.statement ≡ some x → is_empty (strip x) ≡ false
  pub same_date : (d : ℕ) → command.due_date ≡ some d → row.due_date ≡ some d
  pub work_exists :
      (x : ℕ) → command.fulfilling_work_id ≡ some x → refs.work_exists ctx.principal.org_id x ≡ true
  pub project_exists :
      (x : ℕ) → command.project_id ≡ some x → refs.project_exists ctx.principal.org_id x ≡ true
  pub result : c ≡ commitments_table.bump (edited ctx refs command row)
  pub effect : IsEdited command row c
  pub recorded : Recorded ctx Action.update (some (snapshot row)) CommitmentEvent.updated s c s'

not_blank_statement :
    (ctx : ServiceContext) (refs : References) (statement : Option Text)
    → raise_if (is_blank ctx refs statement) br_c_01 ≡ ok tt
    → (x : Text) → statement ≡ some x
    → is_empty (strip x) ≡ false
not_blank_statement ctx refs none h x e = absurd (cc e)
not_blank_statement ctx refs (some y) h x e =
    let same : y ≡ x = cc e in subst (λ z. is_empty (strip z) ≡ false) same (not_raised _ br_c_01 h)

same_due_date :
    (asked due : Option ℕ)
    → raise_if (is_some asked && not (asked == due)) br_c_07 ≡ ok tt
    → (d : ℕ) → asked ≡ some d
    → due ≡ some d
same_due_date none due h d e = absurd (cc e)
same_due_date (some x) due h d e =
    let open_test : not (some x == due) ≡ false = not_raised _ br_c_07 h in
    cc ((option_eq.beq_iff (some x) due).0 (ground arith), e)

-- An edit that returns has found the row at the version that the caller expects, in the caller's
-- organization. The statement that it names is not blank, the due date that it names is the row's
-- own, and the Work and the Project that it names exist. It has set what the command names, one
-- version further, has changed nothing else, neither status nor due date, and is recorded once.
pub update_details-Edited :
    (ctx : ServiceContext) (refs : References) (command : UpdateCommitment) (s : Store)
    (c : Commitment) (s' : Store)
    → update_details ctx refs command s ≡ ok (c, s')
    → Edited ctx refs command s c s'
unfolding update_details
update_details-Edited ctx refs command s c s' h =
    let (row, e1, h1) =
      returned (load_at ctx refs command.commitment_id command.expected_version s.commitments) _
        h in
    let (d, e2, h2) =
      returned
        (authorize_action ctx refs Action.update (commitment_relations row ctx.actor.person_id)
          (some row.id))
        _ h1 in
    let (e3, h3) =
      passed (raise_if (is_some command.due_date && not (command.due_date == row.due_date)) br_c_07)
        _ h2 in
    let (e4, h4) = passed (raise_if (is_blank ctx refs command.statement) br_c_01) _ h3 in
    let (e5, h5) =
      passed (assert_exists (refs.work_exists ctx.principal.org_id) command.fulfilling_work_id) _
        h4 in
    let (e6, h6) =
      passed (assert_exists (refs.project_exists ctx.principal.org_id) command.project_id) _ h5 in
    let ((c0, rows), e7, h7) =
      returned
        (update_commitment ctx.principal.org_id row.id command.expected_version
          (edited ctx refs command) s.commitments)
        _ h6 in
    let l = loaded ctx refs command.commitment_id command.expected_version s.commitments row e1 in
    let g = edited ctx refs command in
    let image =
      written_row ctx command.commitment_id command.expected_version g s.commitments row c0 rows l
        (wrote ctx.principal.org_id row.id command.expected_version g s.commitments c0 rows e7) in
    let same : recorded ctx refs Action.update (some (snapshot row)) d CommitmentEvent.updated s
          (c0, rows)
        ≡ (c, s') =
      ok_injective h7 in
    subst (λ (x : Commitment × Store). Edited ctx refs command s x.0 x.1) same
      (record {
        row = row;
        was_there = l.there;
        in_org = l.in_org;
        at_version = l.at_version;
        not_blank = not_blank_statement ctx refs command.statement e4;
        same_date = same_due_date command.due_date row.due_date e3;
        work_exists = assert_exists-found (refs.work_exists ctx.principal.org_id) _ e5;
        project_exists = assert_exists-found (refs.project_exists ctx.principal.org_id) _ e6;
        result = image;
        effect = subst (IsEdited command row) (sym image) (edited-IsEdited ctx refs command row);
        recorded =
            Recorded-wrote ctx refs Action.update s d
              (authorized ctx.principal Action.update _ d e2) CommitmentEvent.updated
              (some (snapshot row)) row.id command.expected_version g c0 rows (λ x. refl) e7;
      })
