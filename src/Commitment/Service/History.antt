-- ===== src/Commitment/Service/History.antt =====
-- Histories of the commitments' store: transactions that committed, one after the other.
use aiworkos.Base.{
  ℕ, ◌+◌, ◌≡◌, refl, ap, sym, subst, ◌∙◌, ◌⊎◌, inl, inr, Bool, true, false, Option, some, List,
  ◌==◌, nat_eq, option_eq, Bool-cases,
}
use aiworkos.Base.Table.{find, key-find}
use aiworkos.Base.Result.{ok}
use aiworkos.Platform.Authz.Model.{Action}
use aiworkos.Commitment.Vocabulary.{CommitmentStatus, commitment_status_eq}
use aiworkos.Commitment.Domain.Machine.{CommitmentStep}
use aiworkos.Commitment.Repository.{Commitment, commitment_id}
use aiworkos.Commitment.Service.{create, update_details, change_status}
use aiworkos.Commitment.Store.{
  CreateCommitment, UpdateCommitment, ChangeCommitmentStatus, Snapshot, CommitmentEvent, Store,
  ServiceContext, References,
}
use aiworkos.Commitment.Service.Effects.{Recorded}
use aiworkos.Commitment.Service.Outcomes.{update_details-Edited, Edited}
use aiworkos.Commitment.Service.Creation.{create-Recorded}
use aiworkos.Commitment.Service.Transitions.{change_status-Moved, Moved}

-- One transaction that committed, of any caller and at any time.
pub data Commits (s s' : Store) : Type 0 where
  creates :
      (ctx : ServiceContext) (refs : References) (new_id : ℕ) (command : CreateCommitment)
      (c : Commitment)
      → create ctx refs new_id command s ≡ ok (c, s')
      → Commits s s'
  updates :
      (ctx : ServiceContext) (refs : References) (command : UpdateCommitment) (c : Commitment)
      → update_details ctx refs command s ≡ ok (c, s')
      → Commits s s'
  changes :
      (ctx : ServiceContext) (refs : References) (now : ℕ) (command : ChangeCommitmentStatus)
      (c : Commitment)
      → change_status ctx refs now command s ≡ ok (c, s')
      → Commits s s'

pub data History (s : Store) : Store → Type 0 where
  start : History s s
  and_then : {mid last : Store} → History s mid → Commits mid last → History s last

-- How a row may go on from one store to the next: not at all, or one version further, with the same
-- parties, a status that is the same or one edge further, and a due date that is the same or was
-- renegotiated and kept as the previous one.
pub record Changed (c c' : Commitment) : Type 0 where
  pub next_version : c'.version ≡ c.version + 1
  pub same_committer : c'.committed_by_person_id ≡ c.committed_by_person_id
  pub same_recipient : c'.committed_to_person_id ≡ c.committed_to_person_id
  pub same_team : c'.committed_to_team_id ≡ c.committed_to_team_id
  pub status_moved : (c'.status ≡ c.status) ⊎ CommitmentStep c.status c'.status
  pub date_kept :
      (c'.due_date ≡ c.due_date)
      ⊎ ((c'.status ≡ CommitmentStatus.renegotiated) × (c'.previous_due_date ≡ c.due_date))

abbrev pub Follows : Commitment → Commitment → Type 0
Follows c c' = (c' ≡ c) ⊎ Changed c c'

Edited-Changed :
    (ctx : ServiceContext) (refs : References) (command : UpdateCommitment) (s s' : Store)
    (c : Commitment) (e : Edited ctx refs command s c s')
    → Changed e.row c
Edited-Changed ctx refs command s s' c e = subst (Changed e.row) (sym e.result) (record {
  next_version = refl;
  same_committer = refl;
  same_recipient = refl;
  same_team = refl;
  status_moved = inl refl;
  date_kept = inl refl;
})

Moved-Changed :
    (ctx : ServiceContext) (refs : References) (now : ℕ) (command : ChangeCommitmentStatus)
    (s s' : Store) (c : Commitment) (m : Moved ctx refs now command s c s')
    → Changed m.row c
Moved-Changed ctx refs now command s s' c m = subst (Changed m.row) (sym m.result) (record {
  next_version = refl;
  same_committer = refl;
  same_recipient = refl;
  same_team = refl;
  status_moved = inr m.step;
  date_kept = elim (Bool-cases (command.target == CommitmentStatus.renegotiated)) [
    | inl renegotiated ↦ inr (
      (commitment_status_eq.beq_iff command.target CommitmentStatus.renegotiated).0 renegotiated,
      rw renegotiated refl,
    )
    | inr other ↦ inl (rw other refl)
  ];
})

-- A recorded write carries each row on, if it carries on the one that it wrote.
carried :
    (ctx : ServiceContext) (action : Action) (before : Option Snapshot) (event : CommitmentEvent)
    (s s' : Store) (c : Commitment)
    → Recorded ctx action before event s c s'
    → (i : ℕ) (row : Commitment) → find commitment_id i s.commitments ≡ some row
    → (i ≡ c.id → Follows row c)
    → (row' : Commitment) × (find commitment_id i s'.commitments ≡ some row') × Follows row row'
carried ctx action before event s s' c r i row there on = elim (Bool-cases (i == c.id)) [
  | inl same ↦
      let at = (nat_eq.beq_iff i c.id).0 same in
      (c, subst (λ k. find commitment_id k s'.commitments ≡ some c) (sym at) r.stored, on at)
  | inr other ↦ (row, r.others i other ∙ there, inl refl)
]

-- A row found at the id of a row that was loaded is that row.
same_row :
    (rows : List Commitment) (i k : ℕ) (row loaded : Commitment)
    → find commitment_id i rows ≡ some row
    → find commitment_id k rows ≡ some loaded
    → i ≡ loaded.id
    → loaded ≡ row
same_row rows i k row loaded h l e =
    let at_k : i ≡ k = e ∙ key-find commitment_id k rows loaded l in
    cc (subst (λ j. find commitment_id j rows ≡ some row) at_k h, l)

-- No transaction loses a row. It leaves each as it was, or takes it one version further with the same
-- parties, its status the same or one edge of the machine further, and its due date the same or
-- renegotiated with the old one kept.
pub commit-Follows :
    (s s' : Store) (i : ℕ) (row : Commitment)
    → Commits s s'
    → find commitment_id i s.commitments ≡ some row
    → (row' : Commitment) × (find commitment_id i s'.commitments ≡ some row') × Follows row row'
commit-Follows s s' i row (creates ctx refs new_id command c h) there =
    let (fresh, is_new, referenced, r) = create-Recorded ctx refs new_id command s c s' h in
    carried ctx _ _ _ s s' c r i row there (λ e. absurd (cc (fresh, e, is_new.id, there)))
commit-Follows s s' i row (updates ctx refs command c h) there =
    let e = update_details-Edited ctx refs command s c s' h in
    carried ctx _ _ _ s s' c e.recorded i row there (λ at.
      let same =
        same_row s.commitments i command.commitment_id row e.row there e.was_there
          (at ∙ ap commitment_id e.result) in
      inr (subst (λ x. Changed x c) same (Edited-Changed ctx refs command s s' c e)))
commit-Follows s s' i row (changes ctx refs now command c h) there =
    let m = change_status-Moved ctx refs now command s c s' h in
    carried ctx _ _ _ s s' c m.recorded i row there (λ at.
      let same =
        same_row s.commitments i command.commitment_id row m.row there m.was_there
          (at ∙ ap commitment_id m.result) in
      inr (subst (λ x. Changed x c) same (Moved-Changed ctx refs now command s s' c m)))

-- The statuses that nothing follows.
abbrev pub is_final : CommitmentStatus → Bool
is_final CommitmentStatus.fulfilled = true
is_final CommitmentStatus.cancelled = true
is_final CommitmentStatus.disputed = true
is_final CommitmentStatus.withdrawn = true
is_final _ = false

CommitmentStep-goes_on : {a b : CommitmentStatus} → CommitmentStep a b → is_final a ≡ false
CommitmentStep-goes_on CommitmentStep.acknowledge = refl
CommitmentStep-goes_on CommitmentStep.dispute = refl
CommitmentStep-goes_on CommitmentStep.withdraw = refl
CommitmentStep-goes_on CommitmentStep.keep = refl
CommitmentStep-goes_on CommitmentStep.miss = refl
CommitmentStep-goes_on CommitmentStep.renegotiate = refl
CommitmentStep-goes_on CommitmentStep.cancel = refl
CommitmentStep-goes_on CommitmentStep.reopen = refl
CommitmentStep-goes_on CommitmentStep.keep_late = refl

-- A promise that is fulfilled, cancelled, disputed or withdrawn keeps that status, whatever is
-- committed afterwards, and is never lost.
pub final_status_stays :
    (s t : Store) (i : ℕ) (row : Commitment)
    → History s t
    → find commitment_id i s.commitments ≡ some row
    → is_final row.status ≡ true
    → (row' : Commitment) × (find commitment_id i t.commitments ≡ some row')
      × (row'.status ≡ row.status)
final_status_stays s t i row start there final = (row, there, refl)
final_status_stays s t i row (and_then {mid = u} history commit) there final =
    let (mid, at_mid, same) = final_status_stays s u i row history there final in
    let (row', at_end, follows) = commit-Follows u t i mid commit at_mid in
    (
      row',
      at_end,
      elim follows [
        | inl e ↦ ap (λ (x : Commitment). x.status) e ∙ same
        | inr c ↦ elim c.status_moved [
          | inl e ↦ e ∙ same
          | inr st ↦ absurd (cc (CommitmentStep-goes_on st, ap is_final same ∙ final))
        ]
      ],
    )
