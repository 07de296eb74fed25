-- ===== src/Commitment/Service/Trail.antt =====
-- What holds of every store that committed transactions lead to: its rows are within the table's
-- constraints, and the last audit entry about a row shows what it is.
use aiworkos.Base.{
  ℕ, ◌≡◌, refl, ap, sym, subst, ◌∙◌, inl, inr, true, false, Option, none, some, List, [], ◌∷◌, ◌++◌,
  arith, ◌==◌, nat_eq, option_eq, Bool-cases, beq_refl, if◌then◌else◌,
}
use aiworkos.Base.Table.{find, map_option, IsKeyed}
use aiworkos.Platform.Authz.Model.{Action, ResourceType}
use aiworkos.Platform.Records.{AuditEntry}
use aiworkos.Commitment.Repository.{Commitment, commitment_id, satisfies_constraints}
use aiworkos.Commitment.Store.{Snapshot, snapshot, CommitmentEvent, Store, ServiceContext}
use aiworkos.Commitment.Service.Rows.{IsShownBy, snapshot-IsShownBy}
use aiworkos.Commitment.Service.Effects.{Recorded}
use aiworkos.Commitment.Service.Outcomes.{update_details-Edited}
use aiworkos.Commitment.Service.Creation.{create-Recorded}
use aiworkos.Commitment.Service.Transitions.{change_status-Moved}
use aiworkos.Commitment.Service.History.{
  Commits, creates, updates, changes, History, start, and_then,
}

-- The last entry about a row.
abbrev pub last_entry : ℕ → List (AuditEntry Snapshot) → Option (AuditEntry Snapshot)
last_entry id [] = none
last_entry id (e ∷ rest) = elim (last_entry id rest) [
  | some later ↦ some later
  | none ↦ if e.resource_id == id then some e else none
]

last_entry-append :
    (id : ℕ) (xs : List (AuditEntry Snapshot)) (e : AuditEntry Snapshot)
    → last_entry id (xs ++ e ∷ []) ≡ (if e.resource_id == id then some e else last_entry id xs)
last_entry-append id [] e = refl
last_entry-append id (x ∷ xs) e = ground (arith, last_entry-append id xs e)

-- Ids are unique, each stored row is within the constraints, and the last audit entry about it shows
-- what it is in each value that an entry keeps.
pub record IsTrue (s : Store) : Type 0 where
  pub keyed : IsKeyed commitment_id s.commitments
  pub constrained :
      (i : ℕ) (c : Commitment)
      → find commitment_id i s.commitments ≡ some c
      → satisfies_constraints c ≡ true
  pub told :
      (i : ℕ) (c : Commitment)
      → find commitment_id i s.commitments ≡ some c
      → (shown : Snapshot) × (map_option (λ e. e.after) (last_entry i s.audit) ≡ some (some shown))
        × IsShownBy shown c

abbrev pub empty_store : Store
empty_store = record { commitments = []; audit = []; outbox = [] }

-- What the trail tells of a row after a recorded write.
told_after :
    (ctx : ServiceContext) (action : Action) (before : Option Snapshot) (event : CommitmentEvent)
    (s s' : Store) (c : Commitment) (i : ℕ)
    → Recorded ctx action before event s c s'
    → map_option (λ e. e.after) (last_entry i s'.audit) ≡ (
        if c.id == i
        then some (some (snapshot c))
        else map_option (λ e. e.after) (last_entry i s.audit))
told_after ctx action before event s s' c i r =
    subst
      (λ a. map_option (λ e. e.after) (last_entry i a) ≡ (
        if c.id == i
        then some (some (snapshot c))
        else map_option (λ e. e.after) (last_entry i s.audit)))
      (sym r.audited)
      (ground (
        arith,
        last_entry-append i s.audit (record {
          org_id = ctx.principal.org_id;
          actor = ctx.actor;
          action = action;
          resource_type = ResourceType.commitment;
          resource_id = c.id;
          before = before;
          after = some (snapshot c);
          decision = r.decision;
        }),
      ))

not_at : (i j : ℕ) → (i == j) ≡ false → (j == i) ≡ false
not_at i j h = ground arith

Recorded-IsTrue :
    (ctx : ServiceContext) (action : Action) (before : Option Snapshot) (event : CommitmentEvent)
    (s s' : Store) (c : Commitment)
    → Recorded ctx action before event s c s'
    → IsTrue s
    → IsTrue s'
Recorded-IsTrue ctx action before event s s' c r h = record {
  keyed = r.keyed h.keyed;
  constrained = λ i x there. elim (Bool-cases (i == c.id)) [
    | inl same ↦
        let at = (nat_eq.beq_iff i c.id).0 same in
        let is_c : c ≡ x =
          cc (r.stored, subst (λ k. find commitment_id k s'.commitments ≡ some x) at there) in
        subst (λ y. satisfies_constraints y ≡ true) is_c r.constraints
    | inr other ↦ h.constrained i x (sym (r.others i other) ∙ there)
  ];
  told = λ i x there.
      let told = told_after ctx action before event s s' c i r in
      elim (Bool-cases (i == c.id)) [
        | inl same ↦
            let at = (nat_eq.beq_iff i c.id).0 same in
            let is_c : c ≡ x =
              cc (r.stored, subst (λ k. find commitment_id k s'.commitments ≡ some x) at there) in
            (
              snapshot x,
              told ∙ rw (at, beq_refl c.id) (ap (λ y. some (some (snapshot y))) is_c),
              snapshot-IsShownBy x,
            )
        | inr other ↦
            let (shown, last, shows) = h.told i x (sym (r.others i other) ∙ there) in
            (shown, told ∙ rw (not_at i c.id other) last, shows)
      ];
}

Commits-IsTrue : (s s' : Store) → Commits s s' → IsTrue s → IsTrue s'
Commits-IsTrue s s' (creates ctx refs new_id command c h) =
    Recorded-IsTrue ctx _ _ _ s s' c (create-Recorded ctx refs new_id command s c s' h).3
Commits-IsTrue s s' (updates ctx refs command c h) =
    Recorded-IsTrue ctx _ _ _ s s' c (update_details-Edited ctx refs command s c s' h).recorded
Commits-IsTrue s s' (changes ctx refs now command c h) =
    Recorded-IsTrue ctx _ _ _ s s' c (change_status-Moved ctx refs now command s c s' h).recorded

empty_store-IsTrue : IsTrue empty_store
empty_store-IsTrue = record { keyed = tt; constrained = λ i c h. cc h; told = λ i c h. cc h }

-- In every store that committed transactions lead to from the empty one, ids are unique, each promise
-- has a statement, a confidence between 0 and 100, at most one kind of recipient and a date unless its
-- precision is vague, and the last audit entry about it shows the statement, the parties, the due
-- dates, the precision, the status, the fulfilling Work, the origin and the confidence that are
-- stored. Entries do not keep its Project, acknowledgement, creator and version.
pub History-IsTrue : (s : Store) → History empty_store s → IsTrue s
History-IsTrue s start = empty_store-IsTrue
History-IsTrue s (and_then {mid = u} history commit) =
    Commits-IsTrue u s commit (History-IsTrue u history)
