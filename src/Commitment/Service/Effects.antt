-- ===== src/Commitment/Service/Effects.antt =====
-- What a use case that returned has done.
use aiworkos.Base.{
  ℕ, ◌≡◌, refl, ap, ◌∙◌, sym, inl, inr, true, false, Option, none, some, List, [], ◌∷◌, ◌++◌, arith,
  ◌==◌, nat_eq, Bool-cases, beq_refl, subst, Option-cases,
}
use aiworkos.Base.Table.{
  find, key-find, IsKeyed, find-append, find-update_where, append-IsKeyed, update_where-IsKeyed,
}
use aiworkos.Base.Result.{ok, returned}
use aiworkos.Platform.Authz.Model.{Action, ResourceType, Decision, Principal, ResourceRef}
use aiworkos.Platform.Authz.Policy.{can, authorize}
use aiworkos.Platform.Repository.{update, Updates, update-eq-ok}
use aiworkos.Commitment.Repository.{
  Commitment, commitments_table, commitment_id, insert_commitment, update_commitment,
  satisfies_constraints, constrained,
}
use aiworkos.Commitment.Service.{recorded}
use aiworkos.Commitment.Store.{
  Snapshot, snapshot, CommitmentEvent, Store, ServiceContext, References,
}

-- What a returned write is: the row is stored and within the constraints, the other rows are as they
-- were, and the transaction adds one audit entry, with what the row was and what it is, and one event.
pub record Recorded (ctx : ServiceContext) (action : Action) (before : Option Snapshot)
    (event : CommitmentEvent) (s : Store) (c : Commitment) (s' : Store) : Type 0 where
  pub decision : Decision
  pub was_allowed : decision.allowed ≡ true
  pub stored : find commitment_id c.id s'.commitments ≡ some c
  pub constraints : satisfies_constraints c ≡ true
  pub others :
      (i : ℕ)
      → (i == c.id) ≡ false
      → find commitment_id i s'.commitments ≡ find commitment_id i s.commitments
  pub keyed : IsKeyed commitment_id s.commitments → IsKeyed commitment_id s'.commitments
  pub audited :
      s'.audit
      ≡ s.audit
        ++ record {
          org_id = ctx.principal.org_id;
          actor = ctx.actor;
          action = action;
          resource_type = ResourceType.commitment;
          resource_id = c.id;
          before = before;
          after = some (snapshot c);
          decision = decision;
        }
          ∷ []
  pub published :
      s'.outbox
      ≡ s.outbox
        ++ record {
          org_id = ctx.principal.org_id;
          type = event;
          aggregate_id = c.id;
          actor = ctx.actor;
        }
          ∷ []

-- `insert_commitment` that returned.
inserted :
    (c : Commitment) (rows : List Commitment) (c' : Commitment) (rows' : List Commitment)
    → insert_commitment c rows ≡ ok (c', rows')
    → (find commitment_id c.id rows ≡ none)
      × (satisfies_constraints c ≡ true)
      × (c' ≡ c)
      × (rows' ≡ rows ++ c ∷ [])
unfolding insert_commitment
inserted c rows c' rows' h = elim (Option-cases (find commitment_id c.id rows)) [
  | inr (old, e) ↦ absurd (ground arith)
  | inl fresh ↦ (fresh, ground arith, ground arith, ground arith)
]

-- `update_commitment` that returned.
pub record Wrote (org id expected : ℕ) (g : Commitment → Commitment) (rows : List Commitment)
    (c : Commitment) (rows' : List Commitment) : Type 0 where
  pub updated : Updates commitments_table org id expected g rows c rows'
  pub within : satisfies_constraints c ≡ true

pub wrote :
    (org id expected : ℕ) (g : Commitment → Commitment) (rows : List Commitment) (c : Commitment)
    (rows' : List Commitment)
    → update_commitment org id expected g rows ≡ ok (c, rows')
    → Wrote org id expected g rows c rows'
unfolding update_commitment
wrote org id expected g rows c rows' h =
    let ((d, rows''), e, k) =
      returned (update commitments_table org id expected g rows) constrained h in
    elim (Bool-cases (satisfies_constraints d)) [
      | inr broken ↦ absurd (ground arith)
      | inl good ↦
          let same : d ≡ c = ground arith in
          let rows_same : rows'' ≡ rows' = ground arith in
          record {
            updated =
                update-eq-ok commitments_table org id expected g rows c rows'
                  (cc (e, same, rows_same));
            within = cc (good, same);
          }
    ]

pub ok_injective : {A : Type 0} {a b : A} → ok a ≡ ok b → a ≡ b
ok_injective h = cc h

ne_sym : (i j : ℕ) → (i == j) ≡ false → (j == i) ≡ false
ne_sym i j h = ground arith

pub authorized :
    (principal : Principal) (action : Action) (resource : ResourceRef) (d : Decision)
    → authorize principal action resource ≡ ok d
    → d.allowed ≡ true
unfolding authorize
authorized principal action resource d h =
    elim (Bool-cases (can principal action resource).allowed) [
      | inr refused ↦ absurd (ground arith)
      | inl allowed ↦ ground arith
    ]

module _ (ctx : ServiceContext) (refs : References) (action : Action) (s : Store) (d : Decision)
    (allowed : d.allowed ≡ true) (event : CommitmentEvent) where
  pub Recorded-inserted :
      (c c' : Commitment) (rows' : List Commitment)
      → insert_commitment c s.commitments ≡ ok (c', rows')
      → (find commitment_id c.id s.commitments ≡ none)
        × (c' ≡ c)
        × Recorded ctx action none event s c'
            (recorded ctx refs action none d event s (c', rows')).1
  Recorded-inserted c c' rows' h =
      let (fresh, within, same, rows) = inserted c s.commitments c' rows' h in
      (
        fresh,
        same,
        record {
          decision = d;
          was_allowed = allowed;
          stored = ground (
            arith,
            find-append commitment_id c.id s.commitments c,
            rows,
            same,
            fresh,
            beq_refl c.id,
          );
          constraints = cc (within, same);
          others = λ i ne.
              ground
                (arith, find-append commitment_id i s.commitments c, rows, same, ne_sym i c'.id ne);
          keyed = λ k.
              subst (IsKeyed commitment_id) (sym rows)
                (append-IsKeyed commitment_id s.commitments c k fresh);
          audited = refl;
          published = refl;
        },
      )

  pub Recorded-wrote :
      (before : Option Snapshot) (id expected : ℕ) (g : Commitment → Commitment) (c' : Commitment)
      (rows' : List Commitment)
      → ((c : Commitment) → commitment_id (g c) ≡ commitment_id c)
      → update_commitment ctx.principal.org_id id expected g s.commitments ≡ ok (c', rows')
      → Recorded ctx action before event s c'
          (recorded ctx refs action before d event s (c', rows')).1
  Recorded-wrote before id expected g c' rows' keeps h =
      let w = wrote ctx.principal.org_id id expected g s.commitments c' rows' h in
      let u = w.updated in
      let found = find-update_where commitment_id id (λ y. commitments_table.bump (g y)) keeps in
      let at_id : id ≡ c'.id = sym (
        ap commitment_id u.written
        ∙ (keeps u.row ∙ key-find commitment_id id s.commitments u.row u.was_there)) in
      record {
        decision = d;
        was_allowed = allowed;
        stored =
            ground (
              arith,
              found c'.id s.commitments,
              u.table,
              u.was_there,
              u.written,
              at_id,
              beq_refl id,
            );
        constraints = w.within;
        others = λ i ne. ground (arith, found i s.commitments, u.table, at_id);
        keyed = λ k. subst (IsKeyed commitment_id) (sym u.table) (
            update_where-IsKeyed commitment_id id (λ y. commitments_table.bump (g y)) keeps
              s.commitments k);
        audited = refl;
        published = refl;
      }
