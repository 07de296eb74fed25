-- ===== src/Work/Service/Effects.antt =====
-- What the guarded writes and the loaders of the services have done when they return.
use aiworkos.Base.{
  ℕ, ◌≡◌, refl, ap, sym, ◌∙◌, inl, inr, false, some, List, arith, ◌==◌, nat_eq, Bool-cases,
  Option-cases, subst, beq_refl,
}
use aiworkos.Base.Table.{find, key-find, find-update_where, update_where}
use aiworkos.Base.Result.{ok}
use aiworkos.Platform.Repository.{Versioned, get, update, update-eq-ok}
use aiworkos.Work.Store.{WorkContext, org_of, insert, load}
use aiworkos.Work.Service.Steps.{RowStep, inserted, updated}

module _ {A : Type 0} (t : Versioned A) where
  -- A row that was read under this organization.
  pub record Found (org_id id : ℕ) (rows : List A) (x : A) : Type 0 where
    pub there : find t.id (t.id x) rows ≡ some x
    pub asked : find t.id id rows ≡ some x
    pub in_org : t.org_id x ≡ org_id

  pub got :
      (org_id id : ℕ) (rows : List A) (x : A)
      → get t org_id id rows ≡ some x
      → Found org_id id rows x
  unfolding get
  got org_id id rows x h = elim (Option-cases (find t.id id rows)) [
    | inl missing ↦ absurd (ground arith)
    | inr (y, e) ↦ elim (Bool-cases (t.org_id y == org_id)) [
      | inr elsewhere ↦ absurd (ground arith)
      | inl same_org ↦
          let same : y ≡ x = ground arith in
          let asked : find t.id id rows ≡ some x = e ∙ ap some same in
          let at : t.id x ≡ id = key-find t.id id rows x asked in
          record {
            there = subst (λ k. find t.id k rows ≡ some x) (sym at) asked;
            asked = asked;
            in_org = ap t.org_id (sym same) ∙ (nat_eq.beq_iff (t.org_id y) org_id).0 same_org;
          }
    ]
  ]

  pub load-Found :
      (ctx : WorkContext) (id : ℕ) (rows : List A) (x : A)
      → load t ctx id rows ≡ ok x
      → Found (org_of ctx) id rows x
  load-Found ctx id rows x h = elim (Option-cases (get t (org_of ctx) id rows)) [
    | inl missing ↦ absurd (ground arith)
    | inr (y, e) ↦ let same : y ≡ x = ground arith in got (org_of ctx) id rows x (e ∙ ap some same)
  ]

  module _ (Fresh : A → Type 0) (Moves : A → A → Type 0) where
    pub insert-RowStep :
        (row : A) (rows rows' : List A)
        → insert t row rows ≡ ok rows'
        → Fresh row
        → RowStep t Fresh Moves rows rows' row
    insert-RowStep row rows rows' h fresh = elim (Option-cases (find t.id (t.id row) rows)) [
      | inr (old, e) ↦ absurd (ground arith)
      | inl free ↦ inserted free fresh (ground arith)
    ]

    pub update-RowStep :
        (org expected : ℕ) (g : A → A) (old : A) (rows : List A) (row : A) (rows' : List A)
        → ((x : A) → t.id (g x) ≡ t.id x)
        → find t.id (t.id old) rows ≡ some old
        → update t org (t.id old) expected g rows ≡ ok (row, rows')
        → Moves old (t.bump (g old))
        → RowStep t Fresh Moves rows rows' row
    update-RowStep org expected g old rows row rows' keeps there h moved =
        let u = update-eq-ok t org (t.id old) expected g rows row rows' h in
        let same : u.row ≡ old = cc (u.was_there, there) in
        let is_new : row ≡ t.bump (g old) = u.written ∙ ap (λ x. t.bump (g x)) same in
        updated old g keeps there is_new u.table (subst (Moves old) (sym is_new) moved)

  -- A guarded write leaves the rows under other keys as they were.
  pub update-others :
      (org k expected : ℕ) (g : A → A) (rows : List A) (row : A) (rows' : List A)
      → ((x : A) → t.id (g x) ≡ t.id x)
      → update t org k expected g rows ≡ ok (row, rows')
      → (i : ℕ) → (i == k) ≡ false
      → find t.id i rows' ≡ find t.id i rows
  update-others org k expected g rows row rows' keeps h i other =
      let u = update-eq-ok t org k expected g rows row rows' h in
      let bumped = λ (x : A). t.id-bump (g x) ∙ keeps x in
      ap (find t.id i) u.table
      ∙ (find-update_where t.id k (λ x. t.bump (g x)) bumped i rows ∙ rw other refl)

  -- And the row under its key is the written one.
  pub update-stored :
      (org k expected : ℕ) (g : A → A) (rows : List A) (row : A) (rows' : List A)
      → ((x : A) → t.id (g x) ≡ t.id x)
      → update t org k expected g rows ≡ ok (row, rows')
      → (find t.id k rows' ≡ some row) × (t.id row ≡ k)
  update-stored org k expected g rows row rows' keeps h =
      let u = update-eq-ok t org k expected g rows row rows' h in
      let bumped = λ (x : A). t.id-bump (g x) ∙ keeps x in
      (
        ap (find t.id k) u.table
            ∙ (find-update_where t.id k (λ x. t.bump (g x)) bumped k rows
                ∙ rw (beq_refl k, u.was_there) (ap some (sym u.written))),
        ap t.id u.written ∙ (bumped u.row ∙ key-find t.id k rows u.row u.was_there),
      )

  -- What is written is the row that was found, changed.
  pub update-image :
      (org k expected : ℕ) (g : A → A) (rows : List A) (row : A) (rows' : List A)
      → update t org k expected g rows ≡ ok (row, rows')
      → (old : A) × (row ≡ t.bump (g old))
  update-image org k expected g rows row rows' h =
      let u = update-eq-ok t org k expected g rows row rows' h in (u.row, u.written)

  pub update-found :
      (org expected : ℕ) (g : A → A) (old : A) (rows : List A) (row : A) (rows' : List A)
      → find t.id (t.id old) rows ≡ some old
      → update t org (t.id old) expected g rows ≡ ok (row, rows')
      → row ≡ t.bump (g old)
  update-found org expected g old rows row rows' there h =
      let u = update-eq-ok t org (t.id old) expected g rows row rows' h in
      let same : u.row ≡ old = cc (u.was_there, there) in u.written ∙ ap (λ x. t.bump (g x)) same

  -- A row of this organization that was read is written, if its version is the one that is expected.
  pub update-returns :
      (org : ℕ) (g : A → A) (x : A) (rows : List A)
      → find t.id (t.id x) rows ≡ some x
      → t.org_id x ≡ org
      → update t org (t.id x) (t.version x) g rows
        ≡ ok (t.bump (g x), update_where t.id (t.id x) (λ y. t.bump (g y)) rows)
  unfolding update get
  update-returns org g x rows there at_org =
      ground (arith, there, at_org, beq_refl (t.version x), beq_refl org)
