-- ===== src/Platform/Repository.antt =====
-- The version-guarded UPDATE of every context's repository (`_apply`, `update`, `get`), and
-- platform/concurrency.py. A table's id is its primary key.
use aiworkos.Base.{
  ℕ, ◌+◌, ◌≡◌, ◌∙◌, inl, inr, Option, none, some, List, arith, ◌==◌, nat_eq, Bool-cases,
  Option-cases, if◌then◌else◌,
}
use aiworkos.Base.Result.{Result, ok, err, Resource, stale_version}
use aiworkos.Base.Table.{find, update_where, find-update_where}

-- What a table's rows have: an id, an organization, and a version that a write counts up.
pub record Versioned (A : Type 0) : Type 0 where
  pub id : A → ℕ
  pub org_id : A → ℕ
  pub version : A → ℕ
  pub bump : A → A
  pub resource : Resource
  pub id-bump : (x : A) → id (bump x) ≡ id x
  pub org_id-bump : (x : A) → org_id (bump x) ≡ org_id x
  pub version-bump : (x : A) → version (bump x) ≡ version x + 1

module _ {A : Type 0} (t : Versioned A) where
  open t use {id, org_id, version, bump, resource}

  -- `SELECT ... WHERE id = :id AND org_id = :org_id`
  unfoldable pub get : ℕ → ℕ → List A → Option A
  get org k rows = elim (find id k rows) [
    | none ↦ none
    | some x ↦ if org_id x == org then some x else none
  ]

  -- `UPDATE ... SET ..., version = version + 1 WHERE id, org_id and version match`, then the row as
  -- it is read back.
  unfoldable pub update : ℕ → ℕ → ℕ → (A → A) → List A → Result (A × List A)
  unfolding get
  update org k expected g rows = elim (get org k rows) [
    | none ↦ err (stale_version resource k expected)
    | some x ↦
        if version x == expected
        then ok (bump (g x), update_where id k (λ y. bump (g y)) rows)
        else err (stale_version resource k expected)
  ]

  -- What a successful update did.
  pub record Updates (org k expected : ℕ) (g : A → A) (rows : List A) (x' : A) (rows' : List A)
      : Type 0 where
    pub row : A
    pub was_there : find id k rows ≡ some row
    pub in_org : org_id row ≡ org
    pub expected_version : version row ≡ expected
    pub written : x' ≡ bump (g row)
    pub table : rows' ≡ update_where id k (λ y. bump (g y)) rows

  pub update-eq-ok :
      (org k expected : ℕ) (g : A → A) (rows : List A) (x' : A) (rows' : List A)
      → update org k expected g rows ≡ ok (x', rows')
      → Updates org k expected g rows x' rows'
  unfolding update
  update-eq-ok org k expected g rows x' rows' h = elim (Option-cases (find id k rows)) [
    | inl missing ↦ absurd (ground arith)
    | inr (x, e) ↦ elim (Bool-cases (org_id x == org)) [
      | inr elsewhere ↦ absurd (ground arith)
      | inl same ↦ elim (Bool-cases (version x == expected)) [
        | inr stale ↦ absurd (ground arith)
        | inl current ↦ record {
          row = x;
          was_there = e;
          in_org = (nat_eq.beq_iff (org_id x) org).0 same;
          expected_version = (nat_eq.beq_iff (version x) expected).0 current;
          written = ground arith;
          table = ground arith;
        }
      ]
    ]
  ]

  -- After a write that went through and that set neither id, organization nor version, another
  -- write that expects the version before it is refused as stale, whatever it would set.
  pub second_writer_refused :
      (org k expected : ℕ) (g h : A → A) (rows : List A) (x' : A) (rows' : List A)
      → ((y : A) → id (g y) ≡ id y)
      → ((y : A) → org_id (g y) ≡ org_id y)
      → ((y : A) → version (g y) ≡ version y)
      → update org k expected g rows ≡ ok (x', rows')
      → update org k expected h rows' ≡ err (stale_version resource k expected)
  unfolding update
  second_writer_refused org k expected g h rows x' rows' keeps_id keeps_org keeps_version e =
      let u = update-eq-ok org k expected g rows x' rows' e in
      let keeps = λ (y : A). t.id-bump (g y) ∙ keeps_id y in
      let found = find-update_where id k (λ y. bump (g y)) keeps k rows in
      ground (
        arith,
        found,
        u.table,
        u.was_there,
        u.expected_version,
        keeps_version u.row,
        t.version-bump (g u.row),
        nat_eq.beq_iff k k,
      )
