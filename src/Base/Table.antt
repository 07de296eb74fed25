-- ===== src/Base/Table.antt =====
-- A database table as a list of rows with a key: primary-key reads, updates by key, and what
-- updates leave alone. Rows stand in the order of their insertion.
use Prim.Native.Nat.{ℕ, ◌+◌}
use mathlib.Core.Path.{◌≡◌, refl, ap, sym, subst}
use mathlib.Core.Logic.{inl, inr}
use mathlib.Core.Option.{Option, none, some}
use mathlib.Core.List.{List, [], ◌∷◌, ◌++◌}
use native.Mathlib.Omega.{arith}
use aiworkos.Base.Tests.{if◌then◌else◌, Bool-cases}
use aiworkos.Base.Equality.{◌==◌, nat_eq}
use aiworkos.Base.Lists.{All}

abbrev pub map_option {ℓ κ} : {A : Type ℓ} {B : Type κ} → (A → B) → Option A → Option B
map_option f none = none
map_option f (some a) = some (f a)

module _ {A : Type 0} (key : A → ℕ) where
  -- The row with this key.
  abbrev pub find : ℕ → List A → Option A
  find k [] = none
  find k (x ∷ rows) = let rest = find k rows in if key x == k then some x else rest

  -- `UPDATE ... WHERE id = k`
  abbrev pub update_where : ℕ → (A → A) → List A → List A
  update_where k g [] = []
  update_where k g (x ∷ rows) = (if key x == k then g x else x) ∷ update_where k g rows

  -- The key is a primary key: no two rows share it.
  abbrev pub IsKeyed : List A → Type 0
  IsKeyed [] = Unit
  IsKeyed (x ∷ rows) = (find (key x) rows ≡ none) × IsKeyed rows

  pub key-find : (k : ℕ) (rows : List A) (x : A) → find k rows ≡ some x → key x ≡ k
  key-find k [] x h = absurd (cc h)
  key-find k (y ∷ rows) x h = ground (arith, key-find k rows x)

  pub All-find {κ} :
      (P : A → Type κ) (k : ℕ) (rows : List A) (x : A) → All P rows → find k rows ≡ some x → P x
  All-find P k [] x h e = absurd (cc e)
  All-find P k (y ∷ rows) x h e = elim (Bool-cases (key y == k)) [
    | inl here ↦ let same : y ≡ x = ground arith in subst P same h.0
    | inr later ↦ All-find P k rows x h.1 (rw later at e)
  ]

  pub All-append {κ} :
      (P : A → Type κ) (rows : List A) (x : A) → All P rows → P x → All P (rows ++ x ∷ [])
  All-append P [] x h p = (p, tt)
  All-append P (y ∷ rows) x h p = (h.0, All-append P rows x h.1 p)

  -- An update keeps what it keeps of the row that it changes.
  pub All-update_where {κ} :
      (P : A → Type κ) (k : ℕ) (g : A → A) (rows : List A)
      → ((x : A) → key x ≡ k → P x → P (g x))
      → All P rows
      → All P (update_where k g rows)
  All-update_where P k g [] keep h = tt
  All-update_where P k g (x ∷ rows) keep h = elim (Bool-cases (key x == k)) [
    | inl here ↦ (
      rw here (keep x ((nat_eq.beq_iff (key x) k).0 here) h.0),
      All-update_where P k g rows keep h.1,
    )
    | inr later ↦ (rw later h.0, All-update_where P k g rows keep h.1)
  ]

  pub find-append :
      (j : ℕ) (rows : List A) (x : A)
      → find j (rows ++ x ∷ [])
        ≡ elim (find j rows) [ some y ↦ some y | none ↦ if key x == j then some x else none ]
  find-append j [] x = refl
  find-append j (y ∷ rows) x = ground (arith, find-append j rows x)

  module _ (k : ℕ) (g : A → A) (keeps : (x : A) → key (g x) ≡ key x) where
    pub find-update_where :
        (j : ℕ) (rows : List A)
        → find j (update_where k g rows)
          ≡ (if j == k then map_option g (find j rows) else find j rows)
    find-update_where j [] = ground arith
    find-update_where j (x ∷ rows) = ground (arith, find-update_where j rows, keeps x)

    pub update_where-IsKeyed : (rows : List A) → IsKeyed rows → IsKeyed (update_where k g rows)
    update_where-IsKeyed [] h = tt
    update_where-IsKeyed (x ∷ rows) h = (
      ground (arith, find-update_where (key x) rows, keeps x, h.0),
      update_where-IsKeyed rows h.1,
    )

  pub append-IsKeyed :
      (rows : List A) (x : A) → IsKeyed rows → find (key x) rows ≡ none → IsKeyed (rows ++ x ∷ [])
  append-IsKeyed [] x h fresh = (refl, tt)
  append-IsKeyed (y ∷ rows) x h fresh =
      (ground (arith, find-append (key y) rows x, h.0), append-IsKeyed rows x h.1 (ground arith))

  abbrev pub sum_by : (A → ℕ) → List A → ℕ
  sum_by f [] = 0
  sum_by f (x ∷ rows) = f x + sum_by f rows

  sum_by-untouched :
      (f : A → ℕ) (k : ℕ) (g : A → A) (rows : List A)
      → find k rows ≡ none
      → sum_by f (update_where k g rows) ≡ sum_by f rows
  sum_by-untouched f k g [] h = refl
  sum_by-untouched f k g (x ∷ rows) h = ground (arith, sum_by-untouched f k g rows)

  -- An update by primary key changes a sum by one row's share.
  pub sum_by-update_where :
      (f : A → ℕ) (k : ℕ) (g : A → A) (rows : List A) (x : A)
      → IsKeyed rows
      → find k rows ≡ some x
      → sum_by f (update_where k g rows) + f x ≡ sum_by f rows + f (g x)
  sum_by-update_where f k g [] x h e = absurd (cc e)
  sum_by-update_where f k g (y ∷ rows) x h e = elim (Bool-cases (key y == k)) [
    | inl here ↦ ground (arith, sum_by-untouched f k g rows, nat_eq.beq_iff (key y) k, h.0)
    | inr later ↦ ground (arith, sum_by-update_where f k g rows x h.1)
  ]

  -- A row that is found further down is found past a row with another key.
  pub find_later :
      (x : A) (k : ℕ) (rows : List A) (y : A)
      → find (key x) rows ≡ none
      → find k rows ≡ some y
      → find k (x ∷ rows) ≡ some y
  find_later x k rows y fresh h = elim (Bool-cases (key x == k)) [
    | inl same ↦
        let e : key x ≡ k = (nat_eq.beq_iff (key x) k).0 same in
        absurd (cc (fresh, h, ap (λ i. find i rows) e))
    | inr other ↦ rw other h
  ]

  pub find_head : (x : A) (rows : List A) → find (key x) (x ∷ rows) ≡ some x
  find_head x rows = rw ((nat_eq.beq_iff (key x) (key x)).1 refl)

  pub update_where-untouched :
      (k : ℕ) (g : A → A) (rows : List A) → find k rows ≡ none → update_where k g rows ≡ rows
  update_where-untouched k g [] h = refl
  update_where-untouched k g (x ∷ rows) h = ground (arith, update_where-untouched k g rows)

  -- An update by primary key has only to keep a property at the row that it finds.
  pub All-update_found {κ} :
      (P : A → Type κ) (k : ℕ) (g : A → A) (rows : List A) (x : A)
      → IsKeyed rows
      → find k rows ≡ some x
      → P (g x)
      → All P rows
      → All P (update_where k g rows)
  All-update_found P k g [] x keyed e p h = absurd (cc e)
  All-update_found P k g (y ∷ rows) x keyed e p h = elim (Bool-cases (key y == k)) [
    | inl here ↦
        let same : y ≡ x = ground arith in
        let at_k : key y ≡ k = (nat_eq.beq_iff (key y) k).0 here in
        let rest : find k rows ≡ none = subst (λ i. find i rows ≡ none) at_k keyed.0 in
        (
          rw here (subst (λ z. P (g z)) (sym same) p),
          subst (All P) (sym (update_where-untouched k g rows rest)) h.1,
        )
    | inr later ↦ (rw later h.0, All-update_found P k g rows x keyed.1 (rw later at e) p h.1)
  ]

  -- Two updates of one key in a row are one.
  pub update_where-fuse :
      (k : ℕ) (f g : A → A) (rows : List A)
      → ((x : A) → key (g x) ≡ key x)
      → update_where k f (update_where k g rows) ≡ update_where k (λ x. f (g x)) rows
  update_where-fuse k f g [] keeps = refl
  update_where-fuse k f g (x ∷ rows) keeps =
      ground (arith, keeps x, update_where-fuse k f g rows keeps)
