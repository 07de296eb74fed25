-- ===== src/Base/Loop.antt =====
-- Loops over rows of a table that were read before the loop, whose rounds each write the table.
use Prim.Native.Nat.{ℕ}
use mathlib.Core.Path.{◌≡◌, refl, sym, ◌∙◌, subst, ap}
use mathlib.Core.Logic.{inl, inr}
use mathlib.Core.Bool.{Bool, true, false}
use mathlib.Core.Option.{none, some}
use mathlib.Core.List.{List, [], ◌∷◌}
use native.Mathlib.Omega.{arith}
use aiworkos.Base.Tests.{Bool-cases}
use aiworkos.Base.Equality.{◌==◌, nat_eq}
use aiworkos.Base.Lists.{All, filter}
use aiworkos.Base.Table.{find, IsKeyed, find_later, find_head}
use aiworkos.Base.Result.{Result, ok, ◌>>=◌, each, returned, same_value}

-- What every round keeps, the loop keeps.
pub each-keeps :
    {A S : Type 0} (body : A → S → Result S) (P : S → Type 0)
    → ((x : A) (s t : S) → body x s ≡ ok t → P s → P t)
    → (xs : List A) (s t : S) → each xs body s ≡ ok t
    → P s
    → P t
each-keeps body P keep [] s t h p = subst P (cc h) p
each-keeps body P keep (x ∷ xs) s t h p =
    let (u, e, k) = returned (body x s) _ h in each-keeps body P keep xs u t k (keep x s u e p)

module _ {A : Type 0} (key : A → ℕ) where
  map_filter_found :
      (p : A → Bool) (x : A) (rows : List A) (ys : List A)
      → find key (key x) rows ≡ none
      → All (λ y. find key (key y) rows ≡ some y) ys
      → All (λ y. find key (key y) (x ∷ rows) ≡ some y) ys
  map_filter_found p x rows [] fresh h = tt
  map_filter_found p x rows (y ∷ ys) fresh h =
      (find_later key x (key y) rows y fresh h.0, map_filter_found p x rows ys fresh h.1)

  -- The rows that a query selects are the ones found under their keys.
  pub filter-found :
      (p : A → Bool) (rows : List A)
      → IsKeyed key rows
      → All (λ y. find key (key y) rows ≡ some y) (filter p rows)
  filter-found p [] h = tt
  filter-found p (x ∷ rows) h =
      let rest = map_filter_found p x rows (filter p rows) h.0 (filter-found p rows h.1) in
      elim (Bool-cases (p x)) [
        | inl passes ↦ rw passes (find_head key x rows, rest)
        | inr fails ↦ rw fails rest
      ]

  filter-missing :
      (p : A → Bool) (k : ℕ) (rows : List A)
      → find key k rows ≡ none
      → find key k (filter p rows) ≡ none
  filter-missing p k [] h = refl
  filter-missing p k (x ∷ rows) h = ground (arith, filter-missing p k rows)

  pub filter-IsKeyed :
      (p : A → Bool) (rows : List A) → IsKeyed key rows → IsKeyed key (filter p rows)
  filter-IsKeyed p [] h = tt
  filter-IsKeyed p (x ∷ rows) h = elim (Bool-cases (p x)) [
    | inl passes ↦ rw passes (filter-missing p (key x) rows h.0, filter-IsKeyed p rows h.1)
    | inr fails ↦ rw fails (filter-IsKeyed p rows h.1)
  ]

  filter_has :
      (p : A → Bool) (k : ℕ) (rows : List A) (row : A)
      → find key k rows ≡ some row
      → p row ≡ true
      → ¬ All (λ y. (key y == k) ≡ false) (filter p rows)
  filter_has p k [] row h passes all = cc h
  filter_has p k (x ∷ rows) row h passes all = elim (Bool-cases (key x == k)) [
    | inl here ↦
        let same : x ≡ row = ground arith in
        let px : p x ≡ true = ap p same ∙ passes in cc (here, (rw px at all).0)
    | inr later ↦
        let there : find key k rows ≡ some row = ground arith in
        elim (Bool-cases (p x)) [
          | inl px ↦ filter_has p k rows row there passes (rw px at all).1
          | inr px ↦ filter_has p k rows row there passes (rw px at all)
        ]
  ]

  module _ {S : Type 0} (rows : S → List A) (body : A → S → Result S) where
    others_of_missing :
        (k : ℕ) (xs : List A) → find key k xs ≡ none → All (λ x. (key x == k) ≡ false) xs
    others_of_missing k [] h = tt
    others_of_missing k (x ∷ xs) h = elim (Bool-cases (key x == k)) [
      | inl here ↦ absurd (ground arith)
      | inr later ↦ (later, others_of_missing k xs (ground arith))
    ]

    carry_found :
        (k : ℕ) (s t : S) (xs : List A)
        → ((i : ℕ) → (i == k) ≡ false → find key i (rows t) ≡ find key i (rows s))
        → All (λ x. (key x == k) ≡ false) xs
        → All (λ x. find key (key x) (rows s) ≡ some x) xs
        → All (λ x. find key (key x) (rows t) ≡ some x) xs
    carry_found k s t [] frame others found = tt
    carry_found k s t (x ∷ xs) frame others found =
        (frame (key x) others.0 ∙ found.0, carry_found k s t xs frame others.1 found.1)

    -- Where each round writes only its own row, every round finds the row that was read before the
    -- loop, so what holds of one round on the current row holds of the loop.
    pub each-related :
        (R : S → S → Type 0)
        → ((s : S) → R s s)
        → ((s t u : S) → R s t → R t u → R s u)
        → ((x : A) (s t : S) → body x s ≡ ok t → find key (key x) (rows s) ≡ some x → R s t)
        → ((x : A) (s t : S)
            → body x s ≡ ok t
            → (i : ℕ) → (i == key x) ≡ false
            → find key i (rows t) ≡ find key i (rows s))
        → (xs : List A) (s t : S) → each xs body s ≡ ok t
        → All (λ x. find key (key x) (rows s) ≡ some x) xs
        → IsKeyed key xs
        → R s t
    each-related R same chain step frame [] s t h found keyed = subst (R s) (cc h) (same s)
    each-related R same chain step frame (x ∷ xs) s t h found keyed =
        let (u, e, k) = returned (body x s) _ h in
        let others = others_of_missing (key x) xs keyed.0 in
        chain s u t (step x s u e found.0) (
          each-related R same chain step frame xs u t k
            (carry_found (key x) s u xs (frame x s u e) others found.1) keyed.1)

    -- Where each round writes only its own row and clears a test there, the rows that still pass the
    -- test after the loop are as they were before it, and no round has been at them.
    each-clears :
        (p : A → Bool)
        → ((x : A) (s t : S)
            → body x s ≡ ok t
            → find key (key x) (rows s) ≡ some x
            → (row : A) → find key (key x) (rows t) ≡ some row
            → p row ≡ false)
        → ((x : A) (s t : S)
            → body x s ≡ ok t
            → (i : ℕ) → (i == key x) ≡ false
            → find key i (rows t) ≡ find key i (rows s))
        → (xs : List A) (s t : S) → each xs body s ≡ ok t
        → All (λ x. find key (key x) (rows s) ≡ some x) xs
        → IsKeyed key xs
        → (i : ℕ) (row : A) → find key i (rows t) ≡ some row
        → p row ≡ true
        → All (λ x. (key x == i) ≡ false) xs × (find key i (rows s) ≡ some row)
    each-clears p clears frame [] s t h found keyed i row there passes =
        (tt, subst (λ u. find key i (rows u) ≡ some row) (sym (same_value h)) there)
    each-clears p clears frame (x ∷ xs) s t h found keyed i row there passes =
        let (u, e, k) = returned (body x s) _ h in
        let others = others_of_missing (key x) xs keyed.0 in
        let (rest, at_u) =
          each-clears p clears frame xs u t k
            (carry_found (key x) s u xs (frame x s u e) others found.1) keyed.1 i row there
            passes in
        elim (Bool-cases (key x == i)) [
          | inl here ↦
              let at = (nat_eq.beq_iff (key x) i).0 here in
              let at_x : find key (key x) (rows u) ≡ some row =
                subst (λ k'. find key k' (rows u) ≡ some row) (sym at) at_u in
              absurd (cc (passes, clears x s u e found.0 row at_x))
          | inr other ↦
              let other' : (i == key x) ≡ false = ground (arith, other) in
              ((other, rest), sym (frame x s u e i other') ∙ at_u)
        ]

    -- So a loop over all the rows that may pass the test leaves none that passes it.
    pub each-clears_all :
        (p q : A → Bool)
        → ((x : A) → p x ≡ true → q x ≡ true)
        → ((x : A) (s t : S)
            → body x s ≡ ok t
            → find key (key x) (rows s) ≡ some x
            → (row : A) → find key (key x) (rows t) ≡ some row
            → p row ≡ false)
        → ((x : A) (s t : S)
            → body x s ≡ ok t
            → (i : ℕ) → (i == key x) ≡ false
            → find key i (rows t) ≡ find key i (rows s))
        → (s t : S) → IsKeyed key (rows s)
        → each (filter q (rows s)) body s ≡ ok t
        → (i : ℕ) (row : A) → find key i (rows t) ≡ some row
        → p row ≡ false
    each-clears_all p q within clears frame s t keyed h i row there = elim (Bool-cases (p row)) [
      | inr fails ↦ fails
      | inl passes ↦
          let (others, at_s) =
            each-clears p clears frame (filter q (rows s)) s t h (filter-found q (rows s) keyed)
              (filter-IsKeyed q (rows s) keyed) i row there passes in
          absurd (filter_has q i (rows s) row at_s (within row passes) others)
    ]

    -- Where each round returns on the row that it finds and leaves the state fit for the next, the
    -- loop returns.
    pub each-returns :
        (Fit : S → Type 0) (P : A → Type 0)
        → ((x : A) (s : S)
            → Fit s
            → P x
            → find key (key x) (rows s) ≡ some x
            → (t : S) × (body x s ≡ ok t) × Fit t)
        → ((x : A) (s t : S)
            → body x s ≡ ok t
            → (i : ℕ) → (i == key x) ≡ false
            → find key i (rows t) ≡ find key i (rows s))
        → (xs : List A) (s : S) → Fit s
        → All P xs
        → All (λ x. find key (key x) (rows s) ≡ some x) xs
        → IsKeyed key xs
        → (t : S) × (each xs body s ≡ ok t) × Fit t
    each-returns Fit P returns frame [] s fit ps found keyed = (s, refl, fit)
    each-returns Fit P returns frame (x ∷ xs) s fit ps found keyed =
        let (u, e, fit_u) = returns x s fit ps.0 found.0 in
        let others = others_of_missing (key x) xs keyed.0 in
        let (t, e', fit_t) =
          each-returns Fit P returns frame xs u fit_u ps.1
            (carry_found (key x) s u xs (frame x s u e) others found.1) keyed.1 in
        (t, ap (λ m. m >>= λ v. each xs body v) e ∙ e', fit_t)

  pub filter-passes : (p : A → Bool) (rows : List A) → All (λ x. p x ≡ true) (filter p rows)
  filter-passes p [] = tt
  filter-passes p (x ∷ rows) = elim (Bool-cases (p x)) [
    | inl passes ↦ rw passes (passes, filter-passes p rows)
    | inr fails ↦ rw fails (filter-passes p rows)
  ]
