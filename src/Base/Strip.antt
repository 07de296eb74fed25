-- ===== src/Base/Strip.antt =====
-- What `str.strip` leaves of a text.
use aiworkos.Base.{
  ◌≡◌, refl, ◌∙◌, ap, sym, Bool, true, false, not, ◌||◌, List, [], ◌∷◌, ◌++◌, arith, nat_eq, any,
  Bool-cases, inl, inr, ℕ,
}
use mathlib.Core.List.{reverse, reverse-cons}
use aiworkos.Base.Text.{Text, is_space, lstrip, strip, is_empty}

pub any-append {ℓ} :
    {A : Type ℓ} (p : A → Bool) (xs ys : List A) → any p (xs ++ ys) ≡ (any p xs || any p ys)
any-append p [] ys = refl
any-append p (x ∷ xs) ys = ground (arith, any-append p xs ys)

any-reverse : (p : ℕ → Bool) (xs : Text) → any p (reverse xs) ≡ any p xs
any-reverse p [] = refl
any-reverse p (x ∷ xs) =
    ap (any p) (reverse-cons x xs)
    ∙ ground (arith, any-append p (reverse xs) (x ∷ []), any-reverse p xs)

-- A text that is not empty after its leading white space is off begins with something else.
lstrip-visible :
    (xs : Text) → is_empty (lstrip xs) ≡ false → any (λ c. not (is_space c)) (lstrip xs) ≡ true
unfolding lstrip
lstrip-visible [] h = absurd (cc h)
lstrip-visible (x ∷ xs) h = elim (Bool-cases (is_space x)) [
  | inl space ↦ rw space (lstrip-visible xs (rw space at h))
  | inr visible ↦ rw visible (rw visible refl)
]

is_empty-reverse : (xs : Text) → is_empty (reverse xs) ≡ is_empty xs
is_empty-reverse [] = refl
is_empty-reverse (x ∷ xs) = ap is_empty (reverse-cons x xs) ∙ snoc (reverse xs) x
  where
    snoc : (ys : Text) (y : ℕ) → is_empty (ys ++ y ∷ []) ≡ false
    snoc [] y = refl
    snoc (z ∷ ys) y = refl

-- A stripped text that is not empty has a character that is no white space.
pub strip-visible :
    (xs : Text) → is_empty (strip xs) ≡ false → any (λ c. not (is_space c)) (strip xs) ≡ true
unfolding strip
strip-visible xs h =
    any-reverse (λ c. not (is_space c)) (lstrip (reverse (lstrip xs)))
    ∙ lstrip-visible (reverse (lstrip xs))
        (sym (is_empty-reverse (lstrip (reverse (lstrip xs)))) ∙ h)
