-- ===== src/Base/Lists.antt =====
-- Lists under native lengths, with Python's `in`, `any` and comprehension filters as tests.
use Prim.Native.Nat.{ℕ, suc, ◌+◌, ◌≤◌}
use mathlib.Core.Path.{◌≡◌, refl, ap}
use mathlib.Core.Logic.{inl, inr, ◌↔◌}
use mathlib.Core.Bool.{Bool, true, false, ◌||◌}
use mathlib.Core.List.{List, [], ◌∷◌, ◌++◌, Memᴰ}
use mathlib.Core.List.Memᴰ
use native.Mathlib.Omega.{arith}
use aiworkos.Base.Tests.{if◌then◌else◌, Bool-cases}
use aiworkos.Base.Equality.{Eq, ◌==◌}

module _ {ℓ} {A : Type ℓ} where
  abbrev pub length : List A → ℕ
  length [] = 0
  length (x ∷ xs) = suc (length xs)

  -- `any(p(x) for x in xs)`
  abbrev pub any : (A → Bool) → List A → Bool
  any p [] = false
  any p (x ∷ xs) = p x || any p xs

  -- `[x for x in xs if p(x)]`
  abbrev pub filter : (A → Bool) → List A → List A
  filter p [] = []
  filter p (x ∷ xs) = let rest = filter p xs in if p x then x ∷ rest else rest

  abbrev pub count : (A → Bool) → List A → ℕ
  count p [] = 0
  count p (x ∷ xs) = let rest = count p xs in if p x then suc rest else rest

  pub length-append : (xs ys : List A) → length (xs ++ ys) ≡ length xs + length ys
  length-append [] ys = omega arith
  length-append (x ∷ xs) ys = omega (arith, length-append xs ys)

  pub count-append : (p : A → Bool) (xs ys : List A) → count p (xs ++ ys) ≡ count p xs + count p ys
  count-append p [] ys = omega arith
  count-append p (x ∷ xs) ys = ground (arith, count-append p xs ys)

  pub count-le-length : (p : A → Bool) (xs : List A) → count p xs ≤ length xs
  count-le-length p [] = omega arith
  count-le-length p (x ∷ xs) = ground (arith, count-le-length p xs)

-- Every element satisfies the predicate.
abbrev pub All {ℓ κ} : {A : Type ℓ} → (A → Type κ) → List A → Type κ
All P [] = Unit
All P (x ∷ xs) = P x × All P xs

pub All-of-mem {ℓ κ} :
    {A : Type ℓ} (P : A → Type κ) (xs : List A) → ((x : A) → Memᴰ x xs → P x) → All P xs
All-of-mem P [] h = tt
All-of-mem P (x ∷ xs) h = (h x (Memᴰ.head refl), All-of-mem P xs (λ y m. h y (Memᴰ.tail m)))

module _ {A : Type 0} ⦃e : Eq A⦄ where
  -- `a in xs`
  abbrev pub contains : A → List A → Bool
  contains a [] = false
  contains a (x ∷ xs) = a == x || contains a xs

  pub contains_iff : (a : A) (xs : List A) → (contains a xs ≡ true) ↔ Memᴰ a xs
  contains_iff a [] = (λ h. cc, λ m. absurd (Memᴰ.not-nil m))
  contains_iff a (x ∷ xs) = (
    λ h. elim (Bool-cases (a == x)) [
      | inl p ↦ Memᴰ.head ((e.beq_iff a x).0 p)
      | inr p ↦ Memᴰ.tail ((contains_iff a xs).0 (ground arith))
    ],
    λ m. elim (Memᴰ.cases_cons m) [
      | inl p ↦ ground (arith, (e.beq_iff a x).1 p)
      | inr p ↦ ground (arith, (contains_iff a xs).1 p)
    ],
  )

module _ {ℓ} {A : Type ℓ} where
  -- The element at which a test passes, and the other way round.
  pub any_witness :
      (p : A → Bool) (xs : List A) → any p xs ≡ true → (x : A) × Memᴰ x xs × (p x ≡ true)
  any_witness p [] h = absurd (cc h)
  any_witness p (x ∷ xs) h = elim (Bool-cases (p x)) [
    | inl here ↦ (x, Memᴰ.head refl, here)
    | inr later ↦ let (y, m, k) = any_witness p xs (ground arith) in (y, Memᴰ.tail m, k)
  ]

  pub any_of_mem : (p : A → Bool) (x : A) (xs : List A) → Memᴰ x xs → p x ≡ true → any p xs ≡ true
  any_of_mem p x [] m h = absurd (Memᴰ.not-nil m)
  any_of_mem p x (y ∷ xs) m h = elim (Memᴰ.cases_cons m) [
    | inl e ↦ ground (arith, ap p e)
    | inr later ↦ ground (arith, any_of_mem p x xs later h)
  ]
