-- ===== src/Base/Equality.antt =====
-- Python's `==` on values: an interface with its law, and its instances.
use Prim.Native.Nat.{ℕ}
use mathlib.Core.Path.{◌≡◌, refl, ap}
use mathlib.Core.Logic.{◌↔◌}
use mathlib.Core.Bool.{Bool, true, false}
use mathlib.Core.Option.{Option, none, some}
use aiworkos.Base.Tests.{eqb, eqb_iff}

-- `beq` decides equality.
pub record Eq {ℓ} (Value : Type ℓ) : Type ℓ where
  pub beq : (x y : Value) → Bool
  pub beq_iff : (x y : Value) → (beq x y ≡ true) ↔ (x ≡ y)

-- `x == y`, with the instance of the values' type.
infix 50 ◌==◌
abbrev pub ◌==◌ {ℓ} : {Value : Type ℓ} ⦃same : Eq Value⦄ (x y : Value) → Bool
◌==◌ ⦃same⦄ x y = same.beq x y

instance abbrev pub nat_eq : Eq ℕ
nat_eq = record { beq = eqb; beq_iff = eqb_iff }

-- An enumeration is compared by the positions of its members.
pub positions_iff :
    {A : Type 0} (position : A → ℕ)
    → ((a b : A) → position a ≡ position b → a ≡ b)
    → (a b : A) → (eqb (position a) (position b) ≡ true) ↔ (a ≡ b)
positions_iff position injective a b =
    (λ h. injective a b ((eqb_iff _ _).0 h), λ h. (eqb_iff _ _).1 (ap position h))

abbrev pub Eq_of_positions :
    {A : Type 0} (position : A → ℕ) → ((a b : A) → position a ≡ position b → a ≡ b) → Eq A
Eq_of_positions position injective = record {
  beq = λ a b. eqb (position a) (position b);
  beq_iff = positions_iff position injective;
}

module _ {A : Type 0} ⦃e : Eq A⦄ where
  abbrev pub option_beq : Option A → Option A → Bool
  option_beq none none = true
  option_beq (some a) (some b) = a == b
  option_beq _ _ = false

  pub option_beq_iff : (a b : Option A) → (option_beq a b ≡ true) ↔ (a ≡ b)
  option_beq_iff none none = (λ h. refl, λ h. refl)
  option_beq_iff none (some b) = (λ h. cc, λ h. cc)
  option_beq_iff (some a) none = (λ h. cc, λ h. cc)
  option_beq_iff (some a) (some b) =
      (λ h. ap some ((e.beq_iff a b).0 h), λ h. (e.beq_iff a b).1 (cc))

  instance abbrev pub option_eq : Eq (Option A)
  option_eq = record { beq = option_beq; beq_iff = option_beq_iff }

  pub beq_refl : (a : A) → (a == a) ≡ true
  beq_refl a = (e.beq_iff a a).1 refl
