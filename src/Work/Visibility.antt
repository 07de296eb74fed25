-- ===== src/Work/Visibility.antt =====
-- Visibility levels of contexts/work/domain.py. Every level is in VISIBILITY_ORDER and the edge
-- admits no other text, so the `ValueError` branch of `_rank` is not modelled.
use aiworkos.Base.{
  ℕ, suc, ◌≤◌, ◌<◌, ◌≡◌, ◌↔◌, Bool, Option, none, some, List, [], ◌∷◌, arith, ◌==◌, leb,
  if◌then◌else◌,
}
use aiworkos.Base.Result.{Result, ok, err, br_w_19, domain_rule_violation, violation}
use aiworkos.Work.Vocabulary.{Visibility, organization, department, team, restricted, visibility_eq}
use Prim.Native.Nat.{max}

abbrev pub visibility_order : List Visibility
visibility_order = organization ∷ department ∷ team ∷ restricted ∷ []

-- `xs.index(a)` of an element of `xs`.
abbrev pub index {ℓ} : {A : Type ℓ} → (A → A → Bool) → A → List A → ℕ
index same a [] = 0
index same a (x ∷ xs) = let rest = index same a xs in if same a x then 0 else suc rest

abbrev pub rank : Visibility → ℕ
rank level = index (λ a b. a == b) level visibility_order

unfoldable pub is_narrower_or_equal : Visibility → Visibility → Bool
is_narrower_or_equal candidate limit = leb (rank limit) (rank candidate)

abbrev pub given_or : Option Visibility → Visibility → Visibility
given_or none default = default
given_or (some level) default = level

-- `requested`, `project_visibility`, `default`
unfoldable pub effective_work_visibility :
    Option Visibility → Option Visibility → Visibility → Result Visibility
unfolding is_narrower_or_equal
effective_work_visibility requested none default = ok (given_or requested default)
effective_work_visibility none (some limit) default = ok limit
effective_work_visibility (some level) (some limit) default =
    if is_narrower_or_equal level limit then ok level else violation br_w_19

unfoldable pub narrowing_to : Visibility → Visibility → Option Visibility
unfolding is_narrower_or_equal
narrowing_to current limit = if is_narrower_or_equal current limit then none else some limit

-- Where a Work's level is accepted inside a Project, it is never wider than the Project's; it is
-- the level that was asked for, or the Project's if none was.
pub effective_work_visibility-narrower :
    (requested : Option Visibility) (limit default level : Visibility)
    → effective_work_visibility requested (some limit) default ≡ ok level
    → (rank limit ≤ rank level) × (given_or requested limit ≡ level)
unfolding effective_work_visibility
effective_work_visibility-narrower none limit default level h = ground arith
effective_work_visibility-narrower (some asked) limit default level h = ground arith

-- A level asked for inside a Project is refused, with BR-W-19, exactly when it is wider than the
-- Project's.
pub effective_work_visibility_refuses :
    (asked limit default : Visibility)
    → (effective_work_visibility (some asked) (some limit) default
        ≡ err (domain_rule_violation br_w_19))
      ↔ (rank asked < rank limit)
unfolding effective_work_visibility
effective_work_visibility_refuses asked limit default = (λ h. ground arith, λ h. ground arith)

-- What a cascade leaves a Work at is the narrower of its own level and the limit, and a Work that
-- already is as narrow as the limit is not touched.
pub narrowing_to-max :
    (current limit : Visibility)
    → (rank (given_or (narrowing_to current limit) current) ≡ max (rank current) (rank limit))
      × ((narrowing_to current limit ≡ none) ↔ (rank limit ≤ rank current))
unfolding narrowing_to
narrowing_to-max current limit = (ground arith, (λ h. ground arith, λ h. ground arith))
