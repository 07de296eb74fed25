-- ===== src/Work/Dependency/Acyclic.antt =====
-- What an accepted dependency does to the active `blocks` edges.
use aiworkos.Base.{
  ◌≡◌, sym, subst, ◌⊎◌, inl, inr, true, List, [], ◌∷◌, ◌++◌, arith, nat_eq, length, ◌+◌, ℕ,
}
use mathlib.Core.List.Memᴰ
use aiworkos.Base.Result.{ok}
use aiworkos.Work.Vocabulary.{DependencyKind, dependency_kind_eq, dependency_status_eq}
use aiworkos.Work.Dependency.{
  Endpoint, endpoint_eq, DependencyEdge, constrains, no_cycle, find_cycle, validate_dependency,
}
use aiworkos.Work.Dependency.Relation.{Step, along, Reach, here, next, Reach-trans, IsAcyclic}
use aiworkos.Work.Dependency.Closed.{search_from-unreachable}

-- Where the search for a `blocks` candidate finds no cycle, the candidate's blocker is not behind
-- what it would block.
pub find_cycle-unreachable :
    (edges : List DependencyEdge) (candidate : DependencyEdge)
    → candidate.kind ≡ DependencyKind.blocks
    → find_cycle edges candidate ≡ no_cycle
    → ¬ Reach edges candidate.blocked candidate.blocker
unfolding find_cycle
find_cycle-unreachable edges candidate k h =
    search_from-unreachable edges candidate.blocker (length edges + 1) candidate.blocked
      (candidate.blocker ∷ []) (ground arith)

module _ (edges : List DependencyEdge) (new : DependencyEdge) where
  Step-split :
      {a b : Endpoint}
      → Step (edges ++ new ∷ []) a b
      → Step edges a b ⊎ ((constrains new ≡ true) × (new.blocker ≡ a) × (new.blocked ≡ b))
  Step-split {a} {b} (along e m c p q) = elim (Memᴰ.append_cases edges m) [
    | inl old ↦ inl (along e old c p q)
    | inr last ↦
        let same = Memᴰ.eq_of_singleton last in
        inr (
          subst (λ x. constrains x ≡ true) same c,
          subst (λ (x : DependencyEdge). x.blocker ≡ a) same p,
          subst (λ (x : DependencyEdge). x.blocked ≡ b) same q,
        )
  ]

  -- A way through the new edge reaches its blocker, and goes on from what it blocks.
  Reach-split :
      {a b : Endpoint}
      → Reach (edges ++ new ∷ []) a b
      → Reach edges a b
        ⊎ ((constrains new ≡ true) × Reach edges a new.blocker × Reach edges new.blocked b)
  Reach-split here = inl here
  Reach-split {a} (next r st) = elim (Reach-split r) [
    | inl old ↦ elim (Step-split st) [
      | inl old_step ↦ inl (next old old_step)
      | inr (c, p, q) ↦
          inr (c, subst (Reach edges a) (sym p) old, subst (Reach edges new.blocked) q here)
    ]
    | inr (c, before, after) ↦ elim (Step-split st) [
      | inl old_step ↦ inr (c, before, next after old_step)
      | inr (c', p, q) ↦ inr (c, before, subst (Reach edges new.blocked) q here)
    ]
  ]

  -- A new edge whose blocker is not behind what it blocks closes no cycle.
  append-IsAcyclic :
      IsAcyclic edges
      → (constrains new ≡ true → ¬ Reach edges new.blocked new.blocker)
      → IsAcyclic (edges ++ new ∷ [])
  append-IsAcyclic acyclic apart a b st r = elim (Step-split st) [
    | inl old_step ↦ elim (Reach-split r) [
      | inl old ↦ acyclic a b old_step old
      | inr (c, before, after) ↦ apart c (Reach-trans (next after old_step) before)
    ]
    | inr (c, p, q) ↦ elim (Reach-split r) [
      | inl old ↦
          apart c
            (subst (λ x. Reach edges x new.blocker) (sym q) (subst (Reach edges b) (sym p) old))
      | inr (c', before, after) ↦ apart c (subst (λ x. Reach edges x new.blocker) (sym q) before)
    ]
  ]

blocks_of_constrains : (e : DependencyEdge) → constrains e ≡ true → e.kind ≡ DependencyKind.blocks
blocks_of_constrains e h = ground arith

no_cycle_of_accepted :
    (candidate : DependencyEdge) (existing : List DependencyEdge) (blocker_org blocked_org : ℕ)
    → validate_dependency candidate existing blocker_org blocked_org ≡ ok tt
    → find_cycle existing candidate ≡ no_cycle
unfolding validate_dependency
no_cycle_of_accepted candidate existing o p h = ground arith

-- A dependency that is accepted, once added, leaves the active `blocks` edges without a cycle if
-- they had none: no endpoint ends up waiting for itself.
pub validate_dependency-IsAcyclic :
    (candidate : DependencyEdge) (existing : List DependencyEdge) (blocker_org blocked_org : ℕ)
    → IsAcyclic existing
    → validate_dependency candidate existing blocker_org blocked_org ≡ ok tt
    → IsAcyclic (existing ++ candidate ∷ [])
validate_dependency-IsAcyclic candidate existing o p acyclic h =
    append-IsAcyclic existing candidate acyclic λ c.
      find_cycle-unreachable existing candidate (blocks_of_constrains candidate c)
        (no_cycle_of_accepted candidate existing o p h)
