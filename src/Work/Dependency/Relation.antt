-- ===== src/Work/Dependency/Relation.antt =====
-- What the active `blocks` edges mean: which endpoint holds up which, directly or in steps.
use aiworkos.Base.{
  ◌≡◌, refl, inl, inr, true, ◌&&◌, List, [], ◌∷◌, arith, ◌==◌, contains, beq_refl, Bool-cases, sym,
}
use mathlib.Core.List.{Memᴰ}
use mathlib.Core.List.Memᴰ
use aiworkos.Work.Dependency.{Endpoint, endpoint_eq, DependencyEdge, constrains, successors}

pub data Step (edges : List DependencyEdge) (a b : Endpoint) : Type 0 where
  along :
      (e : DependencyEdge)
      → Memᴰ e edges
      → constrains e ≡ true
      → e.blocker ≡ a
      → e.blocked ≡ b
      → Step edges a b

pub data Reach (edges : List DependencyEdge) (a : Endpoint) : Endpoint → Type 0 where
  here : Reach edges a a
  next : {b c : Endpoint} → Reach edges a b → Step edges b c → Reach edges a c

pub Reach-trans :
    {edges : List DependencyEdge} {a b c : Endpoint}
    → Reach edges a b
    → Reach edges b c
    → Reach edges a c
Reach-trans r here = r
Reach-trans r (next s st) = next (Reach-trans r s) st

-- No endpoint holds itself up.
abbrev pub IsAcyclic : List DependencyEdge → Type 0
IsAcyclic edges = (a b : Endpoint) → Step edges a b → ¬ Reach edges b a

pub successors_complete :
    (edges : List DependencyEdge) (e : DependencyEdge)
    → Memᴰ e edges
    → constrains e ≡ true
    → contains e.blocked (successors edges e.blocker) ≡ true
successors_complete [] e m h = absurd (Memᴰ.not-nil m)
successors_complete (x ∷ edges) e m h = elim (Memᴰ.cases_cons m) [
  | inl p ↦ ground (arith, p, beq_refl e.blocker, beq_refl e.blocked)
  | inr rest ↦ ground (arith, successors_complete edges e rest h)
]

pub Step-weaken :
    {edges : List DependencyEdge} {a b : Endpoint} (x : DependencyEdge)
    → Step edges a b
    → Step (x ∷ edges) a b
Step-weaken x (along e m h p q) = along e (Memᴰ.tail m) h p q

pub successors_sound :
    (edges : List DependencyEdge) (a b : Endpoint)
    → contains b (successors edges a) ≡ true
    → Step edges a b
successors_sound [] a b h = cc
successors_sound (x ∷ edges) a b h = elim (Bool-cases (constrains x && (x.blocker == a))) [
  | inr skipped ↦ Step-weaken x (successors_sound edges a b (rw skipped at h))
  | inl taken ↦ elim (Bool-cases (b == x.blocked)) [
    | inl same ↦
        along x (Memᴰ.head refl) (ground arith) ((endpoint_eq.beq_iff _ _).0 (ground arith))
          (sym ((endpoint_eq.beq_iff b x.blocked).0 same))
    | inr other ↦ Step-weaken x (successors_sound edges a b (ground arith))
  ]
]
