-- ===== src/Base/Forest.antt =====
-- Hierarchies given by parent pointers: the chain of ancestors that the recursive queries return,
-- depth, and what moving one node under another does. Work items and departments share this.
use Prim.Native.Nat.{ℕ, zero, suc, ◌+◌, ◌≤◌, ◌<◌}
use mathlib.Core.Path.{◌≡◌, subst, sym, ap, ◌∙◌}
use mathlib.Core.Logic.{◌≢◌, inl, inr}
use mathlib.Core.Bool.{true, false}
use mathlib.Core.Option.{Option, none, some}
use mathlib.Core.List.{List, [], ◌∷◌}
use native.Mathlib.Omega.{arith}
use aiworkos.Base.Tests.{if◌then◌else◌, Bool-cases, Option-cases}
use aiworkos.Base.Equality.{◌==◌, nat_eq, beq_refl}
use aiworkos.Base.Lists.{length, contains}

-- The parent of each node.
abbrev pub Forest : Type 0
Forest = ℕ → Option ℕ

-- The parent chain above a node, nearest first, at most `fuel` long.
abbrev pub ancestors : Forest → ℕ → ℕ → List ℕ
ancestors f zero n = []
ancestors f (suc fuel) n = elim (f n) [ none ↦ [] | some p ↦ p ∷ ancestors f fuel p ]

abbrev pub reparent : Forest → ℕ → ℕ → Forest
reparent f w p n = if n == w then some p else f n

-- The number of nodes on the way from a node up to its root, both counted.
pub data Depth (f : Forest) : ℕ → ℕ → Type 0 where
  root : {n : ℕ} → f n ≡ none → Depth f n 1
  under : {n : ℕ} {d : ℕ} (p : ℕ) → f n ≡ some p → Depth f p d → Depth f n (suc d)

-- Every node reaches a root, so there is no cycle.
abbrev pub IsRooted : Forest → Type 0
IsRooted f = (n : ℕ) → (d : ℕ) × Depth f n d

abbrev pub IsShallow : ℕ → Forest → Type 0
IsShallow limit f = (n : ℕ) → (d : ℕ) × Depth f n d × (d ≤ limit)

module _ (f : Forest) (w p : ℕ) where
  reparent_ne : (n : ℕ) → (n == w) ≡ false → reparent f w p n ≡ f n
  reparent_ne n h = rw h

  reparent_self : reparent f w p w ≡ some p
  reparent_self = rw (beq_refl w)

  -- A chain that avoids the moved node and is shorter than the query's limit is whole, and the
  -- move leaves it alone.
  chain_kept :
      (fuel n : ℕ)
      → (n == w) ≡ false
      → contains w (ancestors f fuel n) ≡ false
      → length (ancestors f fuel n) < fuel
      → Depth (reparent f w p) n (suc (length (ancestors f fuel n)))
  chain_kept zero n ne h l = absurd (omega arith)
  chain_kept (suc fuel) n ne h l = elim (Option-cases (f n)) [
    | inl e ↦ rw (e, ancestors) (root (reparent_ne n ne ∙ e))
    | inr (q, e) ↦
        let step = chain_kept fuel q (ground arith) (ground arith) (ground arith) in
        rw (e, ancestors) (under q (reparent_ne n ne ∙ e) step)
  ]

  -- The guards that a placement checks: the node is not its own parent, nor above its parent, and
  -- the query saw the whole chain.
  pub record Placeable (fuel : ℕ) : Type 0 where
    pub other : (p == w) ≡ false
    pub below : contains w (ancestors f fuel p) ≡ false
    pub whole : length (ancestors f fuel p) < fuel

  -- The moved node stands as deep as the chain, its parent and itself.
  pub reparent-Depth :
      (fuel : ℕ) → Placeable fuel → Depth (reparent f w p) w (length (ancestors f fuel p) + 2)
  reparent-Depth fuel h =
      let above = chain_kept fuel p h.other h.below h.whole in
      let here : Depth (reparent f w p) w (suc (suc (length (ancestors f fuel p)))) =
        under p reparent_self above in
      subst (Depth (reparent f w p) w) (omega arith) here

  moved_Depth :
      (fuel n : ℕ)
      → Placeable fuel
      → (n == w) ≡ true
      → Depth (reparent f w p) n (length (ancestors f fuel p) + 2)
  moved_Depth fuel n h same =
      subst (λ k. Depth (reparent f w p) k (length (ancestors f fuel p) + 2))
        (sym ((nat_eq.beq_iff n w).0 same)) (reparent-Depth fuel h)

  rooted_under :
      (fuel n d : ℕ) → Placeable fuel → Depth f n d → (e : ℕ) × Depth (reparent f w p) n e
  rooted_under fuel n d h (root e) = elim (Bool-cases (n == w)) [
    | inl same ↦ (length (ancestors f fuel p) + 2, moved_Depth fuel n h same)
    | inr ne ↦ (1, root (reparent_ne n ne ∙ e))
  ]
  rooted_under fuel n (suc d) h (under q e above) = elim (Bool-cases (n == w)) [
    | inl same ↦ (length (ancestors f fuel p) + 2, moved_Depth fuel n h same)
    | inr ne ↦
        let (e', step) = rooted_under fuel q d h above in
        (suc e', under q (reparent_ne n ne ∙ e) step)
  ]

  -- A placement makes no cycle.
  pub reparent-IsRooted : (fuel : ℕ) → Placeable fuel → IsRooted f → IsRooted (reparent f w p)
  reparent-IsRooted fuel h rooted n = let (d, chain) = rooted n in rooted_under fuel n d h chain

  kept_of_leaf :
      (n d : ℕ)
      → ((m : ℕ) → f m ≢ some w)
      → (n == w) ≡ false
      → Depth f n d
      → Depth (reparent f w p) n d
  kept_of_leaf n d leaf ne (root e) = root (reparent_ne n ne ∙ e)
  kept_of_leaf n (suc d) leaf ne (under q e above) = under q (reparent_ne n ne ∙ e) (
      kept_of_leaf q d leaf
        (elim (Bool-cases (q == w)) [
          | inl same ↦ absurd (leaf n (e ∙ ap some ((nat_eq.beq_iff q w).0 same)))
          | inr other ↦ other
        ])
        above)

  -- Placing a node that has nothing under it keeps a bound on the depth, if the placement keeps it.
  pub reparent-IsShallow :
      (fuel limit : ℕ)
      → Placeable fuel
      → ((m : ℕ) → f m ≢ some w)
      → length (ancestors f fuel p) + 2 ≤ limit
      → IsShallow limit f
      → IsShallow limit (reparent f w p)
  reparent-IsShallow fuel limit h leaf short shallow n = elim (Bool-cases (n == w)) [
    | inl same ↦ (length (ancestors f fuel p) + 2, moved_Depth fuel n h same, short)
    | inr ne ↦ let (d, chain, bound) = shallow n in (d, kept_of_leaf n d leaf ne chain, bound)
  ]
