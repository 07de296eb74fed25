-- ===== src/Work/Dependency/Closed.antt =====
-- Where the search finds no cycle: the nodes it has seen are closed under the edges.
use aiworkos.Base.{
  ℕ, zero, suc, ◌≡◌, refl, ap, sym, subst, inl, inr, true, false, ◌||◌, List, [], ◌∷◌, ◌++◌, map,
  arith, ◌==◌, contains, Bool-cases, beq_refl,
}
use mathlib.Core.List.{Memᴰ}
use aiworkos.Work.Dependency.{
  Endpoint, endpoint_eq, DependencyEdge, constrains, successors, Frame, push, no_cycle, search_from,
}
use aiworkos.Work.Dependency.Relation.{along, Reach, here, next, successors_complete}

abbrev pub nodes : List Frame → List Endpoint
nodes stack = map (λ f. f.0) stack

contains-push :
    (n : Endpoint) (xs path : List Endpoint) (stack : List Frame)
    → contains n (nodes (push xs path stack)) ≡ (contains n xs || contains n (nodes stack))
contains-push n [] path stack = refl
contains-push n (x ∷ xs) path stack = ground (arith, contains-push n xs path ((x, path) ∷ stack))

module _ (edges : List DependencyEdge) (target : Endpoint) where
  -- Every successor of a seen node is seen, or waits on the stack; the target is not seen.
  pub record Inv (stack : List Frame) (seen : List Endpoint) : Type 0 where
    pub avoids : contains target seen ≡ false
    pub covers :
        (e : DependencyEdge)
        → Memᴰ e edges
        → constrains e ≡ true
        → contains e.blocker seen ≡ true
        → (contains e.blocked seen || contains e.blocked (nodes stack)) ≡ true

  Inv-skip :
      (node : Endpoint) (path : List Endpoint) (stack : List Frame) (seen : List Endpoint)
      → contains node seen ≡ true
      → Inv ((node, path) ∷ stack) seen
      → Inv stack seen
  Inv-skip node path stack seen old inv = record {
    avoids = inv.avoids;
    covers = λ e m c s. elim (Bool-cases (e.blocked == node)) [
      | inl same ↦
          let at_node : e.blocked ≡ node = (endpoint_eq.beq_iff e.blocked node).0 same in
          ground (arith, ap (λ k. contains k seen) at_node)
      | inr other ↦ ground (arith, inv.covers e m c s)
    ];
  }

  Inv-deeper :
      (node : Endpoint) (path path' : List Endpoint) (stack : List Frame) (seen : List Endpoint)
      → (node == target) ≡ false
      → Inv ((node, path) ∷ stack) seen
      → Inv (push (successors edges node) path' stack) (node ∷ seen)
  Inv-deeper node path path' stack seen onward inv = record {
    avoids = ground (arith, inv.avoids);
    covers = λ e m c s. elim (Bool-cases (e.blocker == node)) [
      | inl same ↦
          let at_node : e.blocker ≡ node = (endpoint_eq.beq_iff e.blocker node).0 same in
          ground (
            arith,
            contains-push e.blocked (successors edges node) path' stack,
            successors_complete edges e m c,
            ap (λ k. contains e.blocked (successors edges k)) at_node,
          )
      | inr other ↦ ground (
        arith,
        contains-push e.blocked (successors edges node) path' stack,
        inv.covers e m c (ground arith),
      )
    ];
  }

  -- A set of nodes that no edge leaves.
  pub record IsClosed (final : List Endpoint) : Type 0 where
    pub without_target : contains target final ≡ false
    pub step :
        (e : DependencyEdge)
        → Memᴰ e edges
        → constrains e ≡ true
        → contains e.blocker final ≡ true
        → contains e.blocked final ≡ true

  abbrev Holds : List Frame → List Endpoint → List Endpoint → Type 0
  Holds stack seen final =
      (n : Endpoint)
      → (contains n seen || contains n (nodes stack)) ≡ true
      → contains n final ≡ true

  pub search_from-IsClosed :
      (fuel : ℕ) (stack : List Frame) (seen : List Endpoint)
      → Inv stack seen
      → search_from edges target fuel stack seen ≡ no_cycle
      → (final : List Endpoint) × IsClosed final × Holds stack seen final
  unfolding search_from
  search_from-IsClosed zero [] seen inv h = (
    seen,
    record { without_target = inv.avoids; step = λ e m c s. ground (arith, inv.covers e m c s) },
    λ n k. ground arith,
  )
  search_from-IsClosed zero (frame ∷ stack) seen inv h = cc
  search_from-IsClosed (suc fuel) [] seen inv h = (
    seen,
    record { without_target = inv.avoids; step = λ e m c s. ground (arith, inv.covers e m c s) },
    λ n k. ground arith,
  )
  search_from-IsClosed (suc fuel) ((node, path) ∷ stack) seen inv h =
      elim (Bool-cases (node == target)) [
        | inl found ↦ cc (rw found at h)
        | inr onward ↦ elim (Bool-cases (contains node seen)) [
          | inl old ↦
              let (final, closed, holds) =
                search_from-IsClosed fuel stack seen (Inv-skip node path stack seen old inv)
                  (rw (onward, old) at h) in
              (
                final,
                closed,
                λ n k. elim (Bool-cases (n == node)) [
                  | inl same ↦ holds n (
                      ground (
                        arith,
                        old,
                        ap (λ q. contains q seen) ((endpoint_eq.beq_iff n node).0 same),
                      ))
                  | inr other ↦ holds n (ground arith)
                ],
              )
          | inr new ↦
              let path' = path ++ node ∷ [] in
              let (final, closed, holds) =
                search_from-IsClosed fuel (push (successors edges node) path' stack) (node ∷ seen)
                  (Inv-deeper node path path' stack seen onward inv) (rw (onward, new) at h) in
              (
                final,
                closed,
                λ n k.
                    holds n (ground (arith, contains-push n (successors edges node) path' stack)),
              )
        ]
      ]

  closed-Reach :
      (final : List Endpoint) (a b : Endpoint)
      → IsClosed final
      → contains a final ≡ true
      → Reach edges a b
      → contains b final ≡ true
  closed-Reach final a b closed h here = h
  closed-Reach final a c closed h (next {b} r (along e m k p q)) =
      let at_b = closed-Reach final a b closed h r in
      subst (λ n. contains n final ≡ true) q
        (closed.step e m k (subst (λ n. contains n final ≡ true) (sym p) at_b))

  -- Where the search finds nothing, the target is out of reach.
  pub search_from-unreachable :
      (fuel : ℕ) (a : Endpoint) (path : List Endpoint)
      → search_from edges target fuel ((a, path) ∷ []) [] ≡ no_cycle
      → ¬ Reach edges a target
  search_from-unreachable fuel a path h r =
      let (final, closed, holds) =
        search_from-IsClosed fuel ((a, path) ∷ []) []
          (record { avoids = refl; covers = λ e m c s. cc }) h in
      cc (
        closed.without_target,
        closed-Reach final a target closed (holds a (ground (arith, beq_refl a))) r,
      )
