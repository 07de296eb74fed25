-- ===== src/Work/Dependency/Bound.antt =====
-- The search needs one round for its start and one for each edge: a round takes a node off the
-- stack, and pushes successors only the first time it sees the node.
use aiworkos.Base.{
  ℕ, zero, suc, ◌+◌, ◌≤◌, ◌≡◌, ◌≢◌, ap, inl, inr, Bool, false, not, ◌&&◌, List, [], ◌∷◌, ◌++◌,
  arith, ◌==◌, contains, count, count-le-length, length, Bool-cases,
}
use aiworkos.Work.Vocabulary.{dependency_kind_eq}
use aiworkos.Work.Dependency.{
  Endpoint, endpoint_eq, DependencyEdge, constrains, successors, Frame, push, out_of_fuel,
  search_from, find_cycle,
}

-- The edges whose blocker has not been seen.
abbrev unseen : List Endpoint → DependencyEdge → Bool
unseen seen e = constrains e && not (contains e.blocker seen)

length-push :
    (xs path : List Endpoint) (stack : List Frame)
    → length (push xs path stack) ≡ length xs + length stack
length-push [] path stack = omega arith
length-push (x ∷ xs) path stack = omega (arith, length-push xs path ((x, path) ∷ stack))

-- Seeing a new node takes its edges out of the unseen ones.
unseen-see :
    (node : Endpoint) (seen : List Endpoint) (edges : List DependencyEdge)
    → contains node seen ≡ false
    → length (successors edges node) + count (unseen (node ∷ seen)) edges
      ≡ count (unseen seen) edges
unseen-see node seen [] h = omega arith
unseen-see node seen (e ∷ edges) h = elim (Bool-cases (e.blocker == node)) [
  | inl same ↦
      let at_node : e.blocker ≡ node = (endpoint_eq.beq_iff e.blocker node).0 same in
      ground (arith, unseen-see node seen edges h, ap (λ k. contains k seen) at_node)
  | inr other ↦ ground (arith, unseen-see node seen edges h)
]

search_from_ends :
    (edges : List DependencyEdge) (target : Endpoint) (fuel : ℕ) (stack : List Frame)
    (seen : List Endpoint)
    → length stack + count (unseen seen) edges ≤ fuel
    → search_from edges target fuel stack seen ≢ out_of_fuel
unfolding search_from
search_from_ends edges target zero [] seen h e = cc
search_from_ends edges target zero (frame ∷ stack) seen h e = absurd (omega arith)
search_from_ends edges target (suc fuel) [] seen h e = cc
search_from_ends edges target (suc fuel) ((node, path) ∷ stack) seen h e =
    elim (Bool-cases (node == target)) [
      | inl found ↦ cc (rw found at e)
      | inr onward ↦ elim (Bool-cases (contains node seen)) [
        | inl old ↦
            search_from_ends edges target fuel stack seen (omega arith) (rw (onward, old) at e)
        | inr new ↦
            search_from_ends edges target fuel
              (push (successors edges node) (path ++ node ∷ []) stack) (node ∷ seen)
              (omega (
                arith,
                length-push (successors edges node) (path ++ node ∷ []) stack,
                unseen-see node seen edges new,
              ))
              (rw (onward, new) at e)
      ]
    ]

-- The search never runs out of the fuel that `find_cycle` gives it: it finds a cycle or finds
-- none.
pub find_cycle_terminates :
    (edges : List DependencyEdge) (candidate : DependencyEdge)
    → find_cycle edges candidate ≢ out_of_fuel
unfolding find_cycle
find_cycle_terminates edges candidate = ground (
  arith,
  search_from_ends edges candidate.blocker (length edges + 1)
      ((candidate.blocked, candidate.blocker ∷ []) ∷ []) [],
  count-le-length (unseen []) edges,
)
