-- ===== src/Work/Dependency/Walks.antt =====
-- Where the search finds a cycle: the path it returns.
use aiworkos.Base.{
  ℕ, zero, suc, ◌+◌, ◌≡◌, refl, sym, subst, inl, inr, true, List, [], ◌∷◌, ◌++◌, arith, ◌==◌,
  contains, Bool-cases, length, All,
}
use mathlib.Core.List.{Memᴰ}
use aiworkos.Work.Vocabulary.{dependency_kind_eq}
use aiworkos.Work.Dependency.{
  Endpoint, endpoint_eq, DependencyEdge, constrains, successors, Frame, push, closes, search_from,
  find_cycle,
}
use aiworkos.Work.Dependency.Relation.{Step, along, Step-weaken, successors_sound}

-- A path that starts at `a`, ends at its last argument, and follows an edge at each step.
pub data Walk (edges : List DependencyEdge) (a : Endpoint) : List Endpoint → Endpoint → Type 0 where
  start : Walk edges a (a ∷ []) a
  extend :
      {b : Endpoint} {path : List Endpoint} (c : Endpoint) (longer : List Endpoint)
      → Walk edges a path b
      → Step edges b c
      → longer ≡ path ++ c ∷ []
      → Walk edges a longer c

module _ (edges : List DependencyEdge) (candidate : DependencyEdge) where
  -- Each node on the stack is one step behind the path beside it, the candidate's edge included.
  abbrev Follows : Frame → Type 0
  Follows (node, path) =
      (b : Endpoint) × Walk (candidate ∷ edges) candidate.blocker path b
      × Step (candidate ∷ edges) b node

  Follows-push :
      (node : Endpoint) (xs path : List Endpoint) (stack : List Frame)
      → Walk (candidate ∷ edges) candidate.blocker path node
      → ((n : Endpoint) → contains n xs ≡ true → Step edges node n)
      → All Follows stack
      → All Follows (push xs path stack)
  Follows-push node [] path stack walk steps h = h
  Follows-push node (x ∷ xs) path stack walk steps h =
      Follows-push node xs path ((x, path) ∷ stack) walk (λ n k. steps n (ground arith))
        ((node, walk, Step-weaken candidate (steps x (ground (arith, endpoint_eq.beq_iff x x)))), h)

  search_from-Walk :
      (fuel : ℕ) (stack : List Frame) (seen result : List Endpoint)
      → All Follows stack
      → search_from edges candidate.blocker fuel stack seen ≡ closes result
      → Walk (candidate ∷ edges) candidate.blocker result candidate.blocker
  unfolding search_from
  search_from-Walk zero [] seen result h e = absurd (cc e)
  search_from-Walk zero (frame ∷ stack) seen result h e = absurd (cc e)
  search_from-Walk (suc fuel) [] seen result h e = absurd (cc e)
  search_from-Walk (suc fuel) ((node, path) ∷ stack) seen result ((b, walk, step), h) e =
      elim (Bool-cases (node == candidate.blocker)) [
        | inl found ↦
            let at_end : node ≡ candidate.blocker =
              (endpoint_eq.beq_iff node candidate.blocker).0 found in
            let whole : path ++ node ∷ [] ≡ result = ground arith in
            extend candidate.blocker result walk (subst (Step (candidate ∷ edges) b) at_end step)
              (subst (λ n. result ≡ path ++ n ∷ []) at_end (sym whole))
        | inr onward ↦ elim (Bool-cases (contains node seen)) [
          | inl old ↦ search_from-Walk fuel stack seen result h (rw (onward, old) at e)
          | inr new ↦
              search_from-Walk fuel (push (successors edges node) (path ++ node ∷ []) stack)
                (node ∷ seen) result
                (Follows-push node (successors edges node) (path ++ node ∷ []) stack
                  (extend node (path ++ node ∷ []) walk step refl)
                  (λ n k. successors_sound edges node n k) h)
                (rw (onward, new) at e)
        ]
      ]

-- The path of an active candidate's cycle starts and ends at the candidate's blocker, and follows
-- the candidate or an active `blocks` edge at each step.
pub find_cycle-Walk :
    (edges : List DependencyEdge) (candidate : DependencyEdge) (path : List Endpoint)
    → constrains candidate ≡ true
    → find_cycle edges candidate ≡ closes path
    → Walk (candidate ∷ edges) candidate.blocker path candidate.blocker
unfolding find_cycle
find_cycle-Walk edges candidate path c h =
    search_from-Walk edges candidate (length edges + 1)
      ((candidate.blocked, candidate.blocker ∷ []) ∷ []) [] path
      ((candidate.blocker, start, along candidate (Memᴰ.head refl) c refl refl), tt) (ground arith)
