-- ===== src/Work/Tests.antt =====
-- Concrete work items, projects and dependencies for the Work Core's theorems.
use aiworkos.Base.{
  ℕ, ◌≤◌, ◌≡◌, ◌↔◌, ◌≢◌, refl, sym, true, false, none, some, List, [], ◌∷◌, ◌++◌, arith, ◌==◌,
  nat_eq, Bool-cases, inl, inr, if◌then◌else◌,
}
use mathlib.Core.List.Memᴰ
use mathlib.Core.Path.{subst₂}
use aiworkos.Base.Forest.{Forest, reparent, Depth, root, under, IsRooted, IsShallow}
use aiworkos.Base.Result.{ok}
use aiworkos.Work.Vocabulary.{
  WorkStatus, ProjectStatus, AssignmentRole, AssignmentStatus, DependencyKind, DependencyStatus,
  assignment_role_eq,
}
use aiworkos.Work.Lifecycle.{WorkTransitionContext, validate_work_transition}
use aiworkos.Work.Lifecycle.Machine.{WorkStep, validate_work_transition_iff}
use aiworkos.Work.Hierarchy.{ancestor_ids, validate_work_hierarchy}
use aiworkos.Work.Hierarchy.Placement.{
  validate_work_hierarchy-IsRooted, validate_work_hierarchy-IsShallow, moved_subtree_too_deep,
}
use aiworkos.Work.Assignment.{ExistingAssignment}
use aiworkos.Work.Assignment.Seats.{assigned}
use aiworkos.Work.Dependency.{
  EndpointType, Endpoint, DependencyEdge, closes, out_of_fuel, search_from, find_cycle,
  validate_dependency,
}
use aiworkos.Work.Dependency.Relation.{Step, along, Reach, here, next, IsAcyclic}
use aiworkos.Work.Dependency.Bound.{find_cycle_terminates}
use aiworkos.Work.Dependency.Walks.{Walk, find_cycle-Walk}
use aiworkos.Work.Dependency.Acyclic.{validate_dependency-IsAcyclic}

abbrev ready : WorkTransitionContext
ready = record {
  has_active_blocking_dependency = false;
  has_open_children = false;
  project_status = some ProjectStatus.active;
  blocked_reason = none;
}

validate_work_transition_iff_example :
    (validate_work_transition WorkStatus.in_progress WorkStatus.done ready ≡ ok tt)
    ↔ WorkStep ready WorkStatus.in_progress WorkStatus.done
validate_work_transition_iff_example =
    validate_work_transition_iff ready WorkStatus.in_progress WorkStatus.done

-- Item 2 under item 1, and the others alone.
abbrev pair_forest : Forest
pair_forest n = if n == 2 then some 1 else none

pair_forest-IsShallow : IsShallow 3 pair_forest
pair_forest-IsShallow n = elim (Bool-cases (n == 2)) [
  | inl e ↦ (2, under 1 (rw e) (root refl), omega arith)
  | inr e ↦ (1, root (rw e), omega arith)
]

pair_forest-IsRooted : IsRooted pair_forest
pair_forest-IsRooted n = let (d, chain, bound) = pair_forest-IsShallow n in (d, chain)

third_accepted : validate_work_hierarchy 3 (some 2) (ancestor_ids pair_forest 2) ≡ ok tt
unfolding validate_work_hierarchy ancestor_ids
third_accepted = refl

validate_work_hierarchy-IsRooted_example :
    IsRooted (reparent pair_forest 3 2) × ((d : ℕ) × Depth (reparent pair_forest 3 2) 3 d × (d ≤ 3))
validate_work_hierarchy-IsRooted_example =
    validate_work_hierarchy-IsRooted pair_forest 3 2 pair_forest-IsRooted third_accepted

third_is_leaf : (m : ℕ) → pair_forest m ≢ some 3
third_is_leaf m h = ground arith

-- Item 2 under item 1, and item 5 under item 4.
abbrev two_pairs : Forest
two_pairs n = if n == 2 then some 1 else if n == 5 then some 4 else none

moved_subtree_too_deep_example :
    (validate_work_hierarchy 4 (some 2) (ancestor_ids two_pairs 2) ≡ ok tt)
    × Depth (reparent two_pairs 4 2) 5 4
moved_subtree_too_deep_example =
    moved_subtree_too_deep two_pairs 4 5 2 1 refl refl refl (λ e. omega (arith, e))
      (λ e. omega (arith, e)) (λ e. omega (arith, e))

-- Person 1 owns the item, and person 2 did.
abbrev seated : List ExistingAssignment
seated =
    assigned 1 AssignmentRole.owner true
    ∷ record {
      person_id = 2;
      role = AssignmentRole.owner;
      status = AssignmentStatus.ended;
      is_primary = true;
    }
    ∷ []

-- Item 1 blocks item 2.
abbrev item : ℕ → Endpoint
item id = record { type = EndpointType.work; id = id }

abbrev blocking : ℕ → ℕ → DependencyEdge
blocking a b = record {
  blocker = item a;
  blocked = item b;
  kind = DependencyKind.blocks;
  status = DependencyStatus.active;
}

abbrev one_edge : List DependencyEdge
one_edge = blocking 1 2 ∷ []

find_cycle_terminates_example : find_cycle one_edge (blocking 2 1) ≢ out_of_fuel
find_cycle_terminates_example = find_cycle_terminates one_edge (blocking 2 1)

cycle_found : find_cycle one_edge (blocking 2 1) ≡ closes (item 2 ∷ item 1 ∷ item 2 ∷ [])
unfolding find_cycle search_from
cycle_found = refl

find_cycle-Walk_example :
    Walk (blocking 2 1 ∷ one_edge) (item 2) (item 2 ∷ item 1 ∷ item 2 ∷ []) (item 2)
find_cycle-Walk_example =
    find_cycle-Walk one_edge (blocking 2 1) (item 2 ∷ item 1 ∷ item 2 ∷ []) refl cycle_found

-- Every step along the one edge goes from item 1 to item 2.
one-Step : (a b : Endpoint) → Step one_edge a b → (item 1 ≡ a) × (item 2 ≡ b)
one-Step a b (along e m c p q) = (cc (Memᴰ.eq_of_singleton m, p), cc (Memᴰ.eq_of_singleton m, q))

not_back : ¬ Reach one_edge (item 2) (item 1)
not_back r = after r refl
  where
    after : {b : Endpoint} → Reach one_edge (item 2) b → b ≡ item 1 → ⊥
    after here e = ground (arith, e)
    after (next s st) e = ground (arith, one-Step _ _ st, e)

one_edge-IsAcyclic : IsAcyclic one_edge
one_edge-IsAcyclic a b st r =
    let (p, q) = one-Step a b st in not_back (subst₂ (λ x y. Reach one_edge x y) (sym q) (sym p) r)

onward_accepted : validate_dependency (blocking 2 3) one_edge 1 1 ≡ ok tt
unfolding validate_dependency find_cycle search_from
onward_accepted = refl

validate_dependency-IsAcyclic_example : IsAcyclic (one_edge ++ blocking 2 3 ∷ [])
validate_dependency-IsAcyclic_example =
    validate_dependency-IsAcyclic (blocking 2 3) one_edge 1 1 one_edge-IsAcyclic onward_accepted

validate_work_hierarchy-IsShallow_example : IsShallow 3 (reparent pair_forest 3 2)
validate_work_hierarchy-IsShallow_example =
    validate_work_hierarchy-IsShallow pair_forest 3 2 third_is_leaf pair_forest-IsShallow
      third_accepted
