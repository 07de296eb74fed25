-- ===== src/Work/Hierarchy/Placement.antt =====
-- Placements of a Work item under a parent, accepted by validate_work_hierarchy.
use aiworkos.Base.{ℕ, ◌+◌, ◌≤◌, ◌≡◌, ◌≢◌, none, some, arith, nat_eq, length}
use aiworkos.Base.Forest.{
  Forest, ancestors, reparent, Depth, root, under, IsRooted, IsShallow, Placeable, reparent-Depth,
  reparent-IsRooted, reparent-IsShallow,
}
use aiworkos.Base.Result.{ok}
use aiworkos.Work.Hierarchy.{query_depth, ancestor_ids, validate_work_hierarchy}

module _ (parents : Forest) (work_id parent_id : ℕ) where
  abbrev Accepted : Type 0
  Accepted =
      validate_work_hierarchy work_id (some parent_id) (ancestor_ids parents parent_id) ≡ ok tt

  Placeable-of-accepted : Accepted → Placeable parents work_id parent_id query_depth
  unfolding validate_work_hierarchy ancestor_ids
  Placeable-of-accepted h = record {
    other = ground arith;
    below = ground arith;
    whole = ground arith;
  }

  short_chain : Accepted → length (ancestors parents query_depth parent_id) ≤ 1
  unfolding validate_work_hierarchy ancestor_ids
  short_chain h = ground arith

-- In a hierarchy with no cycle, a placement that is accepted makes none, and the placed item stands
-- at most three deep.
pub validate_work_hierarchy-IsRooted :
    (parents : Forest) (work_id parent_id : ℕ)
    → IsRooted parents
    → validate_work_hierarchy work_id (some parent_id) (ancestor_ids parents parent_id) ≡ ok tt
    → IsRooted (reparent parents work_id parent_id)
      × ((d : ℕ) × Depth (reparent parents work_id parent_id) work_id d × (d ≤ 3))
validate_work_hierarchy-IsRooted parents w p rooted h =
    let ready = Placeable-of-accepted parents w p h in
    (
      reparent-IsRooted parents w p query_depth ready rooted,
      (
        length (ancestors parents query_depth p) + 2,
        reparent-Depth parents w p query_depth ready,
        omega (arith, short_chain parents w p h),
      ),
    )

-- Where the placed item has no children, as a new one has none, an accepted placement keeps every
-- item at most three deep.
pub validate_work_hierarchy-IsShallow :
    (parents : Forest) (work_id parent_id : ℕ)
    → ((m : ℕ) → parents m ≢ some work_id)
    → IsShallow 3 parents
    → validate_work_hierarchy work_id (some parent_id) (ancestor_ids parents parent_id) ≡ ok tt
    → IsShallow 3 (reparent parents work_id parent_id)
validate_work_hierarchy-IsShallow parents w p leaf shallow h =
    reparent-IsShallow parents w p query_depth 3 (Placeable-of-accepted parents w p h) leaf
      (omega (arith, short_chain parents w p h)) shallow

-- An item that has a child is accepted under a parent that itself has a parent at the root, where
-- none of the three is the item, and then the child stands four deep.
pub moved_subtree_too_deep :
    (parents : Forest) (work_id child_id parent_id grandparent_id : ℕ)
    → parents parent_id ≡ some grandparent_id
    → parents grandparent_id ≡ none
    → parents child_id ≡ some work_id
    → child_id ≢ work_id
    → parent_id ≢ work_id
    → grandparent_id ≢ work_id
    → (validate_work_hierarchy work_id (some parent_id) (ancestor_ids parents parent_id) ≡ ok tt)
      × Depth (reparent parents work_id parent_id) child_id 4
unfolding validate_work_hierarchy ancestor_ids
moved_subtree_too_deep parents w c p g pg groot cw cne pne gne = (
  ground arith,
  under w (ground arith) (under p (ground arith) (under g (ground arith) (root (ground arith)))),
)
