-- ===== src/Platform/Authz/Policy/Decisions.antt =====
-- What an allowed request rests on, and what follows for roles and relations.
use aiworkos.Base.{
  ◌≡◌, inl, inr, ◌↔◌, true, some, List, ◌∷◌, ◌==◌, nat_eq, contains, contains_iff, Bool-cases,
  Option-cases,
}
use mathlib.Core.List.{Memᴰ}
use mathlib.Core.List.Memᴰ
use aiworkos.Platform.Authz.Model.{
  Role, Action, Grant, Relation, action_eq, grant_eq, relation_eq, grant_requires, Principal,
  ResourceRef, Reason,
}
use aiworkos.Platform.Authz.Matrix.{Row, resource_actions, matrix}
use aiworkos.Platform.Authz.Policy.{can}
use aiworkos.Platform.Authz.Policy.Exact.{
  permits, Permitted, Explained, relations_of, decision_of-Explained, decision_of-allowed,
}

-- What an allowed request rests on: the resource is the principal's organization's, the action is
-- one of the resource type's, and some held role has a grant there whose condition holds.
pub record IsAllowed (principal : Principal) (action : Action) (resource : ResourceRef)
    : Type 0 where
  pub same_org : principal.org_id ≡ resource.org_id
  pub applicable : Memᴰ action (resource_actions resource.type)
  pub cells : Row
  pub declared : matrix resource.type action ≡ some cells
  pub permitted : Permitted (relations_of resource) cells principal.roles

can-IsAllowed :
    (principal : Principal) (action : Action) (resource : ResourceRef)
    → (can principal action resource).allowed ≡ true
    → IsAllowed principal action resource
unfolding can
can-IsAllowed principal action resource h =
    elim (Bool-cases (principal.org_id == resource.org_id)) [
      | inr elsewhere ↦ absurd (cc (rw elsewhere at h))
      | inl same ↦ elim (Bool-cases (contains action (resource_actions resource.type))) [
        | inr never ↦ absurd (cc (rw (same, never) at h))
        | inl applicable ↦ elim (Option-cases (matrix resource.type action)) [
          | inl missing ↦ absurd (cc (rw (same, applicable, missing) at h))
          | inr (cells, declared) ↦ record {
            same_org = (nat_eq.beq_iff principal.org_id resource.org_id).0 same;
            applicable = (contains_iff action (resource_actions resource.type)).0 applicable;
            cells = cells;
            declared = declared;
            permitted =
                (decision_of-Explained (relations_of resource) cells principal.roles
                  Reason.no_role_grants (rw (same, applicable, declared) at h)).permitted;
          }
        ]
      ]
    ]

IsAllowed-can :
    (principal : Principal) (action : Action) (resource : ResourceRef)
    → IsAllowed principal action resource
    → (can principal action resource).allowed ≡ true
unfolding can
IsAllowed-can principal action resource h =
    rw
      (
        (nat_eq.beq_iff principal.org_id resource.org_id).1 h.same_org,
        (contains_iff action (resource_actions resource.type)).1 h.applicable,
        h.declared,
      )
      (decision_of-allowed (relations_of resource) h.cells principal.roles Reason.no_role_grants
        h.permitted)

-- A request is allowed exactly when the resource is in the principal's organization, the action is
-- one of the resource type's, and a role that the principal holds has a grant for it in the matrix
-- whose relation to the resource holds.
pub can_iff :
    (principal : Principal) (action : Action) (resource : ResourceRef)
    → ((can principal action resource).allowed ≡ true) ↔ IsAllowed principal action resource
can_iff principal action resource =
    (can-IsAllowed principal action resource, IsAllowed-can principal action resource)

-- An allowed decision names a role that the principal holds and a grant that stands in that role's
-- cell and whose relation holds: the reason it gives is a true one.
pub can-Explained :
    (principal : Principal) (action : Action) (resource : ResourceRef)
    → (can principal action resource).allowed ≡ true
    → (cells : Row) × (matrix resource.type action ≡ some cells)
      × Explained (relations_of resource) cells principal.roles (can principal action resource)
unfolding can
can-Explained principal action resource h =
    let a = can-IsAllowed principal action resource h in
    let same = (nat_eq.beq_iff principal.org_id resource.org_id).1 a.same_org in
    let applicable = (contains_iff action (resource_actions resource.type)).1 a.applicable in
    (
      a.cells,
      a.declared,
      rw (same, applicable, a.declared)
          (decision_of-Explained (relations_of resource) a.cells principal.roles
            Reason.no_role_grants (rw (same, applicable, a.declared) at h)),
    )

permits_monotone :
    (few many : List Relation) (g : Grant)
    → ((r : Relation) → Memᴰ r few → Memᴰ r many)
    → permits (Relation.same_org ∷ few) g ≡ true
    → permits (Relation.same_org ∷ many) g ≡ true
permits_monotone few many g more h = elim (Option-cases (grant_requires g)) [
  | inl e ↦ absurd (cc (rw (e, permits) at h))
  | inr (r, e) ↦
      let held = (contains_iff r (Relation.same_org ∷ few)).0 (rw (e, permits) at h) in
      rw (e, permits)
        ((contains_iff r (Relation.same_org ∷ many)).1 (elim (Memᴰ.cases_cons held) [
          | inl first ↦ Memᴰ.head first
          | inr later ↦ Memᴰ.tail (more r later)
        ]))
]

-- Holding more roles, or standing in more relations to the resource, never loses a permission.
pub can_monotone :
    (principal : Principal) (action : Action) (resource : ResourceRef) (roles : List Role)
    (relations : List Relation)
    → ((r : Role) → Memᴰ r principal.roles → Memᴰ r roles)
    → ((r : Relation) → Memᴰ r resource.relations → Memᴰ r relations)
    → (can principal action resource).allowed ≡ true
    → (can
        (record principal { roles = roles })
        action
        (record resource { relations = relations })).allowed
      ≡ true
can_monotone principal action resource roles relations more_roles more_relations h =
    let a = can-IsAllowed principal action resource h in
    IsAllowed-can (record principal { roles = roles }) action
      (record resource { relations = relations })
      (record {
        same_org = a.same_org;
        applicable = a.applicable;
        cells = a.cells;
        declared = a.declared;
        permitted = record {
          role = a.permitted.role;
          grant = a.permitted.grant;
          holds_role = more_roles a.permitted.role a.permitted.holds_role;
          in_cell = a.permitted.in_cell;
          condition =
              permits_monotone resource.relations relations a.permitted.grant more_relations
                a.permitted.condition;
        };
      })
