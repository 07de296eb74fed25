-- ===== src/Platform/Authz/Policy/Roles.antt =====
-- What the matrix says of single roles, through the decision.
use aiworkos.Base.{
  ◌≡◌, refl, inl, inr, Bool, true, false, not, ◌&&◌, ◌||◌, none, some, List, [], ◌∷◌, arith, ◌==◌,
  contains, is_some, any, any_of_mem, Bool-cases,
}
use mathlib.Core.List.{Memᴰ}
use aiworkos.Platform.Authz.Model.{
  Role, ResourceType, Action, Grant, Relation, resource_type_eq, action_eq, grant_eq, relation_eq,
  grant_requires, Principal, ResourceRef,
}
use aiworkos.Platform.Authz.Matrix.{Cell, resource_actions, matrix}
use aiworkos.Platform.Authz.Policy.{can}
use aiworkos.Platform.Authz.Policy.Exact.{permits, relations_of}
use aiworkos.Platform.Authz.Policy.Decisions.{IsAllowed, can_iff}

-- The matrix declares a row for exactly the pairs of a resource type and one of its actions.
pub matrix_covers :
    (resource_type : ResourceType) (action : Action)
    → is_some (matrix resource_type action) ≡ contains action (resource_actions resource_type)
unfolding matrix resource_actions
matrix_covers ResourceType.organization Action.read = refl
matrix_covers resource_type action = ground arith

-- A cell with a grant other than DENY.
abbrev pub grants_something : Cell → Bool
grants_something cell = any (λ g. not (g == Grant.deny)) cell

abbrev role_grants : ResourceType → Action → Role → Bool
role_grants resource_type action role = elim (matrix resource_type action) [
  | none ↦ false
  | some cells ↦ grants_something (cells role)
]

grants_something_of_permits :
    (relations : List Relation) (g : Grant) (cell : Cell)
    → Memᴰ g cell
    → permits relations g ≡ true
    → grants_something cell ≡ true
unfolding grant_requires
grants_something_of_permits relations g cell m h =
    any_of_mem (λ x. not (x == Grant.deny)) g cell m (not_deny g h)
  where
    not_deny : (x : Grant) → permits relations x ≡ true → not (x == Grant.deny) ≡ true
    not_deny Grant.deny k = cc
    not_deny x k = refl

-- Roles that read.
abbrev pub is_read_only : Role → Bool
is_read_only Role.viewer = true
is_read_only Role.auditor = true
is_read_only Role.executive = true
is_read_only _ = false

abbrev pub is_read : Action → Bool
is_read action = (action == Action.read) || (action == Action.list)

viewer_reads :
    (rt : ResourceType) (a : Action) → role_grants rt a Role.viewer ≡ true → is_read a ≡ true
unfolding matrix
viewer_reads rt a h = ground arith

auditor_reads :
    (rt : ResourceType) (a : Action) → role_grants rt a Role.auditor ≡ true → is_read a ≡ true
unfolding matrix
auditor_reads rt a h = ground arith

executive_reads :
    (rt : ResourceType) (a : Action) → role_grants rt a Role.executive ≡ true → is_read a ≡ true
unfolding matrix
executive_reads rt a h = ground arith

read_only_reads :
    (rt : ResourceType) (a : Action) (r : Role)
    → is_read_only r ≡ true
    → role_grants rt a r ≡ true
    → is_read a ≡ true
read_only_reads rt a Role.viewer k h = viewer_reads rt a h
read_only_reads rt a Role.auditor k h = auditor_reads rt a h
read_only_reads rt a Role.executive k h = executive_reads rt a h
read_only_reads rt a r k h = absurd (ground arith)

role_grants_of_IsAllowed :
    (principal : Principal) (action : Action) (resource : ResourceRef)
    → (a : IsAllowed principal action resource)
    → role_grants resource.type action a.permitted.role ≡ true
role_grants_of_IsAllowed principal action resource a =
    rw (a.declared, role_grants)
      (grants_something_of_permits (relations_of resource) a.permitted.grant
        (a.cells a.permitted.role) a.permitted.in_cell a.permitted.condition)

-- Whoever holds no role but viewer, auditor and executive is refused every action that is neither
-- read nor list, on every resource and in whatever relation to it.
pub read_only_roles_cannot_write :
    (principal : Principal) (action : Action) (resource : ResourceRef)
    → ((r : Role) → Memᴰ r principal.roles → is_read_only r ≡ true)
    → is_read action ≡ false
    → (can principal action resource).allowed ≡ false
read_only_roles_cannot_write principal action resource only write =
    elim (Bool-cases (can principal action resource).allowed) [
      | inr refused ↦ refused
      | inl allowed ↦
          let a = (can_iff principal action resource).0 allowed in
          absurd (
            cc (
              write,
              read_only_reads resource.type action a.permitted.role
                  (only a.permitted.role a.permitted.holds_role)
                  (role_grants_of_IsAllowed principal action resource a),
            ))
    ]

abbrev cell_of : ResourceType → Action → Role → Cell
cell_of rt action role = elim (matrix rt action) [ none ↦ [] | some cells ↦ cells role ]

-- Capture an Event, or read or attach to one of its own.
abbrev pub is_delivery : ResourceType → Action → List Relation → Bool
is_delivery rt action relations =
    (rt == ResourceType.event)
    && ((action == Action.create)
        || (((action == Action.read) || (action == Action.attach))
            && contains Relation.personal relations))

ingestion_delivers :
    (rt : ResourceType) (action : Action) (relations : List Relation)
    → any (permits (Relation.same_org ∷ relations)) (cell_of rt action Role.ingestion)
      ≡ is_delivery rt action relations
unfolding matrix grant_requires
ingestion_delivers rt action relations = ground arith

-- A connector, which holds the ingestion role alone, is allowed only to capture an Event, or to
-- read or attach to an Event that it has a personal relation to.
pub ingestion_only_delivers :
    (principal : Principal) (action : Action) (resource : ResourceRef)
    → ((r : Role) → Memᴰ r principal.roles → r ≡ Role.ingestion)
    → (can principal action resource).allowed ≡ true
    → is_delivery resource.type action resource.relations ≡ true
ingestion_only_delivers principal action resource only h =
    let a = (can_iff principal action resource).0 h in
    let alone = only a.permitted.role a.permitted.holds_role in
    let passes =
      any_of_mem (permits (Relation.same_org ∷ resource.relations)) a.permitted.grant
        (a.cells a.permitted.role) a.permitted.in_cell a.permitted.condition in
    cc (ingestion_delivers resource.type action resource.relations, alone, a.declared, passes)
