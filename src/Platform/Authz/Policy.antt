-- ===== src/Platform/Authz/Policy.antt =====
-- The decision: platform/authz/policy.py. A frozen set of roles is read in the order of a list.
pub mod Exact
pub mod Decisions
pub mod Roles
pub mod Lists
use aiworkos.Base.{
  ℕ, Bool, true, false, not, ◌&&◌, Option, none, some, List, [], ◌∷◌, ◌++◌, ◌==◌, nat_eq, leb,
  contains, filter, if◌then◌else◌,
}
use aiworkos.Base.Result.{Result, ok, err, authorization_error}
use aiworkos.Platform.Authz.Model.{
  Role, ResourceType, Action, Grant, Relation, action_eq, grant_eq, relation_eq, grant_requires,
  Principal, ResourceRef, Reason, Decision,
}
use aiworkos.Platform.Authz.Matrix.{Cell, Row, resource_actions, matrix}

-- The key of `_ordered`.
abbrev pub grant_order : Grant → ℕ
grant_order Grant.org = 0
grant_order Grant.department = 1
grant_order Grant.team = 2
grant_order Grant.personal = 3
grant_order Grant.self = 4
grant_order Grant.deny = 5

insert : Grant → Cell → Cell
insert g [] = g ∷ []
insert g (h ∷ rest) =
    let later = h ∷ insert g rest in
    if leb (grant_order g) (grant_order h) then g ∷ h ∷ rest else later

unfoldable pub ordered : Cell → Cell
unfolding insert
ordered [] = []
ordered (g ∷ rest) = insert g (ordered rest)

pub data Scan : Type 0 where
  found : Decision → Scan
  denied : Reason → Scan

-- The body of the inner loop: one grant of one role.
abbrev pub weigh : Role → List Relation → Grant → Reason → Scan
weigh role relations grant best_denial =
    if grant == Grant.deny then denied best_denial else elim (grant_requires grant) [
      | none ↦ found (record {
        allowed = true;
        reason = Reason.granted role grant;
        matched_role = some role;
        matched_grant = some grant;
      })
      | some required ↦
          if contains required relations
          then found (record {
            allowed = true;
            reason = Reason.granted role grant;
            matched_role = some role;
            matched_grant = some grant;
          })
          else denied (Reason.not_related role grant required)
    ]

unfoldable pub scan_grants : Role → List Relation → Cell → Reason → Scan
unfolding grant_requires
scan_grants role relations [] best_denial = denied best_denial
scan_grants role relations (grant ∷ rest) best_denial =
    elim (weigh role relations grant best_denial) [
      | found decision ↦ found decision
      | denied best ↦ scan_grants role relations rest best
    ]

unfoldable pub scan_roles : List Relation → Row → List Role → Reason → Scan
unfolding scan_grants ordered
scan_roles relations cells [] best_denial = denied best_denial
scan_roles relations cells (role ∷ rest) best_denial =
    elim (scan_grants role relations (ordered (cells role)) best_denial) [
      | found decision ↦ found decision
      | denied best ↦ scan_roles relations cells rest best
    ]

abbrev pub refused : Reason → Decision
refused reason = record {
  allowed = false;
  reason = reason;
  matched_role = none;
  matched_grant = none;
}

abbrev pub decision_of : Scan → Decision
decision_of (found decision) = decision
decision_of (denied best_denial) = refused best_denial

unfoldable pub can : Principal → Action → ResourceRef → Decision
unfolding resource_actions matrix scan_roles
can principal action resource =
    if not (principal.org_id == resource.org_id)
    then refused Reason.cross_organization
    else if not (contains action (resource_actions resource.type))
    then refused Reason.not_an_action
    else elim (matrix resource.type action) [
      | none ↦ refused Reason.no_matrix_entry
      | some cells ↦ decision_of (
          scan_roles (Relation.same_org ∷ resource.relations) cells principal.roles
            Reason.no_role_grants)
    ]

unfoldable pub authorize : Principal → Action → ResourceRef → Result Decision
unfolding can
authorize principal action resource =
    let decision = can principal action resource in
    if decision.allowed then ok decision else err authorization_error

-- The comprehension of `grants_for`: the grants of each role's cell, without DENY.
grants_of_roles : Row → List Role → Cell
grants_of_roles cells [] = []
grants_of_roles cells (role ∷ rest) =
    filter (λ g. not (g == Grant.deny)) (cells role) ++ grants_of_roles cells rest

unfoldable pub grants_for : Principal → Action → ResourceType → Cell
unfolding matrix grants_of_roles
grants_for principal action resource_type = elim (matrix resource_type action) [
  | none ↦ []
  | some cells ↦ grants_of_roles cells principal.roles
]
