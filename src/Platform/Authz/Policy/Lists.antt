-- ===== src/Platform/Authz/Policy/Lists.antt =====
-- `grants_for`, from which list queries are built, against the decision about one resource.
use aiworkos.Base.{
  ◌≡◌, refl, ap, sym, ◌∙◌, inl, inr, ◌↔◌, Bool, true, not, ◌||◌, List, [], ◌∷◌, ◌++◌, arith, ◌==◌,
  contains_iff, is_some, any, filter, Option-cases,
}
use aiworkos.Platform.Authz.Model.{
  Role, Action, Grant, Relation, grant_eq, action_eq, relation_eq, grant_requires, Principal,
  ResourceRef,
}
use aiworkos.Platform.Authz.Matrix.{Cell, Row, resource_actions, matrix}
use aiworkos.Platform.Authz.Policy.{can, grants_of_roles, grants_for}
use aiworkos.Platform.Authz.Policy.Exact.{permits, relations_of, Permitted-any, any-Permitted}
use aiworkos.Platform.Authz.Policy.Decisions.{can_iff}
use aiworkos.Platform.Authz.Policy.Roles.{matrix_covers}

any-append {ℓ} :
    {A : Type ℓ} (p : A → Bool) (xs ys : List A) → any p (xs ++ ys) ≡ (any p xs || any p ys)
any-append p [] ys = refl
any-append p (x ∷ xs) ys = ground (arith, any-append p xs ys)

any-without_deny :
    (relations : List Relation) (cell : Cell)
    → any (permits relations) (filter (λ g. not (g == Grant.deny)) cell)
      ≡ any (permits relations) cell
unfolding grant_requires
any-without_deny relations [] = refl
any-without_deny relations (Grant.deny ∷ cell) = any-without_deny relations cell
any-without_deny relations (g ∷ cell) = ground (arith, any-without_deny relations cell)

any-grants_of_roles :
    (relations : List Relation) (cells : Row) (roles : List Role)
    → any (permits relations) (grants_of_roles cells roles)
      ≡ any (λ role. any (permits relations) (cells role)) roles
unfolding grants_of_roles
any-grants_of_roles relations cells [] = refl
any-grants_of_roles relations cells (role ∷ roles) = ground (
  arith,
  any-append (permits relations) (filter (λ g. not (g == Grant.deny)) (cells role))
      (grants_of_roles cells roles),
  any-without_deny relations (cells role),
  any-grants_of_roles relations cells roles,
)

-- A list query and a decision agree: a resource of the principal's organization is allowed exactly
-- when one of the grants that `grants_for` hands to the query has its relation to the resource.
pub grants_for_agrees :
    (principal : Principal) (action : Action) (resource : ResourceRef)
    → principal.org_id ≡ resource.org_id
    → ((can principal action resource).allowed ≡ true)
      ↔ (any (permits (relations_of resource)) (grants_for principal action resource.type) ≡ true)
unfolding grants_for
grants_for_agrees principal action resource same = (forth, back)
  where
    forth :
        (can principal action resource).allowed ≡ true
        → any (permits (relations_of resource)) (grants_for principal action resource.type) ≡ true
    forth h =
        let a = (can_iff principal action resource).0 h in
        rw (a.declared, grants_for)
          (any-grants_of_roles (relations_of resource) a.cells principal.roles
            ∙ Permitted-any (relations_of resource) a.cells principal.roles a.permitted)

    back :
        any (permits (relations_of resource)) (grants_for principal action resource.type) ≡ true
        → (can principal action resource).allowed ≡ true
    back h = elim (Option-cases (matrix resource.type action)) [
      | inl e ↦ absurd (cc (rw (e, grants_for) at h))
      | inr (cells, e) ↦ (can_iff principal action resource).1 (record {
        same_org = same;
        applicable =
            (contains_iff action (resource_actions resource.type)).0
              (sym (matrix_covers resource.type action) ∙ ap is_some e);
        cells = cells;
        declared = e;
        permitted = any-Permitted (relations_of resource) cells principal.roles (
            sym (any-grants_of_roles (relations_of resource) cells principal.roles)
            ∙ rw (e, grants_for) at h);
      })
    ]
