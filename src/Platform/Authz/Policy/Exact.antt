-- ===== src/Platform/Authz/Policy/Exact.antt =====
-- The two loops of `can` against the existence of a role and a grant.
use aiworkos.Base.{
  ◌≡◌, refl, ap, sym, ◌⊎◌, inl, inr, Bool, true, false, ◌||◌, none, some, List, [], ◌∷◌, arith,
  nat_eq, leb, contains, any, any_witness, any_of_mem, Bool-cases,
}
use mathlib.Core.List.{Memᴰ}
use mathlib.Core.List.Memᴰ
use aiworkos.Platform.Authz.Model.{
  Role, Grant, Relation, action_eq, grant_eq, relation_eq, grant_requires, ResourceRef, Reason,
  Decision,
}
use aiworkos.Platform.Authz.Matrix.{Cell, Row}
use aiworkos.Platform.Authz.Policy.{
  grant_order, insert, ordered, Scan, found, denied, weigh, scan_grants, scan_roles, decision_of,
}

-- A grant whose condition holds among the relations.
abbrev pub permits : List Relation → Grant → Bool
permits relations grant = elim (grant_requires grant) [
  | none ↦ false
  | some required ↦ contains required relations
]

abbrev is_found : Scan → Bool
is_found (found _) = true
is_found (denied _) = false

Scan-cases : (s : Scan) → ((d : Decision) × (s ≡ found d)) ⊎ ((b : Reason) × (s ≡ denied b))
Scan-cases (found d) = inl (d, refl)
Scan-cases (denied b) = inr (b, refl)

any-insert : (p : Grant → Bool) (g : Grant) (gs : Cell) → any p (insert g gs) ≡ (p g || any p gs)
unfolding insert
any-insert p g [] = refl
any-insert p g (h ∷ gs) = ground (arith, any-insert p g gs)

any-ordered : (p : Grant → Bool) (gs : Cell) → any p (ordered gs) ≡ any p gs
unfolding ordered
any-ordered p [] = refl
any-ordered p (g ∷ gs) = ground (arith, any-insert p g (ordered gs), any-ordered p gs)

scan_grants-found :
    (role : Role) (relations : List Relation) (gs : Cell) (best : Reason)
    → is_found (scan_grants role relations gs best) ≡ any (permits relations) gs
unfolding scan_grants
scan_grants-found role relations [] best = refl
scan_grants-found role relations (Grant.deny ∷ gs) best = scan_grants-found role relations gs best
scan_grants-found role relations (Grant.org ∷ gs) best =
    elim (Bool-cases (contains Relation.same_org relations)) [
      | inl h ↦ ground arith
      | inr h ↦ ground (
        arith,
        scan_grants-found role relations gs (Reason.not_related role Grant.org Relation.same_org),
      )
    ]
scan_grants-found role relations (Grant.department ∷ gs) best = ground (
  arith,
  scan_grants-found role relations gs
      (Reason.not_related role Grant.department Relation.in_department),
)
scan_grants-found role relations (Grant.team ∷ gs) best = ground (
  arith,
  scan_grants-found role relations gs (Reason.not_related role Grant.team Relation.in_team),
)
scan_grants-found role relations (Grant.personal ∷ gs) best = ground (
  arith,
  scan_grants-found role relations gs (Reason.not_related role Grant.personal Relation.personal),
)
scan_grants-found role relations (Grant.self ∷ gs) best =
    ground (
      arith,
      scan_grants-found role relations gs (Reason.not_related role Grant.self Relation.self),
    )

scan_roles-found :
    (relations : List Relation) (cells : Row) (roles : List Role) (best : Reason)
    → is_found (scan_roles relations cells roles best)
      ≡ any (λ role. any (permits relations) (cells role)) roles
unfolding scan_roles
scan_roles-found relations cells [] best = refl
scan_roles-found relations cells (role ∷ roles) best =
    elim (Scan-cases (scan_grants role relations (ordered (cells role)) best)) [
      | inl (d, e) ↦ ground (
        arith,
        scan_grants-found role relations (ordered (cells role)) best,
        any-ordered (permits relations) (cells role),
        e,
      )
      | inr (b, e) ↦ ground (
        arith,
        scan_grants-found role relations (ordered (cells role)) best,
        any-ordered (permits relations) (cells role),
        e,
        scan_roles-found relations cells roles b,
      )
    ]

-- The decision that names a role and a grant.
abbrev pub granted_via : Role → Grant → Decision
granted_via role grant = record {
  allowed = true;
  reason = Reason.granted role grant;
  matched_role = some role;
  matched_grant = some grant;
}

-- Some role of the list has, in its cell, a grant whose condition holds.
pub record Permitted (relations : List Relation) (cells : Row) (roles : List Role) : Type 0 where
  pub role : Role
  pub grant : Grant
  pub holds_role : Memᴰ role roles
  pub in_cell : Memᴰ grant (cells role)
  pub condition : permits relations grant ≡ true

pub Permitted-any :
    (relations : List Relation) (cells : Row) (roles : List Role)
    → Permitted relations cells roles
    → any (λ role. any (permits relations) (cells role)) roles ≡ true
Permitted-any relations cells roles h =
    any_of_mem (λ role. any (permits relations) (cells role)) h.role roles h.holds_role
      (any_of_mem (permits relations) h.grant (cells h.role) h.in_cell h.condition)

pub any-Permitted :
    (relations : List Relation) (cells : Row) (roles : List Role)
    → any (λ role. any (permits relations) (cells role)) roles ≡ true
    → Permitted relations cells roles
any-Permitted relations cells roles h =
    let (role, held, k) = any_witness (λ role. any (permits relations) (cells role)) roles h in
    let (grant, within, condition) = any_witness (permits relations) (cells role) k in
    record {
      role = role;
      grant = grant;
      holds_role = held;
      in_cell = within;
      condition = condition;
    }

-- The relations that the decision reads.
abbrev pub relations_of : ResourceRef → List Relation
relations_of resource = Relation.same_org ∷ resource.relations

Memᴰ-insert : (x g : Grant) (gs : Cell) → Memᴰ x (insert g gs) → (x ≡ g) ⊎ Memᴰ x gs
unfolding insert
Memᴰ-insert x g [] m = inl (Memᴰ.eq_of_singleton m)
Memᴰ-insert x g (h ∷ gs) m = elim (Bool-cases (leb (grant_order g) (grant_order h))) [
  | inl before ↦ Memᴰ.cases_cons (rw before at m)
  | inr after ↦ elim (Memᴰ.cases_cons (rw after at m)) [
    | inl first ↦ inr (Memᴰ.head first)
    | inr later ↦ elim (Memᴰ-insert x g gs later) [
      | inl same ↦ inl same
      | inr old ↦ inr (Memᴰ.tail old)
    ]
  ]
]

Memᴰ-ordered : (x : Grant) (gs : Cell) → Memᴰ x (ordered gs) → Memᴰ x gs
unfolding ordered
Memᴰ-ordered x [] m = m
Memᴰ-ordered x (g ∷ gs) m = elim (Memᴰ-insert x g (ordered gs) m) [
  | inl first ↦ Memᴰ.head first
  | inr later ↦ Memᴰ.tail (Memᴰ-ordered x gs later)
]

weigh-found :
    (role : Role) (relations : List Relation) (g : Grant) (best : Reason) (d : Decision)
    → weigh role relations g best ≡ found d
    → (permits relations g ≡ true) × (granted_via role g ≡ d)
unfolding grant_requires
weigh-found role relations Grant.deny best d h = ground arith
weigh-found role relations g best d h = ground arith

scan_grants-explained :
    (role : Role) (relations : List Relation) (gs : Cell) (best : Reason) (d : Decision)
    → scan_grants role relations gs best ≡ found d
    → (g : Grant) × Memᴰ g gs × (permits relations g ≡ true) × (granted_via role g ≡ d)
unfolding scan_grants
scan_grants-explained role relations [] best d h = absurd (cc h)
scan_grants-explained role relations (g ∷ gs) best d h =
    elim (Scan-cases (weigh role relations g best)) [
      | inl (d', e) ↦
          let (condition, named) = weigh-found role relations g best d (ground arith) in
          (g, Memᴰ.head refl, condition, named)
      | inr (b, e) ↦
          let (x, m, condition, named) =
            scan_grants-explained role relations gs b d (ground arith) in
          (x, Memᴰ.tail m, condition, named)
    ]

-- A decision and the role and grant that it names, both held.
pub record Explained (relations : List Relation) (cells : Row) (roles : List Role) (d : Decision)
    : Type 0 where
  pub permitted : Permitted relations cells roles
  pub named : granted_via permitted.role permitted.grant ≡ d

scan_roles-Explained :
    (relations : List Relation) (cells : Row) (roles : List Role) (best : Reason) (d : Decision)
    → scan_roles relations cells roles best ≡ found d
    → Explained relations cells roles d
unfolding scan_roles
scan_roles-Explained relations cells [] best d h = absurd (cc h)
scan_roles-Explained relations cells (role ∷ roles) best d h =
    elim (Scan-cases (scan_grants role relations (ordered (cells role)) best)) [
      | inl (d', e) ↦
          let (g, m, condition, named) =
            scan_grants-explained role relations (ordered (cells role)) best d (ground arith) in
          record {
            permitted = record {
              role = role;
              grant = g;
              holds_role = Memᴰ.head refl;
              in_cell = Memᴰ-ordered g (cells role) m;
              condition = condition;
            };
            named = named;
          }
      | inr (b, e) ↦
          let later = scan_roles-Explained relations cells roles b d (ground arith) in
          record {
            permitted = record {
              role = later.permitted.role;
              grant = later.permitted.grant;
              holds_role = Memᴰ.tail later.permitted.holds_role;
              in_cell = later.permitted.in_cell;
              condition = later.permitted.condition;
            };
            named = later.named;
          }
    ]

pub decision_of-Explained :
    (relations : List Relation) (cells : Row) (roles : List Role) (best : Reason)
    → (decision_of (scan_roles relations cells roles best)).allowed ≡ true
    → Explained relations cells roles (decision_of (scan_roles relations cells roles best))
decision_of-Explained relations cells roles best h =
    elim (Scan-cases (scan_roles relations cells roles best)) [
      | inl (d, e) ↦ rw e (scan_roles-Explained relations cells roles best d e)
      | inr (b, e) ↦ absurd (cc (rw e at h))
    ]

pub decision_of-allowed :
    (relations : List Relation) (cells : Row) (roles : List Role) (best : Reason)
    → Permitted relations cells roles
    → (decision_of (scan_roles relations cells roles best)).allowed ≡ true
decision_of-allowed relations cells roles best h =
    elim (Scan-cases (scan_roles relations cells roles best)) [
      | inl (d, e) ↦ rw e (
          ap (λ (x : Decision). x.allowed)
            (sym (scan_roles-Explained relations cells roles best d e).named))
      | inr (b, e) ↦ absurd (
          cc
            (scan_roles-found relations cells roles best, Permitted-any relations cells roles h, e))
    ]
