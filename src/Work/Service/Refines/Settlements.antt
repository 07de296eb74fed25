-- ===== src/Work/Service/Refines/Settlements.antt =====
-- settle_dependencies of DependencyService.
use aiworkos.Base.{
  ℕ, ◌≡◌, ◌⊎◌, refl, ap, sym, subst, ◌∙◌, inl, inr, Bool, true, false, Option, none, some, ◌==◌,
  nat_eq, Bool-cases,
}
use aiworkos.Base.Table.{find}
use aiworkos.Base.Loop.{each-keeps, each-related, filter-found, filter-IsKeyed}
use aiworkos.Base.Result.{ok, returned, same_value}
use aiworkos.Platform.Authz.Model.{Decision}
use aiworkos.Platform.Records.{Actor}
use aiworkos.Work.Vocabulary.{
  DependencyKind, DependencyStatus, dependency_kind_eq, dependency_status_eq,
}
use aiworkos.Work.Dependency.{Endpoint}
use aiworkos.Work.Rows.{Dependency, dependencies_table}
use aiworkos.Work.Store.{Store, WorkContext, org_of}
use aiworkos.Work.Queries.{is_active_from, active_dependencies_from}
use aiworkos.Work.Service.Dependencies.{apply_dependency_status, settle, settle_dependencies}
use aiworkos.Work.Service.Steps.{TableSteps, stay, one_step, TableSteps-trans}
use aiworkos.Work.Service.Effects.{update-others}
use aiworkos.Work.Service.Keyed.{Keyed}
use aiworkos.Work.Service.Refines.Dependencies.{
  Applied, apply_dependency_status-Applied, Applied-TableStep,
}

-- The other four tables are the same.
pub record OnlyDependencies (s s' : Store) : Type 0 where
  pub same_projects : s'.projects ≡ s.projects
  pub same_milestones : s'.milestones ≡ s.milestones
  pub same_works : s'.works ≡ s.works
  pub same_assignments : s'.assignments ≡ s.assignments

pub Applied-OnlyDependencies :
    (ctx : WorkContext) (d : Dependency) (target : DependencyStatus) (decision : Decision)
    (actor : Actor) (expected : ℕ) (s : Store) (row : Dependency) (s' : Store)
    → Applied ctx d target decision actor expected s row s'
    → OnlyDependencies s s'
Applied-OnlyDependencies ctx d target decision actor expected s row s' a =
    subst (λ (x : Dependency × Store). OnlyDependencies s x.1) a.result
      (record {
        same_projects = refl;
        same_milestones = refl;
        same_works = refl;
        same_assignments = refl;
      })

-- A round of the loop left the store as it was, or changed the status of its dependency.
pub settle-cases :
    (ctx : WorkContext) (target : DependencyStatus) (decision : Decision) (actor : Actor)
    (d : Dependency) (s s' : Store)
    → settle ctx target decision actor d s ≡ ok s'
    → ((d.kind == DependencyKind.blocks) ≡ false × (s ≡ s'))
      ⊎ ((d.kind == DependencyKind.blocks) ≡ true
          × (row : Dependency) × Applied ctx d target decision actor d.version s row s')
settle-cases ctx target decision actor d s s' h =
    elim (Bool-cases (d.kind == DependencyKind.blocks)) [
      | inr informs ↦ inl (informs, cc (rw informs at h))
      | inl blocks ↦
          let ((row, t), e, k) =
            returned (apply_dependency_status ctx d target decision actor d.version s) _
              (rw blocks at h) in
          let same : t ≡ s' = cc k in
          inr (
            blocks,
            row,
            apply_dependency_status-Applied ctx d target decision actor d.version s row s'
                (e ∙ ap (λ u. ok (row, u)) same),
          )
    ]

same_others : (s : Store) → OnlyDependencies s s
same_others s = record {
  same_projects = refl;
  same_milestones = refl;
  same_works = refl;
  same_assignments = refl;
}

settle-OnlyDependencies :
    (ctx : WorkContext) (target : DependencyStatus) (decision : Decision) (actor : Actor)
    (u : Store) (d : Dependency) (s s' : Store)
    → settle ctx target decision actor d s ≡ ok s'
    → OnlyDependencies u s
    → OnlyDependencies u s'
settle-OnlyDependencies ctx target decision actor u d s s' h o =
    elim (settle-cases ctx target decision actor d s s' h) [
      | inl (informs, same) ↦ subst (OnlyDependencies u) same o
      | inr (blocks, row, a) ↦
          let f = Applied-OnlyDependencies ctx d target decision actor d.version s row s' a in
          record {
            same_projects = f.same_projects ∙ o.same_projects;
            same_milestones = f.same_milestones ∙ o.same_milestones;
            same_works = f.same_works ∙ o.same_works;
            same_assignments = f.same_assignments ∙ o.same_assignments;
          }
    ]

-- What a blocker's status settles its dependencies to.
abbrev pub IsSettling : DependencyStatus → Type 0
IsSettling target = (target == DependencyStatus.active) ≡ false

module _ (reactivating : Bool) (ctx : WorkContext) (target : DependencyStatus)
    (settling : IsSettling target) (decision : Decision) (actor : Actor) where
  settle-TableSteps :
      (d : Dependency) (s s' : Store)
      → settle ctx target decision actor d s ≡ ok s'
      → find dependencies_table.id d.id s.dependencies ≡ some d
      → TableSteps reactivating s s'
  settle-TableSteps d s s' h there = elim (settle-cases ctx target decision actor d s s' h) [
    | inl (informs, same) ↦ subst (TableSteps reactivating s) same stay
    | inr (blocks, row, a) ↦ one_step (
        Applied-TableStep reactivating ctx d target decision actor d.version s row s' there
          (λ active. absurd (cc (active, settling))) a)
  ]

  pub settle-others :
      (d : Dependency) (s s' : Store)
      → settle ctx target decision actor d s ≡ ok s'
      → (i : ℕ) → (i == d.id) ≡ false
      → find dependencies_table.id i s'.dependencies ≡ find dependencies_table.id i s.dependencies
  settle-others d s s' h i other = elim (settle-cases ctx target decision actor d s s' h) [
    | inl (informs, same) ↦
        ap (λ (u : Store). find dependencies_table.id i u.dependencies) (sym same)
    | inr (blocks, row, a) ↦
        ap (λ (x : Dependency × Store). find dependencies_table.id i x.1.dependencies)
          (sym a.result)
        ∙ update-others dependencies_table (org_of ctx) d.id d.version
            (λ x. record x { status = target }) s.dependencies row a.rows (λ x. refl) a.wrote i
            other
  ]

  settle_all-TableSteps :
      (endpoint : Endpoint) (s s' : Store)
      → Keyed s
      → settle_dependencies ctx endpoint (some target) decision actor s ≡ ok s'
      → TableSteps reactivating s s'
  unfolding settle_dependencies active_dependencies_from
  settle_all-TableSteps endpoint s s' keyed h =
      let from = λ (d : Dependency). is_active_from (org_of ctx) endpoint d in
      let key = dependencies_table.id in
      each-related key (λ (u : Store). u.dependencies) (settle ctx target decision actor)
        (TableSteps reactivating) (λ u. stay) TableSteps-trans settle-TableSteps settle-others
        (active_dependencies_from (org_of ctx) endpoint s) s s' h
        (filter-found key from s.dependencies keyed.dependencies)
        (filter-IsKeyed key from s.dependencies keyed.dependencies)

abbrev pub IsSettlement : Option DependencyStatus → Type 0
IsSettlement none = Unit
IsSettlement (some target) = IsSettling target

pub settle_dependencies-TableSteps :
    (reactivating : Bool) (ctx : WorkContext) (endpoint : Endpoint)
    (settlement : Option DependencyStatus) (decision : Decision) (actor : Actor) (s s' : Store)
    → IsSettlement settlement
    → Keyed s
    → settle_dependencies ctx endpoint settlement decision actor s ≡ ok s'
    → TableSteps reactivating s s'
unfolding settle_dependencies
settle_dependencies-TableSteps r ctx endpoint none decision actor s s' settles keyed h =
    subst (TableSteps r s) (same_value h) stay
settle_dependencies-TableSteps r ctx endpoint (some target) decision actor s s' settles keyed h =
    settle_all-TableSteps r ctx target settles decision actor endpoint s s' keyed h

pub settle_dependencies-OnlyDependencies :
    (ctx : WorkContext) (endpoint : Endpoint) (settlement : Option DependencyStatus)
    (decision : Decision) (actor : Actor) (s s' : Store)
    → settle_dependencies ctx endpoint settlement decision actor s ≡ ok s'
    → OnlyDependencies s s'
unfolding settle_dependencies
settle_dependencies-OnlyDependencies ctx endpoint none decision actor s s' h =
    subst (OnlyDependencies s) (same_value h) (same_others s)
settle_dependencies-OnlyDependencies ctx endpoint (some target) decision actor s s' h =
    each-keeps (settle ctx target decision actor) (OnlyDependencies s)
      (λ d u v e o. settle-OnlyDependencies ctx target decision actor s d u v e o)
      (active_dependencies_from (org_of ctx) endpoint s) s s' h (same_others s)
