-- ===== src/Work/Service/Graph.antt =====
-- The graph of the dependencies of each organization, under the use cases of the Work Core.
use aiworkos.Base.{
  ℕ, ◌≡◌, refl, ap, sym, subst, inl, inr, true, false, none, some, List, [], ◌∷◌, ◌++◌, ◌==◌, arith,
  nat_eq, map, filter, Bool-cases, if◌then◌else◌,
}
use mathlib.Core.List.{Memᴰ}
use mathlib.Core.List.Memᴰ
use aiworkos.Base.Table.{find, update_where, IsKeyed, update_where-untouched}
use aiworkos.Base.Result.{ok}
use aiworkos.Work.Vocabulary.{DependencyStatus, dependency_kind_eq, dependency_status_eq}
use aiworkos.Work.Dependency.{Endpoint, DependencyEdge, constrains, validate_dependency}
use aiworkos.Work.Dependency.Relation.{Step, along, Reach, here, next, IsAcyclic}
use aiworkos.Work.Dependency.Acyclic.{validate_dependency-IsAcyclic}
use aiworkos.Work.Rows.{Dependency, dependencies_table}
use aiworkos.Work.Store.{Store}
use aiworkos.Work.Queries.{edge_of, dependency_edges}
use aiworkos.Work.Service.Steps.{
  RowStep, inserted, updated, FreshDependency, DependencyMove, TableStep, on_project, on_milestone,
  on_work, on_assignment, on_dependency, TableSteps, stay, then_step,
}
use aiworkos.Work.Service.Keyed.{Keyed, TableSteps-Keyed}
use aiworkos.Work.Service.History.{History, History-TableSteps, empty_store, empty_store-Keyed}

abbrev edges_of : ℕ → List Dependency → List DependencyEdge
edges_of org_id rows = map edge_of (filter (λ d. d.org_id == org_id) rows)

edges_of-append :
    (org_id : ℕ) (rows : List Dependency) (d : Dependency)
    → edges_of org_id (rows ++ d ∷ []) ≡ (
        if d.org_id == org_id then edges_of org_id rows ++ edge_of d ∷ [] else edges_of org_id rows)
edges_of-append org_id [] d = elim (Bool-cases (d.org_id == org_id)) [
  | inl at_org ↦ rw at_org refl
  | inr other ↦ rw other refl
]
edges_of-append org_id (x ∷ rows) d = ground (arith, edges_of-append org_id rows d)

among_more :
    (org_id : ℕ) (x : Dependency) (rows : List Dependency) (e : DependencyEdge)
    → Memᴰ e (edges_of org_id rows)
    → Memᴰ e (edges_of org_id (x ∷ rows))
among_more org_id x rows e m = elim (Bool-cases (x.org_id == org_id)) [
  | inl at_org ↦ rw at_org (Memᴰ.tail m)
  | inr other ↦ rw other m
]

-- A row that is written so that it constrains nothing adds no constraining edge.
written_edges :
    (org_id k : ℕ) (g : Dependency → Dependency) (rows : List Dependency) (old : Dependency)
    (e : DependencyEdge)
    → IsKeyed dependencies_table.id rows
    → find dependencies_table.id k rows ≡ some old
    → constrains (edge_of (g old)) ≡ false
    → constrains e ≡ true
    → Memᴰ e (edges_of org_id (update_where dependencies_table.id k g rows))
    → Memᴰ e (edges_of org_id rows)
written_edges org_id k g [] old e keyed there free binds m = m
written_edges org_id k g (x ∷ rows) old e keyed there free binds m = elim (Bool-cases (x.id == k)) [
  | inl found ↦
      let is_old : x ≡ old = ground arith in
      let at_k : x.id ≡ k = (nat_eq.beq_iff x.id k).0 found in
      let rest : update_where dependencies_table.id k g rows ≡ rows =
        update_where-untouched dependencies_table.id k g rows
          (subst (λ i. find dependencies_table.id i rows ≡ none) at_k keyed.0) in
      let m' : Memᴰ e (edges_of org_id (g x ∷ rows)) = rw (found, rest) at m in
      among_more org_id x rows e (elim (Bool-cases ((g x).org_id == org_id)) [
        | inr other ↦ rw other at m'
        | inl at_org ↦ elim (Memᴰ.cases_cons (rw at_org at m')) [
          | inl p ↦ absurd (cc (ap constrains p, binds, free, is_old))
          | inr q ↦ q
        ]
      ])
  | inr other ↦
      let there' : find dependencies_table.id k rows ≡ some old = rw other at there in
      let m' : Memᴰ e (edges_of org_id (x ∷ update_where dependencies_table.id k g rows)) =
        rw other at m in
      elim (Bool-cases (x.org_id == org_id)) [
        | inr elsewhere ↦
            among_more org_id x rows e
              (written_edges org_id k g rows old e keyed.1 there' free binds (rw elsewhere at m'))
        | inl at_org ↦ elim (Memᴰ.cases_cons (rw at_org at m')) [
          | inl p ↦ rw at_org (Memᴰ.head p)
          | inr q ↦
              among_more org_id x rows e
                (written_edges org_id k g rows old e keyed.1 there' free binds q)
        ]
      ]
]

Reach-mono :
    (xs ys : List DependencyEdge)
    → ((a b : Endpoint) → Step xs a b → Step ys a b)
    → (a b : Endpoint) → Reach xs a b
    → Reach ys a b
Reach-mono xs ys on a b here = here
Reach-mono xs ys on a b (next {b = m} r step) = next (Reach-mono xs ys on a m r) (on m b step)

fewer-IsAcyclic :
    (xs ys : List DependencyEdge)
    → ((a b : Endpoint) → Step xs a b → Step ys a b)
    → IsAcyclic ys
    → IsAcyclic xs
fewer-IsAcyclic xs ys on h a b step back = h a b (on a b step) (Reach-mono xs ys on b a back)

-- A dependency that is not set to active constrains nothing.
settled-constrains :
    (old new : Dependency) → DependencyMove false old new → constrains (edge_of new) ≡ false
settled-constrains old new m = elim (Bool-cases (new.status == DependencyStatus.active)) [
  | inl active ↦ absurd (cc (m.reactivated active))
  | inr other ↦ ground (arith, other)
]

RowStep-IsAcyclic :
    (s : Store) (rows' : List Dependency) (row : Dependency)
    → IsKeyed dependencies_table.id s.dependencies
    → RowStep dependencies_table (FreshDependency s) (DependencyMove false) s.dependencies rows' row
    → ((org_id : ℕ) → IsAcyclic (edges_of org_id s.dependencies))
    → (org_id : ℕ) → IsAcyclic (edges_of org_id rows')
RowStep-IsAcyclic s rows' row keyed (inserted free fresh e) h org_id =
    subst (λ rows. IsAcyclic (edges_of org_id rows)) (sym e)
      (subst IsAcyclic (sym (edges_of-append org_id s.dependencies row))
        (elim (Bool-cases (row.org_id == org_id)) [
          | inr elsewhere ↦ rw elsewhere (h org_id)
          | inl at_org ↦
              let same : row.org_id ≡ org_id = (nat_eq.beq_iff row.org_id org_id).0 at_org in
              rw at_org (
                validate_dependency-IsAcyclic (edge_of row) (edges_of org_id s.dependencies)
                  row.org_id row.org_id (h org_id)
                  (subst
                    (λ o.
                      validate_dependency (edge_of row) (edges_of o s.dependencies) row.org_id
                        row.org_id
                      ≡ ok tt)
                    same fresh.accepted))
        ]))
RowStep-IsAcyclic s rows' row keyed (updated old g keeps there is_new e moved) h org_id =
    let bumped = λ (x : Dependency). dependencies_table.bump (g x) in
    let free : constrains (edge_of (bumped old)) ≡ false =
      subst (λ d. constrains (edge_of d) ≡ false) is_new (settled-constrains old row moved) in
    subst (λ rows. IsAcyclic (edges_of org_id rows)) (sym e)
      (fewer-IsAcyclic _ (edges_of org_id s.dependencies)
        (λ a b step. elim step [
          | along edge m binds p q ↦
              along edge
                (written_edges org_id old.id bumped s.dependencies old edge keyed there free binds
                  m)
                binds p q
        ])
        (h org_id))

TableStep-IsAcyclic :
    (s s' : Store)
    → Keyed s
    → TableStep false s s'
    → ((org_id : ℕ) → IsAcyclic (edges_of org_id s.dependencies))
    → (org_id : ℕ) → IsAcyclic (edges_of org_id s'.dependencies)
TableStep-IsAcyclic s s' k (on_project row rows' step logged e) h org_id =
    subst (λ (u : Store). IsAcyclic (edges_of org_id u.dependencies)) (sym e) (h org_id)
TableStep-IsAcyclic s s' k (on_milestone row rows' step logged e) h org_id =
    subst (λ (u : Store). IsAcyclic (edges_of org_id u.dependencies)) (sym e) (h org_id)
TableStep-IsAcyclic s s' k (on_work row rows' step logged e) h org_id =
    subst (λ (u : Store). IsAcyclic (edges_of org_id u.dependencies)) (sym e) (h org_id)
TableStep-IsAcyclic s s' k (on_assignment row rows' step logged e) h org_id =
    subst (λ (u : Store). IsAcyclic (edges_of org_id u.dependencies)) (sym e) (h org_id)
TableStep-IsAcyclic s s' k (on_dependency row rows' step logged e) h org_id =
    subst (λ (u : Store). IsAcyclic (edges_of org_id u.dependencies)) (sym e)
      (RowStep-IsAcyclic s rows' row k.dependencies step h org_id)

TableSteps-IsAcyclic :
    (s t : Store)
    → Keyed s
    → TableSteps false s t
    → ((org_id : ℕ) → IsAcyclic (edges_of org_id s.dependencies))
    → (org_id : ℕ) → IsAcyclic (edges_of org_id t.dependencies)
TableSteps-IsAcyclic s t k stay h = h
TableSteps-IsAcyclic s t k (then_step {mid = m} steps step) h =
    TableStep-IsAcyclic m t (TableSteps-Keyed false s m steps k) step
      (TableSteps-IsAcyclic s m k steps h)

-- In every store that committed use cases lead to from the empty one, none of which sets a dependency
-- to active by hand, nothing of any organization blocks itself, directly or in steps.
pub History-IsAcyclic :
    (s : Store) (org_id : ℕ) → History false empty_store s → IsAcyclic (dependency_edges org_id s)
History-IsAcyclic s org_id history =
    TableSteps-IsAcyclic empty_store s empty_store-Keyed
      (History-TableSteps false empty_store s empty_store-Keyed history)
      (λ o a b step. elim step [ along e m binds p q ↦ λ back. absurd (Memᴰ.not-nil m) ]) org_id
