-- ===== src/Work/Service/Keyed.antt =====
-- The five primary keys.
use aiworkos.Base.{sym, subst, ◌∙◌, List, Bool}
use aiworkos.Base.Table.{IsKeyed, append-IsKeyed, update_where-IsKeyed}
use aiworkos.Platform.Repository.{Versioned}
use aiworkos.Work.Rows.{
  projects_table, milestones_table, works_table, assignments_table, dependencies_table,
}
use aiworkos.Work.Store.{Store}
use aiworkos.Work.Service.Steps.{
  RowStep, inserted, updated, TableStep, on_project, on_milestone, on_work, on_assignment,
  on_dependency, TableSteps, stay, then_step,
}

pub record Keyed (s : Store) : Type 0 where
  pub projects : IsKeyed projects_table.id s.projects
  pub milestones : IsKeyed milestones_table.id s.milestones
  pub works : IsKeyed works_table.id s.works
  pub assignments : IsKeyed assignments_table.id s.assignments
  pub dependencies : IsKeyed dependencies_table.id s.dependencies

pub RowStep-IsKeyed :
    {A : Type 0} (t : Versioned A) (Fresh : A → Type 0) (Moves : A → A → Type 0)
    (rows rows' : List A) (row : A)
    → RowStep t Fresh Moves rows rows' row
    → IsKeyed t.id rows
    → IsKeyed t.id rows'
RowStep-IsKeyed t Fresh Moves rows rows' row (inserted free fresh e) h =
    subst (IsKeyed t.id) (sym e) (append-IsKeyed t.id rows row h free)
RowStep-IsKeyed t Fresh Moves rows rows' row (updated old g keeps there is_new e moved) h =
    subst (IsKeyed t.id) (sym e) (
      update_where-IsKeyed t.id (t.id old) (λ x. t.bump (g x)) (λ x. t.id-bump (g x) ∙ keeps x) rows
        h)

pub TableStep-Keyed :
    (reactivating : Bool) (s s' : Store) → TableStep reactivating s s' → Keyed s → Keyed s'
TableStep-Keyed r s s' (on_project row rows' step logged e) h = subst Keyed (sym e) (record {
  projects = RowStep-IsKeyed projects_table _ _ s.projects rows' row step h.projects;
  milestones = h.milestones;
  works = h.works;
  assignments = h.assignments;
  dependencies = h.dependencies;
})
TableStep-Keyed r s s' (on_milestone row rows' step logged e) h = subst Keyed (sym e) (record {
  projects = h.projects;
  milestones = RowStep-IsKeyed milestones_table _ _ s.milestones rows' row step h.milestones;
  works = h.works;
  assignments = h.assignments;
  dependencies = h.dependencies;
})
TableStep-Keyed r s s' (on_work row rows' step logged e) h = subst Keyed (sym e) (record {
  projects = h.projects;
  milestones = h.milestones;
  works = RowStep-IsKeyed works_table _ _ s.works rows' row step h.works;
  assignments = h.assignments;
  dependencies = h.dependencies;
})
TableStep-Keyed r s s' (on_assignment row rows' step logged e) h = subst Keyed (sym e) (record {
  projects = h.projects;
  milestones = h.milestones;
  works = h.works;
  assignments = RowStep-IsKeyed assignments_table _ _ s.assignments rows' row step h.assignments;
  dependencies = h.dependencies;
})
TableStep-Keyed r s s' (on_dependency row rows' step logged e) h = subst Keyed (sym e) (record {
  projects = h.projects;
  milestones = h.milestones;
  works = h.works;
  assignments = h.assignments;
  dependencies =
      RowStep-IsKeyed dependencies_table _ _ s.dependencies rows' row step h.dependencies;
})

pub TableSteps-Keyed :
    (reactivating : Bool) (s t : Store) → TableSteps reactivating s t → Keyed s → Keyed t
TableSteps-Keyed r s t stay h = h
TableSteps-Keyed r s t (then_step {mid = m} steps step) h =
    TableStep-Keyed r m t step (TableSteps-Keyed r s m steps h)
