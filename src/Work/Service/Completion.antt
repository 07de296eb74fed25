-- ===== src/Work/Service/Completion.antt =====
-- What holds of every row that the services store: times that go with statuses, and milestones in
-- their Work's Project.
use aiworkos.Base.{
  ℕ, ◌≡◌, refl, ap, sym, subst, ◌∙◌, inl, inr, Bool, some, List, ◌==◌, is_some, All, ◌∷◌, [],
  nat_eq, Bool-cases, if◌then◌else◌,
}
use aiworkos.Base.Table.{
  find, find-append, find-update_where, IsKeyed, All-append, All-find, All-update_found, map_option,
}
use aiworkos.Platform.Repository.{Versioned}
use aiworkos.Work.Vocabulary.{WorkStatus, AssignmentStatus, work_status_eq, assignment_status_eq}
use aiworkos.Work.Lifecycle.{completed_at_for}
use aiworkos.Work.Rows.{
  Milestone, Work, WorkAssignment, milestones_table, works_table, assignments_table,
}
use aiworkos.Work.Store.{Store}
use aiworkos.Work.Service.Steps.{
  RowStep, inserted, updated, FreshMilestone, MilestoneMove, FreshWork, WorkMove, edits, shows,
  moves, MilestoneFits, FreshAssignment, AssignmentMove, TableStep, on_project, on_milestone,
  on_work, on_assignment, on_dependency, TableSteps, stay, then_step,
}
use aiworkos.Work.Service.Keyed.{Keyed, TableSteps-Keyed}
use aiworkos.Work.Service.History.{History, History-TableSteps, empty_store, empty_store-Keyed}

-- What a step on a table keeps, if its insertions have it and its writes keep it.
pub RowStep-All :
    {A : Type 0} (t : Versioned A) (Fresh : A → Type 0) (Moves : A → A → Type 0) (P : A → Type 0)
    (rows rows' : List A) (row : A)
    → (Fresh row → P row)
    → ((old : A) → Moves old row → find t.id (t.id old) rows ≡ some old → P row)
    → IsKeyed t.id rows
    → RowStep t Fresh Moves rows rows' row
    → All P rows
    → All P rows'
RowStep-All t Fresh Moves P rows rows' row begins keeps keyed (inserted free fresh e) h =
    subst (All P) (sym e) (All-append t.id P rows row h (begins fresh))
RowStep-All t Fresh Moves P rows rows' row begins keeps keyed
      (updated old g id_kept there is_new e moved) h =
    subst (All P) (sym e) (
      All-update_found t.id P (t.id old) (λ x. t.bump (g x)) rows old keyed there
        (subst P is_new (keeps old moved there)) h)

-- `ck_work_completed_at_matches_status`
abbrev pub IsDated : Work → Type 0
IsDated w = is_some w.completed_at ≡ (w.status == WorkStatus.done)

-- `ck_work_assignment_ended_at_matches_status`
abbrev pub IsEndDated : WorkAssignment → Type 0
IsEndDated a = is_some a.ended_at ≡ (a.status == AssignmentStatus.ended)

pub record IsConsistent (s : Store) : Type 0 where
  pub dated : All IsDated s.works
  pub end_dated : All IsEndDated s.assignments
  pub fitting : All (MilestoneFits s.milestones) s.works

All-weaken :
    {A : Type 0} (P Q : A → Type 0) (xs : List A) → ((x : A) → P x → Q x) → All P xs → All Q xs
All-weaken P Q [] on h = tt
All-weaken P Q (x ∷ xs) on h = (on x h.0, All-weaken P Q xs on h.1)

completed_at_for_lem :
    (status : WorkStatus) (now : ℕ)
    → is_some (completed_at_for status now) ≡ (status == WorkStatus.done)
unfolding completed_at_for
completed_at_for_lem status now = elim (Bool-cases (status == WorkStatus.done)) [
  | inl done ↦ rw done refl
  | inr other ↦ rw other refl
]

fresh-IsDated : (s : Store) (w : Work) → FreshWork s w → IsDated w
fresh-IsDated s w f = rw (f.not_completed, f.to_do) refl

moved-IsDated : (s : Store) (old new : Work) → WorkMove s old new → IsDated old → IsDated new
moved-IsDated s old new (edits status completed fits) h = rw (completed, status) h
moved-IsDated s old new (shows status completed at within) h = rw (completed, status) h
moved-IsDated s old new (moves context now valid completed at within) h =
    ap is_some completed ∙ completed_at_for_lem new.status now

moved-MilestoneFits :
    (s : Store) (old new : Work)
    → WorkMove s old new
    → MilestoneFits s.milestones old
    → MilestoneFits s.milestones new
moved-MilestoneFits s old new (edits status completed fits) h id e = fits id e
moved-MilestoneFits s old new (shows status completed at within) h id e =
    let (m, there, same) = h id (sym at ∙ e) in (m, there, within ∙ same)
moved-MilestoneFits s old new (moves context now valid completed at within) h id e =
    let (m, there, same) = h id (sym at ∙ e) in (m, there, within ∙ same)

-- A step on the milestones keeps each milestone where it was, in its Project.
milestone_stays :
    (ms ms' : List Milestone) (row : Milestone)
    → RowStep milestones_table FreshMilestone MilestoneMove ms ms' row
    → (id : ℕ) (m : Milestone) → find milestones_table.id id ms ≡ some m
    → (m' : Milestone) × (find milestones_table.id id ms' ≡ some m')
      × (m'.project_id ≡ m.project_id)
milestone_stays ms ms' row (inserted free fresh e) id m there = (
  m,
  ap (find milestones_table.id id) e ∙ (find-append milestones_table.id id ms row ∙ rw there refl),
  refl,
)
milestone_stays ms ms' row (updated old g keeps at is_new e moved) id m there =
    let bumped = λ (x : Milestone). milestones_table.bump (g x) in
    let found : find milestones_table.id id ms' ≡ (
        if id == old.id
        then map_option bumped (find milestones_table.id id ms)
        else find milestones_table.id id ms) =
      ap (find milestones_table.id id) e
      ∙ find-update_where milestones_table.id old.id bumped keeps id ms in
    elim (Bool-cases (id == old.id)) [
      | inr other ↦ (m, found ∙ rw (other, there) refl, refl)
      | inl same ↦
          let here : id ≡ old.id = (nat_eq.beq_iff id old.id).0 same in
          let at_old : find milestones_table.id old.id ms ≡ some m =
            subst (λ k. find milestones_table.id k ms ≡ some m) here there in
          let is_old : m ≡ old = cc (at_old, at) in
          (
            bumped m,
            found ∙ rw (same, there) refl,
            ap (λ x. (bumped x).project_id) is_old
                ∙ (ap (λ (x : Milestone). x.project_id) (sym is_new)
                    ∙ (moved.same_project ∙ ap (λ (x : Milestone). x.project_id) (sym is_old))),
          )
    ]

fresh-IsEndDated : (s : Store) (a : WorkAssignment) → FreshAssignment s a → IsEndDated a
fresh-IsEndDated s a f = rw (f.not_ended, f.is_active) refl

moved-IsEndDated : (old new : WorkAssignment) → AssignmentMove old new → IsEndDated new
moved-IsEndDated old new m = m.end_is_known ∙ rw (m.now_ended) refl

TableStep-IsConsistent :
    (r : Bool) (s s' : Store) → Keyed s → TableStep r s s' → IsConsistent s → IsConsistent s'
TableStep-IsConsistent r s s' k (on_project row rows' step logged e) h =
    subst IsConsistent (sym e)
      (record { dated = h.dated; end_dated = h.end_dated; fitting = h.fitting })
TableStep-IsConsistent r s s' k (on_milestone row rows' step logged e) h =
    subst IsConsistent (sym e) (record {
      dated = h.dated;
      end_dated = h.end_dated;
      fitting =
          All-weaken (MilestoneFits s.milestones) (MilestoneFits rows') s.works
            (λ w fits id at.
              let (m, there, within) = fits id at in
              let (m', there', same) = milestone_stays s.milestones rows' row step id m there in
              (m', there', within ∙ ap some (sym same)))
            h.fitting;
    })
TableStep-IsConsistent r s s' k (on_work row rows' step logged e) h =
    subst IsConsistent (sym e) (record {
      dated =
          RowStep-All works_table (FreshWork s) (WorkMove s) IsDated s.works rows' row
            (fresh-IsDated s row)
            (λ old moved there.
              moved-IsDated s old row moved
                (All-find works_table.id IsDated old.id s.works old h.dated there))
            k.works step h.dated;
      end_dated = h.end_dated;
      fitting =
          RowStep-All works_table (FreshWork s) (WorkMove s) (MilestoneFits s.milestones) s.works
            rows' row (λ fresh. fresh.fits)
            (λ old moved there. moved-MilestoneFits s old row moved (
              All-find works_table.id (MilestoneFits s.milestones) old.id s.works old h.fitting
                there))
            k.works step h.fitting;
    })
TableStep-IsConsistent r s s' k (on_assignment row rows' step logged e) h =
    subst IsConsistent (sym e) (record {
      dated = h.dated;
      end_dated =
          RowStep-All assignments_table (FreshAssignment s) AssignmentMove IsEndDated s.assignments
            rows' row (fresh-IsEndDated s row) (λ old moved there. moved-IsEndDated old row moved)
            k.assignments step h.end_dated;
      fitting = h.fitting;
    })
TableStep-IsConsistent r s s' k (on_dependency row rows' step logged e) h =
    subst IsConsistent (sym e)
      (record { dated = h.dated; end_dated = h.end_dated; fitting = h.fitting })

TableSteps-IsConsistent :
    (r : Bool) (s t : Store) → Keyed s → TableSteps r s t → IsConsistent s → IsConsistent t
TableSteps-IsConsistent r s t k stay h = h
TableSteps-IsConsistent r s t k (then_step {mid = m} steps step) h =
    TableStep-IsConsistent r m t (TableSteps-Keyed r s m steps k) step
      (TableSteps-IsConsistent r s m k steps h)

-- In every store that committed use cases lead to from the empty one, ids are unique, a Work has a
-- time of completion exactly if it is done, an assignment has a time of its end exactly if it has
-- ended, and a milestone that a Work refers to exists and is in the Work's own Project.
pub History-IsConsistent :
    (reactivating : Bool) (s : Store)
    → History reactivating empty_store s
    → Keyed s × IsConsistent s
History-IsConsistent r s history =
    let steps = History-TableSteps r empty_store s empty_store-Keyed history in
    (
      TableSteps-Keyed r empty_store s steps empty_store-Keyed,
      TableSteps-IsConsistent r empty_store s empty_store-Keyed steps
          (record { dated = tt; end_dated = tt; fitting = tt }),
    )
