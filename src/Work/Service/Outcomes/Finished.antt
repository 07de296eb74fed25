-- ===== src/Work/Service/Outcomes/Finished.antt =====
-- What it takes to finish a Work, and what an edit does not ask.
use aiworkos.Base.{ℕ, ◌≡◌, refl, ap, subst, ◌∙◌, false, Option, some, arith, beq_refl, nat_eq}
use aiworkos.Base.Table.{find, update_where, find-update_where}
use aiworkos.Base.Text.{Text}
use aiworkos.Base.Result.{ok, returned, raise_if, violation, br_w_19, goes_on, passes_on, br_w_01}
use aiworkos.Platform.Authz.Model.{Action, ResourceType, Decision}
use aiworkos.Platform.Repository.{get, update}
use aiworkos.Work.Vocabulary.{WorkStatus, work_status_eq}
use aiworkos.Work.Lifecycle.{WorkTransitionContext, validate_work_transition, completed_at_for}
use aiworkos.Work.Rows.{Project, Work, projects_table, works_table}
use aiworkos.Work.Visibility.{is_narrower_or_equal, effective_work_visibility}
use aiworkos.Work.Store.{Store, WorkContext, org_of, authorize_work, load}
use aiworkos.Work.Queries.{has_open_children, has_active_blocking_dependency}
use aiworkos.Work.Relations.{reach_of, work_authorship_relations, work_project}
use aiworkos.Work.Service.Commands.{unset, set_to, changed, ChangeWorkStatus, UpdateWork}
use aiworkos.Work.Service.Milestones.{is_blanked}
use aiworkos.Work.Service.Items.{
  transition_context, moved_work, change_work_status, assert_next_milestone, assert_next_parent,
  edited_work, edit_work,
}
use aiworkos.Work.Service.Effects.{load-Found, update-found, got, update-returns}
use aiworkos.Work.Service.Refines.Moves.{apply_work_status-WorkApplied}

finishing :
    (status : WorkStatus) (context : WorkTransitionContext)
    → validate_work_transition status WorkStatus.done context ≡ ok tt
    → (status ≡ WorkStatus.in_progress)
      × (context.has_active_blocking_dependency ≡ false)
      × (context.has_open_children ≡ false)
unfolding validate_work_transition
finishing status context h = (ground arith, ground arith, ground arith)

moved_done :
    (now : ℕ) (reason : Option Text) (w : Work)
    → w.status ≡ WorkStatus.in_progress
    → moved_work now WorkStatus.done reason w w
      ≡ record w { status = WorkStatus.done; completed_at = some now }
unfolding completed_at_for
moved_done now reason w status = rw status refl

-- When a Work becomes done, it was in progress, none of its children was open and no active
-- dependency blocked it; it is the same Work one version further, and is completed at that time.
pub change_work_status-done :
    (ctx : WorkContext) (command : ChangeWorkStatus) (s : Store) (row : Work) (s' : Store)
    → command.target ≡ WorkStatus.done
    → change_work_status ctx command s ≡ ok (row, s')
    → (w : Work) × (find works_table.id command.work_id s.works ≡ some w)
      × (w.status ≡ WorkStatus.in_progress)
      × (has_open_children (org_of ctx) w.id s ≡ false)
      × (has_active_blocking_dependency (org_of ctx) w.id s ≡ false)
      × (row
          ≡ works_table.bump (record w { status = WorkStatus.done; completed_at = some ctx.now }))
unfolding change_work_status
change_work_status-done ctx command s row s' target h =
    let (w, e1, h1) = returned (load works_table ctx command.work_id s.works) _ h in
    let (decision, e2, h2) =
      returned
        (authorize_work ctx Action.change_state ResourceType.work
          (work_authorship_relations (reach_of ctx s) w (work_project w s)) (some w.id))
        _ h1 in
    let f = load-Found works_table ctx command.work_id s.works w e1 in
    let a =
      apply_work_status-WorkApplied ctx w command.target decision command.blocked_reason ctx.actor
        command.expected_version s row s' h2 in
    let context = transition_context ctx w command.blocked_reason s in
    let valid : validate_work_transition w.status WorkStatus.done context ≡ ok tt =
      subst (λ t. validate_work_transition w.status t context ≡ ok tt) target a.valid in
    let (status, free, childless) = finishing w.status context valid in
    let image =
      update-found works_table (org_of ctx) command.expected_version
        (moved_work ctx.now command.target command.blocked_reason w) w s.works row a.rows f.there
        a.wrote in
    (
      w,
      f.asked,
      status,
      childless,
      free,
      image
          ∙ (ap (λ t. works_table.bump (moved_work ctx.now t command.blocked_reason w w)) target
              ∙ ap works_table.bump (moved_done ctx.now command.blocked_reason w status)),
    )

-- An edit may leave a Work wider than its Project. It moves a Work to a Project of the organization
-- that is narrower than the Work, and returns: at the Work's current version, by a caller who is
-- allowed to, with a title that is not blank, a milestone that is accepted and no change of the
-- parent. The stored Work is in that Project at a visibility that the rule for Work in it refuses.
pub edit_work_leaves_work_wider :
    (ctx : WorkContext) (command : UpdateWork) (s : Store) (w : Work) (p : Project)
    (decision : Decision)
    → get works_table (org_of ctx) command.work_id s.works ≡ some w
    → w.version ≡ command.expected_version
    → authorize_work ctx Action.update ResourceType.work
        (work_authorship_relations (reach_of ctx s) w (work_project w s))
        (some w.id)
      ≡ ok decision
    → is_blanked command.title ≡ false
    → assert_next_milestone ctx
        (changed command.milestone_id w.milestone_id)
        (changed command.project_id w.project_id)
        s
      ≡ ok tt
    → command.parent_work_id ≡ unset
    → command.project_id ≡ set_to (some p.id)
    → get projects_table (org_of ctx) p.id s.projects ≡ some p
    → is_narrower_or_equal w.visibility p.visibility ≡ false
    → (row : Work) × (s' : Store) × (edit_work ctx command s ≡ ok (row, s'))
      × (find works_table.id w.id s'.works ≡ some row)
      × (row.project_id ≡ some p.id)
      × (get projects_table (org_of ctx) p.id s'.projects ≡ some p)
      × (effective_work_visibility (some row.visibility) (some p.visibility) row.visibility
          ≡ violation br_w_19)
unfolding edit_work effective_work_visibility
edit_work_leaves_work_wider ctx command s w p decision there current allowed titled fits stays to at
      wider =
    let found = got works_table (org_of ctx) command.work_id s.works w there in
    let loaded : load works_table ctx command.work_id s.works ≡ ok w = rw (load, there) refl in
    let placed : assert_next_parent ctx w.id command.parent_work_id s ≡ ok tt = rw stays refl in
    let g = edited_work command in
    let row = works_table.bump (g w) in
    let rows = update_where works_table.id w.id (λ (x : Work). works_table.bump (g x)) s.works in
    let wrote =
      subst (λ v. update works_table (org_of ctx) w.id v g s.works ≡ ok (row, rows)) current
        (update-returns works_table (org_of ctx) g w s.works found.there found.in_org) in
    (
      row,
      _,
      goes_on _ loaded
          ∙ (goes_on _ allowed
              ∙ (passes_on _ (ap (λ b. raise_if b br_w_01) titled)
                  ∙ (passes_on _ fits ∙ (passes_on _ placed ∙ goes_on _ wrote)))),
      ground (
        arith,
        find-update_where works_table.id w.id (λ (x : Work). works_table.bump (g x)) (λ x. refl)
            w.id s.works,
        found.there,
        beq_refl w.id,
      ),
      rw to refl,
      at,
      rw wider refl,
    )
