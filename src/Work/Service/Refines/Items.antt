-- ===== src/Work/Service/Refines/Items.antt =====
-- WorkService.
use aiworkos.Base.{
  ℕ, ◌≡◌, refl, sym, subst, ◌∙◌, Bool, false, not, Option, none, some, List, [], ◌==◌, nat_eq,
  option_eq, is_none, arith,
}
use aiworkos.Base.Table.{find}
use aiworkos.Base.Result.{ok, returned, passed, raise_if, not_raised, same_state, br_p_06, br_w_01}
use aiworkos.Platform.Authz.Model.{Action, ResourceType, Decision}
use aiworkos.Platform.Repository.{update}
use aiworkos.Platform.Records.{Actor}
use aiworkos.Work.Vocabulary.{WorkStatus, Visibility, Source, work_status_eq, source_eq}
use aiworkos.Work.Visibility.{effective_work_visibility}
use aiworkos.Work.Lifecycle.{validate_work_creation}
use aiworkos.Work.Rows.{Work, milestones_table, works_table}
use aiworkos.Work.Store.{
  Snapshot, WorkEvent, Store, WorkContext, org_of, authorize_work, insert, load,
}
use aiworkos.Work.Relations.{
  reach_of, milestone_relations, work_relations, work_authorship_relations, work_project,
}
use aiworkos.Work.Service.Commands.{
  value_or_none, changed, CreateWork, UpdateWork, ChangeWorkVisibility,
}
use aiworkos.Work.Service.Milestones.{is_blanked}
use aiworkos.Work.Service.Items.{
  recorded_work, load_project_of, assert_milestone_within, visibility_of, assert_parent, new_work,
  create_work, assert_next_milestone, assert_next_parent, edited_work, edit_work, shown_at,
  change_work_visibility,
}
use aiworkos.Work.Service.Steps.{
  FreshWork, WorkMove, edits, shows, MilestoneFits, TableStep, on_work,
}
use aiworkos.Work.Service.Effects.{load-Found, insert-RowStep, update-RowStep}

same_option : (a b : Option ℕ) → not (a == b) ≡ false → a ≡ b
same_option a b h = (option_eq.beq_iff a b).0 (ground arith)

within-MilestoneFits :
    (ctx : WorkContext) (milestone_id project_id : Option ℕ) (s : Store) (w : Work)
    → w.milestone_id ≡ milestone_id
    → w.project_id ≡ project_id
    → assert_milestone_within ctx milestone_id project_id s ≡ ok tt
    → MilestoneFits s.milestones w
within-MilestoneFits ctx none project_id s w at within h id e = absurd (cc (at, e))
within-MilestoneFits ctx (some k) project_id s w at within h id e =
    let (m, e1, h1) = returned (load milestones_table ctx k s.milestones) _ h in
    let same : id ≡ k = cc (at, e) in
    let f = load-Found milestones_table ctx k s.milestones m e1 in
    let in_project : some m.project_id ≡ project_id =
      same_option (some m.project_id) project_id (not_raised _ br_p_06 h1) in
    (
      m,
      subst (λ i. find milestones_table.id i s.milestones ≡ some m) (sym same) f.asked,
      within ∙ sym in_project,
    )

next-MilestoneFits :
    (ctx : WorkContext) (milestone_id project_id : Option ℕ) (s : Store) (w : Work)
    → w.milestone_id ≡ milestone_id
    → w.project_id ≡ project_id
    → assert_next_milestone ctx milestone_id project_id s ≡ ok tt
    → MilestoneFits s.milestones w
next-MilestoneFits ctx none project_id s w at within h id e = absurd (cc (at, e))
next-MilestoneFits ctx (some k) project_id s w at within h id e =
    let (e1, h1) = passed (raise_if (is_none project_id) br_p_06) _ h in
    within-MilestoneFits ctx (some k) project_id s w at within h1 id e

creation_status :
    (title : List ℕ) (source : Source) (project_id milestone_id : Option ℕ) (status : WorkStatus)
    → validate_work_creation title source project_id milestone_id ≡ ok status
    → status ≡ WorkStatus.todo
unfolding validate_work_creation
creation_status title source project_id milestone_id status h = ground arith

pub create_work-TableStep :
    (reactivating : Bool) (ctx : WorkContext) (new_id probe_id : ℕ) (command : CreateWork)
    (s : Store) (row : Work) (s' : Store)
    → create_work ctx new_id probe_id command s ≡ ok (row, s')
    → TableStep reactivating s s'
unfolding create_work
create_work-TableStep r ctx new_id probe_id command s row s' h =
    let (status, e1, h1) =
      returned
        (validate_work_creation command.title command.source command.project_id
          command.milestone_id)
        _ h in
    let (p, e2, h2) = returned (load_project_of ctx command.project_id s) _ h1 in
    let (e3, h3) =
      passed (assert_milestone_within ctx command.milestone_id command.project_id s) _ h2 in
    let (visibility, e4, h4) =
      returned
        (effective_work_visibility (value_or_none command.visibility) (visibility_of p)
          Visibility.team)
        _ h3 in
    let (e5, h5) = passed (assert_parent ctx probe_id command.parent_work_id s) _ h4 in
    let (decision, e6, h6) =
      returned
        (authorize_work ctx Action.create ResourceType.work (milestone_relations (reach_of ctx s) p)
          none)
        _ h5 in
    let new = new_work ctx new_id command status visibility in
    let (rows, e7, h7) = returned (insert works_table new s.works) _ h6 in
    let e : (recorded_work ctx Action.create none decision ctx.actor WorkEvent.work_created s
          (new, rows)).1
        ≡ s' =
      same_state h7 in
    subst (TableStep r s) e (
      on_work new rows
        (insert-RowStep works_table (FreshWork s) (WorkMove s) new s.works rows e7 (record {
          to_do =
              creation_status command.title command.source command.project_id command.milestone_id
                status e1;
          not_completed = refl;
          fits =
              within-MilestoneFits ctx command.milestone_id command.project_id s new refl refl e3;
        }))
        (record {
          entry = _;
          of_type = refl;
          of_row = refl;
          shows = refl;
          audited = refl;
          event = _;
          further = [];
          about = refl;
          published = refl;
        })
        refl)

-- A guarded write of a Work that was read, with its records.
pub work_written :
    (reactivating : Bool) (ctx : WorkContext) (action : Action) (decision : Decision)
    (actor : Actor) (event : WorkEvent) (w : Work) (expected : ℕ) (g : Work → Work) (s : Store)
    (row : Work) (rows : List Work)
    → ((x : Work) → works_table.id (g x) ≡ works_table.id x)
    → find works_table.id w.id s.works ≡ some w
    → update works_table (org_of ctx) w.id expected g s.works ≡ ok (row, rows)
    → WorkMove s w (works_table.bump (g w))
    → TableStep reactivating s
        (recorded_work ctx action (some (Snapshot.work w)) decision actor event s (row, rows)).1
work_written r ctx action decision actor event w expected g s row rows keeps there e moved =
    on_work row rows
      (update-RowStep works_table (FreshWork s) (WorkMove s) (org_of ctx) expected g w s.works row
        rows keeps there e moved)
      (record {
        entry = _;
        of_type = refl;
        of_row = refl;
        shows = refl;
        audited = refl;
        event = _;
        further = [];
        about = refl;
        published = refl;
      })
      refl

pub edit_work-TableStep :
    (reactivating : Bool) (ctx : WorkContext) (command : UpdateWork) (s : Store) (row : Work)
    (s' : Store)
    → edit_work ctx command s ≡ ok (row, s')
    → TableStep reactivating s s'
unfolding edit_work
edit_work-TableStep r ctx command s row s' h =
    let (w, e1, h1) = returned (load works_table ctx command.work_id s.works) _ h in
    let (decision, e2, h2) =
      returned
        (authorize_work ctx Action.update ResourceType.work
          (work_authorship_relations (reach_of ctx s) w (work_project w s)) (some w.id))
        _ h1 in
    let (e3, h3) = passed (raise_if (is_blanked command.title) br_w_01) _ h2 in
    let milestone_id = changed command.milestone_id w.milestone_id in
    let project_id = changed command.project_id w.project_id in
    let (e4, h4) = passed (assert_next_milestone ctx milestone_id project_id s) _ h3 in
    let (e5, h5) = passed (assert_next_parent ctx w.id command.parent_work_id s) _ h4 in
    let ((x, rows), e6, h6) =
      returned
        (update works_table (org_of ctx) w.id command.expected_version (edited_work command)
          s.works)
        _ h5 in
    let e : (recorded_work ctx Action.update (some (Snapshot.work w)) decision ctx.actor
          WorkEvent.work_updated s (x, rows)).1
        ≡ s' =
      same_state h6 in
    subst (TableStep r s) e (
      work_written r ctx Action.update decision ctx.actor WorkEvent.work_updated w
        command.expected_version (edited_work command) s x rows (λ y. refl)
        (load-Found works_table ctx command.work_id s.works w e1).there e6
        (edits refl refl (
          next-MilestoneFits ctx milestone_id project_id s
            (works_table.bump (edited_work command w)) refl refl e4)))

pub change_work_visibility-TableStep :
    (reactivating : Bool) (ctx : WorkContext) (command : ChangeWorkVisibility) (s : Store)
    (row : Work) (s' : Store)
    → change_work_visibility ctx command s ≡ ok (row, s')
    → TableStep reactivating s s'
unfolding change_work_visibility
change_work_visibility-TableStep r ctx command s row s' h =
    let (w, e1, h1) = returned (load works_table ctx command.work_id s.works) _ h in
    let (decision, e2, h2) =
      returned
        (authorize_work ctx Action.change_visibility ResourceType.work
          (work_relations (reach_of ctx s) w (work_project w s)) (some w.id))
        _ h1 in
    let (allowed, e3, h3) =
      returned
        (effective_work_visibility (some command.visibility) (visibility_of (work_project w s))
          command.visibility)
        _ h2 in
    let ((x, rows), e4, h4) =
      returned
        (update works_table (org_of ctx) w.id command.expected_version (shown_at command.visibility)
          s.works)
        _ h3 in
    let event = WorkEvent.work_visibility_changed w.visibility command.visibility in
    let e : (recorded_work ctx Action.change_visibility (some (Snapshot.work w)) decision ctx.actor
          event s (x, rows)).1
        ≡ s' =
      same_state h4 in
    subst (TableStep r s) e (
      work_written r ctx Action.change_visibility decision ctx.actor event w
        command.expected_version (shown_at command.visibility) s x rows (λ y. refl)
        (load-Found works_table ctx command.work_id s.works w e1).there e4
        (shows refl refl refl refl))
