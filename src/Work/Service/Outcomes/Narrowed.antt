-- ===== src/Work/Service/Outcomes/Narrowed.antt =====
-- What a change of visibility leaves: `_narrow_contents`, and a Work's own level.
use aiworkos.Base.{
  ℕ, ◌≡◌, refl, ap, sym, subst, ◌∙◌, inl, inr, Bool, true, false, none, some, ◌&&◌, nat_eq,
  option_eq, ltb, arith,
}
use aiworkos.Base.Table.{find}
use aiworkos.Base.Loop.{each-clears_all}
use aiworkos.Base.Result.{ok, returned, same_value}
use aiworkos.Platform.Authz.Model.{Action, ResourceType, Decision}
use aiworkos.Platform.Repository.{update}
use aiworkos.Platform.Records.{Actor}
use aiworkos.Work.Vocabulary.{Visibility}
use aiworkos.Work.Visibility.{rank, narrowing_to}
use aiworkos.Work.Rows.{Project, Work, works_table, projects_table}
use aiworkos.Work.Store.{
  Snapshot, WorkEvent, Store, WorkContext, org_of, cascade_actor, authorize_work, load,
}
use aiworkos.Work.Queries.{is_work_of, work_wider_than}
use aiworkos.Work.Relations.{reach_of, project_relations}
use aiworkos.Work.Service.Commands.{ChangeProjectVisibility}
use aiworkos.Work.Service.Items.{shown_at}
use aiworkos.Work.Service.Projects.{
  narrow, narrow_contents, recorded_project, change_project_visibility,
}
use aiworkos.Work.Service.Effects.{update-stored, update-image}
use aiworkos.Work.Service.Keyed.{Keyed}
use aiworkos.Work.Service.Refines.Projects.{narrow-cases, narrow-others}

-- A Work of this Project that more people may see than the limit allows.
abbrev pub is_wider : ℕ → ℕ → Visibility → Work → Bool
is_wider org_id project_id limit w =
    is_work_of org_id project_id w && ltb (rank w.visibility) (rank limit)

narrowing_to_limit :
    (current limit target : Visibility) → narrowing_to current limit ≡ some target → target ≡ limit
unfolding narrowing_to
narrowing_to_limit current limit target h = ground arith

not_wider :
    (current limit : Visibility)
    → narrowing_to current limit ≡ none
    → ltb (rank current) (rank limit) ≡ false
unfolding narrowing_to
not_wider current limit h = ground arith

narrowed-is_wider :
    (ctx : WorkContext) (project_id : ℕ) (limit : Visibility) (decision : Decision) (actor : Actor)
    (w : Work) (s t : Store)
    → narrow ctx limit decision actor w s ≡ ok t
    → find works_table.id w.id s.works ≡ some w
    → (row : Work) → find works_table.id w.id t.works ≡ some row
    → is_wider (org_of ctx) project_id limit row ≡ false
narrowed-is_wider ctx project_id limit decision actor w s t h found row there =
    elim (narrow-cases ctx limit decision actor w s t h) [
      | inl (stays, same) ↦
          let at_end : find works_table.id w.id s.works ≡ some row =
            subst (λ (u : Store). find works_table.id w.id u.works ≡ some row) (sym same) there in
          let is_w : w ≡ row = cc (found, at_end) in
          let narrow_enough =
            subst (λ (x : Work). ltb (rank x.visibility) (rank limit) ≡ false) is_w
              (not_wider w.visibility limit stays) in
          ground (arith, narrow_enough)
      | inr (target, narrows, x, rows, e, same) ↦
          let (stored, at) =
            update-stored works_table (org_of ctx) w.id w.version (shown_at target) s.works x rows
              (λ y. refl) e in
          let (old, image) =
            update-image works_table (org_of ctx) w.id w.version (shown_at target) s.works x rows
              e in
          let at_end : find works_table.id w.id rows ≡ some row =
            subst (λ (u : Store). find works_table.id w.id u.works ≡ some row) (sym same) there in
          let is_x : x ≡ row = cc (stored, at_end) in
          let level : row.visibility ≡ limit =
            ap (λ (y : Work). y.visibility) (sym is_x ∙ image)
            ∙ narrowing_to_limit w.visibility limit target narrows in
          ground (arith, level)
    ]

-- When a change of a Project's visibility returns, from a state with unique ids, the Project has the
-- level that was asked for, and no Work in it is open to more people than that.
pub change_project_visibility-is_wider :
    (ctx : WorkContext) (command : ChangeProjectVisibility) (s : Store) (row : Project) (s' : Store)
    → Keyed s
    → change_project_visibility ctx command s ≡ ok (row, s')
    → (row.visibility ≡ command.visibility)
      × ((id : ℕ) (w : Work)
          → find works_table.id id s'.works ≡ some w
          → is_wider (org_of ctx) row.id command.visibility w ≡ false)
unfolding change_project_visibility narrow_contents work_wider_than
change_project_visibility-is_wider ctx command s row s' keyed h =
    let (p, e1, h1) = returned (load projects_table ctx command.project_id s.projects) _ h in
    let (decision, e2, h2) =
      returned
        (authorize_work ctx Action.change_visibility ResourceType.project
          (project_relations (reach_of ctx s) p) (some p.id))
        _ h1 in
    let g = λ (x : Project). record x { visibility = command.visibility } in
    let ((x, rows), e3, h3) =
      returned (update projects_table (org_of ctx) p.id command.expected_version g s.projects) _
        h2 in
    let event = WorkEvent.project_visibility_changed p.visibility command.visibility in
    let mid =
      (recorded_project ctx Action.change_visibility (some (Snapshot.project p)) decision event s
        (x, rows)).1 in
    let (t, e4, h4) = returned (narrow_contents ctx x decision mid) _ h3 in
    let (old, image) =
      update-image projects_table (org_of ctx) p.id command.expected_version g s.projects x rows
        e3 in
    let level : x.visibility ≡ command.visibility = ap (λ (y : Project). y.visibility) image in
    let actor = cascade_actor ctx x.id in
    let wider = is_wider (org_of ctx) x.id x.visibility in
    subst
      (λ (y : Project × Store).
        (y.0.visibility ≡ command.visibility)
        × ((id : ℕ) (w : Work)
            → find works_table.id id y.1.works ≡ some w
            → is_wider (org_of ctx) y.0.id command.visibility w ≡ false))
      (same_value h4)
      (
        level,
        λ id w there.
            subst (λ limit. is_wider (org_of ctx) x.id limit w ≡ false) level
              (each-clears_all works_table.id (λ (u : Store). u.works)
                (narrow ctx x.visibility decision actor) wider wider (λ y e. e)
                (narrowed-is_wider ctx x.id x.visibility decision actor)
                (narrow-others true ctx x.visibility decision actor) mid t keyed.works e4 id w
                there),
      )
