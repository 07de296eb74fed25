-- ===== src/Work/Reporting/Totals.antt =====
-- The counts of a report against counts over the list.
use aiworkos.Base.{
  ℕ, ◌+◌, ◌≡◌, Bool, ◌&&◌, Option, none, some, List, [], ◌∷◌, arith, ◌==◌, nat_eq, option_eq,
  is_none, is_some, contains, count, length,
}
use aiworkos.Work.Vocabulary.{WorkStatus, work_status_eq}
use aiworkos.Work.Lifecycle.{open_work_statuses}
use aiworkos.Work.Reporting.{
  WorkCounts, total, count_from, count_by_partition, ProjectRollup, tally, roll_up_from,
  roll_up_project,
}

count_from_lem :
    (counts : WorkCounts) (ids : List (Option ℕ))
    → ((count_from counts ids).project ≡ counts.project + count (λ i. is_some i) ids)
      × ((count_from counts ids).non_project ≡ counts.non_project + count (λ i. is_none i) ids)
unfolding count_from
count_from_lem counts [] = (omega arith, omega arith)
count_from_lem counts (none ∷ ids) =
    let later = count_from_lem (record counts { non_project = counts.non_project + 1 }) ids in
    (omega (arith, later.0), omega (arith, later.1))
count_from_lem counts (some i ∷ ids) =
    let later = count_from_lem (record counts { project = counts.project + 1 }) ids in
    (omega (arith, later.0), omega (arith, later.1))

some_or_none :
    (ids : List (Option ℕ)) → count (λ i. is_some i) ids + count (λ i. is_none i) ids ≡ length ids
some_or_none [] = omega arith
some_or_none (none ∷ ids) = omega (arith, some_or_none ids)
some_or_none (some i ∷ ids) = omega (arith, some_or_none ids)

-- The two partitions are counted exactly, and together they are all the work that was given.
pub count_by_partition_exact :
    (ids : List (Option ℕ))
    → ((count_by_partition ids).project ≡ count (λ i. is_some i) ids)
      × ((count_by_partition ids).non_project ≡ count (λ i. is_none i) ids)
      × (total (count_by_partition ids) ≡ length ids)
unfolding count_by_partition total
count_by_partition_exact ids =
    let counted = count_from_lem (record { project = 0; non_project = 0 }) ids in
    (
      omega (arith, counted.0),
      omega (arith, counted.1),
      omega (arith, counted.0, counted.1, some_or_none ids),
    )

-- Work of a project, and its status.
abbrev pub in_project : ℕ → (WorkStatus → Bool) → Option ℕ × WorkStatus → Bool
in_project project_id p (owner, status) = (owner == some project_id) && p status

abbrev pub is_open : WorkStatus → Bool
is_open status = contains status open_work_statuses

abbrev pub is_done : WorkStatus → Bool
is_done status = status == WorkStatus.done

abbrev pub has_no_project : Option ℕ × WorkStatus → Bool
has_no_project (owner, _) = is_none owner

pub record RollsUp (r s : ProjectRollup) (work : List (Option ℕ × WorkStatus)) : Type 0 where
  pub opens : s.open_work ≡ r.open_work + count (in_project r.project_id is_open) work
  pub dones : s.done_work ≡ r.done_work + count (in_project r.project_id is_done) work
  pub others : s.excluded_non_project_work ≡ r.excluded_non_project_work + count has_no_project work

tally-RollsUp :
    (r : ProjectRollup) (w : Option ℕ × WorkStatus)
    → ((tally r w).project_id ≡ r.project_id) × RollsUp r (tally r w) (w ∷ [])
unfolding tally open_work_statuses
tally-RollsUp r (none, status) = ground arith
tally-RollsUp r (some i, WorkStatus.done) = ground arith
tally-RollsUp r (some i, status) = ground arith

roll_up_from-RollsUp :
    (r : ProjectRollup) (work : List (Option ℕ × WorkStatus)) → RollsUp r (roll_up_from r work) work
unfolding roll_up_from
roll_up_from-RollsUp r [] = ground arith
roll_up_from-RollsUp r (w ∷ work) =
    let (same, first) = tally-RollsUp r w in
    let later = roll_up_from-RollsUp (tally r w) work in ground (arith, same, first, later)

-- A project's rollup counts exactly its open and its done work, and counts apart, never folded in,
-- the work that has no project.
pub roll_up_project_exact :
    (project_id : ℕ) (work : List (Option ℕ × WorkStatus))
    → ((roll_up_project project_id work).open_work ≡ count (in_project project_id is_open) work)
      × ((roll_up_project project_id work).done_work ≡ count (in_project project_id is_done) work)
      × ((roll_up_project project_id work).excluded_non_project_work ≡ count has_no_project work)
unfolding roll_up_project
roll_up_project_exact project_id work =
    let r : ProjectRollup = record {
      project_id = project_id;
      open_work = 0;
      done_work = 0;
      excluded_non_project_work = 0;
    } in
    let rolled = roll_up_from-RollsUp r work in
    (omega (arith, rolled.opens), omega (arith, rolled.dones), omega (arith, rolled.others))
