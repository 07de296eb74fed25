-- ===== src/Work/Reporting.antt =====
-- Reporting: partition_of, count_by_partition and roll_up_project of contexts/work/domain.py.
pub mod Totals
use aiworkos.Base.{
  ℕ, ◌+◌, Bool, Option, none, some, List, [], ◌∷◌, ◌==◌, nat_eq, option_eq, is_none, contains,
  if◌then◌else◌,
}
use aiworkos.Work.Vocabulary.{WorkStatus, work_status_eq}
use aiworkos.Work.Lifecycle.{open_work_statuses}

pub data WorkPartition : Type 0 where
  project non_project : WorkPartition

unfoldable pub partition_of : Option ℕ → WorkPartition
partition_of none = WorkPartition.non_project
partition_of (some _) = WorkPartition.project

pub record WorkCounts : Type 0 where
  pub project : ℕ
  pub non_project : ℕ

unfoldable pub total : WorkCounts → ℕ
total counts = counts.project + counts.non_project

-- The loop of `count_by_partition`, over its two counters.
count_from : WorkCounts → List (Option ℕ) → WorkCounts
count_from counts [] = counts
count_from counts (none ∷ rest) =
    count_from (record counts { non_project = counts.non_project + 1 }) rest
count_from counts (some _ ∷ rest) = count_from (record counts { project = counts.project + 1 }) rest

pub count_by_partition : List (Option ℕ) → WorkCounts
unfolding count_from
count_by_partition project_ids = count_from (record { project = 0; non_project = 0 }) project_ids

pub record ProjectRollup : Type 0 where
  pub project_id : ℕ
  pub open_work : ℕ
  pub done_work : ℕ
  pub excluded_non_project_work : ℕ

-- One round of the loop of `roll_up_project`.
tally : ProjectRollup → Option ℕ × WorkStatus → ProjectRollup
unfolding open_work_statuses
tally r (owner_project_id, status) =
    if owner_project_id == some r.project_id
    then (if contains status open_work_statuses
        then record r { open_work = r.open_work + 1 }
        else if status == WorkStatus.done
        then record r { done_work = r.done_work + 1 }
        else r)
    else if is_none owner_project_id
    then record r { excluded_non_project_work = r.excluded_non_project_work + 1 }
    else r

roll_up_from : ProjectRollup → List (Option ℕ × WorkStatus) → ProjectRollup
unfolding tally
roll_up_from r [] = r
roll_up_from r (w ∷ rest) = roll_up_from (tally r w) rest

pub roll_up_project : ℕ → List (Option ℕ × WorkStatus) → ProjectRollup
unfolding roll_up_from
roll_up_project project_id work =
    roll_up_from
      (record {
        project_id = project_id;
        open_work = 0;
        done_work = 0;
        excluded_non_project_work = 0;
      })
      work
