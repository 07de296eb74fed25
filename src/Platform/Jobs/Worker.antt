-- ===== src/Platform/Jobs/Worker.antt =====
-- The worker over many turns: what one turn keeps, and how many turns a queue can ask for.
use aiworkos.Base.{
  ℕ, ◌+◌, ◌-◌, ◌<◌, ◌≡◌, refl, inl, inr, true, some, List, arith, ◌==◌, nat_eq, option_eq, leb,
  Option-cases, Bool-cases, contains, if◌then◌else◌,
}
use aiworkos.Base.Text.{Text}
use aiworkos.Base.Table.{
  find, map_option, All-find, All-update_found, sum_by, sum_by-update_where, find-update_where,
  update_where-IsKeyed,
}
use aiworkos.Platform.Jobs.Settled.{
  IsSettled, IsQueue, outcome_of, run_once_lem, run_once_idle, outcome-IsSettled, key-outcome_of,
}
use aiworkos.Platform.Jobs.Claim.{first_runnable-found}
use aiworkos.Platform.Jobs.{
  Ending, returned, terminal, raised, missing, no_handler, run_handler, mark_running, Database,
  run_once, JobStatus, job_status_eq, Job, JobRecord, job_id, is_runnable, first_runnable,
  record_of, mark_failed,
}

pub pending_of_runnable :
    (now : ℕ) (kinds locked : List ℕ) (j : Job)
    → is_runnable now kinds locked j ≡ true
    → j.status ≡ JobStatus.pending
pending_of_runnable now kinds locked j h = ground arith

-- The attempts that a pending job has left.
abbrev pub attempts_left : Job → ℕ
attempts_left j = if j.status == JobStatus.pending then j.max_attempts - j.attempts else 0

abbrev pub budget : List Job → ℕ
budget = sum_by job_id attempts_left

outcome_spends :
    {World : Type 0} (now : ℕ) (j : Job) (ending : Ending World)
    → IsSettled j
    → j.status ≡ JobStatus.pending
    → attempts_left (outcome_of now j ending j) < attempts_left j
outcome_spends now j (returned world) h p = ground arith
outcome_spends now j (terminal error) h p = ground arith
outcome_spends now j (raised error) h p = ground arith
outcome_spends now j missing h p = ground arith

module _ {World : Type 0} (kinds : List ℕ) (handler : JobRecord → World → Ending World) (now : ℕ)
    (locked : List ℕ) (before : Database World) where
  -- A turn of the worker keeps the queue well formed, however the handler ends: ids stay unique, no
  -- job is left running, attempts never pass their maximum, and a pending job has one left.
  pub run_once-IsQueue :
      IsQueue before.jobs → IsQueue (run_once kinds handler now locked before).1.jobs
  run_once-IsQueue queue = elim (Option-cases (first_runnable now kinds locked before.jobs)) [
    | inl none_found ↦ rw (run_once_idle kinds handler now locked before none_found) queue
    | inr (j, e) ↦
        let (run, there) = first_runnable-found now kinds locked before.jobs j queue.keyed e in
        let ending = run_handler kinds handler (record_of j) before.world in
        let g = outcome_of now j ending in
        rw (run_once_lem kinds handler now locked before j e) (record {
          keyed =
              update_where-IsKeyed job_id j.id g (key-outcome_of now j ending) before.jobs
                queue.keyed;
          settled =
              All-update_found job_id IsSettled j.id g before.jobs j queue.keyed there
                (outcome-IsSettled now j ending
                  (All-find job_id IsSettled j.id before.jobs j queue.settled there)
                  (pending_of_runnable now kinds locked j run))
                queue.settled;
        })
  ]

  -- On a well-formed queue, a turn that finds a job lowers the number of attempts that the pending
  -- jobs have left together, however the handler ends.
  pub run_once_spends :
      (j : Job)
      → IsQueue before.jobs
      → first_runnable now kinds locked before.jobs ≡ some j
      → budget (run_once kinds handler now locked before).1.jobs < budget before.jobs
  run_once_spends j queue e =
      let (run, there) = first_runnable-found now kinds locked before.jobs j queue.keyed e in
      let ending = run_handler kinds handler (record_of j) before.world in
      rw (run_once_lem kinds handler now locked before j e) (
        omega (
          arith,
          sum_by-update_where job_id attempts_left j.id (outcome_of now j ending) before.jobs j
              queue.keyed there,
          outcome_spends now j ending
              (All-find job_id IsSettled j.id before.jobs j queue.settled there)
              (pending_of_runnable now kinds locked j run),
        ))

  -- Where the queue is well formed and the handler ends with an exception that is not terminal,
  -- what it wrote is dropped, the job counts one more attempt, and it is dead if that was the last
  -- allowed and pending if not.
  pub run_once_failure :
      (j : Job) (error : Text)
      → IsQueue before.jobs
      → first_runnable now kinds locked before.jobs ≡ some j
      → handler (record_of j) before.world ≡ raised error
      → let after = (run_once kinds handler now locked before).1 in
        (after.world ≡ before.world)
        × (map_option (λ x. x.attempts) (find job_id j.id after.jobs) ≡ some (j.attempts + 1))
        × (map_option (λ x. x.status) (find job_id j.id after.jobs)
            ≡ some
                (if leb j.max_attempts (j.attempts + 1) then JobStatus.dead else JobStatus.pending))
  run_once_failure j error queue e fails =
      let (run, there) = first_runnable-found now kinds locked before.jobs j queue.keyed e in
      let row =
        find-update_where job_id j.id (mark_failed now (record_of j) error) (λ x. refl) j.id
          before.jobs in
      let unhandled =
        find-update_where job_id j.id
          (λ x. mark_failed now (record_of j) no_handler (mark_running now x)) (λ x. refl) j.id
          before.jobs in
      elim (Bool-cases (contains j.kind kinds)) [
        | inl handled ↦
            rw (run_once_lem kinds handler now locked before j e, handled, fails)
              (refl, ground (arith, row, there), ground (arith, row, there))
        | inr none_found ↦
            rw (run_once_lem kinds handler now locked before j e, none_found)
              (refl, ground (arith, unhandled, there), ground (arith, unhandled, there))
      ]
