-- ===== src/Platform/Jobs/Settled.antt =====
-- What a queue between two transactions keeps, over one turn of the worker.
use aiworkos.Base.{
  ℕ, ◌+◌, ◌≤◌, ◌<◌, ◌≡◌, refl, ap, ◌≢◌, none, some, List, arith, nat_eq, option_eq, All,
}
use aiworkos.Base.Table.{update_where, IsKeyed, update_where-fuse}
use aiworkos.Platform.Jobs.{
  Ending, returned, terminal, raised, missing, no_handler, run_handler, Database, finish, run_once,
  JobStatus, job_status_eq, Job, JobRecord, job_id, first_runnable, mark_running, record_of, claim,
  mark_succeeded, succeed, mark_dead, kill, mark_failed, fail,
}

-- A row between two transactions: attempts are within bounds, a pending job has one left, and no
-- job is left running.
pub record IsSettled (j : Job) : Type 0 where
  pub bounded : j.attempts ≤ j.max_attempts
  pub has_one_left : j.status ≡ JobStatus.pending → j.attempts < j.max_attempts
  pub not_running : j.status ≢ JobStatus.running

pub record IsQueue (jobs : List Job) : Type 0 where
  pub keyed : IsKeyed job_id jobs
  pub settled : All IsSettled jobs

-- What the committed row is, by how the handler ended.
abbrev pub outcome_of : {World : Type 0} → ℕ → Job → Ending World → Job → Job
outcome_of now j (returned world) x = mark_succeeded now (mark_running now x)
outcome_of now j (terminal error) x = mark_dead now (j.attempts + 1) error x
outcome_of now j (raised error) x = mark_failed now (record_of j) error x
outcome_of now j missing x = mark_failed now (record_of j) no_handler (mark_running now x)

abbrev pub world_after : {World : Type 0} → World → Ending World → World
world_after before (returned world) = world
world_after before (terminal error) = before
world_after before (raised error) = before
world_after before missing = before

claim_lem :
    (now : ℕ) (kinds locked : List ℕ) (jobs : List Job) (j : Job)
    → first_runnable now kinds locked jobs ≡ some j
    → claim now kinds locked jobs
      ≡ (some (record_of j), update_where job_id j.id (mark_running now) jobs)
unfolding claim
claim_lem now kinds locked jobs j e = rw (e, claim)

claim-none :
    (now : ℕ) (kinds locked : List ℕ) (jobs : List Job)
    → first_runnable now kinds locked jobs ≡ none
    → claim now kinds locked jobs ≡ (none, jobs)
unfolding claim
claim-none now kinds locked jobs e = rw (e, claim)

module _ {World : Type 0} (kinds : List ℕ) (handler : JobRecord → World → Ending World) (now : ℕ)
    (locked : List ℕ) (before : Database World) where
  -- One turn that finds a row changes that row and no other, and keeps what the handler wrote only
  -- if the handler returned.
  finish-lem :
      (j : Job) (ending : Ending World)
      → (finish kinds handler now before
          (record_of j)
          (update_where job_id j.id (mark_running now) before.jobs)
          ending).1
        ≡ record {
          jobs = update_where job_id j.id (outcome_of now j ending) before.jobs;
          world = world_after before.world ending;
        }
  unfolding succeed kill fail
  finish-lem j (returned world) =
      ap {B = Database World} (λ jobs. record { jobs = jobs; world = world })
        (update_where-fuse job_id j.id (mark_succeeded now) (mark_running now) before.jobs
          (λ x. refl))
  finish-lem j (terminal error) = refl
  finish-lem j (raised error) = refl
  finish-lem j missing =
      ap {B = Database World} (λ jobs. record { jobs = jobs; world = before.world })
        (update_where-fuse job_id j.id (mark_failed now (record_of j) no_handler) (mark_running now)
          before.jobs (λ x. refl))

  pub run_once_lem :
      (j : Job)
      → first_runnable now kinds locked before.jobs ≡ some j
      → (run_once kinds handler now locked before).1 ≡ record {
        jobs =
            update_where job_id j.id
              (outcome_of now j (run_handler kinds handler (record_of j) before.world))
              before.jobs;
        world = world_after before.world (run_handler kinds handler (record_of j) before.world);
      }
  unfolding run_once
  run_once_lem j e =
      rw (claim_lem now kinds locked before.jobs j e)
        (finish-lem j (run_handler kinds handler (record_of j) before.world))

  pub run_once_idle :
      first_runnable now kinds locked before.jobs ≡ none
      → run_once kinds handler now locked before
        ≡ (record { claimed = 0; succeeded = 0; failed = 0 }, before)
  unfolding run_once
  run_once_idle e = rw (claim-none now kinds locked before.jobs e)

-- A settled row that was pending is settled again after its turn.
pub outcome-IsSettled :
    {World : Type 0} (now : ℕ) (j : Job) (ending : Ending World)
    → IsSettled j
    → j.status ≡ JobStatus.pending
    → IsSettled (outcome_of now j ending j)
outcome-IsSettled now j (returned world) h p = ground arith
outcome-IsSettled now j (terminal error) h p = ground arith
outcome-IsSettled now j (raised error) h p = ground arith
outcome-IsSettled now j missing h p = ground arith

pub key-outcome_of :
    {World : Type 0} (now : ℕ) (j : Job) (ending : Ending World) (x : Job)
    → job_id (outcome_of now j ending x) ≡ job_id x
key-outcome_of now j (returned world) x = refl
key-outcome_of now j (terminal error) x = refl
key-outcome_of now j (raised error) x = refl
key-outcome_of now j missing x = refl
