-- ===== src/Platform/Jobs/Duplicates.antt =====
-- Duplicate requests in the queue, and two workers that meet at one row.
use aiworkos.Base.{
  ℕ, ◌+◌, ◌≤◌, ◌<◌, ◌≡◌, refl, subst, inl, inr, false, Option, none, some, List, [], ◌∷◌, ◌++◌,
  arith, nat_eq, option_eq, any, Bool-cases, Option-cases, if◌then◌else◌,
}
use aiworkos.Base.Text.{Text}
use aiworkos.Base.Table.{
  find, map_option, update_where, IsKeyed, All-append, sum_by, sum_by-update_where,
  find-update_where, append-IsKeyed,
}
use aiworkos.Platform.Jobs.Settled.{IsSettled, IsQueue, outcome_of, run_once_lem, run_once_idle}
use aiworkos.Platform.Jobs.Claim.{first_runnable-found}
use aiworkos.Platform.Jobs.{
  Ending, returned, terminal, raised, missing, run_handler, Database, run_once, JobStatus,
  job_status_eq, Job, JobRecord, job_id, is_same_request, already_queued, new_job, enqueue,
  first_runnable, mark_running, record_of, claim, mark_succeeded, succeed, mark_failed, fail,
}
use aiworkos.Platform.Jobs.Worker.{pending_of_runnable}
use aiworkos.Platform.Jobs.Claim.{claim-first}

-- How many live jobs ask for one thing.
abbrev pub live_requests : ℕ → ℕ → ℕ → List Job → ℕ
live_requests org_id kind key =
    sum_by job_id (λ j. if is_same_request org_id kind key j then 1 else 0)

-- No organization has two live jobs of one kind with one dedupe key.
abbrev pub IsDeduped : List Job → Type 0
IsDeduped jobs = (org_id kind key : ℕ) → live_requests org_id kind key jobs ≤ 1

live_requests-snoc :
    (o k d : ℕ) (jobs : List Job) (j : Job)
    → live_requests o k d (jobs ++ j ∷ [])
      ≡ live_requests o k d jobs + (if is_same_request o k d j then 1 else 0)
live_requests-snoc o k d [] j = omega arith
live_requests-snoc o k d (x ∷ jobs) j = omega (arith, live_requests-snoc o k d jobs j)

no_live_requests :
    (o k d : ℕ) (jobs : List Job)
    → any (is_same_request o k d) jobs ≡ false
    → live_requests o k d jobs ≡ 0
no_live_requests o k d [] h = refl
no_live_requests o k d (x ∷ jobs) h = ground (arith, no_live_requests o k d jobs)

-- In a well-formed queue that has no two live jobs for one organization, kind and dedupe key,
-- enqueueing makes none and keeps the queue well formed, given an id that is new and at least one
-- allowed attempt.
pub enqueue-IsDeduped :
    (new_id now org_id kind payload : ℕ) (dedupe_key : Option ℕ) (max_attempts : ℕ)
    (run_after : Option ℕ) (jobs : List Job)
    → IsDeduped jobs
    → IsQueue jobs
    → find job_id new_id jobs ≡ none
    → 0 < max_attempts
    → IsDeduped (enqueue new_id now org_id kind payload dedupe_key max_attempts run_after jobs).1
      × IsQueue (enqueue new_id now org_id kind payload dedupe_key max_attempts run_after jobs).1
unfolding enqueue
enqueue-IsDeduped new_id now org_id kind payload dedupe_key max_attempts run_after jobs h q fresh
      pos =
    elim (Bool-cases (already_queued org_id kind dedupe_key jobs)) [
      | inl queued ↦ rw queued (h, q)
      | inr new ↦
          let j = new_job new_id now org_id kind payload dedupe_key max_attempts run_after in
          rw new (
            λ o k d. ground (
              arith,
              live_requests-snoc o k d jobs j,
              no_live_requests o k d jobs,
              h o k d,
              nat_eq.beq_iff org_id o,
              nat_eq.beq_iff kind k,
            ),
            record {
              keyed = append-IsKeyed job_id jobs j q.keyed fresh;
              settled = All-append job_id IsSettled jobs j q.settled (ground arith);
            },
          )
    ]

outcome_request :
    {World : Type 0} (o k d now : ℕ) (j : Job) (ending : Ending World)
    → j.status ≡ JobStatus.pending
    → (if is_same_request o k d (outcome_of now j ending j) then 1 else 0)
      ≤ (if is_same_request o k d j then 1 else 0)
outcome_request o k d now j (returned world) p = ground arith
outcome_request o k d now j (terminal error) p = ground arith
outcome_request o k d now j (raised error) p = ground arith
outcome_request o k d now j missing p = ground arith

-- A turn of the worker on a well-formed queue that has no two live jobs for one organization, kind
-- and dedupe key leaves none either.
pub run_once-IsDeduped :
    {World : Type 0} (kinds : List ℕ) (handler : JobRecord → World → Ending World) (now : ℕ)
    (locked : List ℕ) (before : Database World)
    → IsQueue before.jobs
    → IsDeduped before.jobs
    → IsDeduped (run_once kinds handler now locked before).1.jobs
run_once-IsDeduped kinds handler now locked before queue h =
    elim (Option-cases (first_runnable now kinds locked before.jobs)) [
      | inl none_found ↦ rw (run_once_idle kinds handler now locked before none_found) h
      | inr (j, e) ↦
          let (run, there) = first_runnable-found now kinds locked before.jobs j queue.keyed e in
          let ending = run_handler kinds handler (record_of j) before.world in
          rw (run_once_lem kinds handler now locked before j e) (λ o k d. omega (
            arith,
            h o k d,
            sum_by-update_where job_id (λ x. if is_same_request o k d x then 1 else 0) j.id
                (outcome_of now j ending) before.jobs j queue.keyed there,
            outcome_request o k d now j ending (pending_of_runnable now kinds locked j run),
          ))
    ]

-- If a job that has attempts left is claimed and succeeds, a failure of it that is recorded
-- afterwards puts the succeeded job back to pending. Ids are unique.
pub fail_overwrites_success :
    (now later : ℕ) (kinds : List ℕ) (jobs : List Job) (r : JobRecord) (error : Text)
    → IsKeyed job_id jobs
    → (claim now kinds [] jobs).0 ≡ some r
    → r.attempts < r.max_attempts
    → let finished = succeed now r.id (claim now kinds [] jobs).1 in
      (map_option (λ j. j.status) (find job_id r.id finished) ≡ some JobStatus.succeeded)
      × (map_option (λ j. j.status) (find job_id r.id (fail later r error finished))
          ≡ some JobStatus.pending)
unfolding succeed fail
fail_overwrites_success now later kinds jobs r error keyed h l =
    elim (claim-first now kinds [] jobs keyed) [
      | inr (empty, same, nothing) ↦ absurd (cc (empty, h))
      | inl (r', e, c) ↦
          let same : r' ≡ r = ground arith in
          let claimed = (claim now kinds [] jobs).1 in
          let there =
            subst (λ x. find job_id x.id claimed ≡ some (mark_running now c.job)) same c.marked in
          let first = find-update_where job_id r.id (mark_succeeded now) (λ x. refl) r.id claimed in
          let second =
            find-update_where job_id r.id (mark_failed later r error) (λ x. refl) r.id
              (update_where job_id r.id (mark_succeeded now) claimed) in
          (
            ground (arith, there, first, nat_eq.beq_iff r.id r.id),
            ground (arith, there, first, second, nat_eq.beq_iff r.id r.id),
          )
    ]
