-- ===== src/Platform/Jobs/Claim.antt =====
-- Which row a claim takes.
use aiworkos.Base.{
  ℕ, ◌+◌, ◌≡◌, refl, subst, ◌≢◌, ◌⊎◌, inl, inr, true, false, none, some, List, [], ◌∷◌, arith, ◌==◌,
  nat_eq, option_eq, All, Bool-cases, Option-cases,
}
use aiworkos.Base.Table.{find, IsKeyed, find-update_where, find_later, find_head}
use aiworkos.Platform.Jobs.Runnable.{
  IsRunnable, IsBefore, IsRunnable-of_test, IsRunnable-test, comes_before-IsBefore, All-map,
}
use aiworkos.Platform.Jobs.{
  JobStatus, job_status_eq, Job, JobRecord, job_id, is_runnable, comes_before, first_runnable,
  mark_running, record_of, claim,
}

pub first_runnable-found :
    (now : ℕ) (kinds locked : List ℕ) (jobs : List Job) (j : Job)
    → IsKeyed job_id jobs
    → first_runnable now kinds locked jobs ≡ some j
    → (is_runnable now kinds locked j ≡ true) × (find job_id j.id jobs ≡ some j)
unfolding first_runnable
first_runnable-found now kinds locked [] j k h = absurd (cc h)
first_runnable-found now kinds locked (x ∷ jobs) j k h =
    elim (Bool-cases (is_runnable now kinds locked x)) [
      | inr skipped ↦
          let (run, there) = first_runnable-found now kinds locked jobs j k.1 (rw skipped at h) in
          (run, find_later job_id x j.id jobs j k.0 there)
      | inl taken ↦ elim (Option-cases (first_runnable now kinds locked jobs)) [
        | inl empty ↦
            let same : x ≡ j = ground arith in
            subst
              (λ y.
                (is_runnable now kinds locked y ≡ true) × (find job_id y.id (x ∷ jobs) ≡ some y))
              same (taken, find_head job_id x jobs)
        | inr (best, e) ↦ elim (Bool-cases (comes_before best x)) [
          | inl kept ↦
              let same : best ≡ j = ground arith in
              let (run, there) = first_runnable-found now kinds locked jobs j k.1 (ground arith) in
              (run, find_later job_id x j.id jobs j k.0 there)
          | inr beaten ↦
              let same : x ≡ j = ground arith in
              subst
                (λ y.
                  (is_runnable now kinds locked y ≡ true) × (find job_id y.id (x ∷ jobs) ≡ some y))
                same (taken, find_head job_id x jobs)
        ]
      ]
    ]

comes_before_refl : (a : Job) → comes_before a a ≡ true
comes_before_refl a = ground arith

comes_before_trans :
    (a b c : Job) → comes_before a b ≡ true → comes_before b c ≡ true → comes_before a c ≡ true
comes_before_trans a b c h k = ground arith

comes_before_total : (a b : Job) → comes_before a b ≡ false → comes_before b a ≡ true
comes_before_total a b h = ground arith

-- The key of every runnable row is at or behind the first one's.
abbrev pub IsFirst : ℕ → List ℕ → List ℕ → Job → List Job → Type 0
IsFirst now kinds locked j =
    All (λ x. is_runnable now kinds locked x ≡ true → comes_before j x ≡ true)

IsFirst-weaken :
    (now : ℕ) (kinds locked : List ℕ) (i j : Job) (jobs : List Job)
    → comes_before i j ≡ true
    → IsFirst now kinds locked j jobs
    → IsFirst now kinds locked i jobs
IsFirst-weaken now kinds locked i j [] h first = tt
IsFirst-weaken now kinds locked i j (x ∷ jobs) h first = (
  λ run. comes_before_trans i j x h (first.0 run),
  IsFirst-weaken now kinds locked i j jobs h first.1,
)

none_runnable :
    (now : ℕ) (kinds locked : List ℕ) (j : Job) (jobs : List Job)
    → first_runnable now kinds locked jobs ≡ none
    → IsFirst now kinds locked j jobs
unfolding first_runnable
none_runnable now kinds locked j [] h = tt
none_runnable now kinds locked j (x ∷ jobs) h =
    (λ run. cc (rw run at h), none_runnable now kinds locked j jobs (ground arith))

nothing_runnable :
    (now : ℕ) (kinds locked : List ℕ) (jobs : List Job)
    → first_runnable now kinds locked jobs ≡ none
    → All (λ x. is_runnable now kinds locked x ≢ true) jobs
unfolding first_runnable
nothing_runnable now kinds locked [] h = tt
nothing_runnable now kinds locked (x ∷ jobs) h =
    (λ run. cc (rw run at h), nothing_runnable now kinds locked jobs (ground arith))

first_runnable-IsFirst :
    (now : ℕ) (kinds locked : List ℕ) (jobs : List Job) (j : Job)
    → first_runnable now kinds locked jobs ≡ some j
    → IsFirst now kinds locked j jobs
unfolding first_runnable
first_runnable-IsFirst now kinds locked [] j h = tt
first_runnable-IsFirst now kinds locked (x ∷ jobs) j h =
    elim (Bool-cases (is_runnable now kinds locked x)) [
      | inr skipped ↦ (
        λ run. cc (skipped, run),
        first_runnable-IsFirst now kinds locked jobs j (rw skipped at h),
      )
      | inl taken ↦ elim (Option-cases (first_runnable now kinds locked jobs)) [
        | inl empty ↦
            let same : x ≡ j = ground arith in
            (
              λ run. subst (λ y. comes_before y x ≡ true) same (comes_before_refl x),
              none_runnable now kinds locked j jobs empty,
            )
        | inr (best, e) ↦ elim (Bool-cases (comes_before best x)) [
          | inl kept ↦
              let same : best ≡ j = ground arith in
              (
                λ run. subst (λ y. comes_before y x ≡ true) same kept,
                first_runnable-IsFirst now kinds locked jobs j (ground arith),
              )
          | inr beaten ↦
              let same : x ≡ j = ground arith in
              let over = comes_before_total best x beaten in
              (
                λ run. subst (λ y. comes_before y x ≡ true) same (comes_before_refl x),
                subst (λ y. IsFirst now kinds locked y jobs) same
                    (IsFirst-weaken now kinds locked x best jobs over
                      (first_runnable-IsFirst now kinds locked jobs best e)),
              )
        ]
      ]
    ]

-- What a claim that hands on `r` does to the queue: it takes the first runnable row, marks it running
-- since `now` with one more attempt, and leaves the other rows alone.
pub record Claims (now : ℕ) (kinds locked : List ℕ) (jobs : List Job) (r : JobRecord)
    (after : List Job) : Type 0 where
  pub job : Job
  pub runnable : IsRunnable now kinds locked job
  pub is_first : All (λ x. IsRunnable now kinds locked x → IsBefore job x) jobs
  pub was_there : find job_id r.id jobs ≡ some job
  pub handed_on : r ≡ record {
    id = job.id;
    org_id = job.org_id;
    kind = job.kind;
    payload = job.payload;
    attempts = job.attempts + 1;
    max_attempts = job.max_attempts;
  }
  pub marked :
      find job_id r.id after
      ≡ some (record job {
        status = JobStatus.running;
        attempts = job.attempts + 1;
        started_at = some now;
        version = job.version + 1;
      })
  pub others : (i : ℕ) → (i == r.id) ≡ false → find job_id i after ≡ find job_id i jobs

-- Where ids are unique, a claim either takes the first row, by time and then by id, that is pending,
-- due, held by no worker and of a kind asked for (of any kind, where none is asked for), counts an
-- attempt on it, marks it running since then and touches no other row; or there is no such row, and
-- nothing changes.
pub claim-first :
    (now : ℕ) (kinds locked : List ℕ) (jobs : List Job)
    → IsKeyed job_id jobs
    → ((r : JobRecord) × ((claim now kinds locked jobs).0 ≡ some r)
        × Claims now kinds locked jobs r (claim now kinds locked jobs).1)
      ⊎ (((claim now kinds locked jobs).0 ≡ none)
          × ((claim now kinds locked jobs).1 ≡ jobs)
          × All (λ x. ¬ IsRunnable now kinds locked x) jobs)
unfolding claim
claim-first now kinds locked jobs keyed =
    elim (Option-cases (first_runnable now kinds locked jobs)) [
      | inl empty ↦ inr (
        rw (empty, claim),
        rw (empty, claim),
        All-map jobs (λ x idle run. idle (IsRunnable-test now kinds locked x run))
            (nothing_runnable now kinds locked jobs empty),
      )
      | inr (j, e) ↦
          let (run, there) = first_runnable-found now kinds locked jobs j keyed e in
          inl (
            record_of j,
            rw (e, claim),
            rw (e, claim)
                (record {
                  job = j;
                  runnable = IsRunnable-of_test now kinds locked j run;
                  is_first =
                      All-map jobs
                        (λ x first run.
                          comes_before-IsBefore j x
                            (first (IsRunnable-test now kinds locked x run)))
                        (first_runnable-IsFirst now kinds locked jobs j e);
                  was_there = there;
                  handed_on = refl;
                  marked = ground (
                    arith,
                    find-update_where job_id j.id (mark_running now) (λ x. refl) j.id jobs,
                    nat_eq.beq_iff j.id j.id,
                  );
                  others = λ i ne.
                      ground (
                        arith,
                        find-update_where job_id j.id (mark_running now) (λ x. refl) i jobs,
                      );
                }),
          )
    ]
