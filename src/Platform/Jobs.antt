-- ===== src/Platform/Jobs.antt =====
-- The durable job queue, platform/jobs.py, and one turn of its worker, workers/runner.py. Kinds,
-- dedupe keys, payloads and ids are numbers, since they are only compared or handed on. The handler
-- is a parameter; `World` is what it writes in the transaction. Logging is not modelled.
pub mod Runnable
pub mod Claim
pub mod Settled
pub mod Worker
pub mod Duplicates
use aiworkos.Base.{
  ℕ, suc, ◌+◌, ◌≡◌, Bool, true, false, ◌&&◌, ◌||◌, Option, none, some, List, [], ◌∷◌, ◌++◌, arith,
  Eq, Eq_of_positions, ◌==◌, nat_eq, option_eq, ltb, leb, any, contains, filter, if◌then◌else◌,
}
use aiworkos.Base.Text.{Text, codes}
use aiworkos.Base.Table.{update_where}

pub data JobStatus : Type 0 where
  pending running succeeded dead : JobStatus

abbrev pub job_status_position : JobStatus → ℕ
job_status_position JobStatus.pending = 0
job_status_position JobStatus.running = 1
job_status_position JobStatus.succeeded = 2
job_status_position JobStatus.dead = 3

pub job_status_injective : (a b : JobStatus) → job_status_position a ≡ job_status_position b → a ≡ b
job_status_injective a b h = ground arith

instance abbrev pub job_status_eq : Eq JobStatus
job_status_eq = Eq_of_positions job_status_position job_status_injective

pub record Job : Type 0 where
  pub id : ℕ
  pub org_id : ℕ
  pub kind : ℕ
  pub payload : ℕ
  pub status : JobStatus
  pub attempts : ℕ
  pub max_attempts : ℕ
  pub run_after : ℕ
  pub started_at : Option ℕ
  pub finished_at : Option ℕ
  pub last_error : Option Text
  pub dedupe_key : Option ℕ
  pub version : ℕ

pub record JobRecord : Type 0 where
  pub id : ℕ
  pub org_id : ℕ
  pub kind : ℕ
  pub payload : ℕ
  pub attempts : ℕ
  pub max_attempts : ℕ

abbrev pub job_id : Job → ℕ
job_id j = j.id

-- RETRY_DELAY, in seconds.
abbrev pub retry_delay : ℕ
retry_delay = 30

abbrev pub is_live : Job → Bool
is_live j = (j.status == JobStatus.pending) || (j.status == JobStatus.running)

-- A queued or running job of this organization, kind and dedupe key.
abbrev pub is_same_request : ℕ → ℕ → ℕ → Job → Bool
is_same_request org_id kind key j =
    (j.org_id == org_id) && (j.kind == kind) && (j.dedupe_key == some key) && is_live j

abbrev pub already_queued : ℕ → ℕ → Option ℕ → List Job → Bool
already_queued org_id kind none jobs = false
already_queued org_id kind (some key) jobs = any (is_same_request org_id kind key) jobs

abbrev or_else : Option ℕ → ℕ → ℕ
or_else none now = now
or_else (some t) now = t

-- The row that `enqueue` adds; `now` is the database's clock and `new_id` what `uuid7` returns.
abbrev pub new_job : ℕ → ℕ → ℕ → ℕ → ℕ → Option ℕ → ℕ → Option ℕ → Job
new_job new_id now org_id kind payload dedupe_key max_attempts run_after = record {
  id = new_id;
  org_id = org_id;
  kind = kind;
  payload = payload;
  status = JobStatus.pending;
  attempts = 0;
  max_attempts = max_attempts;
  run_after = or_else run_after now;
  started_at = none;
  finished_at = none;
  last_error = none;
  dedupe_key = dedupe_key;
  version = 1;
}

unfoldable pub enqueue :
    ℕ → ℕ → ℕ → ℕ → ℕ → Option ℕ → ℕ → Option ℕ → List Job → Option Job × List Job
enqueue new_id now org_id kind payload dedupe_key max_attempts run_after jobs =
    let job = new_job new_id now org_id kind payload dedupe_key max_attempts run_after in
    if already_queued org_id kind dedupe_key jobs
    then (none, jobs)
    else (some job, jobs ++ job ∷ [])

-- `AND kind = ANY(:kinds)`, which is left out where no kinds are given: `[]` is also None.
abbrev pub is_asked : List ℕ → ℕ → Bool
is_asked [] kind = true
is_asked (k ∷ kinds) kind = contains kind (k ∷ kinds)

-- The WHERE clause of `claim`; `locked` are the rows that other workers hold.
abbrev pub is_runnable : ℕ → List ℕ → List ℕ → Job → Bool
is_runnable now kinds locked j =
    (j.status == JobStatus.pending)
    && leb j.run_after now
    && is_asked kinds j.kind
    && (if contains j.id locked then false else true)

-- ORDER BY run_after, id
abbrev pub comes_before : Job → Job → Bool
comes_before a b = ltb a.run_after b.run_after || ((a.run_after == b.run_after) && leb a.id b.id)

abbrev pub earlier : Job → Option Job → Job
earlier j none = j
earlier j (some best) = if comes_before best j then best else j

-- LIMIT 1
unfoldable pub first_runnable : ℕ → List ℕ → List ℕ → List Job → Option Job
first_runnable now kinds locked [] = none
first_runnable now kinds locked (j ∷ jobs) =
    let rest = first_runnable now kinds locked jobs in
    if is_runnable now kinds locked j then some (earlier j rest) else rest

abbrev pub mark_running : ℕ → Job → Job
mark_running now j = record j {
  status = JobStatus.running;
  attempts = j.attempts + 1;
  started_at = some now;
  version = j.version + 1;
}

abbrev pub record_of : Job → JobRecord
record_of j = record {
  id = j.id;
  org_id = j.org_id;
  kind = j.kind;
  payload = j.payload;
  attempts = j.attempts + 1;
  max_attempts = j.max_attempts;
}

unfoldable pub claim : ℕ → List ℕ → List ℕ → List Job → Option JobRecord × List Job
unfolding first_runnable
claim now kinds locked jobs = elim (first_runnable now kinds locked jobs) [
  | none ↦ (none, jobs)
  | some j ↦ (some (record_of j), update_where job_id j.id (mark_running now) jobs)
]

abbrev pub mark_succeeded : ℕ → Job → Job
mark_succeeded now j = record j {
  status = JobStatus.succeeded;
  finished_at = some now;
  last_error = none;
  version = j.version + 1;
}

unfoldable pub succeed : ℕ → ℕ → List Job → List Job
succeed now id jobs = update_where job_id id (mark_succeeded now) jobs

-- The first 2000 characters, `error[:2000]`.
abbrev pub take : ℕ → Text → Text
take ℕ.zero text = []
take (suc n) [] = []
take (suc n) (c ∷ text) = c ∷ take n text

abbrev pub truncated : Text → Text
truncated error = take 2000 error

abbrev pub mark_dead : ℕ → ℕ → Text → Job → Job
mark_dead now attempts error j = record j {
  attempts = attempts;
  status = JobStatus.dead;
  finished_at = some now;
  last_error = some (truncated error);
  version = j.version + 1;
}

unfoldable pub kill : ℕ → JobRecord → Text → List Job → List Job
kill now r error jobs = update_where job_id r.id (mark_dead now r.attempts error) jobs

abbrev pub mark_failed : ℕ → JobRecord → Text → Job → Job
mark_failed now r error j =
    let exhausted = leb r.max_attempts r.attempts in
    record j {
      attempts = r.attempts;
      status = if exhausted then JobStatus.dead else JobStatus.pending;
      run_after = now + retry_delay;
      finished_at = if exhausted then some now else none;
      last_error = some (truncated error);
      version = j.version + 1;
    }

unfoldable pub fail : ℕ → JobRecord → Text → List Job → List Job
fail now r error jobs = update_where job_id r.id (mark_failed now r error) jobs

-- How a handler ends: with its outcome and what it wrote, by a TerminalJobError, or by any other
-- exception; or there is no handler for the job's kind.
pub data Ending (World : Type 0) : Type 0 where
  returned : World → Ending World
  terminal : Text → Ending World
  raised : Text → Ending World
  missing : Ending World

pub record Database (World : Type 0) : Type 0 where
  pub jobs : List Job
  pub world : World

pub record RunReport : Type 0 where
  pub claimed : ℕ
  pub succeeded : ℕ
  pub failed : ℕ

-- `no handler for ...`, without the name of the kind.
abbrev pub no_handler : Text
no_handler = codes "no handler"

-- `kinds` are the keys of HANDLERS.
module _ {World : Type 0} (kinds : List ℕ) (handler : JobRecord → World → Ending World) where
  -- What is committed at the end of the transaction that claimed the job. On an exception the
  -- transaction is rolled back to `before`, and the failure is written there.
  abbrev pub finish :
      ℕ → Database World → JobRecord → List Job → Ending World → RunReport × Database World
  finish now before r claimed (returned world) = (
    record { claimed = 1; succeeded = 1; failed = 0 },
    record { jobs = succeed now r.id claimed; world = world },
  )
  finish now before r claimed (terminal error) = (
    record { claimed = 1; succeeded = 0; failed = 1 },
    record before { jobs = kill now r error before.jobs },
  )
  finish now before r claimed (raised error) = (
    record { claimed = 1; succeeded = 0; failed = 1 },
    record before { jobs = fail now r error before.jobs },
  )
  finish now before r claimed missing = (
    record { claimed = 1; succeeded = 0; failed = 1 },
    record before { jobs = fail now r no_handler claimed },
  )

  -- `HANDLERS.get(record.kind)`, and the call of what it finds.
  abbrev pub run_handler : JobRecord → World → Ending World
  run_handler r world = if contains r.kind kinds then handler r world else missing

  -- What follows the claim.
  abbrev pub take_turn :
      ℕ → Database World → Option JobRecord × List Job → RunReport × Database World
  take_turn now before (none, jobs) = (record { claimed = 0; succeeded = 0; failed = 0 }, before)
  take_turn now before (some r, jobs) = finish now before r jobs (run_handler r before.world)

  unfoldable pub run_once : ℕ → List ℕ → Database World → RunReport × Database World
  run_once now locked before = take_turn now before (claim now kinds locked before.jobs)
