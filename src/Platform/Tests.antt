-- ===== src/Platform/Tests.antt =====
-- Concrete requests, queues and rows for the platform's theorems.
use aiworkos.Base.{
  Option, count, map, ℕ, ◌+◌, ◌<◌, ◌≡◌, ◌⊎◌, ◌↔◌, refl, true, none, some, List, [], ◌∷◌, arith,
  ◌==◌, nat_eq, option_eq, contains, any, All, if◌then◌else◌,
}
use mathlib.Core.List.{Memᴰ}
use aiworkos.Base.Text.{Text, codes}
use aiworkos.Base.Table.{find, map_option}
use aiworkos.Base.Result.{ok, err, Resource, stale_version}
use aiworkos.Platform.Authz.Model.{
  Role, ResourceType, Action, Relation, Principal, ResourceRef, action_eq,
}
use aiworkos.Platform.Authz.Policy.{can, grants_for}
use aiworkos.Platform.Authz.Policy.Exact.{permits, relations_of}
use aiworkos.Platform.Authz.Policy.Decisions.{IsAllowed, can_iff, can_monotone}
use aiworkos.Platform.Authz.Policy.Lists.{grants_for_agrees}
use aiworkos.Platform.Authz.Agent.{
  extract, answer, create_work, create_commitment, assign_work, tool_eq, entity, approved_execution,
  tools_of, AgentPrincipal, may_use, assert_within_agent_authority,
}
use aiworkos.Platform.Authz.Agent.Reach.{Enabled, may_use_iff, may_use_within_authority}
use aiworkos.Platform.Jobs.{
  Ending, returned, raised, Database, run_once, JobStatus, Job, JobRecord, job_id, enqueue,
  first_runnable, record_of, claim, succeed, fail,
}
use aiworkos.Platform.Jobs.Runnable.{IsRunnable}
use aiworkos.Platform.Jobs.Claim.{Claims, claim-first}
use aiworkos.Platform.Jobs.Settled.{IsQueue}
use aiworkos.Platform.Jobs.Worker.{budget, run_once-IsQueue, run_once_spends, run_once_failure}
use aiworkos.Platform.Jobs.Duplicates.{
  IsDeduped, enqueue-IsDeduped, run_once-IsDeduped, fail_overwrites_success,
}
use aiworkos.Platform.Outbox.{OutboxRow, is_unpublished, relay_once}
use aiworkos.Platform.Outbox.Progress.{relay_once_counts}
use aiworkos.Platform.Repository.{Versioned, update, second_writer_refused}

-- A team lead of organization 1, and a work item of a team of theirs.
abbrev lead : Principal
lead = record { person_id = 7; org_id = 1; roles = Role.member ∷ Role.team_lead ∷ [] }

abbrev team_work : ResourceRef
team_work = record {
  type = ResourceType.work;
  org_id = 1;
  id = some 40;
  relations = Relation.in_team ∷ [];
}

can_iff_example :
    ((can lead Action.update team_work).allowed ≡ true) ↔ IsAllowed lead Action.update team_work
can_iff_example = can_iff lead Action.update team_work

lead_allowed : (can lead Action.update team_work).allowed ≡ true
unfolding can
lead_allowed = refl

abbrev more_roles : List Role
more_roles = Role.viewer ∷ Role.member ∷ Role.team_lead ∷ []

abbrev more_relations : List Relation
more_relations = Relation.personal ∷ Relation.in_team ∷ []

can_monotone_example :
    (can
      (record lead { roles = more_roles })
      Action.update
      (record team_work { relations = more_relations })).allowed
    ≡ true
can_monotone_example =
    can_monotone lead Action.update team_work more_roles more_relations (λ r m. Memᴰ.tail m)
      (λ r m. Memᴰ.tail m) lead_allowed

abbrev viewer : Principal
viewer = record { person_id = 8; org_id = 1; roles = Role.viewer ∷ [] }

abbrev connector : Principal
connector = record { person_id = 9; org_id = 1; roles = Role.ingestion ∷ [] }

abbrev new_event : ResourceRef
new_event = record { type = ResourceType.event; org_id = 1; id = none; relations = [] }

grants_for_agrees_example : ((can lead Action.update team_work).allowed ≡ true) ↔ (
    any (permits (relations_of team_work)) (grants_for lead Action.update ResourceType.work) ≡ true)
grants_for_agrees_example = grants_for_agrees lead Action.update team_work refl

-- An agent that extracts, in an organization whose policy lets it create work.
abbrev extractor : AgentPrincipal
extractor = record {
  identity = record { name = 1; capabilities = extract ∷ answer ∷ [] };
  delegated = lead;
  policy =
      record {
        capability = extract;
        entity_type = entity ResourceType.work;
        action = Action.create;
        mode = approved_execution;
      }
      ∷ [];
}

may_use_iff_example :
    (may_use extractor create_work ≡ true)
    ↔ Enabled extractor.policy extractor.identity.capabilities create_work
may_use_iff_example = may_use_iff extractor create_work

extractor_creates : may_use extractor create_work ≡ true
unfolding may_use
extractor_creates = refl

may_use_within_authority_example :
    Memᴰ extract (extract ∷ answer ∷ [])
    × (contains create_work (create_work ∷ create_commitment ∷ assign_work ∷ []) ≡ true)
    × ((action : Action) × (r : ResourceType) × (contains create_work (tools_of (entity r) action)
          ≡ true)
        × (assert_within_agent_authority action r ≡ ok tt))
may_use_within_authority_example = may_use_within_authority extractor create_work extractor_creates

-- Two queued jobs, the second of which is due first.
abbrev job_at : ℕ → ℕ → ℕ → Job
job_at id run_after attempts = record {
  id = id;
  org_id = 1;
  kind = 5;
  payload = 0;
  status = JobStatus.pending;
  attempts = attempts;
  max_attempts = 3;
  run_after = run_after;
  started_at = none;
  finished_at = none;
  last_error = none;
  dedupe_key = some id;
  version = 1;
}

abbrev queue : List Job
queue = job_at 1 60 0 ∷ job_at 2 50 2 ∷ []

abbrev kinds : List ℕ
kinds = 5 ∷ []

abbrev no_locks : List ℕ
no_locks = []

queue-IsQueue : IsQueue queue
queue-IsQueue = record {
  keyed = (refl, (refl, tt));
  settled = (
    record { bounded = omega arith; has_one_left = λ p. omega arith; not_running = λ p. cc },
    (record { bounded = omega arith; has_one_left = λ p. omega arith; not_running = λ p. cc }, tt),
  );
}

second_is_first : first_runnable 100 kinds no_locks queue ≡ some (job_at 2 50 2)
unfolding first_runnable
second_is_first = refl

claim-first_example :
    ((r : JobRecord) × ((claim 100 kinds no_locks queue).0 ≡ some r)
      × Claims 100 kinds no_locks queue r (claim 100 kinds no_locks queue).1)
    ⊎ (((claim 100 kinds no_locks queue).0 ≡ none)
        × ((claim 100 kinds no_locks queue).1 ≡ queue)
        × All (λ x. ¬ IsRunnable 100 kinds no_locks x) queue)
claim-first_example = claim-first 100 kinds no_locks queue queue-IsQueue.keyed

-- Where no kind is asked for, a job of any kind is taken.
any_kind_claimed : first_runnable 100 [] no_locks queue ≡ some (job_at 2 50 2)
unfolding first_runnable
any_kind_claimed = refl

-- A handler that counts the jobs it did, and fails on the job 2.
abbrev handle : JobRecord → ℕ → Ending ℕ
handle r n = if r.id == 2 then raised (codes "timeout") else returned (n + 1)

abbrev database : Database ℕ
database = record { jobs = queue; world = 0 }

run_once-IsQueue_example : IsQueue (run_once kinds handle 100 no_locks database).1.jobs
run_once-IsQueue_example = run_once-IsQueue kinds handle 100 no_locks database queue-IsQueue

run_once_spends_example : budget (run_once kinds handle 100 no_locks database).1.jobs < budget queue
run_once_spends_example =
    run_once_spends kinds handle 100 no_locks database (job_at 2 50 2) queue-IsQueue second_is_first

run_once_failure_example :
    let after = (run_once kinds handle 100 no_locks database).1 in
    (after.world ≡ 0)
    × (map_option (λ x. x.attempts) (find job_id 2 after.jobs) ≡ some 3)
    × (map_option (λ x. x.status) (find job_id 2 after.jobs) ≡ some JobStatus.dead)
run_once_failure_example =
    run_once_failure kinds handle 100 no_locks database (job_at 2 50 2) (codes "timeout")
      queue-IsQueue second_is_first refl

queue-IsDeduped : IsDeduped queue
queue-IsDeduped o k d = ground (arith, nat_eq.beq_iff 1 d, nat_eq.beq_iff 2 d)

enqueue-IsDeduped_example :
    IsDeduped (enqueue 3 100 1 5 0 (some 2) 3 none queue).1
    × IsQueue (enqueue 3 100 1 5 0 (some 2) 3 none queue).1
enqueue-IsDeduped_example =
    enqueue-IsDeduped 3 100 1 5 0 (some 2) 3 none queue queue-IsDeduped queue-IsQueue refl
      (omega arith)

run_once-IsDeduped_example : IsDeduped (run_once kinds handle 100 no_locks database).1.jobs
run_once-IsDeduped_example =
    run_once-IsDeduped kinds handle 100 no_locks database queue-IsQueue queue-IsDeduped

-- A job on its first attempt, which two workers get hold of.
abbrev first_attempt : List Job
first_attempt = job_at 1 60 0 ∷ []

abbrev first_record : JobRecord
first_record = record_of (job_at 1 60 0)

first_claimed : (claim 100 kinds [] first_attempt).0 ≡ some first_record
unfolding claim first_runnable
first_claimed = refl

fail_overwrites_success_example :
    let finished = succeed 100 1 (claim 100 kinds [] first_attempt).1 in
    (map_option (λ j. j.status) (find job_id 1 finished) ≡ some JobStatus.succeeded)
    × (map_option (λ j. j.status) (find job_id 1 (fail 101 first_record (codes "timeout") finished))
        ≡ some JobStatus.pending)
fail_overwrites_success_example =
    fail_overwrites_success 100 101 kinds first_attempt first_record (codes "timeout") (refl, tt)
      first_claimed (omega arith)

-- A row as the guarded UPDATE sees it, with a payload.
record Note : Type 0 where
  id : ℕ
  org_id : ℕ
  version : ℕ
  text : ℕ

abbrev notes : Versioned Note
notes = record {
  id = λ x. x.id;
  org_id = λ x. x.org_id;
  version = λ x. x.version;
  bump = λ x. record x { version = x.version + 1 };
  resource = Resource.work;
  id-bump = λ x. refl;
  org_id-bump = λ x. refl;
  version-bump = λ x. refl;
}

abbrev one_note : List Note
one_note = record { id = 4; org_id = 1; version = 2; text = 0 } ∷ []

abbrev write : ℕ → Note → Note
write t x = record x { text = t }

abbrev written : Note
written = record { id = 4; org_id = 1; version = 3; text = 8 }

first_written : update notes 1 4 2 (write 8) one_note ≡ ok (written, written ∷ [])
unfolding update
first_written = refl

second_writer_refused_example :
    update notes 1 4 2 (write 9) (written ∷ []) ≡ err (stale_version Resource.work 4 2)
second_writer_refused_example =
    second_writer_refused notes 1 4 2 (write 8) (write 9) one_note written (written ∷ [])
      (λ y. refl) (λ y. refl) (λ y. refl) first_written

-- Two events, the first of which was published before.
abbrev outbox : List (OutboxRow ℕ)
outbox =
    record { id = 1; event = 11; published_at = some 90; attempts = 1; last_error = none }
    ∷ record { id = 2; event = 12; published_at = none; attempts = 0; last_error = none }
    ∷ []

abbrev accepting : List ℕ → Option Text
accepting events = none

relay_once_counts_example :
    let (handled, after) = relay_once 100 accepting 100 no_locks outbox in
    (count is_unpublished after + handled ≡ 1) × (map (λ r. r.event) after ≡ 11 ∷ 12 ∷ [])
relay_once_counts_example = relay_once_counts 100 accepting 100 no_locks outbox (refl, (refl, tt))
