-- ===== src/Lib.antt =====
-- AI WorkOS backend: a model of the core of backend/app and the theorems that make it correct.
--
-- The program keeps an organization's work: people and their roles, projects, work items,
-- assignments, dependencies and promises. A use case authorizes the request, applies the rules of
-- its context, writes with a version guard, and appends an audit entry and a domain event, all in
-- one transaction. Slow work goes through a queue of jobs that a worker takes one by one.
--
-- Base: Booleans, equality, lists, results and exceptions (Result), Python's text (Text), tables by
--   primary key (Table), loops over rows that were read before them (Loop), parent pointers
--   (Forest) and integers (Int).
-- Platform/Authz: backend/app/platform/authz. Model is model.py, Matrix is matrix.py row by row,
--   and Policy is policy.py: `can`, `authorize`, `_ordered` and `grants_for`. Policy/Exact,
--   Decisions, Roles and Lists are the proofs.
-- Platform/Authz/Agent: agent.py, the tools that an agent can reach under a policy.
-- Platform/Jobs: `enqueue`, `claim`, `succeed`, `kill` and `fail` of platform/jobs.py, and
--   `run_once` of workers/runner.py with the handler as a parameter. The queue is a list of rows;
--   the rows that other workers hold are given to a claim as a list of ids. A handler ends by
--   returning, by a TerminalJobError or by another exception, and on an exception what it wrote is
--   rolled back. A claim that is given no kinds takes a job of any kind, and a job without
--   a handler fails.
-- Platform/Repository: the version-guarded UPDATE that the repositories of all contexts share.
-- Platform/Outbox: `relay_once` of platform/outbox.py, with the publisher as a parameter.
-- Platform/Records: actors, audit entries and domain events (platform/actor.py, audit.py,
--   outbox.py).
-- Identity: the statuses of contexts/identity/domain.py that other parts test.
-- Work: contexts/work/domain.py. Vocabulary holds its enumerations, and Visibility, Lifecycle,
--   Hierarchy, Assignment, Dependency, Project and Reporting its rules, under the source's names.
--   Machine, Placement, Seats, Relation, Bound, Closed, Walks, Acyclic and Totals are the proofs.
-- Work/Rows: the five tables of contexts/work/models.py. Work/Store: the state of the services, the
--   audit entries and events that a write leaves (`_audit`, `_emit`), and the loaders.
--   Work/Queries: the reads of contexts/work/repository.py. Work/Relations:
--   contexts/work/authorization.py.
-- Work/Service: the use cases of contexts/work/services.py, in Projects, Milestones, Items
--   (WorkService), Assignments and Dependencies, with contexts/work/commands.py and
--   platform/partial.py in Commands. `ProjectService.create`, `update`, `change_status` and
--   `change_visibility` are create_project, edit_project, change_project_status and
--   change_project_visibility, and so on; `apply_status` takes the version that the guarded update
--   expects. A use case maps the state to its row and the next state, or to an exception. The
--   Identity context and the clock are a part of the caller's context. Steps is the abstract view:
--   one row of one table inserted or written, with what was checked. Refines shows that the use
--   cases are made of steps, History collects them, and Keyed, Completion, Seating, Graph and Trail
--   are the invariants that follow. Outcomes is what the cascades leave.
-- Commitment: Domain is contexts/commitment/domain.py up to the due phrases, Repository the table
--   and the writes of models.py and repository.py with the constraints that migration 0010 puts on
--   a row, Store the commands and the state (the rows, the audit entries and the events), and
--   Service the use cases of services.py, where `update` is `update_details`. What other contexts
--   say of their rows is a record of functions. Service/Rows, Effects, Creation, Outcomes, Transitions,
--   History, Trail and Checks are the proofs.
--
-- Exceptions are values of Result with the id of the rule or the kind of error; their texts are not
-- modelled. Sets are lists read by membership. Ids, dates and times are natural numbers, since the
-- code only compares them; a confidence is an integer. `find_cycle` runs on fuel, one round for the
-- start and one for each edge, which is enough: find_cycle_terminates. The recursive query for
-- ancestors returns at most ten, as the source's does, and the theorems on placements ask no more.
--
-- The loops of the cascades run over rows that were read before them, as the source's do, and end
-- with them. Tables stand in the order of insertion, which is that of their ids (uuid7).
--
-- Not modelled: due phrases, foreign keys, and in the Work Core unique indexes and triggers, which
-- could only refuse more; the HTTP interface, the web client, migrations and deployment; the
-- services of identity, intelligence and signal, the agent's runtime and the mail connector;
-- logging, object storage and id generation, which are I/O or other libraries.
pub mod Base
pub mod Platform
pub mod Identity
pub mod Work
pub mod Commitment
