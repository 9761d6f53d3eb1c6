-- ===== src/Lib.antt =====
-- copilot-factory: a control plane that hands coding tasks to worker processes. A task moves through
-- a fixed set of statuses; a worker holds it by a lease; its result goes through a review cycle and a
-- merge queue. The rules stand in packages/domain, the operations over the tables of a database in
-- packages/application, and the database, the web server and the processes behind ports.
--
-- Prelude: tests, lists and enumerations that the rest uses.
-- Domain/Status: the status enumerations of packages/domain/src/enums.ts.
-- Domain/Guards: what the four files of packages/domain/src/state-machines share. A `Map` from a key
--   "FROM→TO" to a guard is the list of its entries; a key is a pair of statuses.
-- Domain/Machine/Task, Lease, Review, Queue: task-, worker-lease-, review-cycle- and
--   merge-queue-item-state-machine.ts. Each module has the table and the exported functions
--   (validateTransition is validate_transition, and so on), its child Guards one definition for each
--   guard, and Diagram the table as a relation. A field of a context that may be undefined is an
--   Option. Messages of refusals are kept.
-- Domain/Replay: the life of an entity, as a list of requests that are accepted one after another.
-- Domain/Policy: retry-policy.ts, escalation-policy.ts, conflict-priority.ts and
--   workspace-cleanup-policy.ts. Texts of reasons are constructors with the values that they quote.
-- Domain/Policy/Validation: validation-policy.ts. Objects that serve as maps are association lists, and
--   a lookup also finds what every object inherits. Selection chooses the profile, Commands looks for
--   checks without a command.
-- Domain/Policy/Paths and FileScope: file-scope-policy.ts. A text is the list of its code units.
--   normalizePath is normalize_path; its two `while` loops and the replacement are structural
--   recursion. Segments compares the prefix test with one on the parts between slashes, Access and
--   Diff say what is allowed.
-- Service/Errors: packages/application/src/errors.ts. A call of a service runs in one transaction, so
--   it gives the new tables, or an error and then the tables are as before.
-- Service/Dependency: dependency.service.ts with the queries of
--   apps/control-plane/src/infrastructure/repositories/task-dependency.repository.ts. detectCycle is
--   recursion on fuel; each nested call marks another target of a row, so one more than the number of
--   rows is enough.
-- Service/Tables: the columns of tasks, leases and worker pools in
--   apps/control-plane/src/infrastructure/database/schema.ts that the services use, the queries
--   and updates of infrastructure/repositories/task.repository.ts and task-lease.repository.ts, audit
--   events and domain events as data. Rows finds and replaces, Exclusive is the invariant.
-- Service/Lease, Heartbeat, Reclaim, TaskOutcome: lease.service.ts, heartbeat.service.ts and
--   lease-reclaim.service.ts over the adapters of
--   apps/control-plane/src/automation/application-adapters.ts. acquireLease is acquire_lease,
--   receiveHeartbeat is receive_heartbeat, detectStaleLeases is detect_stale_leases, reclaimLease is
--   reclaim_lease. The emitted events are part of the result; traces and metrics are left out.
-- Service/Completion: graceful-completion.service.ts; a rejection writes an audit event before it
--   throws, so here the body of the transaction and its rollback are separate.
-- Service/Readiness: readiness.service.ts over the tables of tasks and dependencies; Waiting has what
--   it answers.
-- Service/JobTable and Jobs: job-queue.service.ts over the table of jobs, with the adapter
--   createJobQueueUnitOfWork and the queries of job.repository.ts. createJob is create_job, claimJob is
--   claim_job, and so on; areJobDependenciesMet stands in Jobs/Dependencies. Eligible and Claim say
--   which job is claimed, Life compares the table with an abstract queue.
-- Service/Scheduler: scheduler.service.ts with the adapter createSchedulerUnitOfWork, over
--   acquire_lease and create_job. Run has scheduleNext, schedule_next, whose two writes are transactions
--   of their own; Pools and Order the choices, Assigned and Outcome what a result says of the call,
--   Dispatches what an assignment leaves, Safety and Progress what it keeps and when it succeeds.
--   Tick is scheduler-tick.service.ts: runSchedulingLoop is run_scheduling_loop, on fuel; every call that
--   assigns takes a task out of READY, so one more than their number is enough. Tick/Rows and Loop say
--   what the loop does, Process what the calls do, Runs any sequence of calls.
-- Service/Transition: transition.service.ts with the ports of
--   apps/control-plane/src/infrastructure/unit-of-work/repository-adapters.ts; Replayed compares any
--   sequence of calls with the state machine of tasks. Retry is optimistic-retry.service.ts, whose
--   transition service is any sequence of results; the loop is recursion on the retries that are left.
-- Service/Exclusivity: any sequence of calls of the services of leases, heartbeats and reclaims.
-- Scenarios: the theorems at concrete inputs.
--
-- Identifiers are native natural numbers, which the code only compares; what the generator of
-- identifiers and the clock give are arguments. A row inserted under a taken key is an error;
-- of the foreign keys only that of a lease to its pool is checked. Times are milliseconds since the
-- epoch or seconds, as the file says; they and counts are natural numbers: the source keeps them in doubles, which hold them exactly up to
-- 2 ^ 53. Not modelled: SQL and the object mapper, the web server, the user interface, processes, git,
-- and the other services of packages/application.
pub mod Prelude
pub mod Domain
pub mod Service
pub mod Scenarios
