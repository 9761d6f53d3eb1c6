-- ===== src/Scenarios/Transitions.antt =====
-- Runs of packages/application/src/services/transition.service.ts and optimistic-retry.service.ts.
use copilot_factory.Prelude.{
  ℕ, zero, suc, ◌+◌, true, false, any, length, ◌≡◌, ◌⊎◌, refl, none, some, List, [], ◌∷◌,
}
use copilot_factory.Domain.Status.Task.{TaskStatus, backlog, done, failed, escalated}
use copilot_factory.Domain.Machine.Task.Context.{TransitionContext, empty_context}
use copilot_factory.Domain.Machine.Task.{validate_transition}
use copilot_factory.Domain.Machine.Task.History.{approves, verifies, closes}
use copilot_factory.Domain.Replay.{replay}
use copilot_factory.Domain.Policy.Conflict.{should_retry_on_conflict}
use copilot_factory.Service.Errors.{Result, ok, throw, EntityType, ServiceError, Status, Version}
use copilot_factory.Service.Tables.{TaskRow, ActorInfo, Tables, find_task, update_task}
use copilot_factory.Service.Transition.{TransitionOutcome, transition_task}
use copilot_factory.Service.Transition.Task.{Transitioned, transition_task_cases}
use copilot_factory.Service.Transition.Replayed.{
  TaskRequest, perform_all, accepted, perform_all-replay, perform_all-done,
}
use copilot_factory.Service.Transition.Retry.{
  Ends, max_retries, transition_task_with_priority, transition_task_with_priority-Ends,
}

abbrev operator : ActorInfo
operator = record { type = "operator"; id = 2 }

abbrev ask : TaskStatus → TransitionContext → TaskRequest
ask target context = record {
  id = 7;
  target = target;
  context = context;
  actor = operator;
  metadata = none;
}

abbrev task : TaskRow
task = record {
  task_id = 7;
  status = backlog;
  version = 1;
  retry_count = 0;
  current_lease_id = none;
}

abbrev db : Tables
db = record { tasks = task ∷ []; leases = []; pools = []; audit_events = [] }

transition_task_cases_example :
    ((find_task 7 db ≡ none)
      × (transition_task (ask done empty_context) db
          ≡ throw (ServiceError.entity_not_found EntityType.task 7)))
    ⊎ ((row : TaskRow) × (find_task 7 db ≡ some row)
        × ((((validate_transition row.status done empty_context).valid ≡ false)
              × (transition_task (ask done empty_context) db
                  ≡ throw (
                      ServiceError.invalid_transition EntityType.task 7
                        (Status.of_task row.status)
                        (Status.of_task done)
                        (validate_transition row.status done empty_context).reason)))
            ⊎ ((w : Tables × TransitionOutcome TaskRow) × (transition_task
                    (ask done empty_context)
                    db
                  ≡ ok w)
                × Transitioned (ask done empty_context) db w)))
transition_task_cases_example = transition_task_cases (ask done empty_context) db

-- To DONE by an operator who resolves an escalation; the first request is refused.
abbrev calls : List TaskRequest
calls =
    ask done empty_context
    ∷ ask escalated (record empty_context { is_operator = some true })
    ∷ ask done (record empty_context { is_operator = some true })
    ∷ []

abbrev done_task : TaskRow
done_task = record task { status = done; version = 3 }

perform_all-replay_example :
    (last : TaskRow) × (find_task 7 (perform_all calls db) ≡ some last)
    × (replay validate_transition backlog (accepted 7 calls db) ≡ some last.status)
    × (last.version ≡ 1 + length (accepted 7 calls db))
perform_all-replay_example = perform_all-replay 7 calls db task refl

closed_at_last : find_task 7 (perform_all calls db) ≡ some done_task
unfolding transition_task validate_transition update_task
closed_at_last = refl

perform_all-done_example :
    ((any approves (accepted 7 calls db) ≡ true) × (any verifies (accepted 7 calls db) ≡ true))
    ⊎ (any closes (accepted 7 calls db) ≡ true)
perform_all-done_example = perform_all-done 7 calls db task done_task refl refl closed_at_last refl

-- Two conflicts, then a version.
abbrev attempts : ℕ → Result ℕ
attempts zero = throw (ServiceError.version_conflict EntityType.task 7 (Version.number 1))
attempts (suc zero) = throw (ServiceError.version_conflict EntityType.task 7 (Version.number 2))
attempts (suc (suc n)) = ok 4

transition_task_with_priority-Ends_example :
    Ends attempts
      (should_retry_on_conflict "operator" failed)
      0
      (max_retries none)
      (transition_task_with_priority attempts "operator" failed none)
transition_task_with_priority-Ends_example =
    transition_task_with_priority-Ends attempts "operator" failed none
